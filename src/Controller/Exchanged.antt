-- ===== src/Controller/Exchanged.antt =====
-- What a response over the planner's socket is made of.
use sdr_pi.Base.{ℕ, ◌≤◌, ◌≡◌, String, List, [], ◌∷◌, ◌++◌, ok, length, newline}
use sdr_pi.Protocol.{PlanRequest, PlanResponse}
use sdr_pi.Controller.Worker.{Socket, Codec}

module _ (codec : Codec) {N : Type 0} (socket : Socket N) (socket_path : String) (timeout : ℕ) where
  -- A request and its response, from one state of the socket to another: the socket is connected, gets
  -- both timeouts, takes one line that encodes the request in at most 32 KiB, and gives one line of at
  -- most 32 KiB, its newline included, that decodes to the response.
  pub record Exchanged (request : PlanRequest) (before : N) (response : PlanResponse) (after : N)
      : Type 0 where
    pub sent : List ℕ
    pub received : List ℕ
    pub connected : N
    pub read_timed : N
    pub write_timed : N
    pub written : N
    pub encoded : codec.encode request ≡ ok sent
    pub request_bounded : length sent ≤ 32768
    pub connects : socket.connect socket_path before ≡ (ok tt, connected)
    pub times_reads : socket.set_read_timeout timeout connected ≡ (ok tt, read_timed)
    pub times_writes : socket.set_write_timeout timeout read_timed ≡ (ok tt, write_timed)
    pub writes : socket.write_all (sent ++ newline ∷ []) write_timed ≡ (ok tt, written)
    pub reads : socket.read_until 32769 written ≡ (ok (received ++ newline ∷ []), after)
    pub response_bounded : length (received ++ newline ∷ []) ≤ 32769
    pub decoded : codec.decode received ≡ ok response
