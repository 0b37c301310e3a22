-- ===== src/Recognizer/Asked.antt =====
-- What an exchange with the recognition worker is made of.
use sdr_pi.Base.{
  ℕ, ◌≤◌, ◌≡◌, inl, inr, ap, ◌∙◌, String, true, ok, arith, List, [], ◌∷◌, ◌++◌, length, last, pop,
  newline, is_newline, pop-framed, last-append, pop-append, Result-cases,
}
use mathlib.Core.Path.{subst}
use sdr_pi.Recognizer.Messages.{RecognitionRequest, RecognitionResponse}
use sdr_pi.Recognizer.Adapter.{WorkerSocket, request_frame, read_response, ask_worker}

module _ {N : Type 0} (socket : WorkerSocket N) (socket_path : String) (timeout : ℕ) where
  -- A request and its response, from one state of the socket to another: the socket is connected, gets
  -- both timeouts, takes one line that encodes the request in at most 16 KiB, and gives one line of at
  -- most 16 KiB, its newline included, that decodes to the response.
  pub record IsAsked (request : RecognitionRequest) (before : N) (response : RecognitionResponse)
      (after : N) : Type 0 where
    pub sent : List ℕ
    pub received : List ℕ
    pub connected : N
    pub read_timed : N
    pub write_timed : N
    pub written : N
    pub encoded : socket.encode request ≡ ok sent
    pub request_bounded : length sent ≤ 16384
    pub connects : socket.connect socket_path before ≡ (ok tt, connected)
    pub times_reads : socket.set_read_timeout timeout connected ≡ (ok tt, read_timed)
    pub times_writes : socket.set_write_timeout timeout read_timed ≡ (ok tt, write_timed)
    pub writes : socket.write_all (sent ++ newline ∷ []) write_timed ≡ (ok tt, written)
    pub reads : socket.read_until 16385 written ≡ (ok (received ++ newline ∷ []), after)
    pub response_bounded : length (received ++ newline ∷ []) ≤ 16385
    pub decoded : socket.decode received ≡ ok response

  request_frame-encoded :
      (request : RecognitionRequest) (frame : List ℕ)
      → request_frame socket request ≡ ok frame
      → (sent : List ℕ) × (socket.encode request ≡ ok sent)
        × (length sent ≤ 16384)
        × (frame ≡ sent ++ newline ∷ [])
  unfolding request_frame
  request_frame-encoded request frame h = elim (Result-cases (socket.encode request)) [
    | inr (e, p) ↦ absurd (ground (arith, p))
    | inl (sent, p) ↦ (sent, p, ground (arith, p), ground (arith, p))
  ]

  read_response-decoded :
      (frame : List ℕ) (response : RecognitionResponse)
      → read_response socket frame ≡ ok response
      → (length frame ≤ 16385)
        × (is_newline (last frame) ≡ true)
        × (socket.decode (pop frame) ≡ ok response)
  unfolding read_response
  read_response-decoded frame response h = (ground arith, ground arith, ground arith)

  pub encoded-request_frame :
      (request : RecognitionRequest) (sent : List ℕ)
      → socket.encode request ≡ ok sent
      → length sent ≤ 16384
      → request_frame socket request ≡ ok (sent ++ newline ∷ [])
  unfolding request_frame
  encoded-request_frame request sent p q = ground (arith, p, q)

  pub decoded-read_response :
      (received : List ℕ) (response : RecognitionResponse)
      → length (received ++ newline ∷ []) ≤ 16385
      → socket.decode received ≡ ok response
      → read_response socket (received ++ newline ∷ []) ≡ ok response
  unfolding read_response
  decoded-read_response received response h d =
      let ended = last-append received newline in
      let popped : socket.decode (pop (received ++ newline ∷ [])) ≡ ok response =
        ap socket.decode (pop-append received newline) ∙ d in
      ground (arith, h, ended, popped)

  pub exchange-IsAsked :
      (request : RecognitionRequest) (frame reply : List ℕ) (n : N) (response : RecognitionResponse)
      → request_frame socket request ≡ ok frame
      → (ask_worker socket socket_path timeout frame n).0 ≡ ok reply
      → read_response socket reply ≡ ok response
      → IsAsked request n response (ask_worker socket socket_path timeout frame n).1
  unfolding ask_worker
  exchange-IsAsked request frame reply n response p h q =
      let connected = socket.connect socket_path n in
      let reading = socket.set_read_timeout timeout connected.1 in
      let writing = socket.set_write_timeout timeout reading.1 in
      let wrote = socket.write_all frame writing.1 in
      let got = socket.read_until 16385 wrote.1 in
      let all = ask_worker socket socket_path timeout frame n in
      let asked = request_frame-encoded request frame p in
      let answer = read_response-decoded reply response q in
      let framed = pop-framed reply answer.1 in
      let joined : connected.0 ≡ ok tt = ground arith in
      let timed : reading.0 ≡ ok tt = ground arith in
      let timed' : writing.0 ≡ ok tt = ground arith in
      let sent : wrote.0 ≡ ok tt = ground arith in
      let read : got.0 ≡ ok reply = ground arith in
      let ended : got.1 ≡ all.1 = ground arith in
      record {
        sent = asked.0;
        received = pop reply;
        connected = connected.1;
        read_timed = reading.1;
        write_timed = writing.1;
        written = wrote.1;
        encoded = asked.1;
        request_bounded = asked.2;
        connects = ap (λ r. (r, connected.1)) joined;
        times_reads = ap (λ r. (r, reading.1)) timed;
        times_writes = ap (λ r. (r, writing.1)) timed';
        writes =
            subst (λ f. socket.write_all f writing.1 ≡ (ok tt, wrote.1)) asked.3
              (ap (λ r. (r, wrote.1)) sent);
        reads =
            ap (λ r. (r, got.1)) (read ∙ ap (λ (f : List ℕ). ok f) framed)
            ∙ ap (λ (m : N). (ok (pop reply ++ newline ∷ []), m)) ended;
        response_bounded = subst (λ f. length f ≤ 16385) framed answer.0;
        decoded = answer.2;
      }

  pub IsAsked-ask_worker :
      (request : RecognitionRequest) (n : N) (response : RecognitionResponse) (after : N)
      (x : IsAsked request n response after)
      → ask_worker socket socket_path timeout (x.sent ++ newline ∷ []) n
        ≡ (ok (x.received ++ newline ∷ []), after)
  unfolding ask_worker
  IsAsked-ask_worker request n response after x =
      ground (arith, x.connects, x.times_reads, x.times_writes, x.writes, x.reads)
