-- ===== src/Recognizer/Answers.antt =====
-- What a response is that `validate_response` accepts for a request.
use sdr_pi.Base.{◌≡◌, ◌↔◌, refl, sym, ap, String, Option, none, some, ok, arith}
use mathlib.Core.Path.{subst}
use sdr_pi.Recognizer.Messages.{
  RecognitionRequest, RecognitionOutput, RecognitionResponse, RecognitionStatus,
}
use sdr_pi.Recognizer.Checks.{
  validate_output, accept_output, report_failure, accept_status, validate_response,
}
use sdr_pi.Recognizer.Outputs.{IsOutput, validate_output_iff}

-- A successful response to this request with an output that is valid for it.
pub record IsAnswer (r : RecognitionRequest) (a : RecognitionResponse) (o : RecognitionOutput)
    : Type 0 where
  pub versioned : a.protocol_version ≡ 1
  pub same_request : a.request_id ≡ r.request_id
  pub same_session : a.session_generation ≡ r.session_generation
  pub succeeded : a.status ≡ RecognitionStatus.ok
  pub no_error : a.error ≡ none
  pub given : a.output ≡ some o
  pub valid : IsOutput r o

-- what `accept_status` accepts
abbrev Accepted :
    RecognitionRequest
    → RecognitionStatus
    → Option RecognitionOutput
    → Option String
    → RecognitionOutput
    → Type 0
Accepted r status output message o =
    (status ≡ RecognitionStatus.ok) × (message ≡ none) × (output ≡ some o) × IsOutput r o

accept_output-IsOutput :
    (r : RecognitionRequest) (output : Option RecognitionOutput) (message : Option String)
    (o : RecognitionOutput)
    → (accept_output r output message ≡ ok o) ↔ (message ≡ none) × (output ≡ some o) × IsOutput r o
unfolding accept_output
accept_output-IsOutput r output (some m) o =
    (λ h. absurd (ground (arith, h)), λ h. absurd (ground (arith, h.0)))
accept_output-IsOutput r none none o =
    (λ h. absurd (ground (arith, h)), λ h. absurd (ground (arith, h.1)))
accept_output-IsOutput r (some x) none o =
    let valid = validate_output_iff r o in
    (
      λ h.
          let same : x ≡ o = ground (arith, h) in
          (
            refl,
            ap (λ y. some y) same,
            valid.0 (subst (λ y. validate_output r y ≡ ok tt) same (ground (arith, h))),
          ),
      λ h.
          let same : x ≡ o = ground (arith, h.1) in
          let passed = subst (λ y. validate_output r y ≡ ok tt) (sym same) (valid.1 h.2) in
          ground (arith, passed, same),
    )

accept_status-Accepted :
    (r : RecognitionRequest) (status : RecognitionStatus) (output : Option RecognitionOutput)
    (message : Option String) (o : RecognitionOutput)
    → (accept_status r status output message ≡ ok o) ↔ Accepted r status output message o
unfolding accept_status report_failure
accept_status-Accepted r RecognitionStatus.ok output message o =
    let accepted = accept_output-IsOutput r output message o in
    (λ h. let c = accepted.0 h in (refl, c.0, c.1, c.2), λ h. accepted.1 (h.1, h.2, h.3))
accept_status-Accepted r RecognitionStatus.error output message o =
    (λ h. absurd (ground (arith, h)), λ h. absurd (ground (arith, h.0)))
accept_status-Accepted r RecognitionStatus.unavailable output message o =
    (λ h. absurd (ground (arith, h)), λ h. absurd (ground (arith, h.0)))

-- A response gives an output exactly if it is of the protocol's version, of the same request and
-- session, successful, without an error, and its output is this one and is valid for the request.
pub validate_response-IsAnswer :
    (r : RecognitionRequest) (a : RecognitionResponse) (o : RecognitionOutput)
    → (validate_response r a ≡ ok o) ↔ IsAnswer r a o
unfolding validate_response
validate_response-IsAnswer r a o =
    let accepted = accept_status-Accepted r a.status a.output a.error o in
    (
      λ h.
          let c = accepted.0 (ground arith) in
          record {
            versioned = ground arith;
            same_request = ground arith;
            same_session = ground arith;
            succeeded = c.0;
            no_error = c.1;
            given = c.2;
            valid = c.3;
          },
      λ q. ground (
        arith,
        q.versioned,
        q.same_request,
        q.same_session,
        accepted.1 (q.succeeded, q.no_error, q.given, q.valid),
      ),
    )
