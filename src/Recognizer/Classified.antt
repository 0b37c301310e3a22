-- ===== src/Recognizer/Classified.antt =====
-- What a classification that succeeds is made of.
use sdr_pi.Base.{ℕ, ◌≡◌, refl, String, some}
use sdr_pi.Recognizer.Messages.{RecognitionRequest, RecognitionOutput, RecognitionResponse}
use sdr_pi.Recognizer.Adapter.{Components, SpoolFiles, WorkerSocket, with_path}
use sdr_pi.Recognizer.Requests.{IsRequest}
use sdr_pi.Recognizer.Answers.{IsAnswer}
use sdr_pi.Recognizer.Spooled.{IsSpooled}
use sdr_pi.Recognizer.Asked.{IsAsked}

-- The request for the same samples in a file of another name.
abbrev pub renamed : RecognitionRequest → String → RecognitionRequest
renamed r path = record {
  protocol_version = r.protocol_version;
  request_id = r.request_id;
  session_generation = r.session_generation;
  candidate_id = r.candidate_id;
  iq = record {
    storage = record {
      path = path;
      offset_bytes = r.iq.storage.offset_bytes;
      length_bytes = r.iq.storage.length_bytes;
    };
    sample_format = r.iq.sample_format;
    layout = r.iq.layout;
    normalization = r.iq.normalization;
    samples_per_channel = r.iq.samples_per_channel;
    sample_rate_hz = r.iq.sample_rate_hz;
    center_hz = r.iq.center_hz;
  };
  max_latency_ms = r.max_latency_ms;
}

with_path-renamed : (r : RecognitionRequest) (path : String) → with_path r path ≡ renamed r path
with_path-renamed r path = refl

module _ {N : Type 0} (files : SpoolFiles N) (socket : WorkerSocket N) (socket_path : String)
    (spool_root : String) (timeout : ℕ) where
  -- A classification of a valid request: its samples are in a file below the spool root, the worker
  -- was asked for them under the canonical path of that file, and it answered with the output.
  pub record IsClassified (r : RecognitionRequest) (before : N) (o : RecognitionOutput) (after : N)
      : Type 0 where
    pub valid : IsRequest r
    pub path : Components
    pub text : String
    pub response : RecognitionResponse
    pub looked_up : N
    pub spooled : IsSpooled files spool_root r before path looked_up
    pub named : files.to_str path ≡ some text
    pub asked : IsAsked socket socket_path timeout (renamed r text) looked_up response after
    pub answered : IsAnswer r response o
