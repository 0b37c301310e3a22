-- ===== src/Sweep/Sigmf.antt =====
-- sweep.rs: `SigmfWriter`, which keeps the samples of a sweep as a SigmF recording. The file system
-- and the clock (std::fs, std::time, statvfs) are parameters; a path is a text.
use sdr_pi.Base.{
  ℕ, ℤ, ◌*◌, ◌/◌, ◌%◌, String, Bool, not, ◌||◌, Option, none, some, List, [], ◌∷◌, ◌++◌, Result, ok,
  err, ok_or, ◌==◌, ltb, if◌then◌else◌, length, min, u64_max, checked_mul, checked_add,
  saturating_mul, decimal, decimal_digits, ◌+++◌, all_chars,
}
use sdr_pi.Base.Action.{Action, ◌>>=◌, ◌>>◌, pure, raise, lift, map_failure}
use sdr_pi.Sweep.Plan.{ValidatedSweepPlan, SweepDataset, SweepError, sweep_error}

-- an entry of "captures"
pub record SigmfCapture : Type 0 where
  pub sample_start : ℕ
  pub frequency : ℕ
  pub point_index : ℕ
  pub rf_bandwidth_hz : ℕ
  pub gain_db : Option ℤ

-- The data file is named by its path. `committed` is set by `finish`, which consumes the writer.
pub record SigmfWriter : Type 0 where
  pub data_path : String
  pub metadata_path : String
  pub captures : List SigmfCapture
  pub samples_written : ℕ
  pub sample_rate_hz : ℕ
  pub rf_bandwidth_hz : ℕ
  pub gain_db : Option ℤ
  pub created_at_ms : ℕ

-- The calls of std::fs, std::time and statvfs, each with the text of its error: `symlink_metadata`
-- tells whether a path is a directory and whether it is a link, `statvfs` the free blocks and their
-- size, `now_ns` the nanoseconds since 1970. `write_metadata` prints the metadata of a writer as JSON.
pub record Files (N : Type 0) : Type 0 where
  pub exists : String → N → Bool
  pub symlink_metadata : String → Action N String (Bool × Bool)
  pub create_dir_all : String → Action N String (Unit {0})
  pub set_permissions : String → ℕ → Action N String (Unit {0})
  pub statvfs : String → Action N String (ℕ × ℕ)
  pub now_ns : N → ℕ × N
  pub create_new : String → Action N String (Unit {0})
  pub write_all : String → List ℕ → Action N String (Unit {0})
  pub sync_all : String → Action N String (Unit {0})
  pub write_metadata : String → SigmfWriter → Action N String (Unit {0})
  pub remove_file : String → N → N

-- `option.and_then(f)`
abbrev pub and_then : Option ℕ → (ℕ → Option ℕ) → Option ℕ
and_then none f = none
and_then (some a) f = f a

-- the bytes that a recording of the plan needs, with a megabyte for the metadata
unfoldable pub required_bytes : {V : Type 0} → ValidatedSweepPlan → Result (SweepError V) ℕ
required_bytes plan =
    elim (and_then
      (and_then (checked_mul (length plan.centers_hz) plan.frame_samples)
        (λ value. checked_mul value plan.aggregate_frames))
      (λ value. checked_mul value 4)) [
        | none ↦ err (sweep_error "sigmf_size" "SigMF byte count overflow")
        | some data_bytes ↦
            ok_or (checked_add data_bytes 1048576)
              (sweep_error "sigmf_size" "SigMF space check overflow")
      ]

-- `drop` of a writer that is not committed
unfoldable pub discard : {N : Type 0} → Files N → SigmfWriter → N → N
discard files writer n =
    files.remove_file writer.metadata_path (files.remove_file writer.data_path n)

module _ {V N : Type 0} (files : Files N) where
  -- a call with the code that its error is given
  abbrev pub file_call : {X : Type 0} → String → Action N String X → Action N (SweepError V) X
  file_call code call = map_failure (sweep_error code) call

  abbrev pub clock : Action N (SweepError V) ℕ
  clock n = let (t, n') = files.now_ns n in (ok t, n')

  unfoldable pub available_storage_bytes : String → Action N (SweepError V) ℕ
  available_storage_bytes path = do
    (if not (all_chars (λ c. not (c == 0)) path)
        then raise (sweep_error "sigmf_space" "capture directory contains a NUL byte")
        else pure tt)
    blocks ← file_call "sigmf_space" (files.statvfs path)
    pure (min (blocks.0 * blocks.1) u64_max)

  -- the directory is there, a directory and not a link
  unfoldable pub open_directory : String → Action N (SweepError V) (Unit {0})
  open_directory directory n =
      (if files.exists directory n
          then (do
            kind ← file_call "sigmf_directory" (files.symlink_metadata directory)
            (if not kind.0 || kind.1
                then raise
                    (sweep_error "sigmf_directory" "SigMF output path must be a real directory")
                else pure tt))
          else file_call "sigmf_directory" (files.create_dir_all directory))
        n

  -- `SigmfWriter::create`; 0o700 is 448
  unfoldable pub create : String → ValidatedSweepPlan → Action N (SweepError V) SigmfWriter
  create directory plan = do
    open_directory directory
    file_call "sigmf_directory" (files.set_permissions directory 448)
    required ← lift (required_bytes plan)
    available ← available_storage_bytes directory
    (if ltb available required
        then raise (
            sweep_error "sigmf_space" (
              "AGX capture directory has "
              +++ decimal available
              +++ " free bytes but this finite scan requires "
              +++ decimal required
              +++ " bytes"))
        else pure tt)
    nonce ← clock
    let stem =
        directory
        +++ "/"
        +++ plan.sweep_id
        +++ "-"
        +++ decimal plan.session_generation
        +++ "-"
        +++ decimal_digits 39 nonce
    file_call "sigmf_create" (files.create_new (stem +++ ".sigmf-data"))
    created_ns ← clock
    pure (record {
      data_path = stem +++ ".sigmf-data";
      metadata_path = stem +++ ".sigmf-meta";
      captures = [];
      samples_written = 0;
      sample_rate_hz = plan.sample_rate_hz;
      rf_bandwidth_hz = plan.rf_bandwidth_hz;
      gain_db = plan.gain_db;
      created_at_ms = min (created_ns / 1_000_000) u64_max;
    })

  -- `SigmfWriter::append`
  unfoldable pub append :
      SigmfWriter → (point_index center_hz : ℕ) → List ℕ → Action N (SweepError V) SigmfWriter
  append writer point_index center_hz iq = do
    (if (length iq == 0) || not (length iq % 4 == 0)
        then raise (
            sweep_error "sigmf_iq_shape"
              "SigMF IQ block must contain complete complex-int16 samples")
        else pure tt)
    file_call "sigmf_write" (files.write_all writer.data_path iq)
    samples ← lift (
        ok_or (checked_add writer.samples_written (length iq / 4))
          (sweep_error "sigmf_size" "SigMF sample count overflow"))
    pure (record writer {
      captures =
          writer.captures
          ++ record {
            sample_start = writer.samples_written;
            frequency = center_hz;
            point_index = point_index;
            rf_bandwidth_hz = writer.rf_bandwidth_hz;
            gain_db = writer.gain_db;
          }
            ∷ [];
      samples_written = samples;
    })

  -- `m`; the writer is dropped where it fails
  abbrev pub or_discard :
      {X : Type 0} → Option SigmfWriter → Action N (SweepError V) X → Action N (SweepError V) X
  or_discard none m n = m n
  or_discard (some writer) m n =
      let (r, n') = m n in elim r [ ok x ↦ (ok x, n') | err e ↦ (err e, discard files writer n') ]

  -- `SigmfWriter::finish`
  unfoldable pub finish : SigmfWriter → Action N (SweepError V) SweepDataset
  unfolding discard
  finish writer = or_discard (some writer) (do
    file_call "sigmf_sync" (files.sync_all writer.data_path)
    file_call "sigmf_meta_create" (files.create_new writer.metadata_path)
    file_call "sigmf_meta_write" (files.write_metadata writer.metadata_path writer)
    file_call "sigmf_meta_sync"
        (files.write_all writer.metadata_path (10 ∷ []) >> files.sync_all writer.metadata_path)
    pure (record {
      format = "sigmf";
      datatype = "ci16_le";
      data_path = writer.data_path;
      metadata_path = writer.metadata_path;
      bytes = saturating_mul writer.samples_written 4;
    }))
