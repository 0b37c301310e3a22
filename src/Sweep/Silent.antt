-- ===== src/Sweep/Silent.antt =====
-- The recording of a sweep sends nothing over the connection.
use sdr_pi.Base.{ℕ, ◌≡◌, refl, Option, some, none, List, Result, arith, String}
use sdr_pi.Sdr.Recorded.{WireEvent}
use sdr_pi.Sweep.Plan.{ValidatedSweepPlan, SweepError}
use sdr_pi.Sweep.Sigmf.{
  Files, SigmfWriter, open_directory, available_storage_bytes, create, append, or_discard, discard,
  finish,
}
use sdr_pi.Sweep.Adapter.{keep, open_sigmf, finish_sigmf}

-- A file system beside the record of the events.
abbrev pub beside : {N : Type 0} → Files N → Files (N × List WireEvent)
beside files = record {
  exists = λ path s. files.exists path s.0;
  symlink_metadata = λ path s. let (r, n) = files.symlink_metadata path s.0 in (r, (n, s.1));
  create_dir_all = λ path s. let (r, n) = files.create_dir_all path s.0 in (r, (n, s.1));
  set_permissions =
      λ path mode s. let (r, n) = files.set_permissions path mode s.0 in (r, (n, s.1));
  statvfs = λ path s. let (r, n) = files.statvfs path s.0 in (r, (n, s.1));
  now_ns = λ s. let (t, n) = files.now_ns s.0 in (t, (n, s.1));
  create_new = λ path s. let (r, n) = files.create_new path s.0 in (r, (n, s.1));
  write_all = λ path bytes s. let (r, n) = files.write_all path bytes s.0 in (r, (n, s.1));
  sync_all = λ path s. let (r, n) = files.sync_all path s.0 in (r, (n, s.1));
  write_metadata =
      λ path writer s. let (r, n) = files.write_metadata path writer s.0 in (r, (n, s.1));
  remove_file = λ path s. (files.remove_file path s.0, s.1);
}

module _ (V : Type 0) {N : Type 0} (files : Files N) where
  create-silent :
      (directory : String) (plan : ValidatedSweepPlan) (s : N × List WireEvent)
      → (create {V = V} (beside files) directory plan s).1.1 ≡ s.1
  unfolding create open_directory available_storage_bytes
  create-silent directory plan s = ground arith

  append-silent :
      (writer : SigmfWriter) (index center : ℕ) (iq : List ℕ) (s : N × List WireEvent)
      → (append {V = V} (beside files) writer index center iq s).1.1 ≡ s.1
  unfolding append
  append-silent writer index center iq s = ground arith

  finish-silent :
      (writer : SigmfWriter) (s : N × List WireEvent)
      → (finish {V = V} (beside files) writer s).1.1 ≡ s.1
  unfolding finish discard
  finish-silent writer s = ground arith

  pub keep-silent :
      (sigmf : Option SigmfWriter) (index center : ℕ) (iq : List ℕ) (s : N × List WireEvent)
      → (keep {V = V} (beside files) sigmf index center iq s).1.1 ≡ s.1
  unfolding keep
  keep-silent none index center iq s = refl
  keep-silent (some writer) index center iq s =
      ground (arith, append-silent writer index center iq s)

  pub open_sigmf-silent :
      (plan : ValidatedSweepPlan) (directory : Option String) (s : N × List WireEvent)
      → (open_sigmf {V = V} (beside files) plan directory s).1.1 ≡ s.1
  unfolding open_sigmf
  open_sigmf-silent plan none s = refl
  open_sigmf-silent plan (some directory) s = ground (arith, create-silent directory plan s)

  pub finish_sigmf-silent :
      (sigmf : Option SigmfWriter) (s : N × List WireEvent)
      → (finish_sigmf {V = V} (beside files) sigmf s).1.1 ≡ s.1
  unfolding finish_sigmf
  finish_sigmf-silent none s = refl
  finish_sigmf-silent (some writer) s = ground (arith, finish-silent writer s)

  pub or_discard-silent :
      {X : Type 0} (sigmf : Option SigmfWriter)
      (m : N × List WireEvent → Result (SweepError V) X × (N × List WireEvent))
      (s : N × List WireEvent)
      → ((or_discard (beside files) sigmf m s).0 ≡ (m s).0)
        × ((or_discard (beside files) sigmf m s).1.1 ≡ (m s).1.1)
  unfolding discard
  or_discard-silent none m s = (refl, refl)
  or_discard-silent (some writer) m s = (ground arith, ground arith)
