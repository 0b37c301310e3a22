-- ===== src/Recognizer/Spooled.antt =====
-- What a file of samples is that `validate_spool_file` accepts for a request.
use sdr_pi.Base.{
  ℕ, ◌+◌, ◌≤◌, ◌≡◌, ◌↔◌, inl, inr, refl, sym, ap, ◌∙◌, String, true, ok, arith, [], ◌∷◌, ◌++◌,
  eq_iff, Result-cases, u64_max,
}
use text.Mathlib.TextBridge.{IsPrefix}
use text.Mathlib.TextEquality.{starts_with_iff}
use mathlib.Core.Path.{subst}
use sdr_pi.Recognizer.Messages.{RecognitionRequest}
use sdr_pi.Recognizer.Adapter.{Components, SpoolFiles, is_below, check_range, validate_spool_file}

is_below-prefix :
    (path root : Components)
    → is_below path root ≡ true
    → (rest : Components) × (path ≡ root ++ rest)
unfolding is_below
is_below-prefix path [] h = (path, refl)
is_below-prefix [] (r ∷ root) h = absurd (ground (arith, h))
is_below-prefix (c ∷ path) (r ∷ root) h =
    let p = is_below-prefix path root (ground (arith, h)) in
    let same = (eq_iff c r).0 (ground (arith, h)) in
    (p.0, ap (λ x. x ∷ path) same ∙ ap (λ t. r ∷ t) p.1)

prefix-is_below : (root rest : Components) → is_below (root ++ rest) root ≡ true
unfolding is_below
prefix-is_below [] [] = refl
prefix-is_below [] (c ∷ rest) = refl
prefix-is_below (c ∷ root) rest = ground (arith, (eq_iff c c).1 refl, prefix-is_below root rest)

-- A regular file that the absolute path of the request names, below the spool root, with the range of
-- samples of the request: the root, the path and the file are looked up one after the other.
pub record IsSpooled {N : Type 0} (files : SpoolFiles N) (spool_root : String)
    (r : RecognitionRequest) (before : N) (path : Components) (after : N) : Type 0 where
  pub root : Components
  pub rest : Components
  pub rooted : N
  pub located : N
  pub length : ℕ
  pub finds_root : files.canonicalize spool_root before ≡ (ok root, rooted)
  pub absolute : IsPrefix "/" r.iq.storage.path
  pub finds_path : files.canonicalize r.iq.storage.path rooted ≡ (ok path, located)
  pub below_root : path ≡ root ++ rest
  pub regular : files.metadata path located ≡ (ok (true, length), after)
  pub in_range : r.iq.storage.offset_bytes + r.iq.storage.length_bytes ≤ u64_max
  pub in_file : r.iq.storage.offset_bytes + r.iq.storage.length_bytes ≤ length

module _ {N : Type 0} (files : SpoolFiles N) (spool_root : String) (r : RecognitionRequest) where
  check_range_iff :
      (length : ℕ)
      → (check_range r length ≡ ok tt)
        ↔ (r.iq.storage.offset_bytes + r.iq.storage.length_bytes ≤ u64_max)
          × (r.iq.storage.offset_bytes + r.iq.storage.length_bytes ≤ length)
  unfolding check_range
  check_range_iff length = (λ h. (ground arith, ground arith), λ h. ground (arith, h.0, h.1))

  validate_spool_file-IsSpooled :
      (n : N) (path : Components)
      → (validate_spool_file files spool_root r n).0 ≡ ok path
      → IsSpooled files spool_root r n path (validate_spool_file files spool_root r n).1
  unfolding validate_spool_file
  validate_spool_file-IsSpooled n path h =
      let rooted = files.canonicalize spool_root n in
      let found = files.canonicalize r.iq.storage.path rooted.1 in
      let all = validate_spool_file files spool_root r n in
      elim (Result-cases rooted.0) [
        | inr (e, p) ↦ absurd (ground (arith, p))
        | inl (root, p) ↦ elim (Result-cases found.0) [
          | inr (e, q) ↦ absurd (ground (arith, p, q))
          | inl (x, q) ↦
              let stat = files.metadata x found.1 in
              elim (Result-cases stat.0) [
                | inr (e, s) ↦ absurd (ground (arith, p, q, s))
                | inl ((file, length), s) ↦
                    let same : x ≡ path = ground (arith, p, q, s) in
                    let below = is_below-prefix x root (ground (arith, p, q, s)) in
                    let regular : file ≡ true = ground (arith, p, q, s) in
                    let ended : all.1 ≡ stat.1 = ground (arith, p, q, s) in
                    let range = (check_range_iff length).0 (ground (arith, p, q, s)) in
                    let shown : stat ≡ (ok (true, length), all.1) =
                      ap (λ y. (y, stat.1)) s
                      ∙ ap (λ b. (ok (b, length), stat.1)) regular
                      ∙ ap (λ (m : N). (ok (true, length), m)) (sym ended) in
                    record {
                      root = root;
                      rest = below.0;
                      rooted = rooted.1;
                      located = found.1;
                      length = length;
                      finds_root = ap (λ y. (y, rooted.1)) p;
                      absolute =
                          (starts_with_iff r.iq.storage.path "/").0 (ground (arith, p, q, s));
                      finds_path = ap (λ y. (y, found.1)) (q ∙ ap (λ (y : Components). ok y) same);
                      below_root = subst (λ y. y ≡ root ++ below.0) same below.1;
                      regular =
                          subst (λ y. files.metadata y found.1 ≡ (ok (true, length), all.1)) same
                            shown;
                      in_range = range.0;
                      in_file = range.1;
                    }
              ]
        ]
      ]

  IsSpooled-validate_spool_file :
      (n : N) (path : Components) (after : N)
      → IsSpooled files spool_root r n path after
      → validate_spool_file files spool_root r n ≡ (ok path, after)
  unfolding validate_spool_file
  IsSpooled-validate_spool_file n path after x =
      let absolute = (starts_with_iff r.iq.storage.path "/").1 x.absolute in
      let below : is_below path x.root ≡ true =
        subst (λ y. is_below y x.root ≡ true) (sym x.below_root) (prefix-is_below x.root x.rest) in
      let range = (check_range_iff x.length).1 (x.in_range, x.in_file) in
      ground (arith, x.finds_root, absolute, x.finds_path, below, x.regular, range)

  pub validate_spool_file_iff :
      (n : N) (path : Components) (after : N)
      → (validate_spool_file files spool_root r n ≡ (ok path, after))
        ↔ IsSpooled files spool_root r n path after
  validate_spool_file_iff n path after = (
    λ h.
        subst (IsSpooled files spool_root r n path) (ap (λ y. y.1) h)
          (validate_spool_file-IsSpooled n path (ap (λ y. y.0) h)),
    IsSpooled-validate_spool_file n path after,
  )
