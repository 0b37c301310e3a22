-- ===== src/Base/Search.antt =====
-- What it means that a text contains another.
use Prim.Native.String.{String, ◌++◌}
use Prim.Native.String.append
use mathlib.Core.Path.{◌≡◌, refl, sym, ap, ◌∙◌, subst}
use mathlib.Core.Logic.{◌↔◌, inl, inr}
use mathlib.Core.Bool.{true}
use native.Mathlib.Omega.{arith}
use text.Mathlib.TextBridge.{IsPrefix}
use text.Mathlib.TextEquality.{starts_with_iff}
use sdr_pi.Base.Tests.{Bool-cases}
use sdr_pi.Base.Text.{starts_with, contains_text}

-- A text that stands in another: `s` is made of something, `t` and something.
abbrev pub StandsIn : String → String → Type 0
StandsIn t s = (before : String) × (after : String) × (before ++ (t ++ after) ≡ s)

contains_text-prefix : (s t : String) → IsPrefix t s → contains_text s t ≡ true
unfolding contains_text
contains_text-prefix String.[] t h = (starts_with_iff String.[] t).1 h
contains_text-prefix (String.◌∷◌ c s) t h = ground (arith, (starts_with_iff (String.◌∷◌ c s) t).1 h)

contains_text-append : (before t after : String) → contains_text (before ++ (t ++ after)) t ≡ true
unfolding contains_text
contains_text-append String.[] t after =
    subst (λ x. contains_text x t ≡ true) (sym (append.nil (t ++ after)))
      (contains_text-prefix (t ++ after) t (after, refl))
contains_text-append (String.◌∷◌ c before) t after =
    subst (λ x. contains_text x t ≡ true) (sym (append.cons c before (t ++ after)))
      (ground (arith, contains_text-append before t after))

contains_text-StandsIn : (s t : String) → contains_text s t ≡ true → StandsIn t s
unfolding contains_text
contains_text-StandsIn String.[] t h =
    let p = (starts_with_iff String.[] t).0 h in (String.[], p.0, append.nil (t ++ p.0) ∙ p.1)
contains_text-StandsIn (String.◌∷◌ c s) t h = elim (Bool-cases (starts_with (String.◌∷◌ c s) t)) [
  | inl here ↦
      let p = (starts_with_iff (String.◌∷◌ c s) t).0 here in
      (String.[], p.0, append.nil (t ++ p.0) ∙ p.1)
  | inr later ↦
      let r = contains_text-StandsIn s t (ground (arith, later)) in
      (String.◌∷◌ c r.0, r.1, append.cons c r.0 (t ++ r.1) ∙ ap (λ x. String.◌∷◌ c x) r.2)
]

pub contains_text_iff : (s t : String) → (contains_text s t ≡ true) ↔ StandsIn t s
contains_text_iff s t = (
  contains_text-StandsIn s t,
  λ r. subst (λ x. contains_text x t ≡ true) r.2 (contains_text-append r.0 t r.1),
)
