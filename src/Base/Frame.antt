-- ===== src/Base/Frame.antt =====
-- Frames of bytes that end in a newline.
use Prim.Native.Nat.{ℕ}
use mathlib.Core.Path.{◌≡◌, refl, ap}
use mathlib.Core.Bool.{Bool, true, false}
use mathlib.Core.Option.{Option, none, some}
use mathlib.Core.List.{List, [], ◌∷◌, ◌++◌}
use native.Mathlib.Omega.{arith}
use sdr_pi.Base.Tests.{◌==◌}

-- the code of a newline
abbrev pub newline : ℕ
newline = 10

-- `frame.last()`
abbrev pub last : List ℕ → Option ℕ
last [] = none
last (b ∷ []) = some b
last (b ∷ c ∷ bytes) = last (c ∷ bytes)

-- `frame.pop()`
abbrev pub pop : List ℕ → List ℕ
pop [] = []
pop (b ∷ []) = []
pop (b ∷ c ∷ bytes) = b ∷ pop (c ∷ bytes)

abbrev pub is_newline : Option ℕ → Bool
is_newline none = false
is_newline (some b) = b == newline

-- A frame that ends in a newline is what is left of it when that is taken off, and the newline.
pub pop-framed :
    (frame : List ℕ) → is_newline (last frame) ≡ true → frame ≡ pop frame ++ newline ∷ []
pop-framed [] h = absurd (ground arith)
pop-framed (b ∷ []) h = let e : b ≡ newline = ground arith in ap (λ x. x ∷ []) e
pop-framed (b ∷ c ∷ bytes) h = ap (λ x. b ∷ x) (pop-framed (c ∷ bytes) h)

pub last-append : (body : List ℕ) (b : ℕ) → last (body ++ b ∷ []) ≡ some b
last-append [] b = refl
last-append (x ∷ []) b = refl
last-append (x ∷ y ∷ body) b = last-append (y ∷ body) b

pub pop-append : (body : List ℕ) (b : ℕ) → pop (body ++ b ∷ []) ≡ body
pop-append [] b = refl
pop-append (x ∷ []) b = refl
pop-append (x ∷ y ∷ body) b = ap (λ r. x ∷ r) (pop-append (y ∷ body) b)
