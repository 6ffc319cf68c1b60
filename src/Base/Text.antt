-- ===== src/Base/Text.antt =====
-- Strings as lists of code points, compared whole.
use Prim.Native.Char.{code}
use Prim.Native.String.{String}
use Prim.Native.Nat.{ℕ}
use mathlib.Core.Path.{◌≡◌, refl}
use mathlib.Core.Bool.{Bool, true, false}
use mathlib.Core.List.{List, [], ◌∷◌}
use mathlib.Core.Logic.{ite}
use native.Mathlib.Decide.{ℕ_discrete}
use native.Mathlib.Omega.{arith}

abbrev pub Text : Type 0
Text = List ℕ

-- The code points of a literal. `String` has its own `[]` and `∷`.
abbrev pub codes : String → Text
codes String.[] = []
codes (String.◌∷◌ c s) = code c ∷ codes s

pub head_eq : (x y : ℕ) (xs ys : Text) → x ∷ xs ≡ y ∷ ys → x ≡ y
head_eq x y xs ys e = ground arith

pub tail_eq : (x y : ℕ) (xs ys : Text) → x ∷ xs ≡ y ∷ ys → xs ≡ ys
tail_eq x y xs ys e = ground arith

unfoldable pub dec_text : Discrete Text
unfolding ℕ_discrete
dec_text [] [] = yes refl
dec_text [] (y ∷ ys) = no (λ e. cc)
dec_text (x ∷ xs) [] = no (λ e. cc)
dec_text (x ∷ xs) (y ∷ ys) = elim (ℕ_discrete x y) [
  | no n ↦ no (λ e. n (head_eq x y xs ys e))
  | yes p ↦ elim (dec_text xs ys) [ yes q ↦ yes (cc) | no n ↦ no (λ e. n (tail_eq x y xs ys e)) ]
]

abbrev pub same : Text → Text → Bool
same a b = ite (dec_text a b) true false

-- A test that reads as the literal does.
abbrev pub is_text : String → Text → Bool
is_text s a = same a (codes s)

abc_same : same (codes "abc") (codes "abc") ≡ true
unfolding dec_text
abc_same = refl

abc_differs : same (codes "abc") (codes "abd") ≡ false
unfolding dec_text
abc_differs = refl
