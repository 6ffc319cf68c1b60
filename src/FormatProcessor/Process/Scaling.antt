-- ===== src/FormatProcessor/Process/Scaling.antt =====
-- multiplyAndDivide of internal/formatprocessor/processor.go.
use mediamtx.Base.{ℕ, zero, ◌+◌, ◌*◌, ◌/◌, ◌%◌, ◌^◌, ◌<◌, ◌≤◌, ◌≡◌, sym, ap, ◌∙◌, arith}
use native.Mathlib.Nat.{
  div-add-mod', add-mul, mul_right_comm, mul-add-div_right, mod-lt, mul-le-mul,
}
use mediamtx.FormatProcessor.Process.{mul_int64, div_int64, mod_int64, multiply_and_divide}

two_parts : (v m d : ℕ) → zero < d → v / d * m + v % d * m / d ≡ v * m / d
two_parts v m d h =
    sym (mul-add-div_right h (v / d * m) (v % d * m))
    ∙ ap (λ x. x / d)
        (ap (λ x. x + v % d * m) (sym (mul_right_comm (v / d) d m))
          ∙ (sym (add-mul (v / d * d) (v % d) m) ∙ ap (λ x. x * m) (div-add-mod' v d)))

rest_le : (v m d : ℕ) → zero < d → v % d * m ≤ d * m
rest_le v m d h = mul-le-mul (omega (arith, mod-lt v h)) (omega arith)

mul_int64_small : (a b : ℕ) → a * b < 2 ^ 63 → mul_int64 a b ≡ a * b
unfolding mul_int64
mul_int64_small a b h = omega (arith, h)

div_int64_small : (a d : ℕ) → a < 2 ^ 63 → div_int64 a d ≡ a / d
unfolding div_int64
div_int64_small a d h = ground (arith, h)

mod_int64_small : (a d : ℕ) → a < 2 ^ 63 → mod_int64 a d ≡ a % d
unfolding mod_int64
mod_int64_small a d h = ground (arith, h)

-- A duration that is not negative is scaled without an overflow on the way, and to the quotient of
-- the whole product, wherever the result and the product of divisor and factor fit in an int64:
-- the product of duration and factor need not fit.
pub multiply_and_divide_lem :
    (v m d : ℕ)
    → zero < d
    → v < 2 ^ 63
    → d * m < 2 ^ 63
    → v * m / d < 2 ^ 63
    → multiply_and_divide v m d ≡ v * m / d
unfolding multiply_and_divide
multiply_and_divide_lem v m d h hv hd hr =
    let secs : v / d * m < 2 ^ 63 = omega (arith, hr, two_parts v m d h) in
    let dec : v % d * m < 2 ^ 63 = omega (arith, hd, rest_le v m d h) in
    let scaled : ℕ → ℕ → ℕ = λ x y. (x + y) % 2 ^ 64 in
    ap (λ q. scaled (mul_int64 q m) (div_int64 (mul_int64 (mod_int64 v d) m) d))
      (div_int64_small v d hv)
    ∙ ap (λ r. scaled (mul_int64 (v / d) m) (div_int64 (mul_int64 r m) d)) (mod_int64_small v d hv)
    ∙ ap (λ x. scaled x (div_int64 (mul_int64 (v % d) m) d)) (mul_int64_small (v / d) m secs)
    ∙ ap (λ y. scaled (v / d * m) (div_int64 y d)) (mul_int64_small (v % d) m dec)
    ∙ ap (scaled (v / d * m)) (div_int64_small (v % d * m) d dec)
    ∙ omega (arith, hr, two_parts v m d h)
