-- ===== src/Udp/Decimal.antt =====
-- The decimal digits of a number: the fuel is enough.
use Prim.Native.Char.{code}
use Prim.Native.String
use Prim.Native.Nat.{◌/◌, ◌%◌}
use text.Mathlib.TextLemmas.{nil-append, cons-append}
use corshub.Prelude.{
  ℕ, zero, suc, ◌+◌, ◌-◌, ◌*◌, ◌<◌, ◌≤◌, ◌≡◌, refl, ◌∙◌, ap, String, ltb, Bool-cases, inl, inr,
  arith,
}
use corshub.Udp.Sessions.{digit, decimal_of}

-- The number that a text of digits stands for, after what was read before it.
abbrev value_onto : ℕ → String → ℕ
value_onto acc String.[] = acc
value_onto acc (String.◌∷◌ c s) = value_onto (acc * 10 + (code c - b'0')) s

value_onto-append :
    (acc : ℕ) (s t : String) → value_onto acc (String.◌++◌ s t) ≡ value_onto (value_onto acc s) t
value_onto-append acc String.[] t = rw (nil-append t) refl
value_onto-append acc (String.◌∷◌ c s) t =
    rw (cons-append c s t) (value_onto-append (acc * 10 + (code c - b'0')) s t)

value_onto-digit : (acc n : ℕ) → n < 10 → value_onto acc (digit n) ≡ acc * 10 + n
value_onto-digit acc zero h = omega arith
value_onto-digit acc (suc zero) h = omega arith
value_onto-digit acc (suc (suc zero)) h = omega arith
value_onto-digit acc (suc (suc (suc zero))) h = omega arith
value_onto-digit acc (suc (suc (suc (suc zero)))) h = omega arith
value_onto-digit acc (suc (suc (suc (suc (suc zero))))) h = omega arith
value_onto-digit acc (suc (suc (suc (suc (suc (suc zero)))))) h = omega arith
value_onto-digit acc (suc (suc (suc (suc (suc (suc (suc zero))))))) h = omega arith
value_onto-digit acc (suc (suc (suc (suc (suc (suc (suc (suc zero)))))))) h = omega arith
value_onto-digit acc (suc (suc (suc (suc (suc (suc (suc (suc (suc zero))))))))) h = omega arith
value_onto-digit acc (suc (suc (suc (suc (suc (suc (suc (suc (suc (suc n)))))))))) h =
    absurd (omega arith)

-- The digits that are written with as much fuel as the number counts, or more, stand for the number:
-- the fuel that the model gives is enough.
value-decimal_of : (fuel n : ℕ) → n ≤ fuel → value_onto 0 (decimal_of fuel n) ≡ n
unfolding decimal_of
value-decimal_of zero zero h = refl
value-decimal_of zero (suc n) h = absurd (omega arith)
value-decimal_of (suc fuel) n h = elim (Bool-cases (ltb n 10)) [
  | inl q ↦ rw (q, decimal_of) (value_onto-digit 0 n (ground arith) ∙ omega arith)
  | inr q ↦
      rw (q, decimal_of)
        (value_onto-append 0 (decimal_of fuel (n / 10)) (digit (n % 10))
          ∙ ap (λ acc. value_onto acc (digit (n % 10)))
              (value-decimal_of fuel (n / 10) (ground arith))
          ∙ value_onto-digit (n / 10) (n % 10) (omega arith)
          ∙ omega arith)
]
