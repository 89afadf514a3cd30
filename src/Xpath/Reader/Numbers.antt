-- ===== src/Xpath/Reader/Numbers.antt =====
-- Positions: the digits of a number are read as that number.
use openxcap.Prelude.{
  ℕ, zero, suc, ◌+◌, ◌-◌, ◌*◌, ◌≤◌, ◌≡◌, Bool, true, false, some, [], ◌∷◌, ◌++◌, arith, Str, ok,
  digits, decimal, Bool-cases, inl, inr, ltb, ap, ◌∙◌,
}
use Prim.Native.Nat.{◌/◌, ◌%◌}
use openxcap.Xpath.{pos}
use openxcap.Xpath.Reader.{digits_value, int_of}

-- One more digit at the end.
digits_value-append :
    (k : ℕ) (b : Bool) (s : Str) (v d : ℕ)
    → digits_value k b s ≡ some v
    → d ≤ 9
    → digits_value k b (s ++ (48 + d) ∷ []) ≡ some (v * 10 + d)
unfolding digits_value
digits_value-append k true [] v d h hd = ground arith
digits_value-append k false [] v d h hd = cc
digits_value-append k b (c ∷ s) v d h hd =
    ground
      (arith, digits_value-append (k * 10 + (c - 48)) true s v d, digits_value-append k false s v d)

not_ltb : (n : ℕ) → ltb n 10 ≡ false → 10 ≤ n
not_ltb n h = ground arith

digits_value-digits : (fuel n : ℕ) → n ≤ fuel → digits_value 0 false (digits fuel n) ≡ some n
unfolding digits digits_value
digits_value-digits zero n h = ground arith
digits_value-digits (suc fuel) n h = elim (Bool-cases (ltb n 10)) [
  | inl e ↦ rw e (ground arith)
  | inr e ↦ rw e (
      digits_value-append 0 false (digits fuel (n / 10)) (n / 10) (n % 10)
        (digits_value-digits fuel (n / 10) (omega (arith, not_ltb n e))) (omega arith)
      ∙ ap some (omega arith))
]

int_of-digits_value : (s : Str) (v : ℕ) → digits_value 0 false s ≡ some v → int_of s ≡ ok (pos v)
unfolding int_of digits_value
int_of-digits_value [] v h = cc
int_of-digits_value (c ∷ s) v h = ground arith

pub int_of-decimal : (n : ℕ) → int_of (decimal n) ≡ ok (pos n)
unfolding decimal
int_of-decimal n = int_of-digits_value (digits n n) n (digits_value-digits n n (omega arith))
