-- ===== src/Prelude/Decimal.antt =====
-- str(n) for a natural number.
use Prim.Native.Nat.{ℕ, zero, suc, ◌+◌, ◌/◌, ◌%◌}
use mathlib.Core.List.{[], ◌∷◌, ◌++◌}
use openxcap.Prelude.Tests.{ltb, if◌then◌else◌}
use openxcap.Prelude.Text.{Str}

-- each round drops the last digit, so `n` rounds are enough
unfoldable pub digits : ℕ → ℕ → Str
digits zero n = (48 + n % 10) ∷ []
digits (suc fuel) n =
    let more = digits fuel (n / 10) in
    if ltb n 10 then (48 + n) ∷ [] else more ++ (48 + n % 10) ∷ []

unfoldable pub decimal : ℕ → Str
unfolding digits
decimal n = digits n n
