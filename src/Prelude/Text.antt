-- ===== src/Prelude/Text.antt =====
-- Python's `str` (and `bytes`) as the list of its code points (its bytes), with the string methods
-- that the program calls.
use Prim.Native.Nat.{ℕ}
use Prim.Native.Char.{code}
use Prim.Native.String.{String}
use mathlib.Core.Path.{◌≡◌, refl}
use mathlib.Core.Logic.{inl, inr, ◌↔◌, ◌≢◌}
use mathlib.Core.Bool.{Bool, true, false, ◌&&◌}
use mathlib.Core.Option.{Option, none, some}
use mathlib.Core.List.{List, [], ◌∷◌, ◌++◌, reverse}
use native.Mathlib.Omega.{arith}
use openxcap.Prelude.Tests.{Option-cases, ◌==◌, if◌then◌else◌}
use openxcap.Prelude.Lists.{All}

abbrev pub Str : Type 0
Str = List ℕ

abbrev pub codes : String → Str
codes String.[] = []
codes (String.◌∷◌ c s) = code c ∷ codes s

-- s == t
unfoldable pub str_eq : Str → Str → Bool
str_eq [] [] = true
str_eq [] (_ ∷ _) = false
str_eq (_ ∷ _) [] = false
str_eq (a ∷ s) (b ∷ t) = a == b && str_eq s t

pub str_eq_iff : (s t : Str) → (str_eq s t ≡ true) ↔ (s ≡ t)
unfolding str_eq
str_eq_iff [] [] = ground arith
str_eq_iff [] (_ ∷ _) = ground arith
str_eq_iff (_ ∷ _) [] = ground arith
str_eq_iff (a ∷ s) (b ∷ t) = ground (arith, str_eq_iff s t)

pub str_eq_refl : (s : Str) → str_eq s s ≡ true
str_eq_refl s = (str_eq_iff s s).1 refl

-- `not s` for a string
abbrev pub is_empty {ℓ} : {A : Type ℓ} → List A → Bool
is_empty [] = true
is_empty (_ ∷ _) = false

-- The rest of `s` behind the prefix `p`; `none` if `s` does not start with `p`.
unfoldable pub strip_prefix : Str → Str → Option Str
strip_prefix [] s = some s
strip_prefix (_ ∷ _) [] = none
strip_prefix (a ∷ p) (b ∷ s) = if a == b then strip_prefix p s else none

-- s.startswith(p)
unfoldable pub starts_with : Str → Str → Bool
unfolding strip_prefix
starts_with s p = elim (strip_prefix p s) [ none ↦ false | some _ ↦ true ]

pub strip_prefix-append : (p s : Str) → strip_prefix p (p ++ s) ≡ some s
unfolding strip_prefix
strip_prefix-append [] s = refl
strip_prefix-append (a ∷ p) s = ground (arith, strip_prefix-append p s)

pub append_of_strip_prefix : (p s r : Str) → strip_prefix p s ≡ some r → s ≡ p ++ r
unfolding strip_prefix
append_of_strip_prefix [] s r h = ground arith
append_of_strip_prefix (a ∷ p) [] r h = ground arith
append_of_strip_prefix (a ∷ p) (b ∷ s) r h = ground (arith, append_of_strip_prefix p s r)

abbrev pub at_front : Option Str → Option (Str × Str)
at_front none = none
at_front (some r) = some ([], r)

abbrev pub in_front : ℕ → Option (Str × Str) → Option (Str × Str)
in_front c none = none
in_front c (some (a, b)) = some (c ∷ a, b)

-- s.split(sep, 1) where `sep` occurs, and `none` where it does not
unfoldable pub split_first : Str → Str → Option (Str × Str)
unfolding strip_prefix
split_first sep [] = at_front (strip_prefix sep [])
split_first sep (c ∷ s) =
    let later = in_front c (split_first sep s) in
    elim (strip_prefix sep (c ∷ s)) [ none ↦ later | some r ↦ some ([], r) ]

split_later :
    (sep : Str) (c : ℕ) (s a b : Str) (o : Option (Str × Str))
    → ((a b : Str) → o ≡ some (a, b) → s ≡ a ++ (sep ++ b))
    → in_front c o ≡ some (a, b)
    → c ∷ s ≡ a ++ (sep ++ b)
split_later sep c s a b none ih h = cc
split_later sep c s a b (some (a', b')) ih h = let e = ih a' b' refl in ground arith

-- A split gives back the text.
pub append_of_split_first :
    (sep s a b : Str) → split_first sep s ≡ some (a, b) → s ≡ a ++ (sep ++ b)
unfolding split_first
append_of_split_first sep [] a b h = elim (Option-cases (strip_prefix sep [])) [
  | inl e ↦ cc (rw e at h)
  | inr (r, e) ↦ let q = append_of_strip_prefix sep [] r e in ground arith
]
append_of_split_first sep (c ∷ s) a b h = elim (Option-cases (strip_prefix sep (c ∷ s))) [
  | inl e ↦ split_later sep c s a b (split_first sep s) (append_of_split_first sep s) (ground arith)
  | inr (r, e) ↦ let q = append_of_strip_prefix sep (c ∷ s) r e in ground arith
]

abbrev pub push_head : ℕ → List Str → List Str
push_head c [] = (c ∷ []) ∷ []
push_head c (s ∷ rest) = (c ∷ s) ∷ rest

-- s.split(c) for one character
unfoldable pub split_on : ℕ → Str → List Str
split_on c [] = [] ∷ []
split_on c (x ∷ s) = let rest = split_on c s in if x == c then [] ∷ rest else push_head x rest

-- c.join(parts)
unfoldable pub join : Str → List Str → Str
join sep [] = []
join sep (s ∷ []) = s
join sep (s ∷ t ∷ rest) = s ++ (sep ++ join sep (t ∷ rest))

-- s.lstrip(chars), for the set of characters that pass `p`
unfoldable pub strip_left : (ℕ → Bool) → Str → Str
strip_left p [] = []
strip_left p (c ∷ s) = if p c then strip_left p s else c ∷ s

-- s.strip(chars)
unfoldable pub strip : (ℕ → Bool) → Str → Str
unfolding strip_left
strip p s = reverse (strip_left p (reverse (strip_left p s)))

abbrev pub Without : ℕ → Str → Type 0
Without c s = All (λ x. x ≢ c) s
