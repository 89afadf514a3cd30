-- ===== src/Prelude/Splitting.antt =====
-- Laws of split and join.
use mathlib.Core.Path.{◌≡◌, refl, ap, ◌∙◌}
use mathlib.Core.Logic.{◌≢◌, inl, inr}
use mathlib.Core.Bool.{false}
use mathlib.Core.List.{List, [], ◌∷◌, ◌++◌}
use Prim.Native.Nat.{ℕ}
use native.Mathlib.Omega.{arith}
use openxcap.Prelude.Lists.{All}
use openxcap.Prelude.Tests.{◌==◌, ==_refl, if◌then◌else◌, Bool-cases, Option-cases}
use mathlib.Core.Option.{Option, none, some}
use openxcap.Prelude.Text.{
  Str, split_on, push_head, join, Without, split_first, strip_prefix, in_front,
}

pub split_on-ne-nil : (c : ℕ) (s : Str) → split_on c s ≢ []
unfolding split_on
split_on-ne-nil c [] = cc
split_on-ne-nil c (x ∷ s) = ground arith

join-push_head :
    (sep : Str) (x : ℕ) (l : List Str) → l ≢ [] → join sep (push_head x l) ≡ x ∷ join sep l
unfolding join
join-push_head sep x [] h = absurd (h refl)
join-push_head sep x (s ∷ []) h = refl
join-push_head sep x (s ∷ t ∷ l) h = refl

join-nil_head : (c : ℕ) (l : List Str) → l ≢ [] → join (c ∷ []) ([] ∷ l) ≡ c ∷ join (c ∷ []) l
unfolding join
join-nil_head c [] h = absurd (h refl)
join-nil_head c (s ∷ l) h = refl

-- Joining the parts of a text gives the text.
pub join-split_on : (c : ℕ) (s : Str) → join (c ∷ []) (split_on c s) ≡ s
unfolding split_on join
join-split_on c [] = refl
join-split_on c (x ∷ s) = elim (Bool-cases (x == c)) [
  | inl e ↦
      rw e
        (join-nil_head c (split_on c s) (split_on-ne-nil c s) ∙ ground (arith, join-split_on c s))
  | inr e ↦ rw e (
      join-push_head (c ∷ []) x (split_on c s) (split_on-ne-nil c s)
      ∙ ap (λ t. x ∷ t) (join-split_on c s))
]

-- The first part ends at the first separator.
pub split_on-append : (c : ℕ) (a s : Str) → Without c a → split_on c (a ++ c ∷ s) ≡ a ∷ split_on c s
unfolding split_on
split_on-append c [] s h = rw (==_refl c)
split_on-append c (x ∷ a) s h = ground (arith, split_on-append c a s h.1)

pub split_on-Without : (c : ℕ) (a : Str) → Without c a → split_on c a ≡ a ∷ []
unfolding split_on
split_on-Without c [] h = refl
split_on-Without c (x ∷ a) h = ground (arith, split_on-Without c a h.1)

-- Splitting at one character.
pub split_first-char :
    (k c : ℕ) (s : Str)
    → split_first (k ∷ []) (c ∷ s)
      ≡ (if k == c then some ([], s) else in_front c (split_first (k ∷ []) s))
unfolding split_first strip_prefix
split_first-char k c s = elim (Bool-cases (k == c)) [ inl e ↦ ground arith | inr e ↦ ground arith ]

front_cons :
    (k c : ℕ) (a b a' b' : Str)
    → Without k a
    → (k == c) ≡ false
    → some (a', b') ≡ in_front c (some (a, b))
    → Without k a'
front_cons k c a b [] b' h e q = tt
front_cons k c a b (x ∷ a') b' h e q = ground arith

in_front-none : (c : ℕ) (o : Option (Str × Str)) → in_front c o ≡ none → o ≡ none
in_front-none c none h = refl
in_front-none c (some (a, b)) h = cc

-- What is in front of the first separator has none.
pub split_first-Without_front :
    (k : ℕ) (s a b : Str) → split_first (k ∷ []) s ≡ some (a, b) → Without k a
unfolding split_first strip_prefix
split_first-Without_front k [] a b h = ground arith
split_first-Without_front k (c ∷ s) a b h = elim (Bool-cases (k == c)) [
  | inl e ↦ ground (arith, split_first-char k c s)
  | inr e ↦ elim (Option-cases (split_first (k ∷ []) s)) [
    | inl f ↦ ground (arith, split_first-char k c s)
    | inr ((a', b'), f) ↦
        let ih = split_first-Without_front k s a' b' f in
        front_cons k c a' b' a b ih e (ground (arith, split_first-char k c s))
  ]
]

-- Where there is no separator, there is none.
pub split_first-none : (k : ℕ) (s : Str) → split_first (k ∷ []) s ≡ none → Without k s
unfolding split_first strip_prefix
split_first-none k [] h = tt
split_first-none k (c ∷ s) h = elim (Bool-cases (k == c)) [
  | inl e ↦ ground (arith, split_first-char k c s)
  | inr e ↦ (
    ground arith,
    split_first-none k s
        (in_front-none c (split_first (k ∷ []) s) (ground (arith, split_first-char k c s))),
  )
]

pub split_first-Without : (k : ℕ) (s : Str) → Without k s → split_first (k ∷ []) s ≡ none
unfolding split_first strip_prefix
split_first-Without k [] h = refl
split_first-Without k (c ∷ s) h =
    ground (arith, split_first-char k c s, split_first-Without k s h.1)

pub split_first-append :
    (k : ℕ) (a s : Str) → Without k a → split_first (k ∷ []) (a ++ k ∷ s) ≡ some (a, s)
split_first-append k [] s h = ground (arith, split_first-char k k s)
split_first-append k (c ∷ a) s h =
    ground (arith, split_first-char k c (a ++ k ∷ s), split_first-append k a s h.1)

-- Splitting a join gives the parts.
pub split_on-join :
    (c : ℕ) (s : Str) (l : List Str)
    → All (Without c) (s ∷ l)
    → split_on c (join (c ∷ []) (s ∷ l)) ≡ s ∷ l
unfolding join
split_on-join c s [] h = split_on-Without c s h.0
split_on-join c s (t ∷ l) h =
    split_on-append c s (join (c ∷ []) (t ∷ l)) h.0 ∙ ap (λ r. s ∷ r) (split_on-join c t l h.1)
