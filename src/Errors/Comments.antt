-- ===== src/Errors/Comments.antt =====
-- The comment of an error document ends where it should.
use openxcap.Prelude.{
  ℕ, zero, suc, ◌≡◌, refl, none, some, [], ◌∷◌, ◌++◌, arith, Str, codes, strip_prefix, split_first,
  Option-cases, Bool-cases, inl, inr, ◌==◌,
}
use openxcap.Errors.{hide_close}

hide_close-none :
    (c : ℕ) (s : Str)
    → strip_prefix (codes "-->") (c ∷ s) ≡ none
    → hide_close 0 (c ∷ s) ≡ c ∷ hide_close 0 s
unfolding hide_close
hide_close-none c s h = rw (h, hide_close) refl

hide_close-some :
    (c : ℕ) (s t : Str)
    → strip_prefix (codes "-->") (c ∷ s) ≡ some t
    → hide_close 0 (c ∷ s) ≡ codes "--&gt;" ++ hide_close 2 s
unfolding hide_close
hide_close-some c s t h = rw (h, hide_close) refl

-- One character of a prefix that `hide_close` does not bring about.
keeps_apart :
    (x c : ℕ) (p s t : Str)
    → strip_prefix (x ∷ p) (c ∷ s) ≡ none
    → (strip_prefix p s ≡ none → strip_prefix p t ≡ none)
    → strip_prefix (x ∷ p) (c ∷ t) ≡ none
unfolding strip_prefix
keeps_apart x c p s t h ih = elim (Bool-cases (x == c)) [
  | inl e ↦ let less = ih (ground arith) in ground arith
  | inr e ↦ ground arith
]

module _ (x : ℕ) (p : Str)
    (other : (s : Str) → strip_prefix (x ∷ p) (codes "--&gt;" ++ s) ≡ none) where
  hide_close-apart :
      ((s : Str) → strip_prefix p s ≡ none → strip_prefix p (hide_close 0 s) ≡ none)
      → (s : Str) → strip_prefix (x ∷ p) s ≡ none
      → strip_prefix (x ∷ p) (hide_close 0 s) ≡ none
  unfolding hide_close
  hide_close-apart ih [] h = h
  hide_close-apart ih (c ∷ s) h = elim (Option-cases (strip_prefix (codes "-->") (c ∷ s))) [
    | inl e ↦ rw (hide_close-none c s e) (keeps_apart x c p s (hide_close 0 s) h (ih s))
    | inr (t, e) ↦ rw (hide_close-some c s t e) (other (hide_close 2 s))
  ]

no_empty : (s : Str) → strip_prefix [] s ≡ none → strip_prefix [] (hide_close 0 s) ≡ none
unfolding strip_prefix
no_empty s h = ground arith

-- The text does not start with '-->'.
not_at_start : (s : Str) → strip_prefix (codes "-->") (hide_close 0 s) ≡ none
unfolding hide_close strip_prefix
not_at_start [] = refl
not_at_start (c ∷ s) = elim (Option-cases (strip_prefix (codes "-->") (c ∷ s))) [
  | inl e ↦
      hide_close-apart b'-' (codes "->") (λ u. refl)
        (hide_close-apart b'-' (codes ">") (λ u. refl)
          (hide_close-apart b'>' [] (λ u. refl) no_empty))
        (c ∷ s) e
  | inr (t, e) ↦ rw (hide_close-some c s t e) refl
]

split_first-cons :
    (c : ℕ) (s : Str)
    → strip_prefix (codes "-->") (c ∷ s) ≡ none
    → split_first (codes "-->") s ≡ none
    → split_first (codes "-->") (c ∷ s) ≡ none
unfolding split_first
split_first-cons c s h g = rw (h, split_first) (rw g refl)

split_first-nil : split_first (codes "-->") [] ≡ none
unfolding split_first strip_prefix
split_first-nil = refl

split_first-escaped :
    (s : Str)
    → split_first (codes "-->") s ≡ none
    → split_first (codes "-->") (codes "--&gt;" ++ s) ≡ none
unfolding strip_prefix
split_first-escaped s h = split_first-cons b'-' (codes "-&gt;" ++ s) refl (
    split_first-cons b'-' (codes "&gt;" ++ s) refl (
      split_first-cons b'&' (codes "gt;" ++ s) refl (
        split_first-cons b'g' (codes "t;" ++ s) refl
          (split_first-cons b't' (codes ";" ++ s) refl (split_first-cons b';' s refl h)))))

-- No comment can be closed before its end: '-->' does not occur in a text once it is escaped.
pub hide_close-HasNoEnd : (k : ℕ) (s : Str) → split_first (codes "-->") (hide_close k s) ≡ none
unfolding hide_close
hide_close-HasNoEnd k [] = split_first-nil
hide_close-HasNoEnd (suc k) (c ∷ s) = hide_close-HasNoEnd k s
hide_close-HasNoEnd zero (c ∷ s) = elim (Option-cases (strip_prefix (codes "-->") (c ∷ s))) [
  | inl e ↦ rw (hide_close-none c s e) (
      split_first-cons c (hide_close 0 s) (rw (hide_close-none c s e) at (not_at_start (c ∷ s)))
        (hide_close-HasNoEnd 0 s))
  | inr (t, e) ↦
      rw (hide_close-some c s t e) (split_first-escaped (hide_close 2 s) (hide_close-HasNoEnd 2 s))
]
