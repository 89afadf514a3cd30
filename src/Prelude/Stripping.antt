-- ===== src/Prelude/Stripping.antt =====
-- Laws of strip.
use mathlib.Core.Path.{◌≡◌, refl, ap, ◌∙◌, sym, subst}
use mathlib.Core.Logic.{◌≢◌}
use mathlib.Core.Bool.{Bool, true, false}
use mathlib.Core.List.{
  [], ◌∷◌, ◌++◌, reverse, reverse-append, reverse-reverse, reverse-cons, append_assoc,
}
use Prim.Native.Nat.{ℕ}
use openxcap.Prelude.Lists.{All, All-append}
use openxcap.Prelude.Text.{Str, strip_left, strip}

module _ (p : ℕ → Bool) where
  abbrev pub Kept : Str → Type 0
  Kept s = All (λ c. p c ≡ false) s

  strip_left-Kept : (s : Str) → Kept s → strip_left p s ≡ s
  unfolding strip_left
  strip_left-Kept [] h = refl
  strip_left-Kept (c ∷ s) h = rw h.0 refl

  strip_left-dropped : (c : ℕ) (s : Str) → p c ≡ true → strip_left p (c ∷ s) ≡ strip_left p s
  unfolding strip_left
  strip_left-dropped c s h = rw h refl

  strip_left-first : (c : ℕ) (s : Str) → p c ≡ false → strip_left p (c ∷ s) ≡ c ∷ s
  unfolding strip_left
  strip_left-first c s h = rw h refl

  Kept-reverse : (s : Str) → Kept s → Kept (reverse s)
  Kept-reverse [] h = tt
  Kept-reverse (c ∷ s) h =
      subst Kept (sym (reverse-cons c s))
        (All-append (λ x. p x ≡ false) (reverse s) (c ∷ []) (Kept-reverse s h.1) (h.0, tt))

  -- A mark behind the text goes.
  strip-behind :
      (s : Str) (q : ℕ) → Kept s → p q ≡ true → reverse (strip_left p (reverse (s ++ q ∷ []))) ≡ s
  strip-behind s q h e =
      ap (λ t. reverse (strip_left p t)) (reverse-append s (q ∷ []))
      ∙ (ap reverse
            (strip_left-dropped q (reverse s) e ∙ strip_left-Kept (reverse s) (Kept-reverse s h))
          ∙ reverse-reverse s)

  -- strip takes off one mark on each side of a text that has none.
  pub strip-around :
      (q : ℕ) (c : ℕ) (s : Str)
      → p q ≡ true
      → Kept (c ∷ s)
      → strip p (q ∷ ((c ∷ s) ++ q ∷ [])) ≡ c ∷ s
  unfolding strip
  strip-around q c s e h =
      ap (λ t. reverse (strip_left p (reverse t)))
        (strip_left-dropped q ((c ∷ s) ++ q ∷ []) e ∙ strip_left-first c (s ++ q ∷ []) h.0)
      ∙ strip-behind (c ∷ s) q h e

  strip_left-Kept_append : (a b : Str) → a ≢ [] → Kept a → strip_left p (a ++ b) ≡ a ++ b
  strip_left-Kept_append [] b ne h = absurd (ne refl)
  strip_left-Kept_append (c ∷ a) b ne h = strip_left-first c (a ++ b) h.0

  reverse-ne-nil : (s : Str) → s ≢ [] → reverse s ≢ []
  reverse-ne-nil s ne e = ne (sym (reverse-reverse s) ∙ ap reverse e)

  -- A mark at the end goes, and one that stands inside the text stays.
  pub strip-end :
      (q : ℕ) (c : ℕ) (front t : Str)
      → p q ≡ true
      → p c ≡ false
      → t ≢ []
      → Kept t
      → strip p ((c ∷ front) ++ (t ++ q ∷ [])) ≡ (c ∷ front) ++ t
  unfolding strip
  strip-end q c front t e f ne h =
      ap (λ s. reverse (strip_left p (reverse s)))
        (strip_left-first c (front ++ (t ++ q ∷ [])) f ∙ sym (append_assoc (c ∷ front) t (q ∷ [])))
      ∙ (ap (λ s. reverse (strip_left p s)) (reverse-append ((c ∷ front) ++ t) (q ∷ []))
          ∙ (ap reverse (
                strip_left-dropped q (reverse ((c ∷ front) ++ t)) e
                ∙ (ap (strip_left p) (reverse-append (c ∷ front) t)
                    ∙ (strip_left-Kept_append (reverse t) (reverse (c ∷ front))
                          (reverse-ne-nil t ne) (Kept-reverse t h)
                        ∙ sym (reverse-append (c ∷ front) t))))
              ∙ reverse-reverse ((c ∷ front) ++ t)))
