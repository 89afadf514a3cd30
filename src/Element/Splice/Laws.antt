-- ===== src/Element/Splice/Laws.antt =====
-- What find and put do with the document of an element tree.
use openxcap.Prelude.{
  ℕ, zero, suc, ◌+◌, ◌-◌, ◌≤◌, ◌≡◌, refl, ap, true, false, Option, none, some, List, [], ◌∷◌, ◌++◌,
  arith, Str, Result, ok, err, ◌>>=◌, take, drop, slice, ◌==◌, take-append-drop, Option-cases, inl,
  inr, Bool-cases, ◌⊎◌, codes, split_first, append_of_split_first,
}
use openxcap.Xpath.{Step}
use openxcap.Xpath.Tokens.{contains}
use openxcap.Element.{Name, LocatorState, Locator, ElementError, attribute_error}
use openxcap.Element.Utf8.{utf8_decode}
use openxcap.Element.Find.{closing_tag}
use openxcap.Element.Find.Core.{core}
use openxcap.Element.Find.Located.{verdict, run-selected}
use openxcap.Element.Tree.{Tree, events, Match, selected}
use openxcap.Element.Splice.{
  Parser, slice_to, index_from, fix_end_pos, generate_error, span, found_at, find,
}

-- the text before and behind a slice, put around it again
take-nil : {A : Type 0} (n : ℕ) → take {A = A} n [] ≡ []
take-nil zero = refl
take-nil (suc n) = refl

take-take-drop :
    {A : Type 0} (s d e : ℕ) (xs : List A)
    → e ≡ s + d
    → take s xs ++ (take d (drop s xs) ++ drop e xs) ≡ xs
take-take-drop zero d e xs h = let q : e ≡ d = omega arith in rw q (take-append-drop d xs)
take-take-drop (suc s) d zero xs h = absurd (omega arith)
take-take-drop (suc s) d (suc e) [] h = rw (take-nil d)
take-take-drop (suc s) d (suc e) (x ∷ xs) h =
    ap (λ ys. x ∷ ys) (take-take-drop s d e xs (omega arith))

pub take-slice-drop :
    {A : Type 0} (s e : ℕ) (xs : List A) → s ≤ e → take s xs ++ (slice s e xs ++ drop e xs) ≡ xs
take-slice-drop s e xs h = take-take-drop s (e - s) e xs (omega arith)

module _ (c : ℕ) where
  abbrev HasChar : Str → Type 0
  HasChar [] = ⊥
  HasChar (x ∷ s) = (x ≡ c) ⊎ HasChar s

  index_from-le : (i : ℕ) (s : Str) → HasChar s → (j : ℕ) × (index_from c i s ≡ ok j) × (i ≤ j)
  unfolding index_from
  index_from-le i [] h = absurd h
  index_from-le i (x ∷ s) h = elim (Bool-cases (x == c)) [
    | inl e ↦ (i, rw e, omega arith)
    | inr e ↦ let (j, q, r) = index_from-le (suc i) s (ground arith) in (j, rw e q, omega arith)
  ]

  HasChar-append_right : (s t : Str) → HasChar t → HasChar (s ++ t)
  HasChar-append_right [] t h = h
  HasChar-append_right (x ∷ s) t h = inr (HasChar-append_right s t h)

  HasChar-append_left : (s t : Str) → HasChar s → HasChar (s ++ t)
  HasChar-append_left [] t h = absurd h
  HasChar-append_left (x ∷ s) t (inl e) = inl e
  HasChar-append_left (x ∷ s) t (inr h) = inr (HasChar-append_left s t h)

HasChar-closing_tag : (n : Name) → HasChar b'>' (closing_tag n)
HasChar-closing_tag n = inr (inr (HasChar-append_right b'>' n.local (codes ">") (inl refl)))

HasChar-contains : (c : ℕ) (tag s : Str) → HasChar c tag → contains tag s ≡ true → HasChar c s
unfolding contains
HasChar-contains c tag s h q = elim (Option-cases (split_first tag s)) [
  | inl e ↦ cc (rw (e, contains) at q)
  | inr ((a, b), e) ↦
      rw (append_of_split_first tag s a b e)
        (HasChar-append_right c a (tag ++ b) (HasChar-append_left c tag b h))
]

-- the end that `fix_end_pos` leaves is not in front of the one that the parser reported
fix_end_pos-le :
    (document text : Str) (l : Locator) (s e : ℕ) (n : Name)
    → utf8_decode document ≡ some text
    → l.start_pos ≡ some s
    → l.end_pos ≡ some e
    → l.end_tag ≡ some (closing_tag n)
    → (e' : ℕ) × ((fix_end_pos document l >>= λ l'. span l') ≡ ok (some (s, e'))) × (e ≤ e')
unfolding fix_end_pos
fix_end_pos-le document text l s e n d hs he ht =
    elim (Bool-cases (contains (closing_tag n) (slice_to text e l.end_pos_2))) [
      | inl h ↦
          let (j, q, r) = index_from-le b'>' e (slice_to text e l.end_pos_2) (
            HasChar-contains b'>' (closing_tag n) (slice_to text e l.end_pos_2)
              (HasChar-closing_tag n) h) in
          (suc j, ground arith, omega arith)
      | inr h ↦ (e, ground arith, omega arith)
    ]

-- What `find` has to return for the elements that a selector denotes; an ambiguous selector ends in
-- the AttributeError of `generate_error`.
abbrev pub FindsAll : List Match → Result ElementError (Option (ℕ × ℕ)) → Type 0
FindsAll [] r = r ≡ ok none
FindsAll (m ∷ []) r = (e : ℕ) × (r ≡ ok (some (m.start, e))) × (m.end ≤ e)
FindsAll (_ ∷ _ ∷ _) r = r ≡ err attribute_error

-- `calls` are the events of the tree `t`
pub record IsParsed (parser : Parser) (document text : Str) (t : Tree) : Type 0 where
  pub decoded : utf8_decode document ≡ some text
  pub calls : (parser text).calls ≡ events t
  pub complete : (parser text).fails ≡ false

found_at-FindsAll :
    (document text : Str) (ms : List Match) (l : Locator) (state : LocatorState)
    → utf8_decode document ≡ some text
    → core l ≡ verdict ms
    → state ≡ (verdict ms).state
    → FindsAll ms (found_at document state l)
unfolding verdict found_at generate_error
found_at-FindsAll document text [] l state d h q = rw q refl
found_at-FindsAll document text (m ∷ []) l state d h q =
    let (e, r, b) =
      fix_end_pos-le document text l m.start m.end m.name d (ap (λ (l : Locator). l.start_pos) h)
        (ap (λ (l : Locator). l.end_pos) h) (ap (λ (l : Locator). l.end_tag) h) in
    (e, rw (q, found_at) r, b)
found_at-FindsAll document text (m ∷ m' ∷ ms) l state d h q = rw q refl

-- In a document that parses to a tree, `find` returns None where the selector denotes no element,
-- the place of the only element that it denotes, from its start to its end or behind, and raises
-- AttributeError where it denotes more.
pub find-selected :
    (parser : Parser) (document text : Str) (t : Tree) (selector : List Step)
    → IsParsed parser document text t
    → FindsAll (selected selector t) (find parser document selector)
unfolding find
find-selected parser document text t selector p =
    let (l, r, c) = run-selected selector t in
    rw (p.decoded, p.calls, r, p.complete)
      (found_at-FindsAll document text (selected selector t) l l.state p.decoded c
        (ap (λ (l : Locator). l.state) c))
