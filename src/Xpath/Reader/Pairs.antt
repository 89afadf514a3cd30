-- ===== src/Xpath/Reader/Pairs.antt =====
-- XPathTokenizer.tokens on the pairs that the scanner yields for the tokens of the grammar.
use openxcap.Prelude.{
  ℕ, zero, suc, ◌+◌, ◌<◌, ◌≡◌, ◌≢◌, refl, ap, true, false, Option, none, some, List, [], ◌∷◌, ◌++◌,
  arith, Str, codes, str_eq, strip_prefix, split_first, Without, ltb, digits, decimal, All,
  All-append, Bool-cases, inl, inr, ok,
}
use Prim.Native.Nat.{◌/◌, ◌%◌}
use mathlib.Core.List.{reverse-append, reverse-reverse}
use openxcap.Xpath.{Token, op, tag, token_is}
use openxcap.Xpath.Tokens.{contains, unquote_attr_value, make_token, make_tokens}
use openxcap.Xpath.Reader.Written.{
  WrittenName, any_name, plain, WrittenTest, no_test, plain_test, WrittenStep, WrittenEnd,
  element_end, attribute_end, namespace_end, name_tokens, position_tokens, test_tokens, step_tokens,
  end_tokens, path_tokens, HasNames, HasTestNames, IsWritten, IsEnd,
}

abbrev Pairs : Type 0
Pairs = List (Str × Str)

abbrev quoted : Str → Str
quoted v = b'"' ∷ (v ++ codes "\"")

abbrev mark_pair : Str → Str × Str
mark_pair o = (o, [])

abbrev text_pair : Str → Str × Str
text_pair t = ([], t)

abbrev pub name_pairs : WrittenName → Pairs
name_pairs any_name = mark_pair (codes "*") ∷ []
name_pairs (plain n) = text_pair n ∷ []

abbrev pub position_pairs : Option ℕ → Pairs
position_pairs none = []
position_pairs (some k) = mark_pair (codes "[") ∷ text_pair (decimal k) ∷ mark_pair (codes "]") ∷ []

abbrev pub test_pairs : WrittenTest → Pairs
test_pairs no_test = []
test_pairs (plain_test n v) =
    mark_pair (codes "[")
    ∷ mark_pair (codes "@")
    ∷ text_pair n
    ∷ mark_pair (codes "=")
    ∷ mark_pair (quoted v)
    ∷ mark_pair (codes "]")
    ∷ []

abbrev pub step_pairs : WrittenStep → Pairs → Pairs
step_pairs w rest = name_pairs w.name ++ (position_pairs w.position ++ (test_pairs w.test ++ rest))

abbrev pub end_pairs : WrittenEnd → Pairs
end_pairs element_end = []
end_pairs (attribute_end n) = mark_pair (codes "/") ∷ mark_pair (codes "@") ∷ text_pair n ∷ []
end_pairs namespace_end = mark_pair (codes "/") ∷ text_pair (codes "{namespace}:*") ∷ []

abbrev pub path_pairs : List WrittenStep → WrittenEnd → Pairs
path_pairs [] e = end_pairs e
path_pairs (w ∷ ws) e = mark_pair (codes "/") ∷ step_pairs w (path_pairs ws e)

-- A text without the first character of another does not contain it.
split_first-Without : (c : ℕ) (sep s : Str) → Without c s → split_first (c ∷ sep) s ≡ none
unfolding split_first strip_prefix
split_first-Without c sep [] h = refl
split_first-Without c sep (d ∷ s) h = ground (arith, h.0, split_first-Without c sep s h.1)

digits-Without : (c fuel n : ℕ) → 57 < c → Without c (digits fuel n)
unfolding digits
digits-Without c zero n h = (omega arith, tt)
digits-Without c (suc fuel) n h = elim (Bool-cases (ltb n 10)) [
  | inl e ↦ rw e (ground arith, tt)
  | inr e ↦ rw e (
      All-append (λ x. x ≢ c) (digits fuel (n / 10)) ((48 + n % 10) ∷ [])
        (digits-Without c fuel (n / 10) h) (omega arith, tt))
]

contains-decimal : (k : ℕ) → contains (codes "namespace::") (decimal k) ≡ false
unfolding contains decimal
contains-decimal k =
    rw
      (
        contains,
        split_first-Without b'n' (codes "amespace::") (digits k k)
            (digits-Without b'n' k k (omega arith)),
      )
      refl

str_eq-Without : (c : ℕ) (s : Str) → Without c s → str_eq s (c ∷ []) ≡ false
unfolding str_eq
str_eq-Without c [] h = refl
str_eq-Without c (d ∷ s) h = ground (arith, h.0)

decimal-sign : (k : ℕ) → str_eq (decimal k) (codes "=") ≡ false
unfolding decimal
decimal-sign k = str_eq-Without b'=' (digits k k) (digits-Without b'=' k k (omega arith))

unquote_attr_value-quoted : (v : Str) → unquote_attr_value (quoted v) ≡ ok v
unfolding unquote_attr_value
unquote_attr_value-quoted v = rw (reverse-append v (codes "\"")) (ap ok (reverse-reverse v))

-- the tokens of a pair are those of the text, where it does not end in '='
make_tokens-text :
    (n : Str) (ps : Pairs) (ts : List Token)
    → contains (codes "namespace::") n ≡ false
    → str_eq n (codes "=") ≡ false
    → make_tokens false ps ≡ ok ts
    → make_tokens false (text_pair n ∷ ps) ≡ ok (tag n ∷ ts)
unfolding make_tokens make_token token_is
make_tokens-text n ps ts c e h = rw (c, e, h) refl

make_tokens-position :
    (p : Option ℕ) (ps : Pairs) (ts : List Token)
    → make_tokens false ps ≡ ok ts
    → make_tokens false (position_pairs p ++ ps) ≡ ok (position_tokens p ++ ts)
unfolding make_tokens make_token token_is contains split_first strip_prefix str_eq
make_tokens-position none ps ts h = h
make_tokens-position (some k) ps ts h =
    let rest : make_tokens false (mark_pair (codes "]") ∷ ps) ≡ ok (op (codes "]") ∷ ts) =
      rw h refl in
    rw
      (make_tokens-text (decimal k) (mark_pair (codes "]") ∷ ps) (op (codes "]") ∷ ts)
        (contains-decimal k) (decimal-sign k) rest)
      refl

make_tokens-test :
    (t : WrittenTest) (ps : Pairs) (ts : List Token)
    → HasTestNames t
    → make_tokens false ps ≡ ok ts
    → make_tokens false (test_pairs t ++ ps) ≡ ok (test_tokens t ++ ts)
unfolding make_tokens make_token token_is contains split_first strip_prefix str_eq
make_tokens-test no_test ps ts n h = h
make_tokens-test (plain_test n v) ps ts (name, value) h =
    let rest : make_tokens true (mark_pair (quoted v) ∷ mark_pair (codes "]") ∷ ps)
        ≡ ok (op v ∷ op (codes "]") ∷ ts) =
      rw (unquote_attr_value-quoted v, value, h) refl in
    let behind : make_tokens false
          (mark_pair (codes "=") ∷ mark_pair (quoted v) ∷ mark_pair (codes "]") ∷ ps)
        ≡ ok (op (codes "=") ∷ op v ∷ op (codes "]") ∷ ts) =
      rw rest refl in
    rw
      (make_tokens-text n
        (mark_pair (codes "=") ∷ mark_pair (quoted v) ∷ mark_pair (codes "]") ∷ ps)
        (op (codes "=") ∷ op v ∷ op (codes "]") ∷ ts) name.0 name.1.1.1.1.1.0 behind)
      refl

make_tokens-name :
    (n : WrittenName) (ps : Pairs) (ts : List Token)
    → HasNames n
    → make_tokens false ps ≡ ok ts
    → make_tokens false (name_pairs n ++ ps) ≡ ok (name_tokens n ++ ts)
unfolding make_tokens make_token token_is contains split_first strip_prefix str_eq
make_tokens-name any_name ps ts n h = rw h refl
make_tokens-name (plain n) ps ts name h = make_tokens-text n ps ts name.0 name.1.1.1.1.1.0 h

pub make_tokens-step :
    (w : WrittenStep) (ps : Pairs) (ts : List Token)
    → IsWritten w
    → make_tokens false ps ≡ ok ts
    → make_tokens false (step_pairs w ps) ≡ ok (step_tokens w ts)
make_tokens-step w ps ts (name, test) h =
    make_tokens-name w.name _ _ name
      (make_tokens-position w.position _ _ (make_tokens-test w.test ps ts test h))

make_tokens-end : (e : WrittenEnd) → IsEnd e → make_tokens false (end_pairs e) ≡ ok (end_tokens e)
unfolding make_tokens make_token token_is contains split_first strip_prefix str_eq
make_tokens-end element_end h = refl
make_tokens-end (attribute_end n) h = rw (make_tokens-text n [] [] h.0 h.1.1.1.1.1.0 refl) refl
make_tokens-end namespace_end h = refl

-- The pairs of a path become its tokens.
pub make_tokens-path :
    (ws : List WrittenStep) (e : WrittenEnd)
    → All IsWritten ws
    → IsEnd e
    → make_tokens false (path_pairs ws e) ≡ ok (path_tokens ws e)
unfolding make_tokens make_token token_is contains split_first strip_prefix str_eq
make_tokens-path [] e hs he = make_tokens-end e he
make_tokens-path (w ∷ ws) e hs he =
    rw
      (make_tokens-step w (path_pairs ws e) (path_tokens ws e) hs.0 (make_tokens-path ws e hs.1 he))
      refl
