-- ===== src/Xpath/Reader/Steps.antt =====
-- The readers of a step on the tokens of the grammar.
use openxcap.Prelude.{
  ℕ, ◌≡◌, refl, false, Option, none, some, List, [], ◌∷◌, ◌++◌, Str, codes, str_eq, ok,
}
use openxcap.Xpath.{Token, op, token_is, Namespaces}
use openxcap.Xpath.Reader.{
  step, next_is, read_local_name, read_prefixed, read_element_tag, read_position, read_prefixed_att,
  read_att_test, read_step,
}
use openxcap.Xpath.Reader.Numbers.{int_of-decimal}
use openxcap.Xpath.Reader.Written.{
  WrittenName, any_name, plain, WrittenTest, no_test, plain_test, WrittenStep, name_tokens,
  position_tokens, test_tokens, step_tokens, position_meaning, test_meaning, name_meaning,
  step_meaning, HasNames, HasTestNames, IsWritten,
}

-- what may follow a step
abbrev pub IsRest : List Token → Type 0
IsRest [] = Unit
IsRest (t ∷ rest) = t ≡ op (codes "/")

read_position-IsRest : (rest : List Token) → IsRest rest → read_position rest ≡ ok (none, rest)
unfolding read_position token_is str_eq
read_position-IsRest [] h = refl
read_position-IsRest (a ∷ []) h = refl
read_position-IsRest (a ∷ b ∷ []) h = refl
read_position-IsRest (a ∷ b ∷ c ∷ rest) h = rw h refl

read_att_test-IsRest :
    (namespaces : Namespaces) (rest : List Token)
    → IsRest rest
    → read_att_test namespaces rest ≡ ok (none, rest)
unfolding read_att_test read_prefixed_att token_is str_eq
read_att_test-IsRest ns [] h = refl
read_att_test-IsRest ns (a ∷ []) h = refl
read_att_test-IsRest ns (a ∷ b ∷ []) h = refl
read_att_test-IsRest ns (a ∷ b ∷ c ∷ []) h = refl
read_att_test-IsRest ns (a ∷ b ∷ c ∷ d ∷ []) h = refl
read_att_test-IsRest ns (a ∷ b ∷ c ∷ d ∷ e ∷ []) h = refl
read_att_test-IsRest ns (a ∷ b ∷ c ∷ d ∷ e ∷ f ∷ []) h = rw h refl
read_att_test-IsRest ns (a ∷ b ∷ c ∷ d ∷ e ∷ f ∷ g ∷ []) h = rw h refl
read_att_test-IsRest ns (a ∷ b ∷ c ∷ d ∷ e ∷ f ∷ g ∷ i ∷ rest) h = rw h refl

read_att_test-written :
    (namespaces : Namespaces) (t : WrittenTest) (rest : List Token)
    → HasTestNames t
    → IsRest rest
    → read_att_test namespaces (test_tokens t ++ rest) ≡ ok (test_meaning t, rest)
unfolding read_att_test read_prefixed_att token_is str_eq
read_att_test-written namespaces no_test rest h hr = read_att_test-IsRest namespaces rest hr
read_att_test-written namespaces (plain_test n v) rest h hr = refl

read_position-written :
    (p : Option ℕ) (t : WrittenTest) (rest : List Token)
    → HasTestNames t
    → IsRest rest
    → read_position (position_tokens p ++ (test_tokens t ++ rest))
      ≡ ok (position_meaning p, test_tokens t ++ rest)
unfolding read_position token_is str_eq
read_position-written none no_test rest h hr = read_position-IsRest rest hr
read_position-written none (plain_test n v) rest h hr = rw h.0.1.1.1.1.0 refl
read_position-written (some k) t rest h hr = rw (int_of-decimal k) refl

-- no ':' follows a name that stands alone
not_colon :
    (p : Option ℕ) (t : WrittenTest) (rest : List Token)
    → IsRest rest
    → next_is (codes ":") (position_tokens p ++ (test_tokens t ++ rest)) ≡ false
unfolding next_is token_is str_eq
not_colon (some k) t rest h = refl
not_colon none (plain_test n v) rest h = refl
not_colon none no_test [] h = refl
not_colon none no_test (a ∷ rest) h = rw h refl

read_element_tag-written :
    (namespace : Option Str) (namespaces : Namespaces) (n : WrittenName) (rest : List Token)
    → HasNames n
    → next_is (codes ":") rest ≡ false
    → read_element_tag namespace namespaces (name_tokens n ++ rest)
      ≡ ok (name_meaning namespace n, rest)
unfolding read_element_tag next_is read_prefixed read_local_name token_is str_eq
read_element_tag-written namespace namespaces any_name rest h hr = refl
read_element_tag-written namespace namespaces (plain n) rest h hr = rw (h.1.0, hr) refl

-- a step is not taken for a terminal selector
not_terminal :
    (n : WrittenName) (rest : List Token)
    → HasNames n
    → (next_is (codes "@") (name_tokens n ++ rest) ≡ false)
      × (next_is (codes "{namespace}:*") (name_tokens n ++ rest) ≡ false)
unfolding next_is token_is str_eq
not_terminal any_name rest h = (refl, refl)
not_terminal (plain n) rest h = (h.1.1.0, h.1.1.1.0)

-- A step is read from its tokens, whatever stands behind it.
pub read_step-written :
    (namespace : Option Str) (namespaces : Namespaces) (w : WrittenStep) (rest : List Token)
    → IsWritten w
    → IsRest rest
    → read_step namespace namespaces (step_tokens w rest)
      ≡ ok (step (step_meaning namespace w), rest)
unfolding read_step
read_step-written namespace namespaces w rest h hr =
    let after = position_tokens w.position ++ (test_tokens w.test ++ rest) in
    let apart = not_terminal w.name after h.0 in
    let first =
      read_element_tag-written namespace namespaces w.name after h.0
        (not_colon w.position w.test rest hr) in
    let second = read_position-written w.position w.test rest h.1 hr in
    let third = read_att_test-written namespaces w.test rest h.1 hr in
    rw (apart.0, apart.1, first, second, third) refl
