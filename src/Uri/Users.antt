-- ===== src/Uri/Users.antt =====
-- Users are told apart by name and domain.
use openxcap.Prelude.{
  ◌≡◌, refl, ◌↔◌, true, Option, some, [], ◌∷◌, ◌++◌, arith, Str, codes, str_eq_iff, split_first,
  split_first-none, split_first-Without_front, split_first-append, Without, strip_prefix,
  Option-cases, inl, inr,
}
use openxcap.Uri.{user_text, user_uri, same_user, without_scheme, or_empty, parse_user}

-- The text of a user ends the name at the first '@'.
append-at-injective :
    (a b c d : Str)
    → Without b'@' a
    → Without b'@' c
    → a ++ b'@' ∷ b ≡ c ++ b'@' ∷ d
    → (a ≡ c) × (b ≡ d)
append-at-injective [] b [] d h g e = (refl, ground arith)
append-at-injective [] b (y ∷ c) d h g e = ground arith
append-at-injective (x ∷ a) b [] d h g e = ground arith
append-at-injective (x ∷ a) b (y ∷ c) d h g e = ground (arith, append-at-injective a b c d h.1 g.1)

-- Users whose names have no '@' are equal just when their names and their domains are.
pub same_user_iff :
    (a b c d : Str)
    → Without b'@' a
    → Without b'@' c
    → (same_user
          (record { username = some a; domain = some b })
          (record { username = some c; domain = some d })
        ≡ true)
      ↔ ((a ≡ c) × (b ≡ d))
unfolding same_user user_uri user_text
same_user_iff a b c d h g = (
  λ e. append-at-injective a b c d h g (
      ground
        (arith, str_eq_iff (codes "sip:" ++ (a ++ b'@' ∷ b)) (codes "sip:" ++ (c ++ b'@' ∷ d)))),
  λ e.
      ground
        (arith, str_eq_iff (codes "sip:" ++ (a ++ b'@' ∷ b)) (codes "sip:" ++ (c ++ b'@' ∷ d))),
)

-- The name of a user that is parsed has no '@', and there is always a domain.
pub parse_user-HasName :
    (s : Str) (realm : Option Str)
    → (name domain : Str) × Without b'@' name
      × (parse_user s realm ≡ record { username = some name; domain = some domain })
unfolding parse_user
parse_user-HasName s realm = elim (Option-cases (split_first (codes "@") (without_scheme s))) [
  | inl e ↦
      (without_scheme s, or_empty realm, split_first-none b'@' (without_scheme s) e, ground arith)
  | inr ((name, domain), e) ↦
      (name, domain, split_first-Without_front b'@' (without_scheme s) name domain e, ground arith)
]

-- parse and str are inverse: a name without '@' and any domain.
pub parse_user-user_text :
    (name domain : Str) (realm : Option Str)
    → Without b'@' name
    → parse_user (user_uri (record { username = some name; domain = some domain })) realm
      ≡ record { username = some name; domain = some domain }
unfolding parse_user user_uri user_text strip_prefix
parse_user-user_text name domain realm h = ground (arith, split_first-append b'@' name domain h)
