-- ===== src/Configuration/Roots.antt =====
-- The roots that XCAPRootURI lets through, and the one of them that a request is for.
use openxcap.Prelude.{
  ◌≡◌, refl, ap, ◌∙◌, sym, Bool, true, false, ◌||◌, some, List, [], ◌∷◌, ◌++◌, any, Str, str_eq,
  str_eq_iff, str_eq_refl, subst, is_empty, starts_with, strip_prefix, strip, All, arith,
  Bool-cases, Option-cases, inl, inr, ok, >>=-Passed,
}
use openxcap.Auth.{find_root}
use openxcap.Xpath.Node.{is_space}
use openxcap.Configuration.{
  Urlparse, split_commas, is_similar, is_http, valid_uris, none_if_empty, xcap_root_uri,
}

abbrev pub is_root : Str → List Str → Bool
is_root x uris = any (λ u. str_eq u x) uris

-- no two are similar
abbrev AreApart : List Str → Type 0
AreApart [] = Unit
AreApart (u ∷ us) = All (λ v. is_similar u v ≡ false) us × AreApart us

append-AreApart :
    (us : List Str) (v : Str)
    → any (λ u. is_similar u v) us ≡ false
    → AreApart us
    → AreApart (us ++ v ∷ [])
append-AreApart [] v n h = (tt, tt)
append-AreApart (u ∷ us) v n h = (all_apart us h.0, append-AreApart us v (ground arith) h.1)
  where
    all_apart :
        (ws : List Str)
        → All (λ w. is_similar u w ≡ false) ws
        → All (λ w. is_similar u w ≡ false) (ws ++ v ∷ [])
    all_apart [] a = (ground arith, tt)
    all_apart (w ∷ ws) a = (a.0, all_apart ws a.1)

valid_uris-AreApart :
    (urlparse : Urlparse) (valid pieces uris : List Str)
    → AreApart valid
    → valid_uris urlparse valid pieces ≡ ok uris
    → AreApart uris
unfolding valid_uris
valid_uris-AreApart urlparse valid [] uris a h = subst AreApart (ground arith) a
valid_uris-AreApart urlparse valid (p ∷ pieces) uris a h = elim (Option-cases (urlparse p)) [
  | inl e ↦ cc (rw (valid_uris, e) at h)
  | inr (parts, e) ↦ elim (Bool-cases (is_http parts)) [
    | inr g ↦ valid_uris-AreApart urlparse valid pieces uris a (rw (valid_uris, e, g) at h)
    | inl g ↦ elim (Bool-cases (any (λ u. is_similar u p) valid)) [
      | inl s ↦ valid_uris-AreApart urlparse valid pieces uris a (rw (valid_uris, e, g, s) at h)
      | inr s ↦
          valid_uris-AreApart urlparse (valid ++ p ∷ []) pieces uris (append-AreApart valid p s a)
            (rw (valid_uris, e, g, s) at h)
    ]
  ]
]

-- two texts that one text starts with
both_start :
    (a b s : Str)
    → starts_with s a ≡ true
    → starts_with s b ≡ true
    → (starts_with b a || starts_with a b) ≡ true
unfolding starts_with strip_prefix
both_start [] b s h g = refl
both_start (x ∷ a) [] s h g = ground arith
both_start (x ∷ a) (y ∷ b) [] h g = cc
both_start (x ∷ a) (y ∷ b) (z ∷ s) h g = ground (arith, both_start a b s)

starting-similar :
    (a b s : Str) → starts_with s a ≡ true → starts_with s b ≡ true → is_similar a b ≡ true
starting-similar a b s h g = let e = both_start a b s h g in ground arith

apart_from :
    (u x : Str) (us : List Str)
    → All (λ v. is_similar u v ≡ false) us
    → is_root x us ≡ true
    → is_similar u x ≡ false
apart_from u x [] h i = cc
apart_from u x (v ∷ us) h i = elim (Bool-cases (str_eq v x)) [
  | inl e ↦ ap (is_similar u) (sym ((str_eq_iff v x).0 e)) ∙ h.0
  | inr e ↦ apart_from u x us h.1 (ground arith)
]

only_root :
    (uris : List Str) (a b s : Str)
    → AreApart uris
    → is_root a uris ≡ true
    → is_root b uris ≡ true
    → starts_with s a ≡ true
    → starts_with s b ≡ true
    → a ≡ b
only_root [] a b s h i j p q = cc
only_root (u ∷ us) a b s h i j p q = elim (Bool-cases (str_eq u a)) [
  | inl e ↦ elim (Bool-cases (str_eq u b)) [
    | inl f ↦ sym ((str_eq_iff u a).0 e) ∙ (str_eq_iff u b).0 f
    | inr f ↦ cc (
      apart_from u b us h.0 (ground arith),
      starting-similar u b s (ap (starts_with s) ((str_eq_iff u a).0 e) ∙ p) q,
    )
  ]
  | inr e ↦ elim (Bool-cases (str_eq u b)) [
    | inl f ↦ cc (
      apart_from u a us h.0 (ground arith),
      starting-similar u a s (ap (starts_with s) ((str_eq_iff u b).0 f) ∙ q) p,
    )
    | inr f ↦ only_root us a b s h.1 (ground arith) (ground arith) p q
  ]
]

find_root-is_root :
    (uris : List Str) (s root rest : Str)
    → find_root uris s ≡ some (root, rest)
    → (is_root root uris ≡ true) × (starts_with s root ≡ true)
unfolding find_root starts_with
find_root-is_root [] s root rest h = cc
find_root-is_root (u ∷ us) s root rest h = elim (Option-cases (strip_prefix u s)) [
  | inl e ↦
      let (i, p) = find_root-is_root us s root rest (rw (find_root, e) at h) in (ground arith, p)
  | inr (r, e) ↦
      let q = rw (find_root, e) at h in
      let same : u ≡ root = ground arith in
      subst (λ x. (is_root x (u ∷ us) ≡ true) × (starts_with s x ≡ true)) same
        ((rw (str_eq_refl u) refl), rw (starts_with, e) refl)
]

some_uris : (us uris : List Str) → none_if_empty us ≡ some uris → us ≡ uris
some_uris [] uris h = cc
some_uris (u ∷ us) uris h = ground arith

-- The root that a URI is taken to be in is the only one of the roots that are configured that the URI
-- starts with, so that the order of the roots does not matter.
pub find_root-only :
    (urlparse : Urlparse) (value : Str) (uris : List Str) (s root rest other : Str)
    → xcap_root_uri urlparse (some value) ≡ ok (some uris)
    → find_root uris s ≡ some (root, rest)
    → is_root other uris ≡ true
    → starts_with s other ≡ true
    → other ≡ root
unfolding xcap_root_uri
find_root-only urlparse value uris s root rest other h f i p =
    elim (Bool-cases (is_empty (strip is_space value))) [
      | inl e ↦ cc (rw e at h)
      | inr e ↦
          let (us, v, g) = >>=-Passed (valid_uris urlparse [] (split_commas value)) _ (rw e at h) in
          let same : us ≡ uris = some_uris us uris (let q = g in ground arith) in
          let apart =
            subst AreApart same (valid_uris-AreApart urlparse [] (split_commas value) us tt v) in
          let (j, q) = find_root-is_root uris s root rest f in
          only_root uris other root s apart i j p q
    ]
