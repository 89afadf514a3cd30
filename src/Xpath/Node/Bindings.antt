-- ===== src/Xpath/Node/Bindings.antt =====
-- The namespace bindings of a query are read back.
use openxcap.Prelude.{
  ℕ, ◌+◌, ◌≡◌, refl, ap, ◌∙◌, some, List, [], ◌∷◌, ◌++◌, append_assoc, arith, Str, codes, insert,
  map, sym, length, length-append, All, Without, strip_prefix-append, split_on-append,
  split_on-Without, strip_prefix,
}
use openxcap.Xpath.{Namespaces}
use openxcap.Xpath.Node.{
  until_paren, at_match, find_ns, add_binding, add_bindings, parse_ns_bindings,
}

until_paren-append :
    (m s : Str) → Without b')' m → Without b'\n' m → until_paren (m ++ b')' ∷ s) ≡ some m
unfolding until_paren
until_paren-append [] s h g = refl
until_paren-append (c ∷ m) s h g = ground (arith, until_paren-append m s h.1 g.1)

find_ns-append : (a s : Str) → find_ns (length a) (a ++ s) ≡ find_ns 0 s
unfolding find_ns
find_ns-append [] s = refl
find_ns-append (c ∷ a) s = find_ns-append a s

abbrev pub binding_text : Str × Str → Str
binding_text (prefix, ns) = prefix ++ b'=' ∷ ns

-- the query that binds prefixes to namespaces
abbrev pub query_text : List (Str × Str) → Str
query_text [] = []
query_text (b ∷ bs) = codes "xmlns(" ++ (binding_text b ++ b')' ∷ query_text bs)

-- texts without a mark of the query
abbrev IsPlain : Str → Type 0
IsPlain s = Without b')' s × (Without b'\n' s × Without b'=' s)

abbrev pub IsBinding : Str × Str → Type 0
IsBinding (prefix, ns) = IsPlain prefix × IsPlain ns

-- the dict with each binding stored, the last one of a prefix for good
abbrev pub bind_all : List (Str × Str) → Namespaces → Namespaces
bind_all [] d = d
bind_all ((prefix, ns) ∷ bs) d = bind_all bs (insert prefix ns d)

Without-append : (c : ℕ) (a b : Str) → Without c a → Without c b → Without c (a ++ b)
Without-append c [] b h g = g
Without-append c (x ∷ a) b h g = (h.0, Without-append c a b h.1 g)

find_ns-match :
    (c : ℕ) (s m : Str)
    → at_match (strip_prefix (codes "xmlns(") (c ∷ s)) ≡ some m
    → find_ns 0 (c ∷ s) ≡ m ∷ find_ns (6 + length m) s
unfolding find_ns
find_ns-match c s m h = rw (h, find_ns) refl

at_match-found :
    (m s : Str)
    → Without b')' m
    → Without b'\n' m
    → at_match (strip_prefix (codes "xmlns(") (codes "xmlns(" ++ (m ++ b')' ∷ s))) ≡ some m
unfolding at_match
at_match-found m s h g =
    ap at_match (strip_prefix-append (codes "xmlns(") (m ++ b')' ∷ s)) ∙ until_paren-append m s h g

find_ns-found :
    (m s : Str)
    → Without b')' m
    → Without b'\n' m
    → find_ns 0 (codes "xmlns(" ++ (m ++ b')' ∷ s)) ≡ m ∷ find_ns 0 s
find_ns-found m s h g =
    let a = codes "mlns(" ++ (m ++ codes ")") in
    find_ns-match b'x' (codes "mlns(" ++ (m ++ b')' ∷ s)) m (at_match-found m s h g)
    ∙ ap (λ l. m ∷ l)
        (ap (λ k. find_ns k (codes "mlns(" ++ (m ++ b')' ∷ s)))
            (omega (arith, length-append m (codes ")")))
          ∙ (ap (λ t. find_ns (length a) (codes "mlns(" ++ t)) (sym (append_assoc m (codes ")") s))
              ∙ find_ns-append a s))

add_binding-text :
    (b : Str × Str) (d : Namespaces)
    → IsBinding b
    → add_binding (binding_text b) d ≡ insert b.0 b.1 d
unfolding add_binding
add_binding-text (prefix, ns) d h =
    let e =
      split_on-append b'=' prefix ns h.0.1.1
      ∙ ap (λ l. prefix ∷ l) (split_on-Without b'=' ns h.1.1.1) in
    ground (arith, e)

find_ns-query :
    (bs : List (Str × Str)) → All IsBinding bs → find_ns 0 (query_text bs) ≡ map binding_text bs
unfolding find_ns
find_ns-query [] h = refl
find_ns-query (b ∷ bs) h =
    find_ns-found (binding_text b) (query_text bs)
      (Without-append b')' b.0 (b'=' ∷ b.1) h.0.0.0 (ground arith, h.0.1.0))
      (Without-append b'\n' b.0 (b'=' ∷ b.1) h.0.0.1.0 (ground arith, h.0.1.1.0))
    ∙ ap (λ l. binding_text b ∷ l) (find_ns-query bs h.1)

add_bindings-text :
    (bs : List (Str × Str)) (d : Namespaces)
    → All IsBinding bs
    → add_bindings (map binding_text bs) d ≡ bind_all bs d
unfolding add_bindings
add_bindings-text [] d h = refl
add_bindings-text (b ∷ bs) d h =
    ap (add_bindings (map binding_text bs)) (add_binding-text b d h.0)
    ∙ add_bindings-text bs (insert b.0 b.1 d) h.1

-- A query that binds prefixes to namespaces, 'xmlns(prefix=namespace)' for each, is read as just
-- these bindings, where no text has a parenthesis that closes, an equals sign or an end of line.
pub parse_ns_bindings-query :
    (bs : List (Str × Str)) → All IsBinding bs → parse_ns_bindings (query_text bs) ≡ bind_all bs []
unfolding parse_ns_bindings
parse_ns_bindings-query bs h =
    ap (λ ms. add_bindings ms []) (find_ns-query bs h) ∙ add_bindings-text bs [] h
