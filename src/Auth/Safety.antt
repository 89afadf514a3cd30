-- ===== src/Auth/Safety.antt =====
-- Who gets in.
use openxcap.Prelude.{
  ◌≡◌, refl, ap, ◌∙◌, true, false, some, ◌∷◌, ◌++◌, Str, codes, str_eq, str_eq_iff, strip_prefix,
  append_of_strip_prefix, ok, err, arith, Bool-cases, Option-cases, Result-cases, inl, inr,
}
use openxcap.Errors.{http}
use openxcap.Preconditions.{Method}
use openxcap.Auth.{Config, Subscriber, NonceCache, DigestFields, digest_fields}
use openxcap.Auth.Login.{
  Users, name_part, ha1_of, digest_of, create_digest_response, check_digest, digest_value,
  digest_auth,
}

module _ (md5 : Str → Str) (query_user : Users) (config : Config) (nonces : NonceCache)
    (method : Method) (realm : Str) where
  -- The evidence of a login: a live nonce, and a response that the secret of a subscriber of the
  -- realm makes.
  abbrev pub IsProven : DigestFields → nonces.Cache → Type 0
  IsProven f cache =
      (nonces.has f.nonce cache ≡ true)
      × ((s : Subscriber) × (query_user (name_part f.username) realm ≡ some s)
          × (f.response
              ≡ digest_of md5 query_user config method
                  (ha1_of md5 query_user config (name_part f.username) realm s) f realm))

  check_digest-IsProven :
      (f : DigestFields) (cache after : nonces.Cache) (user : Str)
      → check_digest md5 query_user config nonces method realm f cache ≡ (ok user, after)
      → (user ≡ f.username ++ b'@' ∷ realm)
        × ((after ≡ nonces.drop f.nonce cache) × IsProven f cache)
  unfolding check_digest create_digest_response
  check_digest-IsProven f cache after user h = elim (Bool-cases (nonces.has f.nonce cache)) [
    | inr e ↦ cc (rw e at h)
    | inl e ↦ elim (Option-cases (query_user (name_part f.username) realm)) [
      | inl n ↦ cc (rw (e, n) at h)
      | inr (s, q) ↦
          let expected =
            digest_of md5 query_user config method
              (ha1_of md5 query_user config (name_part f.username) realm s) f realm in
          elim (Bool-cases (str_eq f.response expected)) [
            | inr n ↦ cc (rw (e, q, n) at h)
            | inl m ↦
                let same = rw (e, q, m) at h in
                (ground arith, (ground arith, (e, (s, q, (str_eq_iff f.response expected).0 m))))
          ]
    ]
  ]

  -- Whoever logs in by a digest has a header with the fields of one, the response in it is made of
  -- the secret of a subscriber, who has the name in front of '@' in the realm, with a nonce that the
  -- server has given; and this nonce is gone.
  pub digest_auth-IsProven :
      (header fresh user : Str) (cache after : nonces.Cache)
      → digest_auth md5 query_user config nonces method header realm fresh cache ≡ (ok user, after)
      → (f : DigestFields) × (text : Str) × (header ≡ codes "Digest " ++ text)
        × (digest_fields text ≡ ok f)
        × (user ≡ f.username ++ b'@' ∷ realm)
        × (after ≡ nonces.drop f.nonce cache)
        × IsProven f cache
  unfolding digest_auth digest_value
  digest_auth-IsProven header fresh user cache after h =
      elim (Option-cases (strip_prefix (codes "Digest ") header)) [
        | inl n ↦ cc (rw n at h)
        | inr (text, e) ↦ elim (Result-cases (digest_fields text)) [
          | inl (x, n) ↦ cc (rw (e, n, digest_value) at h)
          | inr (f, q) ↦
              let (a, (b, c)) =
                check_digest-IsProven f cache after user (rw (e, q, digest_value) at h) in
              (f, text, append_of_strip_prefix (codes "Digest ") header text e, q, a, b, c)
        ]
      ]

  digest_auth-fields :
      (text fresh : Str) (f : DigestFields) (cache : nonces.Cache)
      → digest_fields text ≡ ok f
      → digest_auth md5 query_user config nonces method (codes "Digest " ++ text) realm fresh cache
        ≡ check_digest md5 query_user config nonces method realm f cache
  unfolding digest_auth digest_value
  digest_auth-fields text fresh f cache q = rw (q, digest_value) refl

  check_digest-dead :
      (f : DigestFields) (cache : nonces.Cache)
      → nonces.has f.nonce cache ≡ false
      → check_digest md5 query_user config nonces method realm f cache ≡ (err (http 401), cache)
  unfolding check_digest
  check_digest-dead f cache h = rw h refl

  -- A nonce logs in once: where the cache forgets what is dropped, the same header is refused
  -- afterwards.
  pub digest_auth-once :
      (header fresh again user : Str) (cache after : nonces.Cache)
      → ((n : Str) (c : nonces.Cache) → nonces.has n (nonces.drop n c) ≡ false)
      → digest_auth md5 query_user config nonces method header realm fresh cache ≡ (ok user, after)
      → digest_auth md5 query_user config nonces method header realm again after
        ≡ (err (http 401), after)
  digest_auth-once header fresh again user cache after law h =
      let (f, text, e, q, a, b, c) = digest_auth-IsProven header fresh user cache after h in
      rw e (
        digest_auth-fields text again f after q
        ∙ check_digest-dead f after (ap (nonces.has f.nonce) b ∙ law f.nonce cache))
