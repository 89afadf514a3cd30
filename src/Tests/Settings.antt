-- ===== src/Tests/Settings.antt =====
-- Runs of the types of the configuration, and the theorem at them.
use openxcap.Prelude.{
  ◌≡◌, refl, true, none, some, [], ◌∷◌, codes, ok, err, str_eq, split_on, split_first, starts_with,
  strip, strip_left, strip_prefix,
}
use openxcap.Errors.{value_error}
use openxcap.HttpUtils.{lower}
use openxcap.Auth.{find_root}
use openxcap.Xpath.Reader.{int_of}
use openxcap.Configuration.{
  Urlparse, xcap_root_uri, valid_uris, split_commas, response_code_list, has_code, some_codes,
  match_any,
}
use openxcap.Configuration.Roots.{find_root-only}

configuration_code : Unit {0}
unfolding xcap_root_uri valid_uris split_commas str_eq split_on split_first starts_with strip
    strip_left strip_prefix find_root response_code_list lower int_of has_code
configuration_code = tt

-- the scheme is what is in front of '://', and the host all that is behind it
abbrev urlparse : Urlparse
unfolding split_first
urlparse uri = elim (split_first (codes "://") uri) [
  | none ↦ some ([], [])
  | some (scheme, rest) ↦ some (scheme, rest)
]

-- a root that starts with one before it is left out, and what is no root too
roots_run :
    xcap_root_uri urlparse (some (codes "http://h/x , http://h/xy,sip:h,https://h/x"))
    ≡ ok (some (codes "http://h/x" ∷ codes "https://h/x" ∷ []))
unfolding configuration_code
roots_run = refl

found_run :
    find_root (codes "http://h/x" ∷ codes "https://h/x" ∷ []) (codes "https://h/x/a")
    ≡ some (codes "https://h/x", codes "/a")
unfolding configuration_code
found_run = refl

codes_run :
    (response_code_list (codes " 200, 404 ") ≡ ok (some_codes (200 ∷ 404 ∷ [])))
    × (response_code_list (codes "ANY") ≡ ok match_any)
    × (response_code_list (codes "99") ≡ err value_error)
unfolding configuration_code
codes_run = (refl, refl, refl)

starts_run : starts_with (codes "https://h/x/a") (codes "https://h/x") ≡ true
unfolding configuration_code
starts_run = refl

find_root-only_example : codes "https://h/x" ≡ codes "https://h/x"
unfolding str_eq
find_root-only_example =
    find_root-only urlparse (codes "http://h/x , http://h/xy,sip:h,https://h/x")
      (codes "http://h/x" ∷ codes "https://h/x" ∷ []) (codes "https://h/x/a") (codes "https://h/x")
      (codes "/a") (codes "https://h/x") roots_run found_run refl starts_run
