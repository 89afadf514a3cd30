-- ===== src/Tests/Headers.antt =====
-- Runs of the headers, users and notifications of a request, and the theorems at them.
use openxcap.Prelude.{
  ℕ, ◌≡◌, refl, true, false, not, Option, none, some, List, [], ◌∷◌, Str, codes, ok, err,
  if◌then◌else◌, arith, str_eq, lookup, insert, remove,
}
use openxcap.Errors.{http, xcap_error, no_parent, constraint_failure, format_my_tag}
use openxcap.HttpUtils.{tokenize, value_error, one_tag, any_tag, parse_list_header, generate, ETag}
use openxcap.HttpUtils.Tags.{IsPlainTag, parse_list_header-weak}
use openxcap.Preconditions.{http_put, check_etag}
use openxcap.Preconditions.Outcome.{tag_request, header?, is_in, check_etag-tags}
use openxcap.Preconditions.Dates.{conditions, check_etag-modified}
use openxcap.XcapDiff.{new_user, note_change, on_change, add_change, end_of_sleep, changes_text}
use openxcap.XcapDiff.Limit.{
  Event, changed, woken, IsGood, IsSpaced, CanHappen, publications, publications-IsSpaced,
}
use openxcap.XcapDiff.Users.{Report, alone, published, published-alone}

header_code : Unit {0}
unfolding tokenize parse_list_header generate check_etag format_my_tag changes_text on_change
    add_change end_of_sleep str_eq lookup insert remove note_change xcap_error
header_code = tt

tokenize_tests :
    (tokenize (codes "Foo; bar" ∷ codes "x" ∷ []) true
      ≡ ok (codes "foo" ∷ codes ";" ∷ codes "bar" ∷ codes "," ∷ codes "x" ∷ []))
    × (tokenize (codes "a b" ∷ []) true ≡ ok (codes "a" ∷ codes " " ∷ codes "b" ∷ []))
    × (tokenize (codes "\"a" ∷ []) true ≡ err value_error)
unfolding header_code
tokenize_tests = (refl, refl, refl)

-- `"a", "b"`, with a space behind the comma, and `"A"`, which is read in lower case
list_tests :
    (parse_list_header (codes "\"a\", \"b\"") ≡ err value_error)
    × (parse_list_header (codes "\"A\",*")
        ≡ ok (one_tag (record { tag = codes "a"; weak = false }) ∷ any_tag ∷ []))
unfolding header_code
list_tests = (refl, refl)

error_tests :
    (format_my_tag (xcap_error (no_parent (codes "/a")) [] (codes "x-->y"))
      ≡ codes "<no-parent><!--\nx--&gt;y\n--><ancestor>/a</ancestor></no-parent>")
    × (format_my_tag (xcap_error constraint_failure (codes "a<b") [])
        ≡ codes "<constraint-failure phrase=\"a&lt;b\"/>")
unfolding header_code
error_tests = (refl, refl)

diff_test :
    changes_text (codes "r") ((codes "u", (some (codes "1"), none)) ∷ [])
    ≡ codes
        "<?xml version=\"1.0\" encoding=\"UTF-8\"?>\n<xcap-diff xmlns=\"urn:ietf:params:xml:ns:xcap-diff\" xcap-root=\"r\">\n<document sel=\"u\" previous-etag=\"1\"/>\n</xcap-diff>\n"
unfolding header_code
diff_test = refl

abbrev tag_a : Str
tag_a = codes "a1"

abbrev tag_b : Str
tag_b = codes "b2"

tag_a-IsPlain : IsPlainTag tag_a
tag_a-IsPlain = (((refl, (refl, refl)), ((refl, (refl, refl)), tt)), (cc, cc))

tag_b-IsPlain : IsPlainTag tag_b
tag_b-IsPlain = (((refl, (refl, refl)), ((refl, (refl, refl)), tt)), (cc, cc))

parse_list_header-weak_example :
    parse_list_header (generate (record { tag = tag_a; weak = true })) ≡ err value_error
parse_list_header-weak_example = parse_list_header-weak tag_a tag_a-IsPlain

abbrev no_dates : Str → Option ℕ
no_dates s = none

check_etag-tags_example :
    check_etag no_dates 100
      (tag_request http_put (some (tag_a, [])) (some (tag_b, [])) [])
      (some tag_b)
      true
    ≡ (if not (is_in tag_b (tag_a ∷ []))
        then err (http 412)
        else if is_in tag_b (tag_b ∷ [])
        then err (http 412)
        else ok tt)
check_etag-tags_example =
    check_etag-tags no_dates 100 http_put (some (tag_a, [])) (some (tag_b, [])) [] tag_b true
      (tag_a-IsPlain, tt) (tag_b-IsPlain, tt)

check_etag-modified_example :
    check_etag no_dates 100
      (conditions http_put [] (header? (some (tag_a, []))) [] (b'x' ∷ []))
      (some tag_a)
      true
    ≡ ok tt
check_etag-modified_example =
    check_etag-modified no_dates 100 http_put (some tag_a) true b'x' [] (some (tag_a, []))
      (tag_a-IsPlain, tt)

-- changes at 100 and 110, and the end of the sleep between them
abbrev history : List Event
history =
    changed 100 (codes "u") none (some tag_a)
    ∷ changed 110 (codes "u") (some tag_a) (some tag_b)
    ∷ woken 131
    ∷ []

new_user-IsGood : IsGood new_user
new_user-IsGood = (λ due x. cc, λ x. refl)

history-CanHappen : CanHappen history new_user
unfolding header_code
history-CanHappen = (omega arith, (omega arith, ((130, refl, omega arith), tt)))

history_test : publications history new_user ≡ 100 ∷ 131 ∷ []
unfolding header_code
history_test = refl

publications-IsSpaced_example : IsSpaced 0 (publications history new_user)
publications-IsSpaced_example =
    publications-IsSpaced history new_user new_user-IsGood history-CanHappen

abbrev report : ℕ → Report
report now = record { now = now; key = codes "a@d"; uri = codes "u"; old = none; new = some tag_a }

published-alone_example :
    published (report 1000 ∷ report 1001 ∷ []) []
    ≡ ((alone (report 1000) ∷ []) ∷ (alone (report 1001) ∷ []) ∷ [], [])
published-alone_example =
    published-alone (report 1000 ∷ report 1001 ∷ []) (omega arith, (omega arith, tt))

abbrev weak_tag : ETag
weak_tag = record { tag = codes "A\\1"; weak = true }
