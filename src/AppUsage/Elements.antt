-- ===== src/AppUsage/Elements.antt =====
-- What a PUT of an element leaves is what a GET of it finds.
use openxcap.Prelude.{
  ◌≡◌, ap, ◌∙◌, sym, subst, ◌==◌, Bool, true, Option, none, some, Str, str_eq_iff, strip, ok, arith,
  Bool-cases, Option-cases, Result-cases, inl, inr,
}
use openxcap.Xpath.{ElementSelector}
use openxcap.Xpath.Node.{fix_star}
use openxcap.Element.Utf8.{utf8_decode}
use openxcap.Element.Splice.{put, get}
use openxcap.Backend.{StatusResponse, Table, Check, Key, query_of}
use openxcap.Backend.Stored.{IsStored, put_document-IsStored}
use openxcap.Backend.Rows.{view, IsUnique}
use openxcap.AppUsage.{
  Application, Place, is_space_byte, is_result, checked_document, new_document, cb_put_element,
  get_document, put_document, put_element, validate_document, data_of,
}

-- a new document in which GET finds what was PUT, with the selector as fix_star leaves it
abbrev pub IsInserted : Application → ElementSelector → Str → Str → Type 0
IsInserted app elements body new =
    (text : Str) × (fixed : ElementSelector) × (utf8_decode body ≡ some text)
    × (fix_star text elements ≡ ok fixed)
    × (get app.parser new fixed.steps ≡ ok (some (strip is_space_byte body)))

is_result-true :
    (o : Option Str) (body : Str) → is_result o body ≡ true → o ≡ some (strip is_space_byte body)
unfolding is_result
is_result-true none body h = cc
is_result-true (some text) body h = ap some ((str_eq_iff text (strip is_space_byte body)).0 h)

checked_document-ok :
    (app : Application) (fixed : ElementSelector) (body : Str) (o : Option (Str × Bool)) (new : Str)
    (created : Bool)
    → checked_document app fixed body o ≡ ok (new, created)
    → get app.parser new fixed.steps ≡ ok (some (strip is_space_byte body))
unfolding checked_document
checked_document-ok app fixed body none new created h = cc
checked_document-ok app fixed body (some (doc, made)) new created h =
    elim (Result-cases (get app.parser doc fixed.steps)) [
      | inl (x, e) ↦ cc (rw e at h)
      | inr (o, e) ↦ elim (Bool-cases (is_result o body)) [
        | inl g ↦
            let q = rw (e, g) at h in
            let same : doc ≡ new = ground arith in
            ap (λ d. get app.parser d fixed.steps) (sym same)
            ∙ (e ∙ ap ok (is_result-true o body g))
        | inr g ↦ cc (rw (e, g) at h)
      ]
    ]

-- A PUT of an element goes on with a new document only if a GET of the element in it gives back the
-- element, without the white space around it.
pub new_document-IsInserted :
    (app : Application) (elements : ElementSelector) (body old new : Str) (created : Bool)
    → new_document app elements body old ≡ ok (new, created)
    → IsInserted app elements body new
unfolding new_document
new_document-IsInserted app elements body old new created h =
    elim (Option-cases (utf8_decode body)) [
      | inl e ↦ cc (rw e at h)
      | inr (text, e) ↦ elim (Result-cases (fix_star text elements)) [
        | inl (x, f) ↦ cc (rw (e, f) at h)
        | inr (fixed, f) ↦ elim (Result-cases (put app.parser old fixed.steps body)) [
          | inl (x, p) ↦ cc (rw (e, f, p) at h)
          | inr (o, p) ↦ (
            text,
            fixed,
            e,
            f,
            checked_document-ok app fixed body o new created (rw (e, f, p) at h),
          )
        ]
      ]
    ]

pub validated-IsStored :
    (app : Application) (check : Check) (place : Place) (k : Key) (doc fresh : Str)
    (rows after : Table) (r : StatusResponse)
    → query_of place.target ≡ ok (some k)
    → IsUnique rows
    → put_document app check place doc fresh rows ≡ ok (r, after)
    → IsStored doc (view after k)
unfolding put_document
validated-IsStored app check place k doc fresh rows after r q u h =
    elim (Result-cases (validate_document app doc)) [
      | inl (x, e) ↦ cc (rw e at h)
      | inr (d, e) ↦
          put_document-IsStored check place.target k doc fresh rows after r q u (rw e at h)
    ]

cb_put_element-IsStored :
    (app : Application) (check : Check) (place : Place) (elements : ElementSelector) (k : Key)
    (body fresh : Str) (rows after : Table) (response r : StatusResponse)
    → query_of place.target ≡ ok (some k)
    → IsUnique rows
    → cb_put_element app check place elements body fresh rows response ≡ ok (r, after)
    → (new : Str) × IsStored new (view after k) × IsInserted app elements body new
unfolding cb_put_element
cb_put_element-IsStored app check place elements k body fresh rows after response r q u h =
    elim (Bool-cases (response.code == 404)) [
      | inl e ↦ cc (rw e at h)
      | inr e ↦ elim (Result-cases (new_document app elements body (data_of response))) [
        | inl (x, f) ↦ cc (rw (e, f) at h)
        | inr ((new, created), f) ↦
            elim (Result-cases (put_document app check place new fresh rows)) [
              | inl (x, g) ↦ cc (rw (e, f, g) at h)
              | inr ((s, t), g) ↦
                  let p = rw (e, f, g) at h in
                  let same : t ≡ after = ground arith in
                  (
                    new,
                    subst (λ c. IsStored new (view c k)) same
                        (validated-IsStored app check place k new fresh rows t s q u g),
                    new_document-IsInserted app elements body (data_of response) new created f,
                  )
            ]
      ]
    ]

-- After a PUT of an element that succeeds, the storage has a document in which GET finds the element
-- as it was sent, but for the white space around it.
pub put_element-IsStored :
    (app : Application) (check : Check) (place : Place) (elements : ElementSelector) (k : Key)
    (body fresh : Str) (rows after : Table) (r : StatusResponse)
    → query_of place.target ≡ ok (some k)
    → IsUnique rows
    → put_element app check place elements body fresh rows ≡ ok (r, after)
    → (new : Str) × IsStored new (view after k) × IsInserted app elements body new
unfolding put_element
put_element-IsStored app check place elements k body fresh rows after r q u h =
    elim (Option-cases (app.fragment_error body)) [
      | inr (m, e) ↦ cc (rw (e, put_element) at h)
      | inl e ↦ elim (Result-cases (get_document check place rows)) [
        | inl (x, f) ↦ cc (rw (e, put_element, f) at h)
        | inr (response, f) ↦
            cb_put_element-IsStored app check place elements k body fresh rows after response r q u
              (rw (e, put_element, f) at h)
      ]
    ]
