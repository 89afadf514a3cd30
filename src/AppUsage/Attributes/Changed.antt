-- ===== src/AppUsage/Attributes/Changed.antt =====
-- What a PUT and a DELETE of an attribute leave in the storage.
use openxcap.Prelude.{
  ◌≡◌, ◌≢◌, refl, ap, ◌∙◌, sym, true, false, Option, none, some, [], ◌∷◌, List, Str, codes, str_eq,
  ◌==◌, ok, >>=-Passed, arith, Bool-cases, inl, inr, of_option, of_option-eq-ok,
}
use openxcap.Errors.{Fault, value_error, xml_syntax_error}
use openxcap.Xpath.Node.{NodeSelector}
use openxcap.Backend.{StatusResponse, Table, Check, Key, query_of}
use openxcap.Backend.Rows.{view, IsUnique}
use openxcap.Backend.Refinement.{read, get_document-read}
use openxcap.Backend.Stored.{IsStored}
use openxcap.AppUsage.{Application, Place, data_of, get_document}
use openxcap.AppUsage.Elements.{validated-IsStored}
use openxcap.AppUsage.Attributes.{
  Lxml, only, attribute_of, selected_elements, tree_of, attribute_put, put_attribute,
  without_attribute, attribute_deleted, delete_attribute,
}

only-ok :
    {A : Type 0} (missing ambiguous : Fault) (o : Option (List A)) (a : A)
    → only missing ambiguous o ≡ ok a
    → o ≡ some (a ∷ [])
unfolding only
only-ok missing ambiguous none a h = cc
only-ok missing ambiguous (some []) a h = cc
only-ok missing ambiguous (some (x ∷ [])) a h = ground arith
only-ok missing ambiguous (some (x ∷ y ∷ l)) a h = cc

read-found :
    (check : Check) (v : Option (Str × Str)) (r : StatusResponse)
    → read check v ≡ ok r
    → (r.code == 404) ≡ false
    → (etag : Str) × (v ≡ some (data_of r, etag))
read-found check none r h e = ground arith
read-found check (some (doc, etag)) r h e =
    let (u, c, p) = >>=-Passed (check (some etag) true) _ h in (etag, ground arith)

-- a document that is found
found-document :
    (check : Check) (place : Place) (k : Key) (rows : Table) (r : StatusResponse)
    → query_of place.target ≡ ok (some k)
    → IsUnique rows
    → get_document check place rows ≡ ok r
    → (r.code == 404) ≡ false
    → (etag : Str) × (view rows k ≡ some (data_of r, etag))
unfolding get_document
found-document check place k rows r q u h e =
    elim (Bool-cases (str_eq place.context (codes "users"))) [
      | inl c ↦
          read-found check (view rows k) r
            (sym (get_document-read check place.target k q rows u) ∙ (rw c at h)) e
      | inr c ↦ cc (rw c at h)
    ]

module _ (lxml : Lxml) (default_ns : Option Str) (n : NodeSelector) where
  -- a document with the attribute of the only element that is selected set to a value
  abbrev pub HasValue : Str → Str → Str → Type 0
  HasValue value old new =
      (d changed : lxml.Doc) × (e : lxml.Elem) × (name : Str) × (lxml.parse old ≡ some d)
      × (selected_elements lxml default_ns d n ≡ some (e ∷ []))
      × (attribute_of n ≡ ok name)
      × (lxml.set_attribute d e name value ≡ some changed)
      × (new ≡ lxml.tostring changed)

  attribute_put-HasValue :
      (value new : Str) (r : StatusResponse)
      → attribute_put lxml default_ns n value r ≡ ok new
      → ((r.code == 404) ≡ false) × HasValue value (data_of r) new
  unfolding attribute_put
  attribute_put-HasValue value new r h = elim (Bool-cases (r.code == 404)) [
    | inl c ↦ cc (rw c at h)
    | inr c ↦
        let (d, p, h1) = >>=-Passed (tree_of lxml default_ns r) _ (rw c at h) in
        let (e, s, h2) = >>=-Passed (only _ _ (selected_elements lxml default_ns d n)) _ h1 in
        let (name, a, h3) = >>=-Passed (attribute_of n) _ h2 in
        let (changed, t, h4) =
          >>=-Passed (of_option value_error (lxml.set_attribute d e name value)) _ h3 in
        (
          c,
          (
            d,
            changed,
            e,
            name,
            of_option-eq-ok xml_syntax_error _ p,
            only-ok _ _ _ e s,
            a,
            of_option-eq-ok value_error _ t,
            ground arith,
          ),
        )
  ]

  -- Where a PUT of an attribute succeeds, there was a document, the selector finds one element in it,
  -- and the storage has the text of its tree with the attribute of that element set to the body.
  pub put_attribute-HasValue :
      (app : Application) (check : Check) (place : Place) (k : Key) (value fresh : Str)
      (rows after : Table) (r : StatusResponse)
      → query_of place.target ≡ ok (some k)
      → IsUnique rows
      → put_attribute lxml default_ns app check place n value fresh rows ≡ ok (r, after)
      → (old etag new : Str) × (view rows k ≡ some (old, etag))
        × HasValue value old new
        × IsStored new (view after k)
  unfolding put_attribute
  put_attribute-HasValue app check place k value fresh rows after r q u h =
      let (response, g, h1) = >>=-Passed (get_document check place rows) _ h in
      let (new, a, h2) = >>=-Passed (attribute_put lxml default_ns n value response) _ h1 in
      let (c, s) = attribute_put-HasValue value new response a in
      let (etag, v) = found-document check place k rows response q u g c in
      (
        data_of response,
        etag,
        new,
        v,
        s,
        validated-IsStored app check place k new fresh rows after r q u h2,
      )

  -- a document without the attribute of the only element that is selected, which was not empty
  abbrev pub IsWithout : Str → Str → Type 0
  IsWithout old new =
      (d : lxml.Doc) × (e : lxml.Elem) × (name value : Str) × (lxml.parse old ≡ some d)
      × (selected_elements lxml default_ns d n ≡ some (e ∷ []))
      × (attribute_of n ≡ ok name)
      × (lxml.attribute d e name ≡ some value)
      × (value ≢ [])
      × (new ≡ lxml.tostring (lxml.remove_attribute d e name))

  without_attribute-ok :
      (d new : lxml.Doc) (e : lxml.Elem) (name : Str) (o : Option Str)
      → without_attribute lxml default_ns d e name o ≡ ok new
      → (value : Str) × (o ≡ some value) × (value ≢ []) × (new ≡ lxml.remove_attribute d e name)
  unfolding without_attribute
  without_attribute-ok d new e name none h = cc
  without_attribute-ok d new e name (some []) h = cc
  without_attribute-ok d new e name (some (c ∷ value)) h = (c ∷ value, refl, cc, ground arith)

  attribute_deleted-IsWithout :
      (new : Str) (r : StatusResponse)
      → attribute_deleted lxml default_ns n r ≡ ok new
      → ((r.code == 404) ≡ false) × IsWithout (data_of r) new
  unfolding attribute_deleted
  attribute_deleted-IsWithout new r h = elim (Bool-cases (r.code == 404)) [
    | inl c ↦ cc (rw c at h)
    | inr c ↦
        let (d, p, h1) = >>=-Passed (tree_of lxml default_ns r) _ (rw c at h) in
        let (e, s, h2) = >>=-Passed (only _ _ (selected_elements lxml default_ns d n)) _ h1 in
        let (name, a, h3) = >>=-Passed (attribute_of n) _ h2 in
        let (changed, t, h4) =
          >>=-Passed (without_attribute lxml default_ns d e name (lxml.attribute d e name)) _ h3 in
        let (value, v, g, w) = without_attribute-ok d changed e name _ t in
        (
          c,
          (
            d,
            e,
            name,
            value,
            of_option-eq-ok xml_syntax_error _ p,
            only-ok _ _ _ e s,
            a,
            v,
            g,
            (let same : lxml.tostring changed ≡ new = ground arith in
                sym same ∙ ap lxml.tostring w),
          ),
        )
  ]

  -- Where a DELETE of an attribute succeeds, there was a document, the selector finds one element in
  -- it, which has the attribute with a value that is not empty, and the storage has the text of its
  -- tree without that attribute.
  pub delete_attribute-IsWithout :
      (app : Application) (check : Check) (place : Place) (k : Key) (fresh : Str)
      (rows after : Table) (r : StatusResponse)
      → query_of place.target ≡ ok (some k)
      → IsUnique rows
      → delete_attribute lxml default_ns app check place n fresh rows ≡ ok (r, after)
      → (old etag new : Str) × (view rows k ≡ some (old, etag))
        × IsWithout old new
        × IsStored new (view after k)
  unfolding delete_attribute
  delete_attribute-IsWithout app check place k fresh rows after r q u h =
      let (response, g, h1) = >>=-Passed (get_document check place rows) _ h in
      let (new, a, h2) = >>=-Passed (attribute_deleted lxml default_ns n response) _ h1 in
      let (c, s) = attribute_deleted-IsWithout new response a in
      let (etag, v) = found-document check place k rows response q u g c in
      (
        data_of response,
        etag,
        new,
        v,
        s,
        validated-IsStored app check place k new fresh rows after r q u h2,
      )
