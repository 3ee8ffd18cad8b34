-- ===== src/NativeHost/Host/Document.antt =====
-- The document of a request, and what the daemon's parser reads from it.
use ezcap.Base.Json.{Json, ℤ, pos, JsonLaws, PrintLaws, assoc}
use ezcap.Base.Result.{ok}
use ezcap.Base.{
  ◌≤◌, true, false, not, ◌||◌, [], ◌∷◌, none, some, ◌≡◌, refl, sym, ap, ◌∙◌, arith, ltb, leb,
  length, ◌==◌, All, Free, Text, codes, text_eq, Bool-cases, inl, inr,
}
use ezcap.Ipc.Codec.{has_forbidden_field, string_member, int64_member, read_params, parse_request}
use ezcap.Model.Protocol.{
  protocol_version, max_request_bytes, operation_name, operation_from_name, Request,
}
use ezcap.Model.Protocol.Operations.{operation_from_name_iff}
use ezcap.NativeHost.Client.{params_fields, request_fields, request_frame}
use ezcap.Policy.Redactor.{is_empty}
use ezcap.NativeHost.Host.Requests.{ParamsOk, IsForwardable}

empty : (s : Text) → is_empty s ≡ true → s ≡ []
empty [] h = refl
empty (c ∷ s) h = cc

-- What the daemon's parser reads from a document with the members that it asks for.
module _ (js : Json) where
  string_member-of :
      (doc : js.Value) (k : Text) (v : js.Value) {s : Text}
      → js.member doc k ≡ some v
      → js.as_string v ≡ some s
      → string_member js doc k ≡ some s
  string_member-of doc k v m e = ground arith

  int64_member-of :
      (doc : js.Value) (k : Text) (v : js.Value) {n : ℤ}
      → js.member doc k ≡ some v
      → js.as_int64 v ≡ some n
      → int64_member js doc k ≡ some n
  int64_member-of doc k v m e = ground arith

  read_params-none :
      (doc : js.Value) → js.member doc (codes "params") ≡ none → read_params js doc ≡ ok []
  unfolding read_params
  read_params-none doc e = ground arith

  read_params-some :
      (doc v : js.Value) (t : Text)
      → js.member doc (codes "params") ≡ some v
      → js.is_object v ≡ true
      → leb (js.size v) 8 ≡ true
      → js.dump v ≡ some t
      → read_params js doc ≡ ok t
  unfolding read_params
  read_params-some doc v t m o small shown =
      let fits : ltb 8 (js.size v) ≡ false = ground arith in ground arith

  parse_request-ok :
      (frame : Text) (doc : js.Value) (r : Request)
      → length frame ≤ max_request_bytes
      → js.parse frame ≡ some doc
      → js.is_object doc ≡ true
      → has_forbidden_field js doc ≡ false
      → int64_member js doc (codes "protocol_version") ≡ some (pos protocol_version)
      → r.version ≡ protocol_version
      → (name : Text) → string_member js doc (codes "operation") ≡ some name
      → operation_from_name name ≡ some r.operation
      → string_member js doc (codes "request_id") ≡ some r.request_id
      → not (is_empty r.request_id || ltb 64 (length r.request_id)) ≡ true
      → read_params js doc ≡ ok r.params_json
      → parse_request js frame max_request_bytes ≡ ok r
  unfolding parse_request
  parse_request-ok frame doc r short parsed obj clean version same name named op id fits params =
      let small : ltb max_request_bytes (length frame) ≡ false = ground arith in
      rw (small, parsed, obj, clean, version, named, op, id, fits, params, sym same) refl

-- The document of a request, read by the daemon.
module _ (js : Json) (laws : JsonLaws js) (prints : PrintLaws js) where
  abbrev request_doc : Request → js.Value
  request_doc r = js.object (request_fields js r)

  doc_member :
      (r : Request) (k : Text) → js.member (request_doc r) k ≡ assoc k (request_fields js r)
  doc_member r k = laws.member-object (request_fields js r) k

  assoc-absent :
      (r : Request)
      → (assoc (codes "payload") (request_fields js r) ≡ none)
        × (assoc (codes "body") (request_fields js r) ≡ none)
        × (assoc (codes "cookies") (request_fields js r) ≡ none)
        × (assoc (codes "authorization") (request_fields js r) ≡ none)
        × (assoc (codes "password") (request_fields js r) ≡ none)
        × (assoc (codes "api_key") (request_fields js r) ≡ none)
  unfolding assoc text_eq
  assoc-absent r = elim (Bool-cases (is_empty r.params_json)) [
    | inl e ↦ rw e (refl, refl, refl, refl, refl, refl)
    | inr e ↦ rw e (refl, refl, refl, refl, refl, refl)
  ]

  doc-not-forbidden : (r : Request) → has_forbidden_field js (request_doc r) ≡ false
  unfolding has_forbidden_field
  doc-not-forbidden r =
      let (a, b, c, d, e, f) = assoc-absent r in
      rw
        (
          doc_member r (codes "payload"),
          a,
          doc_member r (codes "body"),
          b,
          doc_member r (codes "cookies"),
          c,
          doc_member r (codes "authorization"),
          d,
          doc_member r (codes "password"),
          e,
          doc_member r (codes "api_key"),
          f,
        )
        refl

  doc-version :
      (r : Request)
      → r.version ≡ protocol_version
      → int64_member js (request_doc r) (codes "protocol_version") ≡ some (pos protocol_version)
  unfolding assoc text_eq
  doc-version r e =
      int64_member-of js (request_doc r) (codes "protocol_version") (js.number 1)
        (doc_member r (codes "protocol_version") ∙ ap (λ n. some (js.number n)) e)
        (laws.as_int64-number 1 refl)

  doc-operation :
      (r : Request)
      → string_member js (request_doc r) (codes "operation") ≡ some (operation_name r.operation)
  unfolding assoc text_eq
  doc-operation r =
      string_member-of js (request_doc r) (codes "operation")
        (js.string (operation_name r.operation)) (doc_member r (codes "operation"))
        (laws.as_string-string (operation_name r.operation))

  doc-id : (r : Request) → string_member js (request_doc r) (codes "request_id") ≡ some r.request_id
  unfolding assoc text_eq
  doc-id r =
      string_member-of js (request_doc r) (codes "request_id") (js.string r.request_id)
        (doc_member r (codes "request_id")) (laws.as_string-string r.request_id)

  assoc-no_params :
      (r : Request)
      → is_empty r.params_json ≡ true
      → assoc (codes "params") (request_fields js r) ≡ none
  unfolding assoc text_eq
  assoc-no_params r e = rw e refl

  assoc-params :
      (r : Request) (v : js.Value)
      → is_empty r.params_json ≡ false
      → js.parse r.params_json ≡ some v
      → assoc (codes "params") (request_fields js r) ≡ some v
  unfolding assoc text_eq
  assoc-params r v e p = rw (e, p) refl

  doc-no_params :
      (r : Request)
      → is_empty r.params_json ≡ true
      → read_params js (request_doc r) ≡ ok r.params_json
  doc-no_params r e =
      read_params-none js (request_doc r) (doc_member r (codes "params") ∙ assoc-no_params r e)
      ∙ ap ok (sym (empty r.params_json e))

  doc-params :
      (r : Request)
      → ParamsOk js prints.Regular prints.inner r.params_json
      → read_params js (request_doc r) ≡ ok r.params_json
  doc-params r (inl e) = doc-no_params r (ap is_empty e)
  doc-params r (inr (v, obj, small, shown, regular)) = elim (Bool-cases (is_empty r.params_json)) [
    | inl e ↦ doc-no_params r e
    | inr e ↦
        let there =
          doc_member r (codes "params")
          ∙ assoc-params r v e (prints.parse-dump v r.params_json regular shown) in
        read_params-some js (request_doc r) v r.params_json there obj small shown
  ]

  params_fields-Regular :
      (text : Text)
      → ParamsOk js prints.Regular prints.inner text
      → All (λ f. prints.Regular f.1) (params_fields js text)
  params_fields-Regular [] ok_params = tt
  params_fields-Regular (c ∷ text) (inl e) = cc
  params_fields-Regular (c ∷ text) (inr (v, obj, small, shown, regular)) =
      let again = prints.parse-dump v (c ∷ text) regular shown in (rw again regular, tt)

  fields-Regular :
      (r : Request)
      → ParamsOk js prints.Regular prints.inner r.params_json
      → prints.Regular (request_doc r)
  fields-Regular r ok_params = prints.object (request_fields js r) (
    prints.number r.version,
    (
      prints.string (operation_name r.operation),
      (prints.string r.request_id, params_fields-Regular r.params_json ok_params),
    ),
  )

  pub parse_request-sent :
      (r : Request) (frame : Text)
      → IsForwardable js prints.Regular prints.inner r
      → request_frame js r ≡ some frame
      → length frame ≤ max_request_bytes
      → parse_request js frame max_request_bytes ≡ ok r
  unfolding request_frame
  parse_request-sent r frame v e short =
      let name = (operation_from_name_iff (operation_name r.operation) r.operation).1 refl in
      parse_request-ok js frame (request_doc r) r short
        (prints.parse-dump (request_doc r) frame (fields-Regular r v.params_ok) e)
        (laws.is_object-object (request_fields js r)) (doc-not-forbidden r)
        (doc-version r v.version_is) v.version_is (operation_name r.operation) (doc-operation r)
        name (doc-id r) v.id_fits (doc-params r v.params_ok)

  pub request_frame-one_line :
      (r : Request) (frame : Text)
      → IsForwardable js prints.Regular prints.inner r
      → request_frame js r ≡ some frame
      → Free (λ c. c == b'\n') frame
  unfolding request_frame
  request_frame-one_line r frame v e =
      prints.one_line (request_doc r) frame (fields-Regular r v.params_ok) e
