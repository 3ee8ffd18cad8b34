-- ===== src/Ipc/Codec/Requests.antt =====
-- What `parse_request` of src/ipc/ipc_codec.cpp accepts.
use ezcap.Base.Json.{Json, pos}
use ezcap.Base.Result.{ok}
use ezcap.Base.{
  ℕ, ◌≤◌, ◌<◌, true, false, List, [], ◌∷◌, Option, none, some, is_some, any, All, Option-cases,
  length, Text, codes, ◌≡◌, refl, arith, ◌⊎◌, inl, inr,
}
use ezcap.Ipc.Codec.{
  forbidden_fields, has_forbidden_field, string_member, int64_member, read_params, parse_request,
}
use ezcap.Model.Protocol.{operation_from_name, Request}
use ezcap.Policy.Redactor.{is_empty}

module _ (js : Json) where
  -- The parameters of a document as the text that is passed on: none, or an object of at most eight
  -- members, printed.
  abbrev pub ParamsOf : js.Value → Text → Type 0
  ParamsOf doc text =
      ((js.member doc (codes "params") ≡ none) × (text ≡ []))
      ⊎ ((v : js.Value) × (js.member doc (codes "params") ≡ some v)
          × (js.is_object v ≡ true)
          × (js.size v ≤ 8)
          × (js.dump v ≡ some text))

  -- The request `r` is what the document `doc` says, within the limits.
  pub record IsRequestOf (doc : js.Value) (r : Request) : Type 0 where
    pub object : js.is_object doc ≡ true
    pub no_payload : js.member doc (codes "payload") ≡ none
    pub no_body : js.member doc (codes "body") ≡ none
    pub no_cookies : js.member doc (codes "cookies") ≡ none
    pub no_authorization : js.member doc (codes "authorization") ≡ none
    pub no_password : js.member doc (codes "password") ≡ none
    pub no_api_key : js.member doc (codes "api_key") ≡ none
    pub version : int64_member js doc (codes "protocol_version") ≡ some (pos 1)
    pub name : Text
    pub named : string_member js doc (codes "operation") ≡ some name
    pub operation : operation_from_name name ≡ some r.operation
    pub id : string_member js doc (codes "request_id") ≡ some r.request_id
    pub id_some : 0 < length r.request_id
    pub id_short : length r.request_id ≤ 64
    pub params : ParamsOf doc r.params_json

  id_nonempty : (s : Text) → is_empty s ≡ false → 0 < length s
  id_nonempty [] h = cc
  id_nonempty (c ∷ s) h = omega arith

  absent : {A : Type 0} (o : Option A) → is_some o ≡ false → o ≡ none
  absent none h = refl
  absent (some a) h = cc

  -- No field of the list is there.
  fields-absent :
      (doc : js.Value) (fields : List Text)
      → any (λ f. is_some (js.member doc f)) fields ≡ false
      → All (λ f. js.member doc f ≡ none) fields
  fields-absent doc [] h = tt
  fields-absent doc (f ∷ fields) h =
      (absent (js.member doc f) (ground arith), fields-absent doc fields (ground arith))

  forbidden-absent :
      (doc : js.Value)
      → has_forbidden_field js doc ≡ false
      → (js.member doc (codes "payload") ≡ none)
        × (js.member doc (codes "body") ≡ none)
        × (js.member doc (codes "cookies") ≡ none)
        × (js.member doc (codes "authorization") ≡ none)
        × (js.member doc (codes "password") ≡ none)
        × (js.member doc (codes "api_key") ≡ none)
  unfolding has_forbidden_field
  forbidden-absent doc h =
      let (a, (b, (c, (d, (e, (f, _)))))) = fields-absent doc forbidden_fields h in
      (a, b, c, d, e, f)

  read_params-ParamsOf :
      (doc : js.Value) (text : Text) → read_params js doc ≡ ok text → ParamsOf doc text
  unfolding read_params
  read_params-ParamsOf doc text e = elim (Option-cases (js.member doc (codes "params"))) [
    | inl n ↦ inl (n, ground arith)
    | inr (v, m) ↦ inr (v, m, ground arith, ground arith, ground arith)
  ]

  -- A frame is accepted only if it is within the limit and is a document that the request says
  -- exactly: the version is 1, the operation is on the list, the id has 1 to 64 bytes, the
  -- parameters are none or an object of at most eight members, passed on as it is printed, and
  -- there is no field payload, body, cookies, authorization, password or api_key.
  pub parse_request-IsRequestOf :
      (frame : Text) (max_bytes : ℕ) (r : Request)
      → parse_request js frame max_bytes ≡ ok r
      → (length frame ≤ max_bytes)
        × (doc : js.Value) × (js.parse frame ≡ some doc)
        × IsRequestOf doc r
  unfolding parse_request
  parse_request-IsRequestOf frame max_bytes r e = elim (Option-cases (js.parse frame)) [
    | inl p ↦ absurd (ground arith)
    | inr (doc, p) ↦ elim (Option-cases (string_member js doc (codes "operation"))) [
      | inl n ↦ absurd (ground arith)
      | inr (op_name, n) ↦ elim (Option-cases (string_member js doc (codes "request_id"))) [
        | inl i ↦ absurd (ground arith)
        | inr (id, i) ↦
            let clean : has_forbidden_field js doc ≡ false = ground arith in
            let (no_1, no_2, no_3, no_4, no_5, no_6) = forbidden-absent doc clean in
            (
              ground arith,
              doc,
              p,
              record {
                object = ground arith;
                no_payload = no_1;
                no_body = no_2;
                no_cookies = no_3;
                no_authorization = no_4;
                no_password = no_5;
                no_api_key = no_6;
                version = ground arith;
                name = op_name;
                named = n;
                operation = ground arith;
                id = ground arith;
                id_some = ground (arith, id_nonempty id);
                id_short = ground arith;
                params = read_params-ParamsOf doc r.params_json (ground arith);
              },
            )
      ]
    ]
  ]
