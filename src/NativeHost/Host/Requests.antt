-- ===== src/NativeHost/Host/Requests.antt =====
-- The requests that the host lets through.
use ezcap.Base.Json.{Json}
use ezcap.Base.Result.{ok, or_fail, bind-eq-ok, require-eq-ok, ok-injective}
use ezcap.Base.{
  true, false, not, ◌||◌, [], Option, none, some, ◌≡◌, ◌≢◌, refl, sym, ap, ◌∙◌, arith, ltb, leb,
  length, Text, codes, text_eq, Bool-cases, Option-cases, inl, inr, ◌⊎◌,
}
use ezcap.Ipc.Codec.{string_member, is_version}
use ezcap.Model.Protocol.{
  protocol_version, Operation, shutdown, operation_name, operation_from_name, Request,
}
use ezcap.Model.Protocol.Operations.{operation_from_name_iff}
use ezcap.NativeHost.Host.{
  version_value, malformed, incomplete, deny, exception, operation_allowed, forbidden_key,
  exception, object_member, params_text, read_request, no_forbidden, connected_or, make_request,
  accept_message,
}
use ezcap.Policy.Redactor.{is_empty}

shutdown_disallowed : operation_allowed (operation_name shutdown) ≡ false
unfolding operation_allowed operation_name text_eq
shutdown_disallowed = refl

or_fail-eq-ok : {E A : Type 0} (o : Option A) (e : E) {a : A} → or_fail o e ≡ ok a → o ≡ some a
or_fail-eq-ok none e h = cc
or_fail-eq-ok (some b) e h = cc

abbrev request_of : Operation → Text → Text → Request
request_of op request_id params = record {
  version = protocol_version;
  operation = op;
  request_id = request_id;
  params_json = params;
}

allowed-only :
    (name : Text) → operation_allowed name ≡ true → operation_from_name name ≢ some shutdown
allowed-only name h e =
    let spelled : name ≡ operation_name shutdown = (operation_from_name_iff name shutdown).0 e in
    let not_allowed = ap operation_allowed spelled ∙ shutdown_disallowed in ground arith

-- `Good` is a property of values that their members have, too.
module _ (js : Json) (Good : js.Value → Type 0)
    (inner : (v w : js.Value) (k : Text) → Good v → js.member v k ≡ some w → Good w) where
  open js use {Value, parse, dump, is_object, member, size, object}

  -- The parameters that are sent on: none, or an object of at most eight members.
  abbrev pub ParamsOk : Text → Type 0
  ParamsOk text =
      (text ≡ [])
      ⊎ ((v : Value) × (is_object v ≡ true)
          × (leb (size v) 8 ≡ true)
          × (dump v ≡ some text)
          × Good v)

  pub record IsForwardable (r : Request) : Type 0 where
    pub version_is : r.version ≡ protocol_version
    pub not_shutdown : r.operation ≢ shutdown
    pub id_fits : not (is_empty r.request_id || ltb 64 (length r.request_id)) ≡ true
    pub params_ok : ParamsOk r.params_json

  object_member-is_object :
      (doc : Value) (key : Text) (v : Value)
      → object_member js doc key ≡ some v
      → (is_object v ≡ true) × (member doc key ≡ some v)
  object_member-is_object doc key v e = elim (Option-cases (member doc key)) [
    | inl n ↦ absurd (ground arith)
    | inr (w, m) ↦ elim (Bool-cases (is_object w)) [
      | inl o ↦ (ground arith, ground arith)
      | inr o ↦ absurd (ground arith)
    ]
  ]

  params_text-ParamsOk :
      (payload : Value) (t : Text) → Good payload → params_text js payload ≡ some t → ParamsOk t
  unfolding params_text
  params_text-ParamsOk payload t g e =
      elim (Option-cases (object_member js payload (codes "params"))) [
        | inl n ↦ inl (ground arith)
        | inr (v, m) ↦ elim (Bool-cases (leb (size v) 8)) [
          | inl small ↦
              let (obj, there) = object_member-is_object payload (codes "params") v m in
              inr (v, obj, small, ground arith, inner payload v (codes "params") g there)
          | inr large ↦ inl (ground arith)
        ]
      ]

  read_request-id :
      (doc payload : Value) (operation request_id : Text)
      → read_request js doc ≡ ok (payload, operation, request_id)
      → (not (is_empty request_id || ltb 64 (length request_id)) ≡ true)
        × (member doc (codes "payload") ≡ some payload)
  unfolding read_request
  read_request-id doc payload operation request_id e =
      let (_, e1) = require-eq-ok (is_object doc) _ _ e in
      let (version, _, e2) = bind-eq-ok (or_fail (version_value js doc) exception) _ e1 in
      let (_, e3) = require-eq-ok (is_version version) _ _ e2 in
      let (kind, _, e4) =
        bind-eq-ok (or_fail (string_member js doc (codes "kind")) malformed) _ e3 in
      let (p, found, e5) =
        bind-eq-ok (or_fail (object_member js doc (codes "payload")) malformed) _ e4 in
      let (_, e6) = require-eq-ok (text_eq kind (codes "request")) _ _ e5 in
      let (o, _, e7) =
        bind-eq-ok (or_fail (string_member js p (codes "operation")) incomplete) _ e6 in
      let (id, _, e8) =
        bind-eq-ok (or_fail (string_member js p (codes "request_id")) incomplete) _ e7 in
      let (fits, e9) = require-eq-ok (not (is_empty id || ltb 64 (length id))) _ _ e8 in
      let same : id ≡ request_id =
        ap (λ t. t.2) (ok-injective (p, o, id) (payload, operation, request_id) e9) in
      let same_payload : p ≡ payload =
        ap (λ t. t.0) (ok-injective (p, o, id) (payload, operation, request_id) e9) in
      let (obj, there) =
        object_member-is_object doc (codes "payload") p
          (or_fail-eq-ok (object_member js doc (codes "payload")) malformed found) in
      (
        ap (λ i. not (is_empty i || ltb 64 (length i))) (sym same) ∙ fits,
        there ∙ ap some same_payload,
      )

  make_request-IsForwardable :
      (e : Option Text) (payload : Value) (operation request_id : Text) (r : Request)
      → not (is_empty request_id || ltb 64 (length request_id)) ≡ true
      → Good payload
      → make_request js e payload operation request_id ≡ ok r
      → IsForwardable r
  unfolding make_request
  make_request-IsForwardable e payload operation request_id r fits g h =
      let (_, _, e1) = bind-eq-ok (no_forbidden request_id (forbidden_key (js.keys payload))) _ h in
      let (allowed, e2) = require-eq-ok (operation_allowed operation) _ _ e1 in
      let (_, _, e3) = bind-eq-ok (connected_or request_id e) _ e2 in
      let (op, o, e4) =
        bind-eq-ok
          (or_fail (operation_from_name operation)
            (deny request_id (codes "unknown_operation") operation))
          _ e3 in
      let (params, p, e5) = bind-eq-ok (or_fail (params_text js payload) exception) _ e4 in
      let same = ok-injective (request_of op request_id params) r e5 in
      rw (sym same) (record {
        version_is = refl;
        not_shutdown = λ is.
            allowed-only operation allowed
              (or_fail-eq-ok (operation_from_name operation) _ o ∙ ap some is);
        id_fits = fits;
        params_ok =
            params_text-ParamsOk payload params g (or_fail-eq-ok (params_text js payload) _ p);
      })

  pub accept-IsForwardable :
      (e : Option Text) (doc : Value) (r : Request)
      → Good doc
      → accept_message js e doc ≡ ok r
      → IsForwardable r
  unfolding accept_message
  accept-IsForwardable e doc r g h =
      let ((payload, operation, request_id), first, rest) = bind-eq-ok (read_request js doc) _ h in
      let (fits, there) = read_request-id doc payload operation request_id first in
      make_request-IsForwardable e payload operation request_id r fits
        (inner doc payload (codes "payload") g there) rest
