-- ===== src/Ipc/Codec.antt =====
-- `parse_request`, `encode_response` and `encode_error` of src/ipc/ipc_codec.cpp, over the JSON
-- library as a parameter. An exception of `dump` is caught in `parse_request` and goes on from
-- `encode_response`, whose result is then `none`.
pub mod Requests
use ezcap.Base.Json.{Json, ℤ, pos, negsuc}
use ezcap.Base.Result.{Result, ok, err, ◌>>=◌, ◌>>◌, require, or_fail}
use ezcap.Base.{
  ℕ, Bool, true, false, not, ◌||◌, List, [], ◌∷◌, Option, none, some, ltb, ◌==◌, if◌then◌else◌,
  is_some, length, any, Text, codes,
}
use ezcap.Model.ErrorCodes.{
  ErrorCode, message_too_large, invalid_json, schema_violation, unsupported_version,
  unknown_operation, missing_field, IpcError, error_code_name,
}
use ezcap.Model.Protocol.{protocol_version, Operation, operation_from_name, Request, Response}
use ezcap.Policy.Redactor.{is_empty}

abbrev pub fault : ErrorCode → Text → IpcError
fault code message = record { code = code; message = message }

abbrev pub forbidden_fields : List Text
forbidden_fields =
    codes "payload"
    ∷ codes "body"
    ∷ codes "cookies"
    ∷ codes "authorization"
    ∷ codes "password"
    ∷ codes "api_key"
    ∷ []

abbrev pub is_version : ℤ → Bool
is_version (pos n) = n == protocol_version
is_version (negsuc n) = false

module _ (js : Json) where
  open js use {Value, parse, dump, is_object, member, size, as_string, as_int64}

  unfoldable pub has_forbidden_field : Value → Bool
  has_forbidden_field doc = any (λ f. is_some (member doc f)) forbidden_fields

  -- A member that is there and of the type that is asked for.
  abbrev pub string_member : Value → Text → Option Text
  string_member doc key = elim (member doc key) [ none ↦ none | some v ↦ as_string v ]

  abbrev pub int64_member : Value → Text → Option ℤ
  int64_member doc key = elim (member doc key) [ none ↦ none | some v ↦ as_int64 v ]

  unfoldable pub read_params : Value → Result IpcError Text
  read_params doc = elim (member doc (codes "params")) [
    | none ↦ ok []
    | some params ↦ do
      require (is_object params) (fault schema_violation (codes "params must be an object"))
      require (not (ltb 8 (size params))) (fault schema_violation (codes "too many params"))
      or_fail (dump params) (fault invalid_json (codes "request failed JSON validation"))
  ]

  unfoldable pub parse_request : Text → ℕ → Result IpcError Request
  parse_request frame max_bytes = do
    require (not (ltb max_bytes (length frame)))
        (fault message_too_large (codes "request exceeds frame limit"))
    doc ← or_fail (parse frame) (fault invalid_json (codes "request is not valid JSON"))
    require (is_object doc) (fault schema_violation (codes "request must be a JSON object"))
    require (not (has_forbidden_field doc))
        (fault schema_violation (codes "request contains forbidden fields"))
    version ←
        or_fail (int64_member doc (codes "protocol_version"))
          (fault missing_field (codes "protocol_version missing"))
    require (is_version version) (fault unsupported_version (codes "unsupported protocol version"))
    name ←
        or_fail (string_member doc (codes "operation"))
          (fault missing_field (codes "operation missing"))
    op ← or_fail (operation_from_name name) (fault unknown_operation (codes "unknown operation"))
    request_id ←
        or_fail (string_member doc (codes "request_id"))
          (fault missing_field (codes "request_id missing"))
    require (not (is_empty request_id || ltb 64 (length request_id)))
        (fault schema_violation (codes "request_id must be 1-64 chars"))
    params ← read_params doc
    ok (record {
      version = protocol_version;
      operation = op;
      request_id = request_id;
      params_json = params;
    })

  -- An empty or unreadable result is sent as an empty object.
  abbrev result_value : Text → Value
  result_value text =
      if is_empty text then js.object [] else elim (parse text) [ none ↦ js.object [] | some v ↦ v ]

  unfoldable pub response_value : Response → Value
  response_value r =
      if r.is_ok
      then js.object (
          (codes "request_id", js.string r.request_id)
          ∷ (codes "ok", js.boolean true)
          ∷ (codes "result", result_value r.result_json)
          ∷ [])
      else js.object (
          (codes "request_id", js.string r.request_id)
          ∷ (codes "ok", js.boolean false)
          ∷ (
            codes "error",
            js.object (
                (codes "code", js.string (error_code_name r.error.code))
                ∷ (codes "message", js.string r.error.message)
                ∷ []),
          )
          ∷ [])

  unfoldable pub encode_response : Response → Option Text
  unfolding response_value
  encode_response r = dump (response_value r)

  unfoldable pub encode_error : Text → IpcError → Option Text
  unfolding encode_response
  encode_error request_id error =
      encode_response
        (record { request_id = request_id; is_ok = false; result_json = []; error = error })
