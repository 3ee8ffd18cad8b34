-- ===== src/NativeHost/Host.antt =====
-- native_host/src/main.cpp: what the host does with one message of the browser. A reply is the
-- envelope before it is printed.
pub mod Requests
pub mod Document
pub mod Forward
use ezcap.Base.Json.{Json, ℤ, pos, negsuc}
use ezcap.Base.Result.{Result, ok, err, ◌>>=◌, ◌>>◌, require, or_fail}
use ezcap.Base.{
  ℕ, Bool, true, false, not, ◌&&◌, ◌||◌, List, [], ◌∷◌, ◌++◌, Option, none, some, ltb, leb, ◌==◌,
  if◌then◌else◌, is_some, length, take, any, Text, codes, text_eq,
}
use ezcap.Ipc.Codec.{is_version, string_member}
use ezcap.Model.Protocol.{protocol_version, Operation, operation_from_name, Request}
use ezcap.NativeHost.Client.{
  Connecting, Waiting, DaemonClient, new_client, connect, send_request, poll,
}
use ezcap.NativeHost.Framing.{Answer}
use ezcap.Policy.Redactor.{is_empty}

abbrev pub allowed_operations : List Text
allowed_operations =
    codes "hello"
    ∷ codes "get_status"
    ∷ codes "subscribe"
    ∷ codes "unsubscribe"
    ∷ codes "set_policy"
    ∷ codes "get_policy"
    ∷ []

unfoldable pub operation_allowed : Text → Bool
operation_allowed name = any (text_eq name) allowed_operations

abbrev pub forbidden_keys : List Text
forbidden_keys =
    codes "payload"
    ∷ codes "body"
    ∷ codes "cookies"
    ∷ codes "authorization"
    ∷ codes "password"
    ∷ codes "api_key"
    ∷ codes "execute"
    ∷ codes "run"
    ∷ codes "eval"
    ∷ codes "command"
    ∷ codes "shell"
    ∷ []

-- The first key that is forbidden.
unfoldable pub forbidden_key : List Text → Option Text
forbidden_key [] = none
forbidden_key (key ∷ keys) =
    if any (text_eq key) forbidden_keys then some key else forbidden_key keys

-- What the daemon's side answers to `connect`, `send_request` and `poll`.
pub record DaemonAnswers : Type 0 where
  pub connecting : Connecting
  pub sending : List Answer
  pub waiting : Waiting

-- `send_error` with its arguments.
pub record Fault : Type 0 where
  pub request_id : Text
  pub code : Text
  pub text : Text

-- Why a message goes no further: an exception, which ends the host, or an error that is sent to the
-- browser, after which the host goes on or returns.
pub data Stop : Type 0 where
  exception : Stop
  reply : Bool → Fault → Stop

abbrev pub schema_violation : Text → Text → Fault
schema_violation request_id text = record {
  request_id = request_id;
  code = codes "schema_violation";
  text = text;
}

abbrev pub malformed : Stop
malformed = reply false (schema_violation [] (codes "malformed envelope"))

abbrev pub refuse : Text → Stop
refuse text = reply true (schema_violation [] text)

abbrev pub incomplete : Stop
incomplete = refuse (codes "request requires operation and request_id")

abbrev pub deny : Text → Text → Text → Stop
deny request_id code text =
    reply true (record { request_id = request_id; code = code; text = text })

abbrev pub no_forbidden : Text → Option Text → Result Stop (Unit {0})
no_forbidden request_id none = ok tt
no_forbidden request_id (some bad) =
    err (reply true (schema_violation request_id (codes "forbidden field: " ++ bad)))

abbrev pub connected_or : Text → Option Text → Result Stop (Unit {0})
connected_or request_id none = ok tt
connected_or request_id (some e) = err (deny request_id (codes "daemon_unavailable") e)

-- The host's answer to a message: whether it goes on, the envelopes that it sends, and what was sent
-- to the daemon.
pub record Outcome (V : Type 0) : Type 0 where
  pub carries_on : Bool
  pub replies : List V
  pub forwarded : Text

module _ (js : Json) where
  open js use {
    Value, parse, dump, is_object, member, size, keys, as_bool, as_string, as_int, object, string,
    number, boolean,
  }

  unfoldable pub envelope : Text → Value → Value
  envelope kind payload = object (
      (codes "protocol_version", number protocol_version)
      ∷ (codes "kind", string kind)
      ∷ (codes "payload", payload)
      ∷ [])

  unfoldable pub error_envelope : Fault → Value
  unfolding envelope
  error_envelope f =
      let rest = (codes "code", string f.code) ∷ (codes "message", string (take 256 f.text)) ∷ [] in
      envelope (codes "error") (
        object (
          if not (is_empty f.request_id)
          then (codes "request_id", string f.request_id) ∷ rest
          else rest))

  -- `doc.value("protocol_version", 0)`, which throws where the value is no number.
  abbrev pub version_value : Value → Option ℤ
  version_value doc = elim (member doc (codes "protocol_version")) [
    | none ↦ some (pos 0)
    | some v ↦ as_int v
  ]

  -- A member that is an object.
  abbrev pub object_member : Value → Text → Option Value
  object_member doc key = elim (member doc key) [
    | none ↦ none
    | some v ↦ if is_object v then some v else none
  ]

  -- The parameters as a text, empty where there are none that are sent on, or an exception.
  unfoldable pub params_text : Value → Option Text
  params_text payload = elim (object_member payload (codes "params")) [
    | none ↦ some []
    | some params ↦ if leb (size params) 8 then dump params else some []
  ]

  -- The first part of `handle_message`, up to the request's id.
  unfoldable pub read_request : Value → Result Stop (Value × Text × Text)
  read_request doc = do
    require (is_object doc) malformed
    version ← or_fail (version_value doc) exception
    require (is_version version) malformed
    kind ← or_fail (string_member js doc (codes "kind")) malformed
    payload ← or_fail (object_member doc (codes "payload")) malformed
    require (text_eq kind (codes "request")) (refuse (codes "only 'request' messages are accepted"))
    operation ← or_fail (string_member js payload (codes "operation")) incomplete
    request_id ← or_fail (string_member js payload (codes "request_id")) incomplete
    require (not (is_empty request_id || ltb 64 (length request_id)))
        (refuse (codes "request_id must be 1-64 characters"))
    ok (payload, operation, request_id)

  -- From there to the request that is sent to the daemon.
  unfoldable pub make_request : Option Text → Value → Text → Text → Result Stop Request
  unfolding forbidden_key operation_allowed params_text
  make_request connect_error payload operation request_id = do
    no_forbidden request_id (forbidden_key (keys payload))
    require (operation_allowed operation) (
        deny request_id (codes "unknown_operation")
          (codes "operation not available through the native host"))
    connected_or request_id connect_error
    op ←
        or_fail (operation_from_name operation)
          (deny request_id (codes "unknown_operation") operation)
    params ← or_fail (params_text payload) exception
    ok (record {
      version = protocol_version;
      operation = op;
      request_id = request_id;
      params_json = params;
    })

  unfoldable pub accept_message : Option Text → Value → Result Stop Request
  unfolding read_request make_request
  accept_message connect_error doc = do
    (payload, operation, request_id) ← read_request doc
    make_request connect_error payload operation request_id

  -- One frame of the daemon: `none` where `value` throws.
  unfoldable pub rewrap : Text → Value → Option Value
  unfolding envelope
  rewrap request_id parsed =
      let response = λ (b : Bool). envelope (codes "response") (
        object (
          (codes "request_id", string request_id)
          ∷ (codes "ok", boolean b)
          ∷ (elim (member parsed (codes "result")) [
            | none ↦ []
            | some result ↦ (codes "result", result) ∷ []
          ]))) in
      if not (is_some (member parsed (codes "ok"))) && is_some (member parsed (codes "event_type"))
      then some (envelope (codes "event") parsed)
      else if not (is_object parsed)
      then none
      else elim (member parsed (codes "ok")) [
        | none ↦ some (response false)
        | some v ↦ elim (as_bool v) [ none ↦ none | some b ↦ some (response b) ]
      ]

  abbrev pub cons : Option Value → Option (List Value) → Option (List Value)
  cons (some v) (some vs) = some (v ∷ vs)
  cons _ _ = none

  unfoldable pub relay : Text → List Text → Option (List Value)
  unfolding rewrap
  relay request_id [] = some []
  relay request_id (frame ∷ frames) = elim (parse frame) [
    | none ↦ relay request_id frames
    | some parsed ↦ cons (rewrap request_id parsed) (relay request_id frames)
  ]

  abbrev pub answer_fault : Bool → Fault → Text → Outcome Value
  answer_fault carries_on f sent = record {
    carries_on = carries_on;
    replies = error_envelope f ∷ [];
    forwarded = sent;
  }

  -- The answer of the daemon; its errors do not end the host.
  unfoldable pub await : Waiting → Text → Text → DaemonClient → Option (Outcome Value)
  unfolding relay
  await waiting request_id sent client = elim ((poll waiting client).error) [
    | some e ↦ some (
        answer_fault true
          (record { request_id = request_id; code = codes "daemon_error"; text = e }) sent)
    | none ↦ elim (relay request_id (poll waiting client).frames) [
      | none ↦ none
      | some replies ↦ some (record { carries_on = true; replies = replies; forwarded = sent })
    ]
  ]

  unfoldable pub forward : DaemonAnswers → Request → DaemonClient → Option (Outcome Value)
  unfolding await
  forward d request client = elim (send_request js d.sending request client) [
    | none ↦ none
    | some (all_sent, sent) ↦
        if all_sent
        then await d.waiting request.request_id sent client
        else some (
            answer_fault true
              (record {
                request_id = request.request_id;
                code = codes "daemon_unavailable";
                text = codes "failed to send request to daemon";
              })
              sent)
  ]

  abbrev pub conclude : DaemonAnswers → DaemonClient → Result Stop Request → Option (Outcome Value)
  conclude d client (err exception) = none
  conclude d client (err (reply carries_on f)) = some (answer_fault carries_on f [])
  conclude d client (ok request) = forward d request client

  -- `none` stands for an exception, which ends the host, and for a send that waits.
  unfoldable pub handle_message : DaemonAnswers → Value → Option (Outcome Value)
  unfolding accept_message forward
  handle_message d doc =
      let (connect_error, client) = connect d.connecting new_client in
      conclude d client (accept_message connect_error doc)
