-- ===== src/Daemon/Requests.antt =====
-- Daemon::handle_request and build_status_json of src/daemon/daemon.cpp.
pub mod Patch
pub mod Update
pub mod Refinement
use ezcap.Base.Json.{Json}
use ezcap.Base.Result.{Result, ok, err}
use ezcap.Base.{
  ℕ, Bool, true, false, not, List, [], ◌∷◌, ◌++◌, Option, none, some, if◌then◌else◌, is_some, Text,
  codes,
}
use ezcap.Daemon.{Daemon, Backend, ebpf_backend, pcap_backend}
use ezcap.Ipc.Codec.{fault}
use ezcap.Model.ErrorCodes.{
  IpcError, internal_error, schema_violation, policy_violation, operation_not_allowed,
}
use ezcap.Model.Protocol.{
  Operation, hello, get_status, subscribe, unsubscribe, set_policy, get_policy, shutdown, Request,
  Response, protocol_version,
}
use ezcap.Policy.Engine.{update_from_json, to_json}
use ezcap.Policy.Types.{Policy}

abbrev pub version_string : Text
version_string = codes "0.1.0"

-- What the clock, the backend and the store say to a status.
pub record StatusView : Type 0 where
  pub uptime_seconds : ℕ
  pub backend_active : Bool
  pub stored : ℕ
  pub dropped : ℕ
  pub schema_version : ℕ

abbrev pub backend_name : Backend → Text
backend_name ebpf_backend = codes "ebpf"
backend_name (pcap_backend _) = codes "pcap"

-- `response.error`, with the other members as they are made.
abbrev pub refusal : Text → IpcError → Response
refusal request_id error = record {
  request_id = request_id;
  is_ok = false;
  result_json = [];
  error = error;
}

abbrev pub no_error : IpcError
no_error = record { code = internal_error; message = [] }

abbrev pub answer : Text → Text → Response
answer request_id result = record {
  request_id = request_id;
  is_ok = true;
  result_json = result;
  error = no_error;
}

module _ (js : Json) where
  open js use {Value, parse, dump, is_object, object, array, string, boolean, number}

  abbrev pub backends_value : StatusView → Daemon → Value
  backends_value view d = array (elim d.backend [
    | none ↦ []
    | some b ↦
        object (
          (codes "name", string (backend_name b))
          ∷ (codes "active", boolean view.backend_active)
          ∷ [])
        ∷ []
  ])

  abbrev pub counters_value : Daemon → Value
  counters_value d = object (
      (codes "events_seen", number d.events_seen)
      ∷ (codes "events_published", number d.events_published)
      ∷ (codes "events_dropped", number d.events_dropped)
      ∷ [])

  abbrev pub storage_value : StatusView → Daemon → Value
  storage_value view d =
      if d.has_store
      then object (
          (codes "enabled", boolean true)
          ∷ (codes "stored", number view.stored)
          ∷ (codes "dropped", number view.dropped)
          ∷ (codes "schema_version", number view.schema_version)
          ∷ [])
      else object ((codes "enabled", boolean false) ∷ [])

  unfoldable pub status_value : StatusView → Daemon → Value
  status_value view d = object (
      (codes "state", string (if d.running then codes "running" else codes "stopped"))
      ∷ (codes "version", string version_string)
      ∷ (codes "uptime_seconds", number view.uptime_seconds)
      ∷ (codes "metadata_only", boolean true)
      ∷ (codes "backends", backends_value view d)
      ∷ (codes "counters", counters_value d)
      ∷ (codes "storage", storage_value view d)
      ∷ [])

  unfoldable pub hello_value : Value
  hello_value = object (
      (codes "daemon", string (codes "ezcap"))
      ∷ (codes "version", string version_string)
      ∷ (codes "protocol_version", number protocol_version)
      ∷ (codes "metadata_only", boolean true)
      ∷ [])

  -- A result that `dump` prints; `none` is its exception.
  abbrev pub answer_with : Text → Value → Option Response
  answer_with request_id v = elim (dump v) [ none ↦ none | some t ↦ some (answer request_id t) ]

  abbrev pub respond : Option Response → Policy → Option (Response × Policy)
  respond none p = none
  respond (some r) p = some (r, p)

  -- The engine's answer to an update, with the policy that it has then.
  unfoldable pub updated : Text → Policy → Result Text Policy → Option (Response × Policy)
  updated request_id p (err message) = some (refusal request_id (fault policy_violation message), p)
  updated request_id p (ok q) = respond (answer_with request_id (to_json js q)) q

  unfoldable pub set : Text → Text → Policy → Option (Response × Policy)
  unfolding updated
  set request_id params_json p = elim (parse params_json) [
    | none ↦ some (
      refusal request_id (fault schema_violation (codes "set_policy params must be an object")),
      p,
    )
    | some params ↦
        if is_object params
        then updated request_id p (update_from_json js p params)
        else some (
          refusal request_id (fault schema_violation (codes "set_policy params must be an object")),
          p,
        )
  ]

  -- By the operation: the response, and the engine's policy after it.
  unfoldable pub handle : StatusView → Daemon → Operation → Text → Text → Option (Response × Policy)
  unfolding set status_value hello_value
  handle view d hello id params = respond (answer_with id hello_value) d.policy
  handle view d get_status id params = respond (answer_with id (status_value view d)) d.policy
  handle view d subscribe id params =
      respond (answer_with id (object ((codes "subscription_id", string id) ∷ []))) d.policy
  handle view d unsubscribe id params =
      respond
        (answer_with id
          (object ((codes "subscription_id", string id) ∷ (codes "removed", boolean true) ∷ [])))
        d.policy
  handle view d get_policy id params = respond (answer_with id (to_json js d.policy)) d.policy
  handle view d set_policy id params = set id params d.policy
  handle view d shutdown id params = some (
    refusal id (fault operation_not_allowed (codes "shutdown is not available over IPC")),
    d.policy,
  )

  abbrev pub with_policy : Daemon → Option (Response × Policy) → Option (Response × Daemon)
  with_policy d none = none
  with_policy d (some (r, p)) = some (r, record d { policy = p })

  unfoldable pub handle_request : StatusView → Daemon → Request → Option (Response × Daemon)
  unfolding handle
  handle_request view d r = with_policy d (handle view d r.operation r.request_id r.params_json)
