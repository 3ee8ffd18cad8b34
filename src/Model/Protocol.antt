-- ===== src/Model/Protocol.antt =====
-- include/ezcap/ipc_protocol.hpp, include/ezcap/version.hpp and src/ipc/ipc_protocol.cpp: the
-- limits of the channel, the operations and the messages. Error messages and documents are texts.
pub mod Operations
use ezcap.Base.{ℕ, ◌*◌, Bool, [], ◌∷◌, Option, none, some, if◌then◌else◌, Text, codes, text_eq}
use ezcap.Model.ErrorCodes.{IpcError}

abbrev pub protocol_version : ℕ
protocol_version = 1

abbrev pub event_schema_version : ℕ
event_schema_version = 1

abbrev pub max_request_bytes : ℕ
max_request_bytes = 64 * 1024

abbrev pub max_clients : ℕ
max_clients = 16

abbrev pub max_subscriptions_per_client : ℕ
max_subscriptions_per_client = 8

abbrev pub max_outgoing_queue : ℕ
max_outgoing_queue = 1024

pub data Operation : Type 0 where
  hello get_status subscribe unsubscribe set_policy get_policy shutdown : Operation

pub record Request : Type 0 where
  pub version : ℕ
  pub operation : Operation
  pub request_id : Text
  pub params_json : Text

pub record Response : Type 0 where
  pub request_id : Text
  pub is_ok : Bool
  pub result_json : Text
  pub error : IpcError

unfoldable pub operation_name : Operation → Text
operation_name hello = codes "hello"
operation_name get_status = codes "get_status"
operation_name subscribe = codes "subscribe"
operation_name unsubscribe = codes "unsubscribe"
operation_name set_policy = codes "set_policy"
operation_name get_policy = codes "get_policy"
operation_name shutdown = codes "shutdown"

unfoldable pub operation_from_name : Text → Option Operation
operation_from_name name =
    if text_eq name (codes "hello")
    then some hello
    else if text_eq name (codes "get_status")
    then some get_status
    else if text_eq name (codes "subscribe")
    then some subscribe
    else if text_eq name (codes "unsubscribe")
    then some unsubscribe
    else if text_eq name (codes "set_policy")
    then some set_policy
    else if text_eq name (codes "get_policy")
    then some get_policy
    else if text_eq name (codes "shutdown")
    then some shutdown
    else none
