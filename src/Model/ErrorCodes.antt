-- ===== src/Model/ErrorCodes.antt =====
-- include/ezcap/error.hpp and src/common/error.cpp: the error codes of the protocol.
use ezcap.Base.{Text, codes}

pub data ErrorCode : Type 0 where
  invalid_framing message_too_large invalid_json invalid_utf8 schema_violation : ErrorCode
  unsupported_version unknown_operation operation_not_allowed missing_field : ErrorCode
  too_many_subscriptions queue_overflow client_timeout daemon_unavailable : ErrorCode
  socket_permission connection_closed backend_unavailable missing_permission : ErrorCode
  capture_filter_error backend_load_failure storage_error policy_violation : ErrorCode
  internal_error : ErrorCode

pub record IpcError : Type 0 where
  pub code : ErrorCode
  pub message : Text

unfoldable pub error_code_name : ErrorCode → Text
error_code_name invalid_framing = codes "invalid_framing"
error_code_name message_too_large = codes "message_too_large"
error_code_name invalid_json = codes "invalid_json"
error_code_name invalid_utf8 = codes "invalid_utf8"
error_code_name schema_violation = codes "schema_violation"
error_code_name unsupported_version = codes "unsupported_version"
error_code_name unknown_operation = codes "unknown_operation"
error_code_name operation_not_allowed = codes "operation_not_allowed"
error_code_name missing_field = codes "missing_field"
error_code_name too_many_subscriptions = codes "too_many_subscriptions"
error_code_name queue_overflow = codes "queue_overflow"
error_code_name client_timeout = codes "client_timeout"
error_code_name daemon_unavailable = codes "daemon_unavailable"
error_code_name socket_permission = codes "socket_permission"
error_code_name connection_closed = codes "connection_closed"
error_code_name backend_unavailable = codes "backend_unavailable"
error_code_name missing_permission = codes "missing_permission"
error_code_name capture_filter_error = codes "capture_filter_error"
error_code_name backend_load_failure = codes "backend_load_failure"
error_code_name storage_error = codes "storage_error"
error_code_name policy_violation = codes "policy_violation"
error_code_name internal_error = codes "internal_error"

unfoldable pub error_code_description : ErrorCode → Text
error_code_description invalid_framing = codes "message framing is invalid"
error_code_description message_too_large = codes "message exceeds the size limit"
error_code_description invalid_json = codes "message is not valid JSON"
error_code_description invalid_utf8 = codes "message contains invalid UTF-8"
error_code_description schema_violation = codes "message does not match the protocol schema"
error_code_description unsupported_version = codes "protocol version is not supported"
error_code_description unknown_operation = codes "operation is not recognised"
error_code_description operation_not_allowed = codes "operation is not allowed"
error_code_description missing_field = codes "a required field is missing"
error_code_description too_many_subscriptions = codes "too many subscriptions for this client"
error_code_description queue_overflow = codes "client queue overflowed"
error_code_description client_timeout = codes "client timed out"
error_code_description daemon_unavailable = codes "daemon is unavailable"
error_code_description socket_permission = codes "socket permission denied"
error_code_description connection_closed = codes "connection closed"
error_code_description backend_unavailable = codes "capture backend is unavailable"
error_code_description missing_permission = codes "capture permission is missing"
error_code_description capture_filter_error = codes "capture filter could not be applied"
error_code_description backend_load_failure = codes "capture backend failed to load"
error_code_description storage_error = codes "storage operation failed"
error_code_description policy_violation = codes "policy rejected the request"
error_code_description internal_error = codes "internal error"
