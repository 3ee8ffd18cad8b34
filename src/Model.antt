-- ===== src/Model.antt =====
-- The data that all components share: include/ezcap/*.hpp with src/common/event_types.cpp,
-- src/common/error.cpp and src/ipc/ipc_protocol.cpp.
pub mod EventTypes
pub mod ErrorCodes
pub mod Protocol
pub mod Event
