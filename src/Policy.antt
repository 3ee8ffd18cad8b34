-- ===== src/Policy.antt =====
-- include/ezcap/policy.hpp and src/policy/: the privacy policy, the redactor and the engine.
pub mod Types
pub mod Redactor
pub mod Engine
