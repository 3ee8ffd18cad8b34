-- ===== src/Policy/Types.antt =====
-- include/ezcap/policy.hpp: the policy, and the names of its modes (src/policy/redactor.cpp).
-- The retention is in seconds.
use ezcap.Base.{
  ℕ, ◌*◌, Bool, true, false, List, [], Option, none, some, if◌then◌else◌, Text, codes, text_eq,
}

pub data RedactionMode : Type 0 where
  hostname_only query_string_removal full_hostname domain_hash domain_mask : RedactionMode

pub record Policy : Type 0 where
  pub redaction_mode : RedactionMode
  pub strip_query_string : Bool
  pub strip_fragment : Bool
  pub sensitive_domains : List Text
  pub persistence_enabled : Bool
  pub retention : ℕ
  pub capture_interfaces : List Text
  pub pcap_filter : Text

-- `Policy policy;`: the members' initialisers.
abbrev pub default_policy : Policy
default_policy = record {
  redaction_mode = query_string_removal;
  strip_query_string = true;
  strip_fragment = true;
  sensitive_domains = [];
  persistence_enabled = false;
  retention = 86400 * 7;
  capture_interfaces = [];
  pcap_filter = codes "ip or ip6";
}

pub data PolicyDecision : Type 0 where
  allow redact drop : PolicyDecision

unfoldable pub redaction_mode_name : RedactionMode → Text
redaction_mode_name hostname_only = codes "hostname-only"
redaction_mode_name query_string_removal = codes "query-string-removal"
redaction_mode_name full_hostname = codes "full-hostname"
redaction_mode_name domain_hash = codes "domain-hash"
redaction_mode_name domain_mask = codes "domain-mask"

unfoldable pub redaction_mode_from_name : Text → Option RedactionMode
redaction_mode_from_name name =
    if text_eq name (codes "hostname-only")
    then some hostname_only
    else if text_eq name (codes "query-string-removal")
    then some query_string_removal
    else if text_eq name (codes "full-hostname")
    then some full_hostname
    else if text_eq name (codes "domain-hash")
    then some domain_hash
    else if text_eq name (codes "domain-mask")
    then some domain_mask
    else none
