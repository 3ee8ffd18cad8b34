-- ===== src/Daemon/PrivacySettings.antt =====
-- `parse_policy` of src/daemon/config.cpp: the policy of a configuration. The error `none` is an
-- exception of the JSON library.
use ezcap.Base.Json.{Json}
use ezcap.Base.Result.{Result, ok, err, ◌>>=◌, ◌>>◌, require, or_fail}
use ezcap.Base.{
  ℕ, not, ◌||◌, List, [], ◌∷◌, ◌++◌, Option, none, some, ltb, if◌then◌else◌, length, Text, codes,
  text_eq,
}
use ezcap.Policy.Redactor.{is_empty}
use ezcap.Policy.Types.{Policy, redaction_mode_from_name}

abbrev pub Error : Type 0
Error = Option Text

module _ (js : Json) where
  open js use {
    Value, parse, is_object, member, keys, as_bool, as_string, as_array, as_unsigned, object,
  }

  -- The loops over an array of names of 1 to `most` bytes.
  unfoldable pub read_names : ℕ → Text → List Value → Result Error (List Text)
  read_names most message [] = ok []
  read_names most message (v ∷ vs) = do
    name ← or_fail (as_string v) (some message)
    require (not (is_empty name || ltb most (length name))) (some message)
    names ← read_names most message vs
    ok (name ∷ names)

  unfoldable pub set_mode : Policy → Value → Result Error Policy
  set_mode p v = do
    name ← or_fail (as_string v) (some (codes "policy.redaction.redaction_mode must be a string"))
    mode ← or_fail (redaction_mode_from_name name) (some (codes "unknown redaction_mode"))
    ok (record p { redaction_mode = mode })

  unfoldable pub set_domains : Policy → Value → Result Error Policy
  unfolding read_names
  set_domains p v = do
    vs ← or_fail (as_array v) (some (codes "policy.redaction.sensitive_domains must be an array"))
    names ←
        read_names 253
          (codes
            "policy.redaction.sensitive_domains entries must be non-empty strings (max 253 chars)")
          vs
    ok (record p { sensitive_domains = names })

  unfoldable pub set_interfaces : Policy → Value → Result Error Policy
  unfolding read_names
  set_interfaces p v = do
    vs ← or_fail (as_array v) (some (codes "policy.redaction.capture_interfaces must be an array"))
    names ←
        read_names 16
          (codes
            "policy.redaction.capture_interfaces entries must be non-empty interface names (max 16 chars)")
          vs
    ok (record p { capture_interfaces = names })

  abbrev pub read_filter : Text → Value → Result Error Text
  read_filter message v = do
    filter ← or_fail (as_string v) (some message)
    require (not (ltb 256 (length filter))) (some message)
    ok filter

  -- One key of the policy's object with its value.
  unfoldable pub set_policy_key : Policy → Text → Value → Result Error Policy
  unfolding set_mode set_domains set_interfaces
  set_policy_key p key v =
      if text_eq key (codes "redaction_mode")
      then set_mode p v
      else if text_eq key (codes "strip_query_string")
      then (do
        b ←
            or_fail (as_bool v)
              (some (codes "policy.redaction.strip_query_string must be a boolean"))
        ok (record p { strip_query_string = b }))
      else if text_eq key (codes "strip_fragment")
      then (do
        b ← or_fail (as_bool v) (some (codes "policy.redaction.strip_fragment must be a boolean"))
        ok (record p { strip_fragment = b }))
      else if text_eq key (codes "sensitive_domains")
      then set_domains p v
      else if text_eq key (codes "capture_interfaces")
      then set_interfaces p v
      else if text_eq key (codes "pcap_filter")
      then (do
        filter ←
            read_filter (codes "policy.redaction.pcap_filter must be a string (max 256 chars)") v
        ok (record p { pcap_filter = filter }))
      else err (some (codes "unknown policy key: " ++ key))

  -- The loop over `redaction.items()`; each key of an object is a member of it.
  unfoldable pub set_policy_keys : Value → List Text → Policy → Result Error Policy
  unfolding set_policy_key
  set_policy_keys redaction [] p = ok p
  set_policy_keys redaction (key ∷ rest) p = do
    v ← or_fail (member redaction key) none
    next ← set_policy_key p key v
    set_policy_keys redaction rest next

  abbrev pub redaction_value : Option Value → Value
  redaction_value none = object []
  redaction_value (some v) = v

  -- `doc.value("redaction", json::object())`, which throws on a document that is no object.
  unfoldable pub parse_policy : Value → Policy → Result Error Policy
  unfolding set_policy_keys
  parse_policy doc p = do
    require (is_object doc) none
    let redaction = redaction_value (member doc (codes "redaction"))
    require (is_object redaction) (some (codes "policy.redaction must be an object"))
    set_policy_keys redaction (keys redaction) p
