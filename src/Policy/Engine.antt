-- ===== src/Policy/Engine.antt =====
-- src/policy/policy_engine.cpp: the policy applied to an event, and its updates over IPC. The
-- mutex is left out: each method runs under it from its first read to its last write, but for
-- `update_from_json`, which takes it twice and is modelled with no other update in between.
pub mod Passes
pub mod Apply
pub mod Update
use ezcap.Base.Result.{Result, ok, err, ◌>>=◌, ◌>>◌, require, or_fail}
use ezcap.Base.Json.{Json, ℤ, lt_nat, gt_nat, to_nat}
use ezcap.Base.{
  ℕ, Bool, true, false, not, ◌||◌, List, [], ◌∷◌, ◌++◌, map, Option, none, some, ltb, if◌then◌else◌,
  length, Text, codes, text_eq,
}
use ezcap.Model.Event.{
  Event, NetworkInfo, BrowserInfo, PrivacyInfo, Redactions, no_redactions, merge,
}
use ezcap.Policy.Redactor.{redact_url, redact_dns_name, is_empty}
use ezcap.Policy.Types.{
  Policy, default_policy, query_string_removal, PolicyDecision, allow, redact, drop,
  redaction_mode_name, redaction_mode_from_name,
}

-- PolicyEngine::PolicyEngine.
abbrev pub initial : Policy
initial = record default_policy {
  redaction_mode = query_string_removal;
  strip_query_string = true;
  strip_fragment = true;
  persistence_enabled = false;
}

-- The locals of `apply`: the event, `redacted`, and the redactor's `last_redactions_`.
pub record Pass : Type 0 where
  pub event : Event
  pub redacted : Bool
  pub kinds : Redactions

abbrev set_dns : Pass → NetworkInfo → Text → Redactions → Pass
set_dns s n name kinds = record {
  event = record s.event { network = some (record n { dns_query_name = name }) };
  redacted = true;
  kinds = kinds;
}

-- The branches behind `redact_dns_name`.
unfoldable pub dns_result : Pass → NetworkInfo → Text → Redactions → Pass
dns_result s n name kinds =
    if is_empty name
    then set_dns s n [] kinds
    else if not (text_eq name n.dns_query_name)
    then set_dns s n name kinds
    else record s { kinds = kinds }

abbrev dns_of : Policy → Pass → NetworkInfo → Pass
dns_of p s n =
    if not (is_empty n.dns_query_name)
    then dns_result s n (redact_dns_name p n.dns_query_name).0
        (redact_dns_name p n.dns_query_name).1
    else s

unfoldable pub dns_pass : Policy → Pass → Pass
unfolding dns_result
dns_pass p s = elim s.event.network [ none ↦ s | some n ↦ dns_of p s n ]

unfoldable pub url_result : Pass → BrowserInfo → Text → Redactions → Pass
url_result s b url kinds =
    if is_empty url
    then record { event = record s.event { browser = none }; redacted = true; kinds = kinds }
    else if not (text_eq url b.url)
    then record {
      event = record s.event { browser = some (record b { url = url }) };
      redacted = true;
      kinds = kinds;
    }
    else record s { kinds = kinds }

abbrev url_of : Policy → Pass → BrowserInfo → Pass
url_of p s b =
    if not (is_empty b.url) then url_result s b (redact_url p b.url).0 (redact_url p b.url).1 else s

unfoldable pub url_pass : Policy → Pass → Pass
unfolding url_result
url_pass p s = elim s.event.browser [ none ↦ s | some b ↦ url_of p s b ]

abbrev pub start : Event → Pass
start e = record { event = e; redacted = false; kinds = no_redactions }

-- The annotations and the decision at the end of `apply`.
unfoldable pub conclude : Pass → PolicyDecision × Event
unfolding merge
conclude s = (
  (if s.redacted then redact else allow),
  record s.event {
    privacy = record s.event.privacy {
      redacted = s.redacted;
      redactions = merge s.event.privacy.redactions s.kinds;
    };
  },
)

unfoldable pub apply : Policy → Event → PolicyDecision × Event
apply p e =
    if not e.privacy.metadata_only then (drop, e) else conclude (url_pass p (dns_pass p (start e)))

module _ (js : Json) where
  open js use {Value, is_object, member, as_bool, as_string, as_array, as_int64}

  -- One round of the loop over `sensitive_domains` for each entry.
  unfoldable pub read_domains : List Value → Result Text (List Text)
  read_domains [] = ok []
  read_domains (d ∷ ds) = do
    name ← or_fail (as_string d) (codes "invalid sensitive domain entry")
    require (not (ltb 253 (length name))) (codes "invalid sensitive domain entry")
    rest ← read_domains ds
    ok (name ∷ rest)

  unfoldable pub check_metadata_only : Value → Result Text (Unit {0})
  check_metadata_only doc = elim (member doc (codes "metadata_only")) [
    | none ↦ ok tt
    | some flag ↦ elim (as_bool flag) [
      | none ↦ err (codes "metadata-only mode cannot be disabled")
      | some on ↦ require on (codes "metadata-only mode cannot be disabled")
    ]
  ]

  unfoldable pub update_mode : Policy → Value → Result Text Policy
  update_mode next red = elim (member red (codes "mode")) [
    | none ↦ ok next
    | some mode ↦ do
      name ← or_fail (as_string mode) (codes "redaction.mode must be a string")
      parsed ← or_fail (redaction_mode_from_name name) (codes "unknown redaction mode")
      ok (record next { redaction_mode = parsed })
  ]

  abbrev pub domains_error : Text
  domains_error = codes "sensitive_domains must be an array of at most 256 entries"

  unfoldable pub update_domains : Policy → Value → Result Text Policy
  unfolding read_domains
  update_domains next red = elim (member red (codes "sensitive_domains")) [
    | none ↦ ok next
    | some domains ↦ do
      entries ← or_fail (as_array domains) domains_error
      require (not (ltb 256 (length entries))) domains_error
      names ← read_domains entries
      ok (record next { sensitive_domains = names })
  ]

  unfoldable pub update_redaction : Policy → Value → Result Text Policy
  unfolding update_mode update_domains
  update_redaction next doc = elim (member doc (codes "redaction")) [
    | none ↦ ok next
    | some red ↦ do
      require (is_object red) (codes "redaction must be an object")
      moded ← update_mode next red
      update_domains moded red
  ]

  unfoldable pub update_enabled : Policy → Value → Result Text Policy
  update_enabled next persist = elim (member persist (codes "enabled")) [
    | none ↦ ok next
    | some flag ↦ do
      on ← or_fail (as_bool flag) (codes "persistence.enabled must be a boolean")
      ok (record next { persistence_enabled = on })
  ]

  unfoldable pub update_retention : Policy → Value → Result Text Policy
  update_retention next persist = elim (member persist (codes "retention_seconds")) [
    | none ↦ ok next
    | some seconds ↦ do
      value ← or_fail (as_int64 seconds) (codes "retention_seconds must be an integer")
      require (not (lt_nat value 60 || gt_nat value 31536000))
          (codes "retention_seconds out of range")
      ok (record next { retention = to_nat value })
  ]

  unfoldable pub update_persistence : Policy → Value → Result Text Policy
  unfolding update_enabled update_retention
  update_persistence next doc = elim (member doc (codes "persistence")) [
    | none ↦ ok next
    | some persist ↦ do
      require (is_object persist) (codes "persistence must be an object")
      enabled ← update_enabled next persist
      update_retention enabled persist
  ]

  -- The policy that `update_from_json` stores; on an error the engine keeps the one that it has.
  unfoldable pub update_from_json : Policy → Value → Result Text Policy
  unfolding check_metadata_only update_redaction update_persistence
  update_from_json p doc = do
    require (is_object doc) (codes "policy document must be an object")
    check_metadata_only doc
    redacted ← update_redaction p doc
    update_persistence redacted doc

  abbrev pub redaction_fields : Policy → List (Text × Value)
  redaction_fields p =
      (codes "mode", js.string (redaction_mode_name p.redaction_mode))
      ∷ (codes "sensitive_domains", js.array (map js.string p.sensitive_domains))
      ∷ []

  abbrev pub persistence_fields : Policy → List (Text × Value)
  persistence_fields p =
      (codes "enabled", js.boolean p.persistence_enabled)
      ∷ (codes "retention_seconds", js.number p.retention)
      ∷ []

  abbrev pub document_fields : Policy → List (Text × Value)
  document_fields p =
      (codes "metadata_only", js.boolean true)
      ∷ (codes "redaction", js.object (redaction_fields p))
      ∷ (codes "persistence", js.object (persistence_fields p))
      ∷ []

  unfoldable pub to_json : Policy → Value
  to_json p = js.object (document_fields p)
