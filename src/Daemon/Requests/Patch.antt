-- ===== src/Daemon/Requests/Patch.antt =====
-- A policy document as a patch: which settings it names, whatever the policy is that it is put on.
use ezcap.Base.Json.{Json, lt_nat, gt_nat, to_nat}
use ezcap.Base.Result.{Result, ok, err}
use ezcap.Base.{
  ℕ, Bool, true, false, not, ◌&&◌, ◌||◌, List, Option, none, some, ltb, length, Text, codes,
}
use ezcap.Policy.Engine.{read_domains}
use ezcap.Policy.Types.{Policy, RedactionMode, redaction_mode_from_name}

-- The settings that a document names.
pub record Patch : Type 0 where
  pub mode : Option RedactionMode
  pub domains : Option (List Text)
  pub enabled : Option Bool
  pub retention : Option ℕ

abbrev pub or_else : {A : Type 0} → Option A → A → A
or_else none a = a
or_else (some b) a = b

abbrev pub put : Patch → Policy → Policy
put q p = record p {
  redaction_mode = or_else q.mode p.redaction_mode;
  sensitive_domains = or_else q.domains p.sensitive_domains;
  persistence_enabled = or_else q.enabled p.persistence_enabled;
  retention = or_else q.retention p.retention;
}

abbrev pub put_redaction : Option RedactionMode × Option (List Text) → Policy → Policy
put_redaction (m, n) p = record p {
  redaction_mode = or_else m p.redaction_mode;
  sensitive_domains = or_else n p.sensitive_domains;
}

abbrev pub put_persistence : Option Bool × Option ℕ → Policy → Policy
put_persistence (m, n) p = record p {
  persistence_enabled = or_else m p.persistence_enabled;
  retention = or_else n p.retention;
}

abbrev pub to_option : {A : Type 0} → Result Text A → Option A
to_option (ok a) = some a
to_option (err e) = none

abbrev pub on_some {ℓ} : {A : Type ℓ} {B : Type 0} → Option A → (A → Option B) → Option B
on_some none f = none
on_some (some a) f = f a

-- Both settings of a part.
abbrev pub both : {A B : Type 0} → Option A → Option B → Option (A × B)
both none n = none
both (some a) none = none
both (some a) (some b) = some (a, b)

abbrev pub when : Bool → {A : Type 0} → Option A → Option A
when true o = o
when false o = none

module _ (js : Json) where
  open js use {Value, is_object, member, as_bool, as_string, as_array, as_int64}

  -- A setting that is absent, or read by `read`, or not a valid one.
  abbrev pub setting : {A : Type 0} → Option Value → (Value → Option A) → Option (Option A)
  setting none read = some none
  setting (some v) read = on_some (read v) (λ a. some (some a))

  abbrev pub mode_of : Value → Option RedactionMode
  mode_of v = on_some (as_string v) redaction_mode_from_name

  abbrev pub domains_of : Value → Option (List Text)
  domains_of v =
      on_some (as_array v)
        (λ entries. when (not (ltb 256 (length entries))) (to_option (read_domains js entries)))

  abbrev pub retention_of : Value → Option ℕ
  retention_of v =
      on_some (as_int64 v) (λ n. when (not (lt_nat n 60 || gt_nat n 31536000)) (some (to_nat n)))

  -- The part of a document that is absent or an object.
  abbrev pub part : Value → Text → Option (Option Value)
  part doc key = setting (member doc key) (λ v. when (is_object v) (some v))

  abbrev pub within : Option Value → Text → Option Value
  within none key = none
  within (some v) key = member v key

  abbrev pub is_metadata_only : Value → Bool
  is_metadata_only doc = elim (member doc (codes "metadata_only")) [
    | none ↦ true
    | some v ↦ elim (as_bool v) [ none ↦ false | some b ↦ b ]
  ]

  unfoldable pub redaction_of : Value → Option (Option RedactionMode × Option (List Text))
  redaction_of doc = on_some (part doc (codes "redaction")) (λ red.
      both (setting (within red (codes "mode")) mode_of)
        (setting (within red (codes "sensitive_domains")) domains_of))

  unfoldable pub persistence_of : Value → Option (Option Bool × Option ℕ)
  persistence_of doc = on_some (part doc (codes "persistence")) (λ persist.
      both (setting (within persist (codes "enabled")) as_bool)
        (setting (within persist (codes "retention_seconds")) retention_of))

  -- The patch that a document is, or `none` for a document that is not a valid one.
  unfoldable pub read_patch : Value → Option Patch
  unfolding redaction_of persistence_of
  read_patch doc = when (is_object doc && is_metadata_only doc) (
      on_some (redaction_of doc) (λ (mode, domains).
        on_some (persistence_of doc) (λ (enabled, retention).
          some
            (record { mode = mode; domains = domains; enabled = enabled; retention = retention }))))
