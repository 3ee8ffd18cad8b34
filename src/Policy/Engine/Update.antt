-- ===== src/Policy/Engine/Update.antt =====
-- Updates of the policy, and the policy written and read as JSON.
use ezcap.Base.Json.{Json, JsonLaws, assoc}
use ezcap.Base.Result.{ok, Result-cases}
use ezcap.Base.{
  ◌≤◌, true, List, [], ◌∷◌, map, some, Option-cases, suc, length, Text, codes, text_eq, ◌≡◌, refl,
  ap, arith, inl, inr,
}
use ezcap.Policy.Engine.{
  read_domains, check_metadata_only, update_mode, update_domains, update_redaction, update_enabled,
  update_retention, update_persistence, update_from_json, to_json, redaction_fields,
  persistence_fields, document_fields,
}
use ezcap.Policy.Types.{Policy, RedactionMode, redaction_mode_name, redaction_mode_from_name}

abbrev pub AllShort : List Text → Type 0
AllShort [] = Unit {0}
AllShort (d ∷ ds) = (length d ≤ 253) × AllShort ds

-- The limits on a policy that is set at run time.
pub record IsBounded (p : Policy) : Type 0 where
  pub few : length p.sensitive_domains ≤ 256
  pub short : AllShort p.sensitive_domains
  pub at_least : 60 ≤ p.retention
  pub at_most : p.retention ≤ 31536000

-- What no update touches.
pub record SameRest (p q : Policy) : Type 0 where
  pub query : q.strip_query_string ≡ p.strip_query_string
  pub fragment : q.strip_fragment ≡ p.strip_fragment
  pub interfaces : q.capture_interfaces ≡ p.capture_interfaces
  pub filter : q.pcap_filter ≡ p.pcap_filter

module _ (js : Json) where
  open js use {Value}

  read_domains-short :
      (vs : List Value) (ns : List Text)
      → read_domains js vs ≡ ok ns
      → AllShort ns × (length ns ≡ length vs)
  unfolding read_domains
  read_domains-short [] ns e = ground arith
  read_domains-short (v ∷ vs) ns e = elim (Result-cases (read_domains js vs)) [
    | inl (rest, r) ↦ ground (arith, read_domains-short vs rest r)
    | inr (why, r) ↦ ground arith
  ]

  update_mode-IsBounded :
      (p q : Policy) (red : Value)
      → IsBounded p
      → update_mode js p red ≡ ok q
      → IsBounded q × SameRest p q
  unfolding update_mode
  update_mode-IsBounded p q red b e = ground arith

  update_domains-IsBounded :
      (p q : Policy) (red : Value)
      → IsBounded p
      → update_domains js p red ≡ ok q
      → IsBounded q × SameRest p q
  unfolding update_domains
  update_domains-IsBounded p q red b e =
      elim (Option-cases (js.member red (codes "sensitive_domains"))) [
        | inl m ↦ ground arith
        | inr (domains, m) ↦ elim (Option-cases (js.as_array domains)) [
          | inl a ↦ ground arith
          | inr (entries, a) ↦ elim (Result-cases (read_domains js entries)) [
            | inl (names, r) ↦ ground (arith, read_domains-short entries names r)
            | inr (why, r) ↦ ground arith
          ]
        ]
      ]

  SameRest-trans : {p q r : Policy} → SameRest p q → SameRest q r → SameRest p r
  SameRest-trans {p} {q} {r} s t = ground arith

  update_redaction-IsBounded :
      (p q : Policy) (doc : Value)
      → IsBounded p
      → update_redaction js p doc ≡ ok q
      → IsBounded q × SameRest p q
  unfolding update_redaction
  update_redaction-IsBounded p q doc b e = elim (Option-cases (js.member doc (codes "redaction"))) [
    | inl m ↦ ground arith
    | inr (red, m) ↦ elim (Result-cases (update_mode js p red)) [
      | inl (moded, r) ↦
          ground
            (arith, update_mode-IsBounded p moded red b r, update_domains-IsBounded moded q red)
      | inr (why, r) ↦ ground arith
    ]
  ]

  update_persistence-IsBounded :
      (p q : Policy) (doc : Value)
      → IsBounded p
      → update_persistence js p doc ≡ ok q
      → IsBounded q × SameRest p q
  unfolding update_persistence update_enabled update_retention
  update_persistence-IsBounded p q doc b e = ground arith

  -- An accepted update keeps the limits on the policy: at most 256 sensitive domains of at most 253
  -- bytes, and a retention from a minute to a year. It never turns the stripping of queries and
  -- fragments off (or on), nor changes the interfaces or the capture filter.
  pub update_from_json-IsBounded :
      (p q : Policy) (doc : Value)
      → IsBounded p
      → update_from_json js p doc ≡ ok q
      → IsBounded q × SameRest p q
  unfolding update_from_json
  update_from_json-IsBounded p q doc b e = elim (Result-cases (update_redaction js p doc)) [
    | inl (redacted, r) ↦ ground (
      arith,
      update_redaction-IsBounded p redacted doc b r,
      update_persistence-IsBounded redacted q doc,
    )
    | inr (why, r) ↦ ground arith
  ]

  redaction_mode_round :
      (m : RedactionMode) → redaction_mode_from_name (redaction_mode_name m) ≡ some m
  unfolding redaction_mode_from_name redaction_mode_name text_eq
  redaction_mode_round m = ground arith

  module _ (laws : JsonLaws js) where
    read_domains-strings :
        (ds : List Text) → AllShort ds → read_domains js (map js.string ds) ≡ ok ds
    unfolding read_domains
    read_domains-strings [] s = refl
    read_domains-strings (d ∷ ds) s =
        ground (arith, laws.as_string-string d, read_domains-strings ds)

    length-strings : (ds : List Text) → length (map js.string ds) ≡ length ds
    length-strings [] = refl
    length-strings (d ∷ ds) = ap suc (length-strings ds)

    to_json_object : (q : Policy) → js.is_object (to_json js q) ≡ true
    unfolding to_json
    to_json_object q = laws.is_object-object (document_fields js q)

    to_json_metadata :
        (q : Policy) → js.member (to_json js q) (codes "metadata_only") ≡ some (js.boolean true)
    unfolding to_json assoc text_eq
    to_json_metadata q = laws.member-object (document_fields js q) (codes "metadata_only")

    update_redaction-to_json :
        (p q : Policy)
        → AllShort q.sensitive_domains
        → length q.sensitive_domains ≤ 256
        → update_redaction js p (to_json js q)
          ≡ ok (record p {
            redaction_mode = q.redaction_mode;
            sensitive_domains = q.sensitive_domains;
          })
    unfolding update_redaction update_mode update_domains to_json assoc text_eq
    update_redaction-to_json p q short few = ground (
      arith,
      laws.member-object (document_fields js q) (codes "redaction"),
      laws.is_object-object (redaction_fields js q),
      laws.member-object (redaction_fields js q) (codes "mode"),
      laws.member-object (redaction_fields js q) (codes "sensitive_domains"),
      laws.as_string-string (redaction_mode_name q.redaction_mode),
      redaction_mode_round q.redaction_mode,
      laws.as_array-array (map js.string q.sensitive_domains),
      length-strings q.sensitive_domains,
      read_domains-strings q.sensitive_domains short,
    )

    update_persistence-to_json :
        (p q : Policy)
        → 60 ≤ q.retention
        → q.retention ≤ 31536000
        → update_persistence js p (to_json js q)
          ≡ ok (record p { persistence_enabled = q.persistence_enabled; retention = q.retention })
    unfolding update_persistence update_enabled update_retention to_json assoc text_eq
    update_persistence-to_json p q lo hi = ground (
      arith,
      laws.member-object (document_fields js q) (codes "persistence"),
      laws.is_object-object (persistence_fields js q),
      laws.member-object (persistence_fields js q) (codes "enabled"),
      laws.member-object (persistence_fields js q) (codes "retention_seconds"),
      laws.as_bool-boolean q.persistence_enabled,
      laws.as_int64-number q.retention (ground arith),
    )

    -- `get_policy` and `set_policy` round trip: a document that the engine wrote for a policy within
    -- the limits is accepted by any engine, which then has the mode, the domains and the
    -- persistence settings of that policy, and keeps its own settings for all else.
    pub update_from_json-to_json :
        (p q : Policy)
        → IsBounded q
        → update_from_json js p (to_json js q)
          ≡ ok (record p {
            redaction_mode = q.redaction_mode;
            sensitive_domains = q.sensitive_domains;
            persistence_enabled = q.persistence_enabled;
            retention = q.retention;
          })
    unfolding update_from_json check_metadata_only
    update_from_json-to_json p q b = ground (
      arith,
      to_json_object q,
      to_json_metadata q,
      laws.as_bool-boolean true,
      update_redaction-to_json p q b.short b.few,
      update_persistence-to_json
          (record p { redaction_mode = q.redaction_mode; sensitive_domains = q.sensitive_domains })
          q b.at_least b.at_most,
    )
