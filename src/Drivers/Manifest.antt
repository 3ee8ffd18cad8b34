-- ===== src/Drivers/Manifest.antt =====
-- src/drivers/lua/manifests/manifest.cpp and .hpp: driver manifests; Allowlist has the allowlist of
-- their paths. The functions of <cctype> are those of the C locale. `parse` takes the manifest that its
-- out parameter holds before the call; what it leaves there on an error is not modelled.
pub mod Version
pub mod Limits
pub mod Allowlist
use ezcap.Base.Json.{Json}
use ezcap.Base.Result.{Result, ok, err, ◌>>=◌, ◌>>◌, require, or_fail}
use ezcap.Base.{
  ℕ, ◌+◌, ◌%◌, ◌^◌, Bool, true, false, not, ◌&&◌, ◌||◌, List, [], ◌∷◌, ◌++◌, Option, none, some,
  ltb, leb, ◌==◌, if◌then◌else◌, length, get_elem?, all, any, Text, codes, text_eq, starts_with,
}
use ezcap.Capture.Filter.{is_between, is_digit, is_alnum}
use ezcap.Policy.Redactor.{is_empty}

pub data Capability : Type 0 where
  events capture dns process policy endpoint spec log util status : Capability

pub record DriverManifest : Type 0 where
  pub name : Text
  pub version : Text
  pub script_path : Text
  pub description : Text
  pub capabilities : List Capability
  pub event_types : List Text
  pub max_endpoints : ℕ
  pub max_subscriptions : ℕ
  pub script_sha256 : Text

-- `DriverManifest manifest;`: the members' initialisers.
abbrev pub new_manifest : DriverManifest
new_manifest = record {
  name = [];
  version = [];
  script_path = [];
  description = [];
  capabilities = [];
  event_types = [];
  max_endpoints = 8;
  max_subscriptions = 16;
  script_sha256 = [];
}

abbrev pub max_manifest_field_length : ℕ
max_manifest_field_length = 512

abbrev pub max_manifest_event_types : ℕ
max_manifest_event_types = 16

unfoldable pub valid_name : Text → Bool
valid_name name =
    if is_empty name || ltb 64 (length name)
    then false
    else all (λ c. is_alnum c || (c == b'-')) name

unfoldable pub version_loop : ℕ → Text → Text → Bool
version_loop components current [] = leb 1 components && not (is_empty current)
version_loop components current (c ∷ version) =
    let next = version_loop (components + 1) [] version in
    let longer = version_loop components (current ++ c ∷ []) version in
    if c == b'.'
    then (if is_empty current || leb 3 components then false else next)
    else if is_digit c
    then longer
    else false

unfoldable pub valid_version : Text → Bool
unfolding version_loop
valid_version version = version_loop 0 [] version

unfoldable pub valid_sha256_hex : Text → Bool
valid_sha256_hex hash =
    if not (length hash == 64) then false else all (λ c. is_digit c || is_between b'a' b'f' c) hash

unfoldable pub capability_from_name : Text → Option Capability
capability_from_name name =
    if text_eq name (codes "events")
    then some events
    else if text_eq name (codes "capture")
    then some capture
    else if text_eq name (codes "dns")
    then some dns
    else if text_eq name (codes "process")
    then some process
    else if text_eq name (codes "policy")
    then some policy
    else if text_eq name (codes "endpoint")
    then some endpoint
    else if text_eq name (codes "spec")
    then some spec
    else if text_eq name (codes "log")
    then some log
    else if text_eq name (codes "util")
    then some util
    else if text_eq name (codes "status")
    then some status
    else none

unfoldable pub capability_name : Capability → Text
capability_name events = codes "events"
capability_name capture = codes "capture"
capability_name dns = codes "dns"
capability_name process = codes "process"
capability_name policy = codes "policy"
capability_name endpoint = codes "endpoint"
capability_name spec = codes "spec"
capability_name log = codes "log"
capability_name util = codes "util"
capability_name status = codes "status"

-- `std::set` insertion; the order is of no account.
unfoldable pub insert_capability : List Capability → Capability → List Capability
insert_capability cs c =
    if any (λ d. text_eq (capability_name d) (capability_name c)) cs then cs else c ∷ cs

module _ (js : Json) where
  open js use {Value, is_object, member, as_string, as_array, as_unsigned}

  -- A field that must be there and be a string.
  abbrev pub required_string : Value → Text → Text → Result Text Text
  required_string doc key error = elim (member doc key) [
    | none ↦ err error
    | some value ↦ or_fail (as_string value) error
  ]

  -- The value of the field `key`, or what the manifest has for it.
  unfoldable pub bounded_string : Value → Text → Text → Result Text Text
  bounded_string parent key out = elim (member parent key) [
    | none ↦ ok out
    | some value ↦ do
      text ← or_fail (as_string value) (key ++ codes " must be a string")
      require (not (ltb max_manifest_field_length (length text)))
          (key ++ codes " exceeds maximum length")
      ok text
  ]

  unfoldable pub read_capabilities : List Capability → List Value → Result Text (List Capability)
  read_capabilities cs [] = ok cs
  read_capabilities cs (entry ∷ entries) = do
    name ← or_fail (as_string entry) (codes "manifest.capabilities entries must be strings")
    capability ←
        or_fail (capability_from_name name)
          (codes "manifest.capabilities contains unknown capability '" ++ (name ++ b'\'' ∷ []))
    read_capabilities (insert_capability cs capability) entries

  unfoldable pub parse_capabilities : Value → List Capability → Result Text (List Capability)
  unfolding read_capabilities
  parse_capabilities doc cs = elim (member doc (codes "capabilities")) [
    | none ↦ ok cs
    | some value ↦ do
      entries ← or_fail (as_array value) (codes "manifest.capabilities must be an array")
      require (not (ltb 16 (length entries))) (codes "manifest.capabilities has too many entries")
      read_capabilities cs entries
  ]

  unfoldable pub read_event_types : List Text → List Value → Result Text (List Text)
  read_event_types types [] = ok types
  read_event_types types (entry ∷ entries) = do
    name ← or_fail (as_string entry) (codes "manifest.event_types entries must be strings")
    require (not (ltb 32 (length name))) (codes "manifest.event_types entry exceeds maximum length")
    read_event_types (types ++ name ∷ []) entries

  unfoldable pub parse_event_types : Value → List Text → Result Text (List Text)
  unfolding read_event_types
  parse_event_types doc types = elim (member doc (codes "event_types")) [
    | none ↦ ok types
    | some value ↦ do
      entries ← or_fail (as_array value) (codes "manifest.event_types must be an array")
      require (not (ltb max_manifest_event_types (length entries)))
          (codes "manifest.event_types exceeds the subscription limit")
      read_event_types types entries
  ]

  unfoldable pub parse_limit : Value → Text → Text → ℕ → Result Text ℕ
  parse_limit doc key error limit = elim (member doc key) [
    | none ↦ ok limit
    | some value ↦ do
      n ← or_fail (as_unsigned value) error
      require (not (ltb 64 n)) error
      ok (n % 2 ^ 32)
  ]

  -- What `parse` does with a document that has been parsed.
  unfoldable pub parse_fields : Value → DriverManifest → Result Text DriverManifest
  unfolding bounded_string parse_capabilities parse_event_types parse_limit
  parse_fields doc out = do
    name ← required_string doc (codes "name") (codes "manifest.name is required")
    require (valid_name name) (codes "manifest.name must match [a-zA-Z0-9-]{1,64}")
    version ← required_string doc (codes "version") (codes "manifest.version is required")
    require (valid_version version) (codes "manifest.version must be numeric x.y[.z]")
    script ← required_string doc (codes "script") (codes "manifest.script is required")
    require (not (is_empty script || ltb 4096 (length script)))
        (codes "manifest.script must be a non-empty path")
    description ← bounded_string doc (codes "description") out.description
    hash ← bounded_string doc (codes "script_sha256") out.script_sha256
    require (is_empty hash || valid_sha256_hex hash)
        (codes "manifest.script_sha256 must be 64 lowercase hex characters")
    capabilities ← parse_capabilities doc out.capabilities
    event_types ← parse_event_types doc out.event_types
    max_endpoints ←
        parse_limit doc (codes "max_endpoints")
          (codes "manifest.max_endpoints must be a number in [0, 64]") out.max_endpoints
    max_subscriptions ←
        parse_limit doc (codes "max_subscriptions")
          (codes "manifest.max_subscriptions must be a number in [0, 64]") out.max_subscriptions
    ok (record {
      name = name;
      version = version;
      script_path = script;
      description = description;
      capabilities = capabilities;
      event_types = event_types;
      max_endpoints = max_endpoints;
      max_subscriptions = max_subscriptions;
      script_sha256 = hash;
    })

  unfoldable pub parse_manifest : Text → DriverManifest → Result Text DriverManifest
  unfolding parse_fields
  parse_manifest json_text out = do
    doc ← or_fail (js.parse json_text) (codes "manifest is not valid JSON")
    require (is_object doc) (codes "manifest must be a JSON object")
    parse_fields doc out
