-- ===== src/Drivers/Manifest/Limits.antt =====
-- The limits of `DriverManifest::parse`, of src/drivers/lua/manifests/manifest.cpp.
use mathlib.Core.Path.{subst}
use ezcap.Base.Json.{Json}
use ezcap.Base.Result.{ok, or_fail, bind-eq-ok, require-eq-ok, ok-injective}
use ezcap.Base.{
  ℕ, ◌+◌, ◌≤◌, ◌<◌, Bool, true, false, not, ◌&&◌, ◌||◌, leb, ◌==◌, all, List, [], ◌∷◌, ◌++◌, ltb,
  length, Text, codes, ◌≡◌, refl, sym, ◌∙◌, arith, ◌⊎◌, inl, inr, Option-cases, length-append, All,
  All-append,
}
use ezcap.Drivers.Manifest.{
  DriverManifest, Capability, new_manifest, insert_capability, capability_from_name,
  read_capabilities, valid_name, valid_version, valid_sha256_hex, bounded_string,
  parse_capabilities, read_event_types, parse_event_types, parse_limit, parse_fields,
  parse_manifest, required_string,
}
use ezcap.Drivers.Manifest.Version.{groups, is_group, valid_version-groups}
use ezcap.Policy.Redactor.{is_empty}

-- A letter, a digit or a hyphen, and a digit or one of `a` to `f`.
abbrev pub in_name : ℕ → Bool
in_name c =
    ((leb 48 c && leb c 57) || ((leb 97 c && leb c 122) || (leb 65 c && leb c 90))) || (c == 45)

abbrev pub in_hash : ℕ → Bool
in_hash c = (leb 48 c && leb c 57) || (leb 97 c && leb c 102)

-- The limits.
pub record IsWithin (m : DriverManifest) : Type 0 where
  pub name_some : 0 < length m.name
  pub name_short : length m.name ≤ 64
  pub name_bytes : all in_name m.name ≡ true
  pub version :
      (is_group (groups m.version).0 && all is_group (groups m.version).1)
        && (leb 1 (length (groups m.version).1) && leb (length (groups m.version).1) 3)
      ≡ true
  pub script_some : 0 < length m.script_path
  pub script_short : length m.script_path ≤ 4096
  pub description : length m.description ≤ 512
  pub hash :
      (m.script_sha256 ≡ [])
      ⊎ ((length m.script_sha256 ≡ 64) × (all in_hash m.script_sha256 ≡ true))
  pub capabilities_few : length m.capabilities ≤ 16
  pub events_few : length m.event_types ≤ 16
  pub events_short : All (λ t. length t ≤ 32) m.event_types
  pub endpoints : m.max_endpoints ≤ 64
  pub subscriptions : m.max_subscriptions ≤ 64

nonempty : (s : Text) → is_empty s ≡ false → 0 < length s
nonempty [] h = cc
nonempty (c ∷ s) h = omega arith

valid_name-in_name :
    (s : Text) → valid_name s ≡ true → (0 < length s) × (length s ≤ 64) × (all in_name s ≡ true)
unfolding valid_name
valid_name-in_name s h = (nonempty s (ground arith), ground arith, ground arith)

valid_sha256_hex-in_hash :
    (s : Text) → valid_sha256_hex s ≡ true → (length s ≡ 64) × (all in_hash s ≡ true)
unfolding valid_sha256_hex
valid_sha256_hex-in_hash s h = (ground arith, ground arith)

or_empty :
    (s : Text)
    → (is_empty s || valid_sha256_hex s) ≡ true
    → (s ≡ []) ⊎ ((length s ≡ 64) × (all in_hash s ≡ true))
or_empty [] h = inl refl
or_empty (c ∷ s) h = inr (valid_sha256_hex-in_hash (c ∷ s) h)

length-insert_capability :
    (cs : List Capability) (c : Capability) → length (insert_capability cs c) ≤ length cs + 1
unfolding insert_capability
length-insert_capability cs c = ground arith

module _ (js : Json) where
  open js use {Value}

  bounded_string-short :
      (doc : Value) (key out t : Text)
      → length out ≤ 512
      → bounded_string js doc key out ≡ ok t
      → length t ≤ 512
  unfolding bounded_string
  bounded_string-short doc key out t h e = ground arith

  read_event_types-short :
      (entries : List Value) (types ts : List Text)
      → All (λ t. length t ≤ 32) types
      → read_event_types js types entries ≡ ok ts
      → (length ts ≡ length types + length entries) × All (λ t. length t ≤ 32) ts
  unfolding read_event_types
  read_event_types-short [] types ts h e =
      let same : types ≡ ts = ground arith in
      (ground arith, subst (All (λ t. length t ≤ 32)) same h)
  read_event_types-short (v ∷ entries) types ts h e = elim (Option-cases (js.as_string v)) [
    | inl p ↦ absurd (ground arith)
    | inr (t, p) ↦
        let short : length t ≤ 32 = ground arith in
        let rest : read_event_types js (types ++ t ∷ []) entries ≡ ok ts = ground arith in
        let (size, all_short) =
          read_event_types-short entries (types ++ t ∷ []) ts
            (All-append (λ u. length u ≤ 32) types (t ∷ []) h (short, tt)) rest in
        (ground (arith, size, length-append types (t ∷ [])), all_short)
  ]

  parse_limit-small :
      (doc : Value) (key error : Text) (limit n : ℕ)
      → limit ≤ 64
      → parse_limit js doc key error limit ≡ ok n
      → n ≤ 64
  unfolding parse_limit
  parse_limit-small doc key error limit n h e = ground arith

  parse_event_types-short :
      (doc : Value) (types ts : List Text)
      → types ≡ []
      → parse_event_types js doc types ≡ ok ts
      → (length ts ≤ 16) × All (λ t. length t ≤ 32) ts
  unfolding parse_event_types
  parse_event_types-short doc types ts none_yet e =
      elim (Option-cases (js.member doc (codes "event_types"))) [
        | inl p ↦
            let same : [] ≡ ts = ground arith in
            (ground arith, subst (All (λ t. length t ≤ 32)) same tt)
        | inr (value, p) ↦ elim (Option-cases (js.as_array value)) [
          | inl q ↦ absurd (ground arith)
          | inr (entries, q) ↦
              let (size, short) =
                read_event_types-short entries types ts
                  (subst (All (λ t. length t ≤ 32)) (sym none_yet) tt) (ground arith) in
              (ground (arith, size), short)
        ]
      ]

  read_capabilities-few :
      (entries : List Value) (cs ds : List Capability)
      → read_capabilities js cs entries ≡ ok ds
      → length ds ≤ length cs + length entries
  unfolding read_capabilities
  read_capabilities-few [] cs ds e = ground arith
  read_capabilities-few (v ∷ entries) cs ds e =
      let (name, _, f) = bind-eq-ok (or_fail (js.as_string v) _) _ e in
      let (c, _, g) = bind-eq-ok (or_fail (capability_from_name name) _) _ f in
      let few = read_capabilities-few entries (insert_capability cs c) ds g in
      omega (arith, few, length-insert_capability cs c)

  parse_capabilities-few :
      (doc : Value) (cs ds : List Capability)
      → cs ≡ []
      → parse_capabilities js doc cs ≡ ok ds
      → length ds ≤ 16
  unfolding parse_capabilities
  parse_capabilities-few doc cs ds none_yet e =
      elim (Option-cases (js.member doc (codes "capabilities"))) [
        | inl p ↦ ground arith
        | inr (value, p) ↦ elim (Option-cases (js.as_array value)) [
          | inl q ↦ absurd (ground arith)
          | inr (entries, q) ↦ ground (arith, read_capabilities-few entries cs ds)
        ]
      ]

  parse_fields-IsWithin :
      (doc : Value) (m out : DriverManifest)
      → length out.description ≤ 512
      → out.event_types ≡ []
      → out.capabilities ≡ []
      → out.max_endpoints ≤ 64
      → out.max_subscriptions ≤ 64
      → parse_fields js doc out ≡ ok m
      → IsWithin m
  unfolding parse_fields
  parse_fields-IsWithin doc m out d t c n k e =
      let (name, e1, f1) = bind-eq-ok (required_string js doc (codes "name") _) _ e in
      let (name_ok, g1) = require-eq-ok (valid_name name) _ _ f1 in
      let (version, e2, f2) = bind-eq-ok (required_string js doc (codes "version") _) _ g1 in
      let (version_ok, g2) = require-eq-ok (valid_version version) _ _ f2 in
      let (script, e3, f3) = bind-eq-ok (required_string js doc (codes "script") _) _ g2 in
      let (script_ok, g3) =
        require-eq-ok (not (is_empty script || ltb 4096 (length script))) _ _ f3 in
      let (description, e4, g4) = bind-eq-ok (bounded_string js doc _ out.description) _ g3 in
      let (hash, e5, f5) = bind-eq-ok (bounded_string js doc _ out.script_sha256) _ g4 in
      let (hash_ok, g5) = require-eq-ok (is_empty hash || valid_sha256_hex hash) _ _ f5 in
      let (capabilities, e6, g6) = bind-eq-ok (parse_capabilities js doc out.capabilities) _ g5 in
      let (types, e7, g7) = bind-eq-ok (parse_event_types js doc out.event_types) _ g6 in
      let (endpoints, e8, g8) = bind-eq-ok (parse_limit js doc _ _ out.max_endpoints) _ g7 in
      let (subscriptions, e9, g9) =
        bind-eq-ok (parse_limit js doc _ _ out.max_subscriptions) _ g8 in
      let (some_bytes, name_short, name_bytes) = valid_name-in_name name name_ok in
      let (few, short) = parse_event_types-short doc out.event_types types t e7 in
      subst IsWithin (ok-injective _ m g9) (record {
        name_some = some_bytes;
        name_short = name_short;
        name_bytes = name_bytes;
        version = sym (valid_version-groups version) ∙ version_ok;
        script_some = nonempty script (ground arith);
        script_short = ground arith;
        description = bounded_string-short doc _ out.description description d e4;
        hash = or_empty hash hash_ok;
        capabilities_few = parse_capabilities-few doc out.capabilities capabilities c e6;
        events_few = few;
        events_short = short;
        endpoints = parse_limit-small doc _ _ out.max_endpoints endpoints n e8;
        subscriptions = parse_limit-small doc _ _ out.max_subscriptions subscriptions k e9;
      })

  -- A text that is accepted as a manifest, into one that is new, gives a manifest within these
  -- limits: its name has 1 to 64 bytes, all letters, digits or hyphens, its version is
  -- two to four groups of digits with dots between them, its path has 1 to 4096 bytes and its description at most 512, its hash is empty or
  -- 64 digits or letters `a` to `f`, it has at most 16 capabilities and subscribes to at most 16
  -- event types of at most 32 bytes each, and its own limits are at most 64.
  pub parse_manifest-IsWithin :
      (text : Text) (m : DriverManifest) → parse_manifest js text new_manifest ≡ ok m → IsWithin m
  unfolding parse_manifest
  parse_manifest-IsWithin text m e =
      let (doc, e1, f1) = bind-eq-ok (or_fail (js.parse text) _) _ e in
      let (object, g1) = require-eq-ok (js.is_object doc) _ _ f1 in
      parse_fields-IsWithin doc m new_manifest (omega arith) refl refl (omega arith) (omega arith)
        g1
