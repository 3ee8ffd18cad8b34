-- ===== src/Daemon/Settings.antt =====
-- src/daemon/config.cpp: the configuration from a JSON document. What the code leaves in its out
-- parameter on an error is left out; the error `none` is an exception of the JSON library, which
-- `parse` does not catch.
pub mod Limits
pub mod Fields
pub mod Accepted
use ezcap.Base.Json.{Json}
use ezcap.Base.Result.{Result, ok, err, ◌>>=◌, ◌>>◌, require, or_fail}
use ezcap.Base.{
  ℕ, ◌*◌, Bool, true, false, not, ◌&&◌, ◌||◌, List, [], ◌∷◌, ◌++◌, Option, none, some, ltb, ◌==◌,
  if◌then◌else◌, is_some, length, any, Text, codes, text_eq, find_text,
}
use ezcap.Daemon.PrivacySettings.{Error, read_names, read_filter, parse_policy}
use ezcap.Daemon.{Config}
use ezcap.Policy.Redactor.{is_empty}
use ezcap.Policy.Types.{Policy, redaction_mode_from_name}

abbrev pub starts_at_root : Text → Bool
starts_at_root [] = false
starts_at_root (c ∷ s) = c == b'/'

unfoldable pub valid_path : Text → Result Error (Unit {0})
valid_path path = do
  require (starts_at_root path) (some (codes "path must be absolute"))
  require (not (is_some (find_text (codes "..") path))) (some (codes "path must not contain '..'"))
  require (not (ltb 104 (length path))) (some (codes "path too long for a unix socket"))

abbrev pub top_keys : List Text
top_keys =
    codes "socket_path"
    ∷ codes "log_level"
    ∷ codes "log_file"
    ∷ codes "prefer_ebpf"
    ∷ codes "pcap_fallback"
    ∷ codes "interfaces"
    ∷ codes "pcap_filter"
    ∷ codes "policy"
    ∷ codes "storage"
    ∷ codes "status_interval_ms"
    ∷ codes "max_events_per_second"
    ∷ []

abbrev pub storage_keys : List Text
storage_keys = codes "enabled" ∷ codes "path" ∷ codes "retention_seconds" ∷ []

abbrev pub log_levels : List Text
log_levels =
    codes "trace" ∷ codes "debug" ∷ codes "info" ∷ codes "warn" ∷ codes "error" ∷ codes "off" ∷ []

unfoldable pub known_keys : Text → List Text → List Text → Result Error (Unit {0})
known_keys message known [] = ok tt
known_keys message known (key ∷ keys) = do
  require (any (text_eq key) known) (some (message ++ key))
  known_keys message known keys

-- Changes that are made one after the other.
abbrev pub one_by_one : List (Config → Result Error Config) → Config → Result Error Config
one_by_one [] c = ok c
one_by_one (f ∷ fs) c = f c >>= one_by_one fs

module _ (js : Json) where
  open js use {
    Value, parse, is_object, member, keys, as_bool, as_string, as_array, as_unsigned, object,
  }

  unfoldable pub set_socket_path : Option Value → Config → Result Error Config
  unfolding valid_path
  set_socket_path none c = ok c
  set_socket_path (some v) c = do
    path ← or_fail (as_string v) (some (codes "invalid socket_path"))
    valid_path path
    ok (record c { socket_path = path })

  unfoldable pub set_log_level : Option Value → Config → Result Error Config
  set_log_level none c = ok c
  set_log_level (some v) c = do
    level ← or_fail (as_string v) (some (codes "log_level must be a string"))
    require (any (text_eq level) log_levels)
        (some (codes "log_level must be one of trace|debug|info|warn|error|off"))
    ok (record c { log_level = level })

  unfoldable pub set_log_file : Option Value → Config → Result Error Config
  set_log_file none c = ok c
  set_log_file (some v) c = do
    file ← or_fail (as_string v) (some (codes "log_file must be a string"))
    ok (record c { log_file = file })

  unfoldable pub set_prefer_ebpf : Option Value → Config → Result Error Config
  set_prefer_ebpf none c = ok c
  set_prefer_ebpf (some v) c = do
    b ← or_fail (as_bool v) (some (codes "prefer_ebpf must be a boolean"))
    ok (record c { prefer_ebpf = b })

  unfoldable pub set_pcap_fallback : Option Value → Config → Result Error Config
  set_pcap_fallback none c = ok c
  set_pcap_fallback (some v) c = do
    b ← or_fail (as_bool v) (some (codes "pcap_fallback must be a boolean"))
    ok (record c { pcap_fallback = b })

  unfoldable pub set_capture : Option Value → Config → Result Error Config
  unfolding read_names
  set_capture none c = ok c
  set_capture (some v) c = do
    vs ← or_fail (as_array v) (some (codes "interfaces must be an array"))
    names ← read_names js 16 (codes "interfaces entries must be non-empty names (max 16 chars)") vs
    ok (record c { interfaces = names })

  unfoldable pub set_filter : Option Value → Config → Result Error Config
  set_filter none c = ok c
  set_filter (some v) c = do
    filter ← read_filter js (codes "pcap_filter must be a string (max 256 chars)") v
    ok (record c { pcap_filter = filter })

  unfoldable pub set_privacy : Option Value → Config → Result Error Config
  unfolding parse_policy
  set_privacy none c = ok c
  set_privacy (some v) c = do p ← parse_policy js v c.policy; ok (record c { policy = p })

  unfoldable pub set_enabled : Option Value → Config → Result Error Config
  set_enabled none c = ok c
  set_enabled (some v) c = do
    b ← or_fail (as_bool v) (some (codes "storage.enabled must be a boolean"))
    ok (record c { storage_enabled = b })

  unfoldable pub set_storage_path : Option Value → Config → Result Error Config
  set_storage_path none c = ok c
  set_storage_path (some v) c = do
    path ← or_fail (as_string v) (some (codes "storage.path must be a non-empty string"))
    require (not (is_empty path)) (some (codes "storage.path must be a non-empty string"))
    ok (record c { storage_path = path })

  -- An unsigned number from `least` to `most`.
  abbrev pub read_within : ℕ → ℕ → Text → Value → Result Error ℕ
  read_within least most message v = do
    n ← or_fail (as_unsigned v) (some message)
    require (not (ltb n least || ltb most n)) (some message)
    ok n

  unfoldable pub set_retention : Option Value → Config → Result Error Config
  set_retention none c = ok c
  set_retention (some v) c = do
    n ←
        read_within 60 31536000 (codes "storage.retention_seconds must be between 60 and 31536000")
          v
    ok (record c { storage_retention = n })

  unfoldable pub set_storage : Option Value → Config → Result Error Config
  unfolding known_keys set_enabled set_storage_path set_retention
  set_storage none c = ok c
  set_storage (some v) c = do
    require (is_object v) (some (codes "storage must be an object"))
    known_keys (codes "unknown storage key: ") storage_keys (keys v)
    enabled ← set_enabled (member v (codes "enabled")) c
    located ← set_storage_path (member v (codes "path")) enabled
    set_retention (member v (codes "retention_seconds")) located

  unfoldable pub set_status_interval : Option Value → Config → Result Error Config
  set_status_interval none c = ok c
  set_status_interval (some v) c = do
    n ← read_within 100 3600000 (codes "status_interval_ms must be between 100 and 3600000") v
    ok (record c { status_interval = n })

  unfoldable pub set_rate : Option Value → Config → Result Error Config
  set_rate none c = ok c
  set_rate (some v) c = do
    n ←
        or_fail (as_unsigned v)
          (some (codes "max_events_per_second must be a non-negative integer"))
    ok (record c { max_events_per_second = n })

  -- The changes of the configuration, in the order of the code.
  abbrev pub settings : Value → List (Config → Result Error Config)
  settings doc =
      set_socket_path (member doc (codes "socket_path"))
      ∷ set_log_level (member doc (codes "log_level"))
      ∷ set_log_file (member doc (codes "log_file"))
      ∷ set_prefer_ebpf (member doc (codes "prefer_ebpf"))
      ∷ set_pcap_fallback (member doc (codes "pcap_fallback"))
      ∷ set_capture (member doc (codes "interfaces"))
      ∷ set_filter (member doc (codes "pcap_filter"))
      ∷ set_privacy (member doc (codes "policy"))
      ∷ set_storage (member doc (codes "storage"))
      ∷ set_status_interval (member doc (codes "status_interval_ms"))
      ∷ set_rate (member doc (codes "max_events_per_second"))
      ∷ []

  unfoldable pub parse_document : Value → Config → Result Error Config
  unfolding known_keys
  parse_document doc c = do
    require (is_object doc) (some (codes "configuration must be a JSON object"))
    known_keys (codes "unknown configuration key: ") top_keys (keys doc)
    last ← one_by_one (settings doc) c
    require (not (last.storage_enabled && is_empty last.storage_path))
        (some (codes "storage.enabled requires storage.path"))
    ok last

  unfoldable pub parse_config : Text → Config → Result Error Config
  unfolding parse_document
  parse_config json_text c = do
    doc ← or_fail (parse json_text) (some (codes "configuration is not valid JSON"))
    parse_document doc c

  -- `Config::load` of a file with this text, or of one that cannot be opened.
  unfoldable pub load_config : Option Text → Text → Config → Result Error Config
  unfolding parse_config
  load_config none path c = err (some (codes "cannot open configuration file: " ++ path))
  load_config (some text) path c = do
    require (not (ltb (256 * 1024) (length text))) (some (codes "configuration file too large"))
    parse_config text c
