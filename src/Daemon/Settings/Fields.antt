-- ===== src/Daemon/Settings/Fields.antt =====
-- Each setting of the configuration keeps the limits.
use ezcap.Base.Json.{Json}
use ezcap.Base.Result.{ok, or_fail, bind-eq-ok, require-eq-ok, ok-injective}
use ezcap.Base.{
  ℕ, ◌≤◌, not, ◌||◌, List, [], ◌∷◌, Option, none, some, ◌≡◌, sym, arith, ltb, length, any, All,
  Text, codes, text_eq,
}
use ezcap.Daemon.PrivacySettings.{read_names, read_filter}
use ezcap.Daemon.Settings.{
  valid_path, log_levels, known_keys, set_socket_path, set_log_level, set_log_file, set_prefer_ebpf,
  set_pcap_fallback, set_capture, set_filter, set_enabled, set_storage_path, set_retention,
  set_storage, storage_keys, set_status_interval, set_rate, read_within,
}
use ezcap.Policy.Redactor.{is_empty}
use ezcap.Daemon.Settings.Limits.{IsName, Keeps, valid_path-IsSocketPath}

module _ (js : Json) where
  open js use {Value}

  pub read_names-IsName :
      (most : ℕ) (message : Text) (vs : List Value) (names : List Text)
      → read_names js most message vs ≡ ok names
      → All (IsName most) names
  unfolding read_names
  read_names-IsName most message [] names e = let same = ok-injective [] names e in rw (sym same) tt
  read_names-IsName most message (v ∷ vs) names e =
      let (name, _, e1) = bind-eq-ok (or_fail (js.as_string v) (some message)) _ e in
      let (fits, e2) = require-eq-ok (not (is_empty name || ltb most (length name))) _ _ e1 in
      let (rest, r, e3) = bind-eq-ok (read_names js most message vs) _ e2 in
      let same = ok-injective (name ∷ rest) names e3 in
      rw (sym same) ((ground arith, ground arith), read_names-IsName most message vs rest r)

  pub set_socket_path-Keeps : (o : Option Value) → Keeps (set_socket_path js o)
  unfolding set_socket_path
  set_socket_path-Keeps none c q v e = let same = ok-injective c q e in rw (sym same) v
  set_socket_path-Keeps (some w) c q v e =
      let (path, _, e1) =
        bind-eq-ok (or_fail (js.as_string w) (some (codes "invalid socket_path"))) _ e in
      let (_, p, e2) = bind-eq-ok (valid_path path) _ e1 in
      let same = ok-injective (record c { socket_path = path }) q e2 in
      rw (sym same) (record {
        socket = valid_path-IsSocketPath path p;
        level = v.level;
        names = v.names;
        filter_short = v.filter_short;
        policy_within = v.policy_within;
        located = v.located;
        kept = v.kept;
        paced = v.paced;
      })

  pub set_log_file-Keeps : (o : Option Value) → Keeps (set_log_file js o)
  unfolding set_log_file
  set_log_file-Keeps none c q v e = let same = ok-injective c q e in rw (sym same) v
  set_log_file-Keeps (some w) c q v e =
      let (file, _, e1) =
        bind-eq-ok (or_fail (js.as_string w) (some (codes "log_file must be a string"))) _ e in
      let same = ok-injective (record c { log_file = file }) q e1 in rw (sym same) v

  pub set_prefer_ebpf-Keeps : (o : Option Value) → Keeps (set_prefer_ebpf js o)
  unfolding set_prefer_ebpf
  set_prefer_ebpf-Keeps none c q v e = let same = ok-injective c q e in rw (sym same) v
  set_prefer_ebpf-Keeps (some w) c q v e =
      let (x, _, e1) = bind-eq-ok (or_fail (js.as_bool w) _) _ e in
      let same = ok-injective (record c { prefer_ebpf = x }) q e1 in rw (sym same) v

  pub set_pcap_fallback-Keeps : (o : Option Value) → Keeps (set_pcap_fallback js o)
  unfolding set_pcap_fallback
  set_pcap_fallback-Keeps none c q v e = let same = ok-injective c q e in rw (sym same) v
  set_pcap_fallback-Keeps (some w) c q v e =
      let (x, _, e1) = bind-eq-ok (or_fail (js.as_bool w) _) _ e in
      let same = ok-injective (record c { pcap_fallback = x }) q e1 in rw (sym same) v

  pub set_rate-Keeps : (o : Option Value) → Keeps (set_rate js o)
  unfolding set_rate
  set_rate-Keeps none c q v e = let same = ok-injective c q e in rw (sym same) v
  set_rate-Keeps (some w) c q v e =
      let (x, _, e1) = bind-eq-ok (or_fail (js.as_unsigned w) _) _ e in
      let same = ok-injective (record c { max_events_per_second = x }) q e1 in rw (sym same) v

  pub set_enabled-Keeps : (o : Option Value) → Keeps (set_enabled js o)
  unfolding set_enabled
  set_enabled-Keeps none c q v e = let same = ok-injective c q e in rw (sym same) v
  set_enabled-Keeps (some w) c q v e =
      let (x, _, e1) = bind-eq-ok (or_fail (js.as_bool w) _) _ e in
      let same = ok-injective (record c { storage_enabled = x }) q e1 in rw (sym same) v

  pub set_log_level-Keeps : (o : Option Value) → Keeps (set_log_level js o)
  unfolding set_log_level
  set_log_level-Keeps none c q v e = let same = ok-injective c q e in rw (sym same) v
  set_log_level-Keeps (some w) c q v e =
      let (x, _, e1) = bind-eq-ok (or_fail (js.as_string w) _) _ e in
      let (known, e2) = require-eq-ok (any (text_eq x) log_levels) _ _ e1 in
      let same = ok-injective (record c { log_level = x }) q e2 in
      rw (sym same) (record {
        socket = v.socket;
        level = known;
        names = v.names;
        filter_short = v.filter_short;
        policy_within = v.policy_within;
        located = v.located;
        kept = v.kept;
        paced = v.paced;
      })

  pub set_capture-Keeps : (o : Option Value) → Keeps (set_capture js o)
  unfolding set_capture
  set_capture-Keeps none c q v e = let same = ok-injective c q e in rw (sym same) v
  set_capture-Keeps (some w) c q v e =
      let (vs, _, e1) = bind-eq-ok (or_fail (js.as_array w) _) _ e in
      let (x, r, e2) = bind-eq-ok (read_names js 16 _ vs) _ e1 in
      let same = ok-injective (record c { interfaces = x }) q e2 in
      rw (sym same) (record {
        socket = v.socket;
        level = v.level;
        names = read_names-IsName 16 _ vs x r;
        filter_short = v.filter_short;
        policy_within = v.policy_within;
        located = v.located;
        kept = v.kept;
        paced = v.paced;
      })

  pub read_filter-short :
      (message : Text) (w : Value) (x : Text) → read_filter js message w ≡ ok x → length x ≤ 256
  read_filter-short message w x e =
      let (y, _, e1) = bind-eq-ok (or_fail (js.as_string w) (some message)) _ e in
      let (fits, e2) = require-eq-ok (not (ltb 256 (length y))) _ _ e1 in
      let same = ok-injective y x e2 in rw (sym same) (ground arith)

  pub set_filter-Keeps : (o : Option Value) → Keeps (set_filter js o)
  unfolding set_filter
  set_filter-Keeps none c q v e = let same = ok-injective c q e in rw (sym same) v
  set_filter-Keeps (some w) c q v e =
      let (x, r, e1) = bind-eq-ok (read_filter js _ w) _ e in
      let same = ok-injective (record c { pcap_filter = x }) q e1 in
      rw (sym same) (record {
        socket = v.socket;
        level = v.level;
        names = v.names;
        filter_short = read_filter-short _ w x r;
        policy_within = v.policy_within;
        located = v.located;
        kept = v.kept;
        paced = v.paced;
      })

  pub set_storage_path-Keeps : (o : Option Value) → Keeps (set_storage_path js o)
  unfolding set_storage_path
  set_storage_path-Keeps none c q v e = let same = ok-injective c q e in rw (sym same) v
  set_storage_path-Keeps (some w) c q v e =
      let (x, _, e1) = bind-eq-ok (or_fail (js.as_string w) _) _ e in
      let (some_bytes, e2) = require-eq-ok (not (is_empty x)) _ _ e1 in
      let same = ok-injective (record c { storage_path = x }) q e2 in
      rw (sym same) (record {
        socket = v.socket;
        level = v.level;
        names = v.names;
        filter_short = v.filter_short;
        policy_within = v.policy_within;
        located = ground arith;
        kept = v.kept;
        paced = v.paced;
      })

  read_within-bounds :
      (least most : ℕ) (message : Text) (w : Value) (n : ℕ)
      → read_within js least most message w ≡ ok n
      → (least ≤ n) × (n ≤ most)
  read_within-bounds least most message w n e =
      let (k, _, e1) = bind-eq-ok (or_fail (js.as_unsigned w) (some message)) _ e in
      let (fits, e2) = require-eq-ok (not (ltb k least || ltb most k)) _ _ e1 in
      let same = ok-injective k n e2 in rw (sym same) (ground arith, ground arith)

  pub set_retention-Keeps : (o : Option Value) → Keeps (set_retention js o)
  unfolding set_retention
  set_retention-Keeps none c q v e = let same = ok-injective c q e in rw (sym same) v
  set_retention-Keeps (some w) c q v e =
      let (n, r, e1) = bind-eq-ok (read_within js 60 31536000 _ w) _ e in
      let same = ok-injective (record c { storage_retention = n }) q e1 in
      rw (sym same) (record {
        socket = v.socket;
        level = v.level;
        names = v.names;
        filter_short = v.filter_short;
        policy_within = v.policy_within;
        located = v.located;
        kept = read_within-bounds 60 31536000 _ w n r;
        paced = v.paced;
      })

  pub set_status_interval-Keeps : (o : Option Value) → Keeps (set_status_interval js o)
  unfolding set_status_interval
  set_status_interval-Keeps none c q v e = let same = ok-injective c q e in rw (sym same) v
  set_status_interval-Keeps (some w) c q v e =
      let (n, r, e1) = bind-eq-ok (read_within js 100 3600000 _ w) _ e in
      let same = ok-injective (record c { status_interval = n }) q e1 in
      rw (sym same) (record {
        socket = v.socket;
        level = v.level;
        names = v.names;
        filter_short = v.filter_short;
        policy_within = v.policy_within;
        located = v.located;
        kept = v.kept;
        paced = read_within-bounds 100 3600000 _ w n r;
      })

  pub set_storage-Keeps : (o : Option Value) → Keeps (set_storage js o)
  unfolding set_storage
  set_storage-Keeps none c q v e = let same = ok-injective c q e in rw (sym same) v
  set_storage-Keeps (some w) c q v e =
      let (_, e1) = require-eq-ok (js.is_object w) _ _ e in
      let (_, _, e2) =
        bind-eq-ok (known_keys (codes "unknown storage key: ") storage_keys (js.keys w)) _ e1 in
      let (d, first, e3) = bind-eq-ok (set_enabled js (js.member w (codes "enabled")) c) _ e2 in
      let (k, second, e4) = bind-eq-ok (set_storage_path js (js.member w (codes "path")) d) _ e3 in
      let v1 = set_enabled-Keeps (js.member w (codes "enabled")) c d v first in
      let v2 = set_storage_path-Keeps (js.member w (codes "path")) d k v1 second in
      set_retention-Keeps (js.member w (codes "retention_seconds")) k q v2 e4
