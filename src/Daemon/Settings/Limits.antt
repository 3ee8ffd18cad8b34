-- ===== src/Daemon/Settings/Limits.antt =====
-- The limits on a configuration that is accepted.
use ezcap.Base.Result.{Result, ok, bind-eq-ok, require-eq-ok, ok-injective}
use ezcap.Base.{
  ℕ, ◌≤◌, true, false, not, List, [], ◌∷◌, ◌≡◌, sym, arith, is_some, length, any, All, Text, codes,
  text_eq, find_text,
}
use ezcap.Daemon.PrivacySettings.{Error}
use ezcap.Daemon.Settings.{starts_at_root, valid_path, log_levels, one_by_one}
use ezcap.Daemon.{Config}
use ezcap.Policy.Redactor.{is_empty}
use ezcap.Policy.Types.{Policy}

-- A name of 1 to `most` bytes.
abbrev pub IsName : ℕ → Text → Type 0
IsName most name = (is_empty name ≡ false) × (length name ≤ most)

pub record IsSocketPath (path : Text) : Type 0 where
  pub rooted : starts_at_root path ≡ true
  pub no_parent : is_some (find_text (codes "..") path) ≡ false
  pub short : length path ≤ 104

pub record ArePolicyLimits (domains interfaces : List Text) (filter : Text) : Type 0 where
  pub domain_names : All (IsName 253) domains
  pub interface_names : All (IsName 16) interfaces
  pub filter_short : length filter ≤ 256

abbrev pub IsPolicyWithin : Policy → Type 0
IsPolicyWithin p = ArePolicyLimits p.sensitive_domains p.capture_interfaces p.pcap_filter

pub record AreLimits (socket_path log_level : Text) (interfaces : List Text) (filter : Text)
    (policy : Policy) (storage_path : Text) (retention interval : ℕ) : Type 0 where
  pub socket : IsSocketPath socket_path
  pub level : any (text_eq log_level) log_levels ≡ true
  pub names : All (IsName 16) interfaces
  pub filter_short : length filter ≤ 256
  pub policy_within : IsPolicyWithin policy
  pub located : is_empty storage_path ≡ false
  pub kept : (60 ≤ retention) × (retention ≤ 31536000)
  pub paced : (100 ≤ interval) × (interval ≤ 3600000)

-- The limits hold of a configuration.
abbrev pub IsWithinLimits : Config → Type 0
IsWithinLimits c =
    AreLimits c.socket_path c.log_level c.interfaces c.pcap_filter c.policy c.storage_path
      c.storage_retention c.status_interval

abbrev pub Keeps : (Config → Result Error Config) → Type 0
Keeps f = (c q : Config) → IsWithinLimits c → f c ≡ ok q → IsWithinLimits q

pub one_by_one-Keeps :
    (fs : List (Config → Result Error Config)) → All Keeps fs → Keeps (one_by_one fs)
one_by_one-Keeps [] all c q v e = let same = ok-injective c q e in rw (sym same) v
one_by_one-Keeps (f ∷ fs) (k, ks) c q v e =
    let (d, first, rest) = bind-eq-ok (f c) (one_by_one fs) e in
    one_by_one-Keeps fs ks d q (k c d v first) rest

pub valid_path-IsSocketPath : (path : Text) → valid_path path ≡ ok tt → IsSocketPath path
unfolding valid_path
valid_path-IsSocketPath path e =
    let (a, e1) = require-eq-ok (starts_at_root path) _ _ e in
    let (b, e2) = require-eq-ok (not (is_some (find_text (codes "..") path))) _ _ e1 in
    record { rooted = a; no_parent = ground arith; short = ground arith }
