-- ===== src/Policy/Redactor.antt =====
-- src/policy/redactor.cpp: URLs and DNS names before they leave the process. A call returns its
-- text with the kinds that `last_redactions_` holds after it.
pub mod Clean
pub mod Domains
pub mod Ports
use ezcap.Base.{
  ℕ, zero, suc, ◌+◌, ◌-◌, ◌*◌, ◌/◌, ◌%◌, ◌^◌, bit_xor, Bool, true, false, not, ◌&&◌, ◌||◌, List, [],
  ◌∷◌, ◌++◌, map, Option, none, some, ltb, leb, ◌==◌, if◌then◌else◌, is_some, length, get_elem?,
  take, drop, replicate, any, Text, codes, text_eq, find_index, find_from, find_text, find_last,
  lower_byte,
}
use ezcap.Model.Event.{Redactions, no_redactions}
use ezcap.Policy.Types.{
  RedactionMode, hostname_only, query_string_removal, full_hostname, domain_hash, domain_mask,
  Policy,
}

-- One round of FNV-1a on a 64-bit word.
abbrev pub fnv_round : ℕ → ℕ → ℕ
fnv_round hash c = (bit_xor hash c * 1099511628211) % 2 ^ 64

unfoldable pub fnv_loop : ℕ → Text → ℕ
fnv_loop hash [] = hash
fnv_loop hash (c ∷ s) = fnv_loop (fnv_round hash c) s

unfoldable pub hex_digit : ℕ → ℕ
hex_digit d = if ltb d 10 then b'0' + d else b'a' + (d - 10)

-- The `n` lowest hexadecimal digits, the highest first.
unfoldable pub hex_digits : ℕ → ℕ → Text
unfolding hex_digit
hex_digits zero x = []
hex_digits (suc n) x = hex_digit (x / 16 ^ n % 16) ∷ hex_digits n x

-- "%016llx" of a 64-bit word.
unfoldable pub fnv1a_hex : Text → Text
unfolding fnv_loop hex_digits
fnv1a_hex s = hex_digits 16 (fnv_loop 14695981039346656037 s)

unfoldable pub to_lower : Text → Text
unfolding lower_byte
to_lower s = map lower_byte s

abbrev pub is_dot : ℕ → Bool
is_dot c = c == b'.'

-- The byte before the last `length domain` bytes.
abbrev pub dot_before : Text → Text → Bool
dot_before host domain = elim (get_elem? host (length host - length domain - 1)) [
  | none ↦ false
  | some c ↦ is_dot c
]

unfoldable pub host_under_domain : Text → Text → Bool
host_under_domain host domain =
    if text_eq host domain
    then true
    else if leb (length host) (length domain)
    then false
    else if not (text_eq (drop (length host - length domain) host) domain)
    then false
    else dot_before host domain

unfoldable pub domain_excluded : Policy → Text → Bool
unfolding host_under_domain to_lower
domain_excluded p host =
    any (λ domain. host_under_domain (to_lower host) (to_lower domain)) p.sensitive_domains

-- `masked.find_last_of('.', last_dot - 1)`; at 0 the position wraps to `npos`.
abbrev second_dot : Text → ℕ → Option ℕ
second_dot s last_dot =
    if last_dot == 0 then find_last is_dot s else find_last is_dot (take last_dot s)

unfoldable pub mask_end : Text → Option ℕ
unfolding find_last
mask_end s = elim (find_last is_dot s) [
  | none ↦ none
  | some last_dot ↦ elim (second_dot s last_dot) [ none ↦ some last_dot | some d ↦ some d ]
]

-- `std::fill` from position 1 to `end`.
unfoldable pub mask : Text → Text
unfolding mask_end
mask s = elim (mask_end s) [
  | none ↦ s
  | some end ↦ if ltb 1 end then take 1 s ++ (replicate (end - 1) b'*' ++ drop end s) else s
]

unfoldable pub transform_hostname : RedactionMode → Text → Text
unfolding fnv1a_hex mask
transform_hostname domain_hash host = fnv1a_hex host
transform_hostname domain_mask host = mask host
transform_hostname _ host = host

-- "/?#"
abbrev pub is_delimiter : ℕ → Bool
is_delimiter c = c == b'/' || (c == b'?' || c == b'#')

abbrev pub scheme : Text → Option ℕ
scheme url = find_text (codes "://") url

abbrev pub host_start : Text → ℕ
host_start url = elim (scheme url) [ none ↦ 0 | some i ↦ i + 3 ]

-- `substr(from, to - from)`; to the end where `to` is `npos`.
abbrev pub slice_to : ℕ → Option ℕ → Text → Text
slice_to from none s = drop from s
slice_to from (some to) s = take (to - from) (drop from s)

unfoldable pub url_host : Text → Text
unfolding find_text find_from
url_host url = slice_to (host_start url) (find_from is_delimiter url (host_start url)) url

-- Cuts at the first byte `c`, if there is one, and says whether it did.
unfoldable pub cut_at : ℕ → Text → Text × Bool
unfolding find_index
cut_at c s = elim (find_index (λ x. x == c) s) [ none ↦ (s, false) | some i ↦ (take i s, true) ]

abbrev pub cut_if : Bool → ℕ → Text → Text × Bool
cut_if flag c s = if flag then cut_at c s else (s, false)

-- `resize` at the first '/' of the rest.
unfoldable pub cut_path : Text → ℕ → Text
unfolding find_from
cut_path s from = elim (find_from (λ x. x == b'/') s from) [ none ↦ s | some i ↦ take i s ]

abbrev pub suffix_from : Text → Option ℕ → Text
suffix_from s none = []
suffix_from s (some i) = drop i s

-- prefix + new_host + suffix, of the URL as it stands after the cuts.
unfoldable pub replace_host : Text → ℕ → Text → Text
unfolding find_from
replace_host s start new_host =
    take start s ++ (new_host ++ suffix_from s (find_from is_delimiter s start))

-- The last two steps of `redact_url`, which depend on the mode and on there being a scheme.
unfoldable pub apply_mode : RedactionMode → Text → Text → Redactions → Text × Redactions
unfolding cut_path replace_host transform_hostname
apply_mode hostname_only url result kinds =
    if is_some (scheme url)
    then (cut_path result (host_start url), record kinds { query_string = true })
    else (result, kinds)
apply_mode domain_hash url result kinds =
    if is_some (scheme url)
    then (
      replace_host result (host_start url) (transform_hostname domain_hash (url_host url)),
      record kinds { hostname_hash = true },
    )
    else (result, kinds)
apply_mode domain_mask url result kinds =
    if is_some (scheme url)
    then (
      replace_host result (host_start url) (transform_hostname domain_mask (url_host url)),
      record kinds { hostname_mask = true },
    )
    else (result, kinds)
apply_mode _ url result kinds = (result, kinds)

abbrev pub is_empty : Text → Bool
is_empty [] = true
is_empty (c ∷ s) = false

abbrev pub only_excluded : Redactions
only_excluded = record no_redactions { domain_excluded = true }

unfoldable pub redact_url : Policy → Text → Text × Redactions
unfolding domain_excluded cut_at apply_mode url_host
redact_url p url =
    if not (is_empty (url_host url)) && domain_excluded p (url_host url)
    then ([], only_excluded)
    else let (unfragmented, fragment) = cut_if p.strip_fragment b'#' url in
      let (unqueried, query) = cut_if p.strip_query_string b'?' unfragmented in
      apply_mode p.redaction_mode url unqueried
        (record no_redactions { query_string = query; fragment = fragment })

unfoldable pub dns_by_mode : RedactionMode → Text → Text × Redactions
unfolding transform_hostname
dns_by_mode domain_hash name = (fnv1a_hex name, record no_redactions { hostname_hash = true })
dns_by_mode domain_mask name =
    (transform_hostname domain_mask name, record no_redactions { hostname_mask = true })
dns_by_mode _ name = (name, no_redactions)

unfoldable pub redact_dns_name : Policy → Text → Text × Redactions
unfolding domain_excluded dns_by_mode
redact_dns_name p name =
    if is_empty name
    then ([], no_redactions)
    else if domain_excluded p name
    then ([], only_excluded)
    else dns_by_mode p.redaction_mode name
