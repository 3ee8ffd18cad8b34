-- ===== src/Policy/Redactor/Clean.antt =====
-- The parts of a URL that the policy strips.
use ezcap.Base.{
  ℕ, zero, suc, ◌+◌, ◌-◌, ◌/◌, ◌%◌, ◌^◌, ◌≤◌, ◌<◌, Bool, true, false, not, ◌&&◌, [], ◌∷◌, ◌++◌, ◌≡◌,
  refl, ◌⊎◌, inl, inr, arith, ◌==◌, Bool-cases, Option-cases, is_some, take, drop, replicate, all,
  all-append, all-take, all-drop, Text, Free, find_index, find_from, find_index-none,
  find_index-some, codes, find_text,
}
use ezcap.Model.Event.{Redactions}
use ezcap.Policy.Redactor.{
  hex_digit, hex_digits, fnv1a_hex, mask_end, mask, transform_hostname, is_delimiter, host_start,
  url_host, cut_at, cut_if, cut_path, replace_host, apply_mode, domain_excluded, redact_url,
  is_empty,
}
use ezcap.Policy.Types.{RedactionMode, hostname_only, domain_hash, domain_mask, Policy}

-- The bytes that end a query or a fragment; '/' is not one of them.
abbrev pub is_byte : ℕ → ℕ → Bool
is_byte b c = c == b

module _ (b : ℕ) where
  cut_at-Free : (s : Text) → Free (is_byte b) (cut_at b s).0
  unfolding cut_at
  cut_at-Free s = elim (Option-cases (find_index (is_byte b) s)) [
    | inl e ↦ rw (e, cut_at) (find_index-none _ s e)
    | inr (i, e) ↦ rw (e, cut_at) (find_index-some _ s i e)
  ]

  cut_at-keeps : (p : ℕ → Bool) (s : Text) → Free p s → Free p (cut_at b s).0
  unfolding cut_at
  cut_at-keeps p s h = elim (Option-cases (find_index (is_byte b) s)) [
    | inl e ↦ rw (e, cut_at) h
    | inr (i, e) ↦ rw (e, cut_at) (all-take _ i s h)
  ]

cut_path-keeps : (p : ℕ → Bool) (s : Text) (i : ℕ) → Free p s → Free p (cut_path s i)
unfolding cut_path
cut_path-keeps p s i h = elim (Option-cases (find_from (λ x. x == b'/') s i)) [
  | inl e ↦ rw (e, cut_path) h
  | inr (k, e) ↦ rw (e, cut_path) (all-take _ k s h)
]

replace_host-keeps :
    (p : ℕ → Bool) (s : Text) (i : ℕ) (h : Text) → Free p s → Free p h → Free p (replace_host s i h)
unfolding replace_host
replace_host-keeps p s i h fs fh = elim (Option-cases (find_from is_delimiter s i)) [
  | inl e ↦
      rw (e, replace_host)
        (ground (
          arith,
          all-append (λ c. not (p c)) (take i s) (h ++ []),
          all-append (λ c. not (p c)) h [],
          all-take (λ c. not (p c)) i s fs,
        ))
  | inr (k, e) ↦
      rw (e, replace_host)
        (ground (
          arith,
          all-append (λ c. not (p c)) (take i s) (h ++ drop k s),
          all-append (λ c. not (p c)) h (drop k s),
          all-take (λ c. not (p c)) i s fs,
          all-drop (λ c. not (p c)) k s fs,
        ))
]

all-replicate : (p : ℕ → Bool) (n c : ℕ) → p c ≡ true → all p (replicate n c) ≡ true
all-replicate p zero c h = refl
all-replicate p (suc n) c h = ground (arith, all-replicate p n c)

mask-keeps : (p : ℕ → Bool) (s : Text) → p b'*' ≡ false → Free p s → Free p (mask s)
unfolding mask
mask-keeps p s star h = elim (Option-cases (mask_end s)) [
  | inl e ↦ rw (e, mask) h
  | inr (i, e) ↦
      rw (e, mask)
        (ground (
          arith,
          all-append (λ c. not (p c)) (take 1 s) (replicate (i - 1) b'*' ++ drop i s),
          all-append (λ c. not (p c)) (replicate (i - 1) b'*') (drop i s),
          all-replicate (λ c. not (p c)) (i - 1) b'*',
          all-take (λ c. not (p c)) 1 s h,
          all-drop (λ c. not (p c)) i s h,
        ))
]

-- A hexadecimal digit is none of the bytes below '0' or above 'f'.
hex_digit_bounds : (d : ℕ) → d < 16 → (b'0' ≤ hex_digit d) × (hex_digit d ≤ b'f')
unfolding hex_digit
hex_digit_bounds d h = ground arith

-- The delimiters lie outside the hexadecimal digits.
abbrev IsMark : ℕ → Type 0
IsMark b = (b ≡ b'?') ⊎ (b ≡ b'#')

hex_digit_ne : (b d : ℕ) → d < 16 → IsMark b → (hex_digit d == b) ≡ false
unfolding hex_digit
hex_digit_ne b d h m = ground arith

hex_digits-Free : (b n x : ℕ) → IsMark b → Free (is_byte b) (hex_digits n x)
unfolding hex_digits
hex_digits-Free b zero x m = refl
hex_digits-Free b (suc n) x m = ground (arith, hex_digit_lem, hex_digits-Free b n x)
  where
    hex_digit_lem : (hex_digit (x / 16 ^ n % 16) == b) ≡ false
    hex_digit_lem = ground (arith, hex_digit_ne b (x / 16 ^ n % 16) (omega arith) m)

url_host-Free : (url : Text) → Free is_delimiter (url_host url)
unfolding url_host find_from
url_host-Free url = elim (Option-cases (find_index is_delimiter (drop (host_start url) url))) [
  | inl e ↦ rw (e, url_host, find_from) (find_index-none is_delimiter (drop (host_start url) url) e)
  | inr (k, e) ↦
      let back : host_start url + k - host_start url ≡ k = omega arith in
      rw (e, url_host, find_from, back)
        (find_index-some is_delimiter (drop (host_start url) url) k e)
]

Free-weaken : (b : ℕ) (s : Text) → IsMark b → Free is_delimiter s → Free (is_byte b) s
Free-weaken b [] m h = refl
Free-weaken b (c ∷ s) m h = ground (arith, Free-weaken b s)

transform_hostname-Free :
    (mode : RedactionMode) (b : ℕ) (host : Text)
    → IsMark b
    → Free is_delimiter host
    → Free (is_byte b) (transform_hostname mode host)
unfolding transform_hostname fnv1a_hex
transform_hostname-Free domain_hash b host m h = hex_digits-Free b 16 _ m
transform_hostname-Free domain_mask b host m h =
    mask-keeps (is_byte b) host (ground arith) (Free-weaken b host m h)
transform_hostname-Free _ b host m h = Free-weaken b host m h

apply_mode-Free :
    (mode : RedactionMode) (b : ℕ) (url result : Text) (kinds : Redactions)
    → IsMark b
    → Free (is_byte b) result
    → Free (is_byte b) (apply_mode mode url result kinds).0
unfolding apply_mode
apply_mode-Free hostname_only b url result kinds m h =
    elim (Bool-cases (is_some (find_text (codes "://") url))) [
      | inl e ↦ rw e (cut_path-keeps (is_byte b) result (host_start url) h)
      | inr e ↦ rw e h
    ]
apply_mode-Free domain_hash b url result kinds m h =
    elim (Bool-cases (is_some (find_text (codes "://") url))) [
      | inl e ↦ rw e (
          replace_host-keeps (is_byte b) result (host_start url)
            (transform_hostname domain_hash (url_host url)) h
            (transform_hostname-Free domain_hash b (url_host url) m (url_host-Free url)))
      | inr e ↦ rw e h
    ]
apply_mode-Free domain_mask b url result kinds m h =
    elim (Bool-cases (is_some (find_text (codes "://") url))) [
      | inl e ↦ rw e (
          replace_host-keeps (is_byte b) result (host_start url)
            (transform_hostname domain_mask (url_host url)) h
            (transform_hostname-Free domain_mask b (url_host url) m (url_host-Free url)))
      | inr e ↦ rw e h
    ]
apply_mode-Free _ b url result kinds m h = h

cut_if-Free : (flag : Bool) (b : ℕ) (s : Text) → flag ≡ true → Free (is_byte b) (cut_if flag b s).0
cut_if-Free true b s e = cut_at-Free b s
cut_if-Free false b s e = cc

cut_if-keeps :
    (flag : Bool) (b : ℕ) (p : ℕ → Bool) (s : Text) → Free p s → Free p (cut_if flag b s).0
cut_if-keeps true b p s h = cut_at-keeps b p s h
cut_if-keeps false b p s h = h

is_excluded : Policy → Text → Bool
is_excluded p url = not (is_empty (url_host url)) && domain_excluded p (url_host url)

redact_url_query :
    (p : Policy) (url : Text)
    → p.strip_query_string ≡ true
    → Free (is_byte b'?') (redact_url p url).0
unfolding redact_url is_excluded
redact_url_query p url s = elim (Bool-cases (is_excluded p url)) [
  | inl e ↦ rw e refl
  | inr e ↦ rw e (
      apply_mode-Free p.redaction_mode b'?' url
        (cut_if p.strip_query_string b'?' (cut_if p.strip_fragment b'#' url).0).0 _ (inl refl)
        (cut_if-Free _ b'?' (cut_if p.strip_fragment b'#' url).0 s))
]

redact_url_fragment :
    (p : Policy) (url : Text) → p.strip_fragment ≡ true → Free (is_byte b'#') (redact_url p url).0
unfolding redact_url is_excluded
redact_url_fragment p url s = elim (Bool-cases (is_excluded p url)) [
  | inl e ↦ rw e refl
  | inr e ↦ rw e (
      apply_mode-Free p.redaction_mode b'#' url
        (cut_if p.strip_query_string b'?' (cut_if p.strip_fragment b'#' url).0).0 _ (inr refl)
        (cut_if-keeps p.strip_query_string b'?' (is_byte b'#') (cut_if p.strip_fragment b'#' url).0
          (cut_if-Free p.strip_fragment b'#' url s)))
]

-- A redacted URL holds no '?' if the policy strips query strings, and no '#' if it strips
-- fragments, whatever the URL, the domains and the redaction mode are.
pub redact_url-Free :
    (p : Policy) (url : Text)
    → (p.strip_query_string ≡ true → Free (is_byte b'?') (redact_url p url).0)
      × (p.strip_fragment ≡ true → Free (is_byte b'#') (redact_url p url).0)
redact_url-Free p url = (redact_url_query p url, redact_url_fragment p url)
