-- ===== src/Policy/Redactor/Domains.antt =====
-- When the redactor takes a host for a sensitive one.
use ezcap.Base.{
  ℕ, zero, suc, ◌+◌, ◌-◌, ◌<◌, Bool, true, false, not, ◌&&◌, List, [], ◌∷◌, ◌++◌, some, ◌≡◌, ◌≢◌,
  ◌↔◌, refl, sym, ap, ◌∙◌, ◌⊎◌, inl, inr, arith, Bool-cases, length, length-append, get_elem?, take,
  drop, take-append-drop, any, Text, text_eq, text_eq-eq, text_eq_refl,
}
use ezcap.Model.Event.{Redactions}
use ezcap.Policy.Redactor.{
  dot_before, host_under_domain, to_lower, domain_excluded, url_host, is_empty, apply_mode,
  dns_by_mode, only_excluded, redact_url, redact_dns_name,
}
use ezcap.Policy.Types.{RedactionMode, hostname_only, domain_hash, domain_mask, Policy}

-- The host is the domain, or ends in a dot and the domain.
abbrev pub IsUnder : Text → Text → Type 0
IsUnder host domain = (host ≡ domain) ⊎ ((front : Text) × (host ≡ front ++ (b'.' ∷ domain)))

drop-get_elem? : (s : Text) (n c : ℕ) → get_elem? s n ≡ some c → drop n s ≡ c ∷ drop (suc n) s
drop-get_elem? [] n c h = cc
drop-get_elem? (x ∷ s) zero c h = ground arith
drop-get_elem? (x ∷ s) (suc n) c h = drop-get_elem? s n c h

get_elem?-length : (s t : Text) (c : ℕ) → get_elem? (s ++ c ∷ t) (length s) ≡ some c
get_elem?-length [] t c = refl
get_elem?-length (x ∷ s) t c = get_elem?-length s t c

drop-suc : (s : Text) (c : ℕ) (t : Text) → drop (suc (length s)) (s ++ c ∷ t) ≡ t
drop-suc [] c t = refl
drop-suc (x ∷ s) c t = drop-suc s c t

split_at_dot :
    (h d : Text) (n : ℕ)
    → length h ≡ suc (n + length d)
    → drop (suc n) h ≡ d
    → get_elem? h n ≡ some b'.'
    → h ≡ take n h ++ (b'.' ∷ d)
split_at_dot h d n len e g =
    sym (take-append-drop n h) ∙ ap (◌++◌ (take n h)) (drop-get_elem? h n b'.' g ∙ ap (◌∷◌ b'.') e)

dot_before-dot :
    (h d : Text) → dot_before h d ≡ true → get_elem? h (length h - length d - 1) ≡ some b'.'
dot_before-dot h d e = ground arith

under_parts :
    (h d : Text)
    → text_eq h d ≡ false
    → host_under_domain h d ≡ true
    → (length d < length h)
      × (text_eq (drop (length h - length d) h) d ≡ true)
      × (get_elem? h (length h - length d - 1) ≡ some b'.')
unfolding host_under_domain
under_parts h d differ e = ground arith

host_under_domain-IsUnder : (h d : Text) → host_under_domain h d ≡ true → IsUnder h d
host_under_domain-IsUnder h d e = elim (Bool-cases (text_eq h d)) [
  | inl same ↦ inl (text_eq-eq h d same)
  | inr differ ↦
      let (longer, tail, dot) = under_parts h d differ e in
      let n : ℕ = length h - length d - 1 in
      let next : suc n ≡ length h - length d = omega arith in
      inr (
        take n h,
        split_at_dot h d n (omega arith)
            (ap (λ k. drop k h) next ∙ text_eq-eq (drop (length h - length d) h) d tail) dot,
      )
]

front-under : (front d : Text) → host_under_domain (front ++ (b'.' ∷ d)) d ≡ true
unfolding host_under_domain
front-under front d =
    let size : length (front ++ (b'.' ∷ d)) ≡ suc (length front + length d) =
      omega (arith, length-append front (b'.' ∷ d)) in
    let from : length (front ++ (b'.' ∷ d)) - length d ≡ suc (length front) = omega arith in
    let at : length (front ++ (b'.' ∷ d)) - length d - 1 ≡ length front = omega arith in
    ground (
      arith,
      ap (λ k. drop k (front ++ (b'.' ∷ d))) from,
      ap (λ k. get_elem? (front ++ (b'.' ∷ d)) k) at,
      drop-suc front (b'.') d,
      get_elem?-length front d b'.',
      text_eq_refl d,
    )

IsUnder-under : (h d : Text) → IsUnder h d → host_under_domain h d ≡ true
unfolding host_under_domain
IsUnder-under h d (inl e) = ground (arith, text_eq_refl h)
IsUnder-under h d (inr (front, e)) = ap (λ t. host_under_domain t d) e ∙ front-under front d

-- The host is under one of the domains, letter case aside.
abbrev pub IsUnderSome : Text → List Text → Type 0
IsUnderSome host [] = ⊥
IsUnderSome host (d ∷ ds) = IsUnder (to_lower host) (to_lower d) ⊎ IsUnderSome host ds

abbrev any_domain : Text → List Text → Bool
any_domain host ds = any (λ domain. host_under_domain (to_lower host) (to_lower domain)) ds

any-IsUnderSome : (h : Text) (ds : List Text) → any_domain h ds ≡ true → IsUnderSome h ds
any-IsUnderSome h [] e = cc
any-IsUnderSome h (d ∷ ds) e = elim (Bool-cases (host_under_domain (to_lower h) (to_lower d))) [
  | inl hit ↦ inl (host_under_domain-IsUnder (to_lower h) (to_lower d) hit)
  | inr miss ↦ inr (any-IsUnderSome h ds (ground arith))
]

IsUnderSome-any : (h : Text) (ds : List Text) → IsUnderSome h ds → any_domain h ds ≡ true
IsUnderSome-any h [] u = absurd u
IsUnderSome-any h (d ∷ ds) (inl u) = rw (IsUnder-under (to_lower h) (to_lower d) u)
IsUnderSome-any h (d ∷ ds) (inr u) = ground (arith, IsUnderSome-any h ds u)

-- A host is excluded exactly when, letter case aside, it is a sensitive domain or ends in a dot
-- and a sensitive domain.
pub domain_excluded_iff :
    (p : Policy) (host : Text)
    → (domain_excluded p host ≡ true) ↔ IsUnderSome host p.sensitive_domains
unfolding domain_excluded
domain_excluded_iff p host =
    (any-IsUnderSome host p.sensitive_domains, IsUnderSome-any host p.sensitive_domains)

apply_mode_excluded :
    (mode : RedactionMode) (url result : Text) (kinds : Redactions)
    → (apply_mode mode url result kinds).1.domain_excluded ≡ kinds.domain_excluded
unfolding apply_mode
apply_mode_excluded hostname_only url result kinds = ground arith
apply_mode_excluded domain_hash url result kinds = ground arith
apply_mode_excluded domain_mask url result kinds = ground arith
apply_mode_excluded _ url result kinds = refl

is_empty-nil : (s : Text) → is_empty s ≡ true → s ≡ []
is_empty-nil [] e = refl
is_empty-nil (c ∷ s) e = cc

nil-is_empty : (s : Text) → s ≢ [] → is_empty s ≡ false
nil-is_empty [] ne = absurd (ne refl)
nil-is_empty (c ∷ s) ne = refl

not_empty : (s : Text) → is_empty s ≡ false → s ≢ []
not_empty [] h e = cc
not_empty (c ∷ s) h e = cc

-- The flag of `redact_url` is its test.
redact_url_flag :
    (p : Policy) (url : Text)
    → (redact_url p url).1.domain_excluded
      ≡ (not (is_empty (url_host url)) && domain_excluded p (url_host url))
unfolding redact_url
redact_url_flag p url =
    elim (Bool-cases (not (is_empty (url_host url)) && domain_excluded p (url_host url))) [
      | inl e ↦ rw e refl
      | inr e ↦ rw e (apply_mode_excluded p.redaction_mode url _ _)
    ]

redact_url_nil :
    (p : Policy) (url : Text)
    → (redact_url p url).1.domain_excluded ≡ true
    → (redact_url p url).0 ≡ []
unfolding redact_url
redact_url_nil p url f =
    let e : (not (is_empty (url_host url)) && domain_excluded p (url_host url)) ≡ true =
      sym (redact_url_flag p url) ∙ f in
    rw e refl

-- The redactor reports a URL as excluded exactly when the URL has a host that is sensitive, and
-- then the text that it returns is empty.
pub redact_url_excluded_iff :
    (p : Policy) (url : Text)
    → (((redact_url p url).1.domain_excluded ≡ true)
        ↔ ((url_host url ≢ []) × IsUnderSome (url_host url) p.sensitive_domains))
      × ((redact_url p url).1.domain_excluded ≡ true → (redact_url p url).0 ≡ [])
redact_url_excluded_iff p url = ((to, from), redact_url_nil p url)
  where
    to :
        (redact_url p url).1.domain_excluded ≡ true
        → (url_host url ≢ []) × IsUnderSome (url_host url) p.sensitive_domains
    to f =
        let e : (not (is_empty (url_host url)) && domain_excluded p (url_host url)) ≡ true =
          sym (redact_url_flag p url) ∙ f in
        let sensitive : domain_excluded p (url_host url) ≡ true = ground arith in
        (
          not_empty (url_host url) (ground arith),
          (domain_excluded_iff p (url_host url)).0 sensitive,
        )

    from :
        (url_host url ≢ []) × IsUnderSome (url_host url) p.sensitive_domains
        → (redact_url p url).1.domain_excluded ≡ true
    from (ne, u) = ground (
      arith,
      redact_url_flag p url,
      nil-is_empty (url_host url) ne,
      (domain_excluded_iff p (url_host url)).1 u,
    )

dns_by_mode_excluded :
    (mode : RedactionMode) (name : Text) → (dns_by_mode mode name).1.domain_excluded ≡ false
unfolding dns_by_mode
dns_by_mode_excluded domain_hash name = refl
dns_by_mode_excluded domain_mask name = refl
dns_by_mode_excluded _ name = refl

-- A DNS name under a sensitive domain is returned as the empty text and reported as excluded; any
-- other name that is not empty is not reported as excluded, and is returned unchanged in the
-- modes that leave host names alone.
pub redact_dns_name_cases :
    (p : Policy) (name : Text)
    → name ≢ []
    → ((IsUnderSome name p.sensitive_domains) → redact_dns_name p name ≡ ([], only_excluded))
      × (¬ (IsUnderSome name p.sensitive_domains)
          → ((redact_dns_name p name).1.domain_excluded ≡ false)
            × (p.redaction_mode ≢ domain_hash
                → p.redaction_mode ≢ domain_mask
                → (redact_dns_name p name).0 ≡ name))
unfolding redact_dns_name dns_by_mode
redact_dns_name_cases p name ne = (
  λ u. ground (arith, nil-is_empty name ne, (domain_excluded_iff p name).1 u),
  λ nu.
      let out : domain_excluded p name ≡ false = elim (Bool-cases (domain_excluded p name)) [
        | inl e ↦ absurd (nu ((domain_excluded_iff p name).0 e))
        | inr e ↦ e
      ] in
      (
        ground (arith, nil-is_empty name ne, dns_by_mode_excluded p.redaction_mode name),
        λ nh nm. ground (arith, nil-is_empty name ne),
      ),
)
