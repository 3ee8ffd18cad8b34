-- ===== src/Policy/Engine/Apply.antt =====
-- What `apply` does to an event, as a function of the redactor's two calls, and what it leaves out.
use ezcap.Base.{
  ℕ, ◌⊎◌, ◌||◌, true, false, [], ◌∷◌, Option, none, some, ◌≡◌, ◌≢◌, refl, sym, ap, ◌∙◌, inl, inr,
  arith, if◌then◌else◌, Bool-cases, Text, Free,
}
use ezcap.Model.Event.{Event, NetworkInfo, BrowserInfo, no_redactions, merge}
use ezcap.Policy.Engine.Passes.{
  redacted_network, redacted_browser, dns_changed, url_changed, dns_kinds, url_kinds,
  redact_dns_name_nil, empty-nil, dns_pass_exact, url_pass_exact, dns_pass_network,
  url_pass_browser,
}
use ezcap.Policy.Engine.{Pass, dns_pass, url_pass, start, conclude, apply}
use ezcap.Policy.Redactor.Clean.{is_byte, redact_url-Free}
use ezcap.Policy.Redactor.Domains.{IsUnderSome, redact_url_excluded_iff, redact_dns_name_cases}
use ezcap.Policy.Redactor.{is_empty, url_host, redact_url, redact_dns_name}
use ezcap.Policy.Types.{Policy, drop, redact, allow}

-- What is between the two passes.
abbrev dns_passed : Policy → Event → Pass
dns_passed p e = record {
  event = record e { network = redacted_network p e.network };
  redacted = dns_changed p e.network;
  kinds = dns_kinds p e.network no_redactions;
}

apply_kept :
    (p : Policy) (e : Event)
    → e.privacy.metadata_only ≡ true
    → apply p e ≡ conclude (url_pass p (dns_pass p (start e)))
unfolding apply
apply_kept p e m = ground arith

-- The decision on an event that is metadata only, and the event that comes out: the DNS name is
-- redacted, the URL is redacted, and the whole browser part goes if nothing is left of a URL that
-- was there. The event is marked as redacted, and the decision is to redact, exactly if the redactor
-- changed the name or the URL, and what its last call did is added to the event's redactions. Every
-- other field is the one that came in.
pub apply_exact :
    (p : Policy) (e : Event)
    → e.privacy.metadata_only ≡ true
    → apply p e ≡ (
      if dns_changed p e.network || url_changed p e.browser then redact else allow,
      record e {
        network = redacted_network p e.network;
        browser = redacted_browser p e.browser;
        privacy = record e.privacy {
          redacted = dns_changed p e.network || url_changed p e.browser;
          redactions =
              merge e.privacy.redactions
                (url_kinds p e.browser (dns_kinds p e.network no_redactions));
        };
      },
    )
unfolding conclude
apply_exact p e m =
    apply_kept p e m
    ∙ ap (λ s. conclude (url_pass p s)) (dns_pass_exact p (start e))
    ∙ ap conclude (url_pass_exact p (dns_passed p e))

-- What holds of an event that the engine let through.
pub record IsClean (p : Policy) (e : Event) : Type 0 where
  -- A DNS name that is left comes from a name that is not under a sensitive domain.
  pub dns :
      (n : NetworkInfo)
      → e.network ≡ some n
      → n.dns_query_name ≢ []
      → (name : Text) × (n.dns_query_name ≡ (redact_dns_name p name).0)
        × (¬ IsUnderSome name p.sensitive_domains)
  -- A URL that is left comes from one whose host is not under a sensitive domain.
  pub host :
      (b : BrowserInfo)
      → e.browser ≡ some b
      → b.url ≢ []
      → (url : Text) × (b.url ≡ (redact_url p url).0)
        × (url_host url ≢ [] → ¬ IsUnderSome (url_host url) p.sensitive_domains)
  -- It holds no query and no fragment where the policy strips them.
  pub query :
      (b : BrowserInfo)
      → e.browser ≡ some b
      → p.strip_query_string ≡ true
      → Free (is_byte b'?') b.url
  pub fragment :
      (b : BrowserInfo) → e.browser ≡ some b → p.strip_fragment ≡ true → Free (is_byte b'#') b.url

-- The URL of a browser part that the engine leaves is empty or a redacted one.
browser_url :
    (p : Policy) (o : Option BrowserInfo) (b : BrowserInfo)
    → redacted_browser p o ≡ some b
    → (b.url ≡ []) ⊎ ((url : Text) × (b.url ≡ (redact_url p url).0))
browser_url p none b e = cc
browser_url p (some a) b e = elim (Bool-cases (is_empty a.url)) [
  | inl h ↦ inl (ground (arith, empty-nil a.url h))
  | inr h ↦ inr (a.url, ground arith)
]

network_dns :
    (p : Policy) (o : Option NetworkInfo) (n : NetworkInfo)
    → redacted_network p o ≡ some n
    → (name : Text) × (n.dns_query_name ≡ (redact_dns_name p name).0)
network_dns p none n e = cc
network_dns p (some a) n e = (a.dns_query_name, ground arith)

kept_name :
    (p : Policy) (name : Text)
    → (redact_dns_name p name).0 ≢ []
    → ¬ IsUnderSome name p.sensitive_domains
kept_name p [] ne u = ne (redact_dns_name_nil p [] refl)
kept_name p (c ∷ s) ne u = ne (ap (λ r. r.0) ((redact_dns_name_cases p (c ∷ s) (λ e. cc)).0 u))

kept_url :
    (p : Policy) (url : Text)
    → (redact_url p url).0 ≢ []
    → url_host url ≢ []
    → ¬ IsUnderSome (url_host url) p.sensitive_domains
kept_url p url ne h u = let iff = redact_url_excluded_iff p url in ne (iff.1 (iff.0.1 (h, u)))

url-Free :
    (p : Policy) (b : ℕ) (o : Option BrowserInfo) (r : BrowserInfo)
    → redacted_browser p o ≡ some r
    → ((url : Text) → Free (is_byte b) (redact_url p url).0)
    → Free (is_byte b) r.url
url-Free p b o r e h = elim (browser_url p o r e) [
  | inl empty ↦ rw empty
  | inr (url, same) ↦ rw same (h url)
]

kept_metadata : (p : Policy) (e : Event) → (apply p e).0 ≢ drop → e.privacy.metadata_only ≡ true
unfolding apply
kept_metadata p e kept = elim (Bool-cases e.privacy.metadata_only) [
  | inl m ↦ m
  | inr m ↦ absurd (kept (rw m))
]

module _ (p : Policy) (e : Event) (kept : (apply p e).0 ≢ drop) where
  out_network : redacted_network p e.network ≡ (apply p e).1.network
  out_network = sym (ap (λ o. o.1.network) (apply_exact p e (kept_metadata p e kept)))

  out_browser : redacted_browser p e.browser ≡ (apply p e).1.browser
  out_browser = sym (ap (λ o. o.1.browser) (apply_exact p e (kept_metadata p e kept)))

-- In an event that `apply` does not drop, a DNS name or URL that is left is what the redactor makes
-- of one that is not under a sensitive domain, as it reads the host of a URL, and the URL has no
-- query or fragment where the policy strips them.
pub apply-IsClean : (p : Policy) (e : Event) → (apply p e).0 ≢ drop → IsClean p (apply p e).1
apply-IsClean p e kept = record {
  dns = λ n found ne.
      let (name, same) = network_dns p e.network n (out_network p e kept ∙ found) in
      (name, same, kept_name p name (λ h. ne (same ∙ h)));
  host = λ b found ne. elim (browser_url p e.browser b (out_browser p e kept ∙ found)) [
    | inl empty ↦ absurd (ne empty)
    | inr (url, same) ↦ (url, same, kept_url p url (λ h. ne (same ∙ h)))
  ];
  query = λ b found s.
      url-Free p b'?' e.browser b (out_browser p e kept ∙ found)
        (λ url. (redact_url-Free p url).0 s);
  fragment = λ b found s.
      url-Free p b'#' e.browser b (out_browser p e kept ∙ found)
        (λ url. (redact_url-Free p url).1 s);
}

dns_pass-browser : (p : Policy) (s : Pass) → (dns_pass p s).event.browser ≡ s.event.browser
dns_pass-browser p s = ap (λ o. o.browser) (dns_pass_network p s)

dns_pass-privacy : (p : Policy) (s : Pass) → (dns_pass p s).event.privacy ≡ s.event.privacy
dns_pass-privacy p s = ap (λ o. o.privacy) (dns_pass_network p s)

url_pass-kinds :
    (p : Policy) (s : Pass) (b : BrowserInfo)
    → s.event.browser ≡ some b
    → b.url ≢ []
    → (url_pass p s).kinds ≡ (redact_url p b.url).1
unfolding url_pass
url_pass-kinds p s b e ne = elim (Bool-cases (is_empty b.url)) [
  | inl h ↦ absurd (ne (empty-nil b.url h))
  | inr h ↦ ground arith
]

url_pass-privacy : (p : Policy) (s : Pass) → (url_pass p s).event.privacy ≡ s.event.privacy
url_pass-privacy p s = ap (λ o. o.privacy) (url_pass_browser p s)

-- The annotations of an event with a URL are those of its URL alone: what the redactor did to the
-- DNS name of the same event is not recorded.
pub apply_kinds_url :
    (p : Policy) (e : Event) (b : BrowserInfo)
    → e.privacy.metadata_only ≡ true
    → e.browser ≡ some b
    → b.url ≢ []
    → (apply p e).1.privacy.redactions ≡ merge e.privacy.redactions (redact_url p b.url).1
unfolding apply conclude
apply_kinds_url p e b m f ne = ground (
  arith,
  dns_pass-browser p (start e),
  dns_pass-privacy p (start e),
  url_pass-kinds p (dns_pass p (start e)) b,
  url_pass-privacy p (dns_pass p (start e)),
)

-- So an event that loses the name of a sensitive domain can say that no domain was excluded: that is
-- so whenever it also carries a URL of another host, and had no such note before.
pub apply_loses_excluded :
    (p : Policy) (e : Event) (n : NetworkInfo) (b : BrowserInfo)
    → e.privacy.metadata_only ≡ true
    → e.network ≡ some n
    → n.dns_query_name ≢ []
    → IsUnderSome n.dns_query_name p.sensitive_domains
    → e.browser ≡ some b
    → b.url ≢ []
    → ¬ IsUnderSome (url_host b.url) p.sensitive_domains
    → e.privacy.redactions.domain_excluded ≡ false
    → ((apply p e).1.network ≡ some (record n { dns_query_name = [] }))
      × ((apply p e).1.privacy.redactions.domain_excluded ≡ false)
unfolding merge
apply_loses_excluded p e n b m en ne u eb nb clean old = (
  ground (arith, apply_exact p e m, (redact_dns_name_cases p n.dns_query_name ne).0 u),
  ground (arith, apply_kinds_url p e b m eb nb, not_flagged),
)
  where
    not_flagged : (redact_url p b.url).1.domain_excluded ≡ false
    not_flagged = elim (Bool-cases (redact_url p b.url).1.domain_excluded) [
      | inl f ↦ absurd (clean (((redact_url_excluded_iff p b.url).0.0 f).1))
      | inr f ↦ f
    ]
