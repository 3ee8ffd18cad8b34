-- ===== src/Policy/Engine/Passes.antt =====
-- The two passes of `apply` of src/policy/policy_engine.cpp, over the DNS name and over the URL.
use ezcap.Base.{
  Bool, not, ◌&&◌, ◌||◌, text_eq, text_eq_refl, true, false, [], ◌∷◌, Option, none, some, ◌≡◌, refl,
  ap, inl, inr, arith, if◌then◌else◌, Option-cases, Text, text_eq-eq,
}
use ezcap.Model.Event.{NetworkInfo, BrowserInfo, Redactions}
use ezcap.Policy.Engine.{Pass, dns_pass, url_pass}
use ezcap.Policy.Redactor.{is_empty, redact_url, redact_dns_name}
use ezcap.Policy.Types.{Policy}

-- The network part keeps all but its DNS name, which is redacted.
abbrev pub redacted_network : Policy → Option NetworkInfo → Option NetworkInfo
redacted_network p none = none
redacted_network p (some n) =
    some (record n { dns_query_name = (redact_dns_name p n.dns_query_name).0 })

-- The browser part keeps all but its URL, which is redacted; it goes if nothing is left of a URL.
abbrev pub redacted_browser : Policy → Option BrowserInfo → Option BrowserInfo
redacted_browser p none = none
redacted_browser p (some b) =
    if is_empty b.url
    then some b
    else if is_empty (redact_url p b.url).0
    then none
    else some (record b { url = (redact_url p b.url).0 })

pub empty-nil : (s : Text) → is_empty s ≡ true → s ≡ []
empty-nil [] e = refl
empty-nil (c ∷ s) e = cc

pub redact_dns_name_nil : (p : Policy) (name : Text) → name ≡ [] → (redact_dns_name p name).0 ≡ []
unfolding redact_dns_name
redact_dns_name_nil p name e = ground arith

-- Whether the redactor makes another name or URL of the one that is there.
abbrev pub dns_changed : Policy → Option NetworkInfo → Bool
dns_changed p none = false
dns_changed p (some n) = not (text_eq (redact_dns_name p n.dns_query_name).0 n.dns_query_name)

abbrev pub url_changed : Policy → Option BrowserInfo → Bool
url_changed p none = false
url_changed p (some b) = not (is_empty b.url) && not (text_eq (redact_url p b.url).0 b.url)

-- What the last call of the redactor did: the one on the URL if there is a URL, or else the one on
-- the DNS name if there is one.
abbrev pub dns_kinds : Policy → Option NetworkInfo → Redactions → Redactions
dns_kinds p none before = before
dns_kinds p (some n) before =
    if is_empty n.dns_query_name then before else (redact_dns_name p n.dns_query_name).1

abbrev pub url_kinds : Policy → Option BrowserInfo → Redactions → Redactions
url_kinds p none before = before
url_kinds p (some b) before = if is_empty b.url then before else (redact_url p b.url).1

pub dns_pass_exact :
    (p : Policy) (s : Pass)
    → dns_pass p s ≡ record {
      event = record s.event { network = redacted_network p s.event.network };
      redacted = s.redacted || dns_changed p s.event.network;
      kinds = dns_kinds p s.event.network s.kinds;
    }
unfolding dns_pass
dns_pass_exact p s = elim (Option-cases s.event.network) [
  | inl e ↦ ground arith
  | inr (n, e) ↦ ground (
    arith,
    empty-nil n.dns_query_name,
    empty-nil (redact_dns_name p n.dns_query_name).0,
    redact_dns_name_nil p n.dns_query_name,
    text_eq-eq (redact_dns_name p n.dns_query_name).0 n.dns_query_name,
    text_eq_refl n.dns_query_name,
  )
]

pub url_pass_exact :
    (p : Policy) (s : Pass)
    → url_pass p s ≡ record {
      event = record s.event { browser = redacted_browser p s.event.browser };
      redacted = s.redacted || url_changed p s.event.browser;
      kinds = url_kinds p s.event.browser s.kinds;
    }
unfolding url_pass
url_pass_exact p s = elim (Option-cases s.event.browser) [
  | inl e ↦ ground arith
  | inr (b, e) ↦ ground (
    arith,
    empty-nil (redact_url p b.url).0,
    text_eq-eq (redact_url p b.url).0 b.url,
    text_eq_refl b.url,
  )
]

pub dns_pass_network :
    (p : Policy) (s : Pass)
    → (dns_pass p s).event ≡ record s.event { network = redacted_network p s.event.network }
dns_pass_network p s = ap (λ t. t.event) (dns_pass_exact p s)

pub url_pass_browser :
    (p : Policy) (s : Pass)
    → (url_pass p s).event ≡ record s.event { browser = redacted_browser p s.event.browser }
url_pass_browser p s = ap (λ t. t.event) (url_pass_exact p s)
