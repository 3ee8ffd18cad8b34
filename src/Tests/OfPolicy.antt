-- ===== src/Tests/OfPolicy.antt =====
-- A policy with a sensitive domain, and events that visit it.
use ezcap.Base.{
  true, false, [], ◌∷◌, none, some, Text, codes, ◌≡◌, ◌≢◌, refl, ◌↔◌, Free, arith, text_eq,
  if◌then◌else◌, ◌||◌,
}
use ezcap.Model.Event.{Event, NetworkInfo, BrowserInfo, merge, no_redactions, new_event}
use ezcap.Model.EventTypes.{udp, outbound, pcap, dns}
use ezcap.Policy.Types.{Policy, default_policy, redact, allow}
use ezcap.Policy.Redactor.{redact_url, redact_dns_name, domain_excluded, url_host}
use ezcap.Policy.Redactor.Clean.{is_byte, redact_url-Free}
use ezcap.Policy.Redactor.Domains.{IsUnderSome, domain_excluded_iff, redact_url_excluded_iff}
use ezcap.Policy.Redactor.Ports.{redact_url_port_bypass}
use ezcap.Policy.Engine.{apply}
use ezcap.Policy.Engine.Passes.{
  redacted_network, redacted_browser, dns_changed, url_changed, dns_kinds, url_kinds,
}
use ezcap.Policy.Engine.Apply.{apply_exact, IsClean, apply-IsClean, apply_loses_excluded}

abbrev strict : Policy
strict = record default_policy { sensitive_domains = codes "bank.com" ∷ [] }

abbrev search_url : Text
search_url = codes "https://a.org/x?q=1#top"

redact_url-Free_example :
    (true ≡ true → Free (is_byte b'?') (redact_url strict search_url).0)
    × (true ≡ true → Free (is_byte b'#') (redact_url strict search_url).0)
redact_url-Free_example = redact_url-Free strict search_url

abbrev bank_url : Text
bank_url = codes "https://www.bank.com/account"

redact_url_excluded_example :
    (((redact_url strict bank_url).1.domain_excluded ≡ true)
      ↔ ((url_host bank_url ≢ []) × IsUnderSome (url_host bank_url) (codes "bank.com" ∷ [])))
    × ((redact_url strict bank_url).1.domain_excluded ≡ true → (redact_url strict bank_url).0 ≡ [])
redact_url_excluded_example = redact_url_excluded_iff strict bank_url

abbrev port_url : Text
port_url = codes "https://bank.com:443/account"

redact_url_port_bypass_example : (redact_url strict port_url).1.domain_excluded ≡ false
unfolding url_host
redact_url_port_bypass_example =
    redact_url_port_bypass strict port_url (codes "bank.com") (codes "443") refl refl (refl, tt)

abbrev query : NetworkInfo
query = record {
  transport = udp;
  direction = outbound;
  local_address = codes "10.0.0.2";
  local_port = 40000;
  remote_address = codes "10.0.0.1";
  remote_port = 53;
  dns_query_name = codes "bank.com";
  dns_response_code = none;
  interface = codes "eth0";
  backend = pcap;
}

abbrev page : BrowserInfo
page = record {
  tab_id = 7;
  window_id = 1;
  url = search_url;
  title = [];
  navigation_id = [];
  frame_id = 0;
}

abbrev visit : Event
visit = record new_event { type = dns; network = some query; browser = some page }

apply_exact_example : apply strict visit ≡ (
  if dns_changed strict (some query) || url_changed strict (some page) then redact else allow,
  record visit {
    network = redacted_network strict (some query);
    browser = redacted_browser strict (some page);
    privacy = record visit.privacy {
      redacted = dns_changed strict (some query) || url_changed strict (some page);
      redactions =
          merge visit.privacy.redactions
            (url_kinds strict (some page) (dns_kinds strict (some query) no_redactions));
    };
  },
)
apply_exact_example = apply_exact strict visit refl

visit-redact : (apply strict visit).0 ≡ redact
unfolding apply ezcap.Policy.Engine.conclude ezcap.Policy.Engine.url_pass
    ezcap.Policy.Engine.dns_pass redact_dns_name text_eq redact_url
visit-redact = refl

apply-IsClean_example : IsClean strict (apply strict visit).1
apply-IsClean_example = apply-IsClean strict visit (ground (arith, visit-redact))

bank-IsUnder : IsUnderSome (codes "bank.com") (codes "bank.com" ∷ [])
unfolding domain_excluded text_eq
bank-IsUnder = (domain_excluded_iff strict (codes "bank.com")).0 refl

search-not-excluded : domain_excluded strict (url_host search_url) ≡ false
unfolding domain_excluded text_eq url_host
search-not-excluded = refl

apply_loses_excluded_example :
    ((apply strict visit).1.network ≡ some (record query { dns_query_name = [] }))
    × ((apply strict visit).1.privacy.redactions.domain_excluded ≡ false)
apply_loses_excluded_example =
    apply_loses_excluded strict visit query page refl refl (ground arith) bank-IsUnder refl
      (ground arith)
      (λ u.
        ground (arith, (domain_excluded_iff strict (url_host search_url)).1 u, search-not-excluded))
      refl
