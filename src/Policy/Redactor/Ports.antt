-- ===== src/Policy/Redactor/Ports.antt =====
-- A port in a URL and the test for sensitive domains.
use mathlib.Core.List.{map-append}
use ezcap.Base.{
  ℕ, Bool, true, false, not, ◌&&◌, List, [], ◌∷◌, ◌++◌, ◌≡◌, ◌≢◌, refl, sym, ap, ◌∙◌, inl, inr,
  arith, leb, ◌==◌, Bool-cases, all, all-append, Text, Free, lower_byte,
}
use ezcap.Policy.Redactor.Domains.{IsUnderSome, redact_url_excluded_iff}
use ezcap.Policy.Redactor.{to_lower, url_host, redact_url}
use ezcap.Policy.Types.{Policy}

abbrev is_colon : ℕ → Bool
is_colon c = c == b':'

abbrev is_digit : ℕ → Bool
is_digit c = leb b'0' c && leb c b'9'

lower-digits : (s : Text) → all is_digit s ≡ true → all is_digit (to_lower s) ≡ true
unfolding to_lower
lower-digits [] h = refl
lower-digits (c ∷ s) h = ground (arith, lower-digits s)

lower-Free : (s : Text) → Free is_colon s → Free is_colon (to_lower s)
unfolding to_lower
lower-Free [] h = refl
lower-Free (c ∷ s) h = ground (arith, lower-Free s)

-- A colon that is followed by digits alone is not inside a dot and a text without colons.
colon_apart :
    (front back port e : Text)
    → all is_digit port ≡ true
    → Free is_colon e
    → front ++ (b':' ∷ port) ≢ back ++ (b'.' ∷ e)
colon_apart [] [] port e d f eq = ground arith
colon_apart [] (c ∷ back) port e d f eq = ground (arith, all-append is_digit back (b'.' ∷ e))
colon_apart (x ∷ front) [] port e d f eq =
    ground (arith, all-append (λ c. not (is_colon c)) front (b':' ∷ port))
colon_apart (x ∷ front) (c ∷ back) port e d f eq = ground (arith, colon_apart front back port e)

abbrev pub AllFree : List Text → Type 0
AllFree [] = Unit {0}
AllFree (d ∷ ds) = Free is_colon d × AllFree ds

to_lower_host :
    (d port : Text) → to_lower (d ++ (b':' ∷ port)) ≡ to_lower d ++ (b':' ∷ to_lower port)
unfolding to_lower lower_byte
to_lower_host d port = map-append _ d (b':' ∷ port)

port_not_domain :
    (d port e : Text) → Free is_colon e → ¬ (to_lower (d ++ (b':' ∷ port)) ≡ to_lower e)
port_not_domain d port e f eq = ground (
  arith,
  lower-Free e f,
  to_lower_host d port,
  all-append (λ c. not (is_colon c)) (to_lower d) (b':' ∷ to_lower port),
  ap (λ t. all (λ c. not (is_colon c)) t) (sym (to_lower_host d port) ∙ eq),
)

port_not_under :
    (d port : Text) (ds : List Text)
    → all is_digit port ≡ true
    → AllFree ds
    → ¬ IsUnderSome (d ++ (b':' ∷ port)) ds
port_not_under d port [] digits fs u = u
port_not_under d port (e ∷ ds) digits fs (inl (inl eq)) = port_not_domain d port e fs.0 eq
port_not_under d port (e ∷ ds) digits fs (inl (inr (back, eq))) =
    colon_apart (to_lower d) back (to_lower port) (to_lower e) (lower-digits port digits)
      (lower-Free e fs.0) (sym (to_lower_host d port) ∙ eq)
port_not_under d port (e ∷ ds) digits fs (inr u) = port_not_under d port ds digits fs.1 u

-- An explicit port hides a sensitive domain: where no configured domain holds a colon, a URL whose
-- host part ends in ':' and digits is never reported as excluded, whatever comes before the colon.
pub redact_url_port_bypass :
    (p : Policy) (url host port : Text)
    → url_host url ≡ host ++ (b':' ∷ port)
    → all is_digit port ≡ true
    → AllFree p.sensitive_domains
    → (redact_url p url).1.domain_excluded ≡ false
redact_url_port_bypass p url host port e digits fs =
    elim (Bool-cases (redact_url p url).1.domain_excluded) [
      | inl f ↦ absurd (
          port_not_under host port p.sensitive_domains digits fs
            (rw e at (((redact_url_excluded_iff p url).0.0 f).1)))
      | inr f ↦ f
    ]
