-- ===== src/Daemon/Requests/Update.antt =====
-- The engine's update against the patch that the document is.
use ezcap.Base.Json.{Json}
use ezcap.Base.Result.{Result, ok, err, ◌>>=◌, ◌>>◌, require}
use ezcap.Base.{
  ℕ, Bool, true, false, ◌&&◌, List, Option, none, some, ◌≡◌, refl, ap, ◌∙◌, arith, Text, codes,
  Bool-cases, Option-cases, inl, inr,
}
use ezcap.Policy.Engine.{
  check_metadata_only, update_mode, update_domains, update_redaction, update_enabled,
  update_retention, update_persistence, update_from_json,
}
use ezcap.Policy.Types.{Policy, RedactionMode}
use ezcap.Daemon.Requests.Patch.{
  or_else, put, put_redaction, put_persistence, to_option, on_some, both, when, setting, mode_of,
  domains_of, retention_of, is_metadata_only, redaction_of, persistence_of, read_patch,
}

module _ (js : Json) where
  open js use {Value, is_object, member, as_bool}

  update_mode-setting :
      (p : Policy) (red : Value)
      → to_option (update_mode js p red)
        ≡ on_some
            (setting js (member red (codes "mode")) (mode_of js))
            (λ m. some (record p { redaction_mode = or_else m p.redaction_mode }))
  unfolding update_mode
  update_mode-setting p red = ground arith

  update_domains-setting :
      (p : Policy) (red : Value)
      → to_option (update_domains js p red)
        ≡ on_some
            (setting js (member red (codes "sensitive_domains")) (domains_of js))
            (λ m. some (record p { sensitive_domains = or_else m p.sensitive_domains }))
  unfolding update_domains
  update_domains-setting p red = ground arith

  update_enabled-setting :
      (p : Policy) (persist : Value)
      → to_option (update_enabled js p persist)
        ≡ on_some
            (setting js (member persist (codes "enabled")) as_bool)
            (λ m. some (record p { persistence_enabled = or_else m p.persistence_enabled }))
  unfolding update_enabled
  update_enabled-setting p persist = ground arith

  update_retention-setting :
      (p : Policy) (persist : Value)
      → to_option (update_retention js p persist)
        ≡ on_some
            (setting js (member persist (codes "retention_seconds")) (retention_of js))
            (λ m. some (record p { retention = or_else m p.retention }))
  unfolding update_retention
  update_retention-setting p persist = ground arith

pub to_option-ok : {A : Type 0} (r : Result Text A) {a : A} → to_option r ≡ some a → r ≡ ok a
to_option-ok (ok b) h = cc
to_option-ok (err e) h = cc

to_option-bind-none :
    {A B : Type 0} (r : Result Text A) (f : A → Result Text B)
    → to_option r ≡ none
    → to_option (r >>= f) ≡ none
to_option-bind-none (ok b) f h = cc
to_option-bind-none (err e) f h = refl

to_option-require :
    {B : Type 0} (t : Bool) (e : Text) (k : Result Text B)
    → to_option (require t e >> k) ≡ when t (to_option k)
to_option-require true e k = refl
to_option-require false e k = refl

-- Two changes, one after the other.
to_option-two :
    {A B : Type 0} (p : Policy) (f g : Policy → Result Text Policy) (m : Option A) (n : Option B)
    (pf : A → Policy → Policy) (pg : B → Policy → Policy)
    → to_option (f p) ≡ on_some m (λ a. some (pf a p))
    → ((q : Policy) → to_option (g q) ≡ on_some n (λ b. some (pg b q)))
    → to_option (f p >>= g) ≡ on_some m (λ a. on_some n (λ b. some (pg b (pf a p))))
to_option-two p f g none n pf pg hf hg = to_option-bind-none (f p) g hf
to_option-two p f g (some a) n pf pg hf hg = rw (to_option-ok (f p) hf) (hg (pf a p))

on_some-both :
    {A B C : Type 0} (m : Option A) (n : Option B) (f : A → B → Option C)
    → on_some m (λ a. on_some n (λ b. f a b)) ≡ on_some (both m n) (λ (a, b). f a b)
on_some-both none n f = refl
on_some-both (some a) none f = refl
on_some-both (some a) (some b) f = refl

patched :
    (p : Policy) (a b : Bool) (m : Option (Option RedactionMode × Option (List Text)))
    (n : Option (Option Bool × Option ℕ))
    → when a
        (when b (on_some m (λ x. on_some n (λ y. some (put_persistence y (put_redaction x p))))))
      ≡ on_some
          (when (a && b) (
            on_some m (λ (mode, domains). on_some n (λ (enabled, retention). some (record {
              mode = mode;
              domains = domains;
              enabled = enabled;
              retention = retention;
            })))))
          (λ q. some (put q p))
patched p false b m n = refl
patched p true false m n = refl
patched p true true none n = refl
patched p true true (some x) none = refl
patched p true true (some x) (some y) = refl

module _ (js : Json) where
  open js use {Value, is_object, member, as_bool}

  module _ (p : Policy) (doc : Value) where
    redaction-absent : member doc (codes "redaction") ≡ none → update_redaction js p doc ≡ ok p
    unfolding update_redaction
    redaction-absent m = ground arith

    redaction-other :
        (red : Value)
        → member doc (codes "redaction") ≡ some red
        → is_object red ≡ false
        → to_option (update_redaction js p doc) ≡ none
    unfolding update_redaction
    redaction-other red m o = ground arith

    redaction-object :
        (red : Value)
        → member doc (codes "redaction") ≡ some red
        → is_object red ≡ true
        → update_redaction js p doc
          ≡ (update_mode js p red >>= λ moded. update_domains js moded red)
    unfolding update_redaction
    redaction-object red m o = ground arith

    persistence-absent :
        member doc (codes "persistence") ≡ none → update_persistence js p doc ≡ ok p
    unfolding update_persistence
    persistence-absent m = ground arith

    persistence-other :
        (persist : Value)
        → member doc (codes "persistence") ≡ some persist
        → is_object persist ≡ false
        → to_option (update_persistence js p doc) ≡ none
    unfolding update_persistence
    persistence-other persist m o = ground arith

    persistence-object :
        (persist : Value)
        → member doc (codes "persistence") ≡ some persist
        → is_object persist ≡ true
        → update_persistence js p doc
          ≡ (update_enabled js p persist >>= λ enabled. update_retention js enabled persist)
    unfolding update_persistence
    persistence-object persist m o = ground arith

  update_redaction-settings :
      (p : Policy) (doc : Value)
      → to_option (update_redaction js p doc)
        ≡ on_some (redaction_of js doc) (λ s. some (put_redaction s p))
  unfolding redaction_of
  update_redaction-settings p doc = elim (Option-cases (member doc (codes "redaction"))) [
    | inl m ↦ rw (redaction-absent p doc m, m) refl
    | inr (red, m) ↦ elim (Bool-cases (is_object red)) [
      | inr o ↦ rw (redaction-other p doc red m o, m, o) refl
      | inl o ↦
          rw (redaction-object p doc red m o, m, o)
            (to_option-two p (λ q. update_mode js q red) (λ q. update_domains js q red)
                (setting js (member red (codes "mode")) (mode_of js))
                (setting js (member red (codes "sensitive_domains")) (domains_of js))
                (λ m q. record q { redaction_mode = or_else m q.redaction_mode })
                (λ n q. record q { sensitive_domains = or_else n q.sensitive_domains })
                (update_mode-setting js p red) (λ q. update_domains-setting js q red)
              ∙ on_some-both (setting js (member red (codes "mode")) (mode_of js))
                  (setting js (member red (codes "sensitive_domains")) (domains_of js))
                  (λ m n. some (put_redaction (m, n) p)))
    ]
  ]

  update_persistence-settings :
      (p : Policy) (doc : Value)
      → to_option (update_persistence js p doc)
        ≡ on_some (persistence_of js doc) (λ s. some (put_persistence s p))
  unfolding persistence_of
  update_persistence-settings p doc = elim (Option-cases (member doc (codes "persistence"))) [
    | inl m ↦ rw (persistence-absent p doc m, m) refl
    | inr (persist, m) ↦ elim (Bool-cases (is_object persist)) [
      | inr o ↦ rw (persistence-other p doc persist m o, m, o) refl
      | inl o ↦
          rw (persistence-object p doc persist m o, m, o)
            (to_option-two p (λ q. update_enabled js q persist) (λ q. update_retention js q persist)
                (setting js (member persist (codes "enabled")) as_bool)
                (setting js (member persist (codes "retention_seconds")) (retention_of js))
                (λ m q. record q { persistence_enabled = or_else m q.persistence_enabled })
                (λ n q. record q { retention = or_else n q.retention })
                (update_enabled-setting js p persist) (λ q. update_retention-setting js q persist)
              ∙ on_some-both (setting js (member persist (codes "enabled")) as_bool)
                  (setting js (member persist (codes "retention_seconds")) (retention_of js))
                  (λ m n. some (put_persistence (m, n) p)))
    ]
  ]

  check_metadata_only-is :
      (doc : Value) (k : Result Text Policy)
      → to_option (check_metadata_only js doc >> k) ≡ when (is_metadata_only js doc) (to_option k)
  unfolding check_metadata_only
  check_metadata_only-is doc k = ground arith

  -- An update is a patch: the document is read once, as a whole, whatever the policy is, and what
  -- it names is put in place of the old; a document that is not a valid patch changes nothing.
  pub update_from_json-patch :
      (p : Policy) (doc : Value)
      → to_option (update_from_json js p doc) ≡ on_some (read_patch js doc) (λ q. some (put q p))
  unfolding update_from_json read_patch
  update_from_json-patch p doc =
      let k = update_redaction js p doc >>= λ q. update_persistence js q doc in
      let parts =
        to_option-two p (λ q. update_redaction js q doc) (λ q. update_persistence js q doc)
          (redaction_of js doc) (persistence_of js doc) put_redaction put_persistence
          (update_redaction-settings p doc) (λ q. update_persistence-settings q doc) in
      let guarded =
        to_option-require (is_object doc) (codes "policy document must be an object")
          (check_metadata_only js doc >> k) in
      guarded
      ∙ ap (when (is_object doc))
          (check_metadata_only-is doc k ∙ ap (when (is_metadata_only js doc)) parts)
      ∙ patched p (is_object doc) (is_metadata_only js doc) (redaction_of js doc)
          (persistence_of js doc)
