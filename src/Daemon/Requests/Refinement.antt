-- ===== src/Daemon/Requests/Refinement.antt =====
-- The requests against a store of one policy.
use ezcap.Base.Json.{Json}
use ezcap.Base.Result.{Result}
use ezcap.Base.{true, false, List, [], ◌∷◌, Option, none, some, ◌≡◌, Text, codes}
use ezcap.Daemon.Requests.Patch.{Patch, put, on_some, read_patch}
use ezcap.Daemon.Requests.{StatusView, handle_request, hello_value, status_value}
use ezcap.Daemon.{Daemon}
use ezcap.Ipc.Codec.{fault}
use ezcap.Model.ErrorCodes.{IpcError, schema_violation}
use ezcap.Model.Protocol.{
  Operation, hello, get_status, subscribe, unsubscribe, set_policy, get_policy, shutdown, Request,
  Response,
}
use ezcap.Policy.Engine.{to_json}
use ezcap.Policy.Types.{Policy}

abbrev not_object : IpcError
not_object = fault schema_violation (codes "set_policy params must be an object")

-- What the store answers: a policy, a plain yes, or a no.
pub data Reply : Type 0 where
  shows : Policy → Reply
  done : Reply
  refused : Reply

abbrev pub patched_or_not : Option Patch → Policy → Reply × Policy
patched_or_not none p = (refused, p)
patched_or_not (some q) p = (shows (put q p), put q p)

module _ (js : Json) where
  -- The store: `set_policy` patches the policy and shows it, or refuses what is no patch,
  -- `get_policy` shows it, and nothing else touches it.
  abbrev pub store_step : Operation → Text → Policy → Reply × Policy
  store_step get_policy params p = (shows p, p)
  store_step set_policy params p = patched_or_not (on_some (js.parse params) (read_patch js)) p
  store_step shutdown params p = (refused, p)
  store_step _ params p = (done, p)

  unfoldable pub store_run : List Request → Policy → List (Text × Reply) × Policy
  store_run [] p = ([], p)
  store_run (r ∷ rs) p =
      let (reply, q) = store_step r.operation r.params_json p in
      let (replies, last) = store_run rs q in ((r.request_id, reply) ∷ replies, last)

  abbrev pub Prints : js.Value → Type 0
  Prints v = (t : Text) × (js.dump v ≡ some t)

  abbrev pub ReplyPrints : Reply → Type 0
  ReplyPrints (shows p) = Prints (to_json js p)
  ReplyPrints _ = Unit {0}

  -- The document that the answer to a request shows, if it shows one, can be printed.
  abbrev pub AnswerPrints : StatusView → Daemon → Operation → Text → Text → Type 0
  AnswerPrints view d hello id params = Prints (hello_value js)
  AnswerPrints view d get_status id params = Prints (status_value js view d)
  AnswerPrints view d subscribe id params =
      Prints (js.object ((codes "subscription_id", js.string id) ∷ []))
  AnswerPrints view d unsubscribe id params = Prints (
      js.object ((codes "subscription_id", js.string id) ∷ (codes "removed", js.boolean true) ∷ []))
  AnswerPrints view d op id params = ReplyPrints (store_step op params d.policy).0

  -- The same of every answer to the requests, with the policy that the store has by then.
  abbrev pub AllPrint : StatusView → List Request → Daemon → Type 0
  AllPrint view [] d = Unit {0}
  AllPrint view (r ∷ rs) d =
      AnswerPrints view d r.operation r.request_id r.params_json
      × AllPrint view rs (record d { policy = (store_step r.operation r.params_json d.policy).1 })

  -- The daemon's answers to the requests, in order.
  unfoldable pub handle_all : StatusView → List Request → Daemon → Option (List Response × Daemon)
  unfolding handle_request
  handle_all view [] d = some ([], d)
  handle_all view (r ∷ rs) d = on_some (handle_request js view d r) (λ (response, k).
      on_some (handle_all view rs k) (λ (responses, last). some (response ∷ responses, last)))

  -- A response says what the store replies.
  abbrev pub Says : Reply → Response → Type 0
  Says (shows p) r = (r.is_ok ≡ true) × (js.dump (to_json js p) ≡ some r.result_json)
  Says done r = r.is_ok ≡ true
  Says refused r = r.is_ok ≡ false

  abbrev pub SayAll : List (Text × Reply) → List Response → Type 0
  SayAll [] [] = Unit {0}
  SayAll [] (_ ∷ _) = ⊥
  SayAll (_ ∷ _) [] = ⊥
  SayAll ((id, reply) ∷ replies) (r ∷ rs) = (r.request_id ≡ id) × Says reply r × SayAll replies rs

  -- The outcome of one request that the store answers with `reply`, with the policy `q` after it.
  abbrev Outcome : Option (Response × Policy) → Text → Reply × Policy → Type 0
  Outcome o id (reply, q) = (r : Response) × (o ≡ some (r, q)) × (r.request_id ≡ id) × Says reply r
