-- ===== src/Ipc/Server/Deadlock.antt =====
-- Requests that `handle_frame` of src/ipc/unix_socket_server.cpp answers under a lock.
use ezcap.Base.Json.{Json}
use ezcap.Base.Result.{Result, ok, err}
use ezcap.Base.{
  ℕ, ◌≤◌, Bool, true, List, [], Option, none, some, length, Text, ◌≡◌, refl, ◌↔◌, inl, inr, arith,
  Bool-cases,
}
use ezcap.Ipc.Codec.{parse_request, encode_error}
use ezcap.Ipc.Server.{
  Client, returns, deadlock, ◌>>=◌, is_subscribe, is_shutdown, deliver_or_throw, holding, release,
  limit_error, shutdown_error, is_over_limit, handle_request, handle_parsed, handle_frame,
}
use ezcap.Model.ErrorCodes.{IpcError}
use ezcap.Model.Protocol.{
  Operation, hello, get_status, subscribe, unsubscribe, set_policy, get_policy, shutdown, Request,
  Response, max_request_bytes, max_subscriptions_per_client,
}
use ezcap.Ipc.Server.Handling.{IsIdle, deliver-not-deadlock, deliver-holding, answer-not-deadlock}

subscribes : (op : Operation) → is_subscribe op ≡ true → op ≡ subscribe
subscribes subscribe e = refl
subscribes hello e = absurd (ground (arith, e))
subscribes get_status e = absurd (ground (arith, e))
subscribes unsubscribe e = absurd (ground (arith, e))
subscribes set_policy e = absurd (ground (arith, e))
subscribes get_policy e = absurd (ground (arith, e))
subscribes shutdown e = absurd (ground (arith, e))

is_over_limit-true :
    (c : Client) (r : Request)
    → r.operation ≡ subscribe
    → max_subscriptions_per_client ≤ length c.subscriptions
    → is_over_limit c r ≡ true
is_over_limit-true c r e f = rw e (ground (arith, f))

module _ (send_all : List Text → Text → Bool) where
  module _ (js : Json) (handler : ℕ → Request → Response) where
    -- A request that the code answers while it holds the mutex that the answer needs.
    pub record IsStuck (c : Client) (frame : Text) : Type 0 where
      pub request : Request
      pub parses : parse_request js frame max_request_bytes ≡ ok request
      pub subscribes : request.operation ≡ subscribe
      pub full : max_subscriptions_per_client ≤ length c.subscriptions
      pub message : Text
      pub encodes : encode_error js request.request_id limit_error ≡ some message

    IsStuck-from :
        (c : Client) (frame : Text)
        → IsStuck c frame
        → handle_frame send_all js handler c frame ≡ deadlock
    unfolding handle_frame handle_request
    IsStuck-from c frame v =
        let over = is_over_limit-true c v.request v.subscribes v.full in
        rw (v.parses, over, v.encodes) (rw (deliver-holding send_all c v.message) refl)

    over-message :
        (c : Client) (t : Option Text)
        → (deliver_or_throw send_all (holding c) t >>= (λ d. returns (release d))) ≡ deadlock
        → (m : Text) × (t ≡ some m)
    over-message c none d = ground arith
    over-message c (some m) d = (m, refl)

    handle_request-stuck :
        (c : Client) (r : Request)
        → IsIdle c
        → handle_request send_all js handler c r ≡ deadlock
        → (is_over_limit c r ≡ true)
          × ((m : Text) × (encode_error js r.request_id limit_error ≡ some m))
    unfolding handle_request
    handle_request-stuck c r v d = elim (Bool-cases (is_over_limit c r)) [
      | inl f ↦ (f, over-message c (encode_error js r.request_id limit_error) (rw f at d))
      | inr f ↦ elim (Bool-cases (is_shutdown r.operation)) [
        | inl g ↦ absurd (
            deliver-not-deadlock send_all c (encode_error js r.request_id shutdown_error) v
              (rw (f, g) at d))
        | inr g ↦ absurd (answer-not-deadlock send_all js handler c r v f (rw (f, g) at d))
      ]
    ]

    parsed-stuck :
        (c : Client) (x : Result IpcError Request)
        → IsIdle c
        → handle_parsed send_all js handler c x ≡ deadlock
        → (r : Request) × ((x ≡ ok r) × (handle_request send_all js handler c r ≡ deadlock))
    parsed-stuck c (ok r) v d = (r, (refl, d))
    parsed-stuck c (err e) v d = absurd (deliver-not-deadlock send_all c (encode_error js [] e) v d)

    over-limit-only :
        (c : Client) (r : Request)
        → is_over_limit c r ≡ true
        → (r.operation ≡ subscribe) × (max_subscriptions_per_client ≤ length c.subscriptions)
    over-limit-only c r e = (subscribes r.operation (ground (arith, e)), ground (arith, e))

    IsStuck-only :
        (c : Client) (frame : Text)
        → IsIdle c
        → handle_frame send_all js handler c frame ≡ deadlock
        → IsStuck c frame
    unfolding handle_frame
    IsStuck-only c frame v d =
        let (r, (e, h)) = parsed-stuck c (parse_request js frame max_request_bytes) v d in
        let (over, (m, g)) = handle_request-stuck c r v h in
        let (sub, full) = over-limit-only c r over in
        record { request = r; parses = e; subscribes = sub; full = full; message = m; encodes = g }

    -- The call that handles one frame of an idle client never returns exactly if the frame is a
    -- subscription, the client has its eight subscriptions, and the refusal can be printed.
    pub handle_frame-deadlock_iff :
        (c : Client) (frame : Text)
        → IsIdle c
        → (handle_frame send_all js handler c frame ≡ deadlock) ↔ IsStuck c frame
    handle_frame-deadlock_iff c frame v = (IsStuck-only c frame v, IsStuck-from c frame)
