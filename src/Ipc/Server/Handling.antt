-- ===== src/Ipc/Server/Handling.antt =====
-- A client between two frames, for `handle_frame` of src/ipc/unix_socket_server.cpp.
use ezcap.Base.Json.{Json}
use ezcap.Base.Result.{Result, ok, err}
use ezcap.Base.{
  ℕ, ◌+◌, ◌≤◌, ◌<◌, Bool, true, false, List, [], ◌∷◌, ◌++◌, Option, none, some, length, Text, ◌≡◌,
  ◌≢◌, refl, ◌⊎◌, inl, inr, arith, Bool-cases,
}
use ezcap.Ipc.Codec.{parse_request, encode_response, encode_error}
use ezcap.Ipc.Server.{
  Client, Run, returns, deadlock, throws, ◌>>=◌, insert, erase, is_subscribe, is_shutdown, track,
  send_loop, deliver, deliver_or_throw, holding, release, limit_error, shutdown_error,
  is_over_limit, answer, handle_request, handle_parsed, handle_frame, handle_frames,
}
use ezcap.Model.ErrorCodes.{IpcError}
use ezcap.Model.Protocol.{
  Operation, hello, get_status, subscribe, unsubscribe, set_policy, get_policy, shutdown, Request,
  Response, max_request_bytes, max_subscriptions_per_client,
}

-- Between two frames: at most eight subscriptions, nothing queued, and the mutex free.
pub record IsIdle (c : Client) : Type 0 where
  pub few : length c.subscriptions ≤ max_subscriptions_per_client
  pub drained : c.out_queue ≡ []
  pub free : c.out_held ≡ false

-- What holds of the client of a call that returns.
abbrev pub After : (Client → Type 0) → Run → Type 0
After P (returns c) = P c
After P deadlock = Unit {0}
After P throws = Unit {0}

After-bind :
    {P : Client → Type 0} (x : Run) (f : Client → Run)
    → After P x
    → ((c : Client) → P c → After P (f c))
    → After P (x >>= f)
After-bind (returns c) f v h = h c v
After-bind deadlock f v h = tt
After-bind throws f v h = tt

length-erase : (subs : List Text) (id : Text) → length (erase subs id) ≤ length subs
unfolding erase
length-erase [] id = omega arith
length-erase (s ∷ subs) id = ground (arith, length-erase subs id)

length-insert : (subs : List Text) (id : Text) → length (insert subs id) ≤ length subs + 1
unfolding insert
length-insert subs id = ground arith

module _ (send_all : List Text → Text → Bool) where
  send_loop-same :
      (total : ℕ) (msgs : List Text) (c : Client)
      → ((send_loop send_all total c msgs).subscriptions ≡ c.subscriptions)
        × ((send_loop send_all total c msgs).out_queue ≡ c.out_queue)
        × ((send_loop send_all total c msgs).out_held ≡ c.out_held)
  unfolding send_loop
  send_loop-same total [] c = (refl, refl, refl)
  send_loop-same total (m ∷ ms) c =
      ground (arith, send_loop-same total ms (record c { sent = c.sent ++ m ∷ [] }))

  deliver-IsIdle : (c : Client) (t : Text) → IsIdle c → After IsIdle (deliver send_all c t)
  unfolding deliver
  deliver-IsIdle c t v =
      let msgs = c.out_queue ++ (t ++ b'\n' ∷ []) ∷ [] in
      ground (arith, send_loop-same (length msgs) msgs (record c { out_queue = [] }))

  pub deliver_or_throw-IsIdle :
      (c : Client) (t : Option Text) → IsIdle c → After IsIdle (deliver_or_throw send_all c t)
  deliver_or_throw-IsIdle c none v = tt
  deliver_or_throw-IsIdle c (some t) v = deliver-IsIdle c t v

  pub deliver-not-deadlock :
      (c : Client) (t : Option Text) → IsIdle c → deliver_or_throw send_all c t ≢ deadlock
  unfolding deliver
  deliver-not-deadlock c none v = ground arith
  deliver-not-deadlock c (some t) v = ground (arith, v.free)

  -- Under the lock, a message that is to be sent is never sent.
  pub deliver-holding :
      (c : Client) (t : Text) → deliver_or_throw send_all (holding c) (some t) ≡ deadlock
  unfolding deliver
  deliver-holding c t = refl

  module _ (js : Json) (handler : ℕ → Request → Response) where
    track-IsIdle :
        (c : Client) (op : Operation) (b : Bool) (id : Text)
        → IsIdle c
        → length c.subscriptions < max_subscriptions_per_client ⊎ (is_subscribe op ≡ false)
        → IsIdle (track op b c id)
    unfolding track
    track-IsIdle c hello b id v w = v
    track-IsIdle c get_status b id v w = v
    track-IsIdle c set_policy b id v w = v
    track-IsIdle c get_policy b id v w = v
    track-IsIdle c shutdown b id v w = v
    track-IsIdle c subscribe false id v w = v
    track-IsIdle c subscribe true id v w = ground (arith, length-insert c.subscriptions id)
    track-IsIdle c unsubscribe b id v w = ground (arith, length-erase c.subscriptions id)

    answer-IsIdle :
        (c : Client) (r : Request)
        → IsIdle c
        → is_over_limit c r ≡ false
        → After IsIdle (answer send_all js handler c r)
    unfolding answer
    answer-IsIdle c r v e =
        let response = handler c.calls r in
        let called : Client = record c { calls = c.calls + 1 } in
        let idle : IsIdle called = record { few = v.few; drained = v.drained; free = v.free } in
        let w =
          track-IsIdle called r.operation response.is_ok r.request_id idle (ground (arith, e)) in
        deliver_or_throw-IsIdle (track r.operation response.is_ok called r.request_id)
          (encode_response js response) w

    pub answer-not-deadlock :
        (c : Client) (r : Request)
        → IsIdle c
        → is_over_limit c r ≡ false
        → answer send_all js handler c r ≢ deadlock
    unfolding answer
    answer-not-deadlock c r v e =
        let response = handler c.calls r in
        let called : Client = record c { calls = c.calls + 1 } in
        let idle : IsIdle called = record { few = v.few; drained = v.drained; free = v.free } in
        let w =
          track-IsIdle called r.operation response.is_ok r.request_id idle (ground (arith, e)) in
        deliver-not-deadlock (track r.operation response.is_ok called r.request_id)
          (encode_response js response) w

    over-limit-Idle :
        (c : Client) (t : Option Text)
        → After IsIdle (deliver_or_throw send_all (holding c) t >>= (λ d. returns (release d)))
    over-limit-Idle c none = tt
    over-limit-Idle c (some t) = rw (deliver-holding c t) tt

    handle_request-IsIdle :
        (c : Client) (r : Request)
        → IsIdle c
        → After IsIdle (handle_request send_all js handler c r)
    unfolding handle_request
    handle_request-IsIdle c r v = elim (Bool-cases (is_over_limit c r)) [
      | inl e ↦ rw e (over-limit-Idle c (encode_error js r.request_id limit_error))
      | inr e ↦ elim (Bool-cases (is_shutdown r.operation)) [
        | inl f ↦
            rw (e, f) (deliver_or_throw-IsIdle c (encode_error js r.request_id shutdown_error) v)
        | inr f ↦ rw (e, f) (answer-IsIdle c r v e)
      ]
    ]

    handle_parsed-IsIdle :
        (c : Client) (x : Result IpcError Request)
        → IsIdle c
        → After IsIdle (handle_parsed send_all js handler c x)
    handle_parsed-IsIdle c (ok r) v = handle_request-IsIdle c r v
    handle_parsed-IsIdle c (err e) v = deliver_or_throw-IsIdle c (encode_error js [] e) v

    handle_frame-IsIdle :
        (c : Client) (frame : Text)
        → IsIdle c
        → After IsIdle (handle_frame send_all js handler c frame)
    unfolding handle_frame
    handle_frame-IsIdle c frame v =
        handle_parsed-IsIdle c (parse_request js frame max_request_bytes) v

    pub handle_frames-IsIdle :
        (c : Client) (frames : List Text)
        → IsIdle c
        → After IsIdle (handle_frames send_all js handler c frames)
    unfolding handle_frames
    handle_frames-IsIdle c [] v = v
    handle_frames-IsIdle c (frame ∷ frames) v =
        After-bind (handle_frame send_all js handler c frame)
          (λ d. handle_frames send_all js handler d frames) (handle_frame-IsIdle c frame v)
          (λ d. handle_frames-IsIdle d frames)
