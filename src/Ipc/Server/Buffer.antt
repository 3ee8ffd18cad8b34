-- ===== src/Ipc/Server/Buffer.antt =====
-- The receive buffer is left alone by `handle_frame` of src/ipc/unix_socket_server.cpp.
use ezcap.Base.Json.{Json}
use ezcap.Base.Result.{Result, ok, err}
use ezcap.Base.{
  ℕ, ◌+◌, Bool, true, false, List, [], ◌∷◌, ◌++◌, Option, none, some, length, Text, ◌≡◌, refl, ap,
  ◌∙◌, inl, inr, leb, Bool-cases, if◌then◌else◌,
}
use ezcap.Ipc.Codec.{parse_request, encode_response, encode_error}
use ezcap.Ipc.Server.{
  Client, Run, returns, deadlock, throws, ◌>>=◌, is_shutdown, track, send_loop, deliver,
  deliver_or_throw, holding, release, limit_error, shutdown_error, is_over_limit, answer,
  handle_request, handle_parsed, handle_frame, handle_frames,
}
use ezcap.Model.ErrorCodes.{IpcError}
use ezcap.Model.Protocol.{
  Operation, hello, get_status, subscribe, unsubscribe, set_policy, get_policy, shutdown, Request,
  Response, max_request_bytes, max_outgoing_queue,
}

abbrev pub with_buffer : Text → Client → Client
with_buffer b c = record c { rx_buffer = b }

-- A run whose client has another receive buffer.
abbrev pub keep : Text → Run → Run
keep b (returns c) = returns (with_buffer b c)
keep b deadlock = deadlock
keep b throws = throws

keep_bind :
    (b : Text) (x : Run) (f : Client → Run)
    → ((c : Client) → f (with_buffer b c) ≡ keep b (f c))
    → (keep b x >>= f) ≡ keep b (x >>= f)
keep_bind b (returns c) f h = h c
keep_bind b deadlock f h = refl
keep_bind b throws f h = refl

if-keep :
    (b : Text) (test : Bool) (x x' y y' : Run)
    → x' ≡ keep b x
    → y' ≡ keep b y
    → (if test then x' else y') ≡ keep b (if test then x else y)
if-keep b true x x' y y' e f = e
if-keep b false x x' y y' e f = f

pub keep_twice : (b b' : Text) (x : Run) → keep b (keep b' x) ≡ keep b x
keep_twice b b' (returns c) = refl
keep_twice b b' deadlock = refl
keep_twice b b' throws = refl

module _ (send_all : List Text → Text → Bool) (b : Text) where
  send_loop-keep :
      (total : ℕ) (c : Client) (msgs : List Text)
      → send_loop send_all total (with_buffer b c) msgs
        ≡ with_buffer b (send_loop send_all total c msgs)
  unfolding send_loop
  send_loop-keep total c [] = refl
  send_loop-keep total c (msg ∷ msgs) = elim (Bool-cases (send_all c.sent msg)) [
    | inl e ↦ rw e (send_loop-keep total (record c { sent = c.sent ++ msg ∷ [] }) msgs)
    | inr e ↦ rw e refl
  ]

  deliver-keep :
      (c : Client) (t : Text) → deliver send_all (with_buffer b c) t ≡ keep b (deliver send_all c t)
  unfolding deliver
  deliver-keep c t =
      let msgs = c.out_queue ++ (t ++ b'\n' ∷ []) ∷ [] in
      if-keep b c.out_held _ _ _ _ refl (
        if-keep b (leb max_outgoing_queue (length c.out_queue)) _ _ _ _ refl
          (ap returns (send_loop-keep (length msgs) (record c { out_queue = [] }) msgs)))

  deliver_or_throw-keep :
      (c : Client) (t : Option Text)
      → deliver_or_throw send_all (with_buffer b c) t ≡ keep b (deliver_or_throw send_all c t)
  deliver_or_throw-keep c none = refl
  deliver_or_throw-keep c (some t) = deliver-keep c t

  track-keep :
      (op : Operation) (is_ok : Bool) (c : Client) (id : Text)
      → track op is_ok (with_buffer b c) id ≡ with_buffer b (track op is_ok c id)
  unfolding track
  track-keep hello is_ok c id = refl
  track-keep get_status is_ok c id = refl
  track-keep set_policy is_ok c id = refl
  track-keep get_policy is_ok c id = refl
  track-keep shutdown is_ok c id = refl
  track-keep subscribe true c id = refl
  track-keep subscribe false c id = refl
  track-keep unsubscribe is_ok c id = refl

  module _ (js : Json) (handler : ℕ → Request → Response) where
    answer-keep :
        (c : Client) (r : Request)
        → answer send_all js handler (with_buffer b c) r ≡ keep b (answer send_all js handler c r)
    unfolding answer
    answer-keep c r =
        let response = handler c.calls r in
        let called : Client = record c { calls = c.calls + 1 } in
        ap (λ d. deliver_or_throw send_all d (encode_response js response))
          (track-keep r.operation response.is_ok called r.request_id)
        ∙ deliver_or_throw-keep (track r.operation response.is_ok called r.request_id)
            (encode_response js response)

    handle_request-keep :
        (c : Client) (r : Request)
        → handle_request send_all js handler (with_buffer b c) r
          ≡ keep b (handle_request send_all js handler c r)
    unfolding handle_request
    handle_request-keep c r = elim (Bool-cases (is_over_limit c r)) [
      | inl e ↦
          let refusal = encode_error js r.request_id limit_error in
          rw e (
            ap (λ x. x >>= λ d. returns (release d)) (deliver_or_throw-keep (holding c) refusal)
            ∙ keep_bind b (deliver_or_throw send_all (holding c) refusal) (λ d. returns (release d))
                (λ d. refl))
      | inr e ↦ elim (Bool-cases (is_shutdown r.operation)) [
        | inl f ↦ rw (e, f) (deliver_or_throw-keep c (encode_error js r.request_id shutdown_error))
        | inr f ↦ rw (e, f) (answer-keep c r)
      ]
    ]

    handle_parsed-keep :
        (c : Client) (x : Result IpcError Request)
        → handle_parsed send_all js handler (with_buffer b c) x
          ≡ keep b (handle_parsed send_all js handler c x)
    handle_parsed-keep c (ok r) = handle_request-keep c r
    handle_parsed-keep c (err e) = deliver_or_throw-keep c (encode_error js [] e)

    pub handle_frame-keep :
        (c : Client) (frame : Text)
        → handle_frame send_all js handler (with_buffer b c) frame
          ≡ keep b (handle_frame send_all js handler c frame)
    unfolding handle_frame
    handle_frame-keep c frame = handle_parsed-keep c (parse_request js frame max_request_bytes)

    pub handle_frames-keep :
        (c : Client) (frames : List Text)
        → handle_frames send_all js handler (with_buffer b c) frames
          ≡ keep b (handle_frames send_all js handler c frames)
    unfolding handle_frames
    handle_frames-keep c [] = refl
    handle_frames-keep c (frame ∷ frames) =
        ap (λ x. x >>= λ d. handle_frames send_all js handler d frames) (handle_frame-keep c frame)
        ∙ keep_bind b (handle_frame send_all js handler c frame)
            (λ d. handle_frames send_all js handler d frames) (λ d. handle_frames-keep d frames)
