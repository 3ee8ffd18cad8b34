-- ===== src/Ipc/Server.antt =====
-- src/ipc/unix_socket_server.cpp and .hpp: what the server does with a client's bytes. A `std::mutex`
-- that its own thread locks again blocks for ever: a client says whether the running thread holds `out_mutex`. The socket is a parameter, `send_all`, which may
-- refuse a message; what it took is `sent`. The handler, which has a state of its own, is a
-- parameter, too: what it answers depends on the request and on how often it has been called.
pub mod Handling
pub mod Deadlock
pub mod Buffer
pub mod Loop
use ezcap.Base.Json.{Json}
use ezcap.Base.Result.{Result, ok, err}
use ezcap.Base.{
  ℕ, ◌+◌, Bool, true, false, not, ◌&&◌, List, [], ◌∷◌, ◌++◌, Option, none, some, ltb, leb, ◌==◌,
  if◌then◌else◌, length, any, Text, codes, text_eq,
}
use ezcap.Ipc.Codec.{fault, parse_request, encode_response, encode_error}
use ezcap.Ipc.Framing.{Split, split_frames}
use ezcap.Model.ErrorCodes.{
  IpcError, message_too_large, too_many_subscriptions, operation_not_allowed,
}
use ezcap.Model.Protocol.{
  Operation, hello, get_status, subscribe, unsubscribe, set_policy, get_policy, shutdown, Request,
  Response, max_request_bytes, max_clients, max_subscriptions_per_client, max_outgoing_queue,
}

-- The client, with the server's `dropped_events_`, the bytes that its socket took, and how often the
-- handler has been called for it.
pub record Client : Type 0 where
  pub fd : ℕ
  pub rx_buffer : Text
  pub subscriptions : List Text
  pub out_queue : List Text
  pub out_held : Bool
  pub sent : List Text
  pub dropped : ℕ
  pub calls : ℕ

-- A call that returns, that waits for ever for a mutex that its thread holds, or that throws.
pub data Run : Type 0 where
  returns : Client → Run
  deadlock : Run
  throws : Run

infixl 5 ◌>>=◌
abbrev pub ◌>>=◌ : Run → (Client → Run) → Run
returns c >>= f = f c
deadlock >>= f = deadlock
throws >>= f = throws

unfoldable pub contains : List Text → Text → Bool
contains subs id = any (text_eq id) subs

-- `std::set` insertion and erasure; the order of the ids is of no account.
unfoldable pub insert : List Text → Text → List Text
unfolding contains
insert subs id = if contains subs id then subs else id ∷ subs

unfoldable pub erase : List Text → Text → List Text
erase [] id = []
erase (s ∷ subs) id = if text_eq id s then erase subs id else s ∷ erase subs id

abbrev pub is_subscribe : Operation → Bool
is_subscribe subscribe = true
is_subscribe _ = false

abbrev pub is_shutdown : Operation → Bool
is_shutdown shutdown = true
is_shutdown _ = false

-- The set of subscriptions after the handler has answered.
unfoldable pub track : Operation → Bool → Client → Text → Client
unfolding insert erase
track subscribe true c id = record c { subscriptions = insert c.subscriptions id }
track unsubscribe answered c id = record c { subscriptions = erase c.subscriptions id }
track _ answered c id = c

-- Under the lock of the first `lock_guard`.
abbrev pub holding : Client → Client
holding c = record c { out_held = true }

abbrev pub release : Client → Client
release c = record c { out_held = false }

abbrev pub limit_error : IpcError
limit_error = fault too_many_subscriptions (codes "subscription limit reached")

abbrev pub shutdown_error : IpcError
shutdown_error =
    fault operation_not_allowed (codes "shutdown must be issued by the service owner locally")

abbrev pub is_over_limit : Client → Request → Bool
is_over_limit c r =
    is_subscribe r.operation && leb max_subscriptions_per_client (length c.subscriptions)

abbrev pub go_on : Option (Run × Bool) → (Client → Option Run) → Option Run
go_on none k = none
go_on (some (returns c, true)) k = k c
go_on (some (run, _)) k = some run

module _ (send_all : List Text → Text → Bool) where
  -- The loop over `to_send`, of `total` messages: a refused message ends it and counts them all.
  unfoldable pub send_loop : ℕ → Client → List Text → Client
  send_loop total c [] = c
  send_loop total c (msg ∷ msgs) =
      let rest = send_loop total (record c { sent = c.sent ++ msg ∷ [] }) msgs in
      if send_all c.sent msg then rest else record c { dropped = c.dropped + total }

  abbrev flush : Client → List Text → Client
  flush c to_send = send_loop (length to_send) (record c { out_queue = [] }) to_send

  unfoldable pub deliver : Client → Text → Run
  unfolding send_loop
  deliver c encoded =
      if c.out_held
      then deadlock
      else if leb max_outgoing_queue (length c.out_queue)
      then returns (record c { out_queue = []; dropped = c.dropped + 1 })
      else returns (flush c (c.out_queue ++ (encoded ++ b'\n' ∷ []) ∷ []))

  abbrev pub deliver_or_throw : Client → Option Text → Run
  deliver_or_throw c none = throws
  deliver_or_throw c (some encoded) = deliver c encoded

  module _ (js : Json) (handler : ℕ → Request → Response) where
    unfoldable pub answer : Client → Request → Run
    unfolding deliver track
    answer c r =
        let response = handler c.calls r in
        let called = record c { calls = c.calls + 1 } in
        deliver_or_throw (track r.operation response.is_ok called r.request_id)
          (encode_response js response)

    unfoldable pub handle_request : Client → Request → Run
    unfolding answer
    handle_request c r =
        if is_over_limit c r
        then deliver_or_throw (holding c) (encode_error js r.request_id limit_error)
          >>= (λ d. returns (release d))
        else if is_shutdown r.operation
        then deliver_or_throw c (encode_error js r.request_id shutdown_error)
        else answer c r

    abbrev pub handle_parsed : Client → Result IpcError Request → Run
    handle_parsed c (err e) = deliver_or_throw c (encode_error js [] e)
    handle_parsed c (ok r) = handle_request c r

    -- It always returns true: the connection stays.
    unfoldable pub handle_frame : Client → Text → Run
    unfolding handle_request
    handle_frame c frame = handle_parsed c (parse_request js frame max_request_bytes)

    unfoldable pub handle_frames : Client → List Text → Run
    handle_frames c [] = returns c
    handle_frames c (frame ∷ frames) = handle_frame c frame >>= λ d. handle_frames d frames

    -- The body of `client_loop` on a buffer that `split_frames` has split, with whether the loop
    -- goes on.
    unfoldable pub serve_split : Client → Split → Run × Bool
    unfolding handle_frames
    serve_split c split =
        let d = record c { rx_buffer = split.buffer } in
        if split.is_ok then (handle_frames d split.frames, true) else (
          deliver_or_throw d
              (encode_error js [] (fault message_too_large (codes "frame exceeds size limit"))),
          false,
        )

    abbrev pub serve_option : Client → Option Split → Option (Run × Bool)
    serve_option c none = none
    serve_option c (some split) = some (serve_split c split)

    -- One round of `client_loop` on the bytes of one `recv`; none if `split_frames` runs out of fuel.
    unfoldable pub receive : Client → Text → Option (Run × Bool)
    unfolding serve_split
    receive c bytes = serve_option c (split_frames (c.rx_buffer ++ bytes) max_request_bytes)

    -- The loop over what the calls of `recv` return, up to the end of the stream.
    unfoldable pub client_loop : Client → List Text → Option Run
    unfolding receive
    client_loop c [] = some (returns c)
    client_loop c (bytes ∷ chunks) = go_on (receive c bytes) (λ d. client_loop d chunks)
