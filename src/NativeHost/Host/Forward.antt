-- ===== src/NativeHost/Host/Forward.antt =====
-- What the host sends to the daemon, and what the daemon's parser makes of it.
use ezcap.Base.Json.{Json, JsonLaws, PrintLaws}
use ezcap.Base.Result.{Result, ok, err}
use ezcap.Base.{
  ◌≤◌, Bool, true, false, List, [], ◌∷◌, ◌++◌, some, ◌≡◌, ◌≢◌, refl, sym, ap, ◌∙◌, arith, ltb, ◌==◌,
  Free, length, take, drop, take-append-drop, append_assoc, append-nil, Text, Bool-cases,
  Option-cases, inl, inr, ◌⊎◌,
}
use ezcap.Ipc.Codec.{parse_request}
use ezcap.Model.Protocol.{max_request_bytes, shutdown, Request}
use ezcap.NativeHost.Client.{request_frame, send_request, new_client, connect, poll, DaemonClient}
use ezcap.NativeHost.Framing.{Answer, moved, interrupted, failed, send_all}
use ezcap.NativeHost.Host.{
  Stop, exception, reply, DaemonAnswers, Stop, exception, reply, Outcome, accept_message, await,
  forward, conclude, handle_message, relay,
}
use ezcap.NativeHost.Host.Requests.{accept-IsForwardable}
use ezcap.NativeHost.Host.Document.{parse_request-sent, request_frame-one_line}

-- Part of what is to be sent has been sent.
send_all-prefix :
    (answers : List Answer) (rest sent : Text) (b : Bool) (s : Text)
    → send_all answers rest sent ≡ some (b, s)
    → (t : Text) × (s ++ t ≡ sent ++ rest)
unfolding send_all
send_all-prefix [] [] sent b s e = ([], ground (arith, append-nil sent))
send_all-prefix [] (c ∷ rest) sent b s e = cc
send_all-prefix (a ∷ answers) [] sent b s e = ([], ground (arith, append-nil sent))
send_all-prefix (interrupted ∷ answers) (c ∷ rest) sent b s e =
    send_all-prefix answers (c ∷ rest) sent b s e
send_all-prefix (failed ∷ answers) (c ∷ rest) sent b s e =
    let same : sent ≡ s = cc in (c ∷ rest, ap (λ t. t ++ c ∷ rest) (sym same))
send_all-prefix (moved n ∷ answers) (c ∷ rest) sent b s e =
    let (t, made) = send_all-prefix answers (drop n rest) (sent ++ c ∷ take n rest) b s e in
    (
      t,
      made
          ∙ append_assoc sent (c ∷ take n rest) (drop n rest)
          ∙ ap (λ t. sent ++ c ∷ t) (take-append-drop n rest),
    )

send_request-prefix :
    (js : Json) (answers : List Answer) (r : Request) (client : DaemonClient) (b : Bool) (s : Text)
    → send_request js answers r client ≡ some (b, s)
    → (s ≡ [])
      ⊎ ((frame : Text) × (t : Text) × (request_frame js r ≡ some frame)
          × (length frame ≤ max_request_bytes)
          × (s ++ t ≡ frame ++ b'\n' ∷ []))
unfolding send_request
send_request-prefix js answers r client b s e = elim (Bool-cases client.connected) [
  | inr off ↦ inl (ground arith)
  | inl on ↦ elim (Option-cases (request_frame js r)) [
    | inl n ↦ absurd (ground arith)
    | inr (frame, f) ↦ elim (Bool-cases (ltb max_request_bytes (length frame))) [
      | inl long ↦ inl (ground arith)
      | inr short ↦
          let sending : send_all answers (frame ++ b'\n' ∷ []) [] ≡ some (b, s) = ground arith in
          let (t, made) = send_all-prefix answers (frame ++ b'\n' ∷ []) [] b s sending in
          inr (frame, t, f, ground arith, made)
    ]
  ]
]

await-forwarded :
    (js : Json) (d : DaemonAnswers) (id sent : Text) (client : DaemonClient)
    (out : Outcome js.Value)
    → await js d.waiting id sent client ≡ some out
    → out.forwarded ≡ sent
unfolding await
await-forwarded js d id sent client out e = elim (Option-cases ((poll d.waiting client).error)) [
  | inr (f, p) ↦ ground arith
  | inl p ↦ elim (Option-cases (relay js id (poll d.waiting client).frames)) [
    | inl q ↦ absurd (ground arith)
    | inr (vs, q) ↦ ground arith
  ]
]

forward-forwarded :
    (js : Json) (d : DaemonAnswers) (r : Request) (client : DaemonClient) (out : Outcome js.Value)
    → forward js d r client ≡ some out
    → (b : Bool) × (send_request js d.sending r client ≡ some (b, out.forwarded))
unfolding forward
forward-forwarded js d r client out e = elim (Option-cases (send_request js d.sending r client)) [
  | inl n ↦ absurd (ground arith)
  | inr ((true, sent), q) ↦
      let waits : await js d.waiting r.request_id sent client ≡ some out = ground arith in
      (true, rw (await-forwarded js d r.request_id sent client out waits) q)
  | inr ((false, sent), q) ↦ let same : out.forwarded ≡ sent = ground arith in (false, rw same q)
]

conclude-forwarded :
    (js : Json) (d : DaemonAnswers) (client : DaemonClient) (m : Result Stop Request)
    (out : Outcome js.Value)
    → conclude js d client m ≡ some out
    → (out.forwarded ≡ []) ⊎ ((r : Request) × (m ≡ ok r) × (forward js d r client ≡ some out))
conclude-forwarded js d client (err exception) out e = cc
conclude-forwarded js d client (err (reply b f)) out e = inl (ground arith)
conclude-forwarded js d client (ok r) out e = inr (r, refl, e)

module _ (js : Json) (laws : JsonLaws js) (prints : PrintLaws js) where
  -- What the host sends to the daemon for a message of the browser that it has parsed is nothing, or
  -- the beginning of one line, a frame without a newline and a newline: the daemon's own parser
  -- accepts the frame, and as the very request that the host's checks let through, which is never a
  -- shutdown. The conditions are the JSON library's documented laws: on the values that it parsed and
  -- those that are built from them, what it prints has no newline and is parsed to what was printed.
  pub handle_message-forwards :
      (d : DaemonAnswers) (text : Text) (doc : js.Value) (out : Outcome js.Value)
      → js.parse text ≡ some doc
      → handle_message js d doc ≡ some out
      → (out.forwarded ≡ [])
        ⊎ ((r : Request) × (frame : Text) × (t : Text) × (out.forwarded ++ t ≡ frame ++ b'\n' ∷ [])
            × Free (λ c. c == b'\n') frame
            × (accept_message js (connect d.connecting new_client).0 doc ≡ ok r)
            × (parse_request js frame max_request_bytes ≡ ok r)
            × (r.operation ≢ shutdown))
  unfolding handle_message
  handle_message-forwards d text doc out p e =
      let (connect_error, client) = connect d.connecting new_client in
      elim (conclude-forwarded js d client (accept_message js connect_error doc) out e) [
        | inl nothing ↦ inl nothing
        | inr (r, accepted, sent) ↦
            let (b, q) = forward-forwarded js d r client out sent in
            let v =
              accept-IsForwardable js prints.Regular prints.inner connect_error doc r
                (prints.parsed text doc p) accepted in
            elim (send_request-prefix js d.sending r client b out.forwarded q) [
              | inl nothing ↦ inl nothing
              | inr (frame, t, f, short, made) ↦ inr (
                r,
                frame,
                t,
                made,
                request_frame-one_line js laws prints r frame v f,
                accepted,
                parse_request-sent js laws prints r frame v f short,
                v.not_shutdown,
              )
            ]
      ]
