-- ===== src/Tests/OfHost.antt =====
-- The native host.
use ezcap.Base.Json.{Json}
use ezcap.Base.{
  ◌==◌, Free, true, List, [], ◌∷◌, ◌++◌, some, All, ◌≡◌, ◌≢◌, ◌⊎◌, ◌↔◌, refl, arith, Text, codes,
  text_eq, find_from, find_index,
}
use ezcap.Base.Result.{ok}
use ezcap.Ipc.Codec.{parse_request}
use ezcap.Model.Protocol.{max_request_bytes, get_status, shutdown, Request}
use ezcap.NativeHost.Framing.{Answer, moved, interrupted, write, read, message, is_utf8}
use ezcap.NativeHost.Framing.RoundTrip.{IsMessage, read-write}
use ezcap.NativeHost.Framing.Shape.{IsCharacter, join, is_utf8_iff}
use ezcap.NativeHost.Client.{
  DaemonClient, Waiting, received, timeout, poll, new_client, connect, accepted,
}
use ezcap.NativeHost.Client.Frames.{AreFrames, read_by, poll-AreFrames}
use ezcap.NativeHost.Host.{DaemonAnswers, Outcome, handle_message, accept_message}
use ezcap.NativeHost.Host.Forward.{handle_message-forwards}
use ezcap.Tests.Documents.{
  Tree, object, fields, string, number, exact_document, exact_document-JsonLaws,
  exact_document-PrintLaws,
}

abbrev pieces : List Answer
pieces =
    moved 0 ∷ interrupted ∷ moved 4 ∷ moved 0 ∷ moved 9 ∷ moved 0 ∷ moved 0 ∷ moved 0 ∷ moved 1 ∷ []

pair-IsMessage : IsMessage (codes "{}")
unfolding is_utf8
pair-IsMessage = record { some_bytes = refl; short = omega arith; valid = refl }

read-write_example :
    (sent : Text) × (left : List Answer) × (write pieces (codes "{}") ≡ some (true, sent))
    × (read pieces (sent ++ codes "more") ≡ some (message (codes "{}"), codes "more", left))
read-write_example =
    read-write pieces pieces (codes "{}") (codes "more") pair-IsMessage refl refl (omega arith)
      (omega arith)

is_utf8_iff_example :
    (is_utf8 (0xC3 ∷ 0xA9 ∷ 0x21 ∷ []) ≡ true)
    ↔ ((cs : List Text) × (◌≡◌ {A = Text} (0xC3 ∷ 0xA9 ∷ 0x21 ∷ []) (join cs)) × All IsCharacter cs)
is_utf8_iff_example = is_utf8_iff (0xC3 ∷ 0xA9 ∷ 0x21 ∷ [])

abbrev client : DaemonClient
client = record { connected = true; rx_buffer = codes "ab" }

abbrev arriving : Waiting
arriving = received (codes "c\nd\ne")

poll-AreFrames_example :
    AreFrames
      (client.rx_buffer ++ read_by arriving client)
      (poll arriving client).frames
      (poll arriving client).client.rx_buffer
unfolding poll
poll-AreFrames_example = poll-AreFrames arriving client refl

-- A status request of the browser, which the daemon does not answer in time.
abbrev asked : Request
asked = record { version = 1; operation = get_status; request_id = codes "r1"; params_json = [] }

abbrev line : Text
line = codes "{...}"

abbrev sent_doc : Tree
sent_doc = object (
    fields (
      (codes "protocol_version", number 1)
      ∷ (codes "operation", string (codes "get_status"))
      ∷ (codes "request_id", string (codes "r1"))
      ∷ []))

abbrev asking : Tree
asking = object (
    fields (
      (codes "protocol_version", number 1)
      ∷ (codes "kind", string (codes "request"))
      ∷ (
        codes "payload",
        object (
            fields (
              (codes "operation", string (codes "get_status"))
              ∷ (codes "request_id", string (codes "r1"))
              ∷ [])),
      )
      ∷ []))

abbrev asked_text : Text
asked_text = codes "{asked}"

abbrev library : Json
library = exact_document line sent_doc asked_text asking

asking-parsed : library.parse asked_text ≡ some asking
unfolding text_eq
asking-parsed = refl

abbrev answers : DaemonAnswers
answers = record { connecting = accepted; sending = moved 9 ∷ []; waiting = timeout }

abbrev silence : Outcome Tree
silence = record { carries_on = true; replies = []; forwarded = codes "{...}\n" }

asking-handled : handle_message library answers asking ≡ some silence
unfolding handle_message ezcap.NativeHost.Host.accept_message ezcap.NativeHost.Host.read_request
    ezcap.NativeHost.Host.make_request text_eq ezcap.NativeHost.Host.forbidden_key
    ezcap.NativeHost.Host.operation_allowed ezcap.NativeHost.Host.params_text
    ezcap.Model.Protocol.operation_from_name ezcap.NativeHost.Host.forward
    ezcap.NativeHost.Host.await ezcap.NativeHost.Host.relay connect
    ezcap.NativeHost.Client.send_request ezcap.NativeHost.Client.request_frame
    ezcap.Model.Protocol.operation_name ezcap.NativeHost.Framing.send_all poll
    ezcap.NativeHost.Client.wait ezcap.NativeHost.Client.extract_frames
    ezcap.NativeHost.Client.extract_loop find_from find_index
asking-handled = refl

handle_message-forwards_example :
    (silence.forwarded ≡ [])
    ⊎ ((r : Request) × (frame : Text) × (t : Text) × (silence.forwarded ++ t ≡ frame ++ b'\n' ∷ [])
        × Free (λ c. c == b'\n') frame
        × (accept_message library (connect answers.connecting new_client).0 asking ≡ ok r)
        × (parse_request library frame max_request_bytes ≡ ok r)
        × (r.operation ≢ shutdown))
handle_message-forwards_example =
    handle_message-forwards library (exact_document-JsonLaws line sent_doc asked_text asking)
      (exact_document-PrintLaws line sent_doc asked_text asking refl) answers asked_text asking
      silence asking-parsed asking-handled
