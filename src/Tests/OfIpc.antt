-- ===== src/Tests/OfIpc.antt =====
-- Frames, requests and a client.
use ezcap.Base.Json.{Json}
use ezcap.Base.Result.{ok}
use ezcap.Base.{
  ℕ, ◌≤◌, Bool, true, false, List, [], ◌∷◌, ◌++◌, some, length, Text, codes, ◌≡◌, refl, ◌↔◌, arith,
  text_eq,
}
use ezcap.Ipc.Framing.{Split, split_frames}
use ezcap.Ipc.Framing.Lines.{unlines, AllLines, IsRest, split_frames_iff, split_frames-append}
use ezcap.Ipc.Framing.Total.{split_frames-total}
use ezcap.Ipc.Codec.{parse_request}
use ezcap.Ipc.Codec.Requests.{IsRequestOf, parse_request-IsRequestOf}
use ezcap.Ipc.Server.{Client, deadlock, handle_frame, handle_frames, client_loop}
use ezcap.Ipc.Server.Buffer.{keep}
use ezcap.Ipc.Server.Handling.{IsIdle, After}
use ezcap.Ipc.Server.Deadlock.{IsStuck, handle_frame-deadlock_iff}
use ezcap.Ipc.Server.Loop.{client_loop-handle_frames}
use ezcap.Model.Protocol.{max_request_bytes, subscribe, Request, Response}
use ezcap.Model.ErrorCodes.{internal_error}
use ezcap.Tests.Documents.{Tree, object, fields, string, number, one_document}

abbrev lines : List Text
lines = codes "ab" ∷ codes "" ∷ codes "c" ∷ []

abbrev buffer : Text
buffer = codes "ab\n\nc\nrest"

split_frames_iff_example :
    (split_frames buffer 64 ≡ some (record { is_ok = true; frames = lines; buffer = codes "rest" }))
    ↔ ((buffer ≡ unlines lines (codes "rest")) × AllLines 64 lines × IsRest 64 (codes "rest"))
split_frames_iff_example = split_frames_iff buffer (codes "rest") 64 lines

split_frames-append_example :
    split_frames (buffer ++ codes "!\nx") 64
    ≡ some (record { is_ok = true; frames = lines ++ codes "rest!" ∷ []; buffer = codes "x" })
unfolding split_frames
split_frames-append_example =
    split_frames-append buffer (codes "!\nx") (codes "rest") (codes "x") 64 lines
      (codes "rest!" ∷ []) refl refl

split_frames-total_example : (split : Split) × (split_frames buffer 2 ≡ some split)
split_frames-total_example = split_frames-total buffer 2

abbrev frame : Text
frame = codes "{...}"

abbrev subscription : Tree
subscription = object (
    fields (
      (codes "protocol_version", number 1)
      ∷ (codes "operation", string (codes "subscribe"))
      ∷ (codes "request_id", string (codes "r9"))
      ∷ []))

abbrev library : Json
library = one_document frame subscription (codes "{}")

abbrev ninth : Request
ninth = record { version = 1; operation = subscribe; request_id = codes "r9"; params_json = [] }

ninth_parses : parse_request library frame max_request_bytes ≡ ok ninth
unfolding parse_request text_eq ezcap.Ipc.Codec.has_forbidden_field
    ezcap.Model.Protocol.operation_from_name ezcap.Ipc.Codec.read_params
ninth_parses = refl

parse_request-IsRequestOf_example :
    (length frame ≤ max_request_bytes)
    × (doc : Tree) × (library.parse frame ≡ some doc)
    × IsRequestOf library doc ninth
parse_request-IsRequestOf_example =
    parse_request-IsRequestOf library frame max_request_bytes ninth ninth_parses

abbrev taking : List Text → Text → Bool
taking sent message = true

abbrev answering : ℕ → Request → Response
answering n r = record {
  request_id = r.request_id;
  is_ok = true;
  result_json = [];
  error = record { code = internal_error; message = [] };
}

abbrev subscribed : Client
subscribed = record {
  fd = 5;
  rx_buffer = [];
  subscriptions =
      codes "a"
      ∷ codes "b"
      ∷ codes "c"
      ∷ codes "d"
      ∷ codes "e"
      ∷ codes "f"
      ∷ codes "g"
      ∷ codes "h"
      ∷ [];
  out_queue = [];
  out_held = false;
  sent = [];
  dropped = 0;
  calls = 0;
}

subscribed-IsIdle : IsIdle subscribed
subscribed-IsIdle = record { few = omega arith; drained = refl; free = refl }

handle_frame-deadlock_example :
    (handle_frame taking library answering subscribed frame ≡ deadlock)
    ↔ IsStuck taking library answering subscribed frame
handle_frame-deadlock_example =
    handle_frame-deadlock_iff taking library answering subscribed frame subscribed-IsIdle

abbrev fresh : Client
fresh = record subscribed { subscriptions = codes "a" ∷ [] }

fresh-IsIdle : IsIdle fresh
fresh-IsIdle = record { few = omega arith; drained = refl; free = refl }

-- A frame in two parts, and the beginning of another.
abbrev parts : List Text
parts = codes "{.." ∷ codes ".}\n{." ∷ []

client_loop-handle_frames_example :
    (client_loop taking library answering fresh parts
      ≡ some (keep (codes "{.") (handle_frames taking library answering fresh (frame ∷ []))))
    × After IsIdle (keep (codes "{.") (handle_frames taking library answering fresh (frame ∷ [])))
client_loop-handle_frames_example =
    client_loop-handle_frames taking library answering fresh parts (frame ∷ []) (codes "{.")
      fresh-IsIdle refl refl (refl, omega arith, tt) (refl, omega arith)

ninth-IsStuck : IsStuck taking library answering subscribed frame
unfolding ezcap.Ipc.Codec.encode_error
ninth-IsStuck = record {
  request = ninth;
  parses = ninth_parses;
  subscribes = refl;
  full = omega arith;
  message = codes "{}";
  encodes = refl;
}

-- The ninth subscription stops the client's thread.
ninth-deadlock : handle_frame taking library answering subscribed frame ≡ deadlock
ninth-deadlock =
    (handle_frame-deadlock_iff taking library answering subscribed frame subscribed-IsIdle).1
      ninth-IsStuck
