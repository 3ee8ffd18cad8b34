-- ===== src/NativeHost/Client.antt =====
-- native_host/src/daemon_client.cpp: the connection to the daemon. What the system answers to each
-- call is an argument.
pub mod Frames
use ezcap.Base.Json.{Json}
use ezcap.Base.{
  ℕ, zero, suc, ◌+◌, ◌-◌, ◌*◌, Bool, true, false, not, ◌&&◌, ◌||◌, List, [], ◌∷◌, ◌++◌, Option,
  none, some, ltb, leb, ◌==◌, if◌then◌else◌, length, take, drop, Text, codes, find_from,
}
use ezcap.Ipc.Framing.{is_newline}
use ezcap.Model.Protocol.{protocol_version, max_request_bytes, Request, operation_name}
use ezcap.NativeHost.Framing.{Answer, send_all}
use ezcap.Policy.Redactor.{is_empty}

abbrev pub max_event_bytes : ℕ
max_event_bytes = 256 * 1024

pub record DaemonClient : Type 0 where
  pub connected : Bool
  pub rx_buffer : Text

abbrev pub new_client : DaemonClient
new_client = record { connected = false; rx_buffer = [] }

-- The loop of `extract_frames`: each round passes a newline, so a fuel above the buffer's length is
-- enough. It gives the frames and `start`.
unfoldable pub extract_loop : ℕ → Text → ℕ → List Text → List Text × ℕ
unfolding find_from
extract_loop zero buffer start frames = (frames, start)
extract_loop (suc fuel) buffer start frames = elim (find_from is_newline buffer start) [
  | none ↦ (frames, start)
  | some newline ↦
      extract_loop fuel buffer (newline + 1)
        (frames ++ take (newline - start) (drop start buffer) ∷ [])
]

-- With what is left in the buffer.
unfoldable pub extract_frames : Text → List Text → List Text × Text
unfolding extract_loop
extract_frames buffer frames =
    let (found, start) = extract_loop (length buffer + 1) buffer 0 frames in
    (found, drop start buffer)

-- How `connect` gets on: the socket, `::connect` with its `errno`, and the owner of the daemon.
pub data Connecting : Type 0 where
  no_socket : Connecting
  no_entry : Connecting
  no_access : Connecting
  refused : Connecting
  other_user : Connecting
  accepted : Connecting

abbrev pub close : DaemonClient → DaemonClient
close client = new_client

-- The error, or `none` for a client that is connected. The path is a fixed one that fits its field.
unfoldable pub connect : Connecting → DaemonClient → Option Text × DaemonClient
connect answer client = if client.connected then (none, client) else elim answer [
  | no_socket ↦ (some (codes "socket creation failed"), client)
  | no_entry ↦ (some (codes "daemon not running (socket missing)"), close client)
  | no_access ↦ (some (codes "permission denied connecting to daemon"), close client)
  | refused ↦ (some (codes "connect failed"), close client)
  | other_user ↦ (some (codes "daemon socket peer uid mismatch"), close client)
  | accepted ↦ (none, record client { connected = true })
]

module _ (js : Json) where
  open js use {Value, parse, dump, string, number, object, discarded}

  -- The parameters are read back from their text; a text that is no document gives the value that
  -- says so.
  abbrev pub params_fields : Text → List (Text × Value)
  params_fields params_json =
      if is_empty params_json
      then []
      else (codes "params", elim (parse params_json) [ none ↦ discarded | some v ↦ v ]) ∷ []

  abbrev pub request_fields : Request → List (Text × Value)
  request_fields request =
      (codes "protocol_version", number request.version)
      ∷ (codes "operation", string (operation_name request.operation))
      ∷ (codes "request_id", string request.request_id)
      ∷ params_fields request.params_json

  -- The frame that `send_request` sends, without its newline.
  unfoldable pub request_frame : Request → Option Text
  request_frame request = dump (object (request_fields request))

  -- Whether the frame with its newline was sent, with what was sent; `none` stands for an exception,
  -- which ends the host, and for a send that waits.
  unfoldable pub send_request : List Answer → Request → DaemonClient → Option (Bool × Text)
  unfolding request_frame
  send_request answers request client =
      if not client.connected then some (false, []) else elim (request_frame request) [
        | none ↦ none
        | some frame ↦
            let sent = send_all answers (frame ++ b'\n' ∷ []) [] in
            if ltb max_request_bytes (length frame) then some (false, []) else sent
      ]

-- `::poll`, and then `::recv` with the bytes that it gives.
pub data Waiting : Type 0 where
  poll_error : Waiting
  interrupted : Waiting
  timeout : Waiting
  hangup : Waiting
  recv_error : Waiting
  nothing_yet : Waiting
  received : Text → Waiting

-- What `poll` ends with: the error, or `none` where it returns true, and the frames.
pub record Polled : Type 0 where
  pub error : Option Text
  pub frames : List Text
  pub client : DaemonClient

abbrev pub fail : Text → DaemonClient → Polled
fail e client = record { error = some e; frames = []; client = client }

unfoldable pub take_in : Text → DaemonClient → Polled
unfolding extract_frames
take_in bytes client =
    if length bytes == 0
    then fail (codes "daemon closed the connection") client
    else if ltb max_event_bytes (length (client.rx_buffer ++ bytes))
    then fail (codes "oversized frame from daemon")
        (record client { rx_buffer = client.rx_buffer ++ bytes })
    else let (frames, left) = extract_frames (client.rx_buffer ++ bytes) [] in
      record { error = none; frames = frames; client = record client { rx_buffer = left } }

unfoldable pub wait : Waiting → DaemonClient → Polled
unfolding take_in
wait poll_error client = fail (codes "poll failed") client
wait interrupted client = record { error = none; frames = []; client = client }
wait timeout client = record { error = none; frames = []; client = client }
wait hangup client = fail (codes "daemon closed the connection") client
wait recv_error client = fail (codes "recv failed") client
wait nothing_yet client = record { error = none; frames = []; client = client }
wait (received bytes) client = take_in bytes client

abbrev pub has_frames : List Text → Bool
has_frames [] = false
has_frames (_ ∷ _) = true

unfoldable pub poll : Waiting → DaemonClient → Polled
unfolding extract_frames wait
poll answer client =
    if not client.connected
    then fail (codes "not connected") client
    else let (frames, left) = extract_frames client.rx_buffer [] in
      let drained : DaemonClient = record client { rx_buffer = left } in
      (if has_frames frames
        then record { error = none; frames = frames; client = drained }
        else wait answer drained)
