-- ===== src/NativeHost/Client/Frames.antt =====
-- The frames that the client takes out of its buffer.
use ezcap.Base.{
  ℕ, zero, suc, ◌+◌, ◌-◌, ◌≤◌, ◌<◌, true, false, List, [], ◌∷◌, ◌++◌, none, some, ◌≡◌, refl, sym,
  ap, ◌∙◌, arith, ltb, ◌==◌, if◌then◌else◌, length, take, drop, Text, Free, All, find_index,
  find_from, find_index-none, append_assoc, append-nil, Bool-cases, Option-cases, inl, inr,
}
use ezcap.Ipc.Framing.Lines.{unlines}
use ezcap.Ipc.Framing.Steps.{behind_line, found_line}
use ezcap.Ipc.Framing.{is_newline}
use ezcap.NativeHost.Client.{
  DaemonClient, extract_loop, extract_frames, Waiting, poll_error, interrupted, timeout, hangup,
  recv_error, nothing_yet, received, take_in, wait, has_frames, poll, max_event_bytes,
}

extract_step :
    (fuel : ℕ) (buffer : Text) (from : ℕ) (frames : List Text) (i : ℕ)
    → find_index is_newline (drop from buffer) ≡ some i
    → extract_loop (suc fuel) buffer from frames
      ≡ extract_loop fuel buffer (from + i + 1) (frames ++ take i (drop from buffer) ∷ [])
unfolding extract_loop find_from
extract_step fuel buffer from frames i found =
    let size : from + i - from ≡ i = omega arith in ground (arith, found, size)

extract_end :
    (fuel : ℕ) (buffer : Text) (from : ℕ) (frames : List Text)
    → find_index is_newline (drop from buffer) ≡ none
    → extract_loop (suc fuel) buffer from frames ≡ (frames, from)
unfolding extract_loop find_from
extract_end fuel buffer from frames nothing = ground arith

extract_loop-unlines :
    (fuel : ℕ) (buffer : Text) (from : ℕ) (frames : List Text)
    → from ≤ length buffer
    → length buffer - from < fuel
    → (fs : List Text) × (k : ℕ) × (extract_loop fuel buffer from frames ≡ (frames ++ fs, k))
      × All (Free is_newline) fs
      × Free is_newline (drop k buffer)
      × (drop from buffer ≡ unlines fs (drop k buffer))
extract_loop-unlines zero buffer from frames within enough = absurd (omega arith)
extract_loop-unlines (suc fuel) buffer from frames within enough =
    elim (Option-cases (find_index is_newline (drop from buffer))) [
      | inl nothing ↦ (
        [],
        from,
        extract_end fuel buffer from frames nothing ∙ ap (λ l. (l, from)) (sym (append-nil frames)),
        tt,
        find_index-none is_newline (drop from buffer) nothing,
        refl,
      )
      | inr (i, found) ↦
          let (line, free, size) = found_line (drop from buffer) i found in
          let f = take i (drop from buffer) in
          let (next, inside) =
            behind_line buffer from f (drop (suc i) (drop from buffer)) line within in
          let end : from + i + 1 ≡ from + length f + 1 = omega arith in
          let (fs, k, loop, lines, rest_free, made) =
            extract_loop-unlines fuel buffer (from + i + 1) (frames ++ f ∷ []) (omega arith)
              (omega arith) in
          (
            f ∷ fs,
            k,
            extract_step fuel buffer from frames i found
                ∙ loop
                ∙ ap (λ l. (l, k)) (append_assoc frames (f ∷ []) fs),
            (free, lines),
            rest_free,
            line ∙ ap (λ u. f ++ b'\n' ∷ u) (sym next ∙ ap (λ j. drop j buffer) (sym end) ∙ made),
          )
    ]

-- What is taken out are lines, and they make up the buffer with what is left, which has no newline.
pub record AreFrames (buffer : Text) (fs : List Text) (rest : Text) : Type 0 where
  pub made : buffer ≡ unlines fs rest
  pub lines : All (Free is_newline) fs
  pub rest_free : Free is_newline rest

extract_frames-AreFrames :
    (buffer : Text) → AreFrames buffer (extract_frames buffer []).0 (extract_frames buffer []).1
unfolding extract_frames
extract_frames-AreFrames buffer =
    let (fs, k, loop, free, rest_free, made) =
      extract_loop-unlines (length buffer + 1) buffer 0 [] (omega arith) (omega arith) in
    rw loop (record { made = made; lines = free; rest_free = rest_free })

-- The bytes that a wait brings.
abbrev pub bytes_of : Waiting → Text
bytes_of (received bytes) = bytes
bytes_of _ = []

wait-AreFrames :
    (answer : Waiting) (client : DaemonClient)
    → Free is_newline client.rx_buffer
    → (wait answer client).error ≡ none
    → AreFrames
        (client.rx_buffer ++ bytes_of answer)
        (wait answer client).frames
        (wait answer client).client.rx_buffer
unfolding wait take_in
wait-AreFrames poll_error client free h = cc
wait-AreFrames hangup client free h = cc
wait-AreFrames recv_error client free h = cc
wait-AreFrames interrupted client free h = record {
  made = append-nil client.rx_buffer;
  lines = tt;
  rest_free = free;
}
wait-AreFrames timeout client free h = record {
  made = append-nil client.rx_buffer;
  lines = tt;
  rest_free = free;
}
wait-AreFrames nothing_yet client free h = record {
  made = append-nil client.rx_buffer;
  lines = tt;
  rest_free = free;
}
wait-AreFrames (received bytes) client free h = elim (Bool-cases (length bytes == 0)) [
  | inl e ↦ absurd (ground arith)
  | inr some_bytes ↦ elim (Bool-cases (ltb max_event_bytes (length (client.rx_buffer ++ bytes)))) [
    | inl long ↦ absurd (ground arith)
    | inr short ↦ rw (some_bytes, short) (extract_frames-AreFrames (client.rx_buffer ++ bytes))
  ]
]

-- The bytes that a poll takes in: none where frames were waiting in the buffer.
abbrev pub read_by : Waiting → DaemonClient → Text
read_by answer client =
    if has_frames (extract_frames client.rx_buffer []).0 then [] else bytes_of answer

no_frames : (fs : List Text) (rest : Text) → has_frames fs ≡ false → unlines fs rest ≡ rest
no_frames [] rest h = refl
no_frames (f ∷ fs) rest h = cc

poll-off :
    (answer : Waiting) (client : DaemonClient)
    → client.connected ≡ false
    → (poll answer client).error ≡ none
    → ⊥
unfolding poll
poll-off answer client off h = ground arith

module _ (answer : Waiting) (client : DaemonClient) (on : client.connected ≡ true) where
  poll-drained :
      has_frames (extract_frames client.rx_buffer []).0 ≡ true
      → poll answer client ≡ record {
        error = none;
        frames = (extract_frames client.rx_buffer []).0;
        client = record client { rx_buffer = (extract_frames client.rx_buffer []).1 };
      }
  unfolding poll
  poll-drained h = rw (on, h) refl

  poll-waiting :
      has_frames (extract_frames client.rx_buffer []).0 ≡ false
      → poll answer client
        ≡ wait answer (record client { rx_buffer = (extract_frames client.rx_buffer []).1 })
  unfolding poll
  poll-waiting h = rw (on, h) refl

-- A poll that succeeds loses no byte and makes none up: the frames that it gives are whole lines,
-- and with what stays in the buffer, which has no newline, they are the buffer before it and the
-- bytes that arrived.
pub poll-AreFrames :
    (answer : Waiting) (client : DaemonClient)
    → (poll answer client).error ≡ none
    → AreFrames
        (client.rx_buffer ++ read_by answer client)
        (poll answer client).frames
        (poll answer client).client.rx_buffer
poll-AreFrames answer client h =
    let drained = extract_frames client.rx_buffer [] in
    let old = extract_frames-AreFrames client.rx_buffer in
    elim (Bool-cases client.connected) [
      | inr off ↦ absurd (poll-off answer client off h)
      | inl on ↦ elim (Bool-cases (has_frames drained.0)) [
        | inl some_frames ↦
            rw (poll-drained answer client on some_frames, some_frames, append-nil client.rx_buffer)
              old
        | inr none_there ↦
            let left : DaemonClient = record client { rx_buffer = drained.1 } in
            let same : client.rx_buffer ≡ drained.1 =
              old.made ∙ no_frames drained.0 drained.1 none_there in
            let step = poll-waiting answer client on none_there in
            let new = wait-AreFrames answer left old.rest_free (ap (λ p. p.error) (sym step) ∙ h) in
            rw (step, none_there)
              (record {
                made = ap (λ t. t ++ bytes_of answer) same ∙ new.made;
                lines = new.lines;
                rest_free = new.rest_free;
              })
      ]
    ]
