-- ===== src/NativeHost/Framing/RoundTrip.antt =====
-- What `MessageWriter` writes, `MessageReader` reads.
use ezcap.Base.{
  ℕ, zero, suc, ◌+◌, ◌-◌, min, ◌≤◌, Bool, true, false, ◌||◌, List, [], ◌∷◌, ◌++◌, some, ◌≡◌, refl,
  sym, ap, ◌∙◌, arith, ltb, ◌==◌, length, length-take, length-drop, take, drop, take-append-drop,
  slice-append, append_assoc, append-nil, Text,
}
use ezcap.NativeHost.Framing.{
  max_message_bytes, Answer, moved, interrupted, failed, prefix, frame, send_all, write, read_exact,
  prefix_length, is_utf8, message, check_message, read_body, read_after, read,
}
use ezcap.Policy.Redactor.{is_empty}

-- The calls that move bytes, and no call that fails.
abbrev pub moves : List Answer → ℕ
moves [] = 0
moves (moved n ∷ answers) = moves answers + 1
moves (interrupted ∷ answers) = moves answers
moves (failed ∷ answers) = moves answers

abbrev pub is_steady : List Answer → Bool
is_steady [] = true
is_steady (moved n ∷ answers) = is_steady answers
is_steady (interrupted ∷ answers) = is_steady answers
is_steady (failed ∷ answers) = false

drop-append-le : (m : ℕ) (s t : Text) → m ≤ length s → drop m (s ++ t) ≡ drop m s ++ t
drop-append-le zero s t h = refl
drop-append-le (suc m) [] t h = absurd (omega arith)
drop-append-le (suc m) (c ∷ s) t h = drop-append-le m s t (omega arith)

read_exact-moved :
    (n : ℕ) (answers : List Answer) (k c : ℕ) (input out : Text)
    → read_exact (moved n ∷ answers) (suc k) (c ∷ input) out
      ≡ read_exact answers
          (k - length (take (min n k) input))
          (drop (min n k) input)
          (out ++ c ∷ take (min n k) input)
unfolding read_exact
read_exact-moved n answers k c input out = refl

read_exact-step :
    (n : ℕ) (answers : List Answer) (c : ℕ) (body rest out : Text)
    → read_exact (moved n ∷ answers) (suc (length body)) (c ∷ (body ++ rest)) out
      ≡ read_exact answers
          (length (drop (min n (length body)) body))
          (drop (min n (length body)) body ++ rest)
          (out ++ c ∷ take (min n (length body)) body)
read_exact-step n answers c body rest out =
    let m = min n (length body) in
    let fits : m ≤ length body = omega arith in
    let first : take m (body ++ rest) ≡ take m body = slice-append body rest 0 m (omega arith) in
    let others : drop m (body ++ rest) ≡ drop m body ++ rest = drop-append-le m body rest fits in
    let count : length body - length (take m body) ≡ length (drop m body) =
      ground (arith, length-take m body, length-drop m body) in
    read_exact-moved n answers (length body) c (body ++ rest) out ∙ rw (first, others, count) refl

-- A read of as many bytes as the body has gets them, whatever the pieces.
read_exact-append :
    (answers : List Answer) (body rest out : Text)
    → is_steady answers ≡ true
    → length body ≤ moves answers
    → (left : List Answer) × (read_exact answers (length body) (body ++ rest) out
        ≡ some (record { got = some (out ++ body); input = rest; answers = left }))
      × (is_steady left ≡ true)
      × (moves answers ≤ moves left + length body)
unfolding read_exact
read_exact-append answers [] rest out steady enough = (
  answers,
  ap (λ o. some (record { got = some o; input = rest; answers = answers })) (sym (append-nil out)),
  steady,
  omega arith,
)
read_exact-append [] (c ∷ body) rest out steady enough = absurd (omega arith)
read_exact-append (interrupted ∷ answers) (c ∷ body) rest out steady enough =
    read_exact-append answers (c ∷ body) rest out steady enough
read_exact-append (failed ∷ answers) (c ∷ body) rest out steady enough = absurd (ground arith)
read_exact-append (moved n ∷ answers) (c ∷ body) rest out steady enough =
    let m = min n (length body) in
    let small : length (drop m body) ≤ length body = ground (arith, length-drop m body) in
    let whole : (out ++ c ∷ take m body) ++ drop m body ≡ out ++ c ∷ body =
      append_assoc out (c ∷ take m body) (drop m body)
      ∙ ap (λ t. out ++ c ∷ t) (take-append-drop m body) in
    let (left, end, still, bound) =
      read_exact-append answers (drop m body) rest (out ++ c ∷ take m body) steady (omega arith) in
    let end' = rw whole at end in
    (left, read_exact-step n answers c body rest out ∙ end', still, omega arith)

-- A write of a text sends it whole, whatever the pieces.
send_all-whole :
    (answers : List Answer) (rest sent : Text)
    → is_steady answers ≡ true
    → length rest ≤ moves answers
    → send_all answers rest sent ≡ some (true, sent ++ rest)
unfolding send_all
send_all-whole [] [] sent steady enough = ap (λ t. some (true, t)) (sym (append-nil sent))
send_all-whole [] (c ∷ rest) sent steady enough = absurd (omega arith)
send_all-whole (a ∷ answers) [] sent steady enough =
    ap (λ t. some (true, t)) (sym (append-nil sent))
send_all-whole (interrupted ∷ answers) (c ∷ rest) sent steady enough =
    send_all-whole answers (c ∷ rest) sent steady enough
send_all-whole (failed ∷ answers) (c ∷ rest) sent steady enough = absurd (ground arith)
send_all-whole (moved n ∷ answers) (c ∷ rest) sent steady enough =
    let small = length-drop n rest in
    send_all-whole answers (drop n rest) (sent ++ c ∷ take n rest) steady (omega arith)
    ∙ ap (λ t. some (true, t))
        (append_assoc sent (c ∷ take n rest) (drop n rest)
          ∙ ap (λ t. sent ++ c ∷ t) (take-append-drop n rest))

prefix_length-prefix : (n : ℕ) → n ≤ max_message_bytes → prefix_length (prefix n) ≡ n
unfolding prefix_length prefix
prefix_length-prefix n h = omega arith

length-frame : (payload : Text) → length (frame payload) ≡ length payload + 4
unfolding frame prefix
length-frame payload = omega arith

-- Within the limits of both sides, and valid as the reader checks it.
pub record IsMessage (payload : Text) : Type 0 where
  pub some_bytes : is_empty payload ≡ false
  pub short : length payload ≤ max_message_bytes
  pub valid : is_utf8 payload ≡ true

write-whole :
    (answers : List Answer) (payload : Text)
    → IsMessage payload
    → is_steady answers ≡ true
    → length payload + 4 ≤ moves answers
    → write answers payload ≡ some (true, frame payload)
unfolding write
write-whole answers payload v steady enough =
    let size = length-frame payload in
    let test : (is_empty payload || ltb max_message_bytes (length payload)) ≡ false =
      ground (arith, v.some_bytes, v.short) in
    rw test (send_all-whole answers (frame payload) [] steady (omega arith))

length-nonzero : (s : Text) → is_empty s ≡ false → (length s == 0) ≡ false
length-nonzero [] h = cc
length-nonzero (c ∷ s) h = ground arith

read_body-message :
    (answers : List Answer) (payload rest prefix_bytes : Text)
    → IsMessage payload
    → is_steady answers ≡ true
    → length payload ≤ moves answers
    → (left : List Answer) × (read_body
          (length payload)
          (record { got = some prefix_bytes; input = payload ++ rest; answers = answers })
        ≡ some (message payload, rest, left))
      × (is_steady left ≡ true)
      × (moves answers ≤ moves left + length payload)
unfolding read_body check_message
read_body-message answers payload rest prefix_bytes v steady enough =
    let (left, end, still, bound) = read_exact-append answers payload rest [] steady enough in
    let long : ltb max_message_bytes (length payload) ≡ false = ground (arith, v.short) in
    (left, rw (length-nonzero payload v.some_bytes, long, end, v.valid) refl, still, bound)

frame-append :
    (payload rest : Text) → frame payload ++ rest ≡ prefix (length payload) ++ (payload ++ rest)
unfolding frame
frame-append payload rest = append_assoc (prefix (length payload)) payload rest

read_prefix :
    (answers : List Answer) (n : ℕ) (rest : Text)
    → is_steady answers ≡ true
    → 4 ≤ moves answers
    → (left : List Answer) × (read_exact answers 4 (prefix n ++ rest) []
        ≡ some (record { got = some (prefix n); input = rest; answers = left }))
      × (is_steady left ≡ true)
      × (moves answers ≤ moves left + 4)
unfolding prefix
read_prefix answers n rest steady enough =
    read_exact-append answers (prefix n) rest [] steady enough

read-prefix :
    (answers left : List Answer) (n : ℕ) (rest : Text)
    → prefix_length (prefix n) ≡ n
    → read_exact answers 4 (prefix n ++ rest) []
      ≡ some (record { got = some (prefix n); input = rest; answers = left })
    → read answers (prefix n ++ rest)
      ≡ read_body n (record { got = some (prefix n); input = rest; answers = left })
unfolding read read_after
read-prefix answers left n rest size first =
    ap read_after first
    ∙ ap (λ k. read_body k (record { got = some (prefix n); input = rest; answers = left })) size

read-frame :
    (answers : List Answer) (payload rest : Text)
    → IsMessage payload
    → is_steady answers ≡ true
    → length payload + 4 ≤ moves answers
    → (left : List Answer) × (read answers (frame payload ++ rest)
        ≡ some (message payload, rest, left))
      × (is_steady left ≡ true)
      × (moves answers ≤ moves left + (length payload + 4))
read-frame answers payload rest v steady enough =
    let head : Text = prefix (length payload) in
    let split : frame payload ++ rest ≡ head ++ (payload ++ rest) = frame-append payload rest in
    let (middle, first, calm, used) =
      read_prefix answers (length payload) (payload ++ rest) steady (omega arith) in
    let (left, body, still, more) =
      read_body-message middle payload rest head v calm (omega arith) in
    let size = prefix_length-prefix (length payload) v.short in
    (
      left,
      ap (read answers) split
          ∙ read-prefix answers middle (length payload) (payload ++ rest) size first
          ∙ body,
      still,
      omega arith,
    )

-- The host reads back the message that was written to it, and leaves what follows: every message of
-- 1 byte to 1 MiB that passes the check of UTF-8 is sent whole and read whole, however the system
-- cuts the writes and the reads into pieces and interrupts them, if no call fails and there are
-- as many calls that move bytes as the frame has bytes.
pub read-write :
    (writes reads : List Answer) (payload rest : Text)
    → IsMessage payload
    → is_steady writes ≡ true
    → is_steady reads ≡ true
    → length payload + 4 ≤ moves writes
    → length payload + 4 ≤ moves reads
    → (sent : Text) × (left : List Answer) × (write writes payload ≡ some (true, sent))
      × (read reads (sent ++ rest) ≡ some (message payload, rest, left))
read-write writes reads payload rest v calm steady enough more =
    let (left, end, _, _) = read-frame reads payload rest v steady more in
    (frame payload, left, write-whole writes payload v calm enough, end)
