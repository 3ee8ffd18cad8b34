-- ===== src/NativeHost/Framing.antt =====
-- The messages of the browser: native_host/src/message_writer.cpp and message_reader.cpp. What the
-- system answers to each `read` and `write` is a list of answers; where the list ends, the call
-- waits. Where a mask on a byte selects its high bits, that is a division.
pub mod RoundTrip
pub mod Shape
use ezcap.Base.{
  ℕ, zero, suc, ◌+◌, ◌-◌, ◌*◌, ◌/◌, ◌%◌, ◌^◌, min, Bool, true, false, not, ◌&&◌, ◌||◌, List, [],
  ◌∷◌, ◌++◌, Option, none, some, ltb, leb, ◌==◌, if◌then◌else◌, length, take, drop, all, Text,
  codes,
}
use ezcap.Policy.Redactor.{is_empty}

abbrev pub max_message_bytes : ℕ
max_message_bytes = 1024 * 1024

-- What `write` or `read` returns: a call that moves bytes moves one more than the number, at most as
-- many as are asked for and, in a read, as are there; with none left a read is at the end of file.
pub data Answer : Type 0 where
  moved : ℕ → Answer
  interrupted : Answer
  failed : Answer

-- The four bytes of the length, the low one first.
unfoldable pub prefix : ℕ → Text
prefix n = n % 256 ∷ n / 256 % 256 ∷ n / 65536 % 256 ∷ n / 16777216 % 256 ∷ []

unfoldable pub frame : Text → Text
unfolding prefix
frame payload = prefix (length payload) ++ payload

-- The loop over `::write`: whether all of it was sent, with what was sent, or `none` while it waits.
unfoldable pub send_all : List Answer → Text → Text → Option (Bool × Text)
send_all [] [] sent = some (true, sent)
send_all [] (c ∷ rest) sent = none
send_all (a ∷ answers) [] sent = some (true, sent)
send_all (interrupted ∷ answers) (c ∷ rest) sent = send_all answers (c ∷ rest) sent
send_all (failed ∷ answers) (c ∷ rest) sent = some (false, sent)
send_all (moved n ∷ answers) (c ∷ rest) sent =
    send_all answers (drop n rest) (sent ++ c ∷ take n rest)

unfoldable pub write : List Answer → Text → Option (Bool × Text)
unfolding send_all frame
write answers payload =
    if is_empty payload || ltb max_message_bytes (length payload)
    then some (false, [])
    else send_all answers (frame payload) []

-- A read that has ended, with the input and the answers that are left.
pub record ReadEnd : Type 0 where
  pub got : Option Text
  pub input : Text
  pub answers : List Answer

-- `read_exact`: `out` is what stands in the buffer, `none` while it waits.
unfoldable pub read_exact : List Answer → ℕ → Text → Text → Option ReadEnd
read_exact answers zero input out =
    some (record { got = some out; input = input; answers = answers })
read_exact [] (suc count) input out = none
read_exact (interrupted ∷ answers) (suc count) input out = read_exact answers (suc count) input out
read_exact (failed ∷ answers) (suc count) input out =
    some (record { got = none; input = input; answers = answers })
read_exact (moved n ∷ answers) (suc count) [] out =
    some (record { got = none; input = []; answers = answers })
read_exact (moved n ∷ answers) (suc count) (c ∷ input) out =
    read_exact answers (count - length (take (min n count) input)) (drop (min n count) input)
      (out ++ c ∷ take (min n count) input)

-- `prefix[0] | prefix[1] << 8 | prefix[2] << 16 | prefix[3] << 24`, the bits of which are apart.
unfoldable pub prefix_length : Text → ℕ
prefix_length (a ∷ b ∷ c ∷ d ∷ []) = a + b * 256 + c * 65536 + d * 16777216
prefix_length _ = 0

-- How many bytes follow a first byte of 0x80 or more, or `none` for one that starts nothing.
abbrev pub extra_bytes : ℕ → Option ℕ
extra_bytes c =
    if c / 32 == 6
    then some 1
    else if c / 16 == 14
    then some 2
    else if c / 8 == 30
    then some 3
    else none

abbrev pub is_continuation : ℕ → Bool
is_continuation c = c / 64 == 2

-- The loop over the bytes, from what is left at its position; each round passes one or more, so a
-- fuel of the text's length is enough.
unfoldable pub check_bytes : ℕ → Text → Bool
check_bytes fuel [] = true
check_bytes zero (c ∷ rest) = false
check_bytes (suc fuel) (c ∷ rest) =
    if ltb c 128 then check_bytes fuel rest else elim (extra_bytes c) [
      | none ↦ false
      | some extra ↦
          let next = check_bytes fuel (drop extra rest) in
          if ltb (length rest) extra
          then false
          else if not (all is_continuation (take extra rest))
          then false
          else next
    ]

unfoldable pub is_utf8 : Text → Bool
unfolding check_bytes
is_utf8 s = check_bytes (length s) s

-- How `MessageReader::read` ends: with a message or with the code of an error, and with what is left.
pub data Received : Type 0 where
  message : Text → Received
  error : Text → Received

unfoldable pub check_message : Text → Received
unfolding is_utf8
check_message out = if is_utf8 out then message out else error (codes "invalid_json")

abbrev pub ended : Received → ReadEnd → Received × Text × List Answer
ended r e = (r, e.input, e.answers)

unfoldable pub read_body : ℕ → ReadEnd → Option (Received × Text × List Answer)
unfolding read_exact check_message
read_body n e =
    if n == 0
    then some (ended (error (codes "invalid_framing")) e)
    else if ltb max_message_bytes n
    then some (ended (error (codes "message_too_large")) e)
    else elim (read_exact e.answers n e.input []) [
      | none ↦ none
      | some b ↦ elim b.got [
        | none ↦ some (ended (error (codes "eof")) b)
        | some out ↦ some (ended (check_message out) b)
      ]
    ]

-- What follows the read of the prefix.
unfoldable pub read_after : Option ReadEnd → Option (Received × Text × List Answer)
unfolding read_body prefix_length
read_after none = none
read_after (some e) = elim e.got [
  | none ↦ some (ended (error (codes "eof")) e)
  | some bytes ↦ read_body (prefix_length bytes) e
]

unfoldable pub read : List Answer → Text → Option (Received × Text × List Answer)
unfolding read_exact read_after
read answers input = read_after (read_exact answers 4 input [])
