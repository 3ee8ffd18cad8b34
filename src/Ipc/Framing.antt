-- ===== src/Ipc/Framing.antt =====
-- `IpcCodec::split_frames` of src/ipc/ipc_codec.cpp: the newline-delimited frames of a receive
-- buffer. Each round of the loop passes a newline, so a fuel above the buffer's length is enough.
pub mod Steps
pub mod Lines
pub mod Total
pub mod Cut
use ezcap.Base.{
  ℕ, zero, suc, ◌+◌, ◌-◌, Bool, true, false, List, [], ◌∷◌, ◌++◌, Option, none, some, ltb, leb,
  ◌==◌, if◌then◌else◌, length, take, drop, Text, find_index, find_from,
}

abbrev pub is_newline : ℕ → Bool
is_newline c = c == b'\n'

-- How the loop ends: at the last newline with the frames so far and `search_from`, or at a frame
-- that is too long with the frames so far.
pub data LoopEnd : Type 0 where
  stopped : List Text → ℕ → LoopEnd
  too_large : List Text → LoopEnd
  no_fuel : LoopEnd

unfoldable pub split_loop : ℕ → Text → ℕ → ℕ → List Text → LoopEnd
unfolding find_from
split_loop zero buffer max_bytes search_from frames = no_fuel
split_loop (suc fuel) buffer max_bytes search_from frames =
    elim (find_from is_newline buffer search_from) [
      | none ↦ stopped frames search_from
      | some nl ↦
          let rest =
            split_loop fuel buffer max_bytes (nl + 1)
              (frames ++ take (nl - search_from) (drop search_from buffer) ∷ []) in
          if ltb max_bytes (nl - search_from) then too_large frames else rest
    ]

-- The return value, the frames and the buffer after the call. A failure is always
-- MessageTooLarge, and leaves the frames found before it.
pub record Split : Type 0 where
  pub is_ok : Bool
  pub frames : List Text
  pub buffer : Text

unfoldable pub finish_split : Text → ℕ → LoopEnd → Option Split
finish_split buffer max_bytes no_fuel = none
finish_split buffer max_bytes (too_large frames) =
    some (record { is_ok = false; frames = frames; buffer = buffer })
finish_split buffer max_bytes (stopped frames search_from) =
    let erased = if ltb 0 search_from then drop search_from buffer else buffer in
    if leb max_bytes (length erased)
    then some (record { is_ok = false; frames = frames; buffer = erased })
    else some (record { is_ok = true; frames = frames; buffer = erased })

unfoldable pub split_frames : Text → ℕ → Option Split
unfolding split_loop finish_split
split_frames buffer max_bytes =
    finish_split buffer max_bytes (split_loop (length buffer + 1) buffer max_bytes 0 [])
