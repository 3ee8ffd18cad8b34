-- ===== src/Ipc/Framing/Total.antt =====
-- The fuel of the loop of `split_frames`.
use ezcap.Base.{
  ℕ, zero, suc, ◌+◌, ◌-◌, ◌≤◌, ◌<◌, true, false, List, [], ◌∷◌, ◌++◌, some, ◌≡◌, ◌≢◌, refl, sym,
  ◌∙◌, inl, inr, arith, ltb, leb, if◌then◌else◌, Bool-cases, Option-cases, length, take, drop, Text,
  find_index, find_index-none,
}
use ezcap.Ipc.Framing.{
  is_newline, LoopEnd, stopped, too_large, no_fuel, split_loop, Split, finish_split, split_frames,
}
use ezcap.Ipc.Framing.Steps.{split_step, split_end, behind_line, split_too_large, found_line}

split_loop-total :
    (fuel : ℕ) (buffer : Text) (max_bytes from : ℕ) (frames : List Text)
    → from ≤ length buffer
    → length buffer - from < fuel
    → split_loop fuel buffer max_bytes from frames ≢ no_fuel
split_loop-total zero buffer max_bytes from frames within enough e = omega arith
split_loop-total (suc fuel) buffer max_bytes from frames within enough e =
    elim (Option-cases (find_index is_newline (drop from buffer))) [
      | inl nothing ↦
          let free = find_index-none is_newline (drop from buffer) nothing in
          let last = split_end fuel buffer max_bytes from frames (drop from buffer) refl free in cc
      | inr (i, found) ↦ elim (Bool-cases (ltb max_bytes i)) [
        | inl long ↦ let over = split_too_large fuel buffer max_bytes from frames i found long in cc
        | inr short ↦
            let (line, free, size) = found_line (drop from buffer) i found in
            let f = take i (drop from buffer) in
            let t = drop (suc i) (drop from buffer) in
            let step =
              split_step fuel buffer max_bytes from frames f t line free (ground (arith, size)) in
            let (next, inside) = behind_line buffer from f t line within in
            split_loop-total fuel buffer max_bytes (from + length f + 1) (frames ++ f ∷ []) inside
              (omega arith) (sym step ∙ e)
      ]
    ]

finish_split-total :
    (buffer : Text) (max_bytes : ℕ) (end : LoopEnd)
    → end ≢ no_fuel
    → (split : Split) × (finish_split buffer max_bytes end ≡ some split)
unfolding finish_split
finish_split-total buffer max_bytes no_fuel h = absurd (h refl)
finish_split-total buffer max_bytes (too_large frames) h =
    (record { is_ok = false; frames = frames; buffer = buffer }, refl)
finish_split-total buffer max_bytes (stopped frames k) h =
    let kept = if ltb 0 k then drop k buffer else buffer in
    elim (Bool-cases (leb max_bytes (length kept))) [
      | inl e ↦ (record { is_ok = false; frames = frames; buffer = kept }, rw e)
      | inr e ↦ (record { is_ok = true; frames = frames; buffer = kept }, rw e)
    ]

-- `split_frames` returns on every buffer: the fuel never runs out.
pub split_frames-total :
    (buffer : Text) (max_bytes : ℕ) → (split : Split) × (split_frames buffer max_bytes ≡ some split)
unfolding split_frames
split_frames-total buffer max_bytes =
    finish_split-total buffer max_bytes (split_loop (length buffer + 1) buffer max_bytes 0 [])
      (split_loop-total (length buffer + 1) buffer max_bytes 0 [] (omega arith) (omega arith))
