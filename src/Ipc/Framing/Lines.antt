-- ===== src/Ipc/Framing/Lines.antt =====
-- `split_frames` against the meaning of a line protocol.
use mathlib.Core.Path.{subst}
use ezcap.Base.{
  ℕ, zero, suc, ◌+◌, ◌-◌, ◌≤◌, ◌<◌, true, List, [], ◌∷◌, ◌++◌, some, ◌≡◌, refl, sym, ap, ◌∙◌, inl,
  inr, ◌↔◌, arith, ltb, if◌then◌else◌, Bool-cases, Option-cases, length, take, drop, Text, Free,
  find_index, find_index-none, append_assoc,
}
use ezcap.Ipc.Framing.Steps.{
  split_step, split_end, erased, behind_line, split_too_large, found_line,
}
use ezcap.Ipc.Framing.{
  is_newline, LoopEnd, stopped, too_large, no_fuel, split_loop, finish_split, split_frames,
}

-- Frames, each with its newline, and an unfinished rest.
abbrev pub unlines : List Text → Text → Text
unlines [] rest = rest
unlines (f ∷ fs) rest = f ++ b'\n' ∷ unlines fs rest

-- Lines of at most `max_bytes` bytes.
abbrev pub AllLines : ℕ → List Text → Type 0
AllLines max_bytes [] = Unit {0}
AllLines max_bytes (f ∷ fs) = Free is_newline f × (length f ≤ max_bytes) × AllLines max_bytes fs

abbrev pub IsRest : ℕ → Text → Type 0
IsRest max_bytes rest = Free is_newline rest × (length rest < max_bytes)

-- The loop over a buffer whose remainder is known to be made of lines.
split_loop-unlines :
    (fs : List Text) (fuel : ℕ) (buffer : Text) (max_bytes from : ℕ) (frames : List Text)
    (rest : Text)
    → drop from buffer ≡ unlines fs rest
    → from ≤ length buffer
    → length buffer - from < fuel
    → AllLines max_bytes fs
    → Free is_newline rest
    → (k : ℕ) × (split_loop fuel buffer max_bytes from frames ≡ stopped (frames ++ fs) k)
      × (drop k buffer ≡ rest)
split_loop-unlines fs zero buffer max_bytes from frames rest e within fuel lines free =
    elim fuel [ ]
split_loop-unlines [] (suc fuel) buffer max_bytes from frames rest e within enough lines free =
    (from, last, e)
  where
    last : split_loop (suc fuel) buffer max_bytes from frames ≡ stopped (frames ++ []) from
    last = split_end fuel buffer max_bytes from frames rest e free
split_loop-unlines (f ∷ fs) (suc fuel) buffer max_bytes from frames rest e within enough
      (line, short, lines) free =
    let (next, inside) = behind_line buffer from f (unlines fs rest) e within in
    let (k, loop, end) =
      split_loop-unlines fs fuel buffer max_bytes (from + length f + 1) (frames ++ f ∷ []) rest next
        inside (omega arith) lines free in
    (
      k,
      split_step fuel buffer max_bytes from frames f (unlines fs rest) e line short
          ∙ loop
          ∙ ap (λ l. stopped l k) (append_assoc frames (f ∷ []) fs),
      end,
    )

-- A buffer of lines within the limit and a rest below it is split into just those.
split_frames-unlines :
    (fs : List Text) (rest : Text) (max_bytes : ℕ)
    → AllLines max_bytes fs
    → IsRest max_bytes rest
    → split_frames (unlines fs rest) max_bytes
      ≡ some (record { is_ok = true; frames = fs; buffer = rest })
unfolding split_frames finish_split
split_frames-unlines fs rest max_bytes lines (free, small) =
    let buffer = unlines fs rest in
    let (k, loop, end) =
      split_loop-unlines fs (length buffer + 1) buffer max_bytes 0 [] rest refl (omega arith)
        (omega arith) lines free in
    let kept : (if ltb 0 k then drop k buffer else buffer) ≡ rest = erased buffer k rest end in
    ground (arith, loop, kept)

-- The other way: what the loop stops with are lines, and they make up the remainder.
split_loop-lines :
    (fuel : ℕ) (buffer : Text) (max_bytes from : ℕ) (frames : List Text) (got : List Text) (k : ℕ)
    → from ≤ length buffer
    → split_loop fuel buffer max_bytes from frames ≡ stopped got k
    → (fs : List Text) × (got ≡ frames ++ fs)
      × AllLines max_bytes fs
      × Free is_newline (drop k buffer)
      × (drop from buffer ≡ unlines fs (drop k buffer))
unfolding split_loop
split_loop-lines zero buffer max_bytes from frames got k within e = cc
split_loop-lines (suc fuel) buffer max_bytes from frames got k within e =
    elim (Option-cases (find_index is_newline (drop from buffer))) [
      | inl nothing ↦
          let free = find_index-none is_newline (drop from buffer) nothing in
          let last = split_end fuel buffer max_bytes from frames (drop from buffer) refl free in
          let at_end : from ≡ k = cc in
          (
            [],
            cc,
            tt,
            subst (λ j. Free is_newline (drop j buffer)) at_end free,
            ap (λ j. drop j buffer) at_end,
          )
      | inr (i, found) ↦ elim (Bool-cases (ltb max_bytes i)) [
        | inl long ↦ let over = split_too_large fuel buffer max_bytes from frames i found long in cc
        | inr short ↦
            let (line, free, size) = found_line (drop from buffer) i found in
            let f = take i (drop from buffer) in
            let t = drop (suc i) (drop from buffer) in
            let step =
              split_step fuel buffer max_bytes from frames f t line free (ground (arith, size)) in
            let (next, inside) = behind_line buffer from f t line within in
            let (fs, all_got, lines, rest_free, made) =
              split_loop-lines fuel buffer max_bytes (from + length f + 1) (frames ++ f ∷ []) got k
                inside (sym step ∙ e) in
            (
              f ∷ fs,
              all_got ∙ append_assoc frames (f ∷ []) fs,
              (free, ground (arith, size), lines),
              rest_free,
              line ∙ ap (λ u. f ++ b'\n' ∷ u) (sym next ∙ made),
            )
      ]
    ]

erased_drop : (buffer : Text) (k : ℕ) → (if ltb 0 k then drop k buffer else buffer) ≡ drop k buffer
erased_drop buffer k = erased buffer k (drop k buffer) refl

finish_split-lines :
    (buffer rest : Text) (max_bytes : ℕ) (fs : List Text) (end : LoopEnd)
    → split_loop (length buffer + 1) buffer max_bytes 0 [] ≡ end
    → finish_split buffer max_bytes end ≡ some (record { is_ok = true; frames = fs; buffer = rest })
    → (buffer ≡ unlines fs rest) × AllLines max_bytes fs × IsRest max_bytes rest
unfolding finish_split
finish_split-lines buffer rest max_bytes fs no_fuel loop e = cc
finish_split-lines buffer rest max_bytes fs (too_large frames) loop e = ground arith
finish_split-lines buffer rest max_bytes fs (stopped got k) loop e =
    let (gs, all_got, lines, free, made) =
      split_loop-lines (length buffer + 1) buffer max_bytes 0 [] got k (omega arith) loop in
    let same_frames : got ≡ fs = ground arith in
    let same_rest : drop k buffer ≡ rest = ground (arith, erased_drop buffer k) in
    let small : length rest < max_bytes = ground (arith, erased_drop buffer k) in
    let frames_are : gs ≡ fs = sym all_got ∙ same_frames in
    (
      made ∙ ap (unlines gs) same_rest ∙ ap (λ l. unlines l rest) frames_are,
      subst (AllLines max_bytes) frames_are lines,
      (subst (Free is_newline) same_rest free, small),
    )

split_frames-lines :
    (buffer rest : Text) (max_bytes : ℕ) (fs : List Text)
    → split_frames buffer max_bytes ≡ some (record { is_ok = true; frames = fs; buffer = rest })
    → (buffer ≡ unlines fs rest) × AllLines max_bytes fs × IsRest max_bytes rest
unfolding split_frames
split_frames-lines buffer rest max_bytes fs e =
    finish_split-lines buffer rest max_bytes fs
      (split_loop (length buffer + 1) buffer max_bytes 0 []) refl e

AllLines-append :
    (m : ℕ) (fs gs : List Text) → AllLines m fs → AllLines m gs → AllLines m (fs ++ gs)
AllLines-append m [] gs h k = k
AllLines-append m (f ∷ fs) gs (line, short, h) k = (line, short, AllLines-append m fs gs h k)

unlines-append :
    (fs : List Text) (rest more : Text) → unlines fs rest ++ more ≡ unlines fs (rest ++ more)
unlines-append [] rest more = refl
unlines-append (f ∷ fs) rest more =
    append_assoc f (b'\n' ∷ unlines fs rest) more
    ∙ ap (λ u. f ++ b'\n' ∷ u) (unlines-append fs rest more)

unlines_twice :
    (fs gs : List Text) (rest : Text) → unlines fs (unlines gs rest) ≡ unlines (fs ++ gs) rest
unlines_twice [] gs rest = refl
unlines_twice (f ∷ fs) gs rest = ap (λ u. f ++ b'\n' ∷ u) (unlines_twice fs gs rest)

-- A successful call has split the buffer into lines within the limit and a rest below it, and a
-- buffer that is made of such lines and such a rest is split into them: the call succeeds on no
-- other buffer.
pub split_frames_iff :
    (buffer rest : Text) (max_bytes : ℕ) (fs : List Text)
    → (split_frames buffer max_bytes ≡ some (record { is_ok = true; frames = fs; buffer = rest }))
      ↔ ((buffer ≡ unlines fs rest) × AllLines max_bytes fs × IsRest max_bytes rest)
split_frames_iff buffer rest max_bytes fs = (
  split_frames-lines buffer rest max_bytes fs,
  λ (made, lines, small).
      ap (λ b. split_frames b max_bytes) made ∙ split_frames-unlines fs rest max_bytes lines small,
)

-- It does not matter how the bytes arrive: if a buffer is split and then its rest with more bytes
-- behind it, the frames are those of the whole, in order, and so is the rest.
pub split_frames-append :
    (first more rest rest' : Text) (max_bytes : ℕ) (fs gs : List Text)
    → split_frames first max_bytes ≡ some (record { is_ok = true; frames = fs; buffer = rest })
    → split_frames (rest ++ more) max_bytes
      ≡ some (record { is_ok = true; frames = gs; buffer = rest' })
    → split_frames (first ++ more) max_bytes
      ≡ some (record { is_ok = true; frames = fs ++ gs; buffer = rest' })
split_frames-append first more rest rest' max_bytes fs gs e d =
    let (made, lines, small) = (split_frames_iff first rest max_bytes fs).0 e in
    let (made', lines', small') = (split_frames_iff (rest ++ more) rest' max_bytes gs).0 d in
    (split_frames_iff (first ++ more) rest' max_bytes (fs ++ gs)).1 (
      ap (λ b. b ++ more) made
          ∙ unlines-append fs rest more
          ∙ ap (unlines fs) made'
          ∙ unlines_twice fs gs rest',
      AllLines-append max_bytes fs gs lines lines',
      small',
    )
