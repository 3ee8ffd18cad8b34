-- ===== src/Ipc/Framing/Steps.antt =====
-- One round of the loop of `split_frames`, in each of its cases.
use ezcap.Base.{
  ℕ, zero, suc, ◌+◌, ◌-◌, ◌≤◌, true, List, [], ◌∷◌, ◌++◌, none, some, ◌≡◌, refl, ap, ◌∙◌, arith,
  ltb, if◌then◌else◌, length, take, drop, drop-cons, drop-append, Text, Free, find_index, find_from,
  find_index-some, find_index-lt, find_index_free, find_index-append, find_index_split, append-nil,
  length-take, take-length-append,
}
use ezcap.Ipc.Framing.{is_newline, stopped, too_large, split_loop}

-- One round at a line that is short enough, and at one that is too long.
pub split_step :
    (fuel : ℕ) (buffer : Text) (max_bytes from : ℕ) (frames : List Text) (f t : Text)
    → drop from buffer ≡ f ++ b'\n' ∷ t
    → Free is_newline f
    → length f ≤ max_bytes
    → split_loop (suc fuel) buffer max_bytes from frames
      ≡ split_loop fuel buffer max_bytes (from + length f + 1) (frames ++ f ∷ [])
unfolding split_loop find_from
split_step fuel buffer max_bytes from frames f t e line short =
    let hit : find_index is_newline (drop from buffer) ≡ some (length f) =
      ap (find_index is_newline) e ∙ find_index-append is_newline f b'\n' t line refl in
    let size : from + length f - from ≡ length f = omega arith in
    let same : take (length f) (drop from buffer) ≡ f =
      ap (take (length f)) e ∙ take-length-append f (b'\n' ∷ t) in
    ground (arith, hit, size, same)

pub split_end :
    (fuel : ℕ) (buffer : Text) (max_bytes from : ℕ) (frames : List Text) (rest : Text)
    → drop from buffer ≡ rest
    → Free is_newline rest
    → split_loop (suc fuel) buffer max_bytes from frames ≡ stopped (frames ++ []) from
unfolding split_loop find_from
split_end fuel buffer max_bytes from frames rest e free =
    let hit : find_index is_newline (drop from buffer) ≡ none =
      ap (find_index is_newline) e ∙ find_index_free is_newline rest free in
    ground (arith, hit, append-nil frames)

pub erased :
    (buffer : Text) (k : ℕ) (rest : Text)
    → drop k buffer ≡ rest
    → (if ltb 0 k then drop k buffer else buffer) ≡ rest
erased buffer zero rest e = e
erased buffer (suc k) rest e = ground arith

-- What follows a line in the buffer.
pub behind_line :
    (buffer : Text) (from : ℕ) (f t : Text)
    → drop from buffer ≡ f ++ b'\n' ∷ t
    → from ≤ length buffer
    → (drop (from + length f + 1) buffer ≡ t) × (from + length f + 1 ≤ length buffer)
behind_line buffer from f t e within =
    let (after, inside) = drop-append buffer from f (b'\n' ∷ t) within e in
    let (here, next, more) = drop-cons buffer (from + length f) b'\n' t after in (next, omega arith)

pub split_too_large :
    (fuel : ℕ) (buffer : Text) (max_bytes from : ℕ) (frames : List Text) (i : ℕ)
    → find_index is_newline (drop from buffer) ≡ some i
    → ltb max_bytes i ≡ true
    → split_loop (suc fuel) buffer max_bytes from frames ≡ too_large frames
unfolding split_loop find_from
split_too_large fuel buffer max_bytes from frames i found long =
    let size : from + i - from ≡ i = omega arith in ground (arith, found, size)

-- A newline that is found ends a line.
pub found_line :
    (d : Text) (i : ℕ)
    → find_index is_newline d ≡ some i
    → (d ≡ take i d ++ b'\n' ∷ drop (suc i) d)
      × Free is_newline (take i d)
      × (length (take i d) ≡ i)
found_line d i found =
    let (c, split, hit) = find_index_split is_newline d i found in
    let nl : c ≡ b'\n' = ground arith in
    (
      split ∙ ap (λ b. take i d ++ b ∷ drop (suc i) d) nl,
      find_index-some is_newline d i found,
      omega (arith, length-take i d, find_index-lt is_newline d i found),
    )
