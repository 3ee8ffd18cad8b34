-- ===== src/Ipc/Server/Loop.antt =====
-- `client_loop` of src/ipc/unix_socket_server.cpp, over a whole connection.
use mathlib.Core.Path.{subst}
use ezcap.Base.Json.{Json}
use ezcap.Base.{
  ℕ, Bool, true, List, [], ◌∷◌, ◌++◌, Option, some, Text, ◌≡◌, refl, sym, ap, ◌∙◌, arith, Free,
  append-nil, append_assoc,
}
use ezcap.Ipc.Framing.{is_newline, split_frames}
use ezcap.Ipc.Framing.Cut.{Parts, cut, Free-append}
use ezcap.Ipc.Framing.Lines.{unlines, AllLines, IsRest, split_frames_iff}
use ezcap.Ipc.Server.{
  Client, Run, returns, deadlock, throws, ◌>>=◌, handle_frame, handle_frames, receive, go_on,
  client_loop,
}
use ezcap.Ipc.Server.Buffer.{with_buffer, keep, keep_twice, handle_frames-keep}
use ezcap.Ipc.Server.Handling.{IsIdle, After, handle_frames-IsIdle}
use ezcap.Model.Protocol.{Request, Response, max_request_bytes}

-- What the calls of `recv` return, as one text.
abbrev pub stream : List Text → Text
stream [] = []
stream (bytes ∷ chunks) = bytes ++ stream chunks

-- A text without a newline is no line.
no_lines :
    (fs : List Text) (rest : Text)
    → Free is_newline (unlines fs rest)
    → unlines fs rest ≡ rest × (fs ≡ [])
no_lines [] rest h = (refl, refl)
no_lines (f ∷ fs) rest h = let (_, tail) = Free-append f (b'\n' ∷ unlines fs rest) h in cc

bind_assoc : (x : Run) (f g : Client → Run) → ((x >>= f) >>= g) ≡ (x >>= λ d. f d >>= g)
bind_assoc (returns c) f g = refl
bind_assoc deadlock f g = refl
bind_assoc throws f g = refl

keep-IsIdle : (b : Text) (x : Run) → After IsIdle x → After IsIdle (keep b x)
keep-IsIdle b (returns c) v = record { few = v.few; drained = v.drained; free = v.free }
keep-IsIdle b deadlock v = tt
keep-IsIdle b throws v = tt

module _ (send_all : List Text → Text → Bool) (js : Json) (handler : ℕ → Request → Response) where
  abbrev handle_all : Client → List Text → Run
  handle_all = handle_frames send_all js handler

  handle_frames-append :
      (c : Client) (fs gs : List Text)
      → handle_all c (fs ++ gs) ≡ (handle_all c fs >>= λ d. handle_all d gs)
  unfolding handle_frames
  handle_frames-append c [] gs = refl
  handle_frames-append c (f ∷ fs) gs =
      bind_ext (handle_frame send_all js handler c f) (λ d. handle_frames-append d fs gs)
      ∙ sym (
          bind_assoc (handle_frame send_all js handler c f) (λ d. handle_all d fs)
            (λ d. handle_all d gs))
    where
      bind_ext : (x : Run) {k l : Client → Run} → ((d : Client) → k d ≡ l d) → (x >>= k) ≡ (x >>= l)
      bind_ext (returns d) h = h d
      bind_ext deadlock h = refl
      bind_ext throws h = refl

  -- One round, on a buffer that is split.
  receive-split :
      (c : Client) (bytes open_line : Text) (fs : List Text)
      → split_frames (c.rx_buffer ++ bytes) max_request_bytes
        ≡ some (record { is_ok = true; frames = fs; buffer = open_line })
      → receive send_all js handler c bytes ≡ some (keep open_line (handle_all c fs), true)
  unfolding receive ezcap.Ipc.Server.serve_split
  receive-split c bytes open_line fs e =
      rw e (ap (λ x. some (x, true)) (handle_frames-keep send_all open_line js handler c fs))

  go_on-keep :
      (x : Run) (open_line rest : Text) (later : List Text) (k : Client → Option Run)
      → ((d : Client)
          → k (with_buffer open_line d)
            ≡ some (keep rest (handle_all (with_buffer open_line d) later)))
      → go_on (some (keep open_line x, true)) k ≡ some (keep rest (x >>= λ d. handle_all d later))
  go_on-keep (returns d) open_line rest later k h =
      h d
      ∙ ap (λ y. some (keep rest y)) (handle_frames-keep send_all open_line js handler d later)
      ∙ ap some (keep_twice rest open_line (handle_all d later))
  go_on-keep deadlock open_line rest later k h = refl
  go_on-keep throws open_line rest later k h = refl

  client_loop-keep :
      (c : Client) (chunks frames : List Text) (rest : Text)
      → IsRest max_request_bytes c.rx_buffer
      → c.rx_buffer ++ stream chunks ≡ unlines frames rest
      → AllLines 65535 frames
      → IsRest max_request_bytes rest
      → client_loop send_all js handler c chunks ≡ some (keep rest (handle_all c frames))
  unfolding client_loop handle_frames
  client_loop-keep c [] frames rest (free, _) e lines small =
      let all_of : c.rx_buffer ≡ unlines frames rest = sym (append-nil c.rx_buffer) ∙ e in
      let (is_rest, nothing) = no_lines frames rest (subst (Free is_newline) all_of free) in
      ap (λ b. some (returns (with_buffer b c))) (all_of ∙ is_rest)
      ∙ ap (λ fs. some (keep rest (handle_all c fs))) (sym nothing)
  client_loop-keep c (bytes ∷ chunks) frames rest before e lines small =
      let p : Parts (c.rx_buffer ++ bytes) (stream chunks) frames rest 65535 =
        cut 65535 frames rest (c.rx_buffer ++ bytes) (stream chunks)
          (append_assoc c.rx_buffer bytes (stream chunks) ∙ e) lines small in
      let splits =
        (split_frames_iff (c.rx_buffer ++ bytes) p.open_line max_request_bytes p.whole).1
          (p.front, p.whole_lines, p.open_rest) in
      ap (λ r. go_on r (λ d. client_loop send_all js handler d chunks))
        (receive-split c bytes p.open_line p.whole splits)
      ∙ go_on-keep (handle_all c p.whole) p.open_line rest p.later
          (λ d. client_loop send_all js handler d chunks)
          (λ d.
            client_loop-keep (with_buffer p.open_line d) chunks p.later rest p.open_rest p.behind
              p.later_lines small)
      ∙ ap (λ x. some (keep rest x))
          (sym (handle_frames-append c p.whole p.later) ∙ ap (handle_all c) (sym p.split))

  -- A stream of frames of at most 65535 bytes, each with its newline behind it, and of an unfinished
  -- rest of at most that size is handled frame by frame, in order and each frame once, however its
  -- bytes are cut into what the calls of `recv` return: the loop over an idle client whose buffer is
  -- empty does what `handle_frame` does on one frame after the other, up to the first call that
  -- does not return or throws, and if they all return, it returns with the rest in the buffer and an
  -- idle client: at most eight subscriptions, nothing queued, and the mutex free.
  pub client_loop-handle_frames :
      (c : Client) (chunks frames : List Text) (rest : Text)
      → IsIdle c
      → c.rx_buffer ≡ []
      → stream chunks ≡ unlines frames rest
      → AllLines 65535 frames
      → IsRest 65536 rest
      → (client_loop send_all js handler c chunks ≡ some (keep rest (handle_all c frames)))
        × After IsIdle (keep rest (handle_all c frames))
  client_loop-handle_frames c chunks frames rest v empty e lines small = (
    client_loop-keep c chunks frames rest (rw empty (refl, omega arith)) (rw empty e) lines small,
    keep-IsIdle rest (handle_all c frames) (handle_frames-IsIdle send_all js handler c frames v),
  )
