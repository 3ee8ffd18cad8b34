-- ===== src/Ipc/Framing/Cut.antt =====
-- A stream of lines that is cut in two, for `split_frames` of src/ipc/ipc_codec.cpp.
use mathlib.Core.Path.{subst}
use ezcap.Base.{
  ℕ, ◌+◌, List, [], ◌∷◌, ◌++◌, length, length-append, ◌≡◌, refl, sym, ap, ◌∙◌, arith, ◌⊎◌, inl, inr,
  Text, Free,
}
use ezcap.Ipc.Framing.{is_newline}
use ezcap.Ipc.Framing.Lines.{unlines, AllLines, IsRest}

pub Free-append : (s t : Text) → Free is_newline (s ++ t) → Free is_newline s × Free is_newline t
Free-append [] t h = (refl, h)
Free-append (c ∷ s) t h = let (a, b) = Free-append s t (ground arith) in (ground arith, b)

-- A text in front of two others, of which one starts a line: the cut is within the line's text or
-- behind its newline.
cut_line :
    (x y f t : Text)
    → x ++ y ≡ f ++ b'\n' ∷ t
    → ((u : Text) × (f ≡ x ++ u) × (y ≡ u ++ b'\n' ∷ t))
      ⊎ ((x' : Text) × (x ≡ f ++ b'\n' ∷ x') × (x' ++ y ≡ t))
cut_line [] y f t e = inl (f, refl, e)
cut_line (c ∷ x) y [] t e = inr (x, cc, cc)
cut_line (c ∷ x) y (d ∷ f) t e = elim (cut_line x y f t cc) [
  | inl (u, made, left) ↦ inl (u, cc, left)
  | inr (x', made, left) ↦ inr (x', cc, left)
]

-- What is in front of the cut is some of the lines and the beginning of what is left.
pub record Parts (x y : Text) (fs : List Text) (rest : Text) (m : ℕ) : Type 0 where
  pub whole : List Text
  pub open_line : Text
  pub later : List Text
  pub front : x ≡ unlines whole open_line
  pub split : fs ≡ whole ++ later
  pub behind : open_line ++ y ≡ unlines later rest
  pub whole_lines : AllLines (m + 1) whole
  pub later_lines : AllLines m later
  pub open_rest : IsRest (m + 1) open_line

pub cut :
    (m : ℕ) (fs : List Text) (rest x y : Text)
    → x ++ y ≡ unlines fs rest
    → AllLines m fs
    → IsRest (m + 1) rest
    → Parts x y fs rest m
cut m [] rest x y e lines (free, small) =
    let (free_x, _) = Free-append x y (subst (Free is_newline) (sym e) free) in
    let size : length x + length y ≡ length rest = sym (length-append x y) ∙ ap length e in
    record {
      whole = [];
      open_line = x;
      later = [];
      front = refl;
      split = refl;
      behind = e;
      whole_lines = tt;
      later_lines = tt;
      open_rest = (free_x, omega arith);
    }
cut m (f ∷ fs) rest x y e (free, short, lines) small = elim (cut_line x y f (unlines fs rest) e) [
  | inl (u, made, left) ↦
      let (free_x, _) = Free-append x u (subst (Free is_newline) made free) in
      let size : length f ≡ length x + length u = ap length made ∙ length-append x u in
      record {
        whole = [];
        open_line = x;
        later = f ∷ fs;
        front = refl;
        split = refl;
        behind = e;
        whole_lines = tt;
        later_lines = (free, short, lines);
        open_rest = (free_x, omega arith);
      }
  | inr (x', made, left) ↦
      let p = cut m fs rest x' y left lines small in
      record {
        whole = f ∷ p.whole;
        open_line = p.open_line;
        later = p.later;
        front = made ∙ ap (λ t. f ++ b'\n' ∷ t) p.front;
        split = ap (λ l. f ∷ l) p.split;
        behind = p.behind;
        whole_lines = (free, omega arith, p.whole_lines);
        later_lines = p.later_lines;
        open_rest = p.open_rest;
      }
]
