-- ===== src/Base/Bytes.antt =====
-- `std::string` as the list of its bytes, and the searches of its interface.
-- A position that is not there (`npos`) is `none`.
use Prim.Native.Char.{code}
use Prim.Native.String.{String}
use Prim.Native.Nat.{◌-◌, ℕ, zero, suc, ◌+◌, ◌-◌, ◌<◌}
use mathlib.Core.Path.{◌≡◌, refl, ap}
use mathlib.Core.Logic.{◌↔◌}
use mathlib.Core.Bool.{Bool, true, false, not, ◌&&◌}
use mathlib.Core.List.{List, [], ◌∷◌, ◌++◌}
use mathlib.Core.Option.{Option, none, some}
use native.Mathlib.Omega.{arith}
use ezcap.Base.Tests.{◌==◌, leb, if◌then◌else◌}
use ezcap.Base.Lists.{length, take, drop, all}

abbrev pub Text : Type 0
Text = List ℕ

-- The bytes of an ASCII literal.
abbrev pub codes : String → Text
codes String.[] = []
codes (String.◌∷◌ c s) = code c ∷ codes s

-- `a == b` on strings.
unfoldable pub text_eq : Text → Text → Bool
text_eq [] [] = true
text_eq [] (y ∷ ys) = false
text_eq (x ∷ xs) [] = false
text_eq (x ∷ xs) (y ∷ ys) = x == y && text_eq xs ys

pub text_eq-eq : (s t : Text) → text_eq s t ≡ true → s ≡ t
unfolding text_eq
text_eq-eq [] [] h = refl
text_eq-eq [] (y ∷ ys) h = cc
text_eq-eq (x ∷ xs) [] h = cc
text_eq-eq (x ∷ xs) (y ∷ ys) h = ground (arith, text_eq-eq xs ys)

pub text_eq_refl : (s : Text) → text_eq s s ≡ true
unfolding text_eq
text_eq_refl [] = refl
text_eq_refl (x ∷ xs) = ground (arith, text_eq_refl xs)

pub text_eq_iff : (s t : Text) → (text_eq s t ≡ true) ↔ (s ≡ t)
text_eq_iff s t = (text_eq-eq s t, λ e. ground (arith, text_eq_refl s))

abbrev pub shift : Option ℕ → Option ℕ
shift none = none
shift (some i) = some (suc i)

-- `find_first_of`: the first position, from `i` on, of a byte that `p` holds of.
unfoldable pub find_index : (ℕ → Bool) → Text → Option ℕ
find_index p [] = none
find_index p (c ∷ s) = if p c then some 0 else shift (find_index p s)

unfoldable pub starts_with : Text → Text → Bool
starts_with [] s = true
starts_with (c ∷ cs) [] = false
starts_with (c ∷ cs) (x ∷ xs) = c == x && starts_with cs xs

-- `find`: the first position at which `needle` occurs.
unfoldable pub find_text : Text → Text → Option ℕ
unfolding starts_with
find_text needle [] = if starts_with needle [] then some 0 else none
find_text needle (c ∷ s) = if starts_with needle (c ∷ s) then some 0 else shift (find_text needle s)

-- `find_last_of`: the last position of a byte that `p` holds of.
unfoldable pub find_last : (ℕ → Bool) → Text → Option ℕ
find_last p [] = none
find_last p (c ∷ s) = elim (find_last p s) [
  | some i ↦ some (suc i)
  | none ↦ if p c then some 0 else none
]

-- `find_first_of(set, i)`.
unfoldable pub find_from : (ℕ → Bool) → Text → ℕ → Option ℕ
unfolding find_index
find_from p s i = elim (find_index p (drop i s)) [ none ↦ none | some k ↦ some (i + k) ]

-- No byte of the text is one that `p` holds of.
abbrev pub Free : (ℕ → Bool) → Text → Type 0
Free p s = all (λ c. not (p c)) s ≡ true

module _ (p : ℕ → Bool) where
  pub find_index-none : (s : Text) → find_index p s ≡ none → Free p s
  unfolding find_index
  find_index-none [] h = refl
  find_index-none (c ∷ s) h = ground (arith, find_index-none s)

  pub find_index-some : (s : Text) (i : ℕ) → find_index p s ≡ some i → Free p (take i s)
  unfolding find_index
  find_index-some [] i h = cc
  find_index-some (c ∷ s) zero h = refl
  find_index-some (c ∷ s) (suc i) h = ground (arith, find_index-some s i)

  pub find_index-lt : (s : Text) (i : ℕ) → find_index p s ≡ some i → i < length s
  unfolding find_index
  find_index-lt [] i h = cc
  find_index-lt (c ∷ s) zero h = omega arith
  find_index-lt (c ∷ s) (suc i) h = ground (arith, find_index-lt s i)

-- An ASCII capital in lower case; the sources write this conditional out each time.
unfoldable pub lower_byte : ℕ → ℕ
lower_byte c = if leb b'A' c && leb c b'Z' then c - b'A' + b'a' else c

module _ (p : ℕ → Bool) where
  pub find_index_free : (s : Text) → Free p s → find_index p s ≡ none
  unfolding find_index
  find_index_free [] h = refl
  find_index_free (c ∷ s) h = ground (arith, find_index_free s)

  pub find_index-append :
      (l : Text) (c : ℕ) (t : Text)
      → Free p l
      → p c ≡ true
      → find_index p (l ++ c ∷ t) ≡ some (length l)
  unfolding find_index
  find_index-append [] c t h hit = ground arith
  find_index-append (x ∷ l) c t h hit = ground (arith, find_index-append l c t)

  pub find_index_split :
      (s : Text) (k : ℕ)
      → find_index p s ≡ some k
      → (c : ℕ) × (s ≡ take k s ++ c ∷ drop (suc k) s) × (p c ≡ true)
  unfolding find_index
  find_index_split [] k e = cc
  find_index_split (c ∷ s) zero e = (c, refl, ground arith)
  find_index_split (c ∷ s) (suc k) e =
      let (d, split, hit) = find_index_split s k (ground arith) in (d, ap (◌∷◌ c) split, hit)
