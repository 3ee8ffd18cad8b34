-- ===== src/Capture/Scan.antt =====
-- Reading a `std::span`: a byte past its end is a fault of the program, apart from malformed input.
use ezcap.Base.{
  ℕ, ◌+◌, ◌-◌, ◌<◌, Bool, true, false, List, none, some, ◌≡◌, leb, if◌then◌else◌, length, get_elem?,
  take, drop, get_elem?-some,
}

pub data Scan {ℓ} (A : Type ℓ) : Type ℓ where
  -- A read out of bounds, or an unsigned subtraction below 0 that goes on to index.
  oob : Scan A
  -- Malformed input, found by a test.
  rejected : Scan A
  done : A → Scan A

infixl 5 ◌>>=◌ ◌>>◌
abbrev pub ◌>>=◌ {ℓ κ} : {A : Type ℓ} {B : Type κ} → Scan A → (A → Scan B) → Scan B
oob >>= f = oob
rejected >>= f = rejected
done a >>= f = f a

abbrev pub ◌>>◌ {ℓ} : {B : Type ℓ} → Scan (Unit {0}) → Scan B → Scan B
m >> k = m >>= λ _. k

abbrev pub require : Bool → Scan (Unit {0})
require true = done tt
require false = rejected

-- `data[i]`
abbrev pub at : List ℕ → ℕ → Scan ℕ
at data_bytes i = elim (get_elem? data_bytes i) [ none ↦ oob | some b ↦ done b ]

-- `n` bytes from position `i`.
abbrev pub bytes_at : List ℕ → ℕ → ℕ → Scan (List ℕ)
bytes_at data_bytes i n =
    if leb (i + n) (length data_bytes) then done (take n (drop i data_bytes)) else oob

-- `a - b` on `std::size_t`.
abbrev pub minus : ℕ → ℕ → Scan ℕ
minus a b = if leb b a then done (a - b) else oob

pub at_inside : (s : List ℕ) (i : ℕ) → i < length s → (b : ℕ) × (at s i ≡ done b)
at_inside s i h = let (b, e) = get_elem?-some s i h in (b, rw (e, at))
