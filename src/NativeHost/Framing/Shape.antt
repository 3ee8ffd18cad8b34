-- ===== src/NativeHost/Framing/Shape.antt =====
-- What the reader's check of UTF-8 accepts.
use ezcap.Base.{
  ℕ, zero, suc, ◌≤◌, Bool, true, false, not, ◌&&◌, List, [], ◌∷◌, ◌++◌, none, some, ◌≡◌, refl, sym,
  ap, ◌∙◌, ◌↔◌, arith, ltb, leb, ◌==◌, if◌then◌else◌, length, length-append, length-take, take,
  drop, take-append-drop, take-length-append, drop-length-append, all, All, Text, Bool-cases,
  Option-cases, inl, inr,
}
use ezcap.NativeHost.Framing.{extra_bytes, is_continuation, check_bytes, is_utf8}

-- A byte of 128 to 191, which follows the first of a character.
abbrev pub follows : ℕ → Bool
follows c = leb 128 c && leb c 191

-- One character: a byte below 128, or one of 192 to 223 with one byte that follows, one of 224 to
-- 239 with two, or one of 240 to 247 with three.
abbrev pub is_character : Text → Bool
is_character (a ∷ []) = leb a 127
is_character (a ∷ b ∷ []) = (leb 192 a && leb a 223) && follows b
is_character (a ∷ b ∷ c ∷ []) = (leb 224 a && leb a 239) && (follows b && follows c)
is_character (a ∷ b ∷ c ∷ d ∷ []) =
    (leb 240 a && leb a 247) && (follows b && (follows c && follows d))
is_character _ = false

-- The same, in the words of the code.
abbrev is_announced : Text → Bool
is_announced [] = false
is_announced (c ∷ tail) = if ltb c 128 then length tail == 0 else elim (extra_bytes c) [
  | none ↦ false
  | some extra ↦ length tail == extra && all is_continuation tail
]

is_continuation-follows : (c : ℕ) → is_continuation c ≡ follows c
is_continuation-follows c = ground arith

is_announced-is_character : (s : Text) → is_announced s ≡ is_character s
is_announced-is_character [] = refl
is_announced-is_character (a ∷ []) = ground arith
is_announced-is_character (a ∷ b ∷ []) = ground (arith, is_continuation-follows b)
is_announced-is_character (a ∷ b ∷ c ∷ []) =
    ground (arith, is_continuation-follows b, is_continuation-follows c)
is_announced-is_character (a ∷ b ∷ c ∷ d ∷ []) =
    ground (arith, is_continuation-follows b, is_continuation-follows c, is_continuation-follows d)
is_announced-is_character (a ∷ b ∷ c ∷ d ∷ e ∷ s) = ground arith

abbrev IsAnnounced : Text → Type 0
IsAnnounced s = is_announced s ≡ true

abbrev pub IsCharacter : Text → Type 0
IsCharacter s = is_character s ≡ true

abbrev pub join : List Text → Text
join [] = []
join (s ∷ ss) = s ++ join ss

check_bytes-ascii :
    (fuel c : ℕ) (rest : Text)
    → ltb c 128 ≡ true
    → check_bytes (suc fuel) (c ∷ rest) ≡ check_bytes fuel rest
unfolding check_bytes
check_bytes-ascii fuel c rest h = rw h refl

check_bytes-none :
    (fuel c : ℕ) (rest : Text)
    → ltb c 128 ≡ false
    → extra_bytes c ≡ none
    → check_bytes (suc fuel) (c ∷ rest) ≡ false
unfolding check_bytes
check_bytes-none fuel c rest h e = rw (h, e) refl

check_bytes-some :
    (fuel c extra : ℕ) (rest : Text)
    → ltb c 128 ≡ false
    → extra_bytes c ≡ some extra
    → check_bytes (suc fuel) (c ∷ rest) ≡ (
        if ltb (length rest) extra
        then false
        else if not (all is_continuation (take extra rest))
        then false
        else check_bytes fuel (drop extra rest))
unfolding check_bytes
check_bytes-some fuel c extra rest h e = rw (h, e) refl

check_bytes-zero : (c : ℕ) (rest : Text) → check_bytes 0 (c ∷ rest) ≡ true → ⊥
unfolding check_bytes
check_bytes-zero c rest h = cc

check_bytes-empty : (fuel : ℕ) → check_bytes fuel [] ≡ true
unfolding check_bytes
check_bytes-empty fuel = refl

empty : (s : Text) → length s ≡ 0 → s ≡ []
empty [] h = refl
empty (c ∷ s) h = absurd (omega arith)

check_bytes-characters :
    (fuel : ℕ) (s : Text)
    → check_bytes fuel s ≡ true
    → (cs : List Text) × (s ≡ join cs) × All IsAnnounced cs
check_bytes-characters fuel [] h = ([], refl, tt)
check_bytes-characters zero (c ∷ rest) h = absurd (check_bytes-zero c rest h)
check_bytes-characters (suc fuel) (c ∷ rest) h = elim (Bool-cases (ltb c 128)) [
  | inl low ↦
      let (cs, e, v) =
        check_bytes-characters fuel rest (sym (check_bytes-ascii fuel c rest low) ∙ h) in
      ((c ∷ []) ∷ cs, ap (λ t. c ∷ t) e, (rw low (ground arith), v))
  | inr high ↦ elim (Option-cases (extra_bytes c)) [
    | inl n ↦ absurd (ground (arith, check_bytes-none fuel c rest high n))
    | inr (extra, x) ↦
        let step = check_bytes-some fuel c extra rest high x in
        let whole = take-append-drop extra rest in
        let size = length-take extra rest in
        let long : ltb (length rest) extra ≡ false = ground arith in
        let following : all is_continuation (take extra rest) ≡ true = ground arith in
        let (cs, e, v) = check_bytes-characters fuel (drop extra rest) (ground arith) in
        (
          (c ∷ take extra rest) ∷ cs,
          ap (λ t. c ∷ t) (sym whole ∙ ap (λ t. take extra rest ++ t) e),
          (rw (high, x) (ground arith), v),
        )
  ]
]

characters-check_bytes :
    (cs : List Text) (fuel : ℕ)
    → All IsAnnounced cs
    → length (join cs) ≤ fuel
    → check_bytes fuel (join cs) ≡ true
characters-check_bytes [] fuel v h = check_bytes-empty fuel
characters-check_bytes ([] ∷ cs) fuel (v, vs) h = cc
characters-check_bytes ((c ∷ tail) ∷ cs) zero (v, vs) h = absurd (omega arith)
characters-check_bytes ((c ∷ tail) ∷ cs) (suc fuel) (v, vs) h =
    let size = length-append tail (join cs) in
    let rest = characters-check_bytes cs fuel vs (omega arith) in
    elim (Bool-cases (ltb c 128)) [
      | inl low ↦
          let none_left : tail ≡ [] = empty tail (ground arith) in
          check_bytes-ascii fuel c (tail ++ join cs) low ∙ rw none_left rest
      | inr high ↦ elim (Option-cases (extra_bytes c)) [
        | inl n ↦ absurd (ground arith)
        | inr (extra, x) ↦
            let k : length tail ≡ extra = ground arith in
            let following : all is_continuation tail ≡ true = ground arith in
            let first : take extra (tail ++ join cs) ≡ tail =
              rw (sym k) (take-length-append tail (join cs)) in
            let others : drop extra (tail ++ join cs) ≡ join cs =
              rw (sym k) (drop-length-append tail (join cs)) in
            check_bytes-some fuel c extra (tail ++ join cs) high x
            ∙ rw (first, others, following, rest) (ground arith)
      ]
    ]

All-IsCharacter : (cs : List Text) → All IsAnnounced cs → All IsCharacter cs
All-IsCharacter [] v = tt
All-IsCharacter (s ∷ cs) (v, vs) = (sym (is_announced-is_character s) ∙ v, All-IsCharacter cs vs)

All-IsAnnounced : (cs : List Text) → All IsCharacter cs → All IsAnnounced cs
All-IsAnnounced [] v = tt
All-IsAnnounced (s ∷ cs) (v, vs) = (is_announced-is_character s ∙ v, All-IsAnnounced cs vs)

-- The check accepts exactly the texts that are cut into characters of one to four bytes: a byte
-- below 128, or a first byte of 192 to 223, 224 to 239 or 240 to 247 with one, two or three bytes of
-- 128 to 191 behind it. Overlong forms and values above 10FFFF are accepted.
pub is_utf8_iff :
    (s : Text) → (is_utf8 s ≡ true) ↔ ((cs : List Text) × (s ≡ join cs) × All IsCharacter cs)
unfolding is_utf8
is_utf8_iff s = (
  λ h. let (cs, e, v) = check_bytes-characters (length s) s h in (cs, e, All-IsCharacter cs v),
  λ (cs, e, v).
      rw e (characters-check_bytes cs (length (join cs)) (All-IsAnnounced cs v) (omega arith)),
)
