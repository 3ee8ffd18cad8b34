-- ===== src/Capture/Filter/Vocabulary.antt =====
-- What may stand in a filter, spelled out, against the tests of src/capture/pcap/pcap_filter.cpp.
use ezcap.Base.{
  ℕ, ◌+◌, Bool, true, false, ◌&&◌, ◌||◌, List, [], ◌∷◌, ltb, leb, ◌==◌, all, any, Text, codes,
  text_eq, ◌≡◌, refl, ap, ◌∙◌, arith,
}
use ezcap.Capture.Filter.{
  is_word_char, is_number, count_marks, looks_like_literal, is_known, is_blank, is_paren,
}

-- The words of a filter.
abbrev pub vocabulary : List Text
vocabulary =
    codes "ip"
    ∷ codes "ip6"
    ∷ codes "tcp"
    ∷ codes "udp"
    ∷ codes "icmp"
    ∷ codes "host"
    ∷ codes "net"
    ∷ codes "port"
    ∷ codes "ports"
    ∷ codes "src"
    ∷ codes "dst"
    ∷ codes "and"
    ∷ codes "or"
    ∷ codes "not"
    ∷ codes "ether"
    ∷ codes "arp"
    ∷ codes "rarp"
    ∷ codes "ipproto"
    ∷ codes "broadcast"
    ∷ codes "less"
    ∷ codes "greater"
    ∷ codes "len"
    ∷ []

abbrev digit : ℕ → Bool
digit c = leb 48 c && leb c 57

-- A letter, a digit, a dot, a colon or a slash.
unfoldable pub in_word : ℕ → Bool
in_word c =
    (digit c || ((leb 97 c && leb c 122) || (leb 65 c && leb c 90)))
    || ((c == 46) || ((c == 58) || (c == 47)))

-- A space, a tab, a line feed or a parenthesis.
unfoldable pub between_words : ℕ → Bool
between_words c = ((c == 32) || ((c == 9) || (c == 10))) || ((c == 40) || (c == 41))

-- What an address is made of: hexadecimal digits, dots, colons and slashes.
abbrev pub in_address : ℕ → Bool
in_address c =
    (digit c || ((leb 97 c && leb c 102) || (leb 65 c && leb c 70)))
    || ((c == 46) || ((c == 58) || (c == 47)))

abbrev pub is_mark : ℕ → Bool
is_mark c = (c == 58) || (c == 46)

abbrev pub is_decimal : Text → Bool
is_decimal [] = false
is_decimal (c ∷ s) = digit c && all digit s

-- A word of the vocabulary, a decimal number, or what is made like an address and has a dot or a
-- colon.
unfoldable pub is_allowed : Text → Bool
is_allowed word =
    any (text_eq word) vocabulary || (is_decimal word || (all in_address word && any is_mark word))

pub is_word_char-in_word : (c : ℕ) → is_word_char c ≡ in_word c
unfolding is_word_char in_word
is_word_char-in_word c = refl

pub breaks-between_words : (c : ℕ) → (is_blank c || is_paren c) ≡ between_words c
unfolding is_blank is_paren between_words
breaks-between_words c = refl

is_number-is_decimal : (s : Text) → is_number s ≡ is_decimal s
unfolding is_number
is_number-is_decimal [] = refl
is_number-is_decimal (c ∷ s) = refl

count_marks-is_mark :
    (colons dots : ℕ) (s : Text)
    → count_marks colons dots s
      ≡ (all in_address s && (any is_mark s || (ltb 0 dots || ltb 0 colons)))
unfolding count_marks
count_marks-is_mark colons dots [] = refl
count_marks-is_mark colons dots (c ∷ s) = ground (
  arith,
  count_marks-is_mark (colons + 1) dots s,
  count_marks-is_mark colons (dots + 1) s,
  count_marks-is_mark colons dots s,
)

or_none : (b : Bool) → (b || (ltb 0 0 || ltb 0 0)) ≡ b
or_none true = refl
or_none false = refl

looks_like_literal-is_mark :
    (s : Text) → looks_like_literal s ≡ (is_decimal s || (all in_address s && any is_mark s))
unfolding looks_like_literal
looks_like_literal-is_mark s =
    let marks =
      count_marks-is_mark 0 0 s ∙ ap (λ b. all in_address s && b) (or_none (any is_mark s)) in
    rw (is_number-is_decimal s, marks) (ground arith)

pub is_known-is_allowed : (word : Text) → is_known word ≡ is_allowed word
unfolding is_known is_allowed
is_known-is_allowed word =
    ap (λ b. any (text_eq word) vocabulary || b) (looks_like_literal-is_mark word)
