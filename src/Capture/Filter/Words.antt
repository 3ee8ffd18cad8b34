-- ===== src/Capture/Filter/Words.antt =====
-- `validate` against the words of a filter.
use ezcap.Base.Result.{Result, ok, err, ◌>>◌}
use ezcap.Base.{
  ℕ, Bool, true, false, not, ◌&&◌, ◌||◌, List, [], ◌∷◌, ◌++◌, leb, if◌then◌else◌, length, all, Text,
  ◌≡◌, refl, ap, ◌∙◌, sym, inl, inr, arith, Bool-cases, append_assoc, append-nil,
}
use ezcap.Capture.Filter.Vocabulary.{
  in_word, between_words, is_allowed, is_word_char-in_word, breaks-between_words,
  is_known-is_allowed,
}
use ezcap.Capture.Filter.{empty, flush, is_blank, is_paren, scan_filter, validate}

abbrev pub is_ok : Result Text (Unit {0}) → Bool
is_ok (ok _) = true
is_ok (err _) = false

-- The word at the front, which may be empty, and the words behind it.
abbrev pub words : Text → Text × List Text
words [] = ([], [])
words (c ∷ s) =
    if in_word c then (c ∷ (words s).0, (words s).1) else ([], (words s).0 ∷ (words s).1)

unfoldable pub is_good : Text → Bool
is_good word = empty word || is_allowed word

unfoldable pub is_permitted : ℕ → Bool
is_permitted c = in_word c || between_words c

-- Every byte may stand in a filter, and every word is empty or allowed; `token` is what stands
-- before the first.
abbrev pub is_filter_from : Text → Text → Bool
is_filter_from token s =
    all is_permitted s && (is_good (token ++ (words s).0) && all is_good (words s).1)

flush-blank :
    (token : Text) (which : ℕ) (next : Result Text (Unit {0}))
    → is_ok (flush token false which >> next) ≡ (is_good token && is_ok next)
unfolding flush is_good
flush-blank token which next = ground (arith, is_known-is_allowed token)

flush-paren :
    (token : Text) (which : ℕ) (next : Result Text (Unit {0}))
    → is_ok (flush token true which >> next) ≡ false
unfolding flush is_good
flush-paren token which next = ground arith

scan_word :
    (c : ℕ) (s token : Text)
    → in_word c ≡ true
    → scan_filter token (c ∷ s) ≡ scan_filter (token ++ c ∷ []) s
unfolding scan_filter
scan_word c s token e = rw (is_word_char-in_word c ∙ e) refl

scan_break :
    (c : ℕ) (s token : Text)
    → in_word c ≡ false
    → is_ok (scan_filter token (c ∷ s))
      ≡ (between_words c && (is_good token && is_ok (scan_filter [] s)))
unfolding scan_filter
scan_break c s token e =
    let outside = is_word_char-in_word c ∙ e in
    let breaks = breaks-between_words c in
    elim (Bool-cases (is_blank c)) [
      | inl b ↦ rw (outside, sym breaks, b) (flush-blank token b' ' (scan_filter [] s))
      | inr b ↦ elim (Bool-cases (is_paren c)) [
        | inl p ↦ rw (outside, sym breaks, b, p) (flush-blank token c (scan_filter [] s))
        | inr p ↦ rw (outside, sym breaks, b, p) (flush-paren token c (scan_filter [] s))
      ]
    ]

swap : (a b c d : Bool) → ((a && b) && (c && d)) ≡ (a && (c && (b && d)))
swap true true c d = refl
swap true false true d = refl
swap true false false d = refl
swap false b c d = refl

flush_end : (x : Result Text (Unit {0})) → is_ok x ≡ is_ok (x >> ok tt)
flush_end (ok u) = refl
flush_end (err e) = refl

scan_end : (token : Text) → is_ok (scan_filter token []) ≡ (is_good token && true)
unfolding scan_filter
scan_end token = flush_end (flush token false b' ') ∙ flush-blank token b' ' (ok tt)

-- The first byte, and what the words are before and behind it.
at_word :
    (c : ℕ) (s token : Text)
    → in_word c ≡ true
    → is_filter_from token (c ∷ s) ≡ is_filter_from (token ++ c ∷ []) s
unfolding is_permitted
at_word c s token e = rw e (
    ap (λ t. all is_permitted s && (is_good t && all is_good (words s).1))
      (sym (append_assoc token (c ∷ []) (words s).0)))

at_break :
    (c : ℕ) (s token : Text)
    → in_word c ≡ false
    → is_filter_from token (c ∷ s) ≡ (between_words c && (is_good token && is_filter_from [] s))
unfolding is_permitted
at_break c s token e =
    rw (e, append-nil token)
      (swap (between_words c) (all is_permitted s) (is_good token)
        (is_good (words s).0 && all is_good (words s).1))

scan_filter-is_ok : (s token : Text) → is_ok (scan_filter token s) ≡ is_filter_from token s
scan_filter-is_ok [] token = scan_end token ∙ ap (λ t. is_good t && true) (sym (append-nil token))
scan_filter-is_ok (c ∷ s) token = elim (Bool-cases (in_word c)) [
  | inl e ↦
      ap is_ok (scan_word c s token e)
      ∙ scan_filter-is_ok s (token ++ c ∷ [])
      ∙ sym (at_word c s token e)
  | inr e ↦
      scan_break c s token e
      ∙ ap (λ b. between_words c && (is_good token && b)) (scan_filter-is_ok s [])
      ∙ sym (at_break c s token e)
]

-- A filter is accepted exactly if it has between 1 and 256 bytes, each of them a letter, a digit,
-- one of `.:/`, a space, a tab, a line feed or a parenthesis, and each of its words, which are the
-- longest parts without blanks and parentheses, is one of the 22 words of the vocabulary, a decimal
-- number, or made of hexadecimal digits and `.:/` with a dot or a colon among them. The order of the
-- words is not looked at, nor whether parentheses match.
pub validate-is_ok :
    (s : Text) → is_ok (validate s) ≡ (not (empty s) && (leb (length s) 256 && is_filter_from [] s))
unfolding validate
validate-is_ok s = ground (arith, scan_filter-is_ok s [])
