-- ===== src/Capture/Filter.antt =====
-- src/capture/pcap/pcap_filter.cpp and .hpp: the validation of a user's capture filter. The
-- functions of <cctype> are those of the C locale.
pub mod Vocabulary
pub mod Words
use ezcap.Base.Result.{Result, ok, err, ◌>>=◌, ◌>>◌, require}
use ezcap.Base.{
  ℕ, ◌+◌, Bool, true, false, ◌&&◌, ◌||◌, List, [], ◌∷◌, ◌++◌, ltb, leb, ◌==◌, if◌then◌else◌, length,
  all, any, Text, codes, text_eq,
}

abbrev pub allowed_tokens : List Text
allowed_tokens =
    codes "ip"
    ∷ codes "ip6"
    ∷ codes "tcp"
    ∷ codes "udp"
    ∷ codes "icmp"
    ∷ codes "host"
    ∷ codes "net"
    ∷ codes "port"
    ∷ codes "ports"
    ∷ codes "src"
    ∷ codes "dst"
    ∷ codes "and"
    ∷ codes "or"
    ∷ codes "not"
    ∷ codes "ether"
    ∷ codes "arp"
    ∷ codes "rarp"
    ∷ codes "ipproto"
    ∷ codes "broadcast"
    ∷ codes "less"
    ∷ codes "greater"
    ∷ codes "len"
    ∷ []

abbrev pub is_between : ℕ → ℕ → ℕ → Bool
is_between lo hi c = leb lo c && leb c hi

abbrev pub is_digit : ℕ → Bool
is_digit c = is_between b'0' b'9' c

abbrev pub is_xdigit : ℕ → Bool
is_xdigit c = is_digit c || (is_between b'a' b'f' c || is_between b'A' b'F' c)

abbrev pub is_alnum : ℕ → Bool
is_alnum c = is_digit c || (is_between b'a' b'z' c || is_between b'A' b'Z' c)

unfoldable pub is_word_char : ℕ → Bool
is_word_char c = is_alnum c || ((c == b'.') || ((c == b':') || (c == b'/')))

unfoldable pub is_number : Text → Bool
is_number [] = false
is_number (c ∷ s) = all is_digit (c ∷ s)

unfoldable pub count_marks : ℕ → ℕ → Text → Bool
count_marks colons dots [] = ltb 0 dots || ltb 0 colons
count_marks colons dots (c ∷ s) =
    let colon = count_marks (colons + 1) dots s in
    let dot = count_marks colons (dots + 1) s in
    let other = count_marks colons dots s in
    if c == b':'
    then colon
    else if c == b'.'
    then dot
    else if is_xdigit c || (c == b'/')
    then other
    else false

unfoldable pub looks_like_literal : Text → Bool
unfolding is_number count_marks
looks_like_literal s = if is_number s then true else count_marks 0 0 s

unfoldable pub is_known : Text → Bool
unfolding looks_like_literal
is_known token = any (text_eq token) allowed_tokens || looks_like_literal token

abbrev pub empty : Text → Bool
empty [] = true
empty (_ ∷ _) = false

-- The check of the token that ends at `which`.
unfoldable pub flush : Text → Bool → ℕ → Result Text (Unit {0})
unfolding is_known
flush token paren which =
    require (empty token || is_known token) (codes "disallowed token in filter")
    >> (if paren then err (codes "unexpected character in filter: " ++ which ∷ []) else ok tt)

unfoldable pub is_blank : ℕ → Bool
is_blank c = (c == b' ') || ((c == b'\t') || (c == b'\n'))

unfoldable pub is_paren : ℕ → Bool
is_paren c = (c == b'(') || (c == b')')

-- The loop over the filter; `token` is what has been read of a token.
unfoldable pub scan_filter : Text → Text → Result Text (Unit {0})
unfolding flush is_word_char is_blank is_paren
scan_filter token [] = flush token false b' '
scan_filter token (c ∷ filter) =
    let longer = scan_filter (token ++ c ∷ []) filter in
    let next = scan_filter [] filter in
    if is_word_char c
    then longer
    else if is_blank c
    then flush token false b' ' >> next
    else if is_paren c
    then flush token false c >> next
    else flush token true c >> next

unfoldable pub validate : Text → Result Text (Unit {0})
unfolding scan_filter
validate filter =
    if empty filter
    then err (codes "empty filter")
    else if ltb 256 (length filter)
    then err (codes "filter too long")
    else scan_filter [] filter
