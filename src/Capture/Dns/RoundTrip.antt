-- ===== src/Capture/Dns/RoundTrip.antt =====
-- Question names encoded as DNS says, for `parse_dns_qname`.
use ezcap.Base.{
  ℕ, zero, suc, ◌+◌, ◌≤◌, ◌<◌, true, List, [], ◌∷◌, ◌++◌, ◌≡◌, ◌≢◌, refl, sym, ap, ◌∙◌, arith,
  if◌then◌else◌, length, length-append, drop, drop-cons, drop-append, all, Text, append-nil,
  append_assoc,
}
use ezcap.Capture.Dns.{
  is_name_byte, copy_label, add_label, qname_loop, scan_dns_qname, parse_dns_qname,
}
use ezcap.Capture.Scan.{done}
use ezcap.Policy.Redactor.{is_empty}

-- A length byte and the label for each label, then a zero byte.
abbrev pub encode : List Text → List ℕ
encode [] = 0 ∷ []
encode (l ∷ ls) = length l ∷ (l ++ encode ls)

-- The text so far, a dot if there is some, and the label.
abbrev pub joined : Text → Text → Text
joined out l = if is_empty out then l else out ++ (b'.' ∷ l)

abbrev pub join_onto : Text → List Text → Text
join_onto out [] = out
join_onto out (l ∷ ls) = join_onto (joined out l) ls

-- The labels that the decoder takes.
abbrev pub AllLabels : List Text → Type 0
AllLabels [] = Unit {0}
AllLabels (l ∷ ls) = (l ≢ []) × (length l ≤ 63) × (all is_name_byte l ≡ true) × AllLabels ls

copy_label_lem :
    (l : Text) (s : List ℕ) (start : ℕ) (out rest : Text)
    → drop start s ≡ l ++ rest
    → all is_name_byte l ≡ true
    → length out + length l ≤ 252
    → copy_label s start (length l) out ≡ done (out ++ l)
unfolding copy_label
copy_label_lem [] s start out rest e a fits = ap done (sym (append-nil out))
copy_label_lem (c ∷ l) s start out rest e a fits =
    let (here, next, within) = drop-cons s start c (l ++ rest) e in
    ground (
      arith,
      here,
      copy_label_lem l s (start + 1) (out ++ c ∷ []) rest next,
      length-append out (c ∷ []),
      append_assoc out (c ∷ []) l,
    )

length-joined :
    (out l : Text) → (length out ≤ length (joined out l)) × (length l ≤ length (joined out l))
length-joined [] l = (omega arith, omega arith)
length-joined (c ∷ out) l =
    (omega (arith, length-append out (b'.' ∷ l)), omega (arith, length-append out (b'.' ∷ l)))

length-join_onto-le : (out : Text) (ls : List Text) → length out ≤ length (join_onto out ls)
length-join_onto-le out [] = omega arith
length-join_onto-le out (l ∷ ls) =
    omega (arith, (length-joined out l).0, length-join_onto-le (joined out l) ls)

add_label_lem :
    (l : Text) (s : List ℕ) (i : ℕ) (out rest : Text)
    → drop (i + 1) s ≡ l ++ rest
    → all is_name_byte l ≡ true
    → length (joined out l) ≤ 252
    → l ≢ []
    → add_label s i (length l) out ≡ done (joined out l)
unfolding add_label
add_label_lem l s i [] rest e a fits ne = copy_label_lem l s (i + 1) [] rest e a (omega arith)
add_label_lem [] s i (c ∷ out) rest e a fits ne = absurd (ne refl)
add_label_lem (d ∷ l) s i (c ∷ out) rest e a fits ne =
    let size = length-append out (b'.' ∷ d ∷ l) in
    ground (
      arith,
      size,
      length-append out (b'.' ∷ []),
      copy_label_lem (d ∷ l) s (i + 1) (c ∷ (out ++ b'.' ∷ [])) rest e a,
      append_assoc out (b'.' ∷ []) (d ∷ l),
    )

label_step :
    (labels : ℕ) (s : List ℕ) (i : ℕ) (out l rest : Text)
    → drop i s ≡ length l ∷ (l ++ rest)
    → l ≢ []
    → length l ≤ 63
    → all is_name_byte l ≡ true
    → length (joined out l) ≤ 252
    → (qname_loop (suc labels) s i out ≡ qname_loop labels s (i + 1 + length l) (joined out l))
      × (drop (i + 1 + length l) s ≡ rest)
unfolding qname_loop
label_step labels s i out [] rest e ne small a fits = absurd (ne refl)
label_step labels s i out (c ∷ l) rest e ne small a fits =
    let (here, next, within) = drop-cons s i (length (c ∷ l)) ((c ∷ l) ++ rest) e in
    let (after, inside) = drop-append s (i + 1) (c ∷ l) rest (omega arith) next in
    (ground (arith, here, add_label_lem (c ∷ l) s i out rest next a fits ne), after)

qname_loop_lem :
    (ls : List Text) (labels : ℕ) (s : List ℕ) (i : ℕ) (out rest : Text)
    → drop i s ≡ encode ls ++ rest
    → AllLabels ls
    → length ls < labels
    → length (join_onto out ls) ≤ 252
    → qname_loop labels s i out ≡ done (join_onto out ls)
unfolding qname_loop
qname_loop_lem ls zero s i out rest e a few fits = elim few [ ]
qname_loop_lem [] (suc labels) s i out rest e a few fits =
    let (here, next, within) = drop-cons s i 0 rest e in ground (arith, here)
qname_loop_lem (l ∷ ls) (suc labels) s i out rest e (ne, small, names, others) few fits =
    let (step, after) =
      label_step labels s i out l (encode ls ++ rest)
        (e ∙ ap (◌∷◌ (length l)) (append_assoc l (encode ls) rest)) ne small names
        (omega (arith, length-join_onto-le (joined out l) ls)) in
    step
    ∙ qname_loop_lem ls labels s (i + 1 + length l) (joined out l) rest after others (omega arith)
        fits

-- A name of at most 127 labels and 252 bytes is decoded to its labels joined by dots, whatever
-- bytes follow its encoding; each label has 1 to 63 of the bytes that the decoder takes.
pub parse_dns_qname-encode :
    (ls : List Text) (rest : List ℕ)
    → AllLabels ls
    → length ls ≤ 127
    → length (join_onto [] ls) ≤ 252
    → parse_dns_qname (encode ls ++ rest) ≡ done (join_onto [] ls)
unfolding parse_dns_qname scan_dns_qname
parse_dns_qname-encode ls rest a few fits =
    rw (qname_loop_lem ls 128 (encode ls ++ rest) 0 [] rest refl a (omega arith) fits)
