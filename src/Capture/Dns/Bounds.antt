-- ===== src/Capture/Dns/Bounds.antt =====
-- The reads of `parse_dns_qname`, and the length of what it returns.
use ezcap.Base.{
  ℕ, zero, suc, ◌+◌, ◌≤◌, true, not, List, [], ◌∷◌, ◌++◌, ◌≡◌, refl, inl, inr, arith, ltb, leb,
  ◌==◌, if◌then◌else◌, Bool-cases, length, length-append, get_elem?-some, all, all-append, Text,
}
use ezcap.Policy.Redactor.{is_empty}
use ezcap.Capture.Dns.{
  is_name_byte, copy_label, add_label, is_bad_length, qname_loop, scan_dns_qname, or_empty,
  parse_dns_qname,
}
use ezcap.Capture.Scan.{Scan, oob, rejected, done, ◌>>=◌, ◌>>◌, require, at_inside}

-- A scan that never faults, and whose text, if there is one, is a name of at most 252 bytes.
abbrev pub IsGood : Scan Text → Type 0
IsGood oob = ⊥
IsGood rejected = Unit {0}
IsGood (done out) = (length out ≤ 252) × (all is_name_byte out ≡ true)

copy_label-IsGood :
    (n : ℕ) (s : List ℕ) (start : ℕ) (out : Text)
    → start + n ≤ length s
    → IsGood (done out)
    → IsGood (copy_label s start n out)
unfolding copy_label
copy_label-IsGood zero s start out h g = g
copy_label-IsGood (suc n) s start out h g =
    let (ch, here) = get_elem?-some s start (omega arith) in
    ground (
      arith,
      copy_label-IsGood n s (start + 1) (out ++ ch ∷ []),
      length-append out (ch ∷ []),
      all-append is_name_byte out (ch ∷ []),
    )

add_label-IsGood :
    (s : List ℕ) (i n : ℕ) (out : Text)
    → i + 1 + n ≤ length s
    → IsGood (done out)
    → IsGood (add_label s i n out)
unfolding add_label
add_label-IsGood s i n out h g = elim (Bool-cases (is_empty out)) [
  | inl e ↦ rw e (copy_label-IsGood n s (i + 1) out h g)
  | inr e ↦ elim (Bool-cases (leb 253 (length out + 1))) [
    | inl full ↦ rw (e, full) tt
    | inr room ↦
        rw (e, room)
          (copy_label-IsGood n s (i + 1) (out ++ b'.' ∷ []) h (
            ground (arith, length-append out (b'.' ∷ []), all-append is_name_byte out (b'.' ∷ []))))
  ]
]

-- A good scan goes on good, if what follows it is.
bind-IsGood :
    (m : Scan Text) (f : Text → Scan Text)
    → IsGood m
    → ((out : Text) → IsGood (done out) → IsGood (f out))
    → IsGood (m >>= f)
bind-IsGood oob f g h = absurd g
bind-IsGood rejected f g h = tt
bind-IsGood (done out) f g h = h out g

-- What the loop does with the length byte of a label, with any good way to go on.
label-IsGood :
    (labels : ℕ) (s : List ℕ) (i label_len : ℕ) (out : Text)
    → IsGood (done out)
    → ((extended : Text)
        → IsGood (done extended)
        → IsGood (qname_loop labels s (i + 1 + label_len) extended))
    → IsGood (
        if label_len == 0
        then done out
        else (require (not (is_bad_length label_len))
            >> (require (leb (i + 1 + label_len) (length s))
                >> (add_label s i label_len out >>= λ extended.
                    qname_loop labels s (i + 1 + label_len) extended))))
label-IsGood labels s i label_len out g next = elim (Bool-cases (label_len == 0)) [
  | inl end ↦ rw end g
  | inr label ↦ elim (Bool-cases (is_bad_length label_len)) [
    | inl bad ↦ rw (label, bad) tt
    | inr fine ↦ elim (Bool-cases (leb (i + 1 + label_len) (length s))) [
      | inr cut ↦ rw (label, fine, cut) tt
      | inl whole ↦
          rw (label, fine, whole)
            (bind-IsGood (add_label s i label_len out) _
              (add_label-IsGood s i label_len out (ground arith) g) next)
    ]
  ]
]

qname_loop-IsGood :
    (labels : ℕ) (s : List ℕ) (i : ℕ) (out : Text)
    → IsGood (done out)
    → IsGood (qname_loop labels s i out)
unfolding qname_loop
qname_loop-IsGood zero s i out g = tt
qname_loop-IsGood (suc labels) s i out g = elim (Bool-cases (ltb i (length s))) [
  | inr ended ↦ rw ended tt
  | inl more ↦
      let (label_len, here) = at_inside s i (ground arith) in
      rw (more, here)
        (label-IsGood labels s i label_len out g
          (λ extended h. qname_loop-IsGood labels s (i + 1 + label_len) extended h))
]

-- For every span the decoder of a question name reads inside the span, and what it returns has at
-- most 252 bytes, all of them letters, digits, '-', '_' or '.'.
pub parse_dns_qname_bounds :
    (s : List ℕ)
    → (name : Text) × (parse_dns_qname s ≡ done name)
      × (length name ≤ 252)
      × (all is_name_byte name ≡ true)
unfolding parse_dns_qname scan_dns_qname
parse_dns_qname_bounds s =
    result (qname_loop 128 s 0 []) (qname_loop-IsGood 128 s 0 [] (omega arith, refl))
  where
    result :
        (m : Scan Text)
        → IsGood m
        → (name : Text) × (or_empty m ≡ done name)
          × (length name ≤ 252)
          × (all is_name_byte name ≡ true)
    result oob g = absurd g
    result rejected g = ([], refl, omega arith, refl)
    result (done out) g = (out, refl, g.0, g.1)
