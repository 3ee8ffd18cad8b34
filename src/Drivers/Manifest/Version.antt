-- ===== src/Drivers/Manifest/Version.antt =====
-- `valid_version` against the groups between dots.
use ezcap.Base.{
  ℕ, suc, ◌||◌, ◌+◌, ◌≤◌, Bool, true, false, not, ◌&&◌, List, [], ◌∷◌, ◌++◌, leb, ◌==◌,
  if◌then◌else◌, length, all, Text, ◌≡◌, refl, ap, ◌∙◌, arith, inl, inr, Bool-cases, append_assoc,
  append-nil, all-append,
}
use ezcap.Capture.Filter.{is_digit}
use ezcap.Drivers.Manifest.{version_loop, valid_version}
use ezcap.Policy.Redactor.{is_empty}

-- What stands before the first dot, and between and behind the dots.
abbrev pub groups : Text → Text × List Text
groups [] = ([], [])
groups (c ∷ s) =
    if c == b'.' then ([], (groups s).0 ∷ (groups s).1) else (c ∷ (groups s).0, (groups s).1)

unfoldable pub is_group : Text → Bool
is_group g = not (is_empty g) && all is_digit g

-- From `components` dots on, with `current` read since the last.
abbrev pub is_version_from : ℕ → Text → Text → Bool
is_version_from components current s =
    (is_group (current ++ (groups s).0) && all is_group (groups s).1)
    && (leb 1 (components + length (groups s).1) && leb (components + length (groups s).1) 3)

abbrev in_range : ℕ → Bool
in_range n = leb 1 n && leb n 3

bad_group : (current g : Text) (c : ℕ) → is_digit c ≡ false → is_group (current ++ c ∷ g) ≡ false
unfolding is_group
bad_group [] g c f = rw f
bad_group (d ∷ current) g c f = ground (arith, f, all-append is_digit current (c ∷ g))

digits-group :
    (current : Text) → all is_digit current ≡ true → is_group current ≡ not (is_empty current)
unfolding is_group
digits-group [] h = refl
digits-group (d ∷ current) h = h

at_end : (e : Bool) (k : ℕ) → k ≤ 3 → (leb 1 k && e) ≡ (e && true && in_range (k + 0))
at_end e k h = ground arith

at_dot :
    (empty next gs : Bool) (k n : ℕ)
    → (k + 1 ≤ 3 → next ≡ (gs && in_range (k + 1 + n)))
    → (if empty || leb 3 k then false else next) ≡ (not empty && gs && in_range (k + suc n))
at_dot true next gs k n h = refl
at_dot false next gs k n h = elim (Bool-cases (leb 3 k)) [
  | inl e ↦ ground (arith, e)
  | inr e ↦ let same = h (ground (arith, e)) in ground (arith, e, same)
]

version_loop_lem :
    (s current : Text) (k : ℕ)
    → k ≤ 3
    → all is_digit current ≡ true
    → version_loop k current s ≡ is_version_from k current s
unfolding version_loop
version_loop_lem [] current k h d =
    rw (append-nil current, digits-group current d) (at_end (not (is_empty current)) k h)
version_loop_lem (c ∷ s) current k h d = elim (Bool-cases (c == b'.')) [
  | inl e ↦
      rw (e, append-nil current, digits-group current d)
        (at_dot (is_empty current) (version_loop (k + 1) [] s)
          (is_group (groups s).0 && all is_group (groups s).1) k (length (groups s).1)
          (λ room. version_loop_lem s [] (k + 1) room refl))
  | inr e ↦ elim (Bool-cases (is_digit c)) [
    | inl f ↦
        let longer =
          version_loop_lem s (current ++ c ∷ []) k h
            (ground (arith, d, f, all-append is_digit current (c ∷ []))) in
        rw (e, f)
          (longer
            ∙ ap
                (λ t.
                  (is_group t && all is_group (groups s).1)
                  && (leb 1 (k + length (groups s).1) && leb (k + length (groups s).1) 3))
                (append_assoc current (c ∷ []) (groups s).0))
    | inr f ↦ rw (e, f, bad_group current (groups s).0 c f)
  ]
]

-- A version is accepted exactly if it is made of two to four groups of digits, none of them empty,
-- with dots between them: "1" is refused and "1.2.3.4" is not.
pub valid_version-groups :
    (version : Text)
    → valid_version version ≡ (
        (is_group (groups version).0 && all is_group (groups version).1)
        && (leb 1 (length (groups version).1) && leb (length (groups version).1) 3))
unfolding valid_version
valid_version-groups version =
    let none_before : 0 + length (groups version).1 ≡ length (groups version).1 = omega arith in
    version_loop_lem version [] 0 (omega arith) refl
    ∙ ap (λ n. (is_group (groups version).0 && all is_group (groups version).1) && in_range n)
        none_before
