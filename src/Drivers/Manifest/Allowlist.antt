-- ===== src/Drivers/Manifest/Allowlist.antt =====
-- `path_within_allowlist` of src/drivers/lua/manifests/manifest.cpp.
use mathlib.Core.Path.{subst}
use ezcap.Base.{
  ℕ, Bool, false, if◌then◌else◌, true, ◌||◌, List, [], ◌∷◌, ◌++◌, Option, none, some, ◌==◌, length,
  get_elem?, Text, starts_with, ◌≡◌, refl, ap, ◌∙◌, arith, ◌⊎◌, inl, inr, ◌↔◌, Bool-cases,
  append-nil, length-append,
}

abbrev pub byte_is : ℕ → Option ℕ → Bool
byte_is c none = false
byte_is c (some d) = d == c

-- `dir.back()`
abbrev pub back : Text → Option ℕ
back [] = none
back (c ∷ []) = some c
back (c ∷ d ∷ s) = back (d ∷ s)

unfoldable pub is_inside : Text → Text → Bool
unfolding starts_with
is_inside canonical_path dir =
    if starts_with dir canonical_path
    then (length canonical_path == length dir)
      || (byte_is b'/' (back dir) || byte_is b'/' (get_elem? canonical_path (length dir)))
    else false

unfoldable pub path_within_allowlist : Text → List Text → Bool
unfolding is_inside
path_within_allowlist canonical_path [] = false
path_within_allowlist canonical_path (dir ∷ dirs) =
    is_inside canonical_path dir || path_within_allowlist canonical_path dirs

-- The path is the directory, or goes on behind it from a slash that ends the directory or that
-- follows it.
abbrev pub IsInside : Text → Text → Type 0
IsInside path dir =
    (rest : Text) × (path ≡ dir ++ rest)
    × ((rest ≡ []) ⊎ ((back dir ≡ some b'/') ⊎ ((tail : Text) × (rest ≡ b'/' ∷ tail))))

abbrev pub IsInsideSome : Text → List Text → Type 0
IsInsideSome path [] = ⊥
IsInsideSome path (dir ∷ dirs) = IsInside path dir ⊎ IsInsideSome path dirs

starts_with-append : (dir rest : Text) → starts_with dir (dir ++ rest) ≡ true
unfolding starts_with
starts_with-append [] rest = refl
starts_with-append (c ∷ dir) rest = ground (arith, starts_with-append dir rest)

starts_with-rest :
    (dir path : Text) → starts_with dir path ≡ true → (rest : Text) × (path ≡ dir ++ rest)
unfolding starts_with
starts_with-rest [] path h = (path, refl)
starts_with-rest (c ∷ dir) [] h = absurd (ground arith)
starts_with-rest (c ∷ dir) (x ∷ path) h =
    let (rest, e) = starts_with-rest dir path (ground arith) in
    let same : x ≡ c = ground arith in (rest, ap (λ y. y ∷ path) same ∙ ap (λ t. c ∷ t) e)

get_elem?-behind :
    (dir : Text) (c : ℕ) (tail : Text) → get_elem? (dir ++ c ∷ tail) (length dir) ≡ some c
get_elem?-behind [] c tail = refl
get_elem?-behind (d ∷ dir) c tail = get_elem?-behind dir c tail

byte_is-eq : (o : Option ℕ) (c : ℕ) → byte_is c o ≡ true → o ≡ some c
byte_is-eq none c h = absurd (ground arith)
byte_is-eq (some d) c h = ap some (ground arith)

inside_test :
    (dir rest : Text)
    → ((length (dir ++ rest) == length dir)
        || (byte_is b'/' (back dir) || byte_is b'/' (get_elem? (dir ++ rest) (length dir))))
      ≡ true
    → (rest ≡ []) ⊎ ((back dir ≡ some b'/') ⊎ ((tail : Text) × (rest ≡ b'/' ∷ tail)))
inside_test dir [] h = inl refl
inside_test dir (c ∷ tail) h = elim (Bool-cases (byte_is b'/' (back dir))) [
  | inl e ↦ inr (inl (byte_is-eq (back dir) b'/' e))
  | inr e ↦
      let behind : get_elem? (dir ++ c ∷ tail) (length dir) ≡ some c =
        get_elem?-behind dir c tail in
      let slash : c ≡ b'/' = ground (arith, h, e, behind, length-append dir (c ∷ tail)) in
      inr (inr (tail, ap (λ x. x ∷ tail) slash))
]

inside_test-holds :
    (dir rest : Text)
    → (rest ≡ []) ⊎ ((back dir ≡ some b'/') ⊎ ((tail : Text) × (rest ≡ b'/' ∷ tail)))
    → ((length (dir ++ rest) == length dir)
        || (byte_is b'/' (back dir) || byte_is b'/' (get_elem? (dir ++ rest) (length dir))))
      ≡ true
inside_test-holds dir rest (inl e) = rw (e, append-nil dir) (ground arith)
inside_test-holds dir rest (inr (inl e)) = rw e (ground arith)
inside_test-holds dir rest (inr (inr (tail, e))) =
    rw (e, get_elem?-behind dir b'/' tail) (ground arith)

is_inside-parts :
    (path dir : Text)
    → is_inside path dir ≡ true
    → (starts_with dir path ≡ true)
      × (((length path == length dir)
            || (byte_is b'/' (back dir) || byte_is b'/' (get_elem? path (length dir))))
          ≡ true)
unfolding is_inside
is_inside-parts path dir h = elim (Bool-cases (starts_with dir path)) [
  | inl e ↦ (e, rw e at h)
  | inr e ↦ ground (arith, e, h)
]

is_inside-IsInside : (path dir : Text) → (is_inside path dir ≡ true) ↔ IsInside path dir
unfolding is_inside
is_inside-IsInside path dir = (
  λ h.
      let (start, end) = is_inside-parts path dir h in
      let (rest, e) = starts_with-rest dir path start in
      (
        rest,
        e,
        inside_test dir rest (
            subst
              (λ p.
                ((length p == length dir)
                  || (byte_is b'/' (back dir) || byte_is b'/' (get_elem? p (length dir))))
                ≡ true)
              e end),
      ),
  λ (rest, e, w). rw (e, starts_with-append dir rest) (inside_test-holds dir rest w),
)

-- A path is accepted exactly if it lies in one of the directories: it is the directory, or goes on
-- behind it from a slash that ends the directory or that follows it.
pub path_within_allowlist_iff :
    (path : Text) (dirs : List Text)
    → (path_within_allowlist path dirs ≡ true) ↔ IsInsideSome path dirs
unfolding path_within_allowlist
path_within_allowlist_iff path [] = (λ h. ground arith, λ h. absurd h)
path_within_allowlist_iff path (dir ∷ dirs) =
    let here = is_inside-IsInside path dir in
    let there = path_within_allowlist_iff path dirs in
    (
      λ h. elim (Bool-cases (is_inside path dir)) [
        | inl e ↦ inl (here.0 e)
        | inr e ↦ inr (there.0 (ground (arith, h, e)))
      ],
      λ w. elim w [
        | inl v ↦ let e = here.1 v in rw e refl
        | inr v ↦ let e = there.1 v in ground (arith, e)
      ],
    )
