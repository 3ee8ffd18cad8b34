-- ===== src/Tests/Documents.antt =====
-- A JSON library of documents in memory, for the tests: it parses one text to one document.
use ezcap.Base.Json.{Json, ℤ, pos, JsonLaws, PrintLaws, assoc}
use ezcap.Base.{
  ℕ, ◌+◌, Bool, true, false, List, [], ◌∷◌, Option, none, some, ◌≡◌, refl, ap, if◌then◌else◌, Text,
  Free, text_eq, text_eq-eq, text_eq_refl, codes, arith, not, ◌&&◌, ◌==◌, sym, Bool-cases, inl, inr,
}

mutual
  pub data Tree : Type 0 where
    object : Fields → Tree
    array : Items → Tree
    string : Text → Tree
    boolean : Bool → Tree
    number : ℕ → Tree

  pub data Fields : Type 0 where
    no_fields : Fields
    field : Text → Tree → Fields → Fields

  pub data Items : Type 0 where
    no_items : Items
    item : Tree → Items → Items

abbrev pub fields : List (Text × Tree) → Fields
fields [] = no_fields
fields ((k, v) ∷ fs) = field k v (fields fs)

abbrev pub items : List Tree → Items
items [] = no_items
items (v ∷ vs) = item v (items vs)

abbrev pub item_list : Items → List Tree
item_list no_items = []
item_list (item v vs) = v ∷ item_list vs

abbrev pub lookup : Fields → Text → Option Tree
lookup no_fields k = none
lookup (field j v fs) k = if text_eq j k then some v else lookup fs k

abbrev pub names : Fields → List Text
names no_fields = []
names (field k v fs) = k ∷ names fs

abbrev pub count : Fields → ℕ
count no_fields = 0
count (field k v fs) = count fs + 1

abbrev pub count_items : Items → ℕ
count_items no_items = 0
count_items (item v vs) = count_items vs + 1

abbrev pub is_object : Tree → Bool
is_object (object _) = true
is_object _ = false

abbrev pub member : Tree → Text → Option Tree
member (object fs) k = lookup fs k
member _ k = none

abbrev pub size : Tree → ℕ
size (object fs) = count fs
size (array vs) = count_items vs
size _ = 1

abbrev pub keys : Tree → List Text
keys (object fs) = names fs
keys _ = []

abbrev pub as_bool : Tree → Option Bool
as_bool (boolean b) = some b
as_bool _ = none

abbrev pub as_string : Tree → Option Text
as_string (string s) = some s
as_string _ = none

abbrev pub as_array : Tree → Option (List Tree)
as_array (array vs) = some (item_list vs)
as_array _ = none

abbrev pub as_int64 : Tree → Option ℤ
as_int64 (number n) = some (pos n)
as_int64 _ = none

abbrev pub as_unsigned : Tree → Option ℕ
as_unsigned (number n) = some n
as_unsigned _ = none

abbrev pub as_int : Tree → Option ℤ
as_int (number n) = some (pos n)
as_int (boolean b) = some (pos (if b then 1 else 0))
as_int _ = none

-- `text` is parsed to `doc`, and nothing else is a document; every value prints as `shown`.
abbrev pub one_document : Text → Tree → Text → Json
one_document text doc shown = record {
  Value = Tree;
  parse = λ t. if text_eq t text then some doc else none;
  dump = λ v. some shown;
  is_object = is_object;
  member = member;
  size = size;
  keys = keys;
  as_bool = as_bool;
  as_string = as_string;
  as_array = as_array;
  as_int64 = as_int64;
  as_unsigned = as_unsigned;
  as_int = as_int;
  discarded = string (codes "<discarded>");
  object = λ fs. object (fields fs);
  array = λ vs. array (items vs);
  string = string;
  boolean = boolean;
  number = number;
}

lookup-fields : (fs : List (Text × Tree)) (k : Text) → lookup (fields fs) k ≡ assoc k fs
unfolding assoc
lookup-fields [] k = refl
lookup-fields ((j, v) ∷ fs) k = ground (arith, lookup-fields fs k)

item_list-items : (vs : List Tree) → item_list (items vs) ≡ vs
item_list-items [] = refl
item_list-items (v ∷ vs) = ap (λ l. v ∷ l) (item_list-items vs)

pub one_document-JsonLaws :
    (text : Text) (doc : Tree) (shown : Text) → JsonLaws (one_document text doc shown)
one_document-JsonLaws text doc shown = record {
  is_object-object = λ fs. refl;
  member-object = lookup-fields;
  as_array-array = λ vs. ap some (item_list-items vs);
  as_string-string = λ s. refl;
  as_bool-boolean = λ b. refl;
  as_int64-number = λ n. λ h. refl;
}

-- Equality of documents.
three : (a b c : Bool) → a && (b && c) ≡ true → (a ≡ true) × (b ≡ true) × (c ≡ true)
three true true true h = (refl, refl, refl)
three true true false h = cc
three true false c h = cc
three false b c h = cc

abbrev mutual
  tree_eq : Tree → Tree → Bool
  tree_eq (object fs) (object gs) = fields_eq fs gs
  tree_eq (array vs) (array ws) = items_eq vs ws
  tree_eq (string s) (string t) = text_eq s t
  tree_eq (boolean b) (boolean c) = if b then c else not c
  tree_eq (number m) (number n) = m == n
  tree_eq _ _ = false

  fields_eq : Fields → Fields → Bool
  fields_eq no_fields no_fields = true
  fields_eq (field j v fs) (field k w gs) = text_eq j k && (tree_eq v w && fields_eq fs gs)
  fields_eq _ _ = false

  items_eq : Items → Items → Bool
  items_eq no_items no_items = true
  items_eq (item v vs) (item w ws) = tree_eq v w && items_eq vs ws
  items_eq _ _ = false

mutual
  tree_eq-eq : (v w : Tree) → tree_eq v w ≡ true → v ≡ w
  tree_eq-eq (object fs) (object gs) h = ap object (fields_eq-eq fs gs h)
  tree_eq-eq (array vs) (array ws) h = ap array (items_eq-eq vs ws h)
  tree_eq-eq (string s) (string t) h = ap string (text_eq-eq s t h)
  tree_eq-eq (boolean true) (boolean true) h = refl
  tree_eq-eq (boolean true) (boolean false) h = cc
  tree_eq-eq (boolean false) (boolean true) h = cc
  tree_eq-eq (boolean false) (boolean false) h = refl
  tree_eq-eq (number m) (number n) h = ap number (ground arith)
  tree_eq-eq (object fs) (array vs) h = cc
  tree_eq-eq (object fs) (string s) h = cc
  tree_eq-eq (object fs) (boolean b) h = cc
  tree_eq-eq (object fs) (number n) h = cc
  tree_eq-eq (array vs) (object fs) h = cc
  tree_eq-eq (array vs) (string s) h = cc
  tree_eq-eq (array vs) (boolean b) h = cc
  tree_eq-eq (array vs) (number n) h = cc
  tree_eq-eq (string s) (object fs) h = cc
  tree_eq-eq (string s) (array vs) h = cc
  tree_eq-eq (string s) (boolean b) h = cc
  tree_eq-eq (string s) (number n) h = cc
  tree_eq-eq (boolean b) (object fs) h = cc
  tree_eq-eq (boolean b) (array vs) h = cc
  tree_eq-eq (boolean b) (string s) h = cc
  tree_eq-eq (boolean b) (number n) h = cc
  tree_eq-eq (number n) (object fs) h = cc
  tree_eq-eq (number n) (array vs) h = cc
  tree_eq-eq (number n) (string s) h = cc
  tree_eq-eq (number n) (boolean b) h = cc

  fields_eq-eq : (fs gs : Fields) → fields_eq fs gs ≡ true → fs ≡ gs
  fields_eq-eq no_fields no_fields h = refl
  fields_eq-eq no_fields (field k w gs) h = cc
  fields_eq-eq (field j v fs) no_fields h = cc
  fields_eq-eq (field j v fs) (field k w gs) h =
      let (a, b, c) = three (text_eq j k) (tree_eq v w) (fields_eq fs gs) h in
      let one = text_eq-eq j k a in
      let two = tree_eq-eq v w b in let rest = fields_eq-eq fs gs c in cc

  items_eq-eq : (vs ws : Items) → items_eq vs ws ≡ true → vs ≡ ws
  items_eq-eq no_items no_items h = refl
  items_eq-eq no_items (item w ws) h = cc
  items_eq-eq (item v vs) no_items h = cc
  items_eq-eq (item v vs) (item w ws) h =
      let (a, b, c) = three true (tree_eq v w) (items_eq vs ws) h in
      let one = tree_eq-eq v w b in let rest = items_eq-eq vs ws c in cc

-- As above, but that nothing else prints, and that `received` is parsed, too, to `message`.
abbrev pub exact_document : Text → Tree → Text → Tree → Json
exact_document text doc received message = record (one_document text doc []) {
  parse =
      λ t. if text_eq t text then some doc else if text_eq t received then some message else none;
  dump = λ v. if tree_eq v doc then some text else none;
}

pub exact_document-JsonLaws :
    (text : Text) (doc : Tree) (received : Text) (message : Tree)
    → JsonLaws (exact_document text doc received message)
exact_document-JsonLaws text doc received message = record {
  is_object-object = λ fs. refl;
  member-object = lookup-fields;
  as_array-array = λ vs. ap some (item_list-items vs);
  as_string-string = λ s. refl;
  as_bool-boolean = λ b. refl;
  as_int64-number = λ n. λ h. refl;
}

-- What it prints, it parses.
pub exact_document-parse :
    (text : Text) (doc v : Tree) (t : Text) (received : Text) (message : Tree)
    → (exact_document text doc received message).dump v ≡ some t
    → (exact_document text doc received message).parse t ≡ some v
exact_document-parse text doc v t received message e = elim (Bool-cases (tree_eq v doc)) [
  | inl same ↦
      let is = tree_eq-eq v doc same in
      let printed : text ≡ t = ground arith in
      let again = text_eq_refl text in rw (sym printed, again, is) refl
  | inr other ↦ absurd (ground arith)
]

exact_document-line :
    (text : Text) (doc v : Tree) (t : Text) (received : Text) (message : Tree)
    → Free (λ c. c == b'\n') text
    → (exact_document text doc received message).dump v ≡ some t
    → Free (λ c. c == b'\n') t
exact_document-line text doc v t received message line e = elim (Bool-cases (tree_eq v doc)) [
  | inl same ↦ let printed : text ≡ t = ground arith in rw (sym printed) line
  | inr other ↦ absurd (ground arith)
]

pub exact_document-PrintLaws :
    (text : Text) (doc : Tree) (received : Text) (message : Tree)
    → Free (λ c. c == b'\n') text
    → PrintLaws (exact_document text doc received message)
exact_document-PrintLaws text doc received message line = record {
  Regular = λ v. Unit {0};
  parsed = λ t v e. tt;
  inner = λ v w k g e. tt;
  string = λ s. tt;
  number = λ n. tt;
  object = λ fs g. tt;
  parse-dump = λ v t g e. exact_document-parse text doc v t received message e;
  one_line = λ v t g e. exact_document-line text doc v t received message line e;
}
