-- ===== src/Tests/Printer.antt =====
-- A JSON library that prints its documents, for the tests.
use ezcap.Base.Json.{Json}
use ezcap.Base.{
  ℕ, zero, suc, ◌+◌, ◌/◌, ◌%◌, true, false, ◌||◌, [], ◌∷◌, ◌++◌, Option, none, some, ltb, leb, ◌==◌,
  if◌then◌else◌, Text, codes,
}
use ezcap.Tests.Documents.{
  Tree, Fields, Items, object, array, string, boolean, number, no_fields, field, no_items, item,
  one_document,
}

-- The decimal digits of a number, up to twenty of them.
unfoldable pub digits : ℕ → ℕ → Text
digits zero n = []
digits (suc fuel) n =
    let front = digits fuel (n / 10) in
    if ltb n 10 then (b'0' + n) ∷ [] else front ++ (b'0' + n % 10) ∷ []

-- The bytes of a string; those that are not printable ASCII make the printer fail.
unfoldable pub escape : Text → Option Text
escape [] = some []
escape (c ∷ s) = elim (escape s) [
  | none ↦ none
  | some t ↦
      if (c == b'"') || (c == b'\\')
      then some (b'\\' ∷ c ∷ t)
      else if ltb c 32 || leb 127 c
      then none
      else some (c ∷ t)
]

abbrev pub quoted : Text → Option Text
quoted s = elim (escape s) [ none ↦ none | some t ↦ some (b'"' ∷ (t ++ b'"' ∷ [])) ]

-- Two parts with something between them.
abbrev pub both : Option Text → Text → Option Text → Option Text
both none between _ = none
both (some s) between none = none
both (some s) between (some t) = some (s ++ (between ++ t))

unfoldable mutual
  pub print_tree : Tree → Option Text
  print_tree (object fs) = both (some (b'{' ∷ [])) [] (print_fields fs)
  print_tree (array vs) = both (some (b'[' ∷ [])) [] (print_items vs)
  print_tree (string s) = quoted s
  print_tree (boolean true) = some (codes "true")
  print_tree (boolean false) = some (codes "false")
  print_tree (number n) = some (digits 20 n)

  pub print_fields : Fields → Option Text
  print_fields no_fields = some (b'}' ∷ [])
  print_fields (field k v no_fields) =
      both (quoted k) (b':' ∷ []) (both (print_tree v) [] (some (b'}' ∷ [])))
  print_fields (field k v fs) =
      both (quoted k) (b':' ∷ []) (both (print_tree v) (b',' ∷ []) (print_fields fs))

  pub print_items : Items → Option Text
  print_items no_items = some (b']' ∷ [])
  print_items (item v no_items) = both (print_tree v) [] (some (b']' ∷ []))
  print_items (item v vs) = both (print_tree v) (b',' ∷ []) (print_items vs)

-- `text` is parsed to `doc`, and nothing else is a document; every value of ASCII texts prints.
abbrev pub printing : Text → Tree → Json
printing text doc = record (one_document text doc []) { dump = print_tree }
