-- ===== src/Base/Json.antt =====
-- The interface to nlohmann::json, which the sources call and which is not in the repository.
-- A document is parsed and then observed through these calls; `none` stands for what the code
-- tests before it reads on (another type, a missing key, a discarded parse) or for an exception.
use Prim.Native.Nat.{ℕ}
use mathlib.Core.Bool.{Bool, true, false}
use mathlib.Core.List.{List, [], ◌∷◌}
use mathlib.Core.Option.{Option, none, some}
use mathlib.Core.Path.{◌≡◌}
use ezcap.Base.Bytes.{Text, text_eq, Free}
use ezcap.Base.Lists.{All}
use ezcap.Base.Tests.{ltb, ◌==◌, if◌then◌else◌}

-- An int64_t; `negsuc n` is -(n + 1).
pub data ℤ : Type 0 where
  pos : ℕ → ℤ
  negsuc : ℕ → ℤ

-- `value < n` and `value > n` for a non-negative `n`.
abbrev pub lt_nat : ℤ → ℕ → Bool
lt_nat (pos m) n = ltb m n
lt_nat (negsuc m) n = true

abbrev pub gt_nat : ℤ → ℕ → Bool
gt_nat (pos m) n = ltb n m
gt_nat (negsuc m) n = false

abbrev pub to_nat : ℤ → ℕ
to_nat (pos m) = m
to_nat (negsuc m) = 0

pub record Json : Type 1 where
  pub Value : Type 0
  -- json::parse(text, nullptr, false), with is_discarded().
  pub parse : Text → Option Value
  -- dump(); it throws on a string that is not UTF-8.
  pub dump : Value → Option Text
  pub is_object : Value → Bool
  -- contains(key) and at(key).
  pub member : Value → Text → Option Value
  pub size : Value → ℕ
  -- The keys that items() goes through.
  pub keys : Value → List Text
  -- is_boolean() and get<bool>(), and so on for the other types.
  pub as_bool : Value → Option Bool
  pub as_string : Value → Option Text
  pub as_array : Value → Option (List Value)
  -- is_number_integer() and get<std::int64_t>().
  pub as_int64 : Value → Option ℤ
  -- is_number_unsigned() and get<std::uint64_t>().
  pub as_unsigned : Value → Option ℕ
  -- get<int>(), of a number or a boolean.
  pub as_int : Value → Option ℤ
  -- What the discarded parse is, where it is used on.
  pub discarded : Value
  -- Documents that the code builds, an object by assignments to distinct keys.
  pub object : List (Text × Value) → Value
  pub array : List Value → Value
  pub string : Text → Value
  pub boolean : Bool → Value
  pub number : ℕ → Value

unfoldable pub assoc {ℓ} : {A : Type ℓ} → Text → List (Text × A) → Option A
assoc k [] = none
assoc k ((j, v) ∷ rest) = if text_eq j k then some v else assoc k rest

-- What the library documents of the values that it builds.
pub record JsonLaws (js : Json) : Type 0 where
  pub is_object-object : (fs : List (Text × js.Value)) → js.is_object (js.object fs) ≡ true
  pub member-object :
      (fs : List (Text × js.Value)) (k : Text) → js.member (js.object fs) k ≡ assoc k fs
  pub as_array-array : (vs : List js.Value) → js.as_array (js.array vs) ≡ some vs
  pub as_string-string : (s : Text) → js.as_string (js.string s) ≡ some s
  pub as_bool-boolean : (b : Bool) → js.as_bool (js.boolean b) ≡ some b
  pub as_int64-number : (n : ℕ) → ltb n 4294967296 ≡ true → js.as_int64 (js.number n) ≡ some (pos n)

-- What the library documents of printing. The values that are meant are those that a text was parsed
-- to and those that are built from such, strings and numbers: never a discarded one or a number that
-- is not finite. Printed without indentation they take one line, and are parsed to what they were.
pub record PrintLaws (js : Json) : Type 1 where
  pub Regular : js.Value → Type 0
  pub parsed : (t : Text) (v : js.Value) → js.parse t ≡ some v → Regular v
  pub inner : (v w : js.Value) (k : Text) → Regular v → js.member v k ≡ some w → Regular w
  pub string : (s : Text) → Regular (js.string s)
  pub number : (n : ℕ) → Regular (js.number n)
  pub object : (fs : List (Text × js.Value)) → All (λ f. Regular f.1) fs → Regular (js.object fs)
  pub parse-dump : (v : js.Value) (t : Text) → Regular v → js.dump v ≡ some t → js.parse t ≡ some v
  pub one_line :
      (v : js.Value) (t : Text) → Regular v → js.dump v ≡ some t → Free (λ c. c == b'\n') t
