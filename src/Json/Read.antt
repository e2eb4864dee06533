-- ===== src/Json/Read.antt =====
-- How JavaScript reads a JSON value: truthiness, String(), property access and array tests. A value
-- that is `undefined` is `none`.
pub mod Back
use Prim.Native.Nat.{◌/◌, ◌%◌}
use ender.Prelude.{
  ℕ, zero, suc, ◌+◌, Bool, true, false, not, List, [], ◌∷◌, ◌++◌, Option, none, some, Text, lit,
  text_eq, is_empty, trim, ◌==◌, ltb, if◌then◌else◌,
}
use ender.Json.{
  Json, null, boolean, number, string, array, object, Items, nil, cons, Fields, end, field, Number,
  natural, negative, fraction,
}

-- The decimal digits of a number, least first; fuel of one more than the number is always enough.
digits : ℕ → ℕ → Text
digits zero n = []
digits (suc f) n = let more = digits f (n / 10) in (48 + n % 10) ∷ (if ltb n 10 then [] else more)

reversed : Text → Text → Text
reversed acc [] = acc
reversed acc (c ∷ s) = reversed (c ∷ acc) s

unfoldable pub decimal : ℕ → Text
unfolding digits reversed
decimal n = reversed [] (digits (suc n) n)

unfoldable pub number_text : Number → Text
number_text (natural n) = decimal n
number_text (negative n) = 45 ∷ decimal (suc n)
number_text (fraction s) = s

abbrev pub truthy : Json → Bool
truthy null = false
truthy (boolean b) = b
truthy (number (natural n)) = not (n == 0)
truthy (number _) = true
truthy (string s) = not (is_empty s)
truthy (array _) = true
truthy (object _) = true

-- String(v). An array is joined by commas, with null items left empty.
unfoldable mutual
  pub js_string : Json → Text
  js_string null = lit "null"
  js_string (boolean true) = lit "true"
  js_string (boolean false) = lit "false"
  js_string (number n) = number_text n
  js_string (string s) = s
  js_string (array xs) = js_first xs
  js_string (object fs) = lit "[object Object]"

  pub js_first : Items → Text
  js_first nil = []
  js_first (cons null xs) = js_rest xs
  js_first (cons x xs) = js_string x ++ js_rest xs

  pub js_rest : Items → Text
  js_rest nil = []
  js_rest (cons null xs) = 44 ∷ js_rest xs
  js_rest (cons x xs) = 44 ∷ (js_string x ++ js_rest xs)

-- `String(v || "")`.
unfoldable pub string_of : Option Json → Text
string_of none = []
string_of (some j) = if truthy j then js_string j else []

-- `v ? String(v) : null`.
unfoldable pub string_if : Option Json → Option Text
string_if none = none
string_if (some j) = if truthy j then some (js_string j) else none

abbrev pub find_field : Text → Fields → Option Json
find_field k end = none
find_field k (field j v fs) = if text_eq j k then some v else find_field k fs

-- `v?.k` of a JSON value.
abbrev pub member : Text → Json → Option Json
member k (object fs) = find_field k fs
member k _ = none

-- `v?.k`, where `v` itself can be absent.
abbrev pub member_of : Text → Option Json → Option Json
member_of k none = none
member_of k (some j) = member k j

-- `v === s`.
unfoldable pub is_text : Text → Option Json → Bool
is_text s (some (string t)) = text_eq t s
is_text s _ = false

abbrev pub item_list : Items → List Json
item_list nil = []
item_list (cons x xs) = x ∷ item_list xs

abbrev pub items_of : List Json → Items
items_of [] = nil
items_of (x ∷ xs) = cons x (items_of xs)

-- `Array.isArray(v) ? v : []`.
unfoldable pub array_items : Option Json → List Json
array_items (some (array xs)) = item_list xs
array_items _ = []

-- `v !== false`.
unfoldable pub is_not_false : Option Json → Bool
is_not_false (some (boolean b)) = b
is_not_false _ = true

-- `Boolean(v)`.
unfoldable pub is_truthy : Option Json → Bool
is_truthy none = false
is_truthy (some j) = truthy j

-- `String(v || "").trim()`.
abbrev pub trimmed : Option Json → Text
trimmed v = trim (string_of v)

-- `v ? String(v).trim() : null`.
abbrev pub trimmed_if : Option Json → Option Text
trimmed_if none = none
trimmed_if (some j) = if truthy j then some (trim (js_string j)) else none

-- `String(v || d)`, for a literal `d`.
abbrev pub string_or : Option Json → Text → Text
string_or none d = d
string_or (some j) d = if truthy j then js_string j else d

-- `v || w`.
abbrev pub or_truthy : Option Json → Option Json → Option Json
or_truthy none w = w
or_truthy (some j) w = if truthy j then some j else w

-- `v && typeof v === "object" ? v : null`.
abbrev pub object_if : Option Json → Option Json
object_if (some (object fs)) = some (object fs)
object_if (some (array xs)) = some (array xs)
object_if _ = none

-- `===` on values that are not objects; an object is equal to itself only.
unfoldable pub same_value : Option Json → Option Json → Bool
same_value none none = true
same_value (some null) (some null) = true
same_value (some (boolean a)) (some (boolean b)) = if a then b else not b
same_value (some (number (natural a))) (some (number (natural b))) = a == b
same_value (some (number (negative a))) (some (number (negative b))) = a == b
same_value (some (number (fraction a))) (some (number (fraction b))) = text_eq a b
same_value (some (string a)) (some (string b)) = text_eq a b
same_value a b = false
