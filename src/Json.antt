-- ===== src/Json.antt =====
-- JSON values, and their cleaning for storage: src/utils/jsonSafe.js. A number is an integer, or
-- another finite number by its decimal text.
pub mod Clean
pub mod Read
use ender.Prelude.{
  ℕ, Bool, true, false, not, ◌&&◌, ◌||◌, List, [], ◌∷◌, Text, leb, ◌==◌, if◌then◌else◌,
}

pub data Number : Type 0 where
  natural : ℕ → Number
  negative : ℕ → Number  -- minus (n + 1)
  fraction : Text → Number

mutual
  pub data Json : Type 0 where
    null : Json
    boolean : Bool → Json
    number : Number → Json
    string : Text → Json
    array : Items → Json
    object : Fields → Json

  pub data Items : Type 0 where
    nil : Items
    cons : Json → Items → Items

  pub data Fields : Type 0 where
    end : Fields
    field : Text → Json → Fields → Fields

unfoldable pub is_high : ℕ → Bool
is_high c = leb 0xd800 c && leb c 0xdbff

unfoldable pub is_low : ℕ → Bool
is_low c = leb 0xdc00 c && leb c 0xdfff

-- The class [\u0001-\u0008\u000B\u000C\u000E-\u001F].
unfoldable pub is_control : ℕ → Bool
is_control c = (leb 1 c && leb c 8) || c == 0xb || c == 0xc || (leb 0xe c && leb c 0x1f)

abbrev pub starts_low : Text → Bool
starts_low [] = false
starts_low (c ∷ _) = is_low c

-- The four replacements, in the order in which they are made.
unfoldable pub drop_nul : Text → Text
drop_nul [] = []
drop_nul (c ∷ s) = let rest = drop_nul s in if c == 0 then rest else c ∷ rest

unfoldable pub blank_controls : Text → Text
blank_controls [] = []
blank_controls (c ∷ s) = (if is_control c then 32 else c) ∷ blank_controls s

unfoldable pub replace_high : Text → Text
replace_high [] = []
replace_high (c ∷ s) = (if is_high c && not (starts_low s) then 0xfffd else c) ∷ replace_high s

-- The flag says that the unit before is a high surrogate.
unfoldable pub replace_low : Bool → Text → Text
replace_low after_high [] = []
replace_low after_high (c ∷ s) =
    (if is_low c && not after_high then 0xfffd else c) ∷ replace_low (is_high c) s

unfoldable pub sanitize_string : Text → Text
sanitize_string s = replace_low false (replace_high (blank_controls (drop_nul s)))

unfoldable mutual
  pub sanitize : Json → Json
  sanitize null = null
  sanitize (boolean b) = boolean b
  sanitize (number n) = number n
  sanitize (string s) = string (sanitize_string s)
  sanitize (array xs) = array (sanitize_items xs)
  sanitize (object fs) = object (sanitize_fields fs)

  pub sanitize_items : Items → Items
  sanitize_items nil = nil
  sanitize_items (cons x xs) = cons (sanitize x) (sanitize_items xs)

  pub sanitize_fields : Fields → Fields
  sanitize_fields end = end
  sanitize_fields (field k v fs) = field k (sanitize v) (sanitize_fields fs)
