-- ===== src/Json/Read/Back.antt =====
-- Texts that were saved, as they are read back.
use ender.Prelude.{false, [], ◌∷◌, some, Text, is_empty, ◌≡◌, refl}
use ender.Json.{string}
use ender.Json.Read.{string_of, string_or, js_string}

abbrev pub IsFull : Text → Type 0
IsFull s = is_empty s ≡ false

pub string_of-string : (s : Text) → string_of (some (string s)) ≡ s
unfolding string_of js_string
string_of-string [] = refl
string_of-string (c ∷ s) = refl

pub string_or-string : (s d : Text) → IsFull s → string_or (some (string s)) d ≡ s
unfolding js_string
string_or-string [] d h = cc
string_or-string (c ∷ s) d h = refl

pub js_string-string : (s : Text) → js_string (string s) ≡ s
unfolding js_string
js_string-string s = refl
