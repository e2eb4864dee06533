-- ===== src/Task/Content.antt =====
-- The content of a user's message: the functions above `TaskManager` in src/runtime/taskManager.js.
use ender.Prelude.{
  ℕ, zero, suc, Bool, true, false, not, ◌||◌, List, [], ◌∷◌, ◌++◌, Option, none, some, Text, lit,
  trim, lower, take, keep, length, is_empty, text_eq, ◌==◌, if◌then◌else◌,
}
use ender.Json.{Json, null, string, array, object, field, end, sanitize, sanitize_string}
use ender.Json.Read.{
  string_of, string_if, member, member_of, is_text, item_list, items_of, array_items, decimal,
}

-- `sanitizeString(v || "").trim()`
abbrev pub clean_text : Option Json → Text
clean_text v = trim (sanitize_string (string_of v))

-- sanitizeThreadContent
unfoldable pub sanitize_thread_content : Option Json → Json
sanitize_thread_content (some (array xs)) = sanitize (array xs)
sanitize_thread_content v = string (sanitize_string (string_of v))

-- hasThreadContent
unfoldable pub has_thread_content : Option Json → Bool
has_thread_content (some (array xs)) = elim (item_list xs) [ [] ↦ false | _ ↦ true ]
has_thread_content v = not (is_empty (trim (string_of v)))

abbrev pub text_block : Text → Json
text_block s = object (field (lit "type") (string (lit "text")) (field (lit "text") (string s) end))

abbrev pub image_block : Json → Json
image_block image =
    object (field (lit "type") (string (lit "image_url")) (field (lit "image_url") image end))

-- ALLOWED_IMAGE_DETAILS
unfoldable pub is_detail : Text → Bool
is_detail d = text_eq d (lit "auto") || text_eq d (lit "low") || text_eq d (lit "high")

abbrev pub image_url_of : Json → Text → Option Json → Option Json
image_url_of item k (some (string s)) =
    if text_eq k (lit "url") then some (string s) else member k item
image_url_of item k v = member_of k v

unfoldable pub image_json : Text → Text → Json
image_json url detail = object (
    field (lit "url") (string url)
      (if is_detail detail then field (lit "detail") (string detail) end else end))

-- One round of the loop of normalizeUserContentBlocks; `none` is `continue` with nothing pushed.
unfoldable pub normalize_block : Json → Option Json
unfolding image_json
normalize_block item =
    let text = clean_text (member (lit "text") item) in
    let raw = member (lit "image_url") item in
    let url = clean_text (image_url_of item (lit "url") raw) in
    let detail = lower (clean_text (image_url_of item (lit "detail") raw)) in
    if is_text (lit "text") (member (lit "type") item)
    then (if is_empty text then none else some (text_block text))
    else if is_text (lit "image_url") (member (lit "type") item)
    then (if is_empty url then none else some (image_block (image_json url detail)))
    else none

abbrev pub push_some : Option Json → List Json → List Json
push_some none xs = xs
push_some (some x) xs = x ∷ xs

unfoldable pub normalize_blocks : List Json → List Json
normalize_blocks [] = []
normalize_blocks (item ∷ rest) = push_some (normalize_block item) (normalize_blocks rest)

abbrev pub only_block : Json → Json
only_block b = elim (is_text (lit "text") (member (lit "type") b)) [
  | true ↦ elim (member (lit "text") b) [ some t ↦ t | none ↦ null ]
  | false ↦ array (items_of (b ∷ []))
]

abbrev pub pack_blocks : List Json → Json
pack_blocks [] = string []
pack_blocks (b ∷ []) = only_block b
pack_blocks bs = array (items_of bs)

-- buildUserMessageContent
unfoldable pub build_content : Option Json → Option Json → Json
build_content prompt content =
    let clean = clean_text prompt in
    let blocks = normalize_blocks (array_items content) in
    if is_empty clean
    then pack_blocks blocks
    else elim blocks [ [] ↦ string clean | b ∷ bs ↦ pack_blocks (text_block clean ∷ b ∷ bs) ]

-- `s.split("\n")[0]`
unfoldable pub first_line : Text → Text
first_line [] = []
first_line (c ∷ s) = let rest = first_line s in if c == 10 then [] else c ∷ rest

abbrev pub shown_text : Json → Option Text
shown_text item = elim (member (lit "text") item) [
  | some t ↦ elim t [ string s ↦ if is_empty (trim s) then none else some s | _ ↦ none ]
  | none ↦ none
]

-- The text of the first text block that shows something.
unfoldable pub first_text : List Json → Option Text
first_text [] = none
first_text (item ∷ rest) =
    let later = first_text rest in
    if is_text (lit "text") (member (lit "type") item)
    then elim (shown_text item) [ some s ↦ some s | none ↦ later ]
    else later

unfoldable pub image_count : List Json → ℕ
image_count items = length (keep (λ i. is_text (lit "image_url") (member (lit "type") i)) items)

abbrev pub describe_images : ℕ → Text
describe_images zero = lit "Sent attachments"
describe_images (suc zero) = lit "Sent " ++ decimal 1 ++ lit " image attachment"
describe_images n = lit "Sent " ++ decimal n ++ lit " image attachments"

abbrev pub describe : Option Text → List Json → Text
describe (some s) items = take 240 (first_line (trim (sanitize_string s)))
describe none items = describe_images (image_count items)

-- summarizeUserMessageContent
unfoldable pub summarize : Json → Text
summarize (string s) = trim (sanitize_string s)
summarize (array xs) = elim (item_list xs) [
  | [] ↦ []
  | _ ↦ describe (first_text (item_list xs)) (item_list xs)
]
summarize _ = []

-- normalizeContinueTaskInput: the parts of the input that `continueTask` reads.
pub record ContinueInput : Type 0 where
  pub prompt : Option Json
  pub content : Option Json
  pub llm_profile_id : Option Text
  pub memory_mode : Option Text

abbrev pub if_string : Option Json → Option Json
if_string (some (string s)) = some (string s)
if_string _ = some (string [])

abbrev pub if_array : Option Json → Option Json
if_array (some (array xs)) = some (array xs)
if_array _ = none

abbrev pub trimmed_if : Option Json → Option Text
trimmed_if v = elim (string_if v) [ none ↦ none | some s ↦ some (trim s) ]

unfoldable pub normalize_input : Json → ContinueInput
normalize_input (string s) = record {
  prompt = some (string s);
  content = none;
  llm_profile_id = none;
  memory_mode = none;
}
normalize_input (object fs) = record {
  prompt = if_string (member (lit "prompt") (object fs));
  content = if_array (member (lit "content") (object fs));
  llm_profile_id = trimmed_if (member (lit "llmProfileId") (object fs));
  memory_mode = trimmed_if (member (lit "memoryMode") (object fs));
}
normalize_input (array xs) = record {
  prompt = some (string []);
  content = none;
  llm_profile_id = none;
  memory_mode = none;
}
normalize_input _ = record {
  prompt = some (string []);
  content = none;
  llm_profile_id = none;
  memory_mode = none;
}

-- The content of the message that `continueTask` makes of its input.
abbrev pub message_of : Json → Json
message_of raw = build_content (normalize_input raw).prompt (normalize_input raw).content
