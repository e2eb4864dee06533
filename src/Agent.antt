-- ===== src/Agent.antt =====
-- The agent loop: src/runtime/runAgentLoop.js. This file has what it reads and writes; Agent/Loop is
-- the loop. `stringify` and `parse` are JSON.stringify and JSON.parse.
pub mod Loop
pub mod Answers
pub mod Limits
pub mod Blind
use ender.Prelude.{
  starts_with, ℕ, Bool, true, false, not, ◌&&◌, ◌||◌, List, [], ◌∷◌, ◌++◌, Option, none, some, Text,
  lit, trim, lower, is_empty, is_some, text_eq, text_or, take, length, map, if◌then◌else◌,
}
unfoldable pub use ender.Prelude.{join}
use ender.Json.{
  Json, null, boolean, number, string, array, object, Items, nil, cons, Fields, end, field, natural,
  sanitize, sanitize_items, sanitize_string,
}
use ender.Json.Read.{member, member_of, string_of, string_or, js_string, item_list, trimmed, truthy}
use ender.Task.Content.{text_block}

-- A tool call of the model, as it is after sanitizeJsonValue.
pub record ToolCall : Type 0 where
  pub id : Option Text
  pub name : Text
  pub args : Option Json

-- The messages that the model is given.
pub data Message : Type 0 where
  system : Text → Message
  human : Json → Message
  assistant : Json → List ToolCall → Message
  tool : Text → Text → Text → Message  -- content, tool_call_id, name

-- The events that the loop logs, with the fields that tell them apart.
pub data Event : Type 0 where
  thinking : ℕ → Event
  progress : ℕ → Text → Event
  called : Text → Text → Text → Event  -- tool call id, name, status
  repeated : ℕ → Event

-- sanitizeMessageContent
unfoldable pub sanitize_message_content : Option Json → Json
sanitize_message_content (some (array xs)) = array (sanitize_items xs)
sanitize_message_content v = string (sanitize_string (string_of v))

-- normalizeAssistantMessageContent
unfoldable pub normalize_assistant_content : Option Json → Json
normalize_assistant_content none = string []
normalize_assistant_content (some null) = string []
normalize_assistant_content (some (array xs)) = array (sanitize_items xs)
normalize_assistant_content (some j) = string (sanitize_string (js_string j))

abbrev pub text_part : Json → Option Json → Text
text_part (string t) (some (string s)) = if text_eq t (lit "text") then s else []
text_part _ _ = []

abbrev pub part_text : Json → Text
part_text (string s) = s
part_text (object fs) = elim (member (lit "type") (object fs)) [
  | none ↦ []
  | some t ↦ text_part t (member (lit "text") (object fs))
]
part_text _ = []

abbrev pub join_all : List Text → Text
join_all [] = []
join_all (s ∷ ss) = s ++ join_all ss

-- getAssistantText
unfoldable pub assistant_text : Json → Text
assistant_text (array xs) = trim (join_all (map part_text (item_list xs)))
assistant_text j = trim (string_of (some j))

abbrev pub answer_part : Json → Text
answer_part (string s) = s
answer_part j = string_of (member (lit "text") j)

-- The text of an answer without tool calls; none of its parts is null.
unfoldable pub answer_text : Json → Text
unfolding join
answer_text (array xs) = join (lit " ") (map answer_part (item_list xs))
answer_text j = string_of (some j)

abbrev pub is_blank_content : Json → Bool
is_blank_content (array nil) = true
is_blank_content (string []) = true
is_blank_content _ = false

abbrev pub message_as : Text → Json → Option Message
message_as role content =
    if is_blank_content content
    then none
    else if text_eq role (lit "assistant")
    then some (assistant content [])
    else if text_eq role (lit "user") || text_eq role (lit "human")
    then some (human content)
    else none

-- toConversationMessage
unfoldable pub conversation_message : Json → Option Message
unfolding sanitize_message_content
conversation_message (object fs) =
    message_as (lower (string_of (member (lit "role") (object fs))))
      (sanitize_message_content (member (lit "content") (object fs)))
conversation_message _ = none

abbrev pub present : List (Option Message) → List Message
present [] = []
present (none ∷ ms) = present ms
present (some m ∷ ms) = m ∷ present ms

abbrev pub conversation_of : Text → List Json → List Message
conversation_of prompt [] = human (string (sanitize_string prompt)) ∷ []
conversation_of prompt (e ∷ es) = present (map conversation_message (e ∷ es))

-- The messages at the start of a run.
unfoldable pub first_messages : Text → Text → Text → List Json → List Message
unfolding conversation_message
first_messages system_prompt context user_prompt thread =
    let conversation = conversation_of user_prompt thread in
    let rest =
      if is_empty (trim context)
      then conversation
      else system (lit "Ender runtime context:" ++ (10 ∷ sanitize_string context)) ∷ conversation in
    system (sanitize_string system_prompt) ∷ rest

-- What a tool gave, as the loop uses it.
pub record Normalized : Type 0 where
  pub content : Text
  pub fingerprint : Text
  pub is_done : Bool
  pub follow_up : Option Json

abbrev pub plain_result : Text → Normalized
plain_result s = record {
  content = s;
  fingerprint = take 300 s;
  is_done = starts_with (lit "DONE:") s;
  follow_up = none;
}

-- A result with blocks for the model to look at.
unfoldable pub visual_result : (Json → Text) → Text → Json → Items → Normalized
visual_result stringify name result blocks =
    let summary = sanitize_string (
      string_or (member (lit "logSummary") result) (
        stringify (
          object (
            field (lit "ok") (boolean true)
              (field (lit "blocks") (number (natural (length (item_list blocks)))) end))))) in
    let follow_up_text = sanitize_string (
      string_or (member (lit "followUpText") result) (
        lit "Tool "
        ++ (name
            ++ lit
                " produced multimodal output. Use the attached content as tool evidence before deciding the next step."))) in
    record {
      content = summary;
      fingerprint = sanitize_string (string_or (member (lit "fingerprint") result) summary);
      is_done = false;
      follow_up = some (array (cons (text_block follow_up_text) (sanitize_items blocks)));
    }

abbrev pub object_result : (Json → Text) → Text → Json → Option Json → Normalized
object_result stringify name result (some (array blocks)) =
    visual_result stringify name result blocks
object_result stringify name result _ = plain_result (stringify (sanitize result))

-- normalizeToolInvokeResult; `none`: a result that is undefined makes it throw.
unfoldable pub normalize_result : (Json → Text) → Text → Option Json → Option Normalized
unfolding visual_result
normalize_result stringify name none = none
normalize_result stringify name (some (string s)) = some (plain_result (sanitize_string s))
normalize_result stringify name (some (object fs)) =
    some (object_result stringify name (object fs) (member (lit "toolMessageContent") (object fs)))
normalize_result stringify name (some j) = some (plain_result (stringify (sanitize j)))
