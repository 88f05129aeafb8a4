-- ===== src/Runtime/Window.antt =====
-- runtime/context_window.rs: the masking of old observations and the dropping of old turns. The
-- crate `serde_json` is a parameter. A slice or an index out of bounds panics.
pub mod Tiles
pub mod Mask
pub mod Forget
use Prim.Native.Nat.{◌/◌, ◌%◌}
use zymi_core.Prelude.{
  ℕ, zero, suc, ◌+◌, ◌-◌, Bool, true, false, not, ◌||◌, Option, none, some, List, [], ◌∷◌, ◌++◌,
  ◌==◌, leb, ltb, if◌then◌else◌, length, get_elem?, take, drop, Outcome, done, fault, panic, ◌>>=◌,
  Text, codes, text_eq, starts_with, is_empty, byte_len, floor_slice,
}
use zymi_core.Events.{
  ToolCallInfo, ContentPart, text, image_base64, Message, system, user, user_multimodal, assistant,
  tool_result,
}

-- `from_str`, and the accessors of a value: the members of an object in its order of iteration.
pub record SerdeJson : Type 1 where
  pub Value : Type 0
  pub from_str : Text → Option Value
  pub as_object : Value → Option (List (Text × Value))
  pub get : Value → Text → Option Value
  pub as_str : Value → Option Text

abbrev pub default_observation_window : ℕ
default_observation_window = 10

abbrev pub content_preview_chars : ℕ
content_preview_chars = 200

abbrev pub args_preview_chars : ℕ
args_preview_chars = 60

unfoldable pub is_prefix_message : Message → Bool
is_prefix_message (system s) = true
is_prefix_message (user s) = true
is_prefix_message (user_multimodal parts) = true
is_prefix_message (assistant content tool_calls) = false
is_prefix_message (tool_result tool_call_id content) = false

-- `position(|m| !is_prefix_message(m))`, or the length.
unfoldable pub prefix_end : List Message → ℕ
unfolding is_prefix_message
prefix_end [] = 0
prefix_end (m ∷ ms) = if is_prefix_message m then suc (prefix_end ms) else 0

pub data Segment : Type 0 where
  turn : (start finish : ℕ) → Segment
  pass_through : (idx : ℕ) → Segment

unfoldable pub is_turn : Segment → Bool
is_turn (turn start finish) = true
is_turn (pass_through idx) = false

-- The loop of `identify_segments` at index `i`, with the messages that are left. Within the inner
-- loop, over the results of a turn, the first component is where the turn starts.
unfoldable pub segments_from : Option ℕ → ℕ → List Message → List Segment
segments_from none i [] = []
segments_from (some start) i [] = turn start i ∷ []
segments_from none i (assistant content tool_calls ∷ ms) = segments_from (some i) (suc i) ms
segments_from none i (system s ∷ ms) = pass_through i ∷ segments_from none (suc i) ms
segments_from none i (user s ∷ ms) = pass_through i ∷ segments_from none (suc i) ms
segments_from none i (user_multimodal parts ∷ ms) = pass_through i ∷ segments_from none (suc i) ms
segments_from none i (tool_result id content ∷ ms) = pass_through i ∷ segments_from none (suc i) ms
segments_from (some start) i (tool_result id content ∷ ms) = segments_from (some start) (suc i) ms
segments_from (some start) i (assistant content tool_calls ∷ ms) =
    turn start i ∷ segments_from (some i) (suc i) ms
segments_from (some start) i (system s ∷ ms) =
    turn start i ∷ pass_through i ∷ segments_from none (suc i) ms
segments_from (some start) i (user s ∷ ms) =
    turn start i ∷ pass_through i ∷ segments_from none (suc i) ms
segments_from (some start) i (user_multimodal parts ∷ ms) =
    turn start i ∷ pass_through i ∷ segments_from none (suc i) ms

unfoldable pub identify_segments : List Message → List Segment
unfolding segments_from
identify_segments body = segments_from none 0 body

unfoldable pub count_turns : List Segment → ℕ
unfolding is_turn
count_turns [] = 0
count_turns (s ∷ segs) = if is_turn s then suc (count_turns segs) else count_turns segs

-- `&body[start..finish]`
unfoldable pub slice : List Message → ℕ → ℕ → Outcome (List Message)
slice body start finish =
    if leb start finish
    then (if leb finish (length body)
        then done (take (finish - start) (drop start body))
        else fault panic)
    else fault panic

-- `body[idx]`
unfoldable pub index : List Message → ℕ → Outcome Message
index body idx = elim (get_elem? body idx) [ none ↦ fault panic | some m ↦ done m ]

-- The loop of `forget_old_turns`, from the turns that it has seen and the end of the dropped part.
unfoldable pub drop_until : ℕ → ℕ → ℕ → List Segment → ℕ
drop_until drop_count turns_seen idx [] = idx
drop_until drop_count turns_seen idx (turn start finish ∷ segs) =
    if leb drop_count turns_seen then idx else drop_until drop_count (suc turns_seen) finish segs
drop_until drop_count turns_seen idx (pass_through i ∷ segs) =
    if leb drop_count turns_seen then idx else drop_until drop_count turns_seen (i + 1) segs

unfoldable pub forget_old_turns : List Message → ℕ → Outcome (List Message)
unfolding identify_segments count_turns drop_until slice
forget_old_turns body keep_last_turns =
    let segments = identify_segments body in
    let turn_count = count_turns segments in
    if leb turn_count keep_last_turns
    then done body
    else slice body (drop_until (turn_count - keep_last_turns) 0 0 segments) (length body)

unfoldable pub is_tool_error : Text → Bool
unfolding starts_with
is_tool_error content =
    starts_with content (codes "[tool error]")
    || starts_with content (codes "[denied")
    || starts_with content (codes "[rejected")
    || starts_with content (codes "[requires approval")

-- `…`
abbrev pub ellipsis : Text
ellipsis = 0x2026 ∷ []

unfoldable pub truncate_with_ellipsis : Text → ℕ → Text
truncate_with_ellipsis s max =
    if leb (byte_len s) max then s else floor_slice (max - 1) s ++ ellipsis

unfoldable pub preview_content : Option Text → Option Text
preview_content none = none
preview_content (some c) =
    if leb (byte_len c) content_preview_chars
    then some c
    else some (floor_slice content_preview_chars c ++ ellipsis)

-- The argument that names what a tool does; `none` for any other tool.
unfoldable pub primary_key : Text → Option Text
primary_key tool_name =
    if text_eq tool_name (codes "execute_shell_command")
    then some (codes "command")
    else if text_eq tool_name (codes "read_file") || text_eq tool_name (codes "write_file")
    then some (codes "path")
    else if text_eq tool_name (codes "write_memory") || text_eq tool_name (codes "read_memory")
    then some (codes "key")
    else if text_eq tool_name (codes "web_search")
    then some (codes "query")
    else if text_eq tool_name (codes "web_scrape")
    then some (codes "url")
    else none

-- `{n}`: in decimal. Each round divides by ten.
unfoldable pub decimal_from : ℕ → ℕ → Text → Text
decimal_from zero n acc = acc
decimal_from (suc fuel) n acc =
    let rest = decimal_from fuel (n / 10) ((48 + n % 10) ∷ acc) in
    if ltb n 10 then (48 + n) ∷ acc else rest

unfoldable pub decimal : ℕ → Text
unfolding decimal_from
decimal n = decimal_from (suc n) n []

-- `tc_map.get(id)`: a later call takes the place of an earlier one of the same identifier.
unfoldable pub find_call : Text → List ToolCallInfo → Option ToolCallInfo
find_call id [] = none
find_call id (tc ∷ calls) = elim (find_call id calls) [
  | some found ↦ some found
  | none ↦ if text_eq tc.id id then some tc else none
]

module _ (json : SerdeJson) where
  -- The first string among the members of an object.
  unfoldable pub first_string : List (Text × json.Value) → Text
  unfolding truncate_with_ellipsis
  first_string [] = []
  first_string ((key, v) ∷ members) = elim (json.as_str v) [
    | some s ↦ truncate_with_ellipsis s args_preview_chars
    | none ↦ first_string members
  ]

  abbrev pub string_or_empty : Option json.Value → Text
  unfolding truncate_with_ellipsis
  string_or_empty none = []
  string_or_empty (some v) = elim (json.as_str v) [
    | some s ↦ truncate_with_ellipsis s args_preview_chars
    | none ↦ []
  ]

  abbrev pub object_preview : Option (List (Text × json.Value)) → Text
  unfolding first_string
  object_preview none = []
  object_preview (some members) = first_string members

  unfoldable pub extract_args_preview : Text → Text → Text
  unfolding primary_key first_string
  extract_args_preview tool_name arguments_json = elim (json.from_str arguments_json) [
    | none ↦ []
    | some parsed ↦ elim (primary_key tool_name) [
      | some key ↦ string_or_empty (json.get parsed key)
      | none ↦ object_preview (json.as_object parsed)
    ]
  ]

  abbrev pub name_and_arguments : Option ToolCallInfo → Text × Text
  name_and_arguments (some tc) = (tc.name, tc.arguments)
  name_and_arguments none = (codes "unknown", codes "{}")

  unfoldable pub placeholder : List ToolCallInfo → Text → Text → Text
  unfolding extract_args_preview is_tool_error decimal find_call
  placeholder tool_calls tool_call_id content =
      let (tool_name, args_json) = name_and_arguments (find_call tool_call_id tool_calls) in
      let args_preview = extract_args_preview tool_name args_json in
      let status = if is_tool_error content then codes "error" else codes "ok" in
      let size = decimal (byte_len content) in
      if is_empty args_preview
      then codes "[masked: "
        ++ tool_name
        ++ codes " → "
        ++ status
        ++ codes ", "
        ++ size
        ++ codes " chars]"
      else codes "[masked: "
        ++ tool_name
        ++ codes "(\""
        ++ args_preview
        ++ codes "\") → "
        ++ status
        ++ codes ", "
        ++ size
        ++ codes " chars]"

  unfoldable pub mask_results : List ToolCallInfo → List Message → List Message
  unfolding placeholder
  mask_results tool_calls [] = []
  mask_results tool_calls (tool_result id content ∷ ms) =
      tool_result id (placeholder tool_calls id content) ∷ mask_results tool_calls ms
  mask_results tool_calls (m ∷ ms) = m ∷ mask_results tool_calls ms

  -- `turn_messages[0]` panics on no message.
  unfoldable pub mask_turn : List Message → Outcome (List Message)
  unfolding preview_content mask_results
  mask_turn [] = fault panic
  mask_turn (assistant content tool_calls ∷ ms) =
      done (assistant (preview_content content) tool_calls ∷ mask_results tool_calls ms)
  mask_turn (m ∷ ms) = done (m ∷ ms)

  -- The loop over the segments, with the turns seen.
  unfoldable pub mask_segments : List Message → ℕ → ℕ → List Segment → Outcome (List Message)
  unfolding slice index mask_turn
  mask_segments body mask_count turns_seen [] = done []
  mask_segments body mask_count turns_seen (turn start finish ∷ segs) = do
    turn_msgs ← slice body start finish
    shown ← (if ltb turns_seen mask_count then mask_turn turn_msgs else done turn_msgs)
    rest ← mask_segments body mask_count (suc turns_seen) segs
    done (shown ++ rest)
  mask_segments body mask_count turns_seen (pass_through idx ∷ segs) = do
    m ← index body idx
    rest ← mask_segments body mask_count turns_seen segs
    done (m ∷ rest)

  -- From the prefix and the body on.
  unfoldable pub mask_body : List Message → List Message → List Message → ℕ → Outcome (List Message)
  unfolding identify_segments count_turns mask_segments
  mask_body messages prefix body observation_window =
      let segments = identify_segments body in
      let mask_count = count_turns segments - observation_window in
      if is_empty body
      then done messages
      else if mask_count == 0
      then done messages
      else (do rest ← mask_segments body mask_count 0 segments; done (prefix ++ rest))

  unfoldable pub mask_observations : List Message → ℕ → Outcome (List Message)
  unfolding prefix_end mask_body
  mask_observations [] observation_window = done []
  mask_observations (m ∷ ms) observation_window =
      let messages = m ∷ ms in
      let end = prefix_end messages in
      mask_body messages (take end messages) (drop end messages) observation_window

abbrev pub text_chars : List ContentPart → ℕ
text_chars [] = 0
text_chars (text t ∷ parts) = byte_len t + text_chars parts
text_chars (image_base64 media_type data' ∷ parts) = text_chars parts

unfoldable pub approx_chars : List Message → ℕ
approx_chars [] = 0
approx_chars (system s ∷ ms) = byte_len s + approx_chars ms
approx_chars (user s ∷ ms) = byte_len s + approx_chars ms
approx_chars (assistant none tool_calls ∷ ms) = approx_chars ms
approx_chars (assistant (some c) tool_calls ∷ ms) = byte_len c + approx_chars ms
approx_chars (tool_result id content ∷ ms) = byte_len content + approx_chars ms
approx_chars (user_multimodal parts ∷ ms) = text_chars parts + approx_chars ms
