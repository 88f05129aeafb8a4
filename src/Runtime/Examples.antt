-- ===== src/Runtime/Examples.antt =====
-- runtime/ at concrete inputs: tests, and the theorems at inputs that meet their hypotheses.
use zymi_core.Prelude.{
  ◌-◌, Option, ◌≡◌, ◌≤◌, ◌⊎◌, refl, true, false, none, some, List, [], ◌∷◌, ◌++◌, map, done, Text,
  codes, text_eq, byte_len, len_utf8, starts_with, is_empty, arith,
}
use zymi_core.Events.{ToolCallInfo, Message, system, user, assistant, tool_result}
use zymi_core.Runtime.Window.{
  SerdeJson, turn, pass_through, identify_segments, mask_observations, forget_old_turns, decimal,
}
use zymi_core.Runtime.Window.Tiles.{Tiles, identify_segments-Tiles, are_results, starts_result}
use zymi_core.Runtime.Window.Mask.{assistants, mask_first, mask_observations-mask_first}
use zymi_core.Runtime.Window.Mask.Keeps.{
  without_content, mask_observations-without_content, mask_observations-recent,
}
use zymi_core.Runtime.Window.Forget.{forget_old_turns_lem}

-- Arguments that are one string, whatever the key.
abbrev plain : SerdeJson
plain = record {
  Value = Text;
  from_str = some;
  as_object = λ _. none;
  get = λ v key. some v;
  as_str = some;
}

abbrev call : ToolCallInfo
call = record { id = codes "1"; name = codes "read_file"; arguments = codes "a.rs" }

abbrev older : List Message
older =
    system (codes "sys")
    ∷ user (codes "go")
    ∷ assistant none (call ∷ [])
    ∷ tool_result (codes "1") (codes "[denied]")
    ∷ user (codes "on")
    ∷ []

abbrev conversation : List Message
conversation = older ++ assistant (some (codes "done")) [] ∷ []

masks_the_first_turn :
    mask_observations plain conversation 1
    ≡ done (
        system (codes "sys")
        ∷ user (codes "go")
        ∷ assistant none (call ∷ [])
        ∷ tool_result (codes "1") (codes "[masked: read_file(\"a.rs\") → error, 8 chars]")
        ∷ user (codes "on")
        ∷ assistant (some (codes "done")) []
        ∷ [])
unfolding mask_observations text_eq byte_len len_utf8 starts_with is_empty
masks_the_first_turn = refl

abbrev body : List Message
body =
    assistant none (call ∷ [])
    ∷ tool_result (codes "1") (codes "x")
    ∷ user (codes "on")
    ∷ assistant none []
    ∷ []

segments_of_body : identify_segments body ≡ turn 0 2 ∷ pass_through 2 ∷ turn 3 4 ∷ []
unfolding identify_segments
segments_of_body = refl

forgets_the_first_turn : forget_old_turns body 1 ≡ done (user (codes "on") ∷ assistant none [] ∷ [])
unfolding forget_old_turns
forgets_the_first_turn = refl

decimal_10 : decimal 1050 ≡ codes "1050"
unfolding decimal
decimal_10 = refl

identify_segments-Tiles_example : Tiles body 0 (identify_segments body) body
identify_segments-Tiles_example = identify_segments-Tiles body

mask_observations-mask_first_example :
    mask_observations plain conversation 1
    ≡ done (mask_first plain (assistants conversation - 1) none conversation)
mask_observations-mask_first_example = mask_observations-mask_first plain conversation 1

mask_observations-without_content_example :
    (out : List Message) × (mask_observations plain conversation 1 ≡ done out)
    × (map without_content out ≡ map without_content conversation)
mask_observations-without_content_example = mask_observations-without_content plain conversation 1

mask_observations-recent_example :
    (before : List Message) × (mask_observations plain conversation 1
      ≡ done (before ++ (assistant (some (codes "done")) [] ∷ [])))
unfolding assistants
mask_observations-recent_example =
    mask_observations-recent plain (some (codes "done")) [] [] older 1 (omega arith)

forget_old_turns_example :
    ((assistants body ≤ 1) × (forget_old_turns body 1 ≡ done body))
    ⊎ ((before : List Message) × (content : Option Text) × (tool_calls : List ToolCallInfo)
        × (results kept : List Message) × (body
            ≡ before ++ (assistant content tool_calls ∷ (results ++ kept)))
        × (are_results results ≡ true)
        × (starts_result kept ≡ false)
        × (assistants kept ≡ 1)
        × (forget_old_turns body 1 ≡ done kept))
forget_old_turns_example = forget_old_turns_lem body 1
