-- ===== src/Runtime/Window/Mask/Keeps.antt =====
-- runtime/context_window.rs: what `mask_observations` keeps.
use zymi_core.Prelude.{
  ℕ, zero, suc, ◌-◌, ◌≤◌, ◌≡◌, refl, ap, ◌∙◌, Option, none, some, List, [], ◌∷◌, ◌++◌, map, done,
  Text, arith,
}
use zymi_core.Events.{ToolCallInfo, Message, system, user, user_multimodal, assistant, tool_result}
use zymi_core.Runtime.Window.{SerdeJson, preview_content, placeholder, mask_observations}
use zymi_core.Runtime.Window.Mask.{
  assistants, assistants-append, mask_first, mask_first-zero, mask_observations-mask_first,
}

-- What masking keeps of a message: all but an assistant's content and a result's.
abbrev pub without_content : Message → Message
without_content (assistant content tool_calls) = assistant none tool_calls
without_content (tool_result id content) = tool_result id []
without_content (system s) = system s
without_content (user s) = user s
without_content (user_multimodal parts) = user_multimodal parts

mask_first-without_content :
    (json : SerdeJson) (n : ℕ) (calls : Option (List ToolCallInfo)) (ms : List Message)
    → map without_content (mask_first json n calls ms) ≡ map without_content ms
unfolding mask_first
mask_first-without_content json n calls [] = refl
mask_first-without_content json zero calls (assistant c t ∷ ms) =
    ap (λ r. assistant none t ∷ r) (mask_first-without_content json zero none ms)
mask_first-without_content json (suc n) calls (assistant c t ∷ ms) =
    ap (λ r. assistant none t ∷ r) (mask_first-without_content json n (some t) ms)
mask_first-without_content json n (some t) (tool_result id c ∷ ms) =
    ap (λ r. tool_result id [] ∷ r) (mask_first-without_content json n (some t) ms)
mask_first-without_content json n none (tool_result id c ∷ ms) =
    ap (λ r. tool_result id [] ∷ r) (mask_first-without_content json n none ms)
mask_first-without_content json n calls (system s ∷ ms) =
    ap (λ r. system s ∷ r) (mask_first-without_content json n none ms)
mask_first-without_content json n calls (user s ∷ ms) =
    ap (λ r. user s ∷ r) (mask_first-without_content json n none ms)
mask_first-without_content json n calls (user_multimodal parts ∷ ms) =
    ap (λ r. user_multimodal parts ∷ r) (mask_first-without_content json n none ms)

-- Masking the observations gives a list of messages that differs from the one given in the contents
-- of assistants and of results alone: the same messages in the same order, each with its tool calls
-- and with the identifier of the call that it answers, so that no call loses its result.
pub mask_observations-without_content :
    (json : SerdeJson) (messages : List Message) (observation_window : ℕ)
    → (out : List Message) × (mask_observations json messages observation_window ≡ done out)
      × (map without_content out ≡ map without_content messages)
mask_observations-without_content json messages w =
    let n = assistants messages - w in
    (
      mask_first json n none messages,
      mask_observations-mask_first json messages w,
      mask_first-without_content json n none messages,
    )

-- A list ends in `recent`.
abbrev EndsIn : List Message → List Message → Type 0
EndsIn ms recent = (before : List Message) × (ms ≡ before ++ recent)

EndsIn-cons : (m : Message) (ms recent : List Message) → EndsIn ms recent → EndsIn (m ∷ ms) recent
EndsIn-cons m ms recent (before, e) = (m ∷ before, ap (λ r. m ∷ r) e)

module _ (json : SerdeJson) (content : Option Text) (tool_calls : List ToolCallInfo)
    (later : List Message) where
  abbrev recent : List Message
  recent = assistant content tool_calls ∷ later

  mask_first-EndsIn :
      (n : ℕ) (calls : Option (List ToolCallInfo)) (older : List Message)
      → n ≤ assistants older
      → EndsIn (mask_first json n calls (older ++ recent)) recent
  unfolding mask_first assistants
  mask_first-EndsIn zero calls [] h =
      ([], ap (λ r. assistant content tool_calls ∷ r) (mask_first-zero json later))
  mask_first-EndsIn (suc n) calls [] h = absurd (omega arith)
  mask_first-EndsIn zero calls (assistant c t ∷ older) h =
      EndsIn-cons (assistant c t) _ recent (mask_first-EndsIn zero none older (omega arith))
  mask_first-EndsIn (suc n) calls (assistant c t ∷ older) h =
      EndsIn-cons (assistant (preview_content c) t) _ recent
        (mask_first-EndsIn n (some t) older (omega arith))
  mask_first-EndsIn n (some t) (tool_result id c ∷ older) h =
      EndsIn-cons (tool_result id (placeholder json t id c)) _ recent
        (mask_first-EndsIn n (some t) older h)
  mask_first-EndsIn n none (tool_result id c ∷ older) h =
      EndsIn-cons (tool_result id c) _ recent (mask_first-EndsIn n none older h)
  mask_first-EndsIn n calls (system s ∷ older) h =
      EndsIn-cons (system s) _ recent (mask_first-EndsIn n none older h)
  mask_first-EndsIn n calls (user s ∷ older) h =
      EndsIn-cons (user s) _ recent (mask_first-EndsIn n none older h)
  mask_first-EndsIn n calls (user_multimodal parts ∷ older) h =
      EndsIn-cons (user_multimodal parts) _ recent (mask_first-EndsIn n none older h)

  -- The last turns, as many as the window at most, and all that stands between and after them, come
  -- out of the masking as they are, at the end.
  pub mask_observations-recent :
      (older : List Message) (observation_window : ℕ)
      → assistants recent ≤ observation_window
      → (before : List Message) × (mask_observations json
            (older ++ (assistant content tool_calls ∷ later))
            observation_window
          ≡ done (before ++ (assistant content tool_calls ∷ later)))
  mask_observations-recent older w h =
      let messages = older ++ recent in
      let (before, e) =
        mask_first-EndsIn (assistants messages - w) none older
          (omega (arith, assistants-append older recent)) in
      (before, mask_observations-mask_first json messages w ∙ ap done e)
