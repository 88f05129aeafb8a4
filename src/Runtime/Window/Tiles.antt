-- ===== src/Runtime/Window/Tiles.antt =====
-- runtime/context_window.rs: what `identify_segments` makes of a body.
use zymi_core.Prelude.{
  ℕ, suc, ◌+◌, ◌-◌, ◌≤◌, ◌≡◌, refl, ap, sym, Bool, true, false, ◌&&◌, Option, none, some, List, [],
  ◌∷◌, ◌++◌, leb, length, length-append, snoc_append, length-snoc, take-length_append,
  drop-length_append, get_elem?-length_append, done, Text, append_assoc, arith,
}
use zymi_core.Events.{ToolCallInfo, Message, system, user, user_multimodal, assistant, tool_result}
use zymi_core.Runtime.Window.{
  Segment, turn, pass_through, segments_from, identify_segments, slice, index,
}

abbrev pub is_assistant : Message → Bool
is_assistant (assistant content tool_calls) = true
is_assistant (system s) = false
is_assistant (user s) = false
is_assistant (user_multimodal parts) = false
is_assistant (tool_result id content) = false

abbrev pub is_result : Message → Bool
is_result (tool_result id content) = true
is_result (assistant content tool_calls) = false
is_result (system s) = false
is_result (user s) = false
is_result (user_multimodal parts) = false

abbrev pub are_results : List Message → Bool
are_results [] = true
are_results (m ∷ ms) = is_result m && are_results ms

abbrev pub starts_result : List Message → Bool
starts_result [] = false
starts_result (m ∷ ms) = is_result m

-- A turn: an assistant message and the results right after it, all that there are, at `start`.
abbrev pub IsTurn : List Message → ℕ → ℕ → List Message → List Message → Type 0
IsTurn body start finish rest after =
    (content : Option Text) × (tool_calls : List ToolCallInfo) × (results : List Message)
    × (are_results results ≡ true)
    × (starts_result after ≡ false)
    × (rest ≡ assistant content tool_calls ∷ (results ++ after))
    × (finish ≡ start + suc (length results))
    × (slice body start finish ≡ done (assistant content tool_calls ∷ results))

-- The segments cut `rest`, which stands at `i` of the body, into turns and single messages that are
-- no assistant's: in order, without a gap or an overlap, and within the bounds of the body.
abbrev pub Tiles : List Message → ℕ → List Segment → List Message → Type 0
Tiles body i [] rest = (rest ≡ []) × (i ≡ length body)
Tiles body i (turn start finish ∷ segs) rest =
    (after : List Message) × (start ≡ i)
    × IsTurn body start finish rest after
    × Tiles body finish segs after
Tiles body i (pass_through idx ∷ segs) rest =
    (m : Message) × (after : List Message) × (idx ≡ i)
    × (is_assistant m ≡ false)
    × (rest ≡ m ∷ after)
    × (index body idx ≡ done m)
    × Tiles body (suc i) segs after

index-append :
    (pre : List Message) (m : Message) (ms : List Message)
    → index (pre ++ m ∷ ms) (length pre) ≡ done m
unfolding index
index-append pre m ms = rw (index, get_elem?-length_append pre m ms) refl

le→leb : (a b : ℕ) → a ≤ b → leb a b ≡ true
le→leb a b h = ground arith

minus-eq : (a b c : ℕ) → c ≡ a + b → c - a ≡ b
minus-eq a b c h = omega arith

pub slice-append :
    (pre ms after : List Message) (finish : ℕ)
    → finish ≡ length pre + length ms
    → slice (pre ++ (ms ++ after)) (length pre) finish ≡ done ms
unfolding slice
slice-append pre ms after finish h =
    rw
      (
        slice,
        le→leb (length pre) finish (omega arith),
        le→leb finish (length (pre ++ (ms ++ after)))
            (omega (arith, length-append pre (ms ++ after), length-append ms after)),
        minus-eq (length pre) (length ms) finish h,
        drop-length_append pre (ms ++ after),
        take-length_append ms after,
      )
      refl

-- A message that is no assistant's, in front of what is cut up after it.
pass_then-Tiles :
    (body pre : List Message) (m : Message) (ms : List Message) (i : ℕ) (segs : List Segment)
    → body ≡ pre ++ m ∷ ms
    → i ≡ length pre
    → is_assistant m ≡ false
    → Tiles body (suc i) segs ms
    → Tiles body i (pass_through i ∷ segs) (m ∷ ms)
pass_then-Tiles body pre m ms i segs b e n t =
    (m, ms, refl, n, refl, rw (b, e) (index-append pre m ms), t)

-- The turn that is open, in front of what is cut up after it.
turn_then-Tiles :
    (body pre : List Message) (content : Option Text) (tool_calls : List ToolCallInfo)
    (results after : List Message) (start finish : ℕ) (segs : List Segment)
    → body ≡ pre ++ (assistant content tool_calls ∷ (results ++ after))
    → start ≡ length pre
    → finish ≡ start + suc (length results)
    → are_results results ≡ true
    → starts_result after ≡ false
    → Tiles body finish segs after
    → Tiles body start
        (turn start finish ∷ segs)
        (assistant content tool_calls ∷ (results ++ after))
turn_then-Tiles body pre content tool_calls results after start finish segs b s f r n t = (
  after,
  refl,
  (
    content,
    tool_calls,
    results,
    r,
    n,
    refl,
    f,
    rw (b, s) (slice-append pre (assistant content tool_calls ∷ results) after finish (rw s at f)),
  ),
  t,
)

data Cur : Type 0 where
  closed : Cur
  open_turn :
      (content : Option Text) → (tool_calls : List ToolCallInfo) → (results : List Message) → Cur

abbrev Cuts : List Message → List Message → Cur → Type 0
Cuts body rest closed =
    (pre : List Message) (i : ℕ)
    → body ≡ pre ++ rest
    → i ≡ length pre
    → Tiles body i (segments_from none i rest) rest
Cuts body rest (open_turn content tool_calls results) =
    (pre : List Message) (start i : ℕ)
    → body ≡ pre ++ (assistant content tool_calls ∷ (results ++ rest))
    → start ≡ length pre
    → i ≡ start + suc (length results)
    → are_results results ≡ true
    → Tiles body start (segments_from (some start) i rest)
        (assistant content tool_calls ∷ (results ++ rest))

are_results-snoc :
    (ms : List Message) (m : Message)
    → are_results ms ≡ true
    → is_result m ≡ true
    → are_results (ms ++ m ∷ []) ≡ true
are_results-snoc [] m h k = rw k refl
are_results-snoc (x ∷ ms) m h k = ground (arith, are_results-snoc ms m)

-- A message that is no assistant's, cut off by itself.
module _ (body : List Message) (m : Message) (ms : List Message) (segs : ℕ → List Segment)
    (n : is_assistant m ≡ false)
    (later : (pre : List Message) (i : ℕ)
      → body ≡ pre ++ ms
      → i ≡ length pre
      → Tiles body i (segs i) ms) where
  closed-Cuts :
      (pre : List Message) (i : ℕ)
      → body ≡ pre ++ m ∷ ms
      → i ≡ length pre
      → Tiles body i (pass_through i ∷ segs (suc i)) (m ∷ ms)
  closed-Cuts pre i b e = pass_then-Tiles body pre m ms i (segs (suc i)) b e n (
      later (pre ++ m ∷ []) (suc i) (rw (snoc_append pre m ms) at b)
        (omega (arith, length-snoc pre m)))

-- Whatever is cut up after a turn, with the turn before it.
module _ (body : List Message) (content : Option Text) (tool_calls : List ToolCallInfo)
    (results rest : List Message) (segs : ℕ → List Segment) (n : starts_result rest ≡ false)
    (later : (pre : List Message) (i : ℕ)
      → body ≡ pre ++ rest
      → i ≡ length pre
      → Tiles body i (segs i) rest) where
  open-Cuts :
      (pre : List Message) (start i : ℕ)
      → body ≡ pre ++ (assistant content tool_calls ∷ (results ++ rest))
      → start ≡ length pre
      → i ≡ start + suc (length results)
      → are_results results ≡ true
      → Tiles body start (turn start i ∷ segs i) (assistant content tool_calls ∷ (results ++ rest))
  open-Cuts pre start i b e f r =
      turn_then-Tiles body pre content tool_calls results rest start i (segs i) b e f r n (
        later (pre ++ (assistant content tool_calls ∷ results)) i
          (rw (sym (append_assoc pre (assistant content tool_calls ∷ results) rest)) at b)
          (omega (arith, length-append pre (assistant content tool_calls ∷ results))))

nil-Cuts :
    (body pre : List Message) (i : ℕ) → body ≡ pre ++ [] → i ≡ length pre → Tiles body i [] []
nil-Cuts body pre i b e = (refl, omega (arith, ap length b, length-append pre []))

segments_from-Cuts : (body rest : List Message) (cur : Cur) → Cuts body rest cur
unfolding segments_from
segments_from-Cuts body [] closed = nil-Cuts body
segments_from-Cuts body [] (open_turn content tool_calls results) =
    open-Cuts body content tool_calls results [] (λ i. segments_from none i []) refl (nil-Cuts body)
segments_from-Cuts body (assistant content tool_calls ∷ ms) closed = λ pre i b e.
    segments_from-Cuts body ms (open_turn content tool_calls []) pre i (suc i) b e (omega arith)
      refl
segments_from-Cuts body (assistant c t ∷ ms) (open_turn content tool_calls results) =
    open-Cuts body content tool_calls results (assistant c t ∷ ms)
      (λ i. segments_from none i (assistant c t ∷ ms)) refl
      (λ pre i b e.
        segments_from-Cuts body ms (open_turn c t []) pre i (suc i) b e (omega arith) refl)
segments_from-Cuts body (tool_result id c ∷ ms) closed =
    closed-Cuts body (tool_result id c) ms (λ i. segments_from none i ms) refl
      (segments_from-Cuts body ms closed)
segments_from-Cuts body (tool_result id c ∷ ms) (open_turn content tool_calls results) =
    λ pre start i b e f r. rw (snoc_append results (tool_result id c) ms) (
      segments_from-Cuts body ms (open_turn content tool_calls (results ++ tool_result id c ∷ []))
        pre start (suc i) (rw (snoc_append results (tool_result id c) ms) at b) e
        (omega (arith, length-snoc results (tool_result id c)))
        (are_results-snoc results (tool_result id c) r refl))
segments_from-Cuts body (system s ∷ ms) closed =
    closed-Cuts body (system s) ms (λ i. segments_from none i ms) refl
      (segments_from-Cuts body ms closed)
segments_from-Cuts body (system s ∷ ms) (open_turn content tool_calls results) =
    open-Cuts body content tool_calls results (system s ∷ ms)
      (λ i. segments_from none i (system s ∷ ms)) refl
      (closed-Cuts body (system s) ms (λ i. segments_from none i ms) refl
        (segments_from-Cuts body ms closed))
segments_from-Cuts body (user s ∷ ms) closed =
    closed-Cuts body (user s) ms (λ i. segments_from none i ms) refl
      (segments_from-Cuts body ms closed)
segments_from-Cuts body (user s ∷ ms) (open_turn content tool_calls results) =
    open-Cuts body content tool_calls results (user s ∷ ms)
      (λ i. segments_from none i (user s ∷ ms)) refl
      (closed-Cuts body (user s) ms (λ i. segments_from none i ms) refl
        (segments_from-Cuts body ms closed))
segments_from-Cuts body (user_multimodal parts ∷ ms) closed =
    closed-Cuts body (user_multimodal parts) ms (λ i. segments_from none i ms) refl
      (segments_from-Cuts body ms closed)
segments_from-Cuts body (user_multimodal parts ∷ ms) (open_turn content tool_calls results) =
    open-Cuts body content tool_calls results (user_multimodal parts ∷ ms)
      (λ i. segments_from none i (user_multimodal parts ∷ ms)) refl
      (closed-Cuts body (user_multimodal parts) ms (λ i. segments_from none i ms) refl
        (segments_from-Cuts body ms closed))

-- The segments of a body cut it into its turns, each an assistant message and all the results right
-- after it, and the other messages one by one: in order, without a gap or an overlap, and within
-- the bounds of the body, so that no index and no slice of a segment panics.
pub identify_segments-Tiles : (body : List Message) → Tiles body 0 (identify_segments body) body
unfolding identify_segments
identify_segments-Tiles body = segments_from-Cuts body body closed [] 0 refl refl
