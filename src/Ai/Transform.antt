-- ===== src/Ai/Transform.antt =====
-- internal/ai/transform.go: the pass over a transcript before it goes to a provider. Images and
-- foreign thinking are replaced, tool call ids are normalised, and missing tool results are added.
pub mod Content
pub mod Results
use attention.Prelude.{
  ℕ, String, Bool, true, false, not, ◌&&◌, List, [], ◌∷◌, ◌++◌, Option, none, some, ◌==◌,
  trim_space, if◌then◌else◌,
}
use attention.Prelude.Dict.{get, put}
use attention.Ai.Types.{
  ContentBlock, ContentBlockType, text, thinking, image, tool_call, text_block, is_tool_call,
  is_image, is_text, Message, Role, user, assistant, tool_result, other_role, is_failed,
  new_message,
}

-- The fields of `Model` that the modelled code reads.
pub record Model : Type 0 where
  pub id : String
  pub api : String
  pub provider : String
  pub reasoning : Bool
  pub input : List String
  pub context_window : ℕ
  pub max_tokens : ℕ

unfoldable pub contains : List String → String → Bool
contains [] s = false
contains (t ∷ ts) s = let rest = contains ts s in if t == s then true else rest

-- `ModelSupportsInput(model, InputImage)`.
unfoldable pub supports_images : Model → Bool
unfolding contains
supports_images m = contains m.input "image"

-- What a pass does with one block.
pub data Rewrite : Type 0 where
  kept dropped : Rewrite
  replaced : ContentBlock → Rewrite

-- The slice `result`, nil until something changes; `before` is `content[:i]`.
unfoldable pub apply_rewrite :
    Option (List ContentBlock)
    → List ContentBlock
    → ContentBlock
    → Rewrite
    → Option (List ContentBlock)
apply_rewrite none before b kept = none
apply_rewrite (some r) before b kept = some (r ++ b ∷ [])
apply_rewrite none before b dropped = some before
apply_rewrite (some r) before b dropped = some r
apply_rewrite none before b (replaced c) = some (before ++ c ∷ [])
apply_rewrite (some r) before b (replaced c) = some (r ++ c ∷ [])

unfoldable pub image_rewrite : (placeholder : String) → (previous : Bool) → ContentBlock → Rewrite
image_rewrite placeholder previous b =
    if is_image b.block_type
    then (if previous then dropped else replaced (text_block placeholder))
    else kept

-- `previousWasPlaceholder` behind a block.
unfoldable pub was_placeholder : (placeholder : String) → ContentBlock → Bool
was_placeholder placeholder b =
    if is_image b.block_type then true else is_text b.block_type && b.text == placeholder

unfoldable pub replace_loop :
    (placeholder : String)
    → Bool
    → Option (List ContentBlock)
    → (before content : List ContentBlock) → Option (List ContentBlock)
unfolding image_rewrite was_placeholder apply_rewrite
replace_loop placeholder previous result before [] = result
replace_loop placeholder previous result before (b ∷ bs) =
    replace_loop placeholder (was_placeholder placeholder b)
      (apply_rewrite result before b (image_rewrite placeholder previous b)) (before ++ b ∷ []) bs

abbrev pub or_same : Option (List ContentBlock) → List ContentBlock → List ContentBlock
or_same none same = same
or_same (some r) same = r

-- `replaceImagesWithPlaceholder`; that nothing changed is the content itself.
unfoldable pub replace_images : (placeholder : String) → List ContentBlock → List ContentBlock
unfolding replace_loop
replace_images placeholder content =
    or_same (replace_loop placeholder false none [] content) content

unfoldable pub thinking_rewrite : (is_same_model : Bool) → ContentBlock → Rewrite
thinking_rewrite is_same_model b =
    if b.redacted
    then (if is_same_model then kept else dropped)
    else (if is_same_model && not (b.thinking_signature == "")
        then kept
        else (if trim_space b.thinking == ""
            then dropped
            else (if is_same_model then kept else replaced (text_block b.thinking))))

abbrev pub NormalizeToolCallId : Type 0
NormalizeToolCallId = String → Model → Message → String

-- A tool call of another model loses its signature, and its id is normalised.
unfoldable pub tool_call_rewrite : (is_same_model : Bool) → Option String → ContentBlock → Rewrite
tool_call_rewrite true normalized b = kept
tool_call_rewrite false none b =
    if b.thought_signature == "" then kept else replaced (record b { thought_signature = "" })
tool_call_rewrite false (some id) b =
    if b.thought_signature == "" && id == b.tool_call_id
    then kept
    else replaced (record b { thought_signature = ""; tool_call_id = id })

unfoldable pub block_rewrite :
    (is_same_model : Bool) → Option String → ContentBlockType → ContentBlock → Rewrite
unfolding thinking_rewrite tool_call_rewrite
block_rewrite is_same_model normalized thinking b = thinking_rewrite is_same_model b
block_rewrite is_same_model normalized text b =
    if is_same_model then kept else replaced (text_block b.text)
block_rewrite is_same_model normalized tool_call b = tool_call_rewrite is_same_model normalized b
block_rewrite is_same_model normalized image b = kept

abbrev pub IdMap : Type 0
IdMap = List (String × String)

-- The entry that a foreign tool call makes in the map of ids.
unfoldable pub map_id : (is_same_model : Bool) → Option String → ContentBlock → IdMap → IdMap
map_id true normalized b ids = ids
map_id false none b ids = ids
map_id false (some id) b ids =
    if is_tool_call b.block_type && not (id == b.tool_call_id)
    then put ids b.tool_call_id id
    else ids

module _ (model : Model) (normalize : Option NormalizeToolCallId) where
  unfoldable pub normalized_id : Message → ContentBlock → Option String
  normalized_id m b = elim normalize [ none ↦ none | some f ↦ some (f b.tool_call_id model m) ]

  unfoldable pub content_loop :
      (is_same_model : Bool)
      → Message
      → Option (List ContentBlock)
      → (before content : List ContentBlock) → IdMap
      → Option (List ContentBlock) × IdMap
  unfolding block_rewrite map_id apply_rewrite normalized_id
  content_loop same m result before [] ids = (result, ids)
  content_loop same m result before (b ∷ bs) ids =
      content_loop same m
        (apply_rewrite result before b (block_rewrite same (normalized_id m b) b.block_type b))
        (before ++ b ∷ []) bs (map_id same (normalized_id m b) b ids)

  unfoldable pub is_same_model : Message → Bool
  is_same_model m = m.provider == model.provider && m.api == model.api && m.model == model.id

  -- `transformAssistantContent`.
  unfoldable pub transform_content : Message → IdMap → List ContentBlock × IdMap
  unfolding content_loop is_same_model
  transform_content m ids =
      let (result, ids') = content_loop (is_same_model m) m none [] m.content ids in
      (or_same result m.content, ids')

  without_images : (placeholder : String) → Message → Message
  unfolding supports_images
  without_images placeholder m =
      if supports_images model
      then m
      else record m { content = replace_images placeholder m.content }

  with_mapped_id : IdMap → Message → Message
  with_mapped_id ids m = elim (get ids m.tool_call_id) [
    | none ↦ m
    | some id ↦ record m { tool_call_id = id }
  ]

  -- One message of the first loop, with the map of ids behind it.
  unfoldable pub transform_message : Message → Role → IdMap → Message × IdMap
  unfolding without_images with_mapped_id transform_content
  transform_message m user ids =
      (without_images "(image omitted: model does not support images)" m, ids)
  transform_message m tool_result ids = (
    without_images "(tool image omitted: model does not support images)" (with_mapped_id ids m),
    ids,
  )
  transform_message m assistant ids =
      let (content, ids') = transform_content m ids in (record m { content = content }, ids')
  transform_message m (other_role r) ids = (m, ids)

  unfoldable pub transform_loop : List Message → IdMap → List Message
  unfolding transform_message
  transform_loop [] ids = []
  transform_loop (m ∷ ms) ids =
      let (m', ids') = transform_message m m.role ids in m' ∷ transform_loop ms ids'

unfoldable pub tool_calls : List ContentBlock → List ContentBlock
tool_calls [] = []
tool_calls (b ∷ bs) =
    let rest = tool_calls bs in if is_tool_call b.block_type then b ∷ rest else rest

module _ (now : ℕ) where
  -- The message for a tool call that no result answers.
  unfoldable pub synthetic_result : ContentBlock → Message
  synthetic_result call =
      record (new_message tool_result (text_block "No result provided" ∷ []) now) {
        tool_call_id = call.tool_call_id;
        tool_name = call.tool_name;
        is_error = true;
      }

  -- `insertSynthetic`, as the messages that it appends.
  unfoldable pub missing_results : List ContentBlock → (existing : List String) → List Message
  unfolding synthetic_result
  missing_results [] existing = []
  missing_results (c ∷ cs) existing =
      let rest = missing_results cs existing in
      if contains existing c.tool_call_id then rest else synthetic_result c ∷ rest

  -- The loop of `insertSyntheticToolResults` behind `pending` calls and `existing` results.
  unfoldable pub insert_loop :
      List ContentBlock → (existing : List String) → List Message → List Message
  unfolding missing_results tool_calls
  insert_loop pending existing [] = missing_results pending existing
  insert_loop pending existing (m ∷ ms) = elim m.role [
    | assistant ↦ missing_results pending existing ++ elim (is_failed m.stop_reason) [
      | true ↦ insert_loop [] [] ms
      | false ↦ m ∷ insert_loop (tool_calls m.content) [] ms
    ]
    | tool_result ↦ m ∷ insert_loop pending (m.tool_call_id ∷ existing) ms
    | user ↦ missing_results pending existing ++ (m ∷ insert_loop [] [] ms)
    | other_role r ↦ m ∷ insert_loop pending existing ms
  ]

  unfoldable pub insert_synthetic_tool_results : List Message → List Message
  unfolding insert_loop
  insert_synthetic_tool_results ms = insert_loop [] [] ms

  -- `TransformMessages`.
  unfoldable pub transform_messages :
      List Message → Model → Option NormalizeToolCallId → List Message
  transform_messages ms model normalize =
      insert_synthetic_tool_results (transform_loop model normalize ms [])
