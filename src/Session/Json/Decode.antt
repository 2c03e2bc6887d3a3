-- ===== src/Session/Json/Decode.antt =====
-- internal/session/json.go: `decodeEntry`, from the object that a line stands for.
use attention.Prelude.{ℕ, String, Option, none, some, ◌==◌, if◌then◌else◌}
use attention.Value.{Value, Members}
use attention.Session.Types.{Body, SessionEntry, Result, ok, err}
use attention.Session.Json.Fields.{
  Codec, field, text_at, flag_at, any_at, int_at, decode_optional_entry_id, from_id_from_json,
  content_of, ◌>>=◌,
}
use attention.Session.Json.Message.{decode_agent_message}
use attention.Session.Json.{invalid_entry_error}

module _ (codec : Codec) where
  -- The fields that go with a type; `none` where the object does not fit them.
  unfoldable pub decode_body : (type_name : String) → Members → Option Body
  unfolding text_at flag_at any_at int_at field decode_agent_message from_id_from_json content_of
      decode_optional_entry_id
  decode_body t ms =
      if t == "message"
      then some (Body.message (decode_agent_message codec (field "message" ms)))
      else if t == "thinking_level_change"
      then (do l ← text_at "thinkingLevel" ms; some (Body.thinking_level_change l))
      else if t == "model_change"
      then (do p ← text_at "provider" ms; m ← text_at "modelId" ms; some (Body.model_change p m))
      else if t == "compaction"
      then (do
        s ← text_at "summary" ms
        f ← text_at "firstKeptEntryId" ms
        n ← int_at codec "tokensBefore" ms
        h ← flag_at "fromHook" ms
        some (Body.compaction s f n (any_at "details" ms) h))
      else if t == "branch_summary"
      then (do
        f ← text_at "fromId" ms
        s ← text_at "summary" ms
        h ← flag_at "fromHook" ms
        some (Body.branch_summary s (from_id_from_json f) (any_at "details" ms) h))
      else if t == "custom"
      then (do c ← text_at "customType" ms; some (Body.custom c (any_at "data" ms)))
      else if t == "custom_message"
      then (do
        c ← text_at "customType" ms
        d ← flag_at "display" ms
        some (Body.custom_message c (content_of (any_at "content" ms)) d (any_at "details" ms)))
      else if t == "label"
      then (do i ← text_at "targetId" ms; l ← text_at "label" ms; some (Body.label (some i) l))
      else if t == "session_info"
      then (do n ← text_at "name" ms; some (Body.session_info n))
      else if t == "leaf"
      then (do v ← field "targetId" ms; i ← decode_optional_entry_id v; some (Body.leaf i))
      else some (Body.other t (some (Value.obj ms)))

  -- What is said where an object does not fit its type.
  complaint : (type_name : String) → String
  complaint t =
      if t == "thinking_level_change"
      then "has invalid thinkingLevel"
      else if t == "model_change"
      then "has invalid model change"
      else if t == "compaction"
      then "has invalid compaction"
      else if t == "branch_summary"
      then "has invalid branch summary"
      else if t == "custom"
      then "has invalid custom entry"
      else if t == "custom_message"
      then "has invalid custom message"
      else if t == "label"
      then "has invalid label"
      else if t == "session_info"
      then "has invalid session info"
      else "has invalid targetId"

  -- `decodeEntry`; a line that is no object is no valid entry.
  module _ (path : String) (line_number : ℕ) where
    invalid : {A : Type 0} → String → Result A
    unfolding invalid_entry_error
    invalid what = err (invalid_entry_error path line_number what)

    unfoldable pub with_body : SessionEntry → String → Option Body → Result SessionEntry
    unfolding complaint invalid
    with_body e t none = invalid (complaint t)
    with_body e t (some b) = ok (record e { body = b })

    unfoldable pub with_parent :
        (type_name id timestamp : String) → Members → Option (Option String) → Result SessionEntry
    unfolding decode_body with_body invalid
    with_parent t id time ms none = invalid "has invalid parentId"
    with_parent t id time ms (some parent) =
        with_body
          (record { id = id; parent_id = parent; timestamp = time; body = Body.other t none }) t
          (decode_body t ms)

    unfoldable pub checked :
        (type_name id timestamp : String) → (parent : Option Value) → Members → Result SessionEntry
    unfolding with_parent decode_optional_entry_id invalid
    checked t id time parent ms =
        if t == ""
        then invalid "is missing entry type"
        else if id == ""
        then invalid "is missing entry id"
        else elim parent [
          | none ↦ invalid "has invalid parentId"
          | some v ↦
              if time == ""
              then invalid "is missing timestamp"
              else with_parent t id time ms (decode_optional_entry_id v)
        ]

    unfoldable pub discriminated : Members → Option (Result SessionEntry)
    unfolding text_at checked
    discriminated ms = do
      t ← text_at "type" ms
      id ← text_at "id" ms
      time ← text_at "timestamp" ms
      some (checked t id time (field "parentId" ms) ms)

    unfoldable pub decode_entry : Value → Result SessionEntry
    unfolding discriminated checked invalid
    decode_entry (Value.obj ms) = elim (discriminated ms) [
      | none ↦ invalid "is not valid JSON"
      | some r ↦ r
    ]
    decode_entry Value.null = invalid "is missing entry type"
    decode_entry _ = invalid "is not valid JSON"
