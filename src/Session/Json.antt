-- ===== src/Session/Json.antt =====
-- internal/session/json.go: entries as the JSON objects that their lines stand for. The text syntax
-- of encoding/json, with the number literals of strconv, is a library; so is its work on `ai.Message`
-- and on content blocks, which have nothing but struct tags. The other messages are in Json/Message.
pub mod Fields
pub mod Message
pub mod Decode
pub mod Kept
pub mod RoundTrip
use attention.Prelude.{
  ℕ, String, Bool, true, false, List, [], ◌∷◌, Option, none, some, inl, inr, ◌⊎◌, ◌||◌, ◌==◌,
  show_nat, if◌then◌else◌,
}
use Prim.Native.String
use attention.Value.{Value, Members}
use attention.Session.Json.Fields.{
  Codec, pointer, unless_null, unless_false, unless_empty, encode_content,
}
use attention.Session.Json.Message.{encode_message}
use attention.Session.Types.{Body, SessionEntry, Result, ok, err, ◌>>=◌, Error, invalid_entry}

-- `SessionEntry.Type`.
unfoldable pub type_of : Body → String
type_of (Body.message m) = "message"
type_of (Body.model_change p m) = "model_change"
type_of (Body.thinking_level_change l) = "thinking_level_change"
type_of (Body.compaction s f t d h) = "compaction"
type_of (Body.branch_summary s f d h) = "branch_summary"
type_of (Body.custom t d) = "custom"
type_of (Body.custom_message t c d e) = "custom_message"
type_of (Body.label t l) = "label"
type_of (Body.session_info n) = "session_info"
type_of (Body.leaf t) = "leaf"
type_of (Body.other t raw) = t

-- `invalidEntry`, without the error that it wraps.
unfoldable pub invalid_entry_error : (path : String) → (line_number : ℕ) → String → Error
invalid_entry_error path n what = record {
  code = invalid_entry;
  text =
      String.◌++◌ "Invalid JSONL session file " (
        String.◌++◌ path (String.◌++◌ ": line " (String.◌++◌ (show_nat n) (String.◌++◌ " " what))));
}

module _ (codec : Codec) where
  -- The members that an entry has for its type.
  unfoldable pub encode_body : Body → Option Members
  unfolding pointer unless_null unless_false unless_empty encode_content encode_message
  encode_body (Body.message m) =
      some (Members.member "message" (encode_message codec m) Members.end)
  encode_body (Body.thinking_level_change l) =
      some (Members.member "thinkingLevel" (Value.str l) Members.end)
  encode_body (Body.model_change p m) =
      some (
        Members.member "provider" (Value.str p)
          (Members.member "modelId" (Value.str m) Members.end))
  encode_body (Body.compaction s f t d h) = some (
      Members.member "summary" (Value.str s) (
        Members.member "firstKeptEntryId" (Value.str f) (
          Members.member "tokensBefore" (Value.num (codec.show_int t))
            (unless_null "details" d (unless_false "fromHook" h Members.end)))))
  encode_body (Body.branch_summary s f d h) = some (
      Members.member "fromId" (Value.str (elim f [ none ↦ "root" | some i ↦ i ])) (
        Members.member "summary" (Value.str s)
          (unless_null "details" d (unless_false "fromHook" h Members.end))))
  encode_body (Body.custom t d) =
      some (Members.member "customType" (Value.str t) (unless_null "data" d Members.end))
  encode_body (Body.custom_message t c d e) = some (
      Members.member "customType" (Value.str t) (
        Members.member "content" (encode_content codec c)
          (Members.member "display" (Value.bool d) (unless_null "details" e Members.end))))
  encode_body (Body.label t l) =
      some
        (Members.member "targetId" (pointer t) (Members.member "label" (Value.str l) Members.end))
  encode_body (Body.session_info n) = some (unless_empty "name" n Members.end)
  encode_body (Body.leaf t) = some (Members.member "targetId" (pointer t) Members.end)
  encode_body (Body.other t raw) = none

  -- The line that an entry was read from, where its type is not known.
  raw_of : Body → Option Value
  raw_of (Body.other t raw) = raw
  raw_of _ = none

  -- `SessionEntry.MarshalJSON`; `none` is an error.
  unfoldable pub encode_entry : SessionEntry → Option Value
  unfolding encode_body type_of pointer raw_of
  encode_entry e = elim (encode_body e.body) [
    | none ↦ raw_of e.body
    | some ms ↦ some (
        Value.obj (
          Members.member "type" (Value.str (type_of e.body)) (
            Members.member "id" (Value.str e.id) (
              Members.member "parentId" (pointer e.parent_id)
                (Members.member "timestamp" (Value.str e.timestamp) ms)))))
  ]
