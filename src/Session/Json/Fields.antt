-- ===== src/Session/Json/Fields.antt =====
-- The members of JSON objects, as the struct tags of internal/session/json.go and of internal/message
-- ask for them, in both directions.
use attention.Prelude.{ℕ, String, Bool, true, false, List, Option, none, some, ◌==◌, if◌then◌else◌}
use attention.Value.{Value, Members}
use attention.Ai.Types.{ContentBlock, Message}
use attention.Message.{Content, ExitCode}

-- What the libraries do: a value's text and back, number literals, and the objects of provider
-- messages; `none` where a text or an object does not fit the type.
pub record Codec : Type 0 where
  pub print : Value → String
  pub parse : String → Value
  pub show_int : ℕ → String
  pub read_int : String → Option ℕ
  pub show_code : ExitCode → String
  pub read_code : String → Option ExitCode
  pub encode_ai : Message → Members
  pub decode_ai : Value → Option Message
  pub encode_blocks : List ContentBlock → Value

-- The member with a key, the last one if there are several. (The library also accepts a key in other
-- letter cases, where no member has the key itself.)
unfoldable pub field : String → Members → Option Value
field k Members.end = none
field k (Members.member j v ms) =
    let rest = field k ms in elim rest [ some w ↦ some w | none ↦ if j == k then some v else none ]

-- A member of a Go field's type: the zero value for a missing member and for null, `none` for a
-- value of another type.
unfoldable pub read_string : Option Value → Option String
read_string none = some ""
read_string (some Value.null) = some ""
read_string (some (Value.str s)) = some s
read_string (some _) = none

unfoldable pub read_bool : Option Value → Option Bool
read_bool none = some false
read_bool (some Value.null) = some false
read_bool (some (Value.bool b)) = some b
read_bool (some _) = none

unfoldable pub read_any : Option Value → Value
read_any none = Value.null
read_any (some v) = v

-- `decodeOptionalEntryID`.
unfoldable pub decode_optional_entry_id : Value → Option (Option String)
decode_optional_entry_id Value.null = some none
decode_optional_entry_id (Value.str s) = some (some s)
decode_optional_entry_id _ = none

-- `fromIDFromJSON`.
unfoldable pub from_id_from_json : String → Option String
from_id_from_json s = if s == "root" then none else some s

-- `CustomMessage.Content` as it is read: an `any`.
unfoldable pub content_of : Value → Content
content_of Value.null = Content.missing
content_of (Value.str s) = Content.text s
content_of v = Content.raw v

unfoldable pub pointer : Option String → Value
pointer none = Value.null
pointer (some s) = Value.str s

-- `omitempty`.
unfoldable pub unless_null : String → Value → Members → Members
unless_null k Value.null ms = ms
unless_null k v ms = Members.member k v ms

unfoldable pub unless_false : String → Bool → Members → Members
unless_false k false ms = ms
unless_false k true ms = Members.member k (Value.bool true) ms

unfoldable pub unless_empty : String → String → Members → Members
unless_empty k s ms = if s == "" then ms else Members.member k (Value.str s) ms

-- A text, a flag or an `any` of the object.
unfoldable pub text_at : String → Members → Option String
unfolding field read_string
text_at k ms = read_string (field k ms)

unfoldable pub flag_at : String → Members → Option Bool
unfolding field read_bool
flag_at k ms = read_bool (field k ms)

unfoldable pub any_at : String → Members → Value
unfolding field read_any
any_at k ms = read_any (field k ms)

infixl 5 ◌>>=◌
abbrev pub ◌>>=◌ : {A B : Type 0} → Option A → (A → Option B) → Option B
none >>= f = none
some a >>= f = f a

module _ (codec : Codec) where
  unfoldable pub read_int : Option Value → Option ℕ
  read_int none = some 0
  read_int (some Value.null) = some 0
  read_int (some (Value.num t)) = codec.read_int t
  read_int (some _) = none

  unfoldable pub encode_content : Content → Value
  encode_content (Content.text s) = Value.str s
  encode_content (Content.blocks bs) = codec.encode_blocks bs
  encode_content (Content.raw v) = v
  encode_content Content.missing = Value.null

  unfoldable pub int_at : String → Members → Option ℕ
  unfolding field read_int
  int_at k ms = read_int (field k ms)
