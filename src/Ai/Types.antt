-- ===== src/Ai/Types.antt =====
-- internal/ai/types.go: content blocks, messages, usage. `Usage.Cost` (floating point) and the
-- `Diagnostics` of a message are left out; no modelled code reads them.
use attention.Prelude.{ℕ, String, Bool, true, false, List, Option}
use attention.Value.{Value}

-- `ContentBlockType`.
pub data ContentBlockType : Type 0 where
  text thinking image tool_call : ContentBlockType

pub record ContentBlock : Type 0 where
  pub block_type : ContentBlockType
  pub text : String
  pub text_signature : String
  pub thinking : String
  pub thinking_signature : String
  pub redacted : Bool
  pub image_data : String
  pub mime_type : String
  pub tool_call_id : String
  pub tool_name : String
  pub arguments : List (String × Value)
  pub thought_signature : String

-- `ContentBlock{Type: ContentText, Text: s}`: the other fields have their zero values.
unfoldable pub text_block : String → ContentBlock
text_block s = record {
  block_type = ContentBlockType.text;
  text = s;
  text_signature = "";
  thinking = "";
  thinking_signature = "";
  redacted = false;
  image_data = "";
  mime_type = "";
  tool_call_id = "";
  tool_name = "";
  arguments = List.[];
  thought_signature = "";
}

unfoldable pub is_tool_call : ContentBlockType → Bool
is_tool_call ContentBlockType.tool_call = true
is_tool_call _ = false

unfoldable pub is_text : ContentBlockType → Bool
is_text ContentBlockType.text = true
is_text _ = false

unfoldable pub is_image : ContentBlockType → Bool
is_image ContentBlockType.image = true
is_image _ = false

-- `Role`: a text, of which the code names three.
pub data Role : Type 0 where
  user assistant tool_result : Role
  other_role : String → Role

unfoldable pub is_assistant : Role → Bool
is_assistant Role.assistant = true
is_assistant _ = false

unfoldable pub is_user : Role → Bool
is_user Role.user = true
is_user _ = false

unfoldable pub is_tool_result : Role → Bool
is_tool_result Role.tool_result = true
is_tool_result _ = false

-- `StopReason`; `unset` is the empty text.
pub data StopReason : Type 0 where
  unset stop length tool_use error aborted : StopReason

-- `r == StopReasonError || r == StopReasonAborted`.
unfoldable pub is_failed : StopReason → Bool
is_failed StopReason.error = true
is_failed StopReason.aborted = true
is_failed _ = false

pub record Usage : Type 0 where
  pub input : ℕ
  pub output : ℕ
  pub cache_read : ℕ
  pub cache_write : ℕ
  pub total_tokens : ℕ

pub record Message : Type 0 where
  pub role : Role
  pub content : List ContentBlock
  pub timestamp : ℕ
  pub api : String
  pub provider : String
  pub model : String
  pub response_model : String
  pub response_id : String
  pub usage : Option Usage
  pub stop_reason : StopReason
  pub error_message : String
  pub tool_call_id : String
  pub tool_name : String
  pub is_error : Bool
  pub details : Value

-- The zero message with a role and its content.
unfoldable pub new_message : Role → List ContentBlock → ℕ → Message
new_message role content timestamp = record {
  role = role;
  content = content;
  timestamp = timestamp;
  api = "";
  provider = "";
  model = "";
  response_model = "";
  response_id = "";
  usage = Option.none;
  stop_reason = StopReason.unset;
  error_message = "";
  tool_call_id = "";
  tool_name = "";
  is_error = false;
  details = Value.null;
}
