-- ===== src/AgentLoop/Types.antt =====
-- internal/agentloop/types.go and internal/tool/tool.go. `W` is what the callbacks of a run act on:
-- tools, hooks and the event sink are functions that read and change it.
use attention.Prelude.{ℕ, String, Bool, List, Option, ◌⊎◌}
use attention.Value.{Value}
use attention.Ai.Types.{ContentBlock, Message}
use attention.Message.{AgentMessage}
use attention.Session.Types.{Result}

-- `map[string]any`; a nil map is the empty one.
abbrev pub Args : Type 0
Args = List (String × Value)

-- `tool.Result`.
pub record ToolResult : Type 0 where
  pub content : List ContentBlock
  pub details : Value
  pub is_error : Bool
  pub terminate : Bool

-- `Event`, each type with the fields that are set for it.
pub data Event : Type 0 where
  agent_start turn_start : Event
  agent_end : (messages : List AgentMessage) → Event
  turn_end : Message → (tool_results : List Message) → Event
  message_start message_update message_end : AgentMessage → Event
  tool_execution_start : (tool_call_id tool_name : String) → Args → Event
  tool_execution_update : (tool_call_id tool_name : String) → Args → ToolResult → Event
  tool_execution_end : (tool_call_id tool_name : String) → ToolResult → (is_error : Bool) → Event

-- What `Execute` does: the partial results that it reports, and its result or its error's text.
pub data Outcome : Type 0 where
  returned : ToolResult → Outcome
  failed : (text : String) → Outcome

pub record Execution : Type 0 where
  pub updates : List ToolResult
  pub outcome : Outcome

pub record Tool (W : Type 0) : Type 0 where
  pub name : String
  pub is_sequential : Bool
  pub parameters : Value
  pub prepare_args : Option (Args → Args)
  pub execute : (tool_call_id : String) → Args → W → Execution × W

-- `Context`.
pub record LoopContext (W : Type 0) : Type 0 where
  pub system_prompt : String
  pub messages : List AgentMessage
  pub tools : List (Tool W)

-- `BeforeToolCallResult` and `AfterToolCallResult`; nil fields are `none`.
pub record BeforeResult : Type 0 where
  pub block : Bool
  pub reason : String
  pub args : Option Args

pub record AfterResult : Type 0 where
  pub content : Option (List ContentBlock)
  pub details : Option Value
  pub is_error : Option Bool
  pub terminate : Option Bool

-- What a hook returns: an error's text, or its result, which may be nil.
pub data Hooked (A : Type 0) : Type 0 where
  hook_failed : (text : String) → Hooked A
  hooked : Option A → Hooked A

-- The part of `Config` that tool calls use.
pub record ToolConfig (W : Type 0) : Type 0 where
  pub is_sequential : Bool
  pub before_tool_call :
      Option (Message → ContentBlock → Args → LoopContext W → W → Hooked BeforeResult × W)
  pub after_tool_call : Option (
      Message
      → ContentBlock
      → Args
      → ToolResult
      → Bool
      → LoopContext W
      → W
      → Hooked AfterResult × W)

-- What surrounds a run: the event sink, the context's cancellation and the clock, as of now, and
-- the check of arguments by a tool's schema (`ai.ValidateToolArguments`, an error as its text; it is in
-- internal/ai/validation.go).
pub record Surroundings (W : Type 0) : Type 0 where
  pub sink : Event → W → Result (Unit {0}) × W
  pub is_cancelled : W → Bool
  pub now : W → ℕ
  -- the order in which the running calls of a parallel batch complete, those not in it last
  pub completion_order : W → List ℕ
  pub validate : (name : String) → (parameters : Value) → Args → String ⊎ Args
