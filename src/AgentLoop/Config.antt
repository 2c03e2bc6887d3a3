-- ===== src/AgentLoop/Config.antt =====
-- internal/agentloop/types.go: the configuration of a run, its callbacks and the state that the loop
-- keeps. A callback returns its result, and what it leaves of the world also where it fails.
pub mod Books
use attention.Prelude.{String, Bool, List, Option, none, some}
use attention.Value.{Value}
use attention.Ai.Types.{Message}
use attention.Ai.Transform.{Model}
use attention.Message.{AgentMessage}
use attention.Session.Types.{Result, Error}
use attention.Session.Storage.{Action, pure}
use attention.AgentLoop.Types.{Event, Tool, LoopContext, ToolConfig, Surroundings}
use attention.AgentLoop.Tools.{Run, emit}

-- `PrepareNextTurnContext` and `ShouldStopAfterTurnContext`.
pub record TurnContext (W : Type 0) : Type 0 where
  pub message : Message
  pub tool_results : List Message
  pub context : LoopContext W
  pub new_messages : List AgentMessage

-- `TurnUpdate`; nil fields are `none`.
pub record TurnUpdate (W : Type 0) : Type 0 where
  pub context : Option (LoopContext W)
  pub model : Option Model
  pub thinking_level : Option String

-- What the stream function is called with. `settings` are the fields of the configuration that are
-- copied into the options as they are (temperature, limits, transport, headers, metadata, ...).
pub record Request (W : Type 0) : Type 0 where
  pub model : Model
  pub system_prompt : String
  pub messages : List Message
  pub tools : List (Tool W)
  pub api_key : String
  pub reasoning : String
  pub settings : Value

-- What the iterator of a response yields: an error, a nil event, or an event, which by its type
-- starts the message, is about a block, or ends the message; events may lack their message.
pub data StreamItem : Type 0 where
  iter_failed : Error → StreamItem
  no_event : StreamItem
  started_event block_event done_event : Option Message → StreamItem
  other_event : StreamItem

-- A streamed response: what it yields, and its `Result()`.
pub record Response : Type 0 where
  pub items : List StreamItem
  pub result : Result Message

-- `Config`, with the part for tool calls on its own; a nil callback is `none`.
pub record Config (W : Type 0) : Type 0 where
  pub model : Model
  pub thinking_level : String
  pub api_key : String
  pub settings : Value
  pub tool_calls : ToolConfig W
  pub convert_to_llm : Option (List AgentMessage → W → Result (List Message) × W)
  pub transform_context : Option (List AgentMessage → W → Result (List AgentMessage) × W)
  pub get_api_key : Option ((provider : String) → W → Result String × W)
  pub should_stop_after_turn : Option (TurnContext W → W → Result Bool × W)
  pub prepare_next_turn : Option (TurnContext W → W → Result (Option (TurnUpdate W)) × W)
  pub get_steering_messages : Option (W → Result (List AgentMessage) × W)
  pub get_follow_up_messages : Option (W → Result (List AgentMessage) × W)

-- `currentContext`, `newMessages` and the fields of `config` that a turn may change.
pub record LoopState (W : Type 0) : Type 0 where
  pub run : Run W
  pub context : LoopContext W
  pub new_messages : List AgentMessage
  pub model : Model
  pub thinking_level : String

module _ {W : Type 0} where
  abbrev pub on_run : {A : Type 0} → Action (Run W) A → Action (LoopState W) A
  on_run m s = let (r, x) = m s.run in (r, record s { run = x })

  -- A callback runs.
  abbrev pub call_back : {A : Type 0} → (W → Result A × W) → Action (LoopState W) A
  call_back f = on_run (λ x. let (r, w) = f x.world in (r, record x { world = w }))

  -- A callback that may be nil, and what holds in its place.
  abbrev pub ask : {A : Type 0} → Option (W → Result A × W) → A → Action (LoopState W) A
  ask none a = pure a
  ask (some f) a = call_back f

  -- The same with an argument.
  abbrev pub ask_with :
      {X A : Type 0} → Option (X → W → Result A × W) → X → A → Action (LoopState W) A
  ask_with none x a = pure a
  ask_with (some f) x a = call_back (f x)

  module _ (around : Surroundings W) where
    abbrev pub report : Event → Action (LoopState W) (Unit {0})
    report e = on_run (emit around e)
