-- ===== src/AgentLoop/Tools.antt =====
-- internal/agentloop/loop.go: the tool calls of an assistant message. The executions of a parallel
-- batch are atomic, in the order in which they complete.
pub mod Returns
pub mod Ended
use attention.Prelude.{
  String, Bool, true, false, List, [], ◌∷◌, ◌++◌, Option, none, some, inl, inr, ◌&&◌, ◌==◌,
  if◌then◌else◌,
}
use Prim.Native.String
use attention.Value.{Value, Members}
use attention.Ai.Types.{ContentBlock, Message, new_message, text_block, tool_result}
use attention.Message.{ai}
use attention.Session.Types.{Result, ok, err, diverges, panics}
use attention.Session.Storage.{Action, pure, ◌>>=◌, ◌>>◌}
use attention.AgentLoop.Types.{
  Args, ToolResult, Event, tool_execution_update, tool_execution_end, message_start, message_end,
  Outcome, returned, failed, Tool, LoopContext, BeforeResult, AfterResult, Hooked, hook_failed,
  hooked, ToolConfig, Surroundings,
}

-- The world, and the events that were given to the sink.
pub record Run (W : Type 0) : Type 0 where
  pub world : W
  pub events : List Event

-- `createErrorToolResult`.
unfoldable pub error_result : String → ToolResult
error_result text = record {
  content = text_block text ∷ [];
  details = Value.obj Members.end;
  is_error = true;
  terminate = false;
}

-- `finalizedToolCallOutcome`.
pub record Finalized : Type 0 where
  pub tool_call : ContentBlock
  pub result : ToolResult
  pub is_error : Bool

-- `shouldTerminateToolBatch`.
all_terminate : List Finalized → Bool
all_terminate [] = true
all_terminate (f ∷ fs) = let rest = all_terminate fs in f.result.terminate && rest

unfoldable pub should_terminate : List Finalized → Bool
unfolding all_terminate
should_terminate [] = false
should_terminate (f ∷ fs) = all_terminate (f ∷ fs)

pub record Batch : Type 0 where
  pub messages : List Message
  pub terminate : Bool

-- `preparedToolCall`.
pub data Prepared (W : Type 0) : Type 0 where
  immediate : (tool_call : ContentBlock) → ToolResult → Prepared W
  prepared : (tool_call : ContentBlock) → Tool W → Args → Prepared W

blocked_reason : BeforeResult → String
blocked_reason r = if r.reason == "" then "Tool execution was blocked" else r.reason

-- The result that the hook after a call leaves.
unfoldable pub apply_after : Finalized → Hooked AfterResult → Finalized
apply_after f (hook_failed text) = record f { result = error_result text; is_error = true }
apply_after f (hooked none) = f
apply_after f (hooked (some a)) = record f {
  result = record f.result {
    content = elim a.content [ none ↦ f.result.content | some c ↦ c ];
    details = elim a.details [ none ↦ f.result.details | some d ↦ d ];
    terminate = elim a.terminate [ none ↦ f.result.terminate | some t ↦ t ];
  };
  is_error = elim a.is_error [ none ↦ f.is_error | some e ↦ e ];
}

unfoldable pub executed : ContentBlock → Outcome → Finalized
executed call (returned r) = record { tool_call = call; result = r; is_error = r.is_error }
executed call (failed text) = record {
  tool_call = call;
  result = error_result text;
  is_error = true;
}

module _ {W : Type 0} where
  unfoldable pub find_tool : String → List (Tool W) → Option (Tool W)
  find_tool name [] = none
  find_tool name (t ∷ ts) = let rest = find_tool name ts in if t.name == name then some t else rest

  prepare_args : Tool W → Args → Args
  prepare_args t args = elim t.prepare_args [ none ↦ args | some f ↦ f args ]

  refused : ContentBlock → String → Prepared W
  refused call text = immediate call (error_result text)

  -- What becomes of a call that no hook refused: `args` of the hook replace those of the call.
  after_before : ContentBlock → Tool W → Args → Option BeforeResult → Prepared W
  unfolding refused blocked_reason
  after_before call t args none = prepared call t args
  after_before call t args (some r) =
      if r.block
      then refused call (blocked_reason r)
      else prepared call t (elim r.args [ none ↦ args | some args' ↦ args' ])

  module _ (around : Surroundings W) where
    check_cancelled : ContentBlock → Prepared W → W → Prepared W × W
    unfolding refused
    check_cancelled call p w =
        if around.is_cancelled w then (refused call "Operation aborted", w) else (p, w)

    before_outcome : ContentBlock → Tool W → Args → Hooked BeforeResult → W → Prepared W × W
    unfolding refused after_before check_cancelled
    before_outcome call t args (hook_failed text) w = (refused call text, w)
    before_outcome call t args (hooked r) w = check_cancelled call (after_before call t args r) w

    -- `prepareToolCall`.
    unfoldable pub prepare_tool_call :
        LoopContext W → Message → ContentBlock → ToolConfig W → W → Prepared W × W
    unfolding find_tool prepare_args refused check_cancelled before_outcome
    prepare_tool_call context m call config w = elim (find_tool call.tool_name context.tools) [
      | none ↦ (refused call (String.◌++◌ "Tool " (String.◌++◌ call.tool_name " not found")), w)
      | some t ↦ elim (around.validate t.name t.parameters (prepare_args t call.arguments)) [
        | inl text ↦ (refused call text, w)
        | inr args ↦ elim config.before_tool_call [
          | none ↦ check_cancelled call (prepared call t args) w
          | some hook ↦ let (r, w') = hook m call args context w in before_outcome call t args r w'
        ]
      ]
    ]

    -- `finalizeExecutedToolCall`.
    unfoldable pub finalize :
        LoopContext W → Message → ToolConfig W → (args : Args) → Finalized → W → Finalized × W
    unfolding apply_after
    finalize context m config args f w = elim config.after_tool_call [
      | none ↦ (f, w)
      | some hook ↦
          let (r, w') = hook m f.tool_call args f.result f.is_error context w in
          (apply_after f r, w')
    ]

    -- `emit`.
    unfoldable pub emit : Event → Action (Run W) (Unit {0})
    emit e s =
        let (r, w) = around.sink e s.world in (r, record { world = w; events = s.events ++ e ∷ [] })

    -- Every update is given to the sink, and the first error is kept.
    unfoldable pub emit_updates :
        ContentBlock → List ToolResult → Result (Unit {0}) → Action (Run W) (Unit {0})
    unfolding emit
    emit_updates call [] first s = (first, s)
    emit_updates call (u ∷ us) first s =
        let (r, s') =
          emit (tool_execution_update call.tool_call_id call.tool_name call.arguments u) s in
        emit_updates call us
          (elim first [ ok _ ↦ r | err e ↦ err e | diverges ↦ diverges | panics ↦ panics ]) s'

    abbrev pub on_world : {A : Type 0} → (W → A × W) → Action (Run W) A
    on_world f s = let (a, w) = f s.world in (ok a, record s { world = w })

    -- `executePreparedToolCall` and `finalizeExecutedToolCall` of the sequential loop.
    unfoldable pub run_prepared :
        LoopContext W → Message → ToolConfig W → Prepared W → Action (Run W) Finalized
    unfolding emit_updates finalize executed
    run_prepared context m config (immediate call r) =
        pure (record { tool_call = call; result = r; is_error = true })
    run_prepared context m config (prepared call t args) = do
      x ← on_world (t.execute call.tool_call_id args)
      emit_updates call x.updates (ok tt)
      on_world (finalize context m config args (executed call x.outcome))

    -- `createToolResultMessage`.
    unfoldable pub result_message : Finalized → W → Message
    result_message f w = record (new_message tool_result f.result.content (around.now w)) {
      tool_call_id = f.tool_call.tool_call_id;
      tool_name = f.tool_call.tool_name;
      is_error = f.is_error;
      details = f.result.details;
    }

    -- `emitToolExecutionEnd`, and `emitToolResultMessage` with the message that it is for.
    unfoldable pub emit_end : Finalized → Action (Run W) (Unit {0})
    unfolding emit
    emit_end f =
        emit (tool_execution_end f.tool_call.tool_call_id f.tool_call.tool_name f.result f.is_error)

    unfoldable pub emit_result : Finalized → Action (Run W) Message
    unfolding emit result_message
    emit_result f = do
      m ← on_world (λ w. (result_message f w, w))
      emit (message_start (ai m))
      emit (message_end (ai m))
      pure m
