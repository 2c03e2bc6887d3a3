-- ===== src/AgentLoop/Batch.antt =====
-- internal/agentloop/loop.go: the tool calls of one assistant message, one after another or at the
-- same time. A running call is taken as atomic, at the point where it completes.
pub mod Along
pub mod Complete
pub mod Answers
pub mod Silent
pub mod Ended
use attention.Prelude.{
  ℕ, zero, suc, String, Bool, true, false, List, [], ◌∷◌, ◌++◌, map, Option, none, some, ◌&&◌, ◌||◌,
  ◌==◌, if◌then◌else◌,
}
use attention.Ai.Types.{ContentBlock, Message}
use attention.Ai.Transform.{tool_calls}
use attention.Session.Types.{Result, ok, err, diverges, panics}
use attention.Session.Storage.{Action, pure, continue, ◌>>=◌, ◌>>◌}
use attention.AgentLoop.Types.{
  Args, ToolResult, Event, tool_execution_start, tool_execution_update, Tool, LoopContext,
  ToolConfig, Surroundings,
}
use attention.AgentLoop.Tools.{
  Run, Finalized, Prepared, immediate, prepared, Batch, should_terminate, executed,
  prepare_tool_call, finalize, emit, on_world, run_prepared, emit_end, emit_result,
}

-- An entry of a parallel batch: its call is finished, or still running.
pub data Slot (W : Type 0) : Type 0 where
  done : Finalized → Slot W
  running : (tool_call : ContentBlock) → Tool W → Args → Slot W

unfoldable pub batch_of : List (Finalized × Message) → Batch
batch_of fs = record {
  messages = map (λ x. x.1) fs;
  terminate = should_terminate (map (λ x. x.0) fs);
}

module _ {W : Type 0} where
  -- A tool with the name of the call runs alone.
  calls_sequential : ContentBlock → List (Tool W) → Bool
  calls_sequential call [] = false
  calls_sequential call (t ∷ ts) =
      let rest = calls_sequential call ts in
      if t.name == call.tool_name && t.is_sequential then true else rest

  -- `hasSequential`.
  unfoldable pub has_sequential : List (Tool W) → List ContentBlock → Bool
  unfolding calls_sequential
  has_sequential tools [] = false
  has_sequential tools (c ∷ cs) =
      let rest = has_sequential tools cs in if calls_sequential c tools then true else rest

  module _ (around : Surroundings W) (context : LoopContext W) (m : Message)
      (config : ToolConfig W) where
    pub emit_start : ContentBlock → Action (Run W) (Unit {0})
    emit_start c = emit around (tool_execution_start c.tool_call_id c.tool_name c.arguments)

    -- The events for a finished call, and its message.
    unfoldable pub reply_to : Finalized → Action (Run W) (Finalized × Message)
    reply_to f = do emit_end around f; msg ← emit_result around f; pure (f, msg)

    run_call : Prepared W → Action (Run W) (Finalized × Message)
    unfolding reply_to
    run_call p = run_prepared around context m config p >>= reply_to

    pub prepare : ContentBlock → Action (Run W) (Prepared W)
    prepare c = on_world around (prepare_tool_call around context m c config)

    -- One round of the sequential loop.
    unfoldable pub call_once : ContentBlock → Action (Run W) (Finalized × Message)
    unfolding emit_start prepare run_call
    call_once c = emit_start c >> (prepare c >>= run_call)

    -- The loop of `executeToolCallsSequential`; a cancelled context ends it after a round.
    unfoldable pub call_each : List ContentBlock → Action (Run W) (List (Finalized × Message))
    unfolding call_once
    call_each [] = pure []
    call_each (c ∷ cs) = call_once c >>= λ x s. elim (around.is_cancelled s.world) [
      | true ↦ (ok (x ∷ []), s)
      | false ↦ (call_each cs >>= λ xs. pure (x ∷ xs)) s
    ]

    open_slot : Prepared W → Action (Run W) (Slot W)
    open_slot (immediate call r) =
        let f : Finalized = record { tool_call = call; result = r; is_error = true } in
        emit_end around f >> pure (done f)
    open_slot (prepared call t args) = pure (running call t args)

    unfoldable pub start_once : ContentBlock → Action (Run W) (Slot W)
    unfolding emit_start prepare open_slot
    start_once c = emit_start c >> (prepare c >>= open_slot)

    -- The first loop of `executeToolCallsParallel`.
    unfoldable pub start_each : List ContentBlock → Action (Run W) (List (Slot W))
    unfolding start_once
    start_each [] = pure []
    start_each (c ∷ cs) = start_once c >>= λ x s. elim (around.is_cancelled s.world) [
      | true ↦ (ok (x ∷ []), s)
      | false ↦ (start_each cs >>= λ xs. pure (x ∷ xs)) s
    ]

    -- The updates that a call has buffered, up to the first error.
    unfoldable pub emit_buffered : ContentBlock → List ToolResult → Action (Run W) (Unit {0})
    emit_buffered call [] = pure tt
    emit_buffered call (u ∷ us) =
        emit around (tool_execution_update call.tool_call_id call.tool_name call.arguments u)
        >> emit_buffered call us

    -- A call completes; after the first error of the sink (`first`) nothing more is emitted.
    unfoldable pub finish_one :
        ContentBlock
        → Tool W
        → Args
        → Result (Unit {0})
        → Run W
        → Finalized × Result (Unit {0}) × Run W
    unfolding emit_buffered
    finish_one call t args first s =
        let (x, w) = t.execute call.tool_call_id args s.world in
        let (f, w') = finalize around context m config args (executed call x.outcome) w in
        let (r, s') =
          continue first (λ _. emit_buffered call x.updates >> emit_end around f)
            (record s { world = w' }) in
        (f, r, s')

    -- The call at an index completes, where one is running there.
    unfoldable pub complete_at :
        ℕ → List (Slot W) → Result (Unit {0}) → Run W → List (Slot W) × Result (Unit {0}) × Run W
    unfolding finish_one
    complete_at n [] first s = ([], first, s)
    complete_at zero (done f ∷ xs) first s = (done f ∷ xs, first, s)
    complete_at zero (running call t args ∷ xs) first s =
        let (f, r, s') = finish_one call t args first s in (done f ∷ xs, r, s')
    complete_at (suc n) (x ∷ xs) first s =
        let (ys, r, s') = complete_at n xs first s in (x ∷ ys, r, s')

    unfoldable pub complete_in :
        List ℕ
        → List (Slot W)
        → Result (Unit {0})
        → Run W
        → List (Slot W) × Result (Unit {0}) × Run W
    unfolding complete_at
    complete_in [] xs first s = (xs, first, s)
    complete_in (n ∷ ns) xs first s =
        let (ys, r, s') = complete_at n xs first s in complete_in ns ys r s'

    -- The calls that are left, in order.
    unfoldable pub complete_rest :
        List (Slot W) → Result (Unit {0}) → Run W → List Finalized × Result (Unit {0}) × Run W
    unfolding finish_one
    complete_rest [] first s = ([], first, s)
    complete_rest (done f ∷ xs) first s =
        let (fs, r, s') = complete_rest xs first s in (f ∷ fs, r, s')
    complete_rest (running call t args ∷ xs) first s =
        let (f, r, s') = finish_one call t args first s in
        let (fs, q, s'') = complete_rest xs r s' in (f ∷ fs, q, s'')

    -- The loop over the completed results.
    unfoldable pub complete_all : List (Slot W) → Action (Run W) (List Finalized)
    unfolding complete_in complete_rest
    complete_all xs s =
        let (ys, r, s') = complete_in (around.completion_order s.world) xs (ok tt) s in
        let (fs, q, s'') = complete_rest ys r s' in continue q (λ _. pure fs) s''

    -- The last loop: the results in the order of the calls.
    unfoldable pub emit_results : List Finalized → Action (Run W) (List (Finalized × Message))
    emit_results [] = pure []
    emit_results (f ∷ fs) = do
      msg ← emit_result around f
      rest ← emit_results fs
      pure ((f, msg) ∷ rest)

    -- `executeToolCalls`.
    unfoldable pub execute_tool_calls : Action (Run W) Batch
    unfolding has_sequential call_each start_each complete_all emit_results batch_of
    execute_tool_calls =
        let calls = tool_calls m.content in
        if config.is_sequential || has_sequential context.tools calls
        then (call_each calls >>= λ xs. pure (batch_of xs))
        else do
          slots ← start_each calls
          fs ← complete_all slots
          xs ← emit_results fs
          pure (batch_of xs)
