-- ===== src/AgentLoop/Loop.antt =====
-- internal/agentloop/loop.go: `run`, `continueRun` and `runLoop`. A run is on fuel: one unit for each
-- turn.
pub mod Booked
pub mod Turn
pub mod Ended
pub mod Plain
pub mod Single
use attention.Prelude.{
  ℕ, zero, suc, String, Bool, true, false, not, List, [], ◌∷◌, ◌++◌, map, Option, none, some, ◌||◌,
  if◌then◌else◌,
}
use attention.Ai.Types.{ContentBlock, Message, is_failed, is_assistant}
use attention.Ai.Transform.{tool_calls}
use attention.Message.{AgentMessage, ai, snapshot, as_ai_message}
use attention.Session.Types.{Result, ok, err, diverges, panics}
use attention.Session.Storage.{Action, pure, lift, ◌>>=◌, ◌>>◌}
use attention.AgentLoop.Types.{
  agent_start, agent_end, turn_start, turn_end, message_start, message_end, LoopContext,
  Surroundings,
}
use attention.AgentLoop.Tools.{Run}
use attention.AgentLoop.Batch.{execute_tool_calls}
use attention.AgentLoop.Config.{
  Config, LoopState, TurnContext, TurnUpdate, Request, Response, on_run, ask, ask_with, report,
}
use attention.AgentLoop.Stream.{failure, stream_assistant_response}

-- After a turn: the run is over, or it goes on with the messages that steer it, at least where tools
-- were called.
pub data Turned : Type 0 where
  over : Turned
  goes_on : (has_more_tool_calls : Bool) → (pending : List AgentMessage) → Turned

unfoldable pub is_empty : List AgentMessage → Bool
is_empty [] = true
is_empty (m ∷ ms) = false

-- The last message is a provider message of the assistant.
unfoldable pub ends_with_assistant : List AgentMessage → Bool
ends_with_assistant [] = false
ends_with_assistant (m ∷ []) = elim (as_ai_message m) [
  | none ↦ false
  | some msg ↦ is_assistant msg.role
]
ends_with_assistant (m ∷ n ∷ ms) = ends_with_assistant (n ∷ ms)

-- The two contexts that a run does not continue from.
unfoldable pub refuse :
    {S A : Type 0} → (no_messages from_assistant : Bool) → Action S A → Action S A
refuse true b m = lift (err (failure "cannot continue: no messages in context"))
refuse false true m = lift (err (failure "cannot continue from message role: assistant"))
refuse false false m = m

module _ {W : Type 0} where
  unfoldable pub append_messages : List AgentMessage → Action (LoopState W) (Unit {0})
  append_messages ms s = (
    ok tt,
    record s {
      context = record s.context { messages = s.context.messages ++ ms };
      new_messages = s.new_messages ++ ms;
    },
  )

  -- The reply is in the context already.
  unfoldable pub note_reply : Message → Action (LoopState W) (Unit {0})
  note_reply m s = (ok tt, record s { new_messages = s.new_messages ++ ai m ∷ [] })

  unfoldable pub apply_update : Option (TurnUpdate W) → Action (LoopState W) (Unit {0})
  apply_update none s = (ok tt, s)
  apply_update (some u) s = (
    ok tt,
    record s {
      context = elim u.context [ none ↦ s.context | some c ↦ c ];
      model = elim u.model [ none ↦ s.model | some m ↦ m ];
      thinking_level = elim u.thinking_level [ none ↦ s.thinking_level | some l ↦ l ];
    },
  )

  unfoldable pub turn_context : Message → List Message → LoopState W → TurnContext W
  turn_context m results s = record {
    message = m;
    tool_results = results;
    context = s.context;
    new_messages = s.new_messages;
  }

  -- The context that a continued run starts from.
  unfoldable pub copied : LoopContext W → LoopContext W
  copied context = record context { messages = map snapshot context.messages }

  module _ (around : Surroundings W) where
    unfoldable pub report_message : AgentMessage → Action (LoopState W) (Unit {0})
    report_message m = report around (message_start m) >> report around (message_end m)

    -- The loop over the pending messages.
    unfoldable pub take_pending : List AgentMessage → Action (LoopState W) (Unit {0})
    unfolding report_message append_messages
    take_pending [] = pure tt
    take_pending (p ∷ ps) =
        report_message (snapshot p) >> append_messages (snapshot p ∷ []) >> take_pending ps

    -- The loop over the prompts, which are appended before they are reported.
    unfoldable pub take_prompts : List AgentMessage → Action (LoopState W) (Unit {0})
    unfolding report_message append_messages
    take_prompts [] = pure tt
    take_prompts (p ∷ ps) =
        append_messages (snapshot p ∷ []) >> report_message (snapshot p) >> take_prompts ps

    -- The end of a run.
    unfoldable pub finish : Action (LoopState W) (Unit {0})
    finish s = report around (agent_end s.new_messages) s

    module _ (config : Config W) where
      -- The tool calls of a reply, if any: their results, and whether the run goes on because of them.
      unfoldable pub run_tools :
          Message → List ContentBlock → Action (LoopState W) (List Message × Bool)
      unfolding append_messages
      run_tools m [] s = pure ([], false) s
      run_tools m (c ∷ cs) s =
          (do
            b ← on_run (execute_tool_calls around s.context m config.tool_calls)
            append_messages (map ai b.messages)
            pure (b.messages, not b.terminate))
            s

      unfoldable pub prepare_next_turn : Message → List Message → Action (LoopState W) (Unit {0})
      unfolding apply_update turn_context
      prepare_next_turn m results s =
          (ask_with config.prepare_next_turn (turn_context m results s) none >>= apply_update) s

      unfoldable pub should_stop_after_turn : Message → List Message → Action (LoopState W) Bool
      unfolding turn_context
      should_stop_after_turn m results s =
          ask_with config.should_stop_after_turn (turn_context m results s) false s

      unfoldable pub steer : Action (LoopState W) (List AgentMessage)
      steer = ask config.get_steering_messages []

      unfoldable pub follow_ups : Action (LoopState W) (List AgentMessage)
      follow_ups = ask config.get_follow_up_messages []

      unfoldable pub conclude : Bool → Bool → Action (LoopState W) Turned
      unfolding finish steer
      conclude more true = finish >> pure over
      conclude more false = steer >>= λ pending. pure (goes_on more pending)

      -- What follows a reply that did not fail.
      unfoldable pub replied : Message → Action (LoopState W) Turned
      unfolding run_tools prepare_next_turn should_stop_after_turn conclude
      replied m = run_tools m (tool_calls m.content) >>= λ x.
          report around (turn_end m x.0)
          >> prepare_next_turn m x.0
          >> (should_stop_after_turn m x.0 >>= conclude x.1)

      -- What follows the reply of a turn.
      unfoldable pub after_reply : Message → Action (LoopState W) Turned
      unfolding replied finish
      after_reply m = elim (is_failed m.stop_reason) [
        | true ↦ report around (turn_end m []) >> (finish >> pure over)
        | false ↦ replied m
      ]

      module _ (stream : Request W → W → Response × W) where
        unfoldable pub start_turn : (first : Bool) → Action (LoopState W) (Unit {0})
        start_turn true = pure tt
        start_turn false = report around turn_start

        -- The body of the inner loop.
        unfoldable pub turn : (first : Bool) → List AgentMessage → Action (LoopState W) Turned
        unfolding start_turn take_pending note_reply after_reply
        turn first pending = do
          start_turn first
          take_pending pending
          m ← stream_assistant_response around config stream
          note_reply m
          after_reply m

        -- The heads of the two loops, with what is left of the run.
        unfoldable pub proceed :
            (rest : List AgentMessage → Action (LoopState W) (Unit {0}))
            → Turned
            → Action (LoopState W) (Unit {0})
        unfolding is_empty follow_ups finish
        proceed rest over = pure tt
        proceed rest (goes_on more pending) = elim (more || not (is_empty pending)) [
          | true ↦ rest pending
          | false ↦ follow_ups >>= λ ms. elim (is_empty ms) [ true ↦ finish | false ↦ rest ms ]
        ]

        -- `runLoop`, behind its first request for steering messages.
        unfoldable pub turns :
            (fuel : ℕ) → (first : Bool) → List AgentMessage → Action (LoopState W) (Unit {0})
        unfolding turn proceed
        turns zero first pending = lift diverges
        turns (suc fuel) first pending = turn first pending >>= proceed (turns fuel false)

        unfoldable pub run_loop : (fuel : ℕ) → Action (LoopState W) (Unit {0})
        unfolding steer turns
        run_loop fuel = steer >>= turns fuel true

        unfoldable pub start_state : LoopContext W → Run W → LoopState W
        start_state context s = record {
          run = s;
          context = context;
          new_messages = [];
          model = config.model;
          thinking_level = config.thinking_level;
        }

        -- A run from the given context; it returns the new messages.
        unfoldable pub run_from :
            (fuel : ℕ)
            → LoopContext W
            → (prompts : List AgentMessage) → Action (LoopState W) (List AgentMessage)
        unfolding take_prompts run_loop
        run_from fuel context prompts = do
          report around agent_start
          report around turn_start
          take_prompts prompts
          run_loop fuel
          λ s. (ok s.new_messages, s)

        -- `run`.
        unfoldable pub run :
            (fuel : ℕ) → List AgentMessage → LoopContext W → Action (Run W) (List AgentMessage)
        unfolding run_from start_state
        run fuel prompts context s =
            let (r, s') = run_from fuel context prompts (start_state context s) in (r, s'.run)

        -- `continueRun`; there are no prompts.
        unfoldable pub continue_run :
            (fuel : ℕ) → LoopContext W → Action (Run W) (List AgentMessage)
        unfolding run copied ends_with_assistant is_empty refuse
        continue_run fuel context =
            refuse (is_empty context.messages) (ends_with_assistant context.messages)
              (run fuel [] (copied context))
