-- ===== src/AgentLoop/Loop/Booked.antt =====
-- The messages that a run collects are those that it reports: what a turn is made of.
use attention.Prelude.{
  ◌≡◌, refl, sym, ap, ◌∙◌, false, not, List, [], ◌∷◌, ◌++◌, map, Option, none, some, append_assoc,
}
use attention.Ai.Types.{ContentBlock, Message}
use attention.Message.{AgentMessage, ai, snapshot}
use attention.Session.Storage.{Action, pure, ◌>>=◌, ◌>>◌}
use attention.Session.Storage.After.{After, bind-After, always-After}
use attention.AgentLoop.Types.{Event, agent_end, message_start, message_end, Surroundings}
use attention.AgentLoop.Tools.Ended.{heard}
use attention.AgentLoop.Batch.{execute_tool_calls}
use attention.AgentLoop.Batch.Ended.{execute_tool_calls-After}
use attention.AgentLoop.Config.{Config, LoopState, TurnUpdate, on_run, ask_with, report}
use attention.AgentLoop.Config.Books.{
  Books, KeepsBooks, of_state-Books, bind-Books, ask_with-Books, report-Books, report_end-Books,
}
use attention.AgentLoop.Loop.{
  Turned, over, goes_on, append_messages, apply_update, turn_context, report_message, take_pending,
  take_prompts, run_tools, prepare_next_turn, should_stop_after_turn,
}

-- What was reported is what `base` was, and then the new messages.
abbrev pub Booked : {W : Type 0} → List AgentMessage → LoopState W → Type 0
Booked base s = heard s.run ≡ base ++ s.new_messages

-- The last event reports the end of the run, with the messages.
abbrev pub EndsWith : List Event → List AgentMessage → Type 0
EndsWith es ms = (before : List Event) × (es ≡ before ++ agent_end ms ∷ [])

abbrev pub Finished : {W : Type 0} → List AgentMessage → LoopState W → Type 0
Finished base s = Booked base s × EndsWith s.run.events s.new_messages

abbrev pub Exit : {W : Type 0} → List AgentMessage → Turned → LoopState W → Type 0
Exit base over s = Finished base s
Exit base (goes_on more pending) s = Booked base s

-- The same messages were reported and collected.
pub balanced :
    {W : Type 0} (base n ms : List AgentMessage) (s : LoopState W)
    → Books ((base ++ n) ++ ms) (n ++ ms) s
    → Booked base s
balanced base n ms s (h, k) = h ∙ (append_assoc base n ms ∙ ap (λ n. base ++ n) (sym k))

module _ {W : Type 0} (base : List AgentMessage) where
  -- An action that keeps the books keeps them balanced.
  pub Books-Booked :
      {A : Type 0} (m : Action (LoopState W) A) (s : LoopState W)
      → KeepsBooks m
      → Booked base s
      → After m s (λ _ s'. Booked base s')
  Books-Booked m s q h = record {
    leaves = λ a e.
        let (h', k) = (q (base ++ s.new_messages) s.new_messages s (h, refl)).leaves a e in
        h' ∙ ap (λ n. base ++ n) (sym k);
  }

  module _ (around : Surroundings W) where
    report_message-After :
        (m : AgentMessage) (v n : List AgentMessage) (s : LoopState W)
        → Books v n s
        → After (report_message around m) s (λ _ s'. Books (v ++ m ∷ []) n s')
    unfolding report_message
    report_message-After m v n s b =
        bind-After (report around (message_start m)) (λ _. report around (message_end m)) s
          (report-Books around (message_start m) refl v n s b)
          (λ _ s' b'. report_end-Books around m v n s' b')

    append_messages-After :
        (ms v n : List AgentMessage) (s : LoopState W)
        → Books v n s
        → After (append_messages ms) s (λ _ s'. Books v (n ++ ms) s')
    unfolding append_messages
    append_messages-After ms v n s (h, k) =
        always-After (append_messages ms) s (λ _. (h, ap (λ n. n ++ ms) k))

    pub take_pending-Booked :
        (ps : List AgentMessage) (s : LoopState W)
        → Booked base s
        → After (take_pending around ps) s (λ _ s'. Booked base s')
    unfolding take_pending
    take_pending-Booked [] s h = always-After (take_pending around []) s (λ _. h)
    take_pending-Booked (p ∷ ps) s h =
        let x = snapshot p in
        bind-After (report_message around x >> append_messages (x ∷ []))
          (λ _. take_pending around ps) s
          (bind-After (report_message around x) (λ _. append_messages (x ∷ [])) s
            (report_message-After x (base ++ s.new_messages) s.new_messages s (h, refl))
            (λ _ s1 b1. append_messages-After (x ∷ []) _ _ s1 b1))
          λ _ s2 b2. take_pending-Booked ps s2 (balanced base s.new_messages (x ∷ []) s2 b2)

    pub take_prompts-Booked :
        (ps : List AgentMessage) (s : LoopState W)
        → Booked base s
        → After (take_prompts around ps) s (λ _ s'. Booked base s')
    unfolding take_prompts
    take_prompts-Booked [] s h = always-After (take_prompts around []) s (λ _. h)
    take_prompts-Booked (p ∷ ps) s h =
        let x = snapshot p in
        bind-After (append_messages (x ∷ []) >> report_message around x)
          (λ _. take_prompts around ps) s
          (bind-After (append_messages (x ∷ [])) (λ _. report_message around x) s
            (append_messages-After (x ∷ []) (base ++ s.new_messages) s.new_messages s (h, refl))
            (λ _ s1 b1. report_message-After x _ _ s1 b1))
          λ _ s2 b2. take_prompts-Booked ps s2 (balanced base s.new_messages (x ∷ []) s2 b2)

    module _ (config : Config W) where
      pub run_tools-Booked :
          (m : Message) (cs : List ContentBlock) (s : LoopState W)
          → Booked base s
          → After (run_tools around config m cs) s (λ _ s'. Booked base s')
      unfolding run_tools
      run_tools-Booked m [] s h = always-After (run_tools around config m []) s (λ _. h)
      run_tools-Booked m (c ∷ cs) s h = record {
        leaves =
            (bind-After {Q = λ _ s'. Booked base s'}
              (on_run (execute_tool_calls around s.context m config.tool_calls))
              (λ b. append_messages (map ai b.messages) >> pure (b.messages, not b.terminate)) s
              executed
              λ b s1 b1.
                bind-After {Q = λ _ s'. Booked base s'} (append_messages (map ai b.messages))
                  (λ _. pure (b.messages, not b.terminate)) s1
                  (append_messages-After (map ai b.messages) _ _ s1 b1)
                  λ _ s2 b2.
                    always-After (pure (b.messages, not b.terminate)) s2
                      (λ _. balanced base s.new_messages (map ai b.messages) s2 b2)).leaves;
      }
        where
          executed :
              After
                (on_run (execute_tool_calls around s.context m config.tool_calls))
                s
                (λ b s'. Books ((base ++ s.new_messages) ++ map ai b.messages) s.new_messages s')
          executed = record {
            leaves = λ b e. (
              (execute_tool_calls-After around s.context m config.tool_calls s.run).leaves b e
                  ∙ ap (λ v. v ++ map ai b.messages) h,
              refl,
            );
          }

      pub prepare_next_turn-Books :
          (m : Message) (results : List Message)
          → KeepsBooks (prepare_next_turn around config m results)
      unfolding prepare_next_turn
      prepare_next_turn-Books m results =
          of_state-Books
            (λ s.
              ask_with config.prepare_next_turn (turn_context m results s) none >>= apply_update)
            λ s.
              bind-Books (ask_with config.prepare_next_turn (turn_context m results s) none)
                apply_update
                (ask_with-Books config.prepare_next_turn (turn_context m results s) none)
                apply_update-Books
        where
          apply_update-Books : (u : Option (TurnUpdate W)) → KeepsBooks (apply_update u)
          apply_update-Books none v n s b = always-After (apply_update none) s (λ _. b)
          apply_update-Books (some u) v n s b = always-After (apply_update (some u)) s (λ _. b)

      pub should_stop_after_turn-Books :
          (m : Message) (results : List Message)
          → KeepsBooks (should_stop_after_turn around config m results)
      unfolding should_stop_after_turn
      should_stop_after_turn-Books m results =
          of_state-Books
            (λ s. ask_with config.should_stop_after_turn (turn_context m results s) false)
            (λ s. ask_with-Books config.should_stop_after_turn (turn_context m results s) false)
