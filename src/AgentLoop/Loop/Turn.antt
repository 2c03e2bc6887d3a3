-- ===== src/AgentLoop/Loop/Turn.antt =====
-- The messages that a run collects are those that it reports: the turn.
use attention.Prelude.{◌≡◌, refl, ap, Bool, true, false, List, [], ◌∷◌, ◌++◌}
use attention.Ai.Types.{Message, is_failed}
use attention.Ai.Transform.{tool_calls}
use attention.Message.{AgentMessage, ai}
use attention.Session.Types.{ok}
use attention.Session.Storage.{Action, pure, ◌>>=◌, ◌>>◌}
use attention.Session.Storage.After.{After, bind-After, always-After}
use attention.AgentLoop.Types.{agent_end, turn_start, turn_end, Surroundings}
use attention.AgentLoop.Tools.{emit}
use attention.AgentLoop.Config.{Config, LoopState, Request, Response, report}
use attention.AgentLoop.Config.Books.{Books, KeepsBooks, bind-Books, ask-Books, report-Books}
use attention.AgentLoop.Stream.{stream_assistant_response}
use attention.AgentLoop.Stream.Ended.{stream_assistant_response-After}
use attention.AgentLoop.Loop.{
  Turned, over, goes_on, note_reply, take_pending, finish, run_tools, prepare_next_turn,
  should_stop_after_turn, steer, conclude, replied, after_reply, start_turn, turn,
}
use attention.AgentLoop.Loop.Booked.{
  balanced, Booked, Finished, Exit, Books-Booked, take_pending-Booked, run_tools-Booked,
  prepare_next_turn-Books, should_stop_after_turn-Books,
}

module _ {W : Type 0} (base : List AgentMessage) (around : Surroundings W) (config : Config W) where
  pub finish-Finished :
      (s : LoopState W) → Booked base s → After (finish around) s (λ _ s'. Finished base s')
  unfolding finish emit
  finish-Finished s h =
      let kept =
        report-Books around (agent_end s.new_messages) refl (base ++ s.new_messages) s.new_messages
          s (h, refl) in
      record { leaves = λ a e. let (h', _) = kept.leaves a e in (h', (s.run.events, refl)) }

  finish-Exit : (s : LoopState W) → Booked base s → After (finish around >> pure over) s (Exit base)
  finish-Exit s h =
      bind-After (finish around) (λ _. pure over) s (finish-Finished s h)
        λ _ s' f. record { leaves = λ a e. exit_of a s' e f }
    where
      exit_of : (a : Turned) (s' : LoopState W) → ok over ≡ ok a → Finished base s' → Exit base a s'
      exit_of over s' e f = f
      exit_of (goes_on more pending) s' e f = f.0

  conclude-Exit :
      (more stop : Bool) (s : LoopState W)
      → Booked base s
      → After (conclude around config more stop) s (Exit base)
  unfolding conclude steer
  conclude-Exit more true s h = finish-Exit s h
  conclude-Exit more false s h =
      bind-After (steer around config) (λ pending. pure (goes_on more pending)) s
        (Books-Booked base (steer around config) s (ask-Books config.get_steering_messages []) h)
        λ pending s' h'. record { leaves = λ a e. exit_of a pending s' e h' }
    where
      exit_of :
          (a : Turned) (pending : List AgentMessage) (s' : LoopState W)
          → ok (goes_on more pending) ≡ ok a
          → Booked base s'
          → Exit base a s'
      exit_of over ps s' e h = cc
      exit_of (goes_on more pending) ps s' e h = h

  replied-Exit :
      (m : Message) (s : LoopState W)
      → Booked base s
      → After (replied around config m) s (Exit base)
  unfolding replied
  replied-Exit m s h =
      bind-After (run_tools around config m (tool_calls m.content)) _ s
        (run_tools-Booked base around config m (tool_calls m.content) s h)
        λ x s1 h1.
          bind-After (report around (turn_end m x.0) >> prepare_next_turn around config m x.0)
            (λ _. should_stop_after_turn around config m x.0 >>= conclude around config x.1) s1
            (Books-Booked base
              (report around (turn_end m x.0) >> prepare_next_turn around config m x.0) s1
              (bind-Books (report around (turn_end m x.0))
                (λ _. prepare_next_turn around config m x.0)
                (report-Books around (turn_end m x.0) refl)
                (λ _. prepare_next_turn-Books base around config m x.0))
              h1)
            λ _ s2 h2.
              bind-After (should_stop_after_turn around config m x.0) (conclude around config x.1)
                s2
                (Books-Booked base (should_stop_after_turn around config m x.0) s2
                  (should_stop_after_turn-Books base around config m x.0) h2)
                (conclude-Exit x.1)

  pub after_reply-Exit :
      (m : Message) (s : LoopState W)
      → Booked base s
      → After (after_reply around config m) s (Exit base)
  unfolding after_reply
  after_reply-Exit m s h = decide (is_failed m.stop_reason)
    where
      decide :
          (failed : Bool)
          → After
              (elim failed [
                | true ↦ report around (turn_end m []) >> (finish around >> pure over)
                | false ↦ replied around config m
              ])
              s
              (Exit base)
      decide true =
          bind-After (report around (turn_end m [])) (λ _. finish around >> pure over) s
            (Books-Booked base (report around (turn_end m [])) s
              (report-Books around (turn_end m []) refl) h)
            (λ _ s' h'. finish-Exit s' h')
      decide false = replied-Exit m s h

  module _ (stream : Request W → W → Response × W) where
    start_turn-Books : (first : Bool) → KeepsBooks (start_turn around config stream first)
    unfolding start_turn
    start_turn-Books true v n s b = always-After (pure tt) s (λ _. b)
    start_turn-Books false v n s b = report-Books around turn_start refl v n s b

    -- The reply, which was reported, is collected.
    note_reply-Booked :
        (m : Message) (n : List AgentMessage) (s : LoopState W)
        → Books ((base ++ n) ++ ai m ∷ []) n s
        → After (note_reply m) s (λ _ s'. Booked base s')
    unfolding note_reply
    note_reply-Booked m n s (h, k) =
        always-After (note_reply m) s
          (λ _. balanced base n (ai m ∷ []) (note_reply m s).1 (h, ap (λ n. n ++ ai m ∷ []) k))

    pub turn-Exit :
        (first : Bool) (pending : List AgentMessage) (s : LoopState W)
        → Booked base s
        → After (turn around config stream first pending) s (Exit base)
    unfolding turn
    turn-Exit first pending s h =
        bind-After (start_turn around config stream first)
          (λ _.
            take_pending around pending
            >> (stream_assistant_response around config stream >>= collect))
          s (Books-Booked base (start_turn around config stream first) s (start_turn-Books first) h)
          λ _ s1 h1.
            bind-After (take_pending around pending)
              (λ _. stream_assistant_response around config stream >>= collect) s1
              (take_pending-Booked base around pending s1 h1)
              λ _ s2 h2.
                bind-After (stream_assistant_response around config stream) collect s2
                  (stream_assistant_response-After around (base ++ s2.new_messages) s2.new_messages
                    config stream s2 (h2, refl))
                  λ m s3 b3.
                    bind-After (note_reply m) (λ _. after_reply around config m) s3
                      (note_reply-Booked m s2.new_messages s3 b3)
                      (λ _ s4 h4. after_reply-Exit m s4 h4)
      where
        collect : Message → Action (LoopState W) Turned
        collect m = note_reply m >> after_reply around config m
