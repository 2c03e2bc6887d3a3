-- ===== src/AgentLoop/Loop/Ended.antt =====
-- A run returns the messages that it has reported as complete, and ends by reporting them all.
use attention.Prelude.{
  ◌≡◌, refl, sym, ap, ◌∙◌, ℕ, zero, suc, Bool, true, false, not, List, [], ◌∷◌, ◌++◌, append-nil,
  ◌||◌,
}
use attention.Message.{AgentMessage}
use attention.Session.Types.{Result, ok}
use attention.Session.Storage.{Action, pure, ◌>>=◌, ◌>>◌}
use attention.Session.Storage.After.{After, bind-After, always-After}
use attention.AgentLoop.Types.{agent_start, agent_end, turn_start, LoopContext, Surroundings}
use attention.AgentLoop.Tools.{Run}
use attention.AgentLoop.Tools.Ended.{heard}
use attention.AgentLoop.Config.{Config, LoopState, Request, Response, report}
use attention.AgentLoop.Config.Books.{ask-Books, report-Books}
use attention.AgentLoop.Loop.{
  Turned, over, goes_on, is_empty, take_prompts, finish, steer, follow_ups, turn, proceed, turns,
  run_loop, start_state, run_from, run, continue_run, refuse, copied, ends_with_assistant,
}
use attention.AgentLoop.Loop.Booked.{
  EndsWith, Booked, Finished, Exit, Books-Booked, take_prompts-Booked,
}
use attention.AgentLoop.Loop.Turn.{finish-Finished, turn-Exit}

module _ {W : Type 0} (base : List AgentMessage) (around : Surroundings W) (config : Config W)
    (stream : Request W → W → Response × W) where
  -- What is left of a run, from books that balance.
  abbrev Finishes : Action (LoopState W) (Unit {0}) → Type 0
  Finishes m = (s : LoopState W) → Booked base s → After m s (λ _ s'. Finished base s')

  proceed-Finishes :
      (rest : List AgentMessage → Action (LoopState W) (Unit {0}))
      (rest-Finishes : (ms : List AgentMessage) → Finishes (rest ms)) (t : Turned) (s : LoopState W)
      → Exit base t s
      → After (proceed around config stream rest t) s (λ _ s'. Finished base s')
  unfolding proceed follow_ups
  proceed-Finishes rest rest-Finishes over s f = always-After (pure tt) s (λ _. f)
  proceed-Finishes rest rest-Finishes (goes_on more pending) s h =
      decide (more || not (is_empty pending))
    where
      chosen : (none_left : Bool) → List AgentMessage → Action (LoopState W) (Unit {0})
      chosen b ms = elim b [ true ↦ finish around | false ↦ rest ms ]

      chosen-Finishes : (b : Bool) (ms : List AgentMessage) → Finishes (chosen b ms)
      chosen-Finishes true ms s h = finish-Finished base around config s h
      chosen-Finishes false ms s h = rest-Finishes ms s h

      decide :
          (again : Bool)
          → After
              (elim again [
                | true ↦ rest pending
                | false ↦ follow_ups around config >>= λ ms. elim (is_empty ms) [
                  | true ↦ finish around
                  | false ↦ rest ms
                ]
              ])
              s
              (λ _ s'. Finished base s')
      decide true = rest-Finishes pending s h
      decide false =
          bind-After (follow_ups around config) (λ ms. chosen (is_empty ms) ms) s
            (Books-Booked base (follow_ups around config) s
              (ask-Books config.get_follow_up_messages []) h)
            (λ ms s' h'. chosen-Finishes (is_empty ms) ms s' h')

  turns-Finishes :
      (fuel : ℕ) (first : Bool) (pending : List AgentMessage)
      → Finishes (turns around config stream fuel first pending)
  unfolding turns
  turns-Finishes zero first pending s h = record { leaves = λ a e. cc }
  turns-Finishes (suc fuel) first pending s h =
      bind-After (turn around config stream first pending)
        (proceed around config stream (turns around config stream fuel false)) s
        (turn-Exit base around config stream first pending s h)
        (λ t s' x.
          proceed-Finishes (turns around config stream fuel false) (turns-Finishes fuel false) t s'
            x)

  run_from-After :
      (fuel : ℕ) (context : LoopContext W) (prompts : List AgentMessage) (s : LoopState W)
      → Booked base s
      → After
          (run_from around config stream fuel context prompts)
          s
          (λ ms s'. (heard s'.run ≡ base ++ ms) × EndsWith s'.run.events ms)
  unfolding run_from run_loop steer
  run_from-After fuel context prompts s h =
      bind-After (report around agent_start)
        (λ _. report around turn_start >> (take_prompts around prompts >> ending)) s
        (Books-Booked base (report around agent_start) s (report-Books around agent_start refl) h)
        λ _ s1 h1.
          bind-After (report around turn_start) (λ _. take_prompts around prompts >> ending) s1
            (Books-Booked base (report around turn_start) s1 (report-Books around turn_start refl)
              h1)
            λ _ s2 h2.
              bind-After (take_prompts around prompts) (λ _. ending) s2
                (take_prompts-Booked base around prompts s2 h2)
                λ _ s3 h3.
                  bind-After (run_loop around config stream fuel) (λ _ s'. (ok s'.new_messages, s'))
                    s3
                    (bind-After (steer around config) (turns around config stream fuel true) s3
                      (Books-Booked base (steer around config) s3
                        (ask-Books config.get_steering_messages []) h3)
                      (λ pending s4 h4. turns-Finishes fuel true pending s4 h4))
                    λ _ s5 f. record {
                      leaves = λ ms e. (
                        f.0 ∙ ap (λ r. base ++ of r) e,
                        (f.1.0, f.1.1 ∙ ap (λ r. f.1.0 ++ agent_end (of r) ∷ []) e),
                      );
                    }
    where
      of : Result (List AgentMessage) → List AgentMessage
      of (ok ms) = ms
      of _ = []

      ending : Action (LoopState W) (List AgentMessage)
      ending = run_loop around config stream fuel >>= λ _ s'. (ok s'.new_messages, s')

module _ {W : Type 0} (around : Surroundings W) (config : Config W)
    (stream : Request W → W → Response × W) where
  -- A run that returns messages has reported exactly them as complete, in their order, on top of what
  -- was reported before, and its last event reports the end of the run with all of them. This holds for
  -- every event sink, provider, tool and hook, whatever fails or is cancelled on the way.
  pub run-EndsWith :
      (fuel : ℕ) (prompts : List AgentMessage) (context : LoopContext W) (s : Run W)
      (ms : List AgentMessage)
      → (run around config stream fuel prompts context s).0 ≡ ok ms
      → let s' = (run around config stream fuel prompts context s).1 in
        (heard s' ≡ heard s ++ ms) × EndsWith s'.events ms
  unfolding run start_state
  run-EndsWith fuel prompts context s ms e =
      (run_from-After (heard s) around config stream fuel context prompts
          (start_state around config stream context s) (sym (append-nil (heard s)))).leaves
        ms e

  -- A continued run that returns messages was given a context that does not end with a message of the
  -- assistant and is not empty; it has reported exactly the messages that it returns, on top of what
  -- was reported before, and its last event reports the end of the run with all of them.
  pub continue_run-EndsWith :
      (fuel : ℕ) (context : LoopContext W) (s : Run W) (ms : List AgentMessage)
      → (continue_run around config stream fuel context s).0 ≡ ok ms
      → let s' = (continue_run around config stream fuel context s).1 in
        (heard s' ≡ heard s ++ ms)
        × EndsWith s'.events ms
        × (ends_with_assistant context.messages ≡ false)
        × (is_empty context.messages ≡ false)
  unfolding continue_run
  continue_run-EndsWith fuel context s ms =
      decide (is_empty context.messages) (ends_with_assistant context.messages)
    where
      decide :
          (no_messages from_assistant : Bool)
          → let m =
              refuse no_messages from_assistant
                (run around config stream fuel [] (copied context)) in
            (m s).0 ≡ ok ms
            → (heard (m s).1 ≡ heard s ++ ms)
              × EndsWith (m s).1.events ms
              × (from_assistant ≡ false)
              × (no_messages ≡ false)
      decide true b e = cc
      decide false true e = cc
      decide false false e =
          let (h, l) = run-EndsWith fuel [] (copied context) s ms e in (h, l, refl, refl)
