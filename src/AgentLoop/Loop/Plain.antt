-- ===== src/AgentLoop/Loop/Plain.antt =====
-- A configuration with few callbacks, and the new messages across what a run reports.
use attention.Prelude.{
  ◌≡◌, refl, sym, ap, ◌∙◌, subst, String, List, [], ◌∷◌, ◌++◌, map, none, some, append_assoc,
  append-nil,
}
use attention.Value.{Value}
use attention.Ai.Types.{Message}
use attention.Ai.Transform.{Model}
use attention.Message.{AgentMessage, snapshot}
use attention.Session.Types.{Result, ok}
use attention.Session.Storage.{◌>>◌}
use attention.Session.Storage.After.{Gives, bind-Gives}
use attention.AgentLoop.Types.{
  Event, agent_end, message_start, message_end, ToolConfig, Surroundings,
}
use attention.AgentLoop.Tools.{emit}
use attention.AgentLoop.Config.{Config, LoopState, report}
use attention.AgentLoop.Loop.{append_messages, report_message, take_prompts, finish}

-- A configuration with no callbacks but the conversion.
abbrev pub plain_config :
    {W : Type 0}
    → Model
    → (thinking_level api_key : String) → Value
    → ToolConfig W
    → (List AgentMessage → W → Result (List Message) × W)
    → Config W
plain_config model level key settings tools convert = record {
  model = model;
  thinking_level = level;
  api_key = key;
  settings = settings;
  tool_calls = tools;
  convert_to_llm = some convert;
  transform_context = none;
  get_api_key = none;
  should_stop_after_turn = none;
  prepare_next_turn = none;
  get_steering_messages = none;
  get_follow_up_messages = none;
}

-- The new messages are these.
abbrev pub Has : {W A : Type 0} → List AgentMessage → A → LoopState W → Type 0
Has ms a s = s.new_messages ≡ ms

module _ {W : Type 0} (around : Surroundings W)
    (accepts : (e : Event) (w : W) → (around.sink e w).0 ≡ ok tt) where
  pub report-Has :
      (e : Event) (ms : List AgentMessage) (s : LoopState W)
      → s.new_messages ≡ ms
      → Gives (report around e) s (Has ms)
  unfolding emit
  report-Has e ms s h = (tt, accepts e s.run.world, h)

  pub take_prompts-Has :
      (ps ms : List AgentMessage) (s : LoopState W)
      → s.new_messages ≡ ms
      → Gives (take_prompts around ps) s (Has (ms ++ map snapshot ps))
  unfolding take_prompts append_messages report_message
  take_prompts-Has [] ms s h = (tt, refl, h ∙ sym (append-nil ms))
  take_prompts-Has (p ∷ ps) ms s h =
      let x = snapshot p in
      let s1 = (append_messages (x ∷ []) s).1 in
      bind-Gives (Has (ms ++ x ∷ [])) (Has (ms ++ x ∷ map snapshot ps))
        (append_messages (x ∷ [])
          >> (report around (message_start x) >> report around (message_end x)))
        (λ _. take_prompts around ps) s
        (bind-Gives (Has (ms ++ x ∷ [])) (Has (ms ++ x ∷ [])) (report around (message_start x))
          (λ _. report around (message_end x)) s1
          (report-Has (message_start x) (ms ++ x ∷ []) s1 (ap (λ n. n ++ x ∷ []) h))
          (λ _ s2 h2. report-Has (message_end x) (ms ++ x ∷ []) s2 h2))
        λ _ s3 h3.
          subst (λ n. Gives (take_prompts around ps) s3 (Has n))
            (append_assoc ms (x ∷ []) (map snapshot ps)) (take_prompts-Has ps (ms ++ x ∷ []) s3 h3)

  pub finish-Has :
      (ms : List AgentMessage) (s : LoopState W)
      → s.new_messages ≡ ms
      → Gives (finish around) s (Has ms)
  unfolding finish
  finish-Has ms s h = report-Has (agent_end s.new_messages) ms s h
