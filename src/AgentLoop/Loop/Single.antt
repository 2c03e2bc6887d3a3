-- ===== src/AgentLoop/Loop/Single.antt =====
-- A run of a provider that calls no tools.
use attention.Prelude.{
  ◌≡◌, refl, sym, ap, ◌∙◌, subst, ℕ, suc, String, Bool, true, false, List, [], ◌∷◌, ◌++◌, map,
}
use attention.Value.{Value}
use attention.Ai.Types.{Message, is_failed}
use attention.Ai.Transform.{Model, tool_calls}
use attention.Message.{AgentMessage, ai, snapshot}
use attention.Session.Types.{Result, ok}
use attention.Session.Storage.{Action, pure, ◌>>=◌, ◌>>◌}
use attention.Session.Storage.After.{Gives, bind-Gives}
use attention.AgentLoop.Types.{
  Event, agent_start, turn_start, turn_end, LoopContext, ToolConfig, Surroundings,
}
use attention.AgentLoop.Tools.{Run}
use attention.AgentLoop.Config.{Config, LoopState, Request, Response, report}
use attention.AgentLoop.Stream
use attention.AgentLoop.Stream.{
  stream_assistant_response, convert_by, transform, ask_key, request_of, make_request, call_stream,
  follow,
}
use attention.AgentLoop.Stream.Ended.{stream_assistant_response-After}
use attention.AgentLoop.Tools.Ended.{heard}
use attention.AgentLoop.Tools.Returns.{Returns}
use attention.AgentLoop.Stream.Final.{final_message, follow-final_message}
use attention.AgentLoop.Loop.{
  Turned, over, goes_on, start_turn, take_pending, is_empty, follow_ups, steer, conclude,
  prepare_next_turn, should_stop_after_turn, apply_update, note_reply, take_prompts, finish,
  after_reply, replied, run_tools, turn, proceed, turns, run_loop, start_state, run_from, run,
}
use attention.AgentLoop.Loop.Plain.{plain_config, Has, report-Has, take_prompts-Has, finish-Has}

module _ {W : Type 0} (around : Surroundings W)
    (accepts : (e : Event) (w : W) → (around.sink e w).0 ≡ ok tt) where
  -- The turn of a provider whose messages call no tools.
  module _ (model : Model) (level key : String) (settings : Value) (tools : ToolConfig W)
      (convert : List AgentMessage → W → Result (List Message) × W)
      (stream : Request W → W → Response × W)
      (converts : (ms : List AgentMessage) (w : W)
        → (llm : List Message) × ((convert ms w).0 ≡ ok llm))
      (answers : (r : Request W) (w : W)
        → (m : Message) × (final_message (stream r w).0.items (stream r w).0.result ≡ ok m)
          × (tool_calls m.content ≡ [])) where
    plain : Config W
    plain = plain_config model level key settings tools convert

    abbrev Quiet : Message → LoopState W → Type 0
    Quiet m s = tool_calls m.content ≡ []

    request-Gives : (s : LoopState W) → Gives (make_request around plain stream) s (λ _ _. Unit {0})
    unfolding make_request transform convert_by Stream.convert ask_key plain
    request-Gives s =
        bind-Gives (λ _ _. Unit {0}) (λ _ _. Unit {0})
          (Stream.convert around plain stream s.context.messages)
          (λ llm. ask_key around plain stream s.model.provider >>= λ key.
            pure (request_of around plain stream llm key s))
          s (let (llm, e) = converts s.context.messages s.run.world in (llm, e, tt))
          (λ llm s1 _. (_, refl, tt))

    -- The reply of the turn calls no tools.
    reply-Gives : (s : LoopState W) → Gives (stream_assistant_response around plain stream) s Quiet
    unfolding stream_assistant_response call_stream
    reply-Gives s =
        bind-Gives (λ _ _. Unit {0}) Quiet (make_request around plain stream)
          (λ request. call_stream around plain stream request >>= λ response.
            follow around response response.items false)
          s (request-Gives s)
          λ request s1 _.
            let (m, e, q) = answers request s1.run.world in
            let response = (stream request s1.run.world).0 in
            (m, follow-final_message around accepts response response.items false _ ∙ e, q)

    reply-Has :
        (ms : List AgentMessage) (s : LoopState W)
        → s.new_messages ≡ ms
        → Gives
            (stream_assistant_response around plain stream)
            s
            (λ m s'. Quiet m s' × (s'.new_messages ≡ ms))
    reply-Has ms s h =
        let (m, e, q) = reply-Gives s in
        let books =
          stream_assistant_response-After around (heard s.run) ms plain stream s (refl, h) in
        let (_, k) = books.leaves m e in (m, e, (q, k))

    -- The turn is the last one.
    abbrev Stops : List AgentMessage → Turned → LoopState W → Type 0
    Stops ms over s = s.new_messages ≡ ms
    Stops ms (goes_on more pending) s = (more ≡ false) × ((pending ≡ []) × (s.new_messages ≡ ms))

    replied-Stops :
        (m : Message) (ms : List AgentMessage) (s : LoopState W)
        → Quiet m s
        → s.new_messages ≡ ms
        → Gives (replied around plain m) s (Stops ms)
    unfolding replied run_tools prepare_next_turn should_stop_after_turn conclude steer apply_update
        plain
    replied-Stops m ms s q h =
        subst (λ cs. Gives (run_tools around plain m cs >>= body) s (Stops ms)) (sym q)
          (bind-Gives (Has ms) (Stops ms)
            (report around (turn_end m []) >> prepare_next_turn around plain m [])
            (λ _. should_stop_after_turn around plain m [] >>= conclude around plain false) s
            (bind-Gives (Has ms) (Has ms) (report around (turn_end m []))
              (λ _. prepare_next_turn around plain m []) s
              (report-Has around accepts (turn_end m []) ms s h) (λ _ s' h'. (tt, refl, h')))
            (λ _ s' h'. (goes_on false [], refl, (refl, (refl, h')))))
      where
        body : List Message × Bool → Action (LoopState W) Turned
        body x =
            report around (turn_end m x.0)
            >> prepare_next_turn around plain m x.0
            >> (should_stop_after_turn around plain m x.0 >>= conclude around plain x.1)

    after_reply-Stops :
        (m : Message) (ms : List AgentMessage) (s : LoopState W)
        → Quiet m s
        → s.new_messages ≡ ms
        → Gives (after_reply around plain m) s (Stops ms)
    unfolding after_reply
    after_reply-Stops m ms s q h = decide (is_failed m.stop_reason)
      where
        decide :
            (failed : Bool)
            → Gives
                (elim failed [
                  | true ↦ report around (turn_end m []) >> (finish around >> pure over)
                  | false ↦ replied around plain m
                ])
                s
                (Stops ms)
        decide true =
            bind-Gives (Has ms) (Stops ms) (report around (turn_end m []))
              (λ _. finish around >> pure over) s (report-Has around accepts (turn_end m []) ms s h)
              λ _ s1 h1.
                bind-Gives (Has ms) (Stops ms) (finish around) (λ _. pure over) s1
                  (finish-Has around accepts ms s1 h1) (λ _ s2 h2. (over, refl, h2))
        decide false = replied-Stops m ms s q h

    proceed-Has :
        (rest : List AgentMessage → Action (LoopState W) (Unit {0})) (t : Turned)
        (ms : List AgentMessage) (s : LoopState W)
        → Stops ms t s
        → Gives (proceed around plain stream rest t) s (Has ms)
    unfolding proceed follow_ups is_empty plain
    proceed-Has rest over ms s h = (tt, refl, h)
    proceed-Has rest (goes_on false []) ms s (a, (b, h)) = finish-Has around accepts ms s h
    proceed-Has rest (goes_on false (p ∷ ps)) ms s (a, (b, h)) = cc
    proceed-Has rest (goes_on true pending) ms s (a, b) = cc

    -- The messages `ms`, and a reply that calls no tools.
    abbrev Extended : List AgentMessage → List AgentMessage → Type 0
    Extended ms all = (m : Message) × ((all ≡ ms ++ ai m ∷ []) × (tool_calls m.content ≡ []))

    turns-Extended :
        (fuel : ℕ) (ms : List AgentMessage) (s : LoopState W)
        → s.new_messages ≡ ms
        → Gives
            (turns around plain stream (suc fuel) true [])
            s
            (λ _ s'. Extended ms s'.new_messages)
    unfolding turns turn start_turn take_pending note_reply
    turns-Extended fuel ms s h =
        let rest = proceed around plain stream (turns around plain stream fuel false) in
        bind-Gives
          (λ t s'. (m : Message) × ((tool_calls m.content ≡ []) × Stops (ms ++ ai m ∷ []) t s'))
          (λ _ s'. Extended ms s'.new_messages) (turn around plain stream true []) rest s
          (bind-Gives (λ m s'. Quiet m s' × (s'.new_messages ≡ ms))
            (λ t s'. (m : Message) × ((tool_calls m.content ≡ []) × Stops (ms ++ ai m ∷ []) t s'))
            (stream_assistant_response around plain stream)
            (λ m. note_reply m >> after_reply around plain m) s (reply-Has ms s h)
            λ m s1 p.
              let (t, e, x) =
                after_reply-Stops m (ms ++ ai m ∷ []) (note_reply m s1).1 p.0
                  (ap (λ n. n ++ ai m ∷ []) p.1) in
              (t, e, (m, (p.0, x))))
          λ t s2 x.
            let (u, e, k) =
              proceed-Has (turns around plain stream fuel false) t (ms ++ ai x.0 ∷ []) s2 x.1.1 in
            (u, e, (x.0, (k, x.1.0)))

    ending : ℕ → Action (LoopState W) (List AgentMessage)
    ending fuel = run_loop around plain stream fuel >>= λ _ s'. (ok s'.new_messages, s')

    run_from-Extended :
        (fuel : ℕ) (context : LoopContext W) (prompts : List AgentMessage) (s : LoopState W)
        → s.new_messages ≡ []
        → Gives
            (run_from around plain stream (suc fuel) context prompts)
            s
            (λ all _. Extended (map snapshot prompts) all)
    unfolding run_from ending run_loop steer plain
    run_from-Extended fuel context prompts s h =
        let ms = map snapshot prompts in
        bind-Gives (Has []) (λ all _. Extended ms all) (report around agent_start)
          (λ _. report around turn_start >> (take_prompts around prompts >> ending (suc fuel))) s
          (report-Has around accepts agent_start [] s h)
          λ _ s1 h1.
            bind-Gives (Has []) (λ all _. Extended ms all) (report around turn_start)
              (λ _. take_prompts around prompts >> ending (suc fuel)) s1
              (report-Has around accepts turn_start [] s1 h1)
              λ _ s2 h2.
                bind-Gives (Has ms) (λ all _. Extended ms all) (take_prompts around prompts)
                  (λ _. ending (suc fuel)) s2 (take_prompts-Has around accepts prompts [] s2 h2)
                  λ _ s3 h3.
                    bind-Gives (λ _ s'. Extended ms s'.new_messages) (λ all _. Extended ms all)
                      (turns around plain stream (suc fuel) true [])
                      (λ _ s'. (ok s'.new_messages, s')) s3 (turns-Extended fuel ms s3 h3)
                      (λ _ s4 x. (s4.new_messages, refl, x))

    -- Where the sink accepts every event, the conversion for the provider succeeds, there are no other
    -- callbacks, and every response of the provider yields a message that calls no tools, a run ends in
    -- one turn: with any fuel but none it returns the prompts, and then one such message.
    pub run-Extended :
        (fuel : ℕ) (prompts : List AgentMessage) (context : LoopContext W) (s : Run W)
        → Returns
            (run around
              (plain_config model level key settings tools convert)
              stream
              (suc fuel)
              prompts
              context)
            s
            (λ all.
              (m : Message) × ((all ≡ map snapshot prompts ++ ai m ∷ [])
                × (tool_calls m.content ≡ [])))
    unfolding run start_state plain
    run-Extended fuel prompts context s =
        run_from-Extended fuel context prompts (start_state around plain stream context s) refl
