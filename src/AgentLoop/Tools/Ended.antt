-- ===== src/AgentLoop/Tools/Ended.antt =====
-- The messages that a run has reported as complete, and what the pieces of a tool call report.
use attention.Prelude.{◌≡◌, refl, sym, ap, ◌∙◌, List, [], ◌∷◌, ◌++◌, append_assoc, append-nil}
use attention.Ai.Types.{ContentBlock, Message}
use attention.Message.{AgentMessage, ai}
use attention.Session.Types.{Result, ok, err, diverges, panics}
use attention.Session.Storage.{Action, pure, continue, ◌>>=◌}
use attention.Session.Storage.After.{After, bind-After, always-After}
use attention.AgentLoop.Types.{
  Event, message_start, message_end, tool_execution_end, tool_execution_update, ToolResult,
  LoopContext, ToolConfig, Surroundings,
}
use attention.AgentLoop.Tools.{
  Run, Finalized, Prepared, immediate, prepared, emit, emit_updates, run_prepared, result_message,
  emit_end, emit_result,
}

-- The message of a `message_end` event.
abbrev pub ended_by : Event → List AgentMessage
ended_by (message_end m) = m ∷ []
ended_by _ = []

abbrev pub ended : List Event → List AgentMessage
ended [] = []
ended (e ∷ es) = ended_by e ++ ended es

pub ended-append : (es fs : List Event) → ended (es ++ fs) ≡ ended es ++ ended fs
ended-append [] fs = refl
ended-append (e ∷ es) fs =
    ap (λ ms. ended_by e ++ ms) (ended-append es fs)
    ∙ sym (append_assoc (ended_by e) (ended es) (ended fs))

abbrev pub heard : {W : Type 0} → Run W → List AgentMessage
heard s = ended s.events

-- The action reports no message as complete.
pub record Silent {W A : Type 0} (m : Action (Run W) A) : Type 0 where
  pub keeps : (s : Run W) → heard (m s).1 ≡ heard s

module _ {W : Type 0} where
  pub pure-Silent : {A : Type 0} (f : Run W → Result A) → Silent (λ s. (f s, s))
  pure-Silent f = record { keeps = λ s. refl }

  pub continue-keeps :
      {A B : Type 0} (r : Result A) (f : A → Action (Run W) B) (s : Run W)
      → ((a : A) → Silent (f a))
      → heard (continue r f s).1 ≡ heard s
  continue-keeps (ok a) f s k = (k a).keeps s
  continue-keeps (err e) f s k = refl
  continue-keeps diverges f s k = refl
  continue-keeps panics f s k = refl

  pub bind-Silent :
      {A B : Type 0} (m : Action (Run W) A) (f : A → Action (Run W) B)
      → Silent m
      → ((a : A) → Silent (f a))
      → Silent (m >>= f)
  bind-Silent m f q k = record { keeps = λ s. continue-keeps (m s).0 f (m s).1 k ∙ q.keeps s }

  pub Silent-After :
      {A : Type 0} (m : Action (Run W) A) (s : Run W)
      → Silent m
      → After m s (λ _ s'. heard s' ≡ heard s)
  Silent-After m s q = always-After m s (λ _. q.keeps s)

module _ {W : Type 0} (around : Surroundings W) where
  pub heard-emit : (e : Event) (s : Run W) → heard (emit around e s).1 ≡ heard s ++ ended_by e
  unfolding emit
  heard-emit e s =
      ended-append s.events (e ∷ []) ∙ ap (λ ms. ended s.events ++ ms) (append-nil (ended_by e))

  pub emit-Silent : (e : Event) → ended_by e ≡ [] → Silent (emit around e)
  emit-Silent e h = record {
    keeps = λ s. heard-emit e s ∙ (ap (λ ms. ended s.events ++ ms) h ∙ append-nil (ended s.events));
  }

  heard-emit_updates :
      (c : ContentBlock) (us : List ToolResult) (r : Result (Unit {0})) (s : Run W)
      → heard (emit_updates around c us r s).1 ≡ heard s
  unfolding emit_updates
  heard-emit_updates c [] r s = refl
  heard-emit_updates c (u ∷ us) r s =
      let e = tool_execution_update c.tool_call_id c.tool_name c.arguments u in
      heard-emit_updates c us _ (emit around e s).1 ∙ (emit-Silent e refl).keeps s

  pub emit_end-Silent : (f : Finalized) → Silent (emit_end around f)
  unfolding emit_end
  emit_end-Silent f =
      emit-Silent
        (tool_execution_end f.tool_call.tool_call_id f.tool_call.tool_name f.result f.is_error) refl

  pub run_prepared-Silent :
      (context : LoopContext W) (m : Message) (config : ToolConfig W) (p : Prepared W)
      → Silent (run_prepared around context m config p)
  unfolding run_prepared
  run_prepared-Silent context m config (immediate c r) = pure-Silent _
  run_prepared-Silent context m config (prepared c t args) = record {
    keeps = λ s.
        let (x, w) = t.execute c.tool_call_id args s.world in
        let s' : Run W = record s { world = w } in
        continue-keeps (emit_updates around c x.updates (ok tt) s').0 _ _
          (λ _. record { keeps = λ s''. refl })
        ∙ heard-emit_updates c x.updates (ok tt) s';
  }

  -- The message of a tool result is reported.
  pub emit_result-After :
      (f : Finalized) (s : Run W)
      → After (emit_result around f) s (λ m s'. heard s' ≡ heard s ++ ai m ∷ [])
  unfolding emit_result
  emit_result-After f s =
      let msg = result_message around f s.world in
      let said =
        bind-After (emit around (message_start (ai msg))) _ s
          (Silent-After (emit around (message_start (ai msg))) s (emit-Silent _ refl))
          λ _ s' h.
            bind-After {Q = λ m s''. heard s'' ≡ heard s ++ ai m ∷ []}
              (emit around (message_end (ai msg))) (λ _. pure msg) s'
              (always-After {Q = λ _ s''. heard s'' ≡ heard s' ++ ai msg ∷ []}
                (emit around (message_end (ai msg))) s' (λ _. heard-emit (message_end (ai msg)) s'))
              λ _ s'' h'. record { leaves = λ m e. cc } in
      record { leaves = said.leaves }
