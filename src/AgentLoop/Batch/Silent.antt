-- ===== src/AgentLoop/Batch/Silent.antt =====
-- The parts of a batch that report no message: what starts calls, and what completes them.
use attention.Prelude.{◌≡◌, refl, ◌∙◌, ℕ, zero, suc, Bool, true, false, List, [], ◌∷◌}
use attention.Ai.Types.{ContentBlock, Message}
use attention.Session.Types.{Result, ok}
use attention.Session.Storage.{pure, ◌>>=◌}
use attention.AgentLoop.Types.{
  Args, ToolResult, Tool, LoopContext, ToolConfig, Surroundings, tool_execution_start,
  tool_execution_update,
}
use attention.AgentLoop.Tools.{Run, Prepared, immediate, prepared, emit, emit_end}
use attention.AgentLoop.Tools.Ended.{
  heard, Silent, pure-Silent, continue-keeps, bind-Silent, emit-Silent, emit_end-Silent,
}
use attention.AgentLoop.Batch.{
  Slot, done, running, emit_start, prepare, open_slot, start_once, start_each, emit_buffered,
  finish_one, complete_at, complete_in, complete_rest, complete_all,
}

module _ {W : Type 0} (around : Surroundings W) (context : LoopContext W) (m : Message)
    (config : ToolConfig W) where
  pub emit_start-Silent : (c : ContentBlock) → Silent (emit_start around context m config c)
  unfolding emit_start
  emit_start-Silent c =
      emit-Silent around (tool_execution_start c.tool_call_id c.tool_name c.arguments) refl

  pub prepare-Silent : (c : ContentBlock) → Silent (prepare around context m config c)
  unfolding prepare
  prepare-Silent c = record { keeps = λ s. refl }

  emit_buffered-Silent :
      (c : ContentBlock) (us : List ToolResult)
      → Silent (emit_buffered around context m config c us)
  unfolding emit_buffered
  emit_buffered-Silent c [] = pure-Silent _
  emit_buffered-Silent c (u ∷ us) =
      bind-Silent (emit around (tool_execution_update c.tool_call_id c.tool_name c.arguments u))
        (λ _. emit_buffered around context m config c us) (emit-Silent around _ refl)
        (λ _. emit_buffered-Silent c us)

  heard-finish_one :
      (c : ContentBlock) (t : Tool W) (args : Args) (first : Result (Unit {0})) (s : Run W)
      → heard (finish_one around context m config c t args first s).2 ≡ heard s
  unfolding finish_one
  heard-finish_one c t args first s = continue-keeps first _ _ λ _.
      bind-Silent (emit_buffered around context m config c _) (λ _. emit_end around _)
        (emit_buffered-Silent c _) (λ _. emit_end-Silent around _)

  heard-complete_at :
      (n : ℕ) (xs : List (Slot W)) (first : Result (Unit {0})) (s : Run W)
      → heard (complete_at around context m config n xs first s).2 ≡ heard s
  unfolding complete_at
  heard-complete_at n [] first s = refl
  heard-complete_at zero (done f ∷ xs) first s = refl
  heard-complete_at zero (running c t args ∷ xs) first s = heard-finish_one c t args first s
  heard-complete_at (suc n) (x ∷ xs) first s = heard-complete_at n xs first s

  heard-complete_in :
      (ns : List ℕ) (xs : List (Slot W)) (first : Result (Unit {0})) (s : Run W)
      → heard (complete_in around context m config ns xs first s).2 ≡ heard s
  unfolding complete_in
  heard-complete_in [] xs first s = refl
  heard-complete_in (n ∷ ns) xs first s =
      heard-complete_in ns _ _ _ ∙ heard-complete_at n xs first s

  heard-complete_rest :
      (xs : List (Slot W)) (first : Result (Unit {0})) (s : Run W)
      → heard (complete_rest around context m config xs first s).2 ≡ heard s
  unfolding complete_rest
  heard-complete_rest [] first s = refl
  heard-complete_rest (done f ∷ xs) first s = heard-complete_rest xs first s
  heard-complete_rest (running c t args ∷ xs) first s =
      heard-complete_rest xs _ _ ∙ heard-finish_one c t args first s

  pub complete_all-Silent : (xs : List (Slot W)) → Silent (complete_all around context m config xs)
  unfolding complete_all
  complete_all-Silent xs = record {
    keeps = λ s.
        let mid =
          complete_in around context m config (around.completion_order s.world) xs (ok tt) s in
        let fin = complete_rest around context m config mid.0 mid.1 mid.2 in
        continue-keeps fin.1 (λ _. pure fin.0) fin.2 (λ _. pure-Silent _)
        ∙ (heard-complete_rest mid.0 mid.1 mid.2
            ∙ heard-complete_in (around.completion_order s.world) xs (ok tt) s);
  }

  open_slot-Silent : (p : Prepared W) → Silent (open_slot around context m config p)
  unfolding open_slot
  open_slot-Silent (immediate c r) =
      bind-Silent (emit_end around _) _ (emit_end-Silent around _) (λ _. pure-Silent _)
  open_slot-Silent (prepared c t args) = pure-Silent _

  start_once-Silent : (c : ContentBlock) → Silent (start_once around context m config c)
  unfolding start_once
  start_once-Silent c =
      bind-Silent (emit_start around context m config c) _ (emit_start-Silent c)
        λ _. bind-Silent (prepare around context m config c) _ (prepare-Silent c) open_slot-Silent

  pub start_each-Silent : (cs : List ContentBlock) → Silent (start_each around context m config cs)
  unfolding start_each
  start_each-Silent [] = pure-Silent _
  start_each-Silent (c ∷ cs) =
      bind-Silent (start_once around context m config c) _ (start_once-Silent c)
        λ x. record { keeps = λ s. decide x s (start_each-Silent cs) (around.is_cancelled s.world) }
    where
      decide :
          (x : Slot W) (s : Run W)
          → Silent (start_each around context m config cs)
          → (b : Bool)
          → let out : Result (List (Slot W)) × Run W = elim b [
            | true ↦ (ok (x ∷ []), s)
            | false ↦ (start_each around context m config cs >>= λ xs. pure (x ∷ xs)) s
          ] in
            heard out.1 ≡ heard s
      decide x s q true = refl
      decide x s q false =
          (bind-Silent (start_each around context m config cs) _ q (λ xs. pure-Silent _)).keeps s
