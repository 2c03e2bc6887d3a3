-- ===== src/AgentLoop/Batch/Complete.antt =====
-- The running calls of a parallel batch complete, in any order, each at its own place.
use attention.Prelude.{ℕ, zero, suc, ◌≡◌, refl, sym, ap, ◌∙◌, subst, List, [], ◌∷◌}
use attention.Ai.Types.{ContentBlock, Message}
use attention.Session.Types.{ok}
use attention.Session.Storage.{pure, continue}
use attention.AgentLoop.Types.{
  tool_execution_update, Args, Event, ToolResult, Tool, LoopContext, ToolConfig, Surroundings,
}
use attention.AgentLoop.Tools.{Run, emit_end, emit, finalize, executed}
use attention.AgentLoop.Tools.Returns.{
  Returns, bind-Returns, emit-Returns, emit_end-Returns, finished-tool_call,
}
use attention.AgentLoop.Batch.{
  Slot, done, running, emit_buffered, finish_one, complete_at, complete_in, complete_rest,
  complete_all,
}
use attention.AgentLoop.Batch.Along.{Along, HasSlot, HasFinal}

module _ {W : Type 0} (around : Surroundings W) (context : LoopContext W) (m : Message)
    (config : ToolConfig W) (accepts : (e : Event) (w : W) → (around.sink e w).0 ≡ ok tt)
    (Stop : Type 0) where
  emit_buffered-Returns :
      (c : ContentBlock) (us : List ToolResult) (s : Run W)
      → Returns (emit_buffered around context m config c us) s (λ _. Unit {0})
  unfolding emit_buffered
  emit_buffered-Returns c [] s = (tt, refl, tt)
  emit_buffered-Returns c (u ∷ us) s =
      let e = tool_execution_update c.tool_call_id c.tool_name c.arguments u in
      bind-Returns (emit around e) (λ _. emit_buffered around context m config c us) s
        (emit-Returns around accepts e s) λ _ s' _. emit_buffered-Returns c us s'

  finish_one-done :
      (c : ContentBlock) (t : Tool W) (args : Args) (s : Run W)
      → let out = finish_one around context m config c t args (ok tt) s in
        (out.0.tool_call ≡ c) × (out.1 ≡ ok tt)
  unfolding finish_one
  finish_one-done c t args s =
      let (x, w) = t.execute c.tool_call_id args s.world in
      let (f, w') = finalize around context m config args (executed c x.outcome) w in
      let s' : Run W = record s { world = w' } in
      let (_, e, _) =
        bind-Returns {Q = λ _. Unit {0}} (emit_buffered around context m config c x.updates)
          (λ _. emit_end around f) s' (emit_buffered-Returns c x.updates s')
          (λ _ s'' _. emit_end-Returns around accepts f s'') in
      (finished-tool_call around context m config c x.outcome args w, e)

  complete_at-Along :
      (n : ℕ) (cs : List ContentBlock) (xs : List (Slot W)) (s : Run W)
      → Along HasSlot Stop cs xs
      → let out = complete_at around context m config n xs (ok tt) s in
        Along HasSlot Stop cs out.0 × (out.1 ≡ ok tt)
  unfolding complete_at
  complete_at-Along n cs [] s a = (a, refl)
  complete_at-Along n [] (x ∷ xs) s a = absurd a
  complete_at-Along zero (c ∷ cs) (done f ∷ xs) s a = (a, refl)
  complete_at-Along zero (c ∷ cs) (running d t args ∷ xs) s (h, a) =
      let (same, e) = finish_one-done d t args s in ((same ∙ h, a), e)
  complete_at-Along (suc n) (c ∷ cs) (x ∷ xs) s (h, a) =
      let (a', e) = complete_at-Along n cs xs s a in ((h, a'), e)

  complete_in-Along :
      (ns : List ℕ) (cs : List ContentBlock) (xs : List (Slot W)) (s : Run W)
      → Along HasSlot Stop cs xs
      → let out = complete_in around context m config ns xs (ok tt) s in
        Along HasSlot Stop cs out.0 × (out.1 ≡ ok tt)
  unfolding complete_in
  complete_in-Along [] cs xs s a = (a, refl)
  complete_in-Along (n ∷ ns) cs xs s a =
      let out = complete_at around context m config n xs (ok tt) s in
      let (a', e) = complete_at-Along n cs xs s a in
      subst
        (λ r.
          let fin = complete_in around context m config ns out.0 r out.2 in
          Along HasSlot Stop cs fin.0 × (fin.1 ≡ ok tt))
        (sym e) (complete_in-Along ns cs out.0 out.2 a')

  complete_rest-Along :
      (cs : List ContentBlock) (xs : List (Slot W)) (s : Run W)
      → Along HasSlot Stop cs xs
      → let out = complete_rest around context m config xs (ok tt) s in
        Along HasFinal Stop cs out.0 × (out.1 ≡ ok tt)
  unfolding complete_rest
  complete_rest-Along [] [] s a = (a, refl)
  complete_rest-Along (c ∷ cs) [] s a = (a, refl)
  complete_rest-Along [] (x ∷ xs) s a = absurd a
  complete_rest-Along (c ∷ cs) (done f ∷ xs) s (h, a) =
      let (a', e) = complete_rest-Along cs xs s a in ((h, a'), e)
  complete_rest-Along (c ∷ cs) (running d t args ∷ xs) s (h, a) =
      let out = finish_one around context m config d t args (ok tt) s in
      let (same, e) = finish_one-done d t args s in
      let (a', e') =
        subst
          (λ r.
            let fin = complete_rest around context m config xs r out.2 in
            Along HasFinal Stop cs fin.0 × (fin.1 ≡ ok tt))
          (sym e) (complete_rest-Along cs xs out.2 a) in
      ((same ∙ h, a'), e')

  pub complete_all-Returns :
      (cs : List ContentBlock) (xs : List (Slot W)) (s : Run W)
      → Along HasSlot Stop cs xs
      → Returns (complete_all around context m config xs) s (Along HasFinal Stop cs)
  unfolding complete_all
  complete_all-Returns cs xs s a =
      let order = around.completion_order s.world in
      let mid = complete_in around context m config order xs (ok tt) s in
      let (a', e) = complete_in-Along order cs xs s a in
      let (b, e') =
        subst
          (λ r.
            let fin = complete_rest around context m config mid.0 r mid.2 in
            Along HasFinal Stop cs fin.0 × (fin.1 ≡ ok tt))
          (sym e) (complete_rest-Along cs mid.0 mid.2 a') in
      let fin = complete_rest around context m config mid.0 mid.1 mid.2 in
      (fin.0, ap (λ q. (continue q (λ _. pure fin.0) fin.2).0) e', b)
