-- ===== src/AgentLoop/Batch/Answers.antt =====
-- The results of a batch, one for each call and in the order of the calls.
use attention.Prelude.{
  ◌≡◌, refl, ap, ◌∙◌, subst, true, List, [], ◌∷◌, ◌||◌, Bool-cases, inl, inr, if◌then◌else◌,
}
use attention.Ai.Types.{ContentBlock, Message}
use attention.Ai.Transform.{tool_calls}
use attention.Session.Types.{ok}
use attention.Session.Storage.{Action, pure, continue, ◌>>=◌, ◌>>◌}
use attention.AgentLoop.Types.{tool_execution_start, Event, LoopContext, ToolConfig, Surroundings}
use attention.AgentLoop.Tools.{
  Run, Finalized, Prepared, immediate, prepared, prepare_tool_call, emit_end, emit_result,
  run_prepared,
}
use attention.AgentLoop.Tools.Returns.{
  Returns, bind-Returns, Gave, IsReply, call_of, emit-Returns, emit_end-Returns,
  emit_result-Returns, prepare_tool_call-call_of, run_prepared-Returns,
}
use attention.AgentLoop.Batch.{
  Slot, Batch, reply_to, run_call, prepare, done, running, batch_of, has_sequential, emit_start,
  call_once, call_each, open_slot, start_once, start_each, complete_all, emit_results,
  execute_tool_calls,
}
use attention.AgentLoop.Batch.Complete.{complete_all-Returns}
use attention.AgentLoop.Batch.Along.{
  Along, IsStopped, HasSlot, HasFinal, HasReply, Along-map, each-Returns,
}

module _ {W : Type 0} (around : Surroundings W) (context : LoopContext W) (m : Message)
    (config : ToolConfig W) (accepts : (e : Event) (w : W) → (around.sink e w).0 ≡ ok tt) where
  emit_start-Returns :
      (c : ContentBlock) (s : Run W)
      → Returns (emit_start around context m config c) s (λ _. Unit {0})
  unfolding emit_start
  emit_start-Returns c s =
      emit-Returns around accepts (tool_execution_start c.tool_call_id c.tool_name c.arguments) s

  -- An action on the prepared call, behind the start event.
  started-Returns :
      {A : Type 0} {Q : A → Type 0} (f : Prepared W → Action (Run W) A) (c : ContentBlock)
      (s : Run W)
      → ((p : Prepared W) (s' : Run W) → call_of p ≡ c → Returns (f p) s' Q)
      → Returns
          (emit_start around context m config c >> (prepare around context m config c >>= f))
          s
          Q
  unfolding prepare
  started-Returns f c s k =
      bind-Returns (emit_start around context m config c)
        (λ _. prepare around context m config c >>= f) s (emit_start-Returns c s)
        λ _ s' _.
          k (prepare_tool_call around context m c config s'.world).0 _
            (prepare_tool_call-call_of around context m config c s'.world)

  reply_to-Returns :
      (f : Finalized) (s : Run W)
      → Returns (reply_to around context m config f) s (HasReply f.tool_call)
  unfolding reply_to
  reply_to-Returns f s =
      bind-Returns (emit_end around f) (λ _. emit_result around f >>= λ msg. pure (f, msg)) s
        (emit_end-Returns around accepts f s)
        λ _ s' _.
          bind-Returns (emit_result around f) (λ msg. pure (f, msg)) s'
            (emit_result-Returns around accepts f s') λ msg s'' r. ((f, msg), refl, r)

  call_once-Returns :
      (c : ContentBlock) (s : Run W) → Returns (call_once around context m config c) s (HasReply c)
  unfolding call_once run_call
  call_once-Returns c s = started-Returns (run_call around context m config) c s λ p s1 same.
      bind-Returns (run_prepared around context m config p) (reply_to around context m config) s1
        (run_prepared-Returns around context m config accepts p s1)
        λ f s2 h.
          subst (λ x. Returns (reply_to around context m config f) s2 (HasReply x)) (h ∙ same)
            (reply_to-Returns f s2)

  call_each-Returns :
      (cs : List ContentBlock) (s : Run W)
      → Gave
          (call_each around context m config cs s)
          (λ xs s'. Along HasReply (IsStopped around s') cs xs)
  unfolding call_each
  call_each-Returns [] s = ([], refl, tt)
  call_each-Returns (c ∷ cs) s =
      each-Returns around HasReply (call_once around context m config) call_once-Returns c cs
        (call_each around context m config cs) (call_each-Returns cs) s

  open_slot-Returns :
      (p : Prepared W) (s : Run W)
      → Returns (open_slot around context m config p) s (HasSlot (call_of p))
  unfolding open_slot
  open_slot-Returns (immediate c r) s =
      let f : Finalized = record { tool_call = c; result = r; is_error = true } in
      bind-Returns (emit_end around f) (λ _. pure (done f)) s (emit_end-Returns around accepts f s)
        λ _ s' _. (done f, refl, refl)
  open_slot-Returns (prepared c t args) s = (running c t args, refl, refl)

  start_once-Returns :
      (c : ContentBlock) (s : Run W) → Returns (start_once around context m config c) s (HasSlot c)
  unfolding start_once
  start_once-Returns c s = started-Returns (open_slot around context m config) c s λ p s' same.
      subst (λ x. Returns (open_slot around context m config p) s' (HasSlot x)) same
        (open_slot-Returns p s')

  start_each-Returns :
      (cs : List ContentBlock) (s : Run W)
      → Gave
          (start_each around context m config cs s)
          (λ xs s'. Along HasSlot (IsStopped around s') cs xs)
  unfolding start_each
  start_each-Returns [] s = ([], refl, tt)
  start_each-Returns (c ∷ cs) s =
      each-Returns around HasSlot (start_once around context m config) start_once-Returns c cs
        (start_each around context m config cs) (start_each-Returns cs) s

  emit_results-Returns :
      (Stop : Type 0) (cs : List ContentBlock) (fs : List Finalized) (s : Run W)
      → Along HasFinal Stop cs fs
      → Returns (emit_results around context m config fs) s (Along HasReply Stop cs)
  unfolding emit_results
  emit_results-Returns Stop [] [] s a = ([], refl, a)
  emit_results-Returns Stop (c ∷ cs) [] s a = ([], refl, a)
  emit_results-Returns Stop [] (f ∷ fs) s a = absurd a
  emit_results-Returns Stop (c ∷ cs) (f ∷ fs) s (h, a) =
      bind-Returns (emit_result around f)
        (λ msg. emit_results around context m config fs >>= λ rest. pure ((f, msg) ∷ rest)) s
        (emit_result-Returns around accepts f s)
        λ msg s' r.
          bind-Returns (emit_results around context m config fs) (λ rest. pure ((f, msg) ∷ rest)) s'
            (emit_results-Returns Stop cs fs s' a)
            λ rest s'' b. ((f, msg) ∷ rest, refl, (subst (λ x. IsReply x msg) h r, b))

  -- The state that the loop which starts the calls of a message leaves; in the sequential mode it also
  -- runs them.
  abbrev pub behind_calls : Run W → Run W
  behind_calls s =
      if config.is_sequential || has_sequential context.tools (tool_calls m.content)
      then (call_each around context m config (tool_calls m.content) s).1
      else (start_each around context m config (tool_calls m.content) s).1

  -- Where the event sink never fails, the tool calls of a message return a batch, in the sequential
  -- and in the parallel mode and for every order of completion: its messages are tool results that
  -- answer the calls one for one and in their order, by id and tool name. They end before the calls
  -- do only if the context is cancelled in the state in which the loop that starts the calls ends.
  pub execute_tool_calls-Along :
      (s : Run W)
      → Returns
          (execute_tool_calls around context m config)
          s
          (λ b. Along IsReply (IsStopped around (behind_calls s)) (tool_calls m.content) b.messages)
  unfolding execute_tool_calls batch_of
  execute_tool_calls-Along s =
      elim (Bool-cases (config.is_sequential || has_sequential context.tools calls)) [
        | inl alone ↦ rw alone (
            let (xs, e, a) = call_each-Returns calls s in
            let s' = (call_each around context m config calls s).1 in
            (
              batch_of xs,
              ap (λ r. (continue r (λ ys. pure (batch_of ys)) s').0) e,
              Along-map (IsStopped around s') calls xs a,
            ))
        | inr together ↦ rw together (
            let (slots, e, a) = start_each-Returns calls s in
            let s' = (start_each around context m config calls s).1 in
            let (b, e', r) = completed (IsStopped around s') slots s' a in
            (b, ap (λ q. (continue q finish s').0) e ∙ e', r))
      ]
    where
      calls : List ContentBlock
      calls = tool_calls m.content

      finish : List (Slot W) → Action (Run W) Batch
      finish slots = complete_all around context m config slots >>= λ fs.
          emit_results around context m config fs >>= λ xs. pure (batch_of xs)

      completed :
          (Stop : Type 0) (slots : List (Slot W)) (s : Run W)
          → Along HasSlot Stop calls slots
          → Returns (finish slots) s (λ b. Along IsReply Stop calls b.messages)
      completed Stop slots s a =
          bind-Returns (complete_all around context m config slots)
            (λ fs. emit_results around context m config fs >>= λ xs. pure (batch_of xs)) s
            (complete_all-Returns around context m config accepts Stop calls slots s a)
            λ fs s' b.
              bind-Returns (emit_results around context m config fs) (λ xs. pure (batch_of xs)) s'
                (emit_results-Returns Stop calls fs s' b)
                λ xs s'' c. (batch_of xs, refl, Along-map Stop calls xs c)
