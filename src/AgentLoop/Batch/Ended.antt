-- ===== src/AgentLoop/Batch/Ended.antt =====
-- The tool calls of a message report the messages of their results, and no others.
use attention.Prelude.{
  ◌≡◌, sym, ap, ◌∙◌, Bool, true, false, List, [], ◌∷◌, ◌++◌, map, append_assoc, append-nil, ◌||◌,
  Bool-cases, inl, inr,
}
use attention.Ai.Types.{ContentBlock, Message}
use attention.Ai.Transform.{tool_calls}
use attention.Message.{AgentMessage, ai}
use attention.Session.Types.{Result, ok}
use attention.Session.Storage.{Action, pure, ◌>>=◌}
use attention.Session.Storage.After.{After, bind-After}
use attention.AgentLoop.Types.{LoopContext, ToolConfig, Surroundings}
use attention.AgentLoop.Tools.{Run, Finalized, Batch, run_prepared, emit_end, emit_result}
use attention.AgentLoop.Tools.Ended.{
  heard, Silent-After, emit_end-Silent, run_prepared-Silent, emit_result-After,
}
use attention.AgentLoop.Batch.{
  batch_of, has_sequential, emit_start, reply_to, run_call, prepare, call_once, call_each,
  start_each, complete_all, emit_results, execute_tool_calls,
}
use attention.AgentLoop.Batch.Silent.{
  emit_start-Silent, prepare-Silent, start_each-Silent, complete_all-Silent,
}

-- The messages of the replies.
abbrev replies : List (Finalized × Message) → List AgentMessage
replies xs = map ai (map (λ x. x.1) xs)

-- What a result says was reported.
abbrev reported : Result (List (Finalized × Message)) → List AgentMessage
reported (ok xs) = replies xs
reported _ = []

-- The action returns replies, and what it reports are their messages.
abbrev Reports : {W : Type 0} → Action (Run W) (List (Finalized × Message)) → Run W → Type 0
Reports m s = After m s (λ xs s'. heard s' ≡ heard s ++ replies xs)

-- One more reply in front.
cons-heard :
    (a b c ms : List AgentMessage) (x : AgentMessage)
    → b ≡ a ++ x ∷ []
    → c ≡ b ++ ms
    → c ≡ a ++ x ∷ ms
cons-heard a b c ms x h k = k ∙ (ap (λ v. v ++ ms) h ∙ append_assoc a (x ∷ []) ms)

module _ {W : Type 0} (around : Surroundings W) (context : LoopContext W) (m : Message)
    (config : ToolConfig W) where
  -- A reply, and then the replies of the other calls.
  then-Reports :
      (x : Finalized × Message) (rest : Action (Run W) (List (Finalized × Message))) (a : Run W)
      (s : Run W)
      → heard s ≡ heard a ++ ai x.1 ∷ []
      → Reports rest s
      → After (rest >>= λ xs. pure (x ∷ xs)) s (λ xs s'. heard s' ≡ heard a ++ replies xs)
  then-Reports x rest a s h r =
      bind-After rest (λ xs. pure (x ∷ xs)) s r
        λ xs s' k. record {
          leaves = λ ys e.
              cons-heard (heard a) (heard s) (heard s') (replies xs) (ai x.1) h k
              ∙ ap (λ r. heard a ++ reported r) e;
        }

  call_once-After :
      (c : ContentBlock) (s : Run W)
      → After (call_once around context m config c) s (λ x s'. heard s' ≡ heard s ++ ai x.1 ∷ [])
  unfolding call_once run_call reply_to
  call_once-After c s =
      bind-After (emit_start around context m config c) _ s
        (Silent-After (emit_start around context m config c) s
          (emit_start-Silent around context m config c))
        λ _ s1 h1.
          bind-After (prepare around context m config c) (run_call around context m config) s1
            (Silent-After (prepare around context m config c) s1
              (prepare-Silent around context m config c))
            λ p s2 h2.
              bind-After (run_prepared around context m config p) (reply_to around context m config)
                s2
                (Silent-After (run_prepared around context m config p) s2
                  (run_prepared-Silent around context m config p))
                λ f s3 h3. record {
                  leaves =
                      (bind-After {Q = λ x s'. heard s' ≡ heard s ++ ai x.1 ∷ []}
                        (emit_end around f) (λ _. emit_result around f >>= λ msg. pure (f, msg)) s3
                        (Silent-After (emit_end around f) s3 (emit_end-Silent around f))
                        λ _ s4 h4.
                          bind-After (emit_result around f) (λ msg. pure (f, msg)) s4
                            (emit_result-After around f s4)
                            λ msg s5 h5. record { leaves = λ x e. cc }).leaves;
                }

  call_each-Reports :
      (cs : List ContentBlock) (s : Run W) → Reports (call_each around context m config cs) s
  unfolding call_each
  call_each-Reports [] s = record {
    leaves = λ xs e. sym (append-nil (heard s)) ∙ ap (λ r. heard s ++ reported r) e;
  }
  call_each-Reports (c ∷ cs) s = record {
    leaves =
        (bind-After {Q = λ xs s'. heard s' ≡ heard s ++ replies xs}
          (call_once around context m config c)
          (λ x s. elim (around.is_cancelled s.world) [
            | true ↦ (ok (x ∷ []), s)
            | false ↦ (call_each around context m config cs >>= λ xs. pure (x ∷ xs)) s
          ])
          s (call_once-After c s)
          λ x s' h. record {
            leaves =
                (decide x s' h (call_each-Reports cs s') (around.is_cancelled s'.world)).leaves;
          }).leaves;
  }
    where
      decide :
          (x : Finalized × Message) (s' : Run W)
          → heard s' ≡ heard s ++ ai x.1 ∷ []
          → Reports (call_each around context m config cs) s'
          → (b : Bool)
          → After
              (λ s. elim b [
                | true ↦ (ok (x ∷ []), s)
                | false ↦ (call_each around context m config cs >>= λ xs. pure (x ∷ xs)) s
              ])
              s'
              (λ xs s''. heard s'' ≡ heard s ++ replies xs)
      decide x s' h r true = record { leaves = λ xs e. h ∙ ap (λ r. heard s ++ reported r) e }
      decide x s' h r false = record {
        leaves = (then-Reports x (call_each around context m config cs) s s' h r).leaves;
      }

  emit_results-Reports :
      (fs : List Finalized) (s : Run W) → Reports (emit_results around context m config fs) s
  unfolding emit_results
  emit_results-Reports [] s = record {
    leaves = λ xs e. sym (append-nil (heard s)) ∙ ap (λ r. heard s ++ reported r) e;
  }
  emit_results-Reports (f ∷ fs) s =
      bind-After (emit_result around f)
        (λ msg. emit_results around context m config fs >>= λ rest. pure ((f, msg) ∷ rest)) s
        (emit_result-After around f s)
        λ msg s' h.
          then-Reports (f, msg) (emit_results around context m config fs) s s' h
            (emit_results-Reports fs s')

  -- What the tool calls of a message report as complete, on top of what was reported, is the
  -- messages of the batch that they return, in its order.
  pub execute_tool_calls-After :
      (s : Run W)
      → After
          (execute_tool_calls around context m config)
          s
          (λ b s'. heard s' ≡ heard s ++ map ai b.messages)
  unfolding execute_tool_calls batch_of
  execute_tool_calls-After s =
      elim (Bool-cases (config.is_sequential || has_sequential context.tools calls)) [
        | inl alone ↦ record {
          leaves = rw alone (
              (bind-After (call_each around context m config calls) (λ xs. pure (batch_of xs)) s
                (call_each-Reports calls s) (batched s)).leaves);
        }
        | inr together ↦ record {
          leaves = rw together (
              (bind-After (start_each around context m config calls)
                (λ slots. complete_all around context m config slots >>= λ fs.
                  emit_results around context m config fs >>= λ xs. pure (batch_of xs))
                s
                (Silent-After (start_each around context m config calls) s
                  (start_each-Silent around context m config calls))
                λ slots s1 h1.
                  bind-After (complete_all around context m config slots)
                    (λ fs. emit_results around context m config fs >>= λ xs. pure (batch_of xs)) s1
                    (Silent-After (complete_all around context m config slots) s1
                      (complete_all-Silent around context m config slots))
                    λ fs s2 h2.
                      bind-After (emit_results around context m config fs)
                        (λ xs. pure (batch_of xs)) s2 (emit_results-Reports fs s2)
                        λ xs s3 h3.
                          batched s xs s3 (h3 ∙ ap (λ v. v ++ replies xs) (h2 ∙ h1))).leaves);
        }
      ]
    where
      calls : List ContentBlock
      calls = tool_calls m.content

      of_batch : Result Batch → List AgentMessage
      of_batch (ok b) = map ai b.messages
      of_batch _ = []

      batched :
          (s : Run W) (xs : List (Finalized × Message)) (s' : Run W)
          → heard s' ≡ heard s ++ replies xs
          → After {S = Run W}
              (pure (batch_of xs))
              s'
              (λ b s''. heard s'' ≡ heard s ++ map ai b.messages)
      batched s xs s' h = record { leaves = λ b e. h ∙ ap (λ r. heard s ++ of_batch r) e }
