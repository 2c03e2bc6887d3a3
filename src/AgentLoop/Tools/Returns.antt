-- ===== src/AgentLoop/Tools/Returns.antt =====
-- Actions that return a value, whatever else they do, and the pieces of a tool call that do.
use attention.Prelude.{
  ◌≡◌, refl, sym, ap, subst, ◌∙◌, List, [], ◌∷◌, Option, none, some, Bool-cases, inl, inr, arith,
}
use attention.Ai.Types.{ContentBlock, Message, new_message, tool_result}
use attention.Message.{ai}
use attention.Session.Types.{Result, ok}
use attention.Session.Storage.{Action, continue, ◌>>=◌}
use attention.AgentLoop.Types.{
  message_start, message_end, tool_execution_update, Args, Event, ToolResult, Outcome, returned,
  failed, Hooked, hook_failed, hooked, BeforeResult, Tool, LoopContext, ToolConfig, Surroundings,
}
use attention.AgentLoop.Tools.{
  Run, Finalized, Prepared, immediate, prepared, apply_after, executed, prepare_tool_call, finalize,
  emit, emit_updates, run_prepared, result_message, emit_end, emit_result, after_before, refused,
  check_cancelled, before_outcome,
}

-- From the state `s` the action returns a value with `P`.
abbrev pub Returns : {S A : Type 0} → Action S A → S → (A → Type 0) → Type 0
Returns m s P = (a : _) × ((m s).0 ≡ ok a) × P a

pub bind-Returns :
    {S A B : Type 0} {P : A → Type 0} {Q : B → Type 0} (m : Action S A) (f : A → Action S B) (s : S)
    → Returns m s P
    → ((a : A) (s' : S) → P a → Returns (f a) s' Q)
    → Returns (m >>= f) s Q
bind-Returns m f s (a, e, p) k =
    let (b, e', q) = k a (m s).1 p in (b, ap (λ r. (continue r f (m s).1).0) e ∙ e', q)

-- The outcome of an action is a value, with `P` of it and of the state that is left.
abbrev pub Gave : {S A : Type 0} → Result A × S → (A → S → Type 0) → Type 0
Gave o P = (a : _) × (o.0 ≡ ok a) × P a o.1

pub bind-Gave :
    {S A B : Type 0} (P : A → S → Type 0) (Q : B → S → Type 0) (m : Action S A) (f : A → Action S B)
    (s : S)
    → Gave (m s) P
    → ((a : A) (s' : S) → P a s' → Gave (f a s') Q)
    → Gave ((m >>= f) s) Q
bind-Gave P Q m f s (a, e, p) k =
    subst (λ o. Gave o Q) (sym (ap (λ r. continue r f (m s).1) e)) (k a (m s).1 p)

-- A tool result that answers a call.
abbrev pub IsReply : ContentBlock → Message → Type 0
IsReply c m =
    (m.role ≡ tool_result) × (m.tool_call_id ≡ c.tool_call_id) × (m.tool_name ≡ c.tool_name)

abbrev pub call_of : {W : Type 0} → Prepared W → ContentBlock
call_of (immediate c r) = c
call_of (prepared c t args) = c

module _ {W : Type 0} (around : Surroundings W)
    (accepts : (e : Event) (w : W) → (around.sink e w).0 ≡ ok tt) where
  pub emit-Returns : (e : Event) (s : Run W) → Returns (emit around e) s (λ _. Unit {0})
  unfolding emit
  emit-Returns e s = (tt, accepts e s.world, tt)

  pub emit_updates-Returns :
      (c : ContentBlock) (us : List ToolResult) (s : Run W)
      → Returns (emit_updates around c us (ok tt)) s (λ _. Unit {0})
  unfolding emit_updates emit
  emit_updates-Returns c [] s = (tt, refl, tt)
  emit_updates-Returns c (u ∷ us) s =
      let e = tool_execution_update c.tool_call_id c.tool_name c.arguments u in
      let s' = (emit around e s).1 in
      let (x, same, _) = emit_updates-Returns c us s' in
      (x, ap (λ r. (emit_updates around c us r s').0) (accepts e s.world) ∙ same, tt)

  pub emit_end-Returns : (f : Finalized) (s : Run W) → Returns (emit_end around f) s (λ _. Unit {0})
  unfolding emit_end
  emit_end-Returns f s = emit-Returns _ s

  pub emit_result-Returns :
      (f : Finalized) (s : Run W) → Returns (emit_result around f) s (IsReply f.tool_call)
  unfolding emit_result result_message new_message
  emit_result-Returns f s =
      let msg = result_message around f s.world in
      bind-Returns {P = λ _. Unit {0}} (emit around (message_start (ai msg))) _ s (emit-Returns _ s)
        λ _ s' _.
          bind-Returns {P = λ _. Unit {0}} (emit around (message_end (ai msg))) _ s'
            (emit-Returns _ s') λ _ s'' _. (msg, refl, (refl, refl, refl))

after_before-call_of :
    {W : Type 0} (c : ContentBlock) (t : Tool W) (args : Args) (r : Option BeforeResult)
    → call_of (after_before c t args r) ≡ c
unfolding after_before refused
after_before-call_of c t args none = refl
after_before-call_of c t args (some r) = elim (Bool-cases r.block) [ inl b ↦ rw b | inr b ↦ rw b ]

module _ {W : Type 0} (around : Surroundings W) (context : LoopContext W) (m : Message)
    (config : ToolConfig W) where
  check_cancelled-call_of :
      (c : ContentBlock) (p : Prepared W) (w : W)
      → call_of p ≡ c
      → call_of (check_cancelled around c p w).0 ≡ c
  unfolding check_cancelled refused
  check_cancelled-call_of c p w h = elim (Bool-cases (around.is_cancelled w)) [
    | inl b ↦ rw b
    | inr b ↦ rw b h
  ]

  before_outcome-call_of :
      (c : ContentBlock) (t : Tool W) (args : Args) (r : Hooked BeforeResult) (w : W)
      → call_of (before_outcome around c t args r w).0 ≡ c
  unfolding before_outcome refused
  before_outcome-call_of c t args (hook_failed text) w = refl
  before_outcome-call_of c t args (hooked r) w =
      check_cancelled-call_of c (after_before c t args r) w (after_before-call_of c t args r)

  -- The call that is prepared, or refused, is the call itself.
  pub prepare_tool_call-call_of :
      (c : ContentBlock) (w : W) → call_of (prepare_tool_call around context m c config w).0 ≡ c
  unfolding prepare_tool_call
  prepare_tool_call-call_of c w =
      ground (arith, before_outcome-call_of c, check_cancelled-call_of c)

  pub finalize-tool_call :
      (args : Args) (f : Finalized) (w : W)
      → (finalize around context m config args f w).0.tool_call ≡ f.tool_call
  unfolding finalize apply_after
  finalize-tool_call args f w = ground arith

  executed-tool_call : (c : ContentBlock) (o : Outcome) → (executed c o).tool_call ≡ c
  unfolding executed
  executed-tool_call c (returned r) = refl
  executed-tool_call c (failed text) = refl

  pub finished-tool_call :
      (c : ContentBlock) (o : Outcome) (args : Args) (w : W)
      → (finalize around context m config args (executed c o) w).0.tool_call ≡ c
  finished-tool_call c o args w = finalize-tool_call args (executed c o) w ∙ executed-tool_call c o

  pub run_prepared-Returns :
      (accepts : (e : Event) (w : W) → (around.sink e w).0 ≡ ok tt)
      → (p : Prepared W) (s : Run W)
      → Returns (run_prepared around context m config p) s (λ f. f.tool_call ≡ call_of p)
  unfolding run_prepared
  run_prepared-Returns accepts (immediate c r) s = (_, refl, refl)
  run_prepared-Returns accepts (prepared c t args) s =
      let (x, w) = t.execute c.tool_call_id args s.world in
      let s' : Run W = record s { world = w } in
      bind-Returns {P = λ _. Unit {0}} (emit_updates around c x.updates (ok tt)) _ s'
        (emit_updates-Returns around accepts c x.updates s')
        λ _ s'' _. (_, refl, finished-tool_call c x.outcome args s''.world)
