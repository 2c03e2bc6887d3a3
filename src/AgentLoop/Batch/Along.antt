-- ===== src/AgentLoop/Batch/Along.antt =====
-- Lists that follow the tool calls of a message one for one, and loops that build them.
use attention.Prelude.{◌≡◌, refl, Bool, true, false, List, [], ◌∷◌, map}
use attention.Ai.Types.{ContentBlock, Message}
use attention.Session.Types.{Result, ok}
use attention.Session.Storage.{Action, pure, ◌>>=◌}
use attention.AgentLoop.Types.{Surroundings}
use attention.AgentLoop.Tools.{Run, Finalized}
use attention.AgentLoop.Tools.Returns.{Returns, Gave, bind-Gave, IsReply}
use attention.AgentLoop.Batch.{Slot, done, running}

-- `xs` follows `cs`, one for one, by `R`; it may end before `cs` does only where `Stop` holds.
abbrev pub Along :
    {A : Type 0} → (ContentBlock → A → Type 0) → Type 0 → List ContentBlock → List A → Type 0
Along R Stop [] [] = Unit
Along R Stop [] (x ∷ xs) = ⊥
Along R Stop (c ∷ cs) [] = Stop
Along R Stop (c ∷ cs) (x ∷ xs) = R c x × Along R Stop cs xs

-- The context is cancelled in a state of the run.
abbrev pub IsStopped : {W : Type 0} → Surroundings W → Run W → Type 0
IsStopped around s = around.is_cancelled s.world ≡ true

abbrev pub slot_call : {W : Type 0} → Slot W → ContentBlock
slot_call (done f) = f.tool_call
slot_call (running c t args) = c

abbrev pub HasSlot : {W : Type 0} → ContentBlock → Slot W → Type 0
HasSlot c x = slot_call x ≡ c

abbrev pub HasFinal : ContentBlock → Finalized → Type 0
HasFinal c f = f.tool_call ≡ c

abbrev pub HasReply : ContentBlock → Finalized × Message → Type 0
HasReply c x = IsReply c x.1

pub Along-map :
    (Stop : Type 0) (cs : List ContentBlock) (xs : List (Finalized × Message))
    → Along HasReply Stop cs xs
    → Along IsReply Stop cs (map (λ x. x.1) xs)
Along-map Stop [] [] a = tt
Along-map Stop [] (x ∷ xs) a = a
Along-map Stop (c ∷ cs) [] a = a
Along-map Stop (c ∷ cs) (x ∷ xs) (r, a) = (r, Along-map Stop cs xs a)

-- A loop that runs one action for each call and ends once the context is cancelled: in the state that
-- it leaves, where it ends before the calls do.
module _ {W A : Type 0} (around : Surroundings W) (R : ContentBlock → A → Type 0)
    (once : ContentBlock → Action (Run W) A)
    (once-Returns : (c : ContentBlock) (s : Run W) → Returns (once c) s (R c)) where
  abbrev pub Follows : List ContentBlock → List A → Run W → Type 0
  Follows cs xs s = Along R (IsStopped around s) cs xs

  pub each-Returns :
      (c : ContentBlock) (cs : List ContentBlock) (rest : Action (Run W) (List A))
      → ((s : Run W) → Gave (rest s) (Follows cs))
      → (s : Run W)
      → Gave
          ((once c >>= λ x s. elim (around.is_cancelled s.world) [
            | true ↦ (ok (x ∷ []), s)
            | false ↦ (rest >>= λ xs. pure (x ∷ xs)) s
          ])
            s)
          (Follows (c ∷ cs))
  each-Returns c cs rest rest-Returns s =
      bind-Gave (λ x _. R c x) (Follows (c ∷ cs)) (once c) _ s (once-Returns c s)
        λ x s' r. decide x s' r (around.is_cancelled s'.world) refl
    where
      stopped : (s' : Run W) (cs : List ContentBlock) → IsStopped around s' → Follows cs [] s'
      stopped s' [] w = tt
      stopped s' (c ∷ cs) w = w

      decide :
          (x : A) (s' : Run W)
          → R c x
          → (b : Bool) → around.is_cancelled s'.world ≡ b
          → Gave
              (elim b as (λ _. Result (List A) × Run W) [
                | true ↦ (ok (x ∷ []), s')
                | false ↦ (rest >>= λ xs. pure (x ∷ xs)) s'
              ])
              (Follows (c ∷ cs))
      decide x s' r true e = (x ∷ [], refl, (r, stopped s' cs e))
      decide x s' r false e =
          bind-Gave (Follows cs) (Follows (c ∷ cs)) rest (λ xs. pure (x ∷ xs)) s' (rest-Returns s')
            λ xs s'' a. (x ∷ xs, refl, (r, a))
