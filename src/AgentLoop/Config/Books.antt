-- ===== src/AgentLoop/Config/Books.antt =====
-- What a run has reported and what it has collected, across the actions of the loop.
use attention.Prelude.{◌≡◌, ap, ◌∙◌, List, [], ◌∷◌, ◌++◌, Option, none, some}
use attention.Message.{AgentMessage}
use attention.Session.Types.{Result}
use attention.Session.Storage.{Action, ◌>>=◌}
use attention.Session.Storage.After.{After, bind-After, always-After}
use attention.AgentLoop.Types.{Event, message_end, Surroundings}
use attention.AgentLoop.Tools.{Run, emit}
use attention.AgentLoop.Tools.Ended.{ended_by, heard, Silent, heard-emit, emit-Silent}
use attention.AgentLoop.Config.{LoopState, on_run, call_back, ask, ask_with, report}

-- The messages `v` were reported as complete, and `n` are the new messages.
abbrev pub Books : {W : Type 0} → List AgentMessage → List AgentMessage → LoopState W → Type 0
Books v n s = (heard s.run ≡ v) × (s.new_messages ≡ n)

-- The action keeps the books.
abbrev pub KeepsBooks : {W A : Type 0} → Action (LoopState W) A → Type 0
KeepsBooks {W} m =
    (v n : List AgentMessage) (s : LoopState W) → Books v n s → After m s (λ _ s'. Books v n s')

module _ {W : Type 0} where
  pub on_run-Books : {A : Type 0} (m : Action (Run W) A) → Silent m → KeepsBooks (on_run m)
  on_run-Books m q v n s (h, k) = always-After (on_run m) s (λ _. (q.keeps s.run ∙ h, k))

  pub call_back-Books : {A : Type 0} (f : W → Result A × W) → KeepsBooks (call_back f)
  call_back-Books f v n s b = always-After (call_back f) s (λ _. b)

  pub ask-Books : {A : Type 0} (f : Option (W → Result A × W)) (a : A) → KeepsBooks (ask f a)
  ask-Books none a v n s b = always-After (ask none a) s (λ _. b)
  ask-Books (some f) a v n s b = always-After (ask (some f) a) s (λ _. b)

  pub ask_with-Books :
      {X A : Type 0} (f : Option (X → W → Result A × W)) (x : X) (a : A)
      → KeepsBooks (ask_with f x a)
  ask_with-Books none x a v n s b = always-After (ask_with none x a) s (λ _. b)
  ask_with-Books (some f) x a v n s b = always-After (ask_with (some f) x a) s (λ _. b)

  pub bind-Books :
      {A B : Type 0} (m : Action (LoopState W) A) (f : A → Action (LoopState W) B)
      → KeepsBooks m
      → ((a : A) → KeepsBooks (f a))
      → KeepsBooks (m >>= f)
  bind-Books m f q k v n s b = bind-After m f s (q v n s b) (λ a s' b'. k a v n s' b')

  -- An action that is chosen by the state that it finds.
  pub of_state-Books :
      {A : Type 0} (m : LoopState W → Action (LoopState W) A)
      → ((s : LoopState W) → KeepsBooks (m s))
      → KeepsBooks (λ s. m s s)
  of_state-Books m q v n s b = record { leaves = (q s v n s b).leaves }

  module _ (around : Surroundings W) where
    pub report-Books : (e : Event) → ended_by e ≡ [] → KeepsBooks (report around e)
    report-Books e h = on_run-Books (emit around e) (emit-Silent around e h)

    pub report_end-Books :
        (m : AgentMessage) (v n : List AgentMessage) (s : LoopState W)
        → Books v n s
        → After (report around (message_end m)) s (λ _ s'. Books (v ++ m ∷ []) n s')
    report_end-Books m v n s (h, k) =
        always-After (report around (message_end m)) s
          λ _. (heard-emit around (message_end m) s.run ∙ ap (λ v. v ++ m ∷ []) h, k)
