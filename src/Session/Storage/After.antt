-- ===== src/Session/Storage/After.antt =====
-- What holds of an action's value and of the state that it leaves, where it returns one.
use attention.Prelude.{◌≡◌, refl, sym, subst}
use attention.Session.Types.{Result, ok, err, diverges, panics}
use attention.Session.Storage.{Action, continue, ◌>>=◌}

pub record After {S A : Type 0} (m : Action S A) (s : S) (Q : A → S → Type 0) : Type 0 where
  pub leaves : (a : A) → (m s).0 ≡ ok a → Q a (m s).1

continue-After :
    {S A B : Type 0} (P : A → S → Type 0) (Q : B → S → Type 0) (r : Result A) (f : A → Action S B)
    (s : S)
    → ((a : A) → r ≡ ok a → P a s)
    → ((a : A) (s' : S) → P a s' → After (f a) s' Q)
    → (b : B) → (continue r f s).0 ≡ ok b
    → Q b (continue r f s).1
continue-After P Q (ok a) f s p k b eq = (k a s (p a refl)).leaves b eq
continue-After P Q (err e) f s p k b eq = cc
continue-After P Q diverges f s p k b eq = cc
continue-After P Q panics f s p k b eq = cc

pub bind-After :
    {S A B : Type 0} {P : A → S → Type 0} {Q : B → S → Type 0} (m : Action S A) (f : A → Action S B)
    (s : S)
    → After m s P
    → ((a : A) (s' : S) → P a s' → After (f a) s' Q)
    → After (m >>= f) s Q
bind-After {P} {Q} m f s p k = record { leaves = continue-After P Q (m s).0 f (m s).1 p.leaves k }

-- What holds of the state that is left, whatever is returned.
pub always-After :
    {S A : Type 0} {Q : A → S → Type 0} (m : Action S A) (s : S)
    → ((a : A) → Q a (m s).1)
    → After m s Q
always-After m s q = record { leaves = λ a e. q a }

-- The action returns a value, and this holds of it and of the state that is left.
abbrev pub Gives : {S A : Type 0} → Action S A → S → (A → S → Type 0) → Type 0
Gives m s P = (a : _) × ((m s).0 ≡ ok a) × P a (m s).1

pub bind-Gives :
    {S A B : Type 0} (P : A → S → Type 0) (Q : B → S → Type 0) (m : Action S A) (f : A → Action S B)
    (s : S)
    → Gives m s P
    → ((a : A) (s' : S) → P a s' → Gives (f a) s' Q)
    → Gives (m >>= f) s Q
bind-Gives P Q m f s (a, e, p) k =
    subst (λ r. (b : _) × ((continue r f (m s).1).0 ≡ ok b) × Q b (continue r f (m s).1).1) (sym e)
      (k a (m s).1 p)
