-- ===== src/Session/Context/Latest.antt =====
-- The thinking level and the model of `buildContextFromPath`: the latest that an entry sets.
use attention.Prelude.{
  ◌≡◌, refl, sym, ap, ◌∙◌, String, List, [], ◌∷◌, Option, none, some, arith, if◌then◌else◌,
}
use attention.Ai.Types.{is_assistant}
use attention.Message.{as_ai_message}
use attention.Session.Types.{Body, SessionEntry, ModelRef}
use attention.Session.Context.{Scan, scan, scan_body, model_of}

abbrev pub or_else : {A : Type 0} → Option A → Option A → Option A
or_else none y = y
or_else (some x) y = some x

abbrev pub with_default : {A : Type 0} → Option A → A → A
with_default none d = d
with_default (some x) d = x

-- The last entry that has an `f`.
abbrev pub latest : {A : Type 0} → (Body → Option A) → List SessionEntry → Option A
latest f [] = none
latest f (e ∷ es) = or_else (latest f es) (f e.body)

abbrev pub level_set : Body → Option String
level_set (Body.thinking_level_change level) = some level
level_set _ = none

-- A model is set by a change, and by an assistant message, whose model it is.
abbrev pub model_set : Body → Option ModelRef
model_set (Body.model_change provider model_id) =
    some (record { provider = provider; model_id = model_id })
model_set (Body.message m) = elim (as_ai_message m) [
  | none ↦ none
  | some msg ↦
      if is_assistant msg.role
      then some (record { provider = msg.provider; model_id = msg.model })
      else none
]
model_set _ = none

with_default-or_else :
    {A : Type 0} (x y : Option A) (d : A)
    → with_default (or_else x y) d ≡ with_default x (with_default y d)
with_default-or_else none y d = refl
with_default-or_else (some x) y d = refl

or_else_assoc : {A : Type 0} (x y z : Option A) → or_else (or_else x y) z ≡ or_else x (or_else y z)
or_else_assoc none y z = refl
or_else_assoc (some x) y z = refl

level-scan_body :
    (e : SessionEntry) (b : Body) (s : Scan)
    → (scan_body e b s).thinking_level ≡ with_default (level_set b) s.thinking_level
unfolding scan_body
level-scan_body e (Body.thinking_level_change level) s = refl
level-scan_body e (Body.message m) s = ground arith
level-scan_body e _ s = refl

model-scan_body :
    (e : SessionEntry) (b : Body) (s : Scan)
    → (scan_body e b s).model ≡ or_else (model_set b) s.model
unfolding scan_body model_of
model-scan_body e (Body.model_change provider model_id) s = refl
model-scan_body e (Body.message m) s = ground arith
model-scan_body e _ s = refl

pub level-scan :
    (es : List SessionEntry) (s : Scan)
    → (scan es s).thinking_level ≡ with_default (latest level_set es) s.thinking_level
unfolding scan
level-scan [] s = refl
level-scan (e ∷ es) s =
    level-scan es (scan_body e e.body s)
    ∙ ap (with_default (latest level_set es)) (level-scan_body e e.body s)
    ∙ sym (with_default-or_else (latest level_set es) (level_set e.body) s.thinking_level)

pub model-scan :
    (es : List SessionEntry) (s : Scan) → (scan es s).model ≡ or_else (latest model_set es) s.model
unfolding scan
model-scan [] s = refl
model-scan (e ∷ es) s =
    model-scan es (scan_body e e.body s)
    ∙ ap (or_else (latest model_set es)) (model-scan_body e e.body s)
    ∙ sym (or_else_assoc (latest model_set es) (model_set e.body) s.model)
