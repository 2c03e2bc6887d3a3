-- ===== src/Session/Calls.antt =====
-- The calls of a session as data, and what holds after every one of them.
use Prim.Native.Nat.{ℕ}
use attention.Prelude.{
  ◌≡◌, refl, sym, subst, String, Bool, Option, none, some, inl, inr, arith, Option-cases,
}
use attention.Value.{Value}
use attention.Message.{AgentMessage, Content}
use attention.Session.Types.{Body, Result, ok, err, diverges, panics, Ctx, BranchSummary}
use attention.Session.Core.{Core, get_entry}
use attention.Session.Storage.{Action, continue, SessionStorage, Laws, IsFresh}
use attention.Session.Tree.{IsValid, get_entry_index}
use attention.Session.Tree.Path.{IsKnown}
use attention.Session.Operations.{
  append, append_message, append_model_change, append_thinking_level_change, append_compaction,
  append_custom_entry, append_custom_message_entry, append_label, append_session_name, move_to,
  check_entry, check_target, add_summary,
}
use attention.Session.Operations.Append.{append-IsValid, IsPlain, continue-pure}
use attention.Session.Operations.Moves.{moved-IsValid, summarised-IsValid}

pub data Call : Type 0 where
  add_message : AgentMessage → Call
  add_model_change : (provider model_id : String) → Call
  add_thinking_level_change : (level : String) → Call
  add_compaction : (summary first_kept : String) → ℕ → Value → Bool → Call
  add_custom_entry : (custom_type : String) → Value → Call
  add_custom_message_entry : (custom_type : String) → Content → Bool → Value → Call
  add_label : (target text : String) → Call
  add_session_name : (name : String) → Call
  move : Option String → Option BranchSummary → Call

abbrev after : {S A : Type 0} → Action S A → S → S
after m s = (m s).1

module _ {S : Type 0} (st : SessionStorage S) where
  -- The state after a call; its result, and whether it failed, are dropped.
  unfoldable pub perform : Call → Ctx → (now : String) → S → S
  perform (add_message m) ctx now = after (append_message st ctx now m)
  perform (add_model_change p m) ctx now = after (append_model_change st ctx now p m)
  perform (add_thinking_level_change l) ctx now = after (append_thinking_level_change st ctx now l)
  perform (add_compaction t k n d h) ctx now = after (append_compaction st ctx now t k n d h)
  perform (add_custom_entry t p) ctx now = after (append_custom_entry st ctx now t p)
  perform (add_custom_message_entry t c b d) ctx now =
      after (append_custom_message_entry st ctx now t c b d)
  perform (add_label t l) ctx now = after (append_label st ctx now t l)
  perform (add_session_name n) ctx now = after (append_session_name st ctx now n)
  perform (move t b) ctx now = after (move_to st ctx now t b)

  -- The ids that a call draws are new: `move` draws a second one after the leaf has moved.
  abbrev pub DrawsFresh : Call → (now : String) → S → Type 0
  DrawsFresh (move t b) now s = IsFresh st s × IsFresh st (st.set_leaf_id now t s).1
  DrawsFresh _ now s = IsFresh st s

-- A step after `r` keeps what `r`'s state satisfies, if it keeps it where `r` is a value.
continue_keeps :
    {S A B : Type 0} (P : S → Type 0) (r : Result A) (f : A → Action S B) (s : S)
    → P s
    → ((a : A) → r ≡ ok a → P (f a s).1)
    → P (continue r f s).1
continue_keeps P (ok a) f s h k = k a refl
continue_keeps P (err e) f s h k = h
continue_keeps P diverges f s h k = h
continue_keeps P panics f s h k = h

check_target_sound :
    (c : Core) (target : Option String) → check_target target c ≡ ok tt → IsKnown c target
unfolding check_target
check_target_sound c none h = tt
check_target_sound c (some id) h = elim (Option-cases (get_entry id c)) [
  | inl missing ↦ absurd (ground (arith, missing))
  | inr (e, found) ↦ let (i, at, _) = get_entry_index c id found in (i, at)
]

module _ {S : Type 0} {st : SessionStorage S} (laws : Laws st) where
  append_ctx-IsValid :
      (ctx : Ctx) (now : String) (body : Body) (s : S)
      → IsPlain body
      → IsFresh st s
      → IsValid (st.core s)
      → IsValid (st.core (append st ctx now body s).1)
  append_ctx-IsValid none now body s plain fresh v = append-IsValid laws v fresh now body plain
  append_ctx-IsValid (some e) now body s plain fresh v = unfold append in v

  label-IsValid :
      (ctx : Ctx) (now target text : String) (s : S)
      → IsFresh st s
      → IsValid (st.core s)
      → IsValid (st.core (append_label st ctx now target text s).1)
  unfolding append_label
  label-IsValid (some e) now target text s fresh v = v
  label-IsValid none now target text s fresh v =
      continue_keeps (λ x. IsValid (st.core x)) (check_entry target (st.core s))
        (λ _. append st none now (Body.label (some target) text)) s v
        (λ _ _. append-IsValid laws v fresh now (Body.label (some target) text) tt)

  summary-IsValid :
      (now : String) (target : Option String) (b : Option BranchSummary) (s : S)
      (v : IsValid (st.core s)) (fresh : IsFresh st s) (known : IsKnown (st.core s) target)
      → IsFresh st (st.set_leaf_id now target s).1
      → IsValid (st.core (add_summary st now target b (st.set_leaf_id now target s).1).1)
  unfolding add_summary
  summary-IsValid now target none s v fresh known free = moved-IsValid laws v fresh now target known
  summary-IsValid now target (some b) s v fresh known free =
      subst (λ x. IsValid (st.core x)) (sym (continue-pure _ _ _))
        (summarised-IsValid laws v fresh now target known free b)

  move-IsValid :
      (ctx : Ctx) (now : String) (target : Option String) (b : Option BranchSummary) (s : S)
      → IsFresh st s
      → IsFresh st (st.set_leaf_id now target s).1
      → IsValid (st.core s)
      → IsValid (st.core (move_to st ctx now target b s).1)
  unfolding move_to
  move-IsValid (some e) now target b s fresh free v = v
  move-IsValid none now target b s fresh free v =
      continue_keeps (λ x. IsValid (st.core x)) (check_target target (st.core s)) _ s v
        λ _ passed.
          let known = check_target_sound (st.core s) target passed in
          continue_keeps (λ x. IsValid (st.core x)) (st.set_leaf_id now target s).0
            (λ _. add_summary st now target b) (st.set_leaf_id now target s).1
            (moved-IsValid laws v fresh now target known)
            (λ _ _. summary-IsValid now target b s v fresh known free)

  -- Over every storage that keeps the laws, each call of a session that changes it keeps the
  -- session well-formed, whether the call succeeds or fails, if the ids that the call draws are
  -- new.
  pub perform-IsValid :
      (call : Call) (ctx : Ctx) (now : String) (s : S)
      → DrawsFresh st call now s
      → IsValid (st.core s)
      → IsValid (st.core (perform st call ctx now s))
  unfolding perform append_message append_model_change append_thinking_level_change
      append_compaction append_custom_entry append_custom_message_entry append_session_name
  perform-IsValid (add_message m) ctx now s fresh = append_ctx-IsValid ctx now _ s tt fresh
  perform-IsValid (add_model_change p m) ctx now s fresh = append_ctx-IsValid ctx now _ s tt fresh
  perform-IsValid (add_thinking_level_change l) ctx now s fresh =
      append_ctx-IsValid ctx now _ s tt fresh
  perform-IsValid (add_compaction t k n d h) ctx now s fresh =
      append_ctx-IsValid ctx now _ s tt fresh
  perform-IsValid (add_custom_entry t p) ctx now s fresh = append_ctx-IsValid ctx now _ s tt fresh
  perform-IsValid (add_custom_message_entry t c b d) ctx now s fresh =
      append_ctx-IsValid ctx now _ s tt fresh
  perform-IsValid (add_label t l) ctx now s fresh = label-IsValid ctx now t l s fresh
  perform-IsValid (add_session_name n) ctx now s fresh = append_ctx-IsValid ctx now _ s tt fresh
  perform-IsValid (move t b) ctx now s (fresh, free) = move-IsValid ctx now t b s fresh free
