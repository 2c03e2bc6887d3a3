-- ===== src/Ai/Transform/Results.antt =====
-- Every tool call that goes to a provider is answered before the next turn.
use attention.Prelude.{
  ℕ, ◌≡◌, refl, sym, subst, append-nil, String, true, false, List, [], ◌∷◌, ◌++◌, All, eq_refl,
  arith, Bool-cases, inl, inr,
}
use attention.Ai.Types.{
  ContentBlock, Message, Role, user, assistant, tool_result, other_role, is_failed, new_message,
}
use attention.Ai.Transform.{
  contains, tool_calls, missing_results, insert_loop, insert_synthetic_tool_results,
}

-- Every call has its id among the results that were seen.
abbrev pub Answers : (seen : List String) → List ContentBlock → Type 0
Answers seen = All λ c. contains seen c.tool_call_id ≡ true

-- Before each assistant or user message, and at the end, the calls of the last assistant message
-- are answered by tool results that stand behind it.
abbrev pub IsAnswered : List ContentBlock → (seen : List String) → List Message → Type 0
IsAnswered pending seen [] = Answers seen pending
IsAnswered pending seen (m ∷ ms) = elim m.role [
  | assistant ↦ Answers seen pending × IsAnswered (tool_calls m.content) [] ms
  | tool_result ↦ IsAnswered pending (m.tool_call_id ∷ seen) ms
  | user ↦ Answers seen pending × IsAnswered [] [] ms
  | other_role r ↦ IsAnswered pending seen ms
]

contains-cons :
    (x : String) (seen : List String) (s : String)
    → contains seen s ≡ true
    → contains (x ∷ seen) s ≡ true
unfolding contains
contains-cons x seen s h = ground arith

Answers-cons :
    (x : String) (seen : List String) (cs : List ContentBlock)
    → Answers seen cs
    → Answers (x ∷ seen) cs
Answers-cons x seen [] a = tt
Answers-cons x seen (c ∷ cs) (h, a) =
    (contains-cons x seen c.tool_call_id h, Answers-cons x seen cs a)

contains-cons_self : (x : String) (seen : List String) → contains (x ∷ seen) x ≡ true
unfolding contains
contains-cons_self x seen = rw (eq_refl x)

-- The first list's texts are all in the second.
abbrev Sub : List String → List String → Type 0
Sub xs ys = (s : String) → contains xs s ≡ true → contains ys s ≡ true

-- `IsAnswered` by the role of the first message.
module _ (m : Message) (pending : List ContentBlock) (seen : List String) (ms : List Message) where
  IsAnswered-assistant :
      m.role ≡ assistant
      → Answers seen pending
      → IsAnswered (tool_calls m.content) [] ms
      → IsAnswered pending seen (m ∷ ms)
  IsAnswered-assistant h a rest = rw h (a, rest)

  IsAnswered-user :
      m.role ≡ user → Answers seen pending → IsAnswered [] [] ms → IsAnswered pending seen (m ∷ ms)
  IsAnswered-user h a rest = rw h (a, rest)

  IsAnswered-result :
      m.role ≡ tool_result
      → IsAnswered pending (m.tool_call_id ∷ seen) ms
      → IsAnswered pending seen (m ∷ ms)
  IsAnswered-result h rest = rw h rest

  IsAnswered-other :
      {r : String}
      → m.role ≡ other_role r
      → IsAnswered pending seen ms
      → IsAnswered pending seen (m ∷ ms)
  IsAnswered-other h rest = rw h rest

-- What is answered with no call open is answered behind calls that have their results.
IsAnswered-weaken :
    (pending : List ContentBlock) (before seen : List String) (ms : List Message)
    → Answers seen pending
    → IsAnswered [] before ms
    → IsAnswered pending seen ms
IsAnswered-weaken pending before seen [] a i = a
IsAnswered-weaken pending before seen (m ∷ ms) a i =
    by_role m.role refl (λ id. IsAnswered-weaken pending (id ∷ before) (id ∷ seen) ms)
      (IsAnswered-weaken pending before seen ms a)
  where
    by_role :
        (r : Role)
        → m.role ≡ r
        → ((id : String)
            → Answers (id ∷ seen) pending
            → IsAnswered [] (id ∷ before) ms
            → IsAnswered pending (id ∷ seen) ms)
        → (IsAnswered [] before ms → IsAnswered pending seen ms)
        → IsAnswered pending seen (m ∷ ms)
    by_role assistant h next same =
        let (_, rest) = rw h at i in IsAnswered-assistant m pending seen ms h a rest
    by_role user h next same =
        let (_, rest) = rw h at i in IsAnswered-user m pending seen ms h a rest
    by_role tool_result h next same =
        IsAnswered-result m pending seen ms h
          (next m.tool_call_id (Answers-cons m.tool_call_id seen pending a) (rw h at i))
    by_role (other_role r) h next same = IsAnswered-other m pending seen ms h (same (rw h at i))

module _ (now : ℕ) where
  -- Behind the added results, every pending call has one.
  missing_results-IsAnswered :
      (pending cs : List ContentBlock) (existing seen : List String) (rest : List Message)
      → Sub existing seen
      → ((later : List String) → Answers later cs → Sub seen later → IsAnswered pending later rest)
      → IsAnswered pending seen (missing_results now cs existing ++ rest)
  unfolding missing_results new_message
  missing_results-IsAnswered pending [] existing seen rest sub k = k seen tt (λ s h. h)
  missing_results-IsAnswered pending (c ∷ cs) existing seen rest sub k =
      elim (Bool-cases (contains existing c.tool_call_id)) [
        | inl there ↦ rw there (
            missing_results-IsAnswered pending cs existing seen rest sub
              λ later a up. k later (up c.tool_call_id (sub c.tool_call_id there), a) up)
        | inr missing ↦ rw missing (
            missing_results-IsAnswered pending cs existing (c.tool_call_id ∷ seen) rest
              (λ s h. contains-cons c.tool_call_id seen s (sub s h))
              λ later a up.
                k later (up c.tool_call_id (contains-cons_self c.tool_call_id seen), a)
                  (λ s h. up s (contains-cons c.tool_call_id seen s h)))
      ]

  -- A prefix of the loop by the role of its first message.
  module _ (pending : List ContentBlock) (existing : List String) (m : Message)
      (ms : List Message) where
    insert_loop-assistant :
        m.role ≡ assistant
        → is_failed m.stop_reason ≡ false
        → insert_loop now pending existing (m ∷ ms)
          ≡ missing_results now pending existing
            ++ (m ∷ insert_loop now (tool_calls m.content) [] ms)
    unfolding insert_loop
    insert_loop-assistant h g = ground arith

    insert_loop-assistant_failed :
        m.role ≡ assistant
        → is_failed m.stop_reason ≡ true
        → insert_loop now pending existing (m ∷ ms)
          ≡ missing_results now pending existing ++ insert_loop now [] [] ms
    unfolding insert_loop
    insert_loop-assistant_failed h g = ground arith

    insert_loop-user :
        m.role ≡ user
        → insert_loop now pending existing (m ∷ ms)
          ≡ missing_results now pending existing ++ (m ∷ insert_loop now [] [] ms)
    unfolding insert_loop
    insert_loop-user h = ground arith

    insert_loop-tool_result :
        m.role ≡ tool_result
        → insert_loop now pending existing (m ∷ ms)
          ≡ m ∷ insert_loop now pending (m.tool_call_id ∷ existing) ms
    unfolding insert_loop
    insert_loop-tool_result h = ground arith

    insert_loop-other :
        {r : String}
        → m.role ≡ other_role r
        → insert_loop now pending existing (m ∷ ms) ≡ m ∷ insert_loop now pending existing ms
    unfolding insert_loop
    insert_loop-other h = ground arith

  insert_loop-IsAnswered :
      (pending : List ContentBlock) (existing : List String) (ms : List Message)
      → IsAnswered pending existing (insert_loop now pending existing ms)
  unfolding insert_loop
  insert_loop-IsAnswered pending existing [] =
      subst (IsAnswered pending existing) (append-nil (missing_results now pending existing)) (
        missing_results-IsAnswered pending pending existing existing [] (λ s h. h) (λ later a _. a))
  insert_loop-IsAnswered pending existing (m ∷ ms) =
      by_role m.role refl (insert_loop-IsAnswered [] [] ms)
        (insert_loop-IsAnswered (tool_calls m.content) [] ms)
        (insert_loop-IsAnswered pending (m.tool_call_id ∷ existing) ms)
        (insert_loop-IsAnswered pending existing ms)
    where
      Goal : List Message → Type 0
      Goal = IsAnswered pending existing

      filled :
          (rest : List Message)
          → ((later : List String) → Answers later pending → IsAnswered pending later rest)
          → Goal (missing_results now pending existing ++ rest)
      filled rest k =
          missing_results-IsAnswered pending pending existing existing rest (λ s h. h)
            (λ later a _. k later a)

      by_role :
          (r : Role)
          → m.role ≡ r
          → IsAnswered [] [] (insert_loop now [] [] ms)
          → IsAnswered (tool_calls m.content) [] (insert_loop now (tool_calls m.content) [] ms)
          → IsAnswered pending
              (m.tool_call_id ∷ existing)
              (insert_loop now pending (m.tool_call_id ∷ existing) ms)
          → IsAnswered pending existing (insert_loop now pending existing ms)
          → Goal (insert_loop now pending existing (m ∷ ms))
      by_role user h clean _ _ _ = subst Goal (sym (insert_loop-user pending existing m ms h)) (
          filled (m ∷ insert_loop now [] [] ms)
            (λ later a. IsAnswered-user m pending later (insert_loop now [] [] ms) h a clean))
      by_role assistant h clean next _ _ = elim (Bool-cases (is_failed m.stop_reason)) [
        | inl failed ↦
            subst Goal (sym (insert_loop-assistant_failed pending existing m ms h failed)) (
              filled (insert_loop now [] [] ms)
                (λ later a. IsAnswered-weaken pending [] later (insert_loop now [] [] ms) a clean))
        | inr fine ↦ subst Goal (sym (insert_loop-assistant pending existing m ms h fine)) (
            filled (m ∷ insert_loop now (tool_calls m.content) [] ms) (λ later a.
              IsAnswered-assistant m pending later (insert_loop now (tool_calls m.content) [] ms) h
                a next))
      ]
      by_role tool_result h _ _ next _ =
          subst Goal (sym (insert_loop-tool_result pending existing m ms h)) (
            IsAnswered-result m pending existing
              (insert_loop now pending (m.tool_call_id ∷ existing) ms) h next)
      by_role (other_role r) h _ _ _ next =
          subst Goal (sym (insert_loop-other pending existing m ms h))
            (IsAnswered-other m pending existing (insert_loop now pending existing ms) h next)

  -- In the transcript that is sent, for every list of messages: each tool call of an assistant
  -- message has a tool result with its id behind that message and before the next assistant or
  -- user message, or before the end.
  pub insert_synthetic_tool_results-IsAnswered :
      (ms : List Message) → IsAnswered [] [] (insert_synthetic_tool_results now ms)
  unfolding insert_synthetic_tool_results
  insert_synthetic_tool_results-IsAnswered ms = insert_loop-IsAnswered [] [] ms
