-- ===== src/Session/Context/Refine.antt =====
-- The loops of `buildContextFromPath` against a description without indices.
use attention.Prelude.{
  ℕ, suc, ◌≡◌, refl, sym, ◌∙◌, ap, String, Bool, true, false, List, [], ◌∷◌, ◌++◌, none, some, ◌==◌,
  eq_refl, arith, All, Bool-cases, inl, inr, length, append_assoc, append-nil, take, drop,
  if◌then◌else◌,
}
use attention.Value.{Value}
use attention.Message.{AgentMessage, custom, branch_summary, snapshot}
use attention.Session.Types.{Body, SessionEntry}
use attention.Session.Context.{
  Compaction, Scan, scan, scan_body, is_compaction_of, compaction_index, append_body,
  append_context_message, append_all, append_kept, summary_message, context_messages,
  messages_around, build_context_from_path,
}
use attention.Session.Context.Latest.{
  or_else, with_default, latest, level_set, model_set, level-scan, model-scan,
}

-- No entry of the list is a compaction.
abbrev pub IsUncompacted : Body → Type 0
IsUncompacted (Body.compaction t k n d h) = ⊥
IsUncompacted _ = Unit

-- From the entry with this id on.
unfoldable pub kept_from : String → List SessionEntry → List SessionEntry
kept_from id [] = []
kept_from id (e ∷ es) = let rest = kept_from id es in if e.id == id then e ∷ es else rest

module _ (parse_millis : String → ℕ) where
  -- What an entry shows, by its type: no message, or one.
  unfoldable pub shown : SessionEntry → Body → List AgentMessage
  shown e (Body.message m) = snapshot m ∷ []
  shown e (Body.custom_message t c d x) =
      custom (record {
        custom_type = t;
        content = c;
        display = d;
        details = x;
        timestamp = parse_millis e.timestamp;
      })
      ∷ []
  shown e (Body.branch_summary summary from x hook) =
      if summary == ""
      then []
      else branch_summary (record {
        summary = summary;
        from_id = elim from [ none ↦ "root" | some id ↦ id ];
        timestamp = parse_millis e.timestamp;
      })
        ∷ []
  shown e _ = []

  abbrev pub message_of : SessionEntry → List AgentMessage
  message_of e = shown e e.body

  abbrev pub messages_of : List SessionEntry → List AgentMessage
  messages_of [] = []
  messages_of (e ∷ es) = message_of e ++ messages_of es

  append_body-append :
      (ms : List AgentMessage) (e : SessionEntry) (b : Body)
      → append_body parse_millis ms e b ≡ ms ++ shown e b
  unfolding append_body shown
  append_body-append ms e (Body.message m) = refl
  append_body-append ms e (Body.custom_message t c d x) = refl
  append_body-append ms e (Body.branch_summary summary from details hook) =
      ground (arith, append-nil ms)
  append_body-append ms e _ = sym (append-nil ms)

  append_context_message-append :
      (ms : List AgentMessage) (e : SessionEntry)
      → append_context_message parse_millis ms e ≡ ms ++ message_of e
  unfolding append_context_message
  append_context_message-append ms e = append_body-append ms e e.body

  append_all-append :
      (ms : List AgentMessage) (es : List SessionEntry)
      → append_all parse_millis ms es ≡ ms ++ messages_of es
  unfolding append_all
  append_all-append ms [] = sym (append-nil ms)
  append_all-append ms (e ∷ es) =
      append_all-append (append_context_message parse_millis ms e) es
      ∙ ap (λ x. x ++ messages_of es) (append_context_message-append ms e)
      ∙ append_assoc ms (message_of e) (messages_of es)

  append_kept-found :
      (id : String) (ms : List AgentMessage) (es : List SessionEntry)
      → append_kept parse_millis id true ms es ≡ ms ++ messages_of es
  unfolding append_kept
  append_kept-found id ms [] = sym (append-nil ms)
  append_kept-found id ms (e ∷ es) =
      append_kept-found id (append_context_message parse_millis ms e) es
      ∙ ap (λ x. x ++ messages_of es) (append_context_message-append ms e)
      ∙ append_assoc ms (message_of e) (messages_of es)

  append_kept-kept_from :
      (id : String) (ms : List AgentMessage) (es : List SessionEntry)
      → append_kept parse_millis id false ms es ≡ ms ++ messages_of (kept_from id es)
  unfolding append_kept kept_from
  append_kept-kept_from id ms [] = sym (append-nil ms)
  append_kept-kept_from id ms (e ∷ es) = elim (Bool-cases (e.id == id)) [
    | inl here ↦ rw here (append_kept-found id ms (e ∷ es))
    | inr later ↦ rw later (append_kept-kept_from id ms es)
  ]

scan-append : (xs ys : List SessionEntry) (s : Scan) → scan (xs ++ ys) s ≡ scan ys (scan xs s)
unfolding scan
scan-append [] ys s = refl
scan-append (e ∷ xs) ys s = scan-append xs ys (scan_body e e.body s)

scan_body-IsUncompacted :
    (e : SessionEntry) (b : Body) (s : Scan)
    → IsUncompacted b
    → (scan_body e b s).last_compaction ≡ s.last_compaction
unfolding scan_body
scan_body-IsUncompacted e (Body.compaction t k n d h) s u = absurd u
scan_body-IsUncompacted e (Body.message m) s u = ground arith
scan_body-IsUncompacted e _ s u = refl

scan-IsUncompacted :
    (es : List SessionEntry) (s : Scan)
    → All (λ e. IsUncompacted e.body) es
    → (scan es s).last_compaction ≡ s.last_compaction
unfolding scan
scan-IsUncompacted [] s u = refl
scan-IsUncompacted (e ∷ es) s (u, us) =
    scan-IsUncompacted es (scan_body e e.body s) us ∙ scan_body-IsUncompacted e e.body s u

compaction_index-append :
    (id : String) (pre post : List SessionEntry) (c : SessionEntry)
    → All (λ e. is_compaction_of id e ≡ false) pre
    → is_compaction_of id c ≡ true
    → compaction_index id (pre ++ c ∷ post) ≡ some (length pre)
unfolding compaction_index
compaction_index-append id [] post c a h = rw h
compaction_index-append id (e ∷ pre) post c (n, a) h =
    rw (n, compaction_index-append id pre post c a h)

take-append_length : (pre post : List SessionEntry) → take (length pre) (pre ++ post) ≡ pre
take-append_length [] post = refl
take-append_length (e ∷ pre) post = ap (◌∷◌ e) (take-append_length pre post)

drop-append_length :
    (pre post : List SessionEntry) (c : SessionEntry)
    → drop (suc (length pre)) (pre ++ c ∷ post) ≡ post
drop-append_length [] post c = refl
drop-append_length (e ∷ pre) post c = drop-append_length pre post c

is_compaction_of_self :
    (e : SessionEntry) {summary first_kept : String} {tokens : ℕ} {details : Value} {hook : Bool}
    → e.body ≡ Body.compaction summary first_kept tokens details hook
    → is_compaction_of e.id e ≡ true
unfolding is_compaction_of
is_compaction_of_self e b = rw b (eq_refl e.id)

-- The compaction that an entry is.
abbrev pub compaction_at : SessionEntry → (summary first_kept : String) → ℕ → Compaction
compaction_at e summary first_kept tokens = record {
  id = e.id;
  timestamp = e.timestamp;
  summary = summary;
  first_kept_entry_id = first_kept;
  tokens_before = tokens;
}

module _ (parse_millis : String → ℕ) where
  -- The context of a branch whose entries are no compactions: its messages are what the entries
  -- show, in order; its thinking level is the last that an entry sets, `off` without one; its model is
  -- that of the last change of the model or assistant message.
  pub build_context-IsUncompacted :
      (path : List SessionEntry)
      → All (λ e. IsUncompacted e.body) path
      → let context = build_context_from_path parse_millis path in
        (context.messages ≡ messages_of parse_millis path)
        × (context.thinking_level ≡ with_default (latest level_set path) "off")
        × (context.model ≡ or_else (latest model_set path) none)
  unfolding build_context_from_path context_messages
  build_context-IsUncompacted path u =
      let start : Scan = record { thinking_level = "off"; model = none; last_compaction = none } in
      (
        ap (λ c. context_messages parse_millis c path) (scan-IsUncompacted path start u)
            ∙ append_all-append parse_millis [] path,
        level-scan path start,
        model-scan path start,
      )

  context_messages_lem :
      (c : Compaction) (e : SessionEntry) (pre post : List SessionEntry)
      → All (λ x. is_compaction_of c.id x ≡ false) pre
      → is_compaction_of c.id e ≡ true
      → context_messages parse_millis (some c) (pre ++ e ∷ post)
        ≡ summary_message parse_millis c
          ∷ (messages_of parse_millis (kept_from c.first_kept_entry_id pre)
              ++ messages_of parse_millis post)
  unfolding context_messages messages_around
  context_messages_lem c e pre post other here =
      let start = summary_message parse_millis c ∷ [] in
      let kept = append_kept parse_millis c.first_kept_entry_id false start pre in
      ap (λ i. messages_around parse_millis c i (pre ++ e ∷ post))
        (compaction_index-append c.id pre post e other here)
      ∙ ap
          (λ x.
            append_all parse_millis (append_kept parse_millis c.first_kept_entry_id false start x)
              (drop (suc (length pre)) (pre ++ e ∷ post)))
          (take-append_length pre (e ∷ post))
      ∙ ap (append_all parse_millis kept) (drop-append_length pre post e)
      ∙ append_all-append parse_millis kept post
      ∙ ap (λ x. x ++ messages_of parse_millis post)
          (append_kept-kept_from parse_millis c.first_kept_entry_id start pre)

  -- The context of a branch with a compaction, where no earlier entry is a compaction of that id
  -- and no later entry is a compaction: its messages are the summary, then those of the earlier
  -- entries from the first one with the kept id on, then those of the later entries.
  pub build_context-compaction :
      (pre post : List SessionEntry) (e : SessionEntry) (summary first_kept : String) (tokens : ℕ)
      (details : Value) (hook : Bool)
      → e.body ≡ Body.compaction summary first_kept tokens details hook
      → All (λ x. is_compaction_of e.id x ≡ false) pre
      → All (λ x. IsUncompacted x.body) post
      → (build_context_from_path parse_millis (pre ++ e ∷ post)).messages
        ≡ summary_message parse_millis (compaction_at e summary first_kept tokens)
          ∷ (messages_of parse_millis (kept_from first_kept pre) ++ messages_of parse_millis post)
  unfolding build_context_from_path scan
  build_context-compaction pre post e summary first_kept tokens details hook b other u =
      let start : Scan = record { thinking_level = "off"; model = none; last_compaction = none } in
      let c = compaction_at e summary first_kept tokens in
      ap (λ s. context_messages parse_millis s.last_compaction (pre ++ e ∷ post))
        (scan-append pre (e ∷ post) start)
      ∙ ap (λ s. context_messages parse_millis s (pre ++ e ∷ post))
          (scan-IsUncompacted post (scan_body e e.body (scan pre start)) u
            ∙ ap (λ x. (scan_body e x (scan pre start)).last_compaction) b)
      ∙ context_messages_lem c e pre post other (is_compaction_of_self e b)
