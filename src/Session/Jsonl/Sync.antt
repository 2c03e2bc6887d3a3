-- ===== src/Session/Jsonl/Sync.antt =====
-- The file and the core of a `JsonlSessionStorage` agree, as long as no write fails.
use attention.Prelude.{
  ℕ, suc, ◌≡◌, refl, sym, ap, ◌∙◌, subst, String, Bool, true, false, List, [], ◌∷◌, ◌++◌, Option,
  none, some, inl, inr, Bool-cases, ◌||◌, if◌then◌else◌,
}
use attention.Value.{Value}
use attention.Session.Types.{Body, SessionEntry, Result, ok, Error}
use attention.Session.Core.{Core, add_entry, move_leaf, check_leaf}
use attention.Session.Json.Fields.{Codec, ◌>>=◌}
use attention.Session.Json.{encode_body, encode_entry}
use attention.Session.Jsonl.Header.{SessionHeader, encode_header}
use attention.Session.Jsonl.{
  Line, json, absent, lines, JsonlStorage, has_assistant, entry_lines, all_lines, flush_lines,
  append_value, append_to, persist, flush_all, append_line, append_entry, set_leaf_id,
  create_entry_id,
}

-- Every entry has a line. Once flushed, the file is the lines of the header and of every entry;
-- before, there is no file, and the session has no assistant message.
pub record InSync (codec : Codec) (s : JsonlStorage) : Type 0 where
  pub written : List Line
  pub are_lines : all_lines codec s.session_header s.core.entries ≡ some written
  pub on_disk : s.flushed ≡ true → s.file ≡ lines written
  pub buffered : s.flushed ≡ false → (s.file ≡ absent) × (has_assistant s.core.entries ≡ false)

-- The entry can be written.
abbrev pub HasLine : Codec → SessionEntry → Type 0
HasLine codec e = (v : Value) × (encode_entry codec e ≡ some v)

module _ (codec : Codec) where
  chained :
      (v : Option Value) (w : Option Value) (o : Option (List Line))
      → (v >>= λ x. (o >>= λ ls. w >>= λ y. some (ls ++ json y ∷ [])) >>= λ ls. some (json x ∷ ls))
        ≡ ((v >>= λ x. o >>= λ ls. some (json x ∷ ls)) >>= λ ls.
            w >>= λ y. some (ls ++ json y ∷ []))
  chained none w o = refl
  chained (some x) w none = refl
  chained (some x) none (some ls) = refl
  chained (some x) (some y) (some ls) = refl

  entry_lines-append :
      (es : List SessionEntry) (e : SessionEntry)
      → entry_lines codec (es ++ e ∷ [])
        ≡ (entry_lines codec es >>= λ ls. encode_entry codec e >>= λ v. some (ls ++ json v ∷ []))
  unfolding entry_lines
  entry_lines-append [] e = refl
  entry_lines-append (x ∷ es) e =
      ap (λ o. encode_entry codec x >>= λ v. o >>= λ ls. some (json v ∷ ls))
        (entry_lines-append es e)
      ∙ chained (encode_entry codec x) (encode_entry codec e) (entry_lines codec es)

  headed :
      (h : Line) (w : Option Value) (o : Option (List Line))
      → ((o >>= λ ls. w >>= λ y. some (ls ++ json y ∷ [])) >>= λ ls. some (h ∷ ls))
        ≡ ((o >>= λ ls. some (h ∷ ls)) >>= λ ls. w >>= λ y. some (ls ++ json y ∷ []))
  headed h w none = refl
  headed h none (some ls) = refl
  headed h (some y) (some ls) = refl

  all_lines-append :
      (h : SessionHeader) (es : List SessionEntry) (e : SessionEntry) (ls : List Line) (v : Value)
      → all_lines codec h es ≡ some ls
      → encode_entry codec e ≡ some v
      → all_lines codec h (es ++ e ∷ []) ≡ some (ls ++ json v ∷ [])
  unfolding all_lines
  all_lines-append h es e ls v a b =
      ap (λ o. o >>= λ xs. some (json (encode_header codec h) ∷ xs)) (entry_lines-append es e)
      ∙ headed (json (encode_header codec h)) (encode_entry codec e) (entry_lines codec es)
      ∙ ap (λ o. o >>= λ xs. encode_entry codec e >>= λ y. some (xs ++ json y ∷ [])) a
      ∙ ap (λ o. o >>= λ y. some (ls ++ json y ∷ [])) b

module _ (codec : Codec) (new_random_id : ℕ → String) (disk : ℕ → Option Error) where
  -- What writing an entry out leaves: it succeeds, the file agrees with the core, the session is
  -- flushed exactly if it was before or has an assistant message, and keeps its header.
  abbrev pub Persisted :
      (was_flushed : Bool)
      → List SessionEntry
      → SessionHeader
      → Result (Unit {0}) × JsonlStorage
      → Type 0
  Persisted was_flushed es h o =
      InSync codec o.1
      × (o.0 ≡ ok tt)
      × (o.1.flushed ≡ (was_flushed || has_assistant es))
      × (o.1.session_header ≡ h)

  append_value-works :
      (id : String) (v : Value) (s : JsonlStorage) (ls : List Line)
      → disk s.writes ≡ none
      → s.file ≡ lines ls
      → append_value codec new_random_id disk id (some v) s
        ≡ (ok tt, record s { file = lines (ls ++ json v ∷ []); writes = suc s.writes })
  unfolding append_value append_to
  append_value-works id v s ls fine f = rw (f, fine) refl

  flush_lines-works :
      (ls : List Line) (s : JsonlStorage)
      → disk s.writes ≡ none
      → flush_lines codec new_random_id disk (some ls) s
        ≡ (ok tt, record s { file = lines ls; flushed = true; writes = suc s.writes })
  unfolding flush_lines
  flush_lines-works ls s fine = rw (fine, flush_lines) refl

  -- Writing out an entry that the core has taken already.
  persist-Persisted :
      (s : JsonlStorage) (c : Core) (e : SessionEntry)
      → InSync codec s
      → HasLine codec e
      → c.entries ≡ s.core.entries ++ e ∷ []
      → disk s.writes ≡ none
      → Persisted s.flushed c.entries s.session_header
          (persist codec new_random_id disk e (record s { core = c }))
  unfolding persist flush_all append_line
  persist-Persisted s c e sync (v, enc) grown fine = elim (Bool-cases s.flushed) [
    | inl done ↦
        subst Done
          (sym (
            ap by_flushed done
            ∙ ap (λ o. append_value codec new_random_id disk e.id o s') enc
            ∙ append_value-works e.id v s' sync.written fine (sync.on_disk done)))
          (
            record {
              written = after;
              are_lines = all;
              on_disk = λ _. refl;
              buffered = λ early. absurd (cc);
            },
            refl,
            done ∙ sym (ap (λ b. b || has_assistant c.entries) done),
            refl,
          )
    | inr early ↦ elim (Bool-cases (has_assistant c.entries)) [
      | inl has ↦
          subst Done
            (sym (
              ap by_flushed early
              ∙ ap by_assistant has
              ∙ ap (λ o. flush_lines codec new_random_id disk o s') all
              ∙ flush_lines-works after s' fine))
            (
              record {
                written = after;
                are_lines = all;
                on_disk = λ _. refl;
                buffered = λ e. absurd (cc);
              },
              refl,
              sym (ap (λ b. b || has_assistant c.entries) early ∙ has),
              refl,
            )
      | inr lacks ↦ subst Done (sym (ap by_flushed early ∙ ap by_assistant lacks)) (
        record {
          written = after;
          are_lines = all;
          on_disk = λ done. absurd (cc);
          buffered = λ _. ((sync.buffered early).0, lacks);
        },
        refl,
        early ∙ sym (ap (λ b. b || has_assistant c.entries) early ∙ lacks),
        refl,
      )
    ]
  ]
    where
      s' : JsonlStorage
      s' = record s { core = c }

      Done : Result (Unit {0}) × JsonlStorage → Type 0
      Done = Persisted s.flushed c.entries s.session_header

      after : List Line
      after = sync.written ++ json v ∷ []

      all : all_lines codec s.session_header c.entries ≡ some after
      all =
          ap (all_lines codec s.session_header) grown
          ∙ all_lines-append codec s.session_header s.core.entries e sync.written v sync.are_lines
              enc

      by_assistant : Bool → Result (Unit {0}) × JsonlStorage
      by_assistant b = if b then flush_all codec new_random_id disk s' else (ok tt, s')

      by_flushed : Bool → Result (Unit {0}) × JsonlStorage
      by_flushed b =
          if b
          then append_line codec new_random_id disk e s'
          else by_assistant (has_assistant c.entries)

  -- Where the file agrees with the core, the entry can be written and the next write does not fail:
  -- `AppendEntry` succeeds and the file agrees with the core again. Once flushed it is the header and
  -- every entry, and before that it is absent and no entry is an assistant message. It is flushed
  -- exactly if it was before or has an assistant message now, so that nothing is written before the
  -- first of them.
  pub append_entry-InSync :
      (s : JsonlStorage) (e : SessionEntry)
      → InSync codec s
      → HasLine codec e
      → disk s.writes ≡ none
      → Persisted s.flushed
          (s.core.entries ++ e ∷ [])
          s.session_header
          (append_entry codec new_random_id disk e s)
  unfolding append_entry add_entry
  append_entry-InSync s e sync line fine =
      persist-Persisted s (add_entry e s.core) e sync line refl fine

  pub set_leaf_id-InSync :
      (s : JsonlStorage) (now : String) (target : Option String)
      → InSync codec s
      → disk s.writes ≡ none
      → check_leaf target s.core ≡ ok tt
      → InSync codec (set_leaf_id codec new_random_id disk now target s).1
        × ((set_leaf_id codec new_random_id disk now target s).0 ≡ ok tt)
        × ((set_leaf_id codec new_random_id disk now target s).1.session_header ≡ s.session_header)
  unfolding set_leaf_id move_leaf encode_entry encode_body
  set_leaf_id-InSync s now target sync fine known =
      let s' = (create_entry_id codec new_random_id disk s).1 in
      let id = (create_entry_id codec new_random_id disk s).0 in
      let (sync', works, flushed, same) =
        persist-Persisted s' (move_leaf id now target s'.core)
          (record { id = id; parent_id = s.core.leaf_id; timestamp = now; body = Body.leaf target })
          (record {
            written = sync.written;
            are_lines = sync.are_lines;
            on_disk = sync.on_disk;
            buffered = sync.buffered;
          })
          (_, refl) refl fine in
      rw (known, set_leaf_id) (sync', works, same)
