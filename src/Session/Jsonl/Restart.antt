-- ===== src/Session/Jsonl/Restart.antt =====
-- A storage that is opened again after it was written to.
use attention.Prelude.{
  ℕ, ◌≡◌, refl, sym, ◌∙◌, ap, subst, String, true, false, List, [], ◌∷◌, ◌++◌, Option, none,
  some-injective, All, ◌==◌,
}
use attention.Session.Types.{Body, SessionEntry, ok, Error}
use attention.Session.Core.{
  Core, empty, add_entry, move_leaf, check_leaf, update_label_cache, leaf_id_after_entry,
}
use attention.Session.Json.Fields.{Codec}
use attention.Session.Json.RoundTrip.{decode_entry-encode_entry}
use attention.Session.Jsonl.{
  Line, lines, CreateOptions, JsonlStorage, created, all_lines, entry_lines, has_assistant,
  create_entry_id, append_entry, set_leaf_id, jsonl-Laws,
}
use attention.Session.Jsonl.Header.{IsHeader}
use attention.Session.Jsonl.Sync.{InSync, append_entry-InSync, set_leaf_id-InSync}
use attention.Session.Jsonl.Reopen.{open_jsonl, add_entries, IsWritable, open_jsonl-all_lines}

module _ (codec : Codec) (path : String) (new_random_id : ℕ → String)
    (disk : ℕ → Option Error) where
  -- The file holds the session: it opens to this header and this core.
  abbrev pub Reopens : JsonlStorage → Type 0
  Reopens s =
      (ls : List Line) × (s.file ≡ lines ls)
      × (open_jsonl codec path ls ≡ ok (s.session_header, s.core))

  -- The storages that calls lead to from one that was created, while no write fails: entries that JSON
  -- keeps are appended, and the leaf is moved to entries that are there.
  pub data Reached : JsonlStorage → Type 0 where
    start :
        (timestamp id : String) (opts : CreateOptions) (drawn : ℕ)
        → IsHeader codec (created path timestamp id opts drawn).session_header
        → Reached (created path timestamp id opts drawn)
    appended :
        (s : JsonlStorage) (e : SessionEntry)
        → Reached s
        → IsWritable codec e
        → disk s.writes ≡ none
        → Reached (append_entry codec new_random_id disk e s).1
    moved :
        (s : JsonlStorage) (now : String) (target : Option String)
        → Reached s
        → ((create_entry_id codec new_random_id disk s).0 == "") ≡ false
        → (now == "") ≡ false
        → disk s.writes ≡ none
        → check_leaf target s.core ≡ ok tt
        → Reached (set_leaf_id codec new_random_id disk now target s).1

  -- Every entry can be written, and the core is what the entries build.
  abbrev pub Built : Core → Type 0
  Built c = All (IsWritable codec) c.entries × (c ≡ add_entries c.entries empty)

  abbrev pub Sound : JsonlStorage → Type 0
  Sound s = InSync codec s × IsHeader codec s.session_header × Built s.core

  add_entries-append :
      (es : List SessionEntry) (e : SessionEntry) (c : Core)
      → add_entries (es ++ e ∷ []) c ≡ add_entry e (add_entries es c)
  add_entries-append [] e c = refl
  add_entries-append (x ∷ es) e c = add_entries-append es e (add_entry x c)

  All-append :
      (es : List SessionEntry) (e : SessionEntry)
      → All (IsWritable codec) es
      → IsWritable codec e
      → All (IsWritable codec) (es ++ e ∷ [])
  All-append [] e a w = (w, tt)
  All-append (x ∷ es) e (h, a) w = (h, All-append es e a w)

  add_entry-Built :
      (e : SessionEntry) (c : Core) → Built c → IsWritable codec e → Built (add_entry e c)
  unfolding add_entry
  add_entry-Built e c (a, same) w = (
    All-append c.entries e a w,
    ap (add_entry e) same ∙ sym (add_entries-append c.entries e empty),
  )

  move_leaf-Built :
      (id now : String) (target : Option String) (c : Core)
      → Built c
      → (id == "") ≡ false
      → (now == "") ≡ false
      → Built (move_leaf id now target c)
  unfolding move_leaf add_entry update_label_cache leaf_id_after_entry
  move_leaf-Built id now target c b i t =
      add_entry-Built
        (record { id = id; parent_id = c.leaf_id; timestamp = now; body = Body.leaf target }) c b
        (i, t, tt)

  pub Reached-Sound : (s : JsonlStorage) → Reached s → Sound s
  unfolding created empty all_lines entry_lines has_assistant
  Reached-Sound s (start timestamp id opts drawn g) = (
    record {
      written = _;
      are_lines = refl;
      on_disk = λ done. absurd (cc);
      buffered = λ _. (refl, refl);
    },
    g,
    (tt, refl),
  )
  Reached-Sound s (appended s0 e r w fine) =
      let (sync, good, built) = Reached-Sound s0 r in
      let (v, enc, _) = decode_entry-encode_entry codec path 0 e w.0 w.1 w.2 in
      let (sync', _, _, same) =
        append_entry-InSync codec new_random_id disk s0 e sync (v, enc) fine in
      (
        sync',
        subst (IsHeader codec) (sym same) good,
        subst Built (sym ((jsonl-Laws codec new_random_id disk).core-append_entry e s0))
            (add_entry-Built e s0.core built w),
      )
  Reached-Sound s (moved s0 now target r i t fine known) =
      let (sync, good, built) = Reached-Sound s0 r in
      let (sync', _, same) =
        set_leaf_id-InSync codec new_random_id disk s0 now target sync fine known in
      (
        sync',
        subst (IsHeader codec) (sym same) good,
        subst Built
            (sym ((jsonl-Laws codec new_random_id disk).core-set_leaf_id now target s0 known))
            (move_leaf-Built (create_entry_id codec new_random_id disk s0).0 now target s0.core
              built i t),
      )

  -- Wherever calls lead to from a storage that was created, while no write fails, the entries are such
  -- that JSON keeps their fields, and ids and timestamps are there: once the session is flushed, its
  -- file opens to the header and the whole core that it has.
  pub Reached-Reopens : (s : JsonlStorage) → Reached s → s.flushed ≡ true → Reopens s
  Reached-Reopens s r done =
      let (sync, good, (a, same)) = Reached-Sound s r in
      let (ls, are, opened) =
        open_jsonl-all_lines codec path s.session_header s.core.entries good a in
      (
        ls,
        sync.on_disk done
            ∙ ap (λ xs. lines xs) (some-injective sync.written ls (sym sync.are_lines ∙ are)),
        opened ∙ ap (λ c. ok (s.session_header, c)) (sym same),
      )
