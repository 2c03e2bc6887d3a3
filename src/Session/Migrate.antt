-- ===== src/Session/Migrate.antt =====
-- internal/session/storage.go: the migration of session files of versions 1 and 2. An entry of a file
-- is a JSON object as a map from its keys, or the nil map that a line `null` is read as; other lines
-- are dropped before. Random ids and the reading of number literals are parameters, and a version is a
-- natural number. That values which come from JSON can be written as JSON again is taken for granted.
pub mod Chained
use attention.Prelude.{
  ℕ, zero, suc, ◌+◌, String, slice, Bool, true, false, List, [], ◌∷◌, ◌++◌, Option, none, some,
  length, get_elem?, ◌==◌, ltb, eqb, map, if◌then◌else◌,
}
use attention.Prelude.Dict.{get, put, delete}
use attention.Value.{Value, Members, str}
use attention.Session.Types.{Error, Result, ok, err, panics, ◌>>=◌}

abbrev pub FileEntry : Type 0
FileEntry = List (String × Value)

-- A line that was read; `none` is the nil map.
abbrev pub FileLine : Type 0
FileLine = Option FileEntry

-- What reading a nil map gives.
abbrev pub members : FileLine → FileEntry
members none = []
members (some e) = e

unfoldable pub is_text : Option Value → String → Bool
is_text (some (Value.str s)) t = s == t
is_text _ t = false

-- `entry[key] == text`.
unfoldable pub has_text : FileEntry → (key text : String) → Bool
unfolding get is_text
has_text e k t = is_text (get e k) t

unfoldable pub is_header : FileEntry → Bool
unfolding has_text
is_header e = has_text e "type" "session"

contains : List String → String → Bool
contains [] s = false
contains (t ∷ ts) s = let rest = contains ts s in if t == s then true else rest

-- `entry["id"] = id`, `entry["parentId"] = prevID`.
unfoldable pub link : (id : String) → (previous : Value) → FileEntry → FileEntry
unfolding put
link id previous e = put (put e "id" (Value.str id)) "parentId" previous

module _ (new_random_id : ℕ → String) (read_index : String → Option ℕ) where
  -- `generateID`, from the number of random ids that were drawn.
  unfoldable pub generate_id : (tries : ℕ) → (ids : List String) → ℕ → String × ℕ
  unfolding contains
  generate_id zero ids n = (new_random_id n, suc n)
  generate_id (suc tries) ids n =
      let id = slice (new_random_id n) 0 8 in
      let next = generate_id tries ids (suc n) in if contains ids id then next else (id, suc n)

  -- The id of the entry that a compaction kept first, where that is a text.
  kept_id : Option FileLine → Option Value
  unfolding get is_header
  kept_id none = none
  kept_id (some target) =
      if is_header (members target)
      then none
      else elim (get (members target) "id") [ some (Value.str s) ↦ some (Value.str s) | _ ↦ none ]

  unfoldable pub replace_index : Option Value → FileEntry → FileEntry
  unfolding put delete
  replace_index none e = delete e "firstKeptEntryIndex"
  replace_index (some v) e = delete (put e "firstKeptEntryId" v) "firstKeptEntryIndex"

  unfoldable pub resolve_at : (files : List FileLine) → Option ℕ → FileEntry → FileEntry
  unfolding replace_index kept_id
  resolve_at files none e = replace_index none e
  resolve_at files (some i) e = replace_index (kept_id (get_elem? files i)) e

  unfoldable pub resolve_index : (files : List FileLine) → Option Value → FileEntry → FileEntry
  unfolding resolve_at
  resolve_index files (some (Value.num t)) e = resolve_at files (read_index t) e
  resolve_index files _ e = e

  -- The index of a compaction becomes an id: `files` are the entries of the file, as they are now.
  unfoldable pub resolve_kept : (files : List FileLine) → FileEntry → FileEntry
  unfolding get has_text resolve_index
  resolve_kept files e =
      if has_text e "type" "compaction"
      then resolve_index files (get e "firstKeptEntryIndex") e
      else e

  -- The loop of `migrateSessionV1ToV2`: `done` are the lines before, as they are now. Writing an id
  -- to a nil map panics.
  unfoldable pub v1_loop :
      (done : List FileLine)
      → (ids : List String) → (drawn : ℕ) → (previous : Value) → List FileLine
      → Result (List FileLine)
  unfolding is_header put generate_id resolve_kept link
  v1_loop done ids n previous [] = ok done
  v1_loop done ids n previous (none ∷ es) = panics
  v1_loop done ids n previous (some e ∷ es) = elim (is_header e) [
    | true ↦ v1_loop (done ++ some (put e "version" (Value.num "2")) ∷ []) ids n previous es
    | false ↦
        let (id, n') = generate_id 100 ids n in
        let linked = link id previous e in
        v1_loop (done ++ some (resolve_kept (done ++ some linked ∷ es) linked) ∷ []) (id ∷ ids) n'
          (Value.str id) es
  ]

  unfoldable pub migrate_v1_to_v2 : List FileLine → Result (List FileLine)
  unfolding v1_loop
  migrate_v1_to_v2 = v1_loop [] [] 0 Value.null

-- `msg["role"] = "custom"` in the object of a message.
unfoldable pub rename_role : Members → Members
rename_role Members.end = Members.end
rename_role (Members.member k v ms) =
    Members.member k (if k == "role" then Value.str "custom" else v) (rename_role ms)

unfoldable pub role_is_hook : Members → Bool
role_is_hook Members.end = false
role_is_hook (Members.member k v ms) =
    let rest = role_is_hook ms in
    if k == "role" then elim v [ str s ↦ s == "hookMessage" | _ ↦ false ] else rest

unfoldable pub v2_message : Option Value → FileEntry → FileEntry
unfolding put rename_role role_is_hook
v2_message (some (Value.obj ms)) e =
    if role_is_hook ms then put e "message" (Value.obj (rename_role ms)) else e
v2_message _ e = e

-- The body of the loop of `migrateSessionV2ToV3`.
unfoldable pub v2_entry : FileEntry → FileEntry
unfolding is_header has_text get put v2_message
v2_entry e =
    if is_header e
    then put e "version" (Value.num "3")
    else if has_text e "type" "message"
    then v2_message (get e "message") e
    else e

unfoldable pub migrate_v2_to_v3 : List FileLine → List FileLine
unfolding v2_entry
migrate_v2_to_v3 [] = []
migrate_v2_to_v3 (none ∷ es) = none ∷ migrate_v2_to_v3 es
migrate_v2_to_v3 (some e ∷ es) = some (v2_entry e) ∷ migrate_v2_to_v3 es

-- The version of a file, by its first header; 0 where it has none.
unfoldable pub file_version : (read_version : String → ℕ) → List FileLine → ℕ
unfolding is_header get
file_version read [] = 0
file_version read (e ∷ es) =
    let rest = file_version read es in
    if is_header (members e)
    then elim (get (members e) "version") [ some (Value.num t) ↦ read t | _ ↦ 1 ]
    else rest

-- The file is written again; `write` says whether that fails.
unfoldable pub rewrite : (write : Option Error) → List FileLine → Result (Option (List FileLine))
rewrite none out = ok (some out)
rewrite (some e) out = err e

-- `migrateSessionFile`; `none` where the file stays as it is.
unfoldable pub migrate_session_file :
    (new_random_id : ℕ → String)
    → (read_index : String → Option ℕ) → (read_version : String → ℕ) → (write : Option Error)
    → List FileLine
    → Result (Option (List FileLine))
unfolding file_version migrate_v1_to_v2 migrate_v2_to_v3 rewrite
migrate_session_file new_random_id read_index read_version write files =
    let version = file_version read_version files in
    if eqb version 0
    then ok none
    else if ltb 2 version
    then ok none
    else if ltb version 2
    then (do
      linked ← migrate_v1_to_v2 new_random_id read_index files
      rewrite write (migrate_v2_to_v3 linked))
    else rewrite write (migrate_v2_to_v3 files)
