-- ===== src/Session/Core.antt =====
-- The bookkeeping that both storages keep in memory (internal/session/memory.go and storage.go):
-- the entries in order of arrival, the index `byID`, the leaf and the label cache.
use attention.Prelude.{
  ℕ, zero, suc, String, Bool, true, false, List, [], ◌∷◌, ◌++◌, Option, none, some, length,
  get_elem?, reverse, trim_space, ◌==◌, if◌then◌else◌,
}
use attention.Prelude.Dict.{get, put, delete, has}
use Prim.Native.String
use attention.Session.Types.{
  Body, SessionEntry, invalid_session, not_found, Result, ok, err, diverges, panics, ◌>>=◌,
}

pub record Core : Type 0 where
  pub entries : List SessionEntry
  pub by_id : List (String × ℕ)
  pub leaf_id : Option String
  pub labels : List (String × String)

unfoldable pub empty : Core
empty = record { entries = []; by_id = []; leaf_id = none; labels = [] }

unfoldable pub entry_not_found : String → String
entry_not_found id = String.◌++◌ "Entry " (String.◌++◌ id " not found")

-- `updateLabelCache`.
set_label : List (String × String) → String → String → List (String × String)
set_label labels target text = if text == "" then delete labels target else put labels target text

update_label_cache_body : List (String × String) → Body → List (String × String)
unfolding set_label
update_label_cache_body labels (Body.label (some target) text) =
    set_label labels target (trim_space text)
update_label_cache_body labels _ = labels

unfoldable pub update_label_cache : List (String × String) → SessionEntry → List (String × String)
unfolding update_label_cache_body set_label
update_label_cache labels entry = update_label_cache_body labels entry.body

leaf_id_after_body : String → Body → Option String
leaf_id_after_body id (Body.leaf target) = target
leaf_id_after_body id _ = some id

-- `leafIDAfterEntry`.
unfoldable pub leaf_id_after_entry : SessionEntry → Option String
unfolding leaf_id_after_body
leaf_id_after_entry entry = leaf_id_after_body entry.id entry.body

-- What `AppendEntry` and the loop of `OpenJSONL` do with an entry.
unfoldable pub add_entry : SessionEntry → Core → Core
unfolding update_label_cache leaf_id_after_entry
add_entry entry c = record {
  entries = c.entries ++ entry ∷ [];
  by_id = put c.by_id entry.id (length c.entries);
  leaf_id = leaf_id_after_entry entry;
  labels = update_label_cache c.labels entry;
}

unfoldable pub get_leaf_id : Core → Result (Option String)
unfolding entry_not_found
get_leaf_id c = elim c.leaf_id [
  | none ↦ ok none
  | some id ↦
      if has c.by_id id
      then ok (some id)
      else err (record { code = invalid_session; text = entry_not_found id })
]

-- The entry that `SetLeafID` records, and the leaf it moves to.
unfoldable pub move_leaf : (id now : String) → Option String → Core → Core
move_leaf id now target c =
    let entry : SessionEntry = record {
      id = id;
      parent_id = c.leaf_id;
      timestamp = now;
      body = Body.leaf target;
    } in
    record c {
      entries = c.entries ++ entry ∷ [];
      by_id = put c.by_id id (length c.entries);
      leaf_id = target;
    }

-- The guard of `SetLeafID`.
unfoldable pub check_leaf : Option String → Core → Result (Unit {0})
unfolding entry_not_found
check_leaf none c = ok tt
check_leaf (some id) c =
    if has c.by_id id then ok tt else err (record { code = not_found; text = entry_not_found id })

unfoldable pub get_entry : String → Core → Option SessionEntry
get_entry id c = elim (get c.by_id id) [ none ↦ none | some i ↦ get_elem? c.entries i ]

unfoldable pub get_label : String → Core → Option String
get_label id c = get c.labels id

-- `FindEntries`; the test on `entry.Type` is the argument `is`.
unfoldable pub find_entries : (Body → Bool) → List SessionEntry → List SessionEntry
find_entries is [] = []
find_entries is (e ∷ es) = let rest = find_entries is es in if is e.body then e ∷ rest else rest

-- The loop of `GetPathToRoot`, from an entry to the root. Without fuel it is the loop that goes on.
unfoldable pub walk : ℕ → Core → String → List SessionEntry → Result (List SessionEntry)
unfolding entry_not_found
walk zero c current path = diverges
walk (suc fuel) c current path = elim (get c.by_id current) [
  | none ↦ err (record { code = not_found; text = entry_not_found current })
  | some i ↦ elim (get_elem? c.entries i) [
    | none ↦ panics
    | some entry ↦ elim entry.parent_id [
      | none ↦ ok (path ++ entry ∷ [])
      | some parent ↦ elim (has c.by_id parent) [
        | true ↦ walk fuel c parent (path ++ entry ∷ [])
        | false ↦ err (record { code = invalid_session; text = entry_not_found parent })
      ]
    ]
  ]
]

-- `GetPathToRoot`: the walk has as much fuel as there are entries.
unfoldable pub get_path_to_root : Option String → Core → Result (List SessionEntry)
unfolding walk
get_path_to_root none c = ok []
get_path_to_root (some id) c = do path ← walk (suc (length c.entries)) c id []; ok (reverse path)
