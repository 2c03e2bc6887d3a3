-- ===== src/Session/Jsonl.antt =====
-- internal/session/storage.go: `JsonlSessionStorage`. A line of the file is the JSON value that its
-- text stands for, written and read by Session/Json; the text itself is the library's. `disk` says of
-- each write whether it fails, and with what.
pub mod Header
pub mod Sync
pub mod Reopen
pub mod Restart
use attention.Prelude.{
  ℕ, zero, suc, ◌+◌, ◌≡◌, refl, String, Bool, true, false, List, [], ◌∷◌, ◌++◌, map, Option, none,
  some, arith, ◌==◌, if◌then◌else◌,
}
use Prim.Native.String
use attention.Ai.Types.{is_assistant}
use attention.Message.{AgentMessage, as_ai_message}
use attention.Session.Types.{
  Body, SessionEntry, Metadata, Result, ok, err, diverges, panics, Error, storage, invalid_entry,
  invalid_session,
}
use attention.Session.Core.{Core, empty, add_entry, move_leaf, check_leaf}
use attention.Session.Storage.{Action, SessionStorage, Laws}
use attention.Session.Memory.{draw_id}
use attention.Value.{Value}
use attention.Session.Json.Fields.{Codec, ◌>>=◌}
use attention.Session.Json.{encode_entry}
use attention.Session.Jsonl.Header.{SessionHeader, encode_header}

-- A line: a value, or a text that is no JSON. Blank lines, which are passed over everywhere, are left
-- out.
pub data Line : Type 0 where
  json : Value → Line
  malformed : Line

-- The file on the disk; after a failed write its content is not known.
pub data File : Type 0 where
  absent unknown : File
  lines : List Line → File

pub record JsonlStorage : Type 0 where
  pub path : String
  pub metadata : Metadata
  pub session_header : SessionHeader
  pub flushed : Bool
  pub core : Core
  pub drawn : ℕ
  pub file : File
  pub writes : ℕ

is_assistant_message : Body → Bool
is_assistant_message (Body.message m) = elim (as_ai_message m) [
  | none ↦ false
  | some msg ↦ is_assistant msg.role
]
is_assistant_message _ = false

-- `hasAssistantLocked`.
unfoldable pub has_assistant : List SessionEntry → Bool
unfolding is_assistant_message
has_assistant [] = false
has_assistant (e ∷ es) =
    let rest = has_assistant es in if is_assistant_message e.body then true else rest

-- `CreateOptions`.
pub record CreateOptions : Type 0 where
  pub cwd : String
  pub id : String
  pub parent_session_path : String

-- The file with one line more; it is opened without being created.
append_to : File → Line → Option File
append_to (lines ls) l = some (lines (ls ++ l ∷ []))
append_to unknown l = some unknown
append_to absent l = none

-- The storage that `CreateJSONL` makes, of which nothing is written yet.
unfoldable pub created : (path timestamp id : String) → CreateOptions → (drawn : ℕ) → JsonlStorage
unfolding empty
created path timestamp id opts drawn = record {
  path = path;
  metadata = record {
    id = id;
    cwd = opts.cwd;
    created_at = timestamp;
    path = path;
    parent_session_path = opts.parent_session_path;
  };
  session_header = record {
    version = 3;
    id = id;
    timestamp = timestamp;
    cwd = opts.cwd;
    parent_session = opts.parent_session_path;
  };
  flushed = false;
  core = empty;
  drawn = drawn;
  file = absent;
  writes = 0;
}

-- `CreateJSONL`.
unfoldable pub create_jsonl :
    (new_random_id : ℕ → String) → (path timestamp : String) → CreateOptions → Result JsonlStorage
unfolding created
create_jsonl new_random_id path timestamp opts =
    if opts.cwd == ""
    then err (record { code = invalid_session; text = "cwd is required" })
    else if opts.id == ""
    then ok (created path timestamp (new_random_id 0) opts 1)
    else ok (created path timestamp opts.id opts 0)

module _ (codec : Codec) where
  -- The lines of entries; `none` where one cannot be encoded.
  unfoldable pub entry_lines : List SessionEntry → Option (List Line)
  unfolding encode_entry
  entry_lines [] = some []
  entry_lines (e ∷ es) = do v ← encode_entry codec e; ls ← entry_lines es; some (json v ∷ ls)

  unfoldable pub all_lines : SessionHeader → List SessionEntry → Option (List Line)
  unfolding encode_header entry_lines
  all_lines h es = do ls ← entry_lines es; some (json (encode_header codec h) ∷ ls)

module _ (codec : Codec) (new_random_id : ℕ → String) (disk : ℕ → Option Error) where
  flush_error : String → Error
  flush_error path = record { code = storage; text = String.◌++◌ "Failed to flush session " path }

  append_error : String → Error
  append_error id = record {
    code = storage;
    text = String.◌++◌ "Failed to append session entry " id;
  }

  unfoldable pub flush_lines : Option (List Line) → Action JsonlStorage (Unit {0})
  unfolding flush_error
  flush_lines none s = (err (flush_error s.path), s)
  flush_lines (some ls) s = elim (disk s.writes) [
    | none ↦ (ok tt, record s { file = lines ls; flushed = true; writes = suc s.writes })
    | some _ ↦ (err (flush_error s.path), record s { file = unknown; writes = suc s.writes })
  ]

  -- `flushAllLocked`.
  unfoldable pub flush_all : Action JsonlStorage (Unit {0})
  unfolding all_lines flush_lines
  flush_all s = flush_lines (all_lines codec s.session_header s.core.entries) s

  unfoldable append_value : String → Option Value → Action JsonlStorage (Unit {0})
  unfolding append_to append_error
  append_value id none s = (
    err (record { code = invalid_entry; text = String.◌++◌ "Failed to encode session entry " id }),
    s,
  )
  append_value id (some v) s = elim (append_to s.file (json v)) [
    | none ↦ (err (append_error id), s)
    | some grown ↦ elim (disk s.writes) [
      | none ↦ (ok tt, record s { file = grown; writes = suc s.writes })
      | some _ ↦ (err (append_error id), record s { file = unknown; writes = suc s.writes })
    ]
  ]

  -- `appendLineLocked`.
  unfoldable pub append_line : SessionEntry → Action JsonlStorage (Unit {0})
  unfolding encode_entry append_value
  append_line e s = append_value e.id (encode_entry codec e) s

  -- `persistLocked`: nothing is written before the first assistant message.
  unfoldable pub persist : SessionEntry → Action JsonlStorage (Unit {0})
  unfolding flush_all append_line
  persist e s =
      if s.flushed
      then append_line e s
      else (if has_assistant s.core.entries then flush_all s else (ok tt, s))

  unfoldable pub create_entry_id : JsonlStorage → String × JsonlStorage
  create_entry_id s =
      let (id, drawn) = draw_id new_random_id 100 s.core s.drawn in (id, record s { drawn = drawn })

  unfoldable pub append_entry : SessionEntry → Action JsonlStorage (Unit {0})
  unfolding persist
  append_entry e s = persist e (record s { core = add_entry e s.core })

  unfoldable pub set_leaf_id : (now : String) → Option String → Action JsonlStorage (Unit {0})
  unfolding persist create_entry_id
  set_leaf_id now target s = elim (check_leaf target s.core) [
    | ok _ ↦
        let (id, s') = create_entry_id s in
        persist
          (record {
            id = id;
            parent_id = s'.core.leaf_id;
            timestamp = now;
            body = Body.leaf target;
          })
          (record s' { core = move_leaf id now target s'.core })
    | err e ↦ (err e, s)
    | diverges ↦ (diverges, s)
    | panics ↦ (panics, s)
  ]

  abbrev pub jsonl : SessionStorage JsonlStorage
  jsonl = record {
    core = λ s. s.core;
    create_entry_id = create_entry_id;
    append_entry = append_entry;
    set_leaf_id = set_leaf_id;
  }

  core-flush_lines : (o : Option (List Line)) (s : JsonlStorage) → (flush_lines o s).1.core ≡ s.core
  unfolding flush_lines
  core-flush_lines none s = refl
  core-flush_lines (some ls) s = ground arith

  core-append_value :
      (id : String) (o : Option Value) (s : JsonlStorage) → (append_value id o s).1.core ≡ s.core
  unfolding append_value
  core-append_value id none s = refl
  core-append_value id (some v) s = ground arith

  core-persist : (e : SessionEntry) (s : JsonlStorage) → (persist e s).1.core ≡ s.core
  unfolding persist flush_all append_line
  core-persist e s = ground (
    arith,
    core-flush_lines (all_lines codec s.session_header s.core.entries) s,
    core-append_value e.id (encode_entry codec e) s,
  )

  core-set_leaf_id :
      (now : String) (target : Option String) (s : JsonlStorage)
      → check_leaf target s.core ≡ ok tt
      → (set_leaf_id now target s).1.core ≡ move_leaf (create_entry_id s).0 now target s.core
  unfolding set_leaf_id
  core-set_leaf_id now target s h = ground arith

  pub jsonl-Laws : Laws jsonl
  unfolding create_entry_id append_entry set_leaf_id
  jsonl-Laws = record {
    core-create_entry_id = λ s. refl;
    core-append_entry = λ e s. core-persist e (record s { core = add_entry e s.core });
    core-set_leaf_id = core-set_leaf_id;
    set_leaf_id-refused = λ now target s x h. ground arith;
  }
