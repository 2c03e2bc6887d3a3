-- ===== src/Tests/Migrate.antt =====
-- The theorems on migration at a file of version 1 with a compaction, and one with a line `null`.
use attention.Prelude.{
  ℕ, ◌≡◌, refl, String, List, [], ◌∷◌, Option, none, some, ◌==◌, show_nat, if◌then◌else◌,
}
use attention.Prelude.Dict.{get}
use attention.Value.{Value, null, num, str}
use attention.Session.Types.{panics}
use attention.Session.Migrate.{
  FileLine, rewrite, file_version, is_header, has_text, is_text, migrate_session_file,
}
use attention.Session.Migrate.Chained.{
  ChainTo, migrate_session_file-ChainTo, migrate_session_file-panics,
}

abbrev old_header : FileLine
old_header = some (("type", str "session") ∷ ("id", str "s") ∷ [])

abbrev old_message : FileLine
old_message = some (("type", str "message") ∷ ("timestamp", str "t1") ∷ [])

abbrev old_compaction : FileLine
old_compaction = some (("type", str "compaction") ∷ ("firstKeptEntryIndex", num "1") ∷ [])

abbrev old_file : List FileLine
old_file = old_header ∷ old_message ∷ old_compaction ∷ []

abbrev read_index : String → Option ℕ
read_index t = if t == "1" then some 1 else none

abbrev read_version : String → ℕ
read_version t = 2

old_file-version : file_version read_version old_file ≡ 1
unfolding file_version is_header has_text is_text get
old_file-version = refl

migrate_session_file-ChainTo_example :
    (out : List FileLine) × (migrate_session_file show_nat read_index read_version none old_file
      ≡ rewrite none out)
    × ((last : Value) × ChainTo null out last)
migrate_session_file-ChainTo_example =
    migrate_session_file-ChainTo show_nat read_index read_version none old_file old_file-version
      (tt, (tt, (tt, tt)))

holed-version : file_version read_version (old_header ∷ none ∷ old_message ∷ []) ≡ 1
unfolding file_version is_header has_text is_text get
holed-version = refl

migrate_session_file-panics_example :
    migrate_session_file show_nat read_index read_version none
      (old_header ∷ none ∷ old_message ∷ [])
    ≡ panics
migrate_session_file-panics_example =
    migrate_session_file-panics show_nat read_index read_version none (old_header ∷ [])
      (old_message ∷ []) holed-version
