-- ===== src/Session/Jsonl/Reopen.antt =====
-- `OpenJSONL` over the lines of a version 3 file (files of older versions are migrated first), and
-- what it makes of a file that the storage wrote.
use attention.Prelude.{◌≡◌, refl, sym, ◌∙◌, ap, String, List, [], ◌∷◌, ◌++◌, some, All, ◌==◌, false}
use attention.Session.Types.{SessionEntry, Result, ok, err, invalid_session, ◌>>=◌}
use attention.Session.Core.{Core, empty, add_entry}
use attention.Session.Json.Fields.{Codec}
use attention.Session.Json.Decode.{decode_entry}
use attention.Session.Json.RoundTrip.{IsKept, decode_entry-encode_entry}
use attention.Session.Jsonl.{Line, json, malformed, entry_lines, all_lines}
use attention.Session.Jsonl.Header.{
  SessionHeader, encode_header, parse_header, IsHeader, parse_header-encode_header,
}

module _ (codec : Codec) (path : String) where
  -- An entry that is read is added; a line that is none is passed over.
  load_entry : Result SessionEntry → Core → Core
  load_entry (ok e) c = add_entry e c
  load_entry _ c = c

  -- The lines behind the header. A line's number shows only in errors, which are dropped, so that 0
  -- stands for it.
  unfoldable pub load : List Line → Core → Core
  unfolding decode_entry load_entry
  load [] c = c
  load (json v ∷ ls) c = load ls (load_entry (decode_entry codec path 0 v) c)
  load (malformed ∷ ls) c = load ls c

  -- The whole file: the header and the core.
  unfoldable pub open_jsonl : List Line → Result (SessionHeader × Core)
  unfolding load parse_header
  open_jsonl [] = err (record { code = invalid_session; text = "missing session header" })
  open_jsonl (malformed ∷ ls) = open_jsonl ls
  open_jsonl (json v ∷ ls) = do h ← parse_header codec v; ok (h, load ls empty)

  load-append : (ls ms : List Line) (c : Core) → load (ls ++ ms) c ≡ load ms (load ls c)
  unfolding load
  load-append [] ms c = refl
  load-append (json v ∷ ls) ms c = load-append ls ms (load_entry (decode_entry codec path 0 v) c)
  load-append (malformed ∷ ls) ms c = load-append ls ms c

  -- A line that is no JSON, anywhere in the file, changes nothing of what opening the file gives,
  -- the errors included.
  pub open_jsonl-malformed :
      (ls ms : List Line) → open_jsonl (ls ++ malformed ∷ ms) ≡ open_jsonl (ls ++ ms)
  unfolding open_jsonl load
  open_jsonl-malformed [] ms = refl
  open_jsonl-malformed (malformed ∷ ls) ms = open_jsonl-malformed ls ms
  open_jsonl-malformed (json v ∷ ls) ms =
      ap (λ c. parse_header codec v >>= λ h. ok (h, c))
        (load-append ls (malformed ∷ ms) empty ∙ sym (load-append ls ms empty))

-- The core that a list of entries builds, one by one.
abbrev pub add_entries : List SessionEntry → Core → Core
add_entries [] c = c
add_entries (e ∷ es) c = add_entries es (add_entry e c)

-- An entry with an id and a timestamp whose fields JSON keeps.
abbrev pub IsWritable : Codec → SessionEntry → Type 0
IsWritable codec e = ((e.id == "") ≡ false) × ((e.timestamp == "") ≡ false) × IsKept codec e.body

module _ (codec : Codec) (path : String) where
  -- The lines of entries build the core that the entries do.
  load-entry_lines :
      (es : List SessionEntry) (c : Core)
      → All (IsWritable codec) es
      → (ls : List Line) × (entry_lines codec es ≡ some ls)
        × (load codec path ls c ≡ add_entries es c)
  unfolding entry_lines load load_entry
  load-entry_lines [] c w = ([], refl, refl)
  load-entry_lines (e ∷ es) c ((i, t, k), w) =
      let (v, enc, dec) = decode_entry-encode_entry codec path 0 e i t k in
      let (ls, are, same) = load-entry_lines es (add_entry e c) w in
      (
        json v ∷ ls,
        rw (enc, are) refl,
        ap (λ r. load codec path ls (load_entry codec path r c)) dec ∙ same,
      )

  pub open_jsonl-all_lines :
      (h : SessionHeader) (es : List SessionEntry)
      → IsHeader codec h
      → All (IsWritable codec) es
      → (ls : List Line) × (all_lines codec h es ≡ some ls)
        × (open_jsonl codec path ls ≡ ok (h, add_entries es empty))
  unfolding open_jsonl all_lines
  open_jsonl-all_lines h es g w =
      let (ls, are, same) = load-entry_lines es empty w in
      (
        json (encode_header codec h) ∷ ls,
        rw are refl,
        ap (λ r. r >>= λ x. ok (x, load codec path ls empty)) (parse_header-encode_header codec h g)
            ∙ ap (λ c. ok (h, c)) same,
      )
