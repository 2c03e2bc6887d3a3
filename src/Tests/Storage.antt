-- ===== src/Tests/Storage.antt =====
-- The theorems on the file of a session, and on the ids, at a session with a question.
use attention.Prelude.{
  ℕ, zero, suc, List, ◌≡◌, refl, String, [], ◌∷◌, ◌++◌, Option, none, some, true, show_nat,
}
use attention.Prelude.Dict.{get, put}
use attention.Value.{null}
use attention.Ai.Types.{is_assistant, is_user, new_message}
use attention.Message.{as_ai_message}
use attention.Session.Types.{SessionEntry, Error, ok, diverges}
use attention.Session.Core.{Core, walk, empty, add_entry}
use attention.Session.Memory.{draw_id, draw_id-fresh}
use attention.Session.Json.Fields.{field}
use attention.Session.Json.{encode_entry, encode_body}
use attention.Session.Json.Message.{encode_message}
use attention.Session.Jsonl.{
  json, malformed, CreateOptions, created, create_jsonl, JsonlStorage, has_assistant, entry_lines,
  all_lines, append_entry, persist, flush_all, flush_lines,
}
use attention.Session.Jsonl.Header.{IsHeader}
use attention.Session.Jsonl.Sync.{InSync, HasLine, Persisted, append_entry-InSync}
use attention.Session.Jsonl.Reopen.{open_jsonl, IsWritable, open_jsonl-malformed}
use attention.Session.Jsonl.Restart.{
  Reached, start, appended, Reopens, Reached-Sound, Reached-Reopens,
}
use attention.Tests.Json.{messages_codec}
use attention.Tests.Scenario.{ids, question, answer}

abbrev works : ℕ → Option Error
works n = none

abbrev opts : CreateOptions
opts = record { cwd = "/work"; id = "s"; parent_session_path = "" }

abbrev fresh : JsonlStorage
fresh = created "/sessions/s.jsonl" "t0" "s" opts 0

abbrev entry_q : SessionEntry
entry_q = record { id = "1"; parent_id = none; timestamp = "t1"; body = question }

abbrev entry_a : SessionEntry
entry_a = record { id = "2"; parent_id = some "1"; timestamp = "t2"; body = answer }

abbrev asked : JsonlStorage
asked = (append_entry messages_codec ids works entry_q fresh).1

abbrev replied : JsonlStorage
replied = (append_entry messages_codec ids works entry_a asked).1

fresh-created : create_jsonl ids "/sessions/s.jsonl" "t0" opts ≡ ok fresh
unfolding create_jsonl
fresh-created = refl

head-IsHeader : IsHeader messages_codec fresh.session_header
unfolding created show_nat
head-IsHeader = record {
  supported = refl;
  has_id = refl;
  has_timestamp = refl;
  has_cwd = refl;
  is_read = refl;
}

question-IsWritable : IsWritable messages_codec entry_q
unfolding field new_message is_user
question-IsWritable = (refl, refl, (refl, ("user", refl, refl)))

answer-IsWritable : IsWritable messages_codec entry_a
unfolding field new_message is_user
answer-IsWritable = (refl, refl, (refl, ("assistant", refl, refl)))

fresh-works : works fresh.writes ≡ none
fresh-works = refl

fresh-Reached : Reached messages_codec "/sessions/s.jsonl" ids works fresh
fresh-Reached = start "t0" "s" opts 0 head-IsHeader

asked-Reached : Reached messages_codec "/sessions/s.jsonl" ids works asked
asked-Reached = appended fresh entry_q fresh-Reached question-IsWritable refl

replied-Reached : Reached messages_codec "/sessions/s.jsonl" ids works replied
replied-Reached = appended asked entry_a asked-Reached answer-IsWritable refl

replied-flushed : replied.flushed ≡ true
unfolding append_entry persist flush_all flush_lines all_lines entry_lines encode_entry encode_body
    encode_message has_assistant created add_entry empty as_ai_message is_assistant new_message
replied-flushed = refl

Reached-Reopens_example : Reopens messages_codec "/sessions/s.jsonl" ids works replied
Reached-Reopens_example =
    Reached-Reopens messages_codec "/sessions/s.jsonl" ids works replied replied-Reached
      replied-flushed

asked-InSync : InSync messages_codec asked
asked-InSync = (Reached-Sound messages_codec "/sessions/s.jsonl" ids works asked asked-Reached).0

answer-HasLine : HasLine messages_codec entry_a
unfolding encode_entry encode_body encode_message
answer-HasLine = (_, refl)

append_entry-InSync_example :
    Persisted messages_codec ids works asked.flushed
      (asked.core.entries ++ entry_a ∷ [])
      asked.session_header
      (append_entry messages_codec ids works entry_a asked)
append_entry-InSync_example =
    append_entry-InSync messages_codec ids works asked entry_a asked-InSync answer-HasLine refl

open_jsonl-malformed_example :
    open_jsonl messages_codec "s.jsonl" (json null ∷ malformed ∷ json null ∷ [])
    ≡ open_jsonl messages_codec "s.jsonl" (json null ∷ json null ∷ [])
open_jsonl-malformed_example =
    open_jsonl-malformed messages_codec "s.jsonl" (json null ∷ []) (json null ∷ [])

abbrev one : Core
one = add_entry entry_q empty

-- Ids of which no one is taken, and whose first eight letters are.
abbrev long_ids : ℕ → String
long_ids n = "12345678-whole"

long_ids-free : (k : ℕ) → get one.by_id (long_ids k) ≡ none
unfolding add_entry empty put get
long_ids-free k = refl

draw_id-fresh_example : get one.by_id (draw_id long_ids 100 one 1).0 ≡ none
draw_id-fresh_example = draw_id-fresh long_ids 100 one 1 long_ids-free

-- An entry that is its own parent: opening the file accepts it, and the walk never ends.
abbrev looping : Core
looping =
    add_entry (record { id = "x"; parent_id = some "x"; timestamp = "t"; body = question }) empty

looping-diverges : (fuel : ℕ) (path : List SessionEntry) → walk fuel looping "x" path ≡ diverges
unfolding walk add_entry empty put get
looping-diverges zero path = refl
looping-diverges (suc fuel) path = looping-diverges fuel _
