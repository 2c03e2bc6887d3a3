-- ===== src/Tests/Fork.antt =====
-- The theorem on forks at the question of `Scenario`.
use attention.Prelude.{◌≡◌, refl, true, List, [], ◌∷◌, ◌++◌, none, some, show_nat}
use attention.Prelude.Dict.{get, put}
use attention.Ai.Types.{is_user, new_message}
use attention.Message.{as_ai_message}
use attention.Session.Types.{SessionEntry, ok}
use attention.Session.Core.{get_entry, add_entry, get_leaf_id, leaf_id_after_entry, empty}
use attention.Session.Memory.{new_storage, draw_id, create_entry_id, append_entry}
use attention.Session.Operations.{append}
use attention.Session.Fork.{
  fork_at, fork_before, is_user_message, get_entries_to_fork, get_entries_to_fork-user,
}
use attention.Tests.Scenario.{question, answered, answered-IsValid}

abbrev entry_q : SessionEntry
entry_q = record { id = "1"; parent_id = none; timestamp = "t1"; body = question }

finds_question : get_entry "1" answered.core ≡ some entry_q
unfolding append new_storage empty get put get_leaf_id add_entry create_entry_id append_entry
    draw_id leaf_id_after_entry show_nat get_entry
finds_question = refl

asks : is_user_message entry_q.body ≡ true
unfolding is_user_message as_ai_message is_user new_message
asks = refl

get_entries_to_fork-user_example :
    (path : List SessionEntry) × (get_entries_to_fork answered.core (some "1") fork_before
      ≡ ok path)
    × (get_entries_to_fork answered.core (some "1") fork_at ≡ ok (path ++ entry_q ∷ []))
get_entries_to_fork-user_example =
    get_entries_to_fork-user answered-IsValid "1" entry_q finds_question asks
