-- ===== src/Tests/Tree.antt =====
-- The theorems on the session tree at the session of `Scenario`.
use attention.Prelude.{
  ◌==◌, if◌then◌else◌, ◌≡◌, refl, List, [], ◌∷◌, none, some, reverse, show_nat, false,
}
use attention.Prelude.Dict.{get, put}
use attention.Value.{null}
use attention.Session.Types.{Body, SessionEntry, ok, BranchSummary}
use attention.Session.Core.{
  get_label, add_entry, get_path_to_root, move_leaf, check_leaf, get_leaf_id, leaf_id_after_entry,
  walk, empty,
}
use attention.Session.Storage.{IsFresh}
use attention.Session.Tree.{IsValid, IsBranch}
use attention.Session.Tree.Path.{IsKnown, get_path_to_root-IsBranch}
use attention.Session.Memory.{
  MemoryStorage, new_storage, draw_id, create_entry_id, append_entry, set_leaf_id,
}
use attention.Session.Operations.{append, append_label, check_entry, get_branch, move_to}
use attention.Session.Operations.Append.{new_entry, get_branch-append, get_branch-append_known}
use attention.Session.Operations.Moves.{
  move_to-branch, move_to-branch_summary, summarised, summary_entry,
}
use attention.Session.Operations.Labels.{shown, append_label-get_label}
use attention.Session.Calls.{move, perform, perform-IsValid}
use attention.Tests.Scenario.{
  ids, store, laws, question, answer, answered, answered-IsValid, answered-IsFresh,
}

abbrev entry_q : SessionEntry
entry_q = record { id = "1"; parent_id = none; timestamp = "t1"; body = question }

abbrev entry_a : SessionEntry
entry_a = record { id = "2"; parent_id = some "1"; timestamp = "t2"; body = answer }

answered-path : get_path_to_root (some "2") answered.core ≡ ok (entry_q ∷ entry_a ∷ [])
unfolding append new_storage empty get put get_leaf_id add_entry create_entry_id append_entry
    draw_id leaf_id_after_entry show_nat get_path_to_root walk
answered-path = refl

asked-path : get_path_to_root (some "1") answered.core ≡ ok (entry_q ∷ [])
unfolding append new_storage empty get put get_leaf_id add_entry create_entry_id append_entry
    draw_id leaf_id_after_entry show_nat get_path_to_root walk
asked-path = refl

answered-branch : get_branch store none answered ≡ ok (entry_q ∷ entry_a ∷ [])
unfolding append new_storage empty get put get_leaf_id add_entry create_entry_id append_entry
    draw_id leaf_id_after_entry show_nat get_path_to_root walk get_branch
answered-branch = refl

first-IsKnown : IsKnown answered.core (some "1")
unfolding append new_storage empty get put get_leaf_id add_entry create_entry_id append_entry
    draw_id leaf_id_after_entry show_nat
first-IsKnown = (0, refl)

get_branch-append_example :
    get_branch store none (append store none "t3" (Body.session_info "n") answered).1
    ≡ ok (entry_q ∷ entry_a ∷ new_entry store answered "t3" (Body.session_info "n") ∷ [])
get_branch-append_example =
    get_branch-append laws answered-IsValid answered-IsFresh "t3" (Body.session_info "n") tt
      (entry_q ∷ entry_a ∷ []) answered-branch

get_branch-append_known_example :
    get_branch store (some "1") (append store none "t3" (Body.session_info "n") answered).1
    ≡ get_branch store (some "1") answered
get_branch-append_known_example =
    get_branch-append_known laws answered-IsValid answered-IsFresh "t3" (Body.session_info "n") tt
      "1" first-IsKnown

get_path_to_root-IsBranch_example :
    (up : List SessionEntry) × (get_path_to_root (some "1") answered.core ≡ ok (reverse up))
    × IsBranch answered.core (some "1") up
get_path_to_root-IsBranch_example =
    get_path_to_root-IsBranch answered-IsValid (some "1") first-IsKnown

abbrev summary : BranchSummary
summary = record { summary = "the answer was wrong"; details = null; from_hook = false }

abbrev back : MemoryStorage
back = (set_leaf_id ids "t3" (some "1") answered).1

back-taken : (set_leaf_id ids "t3" (some "1") answered).0 ≡ ok tt
unfolding append new_storage empty get put get_leaf_id add_entry create_entry_id append_entry
    draw_id leaf_id_after_entry show_nat set_leaf_id check_leaf
back-taken = refl

back-IsFresh : IsFresh store back
unfolding append new_storage empty get put get_leaf_id add_entry create_entry_id append_entry
    draw_id leaf_id_after_entry show_nat set_leaf_id check_leaf move_leaf
back-IsFresh = refl

perform-IsValid_example :
    IsValid (perform store (move (some "1") (some summary)) none "t3" answered).core
perform-IsValid_example =
    perform-IsValid laws (move (some "1") (some summary)) none "t3" answered
      (answered-IsFresh, back-IsFresh) answered-IsValid

move_to-branch_example :
    (move_to store none "t3" (some "1") none answered ≡ (ok none, back))
    × IsValid back.core
    × (get_branch store none back ≡ get_path_to_root (some "1") answered.core)
move_to-branch_example =
    move_to-branch laws answered-IsValid answered-IsFresh "t3" (some "1") first-IsKnown back-taken

abbrev summed : MemoryStorage
summed = summarised laws answered-IsValid answered-IsFresh "t3" (some "1") first-IsKnown summary

abbrev entry_s : SessionEntry
entry_s = summary_entry laws answered-IsValid answered-IsFresh "t3" (some "1") first-IsKnown summary

summed-written : (append_entry ids entry_s (create_entry_id ids back).1).0 ≡ ok tt
unfolding append_entry
summed-written = refl

move_to-branch_summary_example :
    (move_to store none "t3" (some "1") (some summary) answered
      ≡ (ok (some (create_entry_id ids back).0), summed))
    × IsValid summed.core
    × (get_branch store none summed ≡ ok (entry_q ∷ entry_s ∷ []))
move_to-branch_summary_example =
    move_to-branch_summary laws answered-IsValid answered-IsFresh "t3" (some "1") first-IsKnown
      summary back-IsFresh back-taken summed-written (entry_q ∷ []) asked-path

answered-known : check_entry "1" answered.core ≡ ok tt
unfolding append new_storage empty get put get_leaf_id add_entry create_entry_id append_entry
    draw_id leaf_id_after_entry show_nat check_entry
answered-known = refl

append_label-get_label_example :
    get_label "1" (append_label store none "t3" "1" " first " answered).1.core
    ≡ (if "1" == "1" then shown " first " else get_label "1" answered.core)
append_label-get_label_example =
    append_label-get_label laws answered-IsValid "t3" "1" " first " answered-known "1"
