-- ===== src/Tests/Harness.antt =====
-- The theorems on compaction at a branch of two turns.
use attention.Prelude.{
  ℕ, ◌≡◌, ◌⊎◌, refl, String, List, [], ◌∷◌, Option, none, some, false, true, take, drop, arith,
}
use attention.Value.{Value}
use attention.Ai.Types.{
  ContentBlock, Message, new_message, user, assistant, is_tool_result, is_user, text_block,
  is_assistant, is_failed,
}
use attention.Message.{snapshot}
use attention.Session.Types.{SessionEntry}
use attention.Harness.Estimate.{estimate_ai_message_tokens, estimate_context_tokens}
use attention.Harness.CutPoint.{
  find_valid_cut_points, find_cut_point, is_cut_point, choose_cut, find_budget, entry_tokens,
  chosen_candidate, rewind, cut_result, find_turn_start,
}
use attention.Harness.CutPoint.Bounds.{IsGoodCut, find_cut_point-IsGoodCut}
use attention.Harness.Prepare.{
  CompactionSettings, CompactionPrep, prepare_compaction, with_defaults, find_previous,
  previous_body, or_else, boundary_start, ends_in_compaction, prepare_from, prepare_at,
  messages_from, message_from_body,
}
use attention.Harness.Prepare.Split.{IsCovered, prepare_compaction-IsCovered}
use attention.Tests.Scenario.{question, answer, said}

abbrev ten : Message → ℕ
ten m = 10

abbrev at_zero : String → ℕ
at_zero t = 0

abbrev branch : List SessionEntry
branch =
    record { id = "1"; parent_id = none; timestamp = "t1"; body = question }
    ∷ record { id = "2"; parent_id = some "1"; timestamp = "t2"; body = answer }
    ∷ record { id = "3"; parent_id = some "2"; timestamp = "t3"; body = question }
    ∷ record { id = "4"; parent_id = some "3"; timestamp = "t4"; body = answer }
    ∷ []

find_cut_point-IsGoodCut_example :
    IsGoodCut branch 0 4 (find_cut_point ten branch 0 4 15)
    ⊎ (find_valid_cut_points 0 (take 4 (drop 0 branch)) ≡ [])
      × (find_cut_point ten branch 0 4 15
          ≡ record { first_kept_entry_index = 0; turn_start_index = none; is_split_turn = false })
find_cut_point-IsGoodCut_example = find_cut_point-IsGoodCut ten branch 0 4 15 (omega arith)

abbrev settings : CompactionSettings
settings = record { enabled = true; reserve_tokens = 100; keep_recent_tokens = 1 }

abbrev no_length : List (String × Value) → Option ℕ
no_length m = none

abbrev no_blocks : Value → Option (List ContentBlock)
no_blocks v = none

abbrev prepared : CompactionPrep
prepared = record {
  first_kept_entry_id = "4";
  messages_to_summarize = said user "what is it?" ∷ said assistant "this" ∷ [];
  turn_prefix_messages = said user "what is it?" ∷ [];
  is_split_turn = true;
  tokens_before = 8;
  previous_summary = "";
  settings = settings;
}

branch-prepared : prepare_compaction at_zero no_length no_blocks branch settings ≡ some prepared
unfolding prepare_compaction with_defaults find_previous previous_body or_else boundary_start
    ends_in_compaction prepare_from prepare_at messages_from message_from_body snapshot
    find_cut_point find_valid_cut_points is_cut_point choose_cut find_budget entry_tokens
    chosen_candidate rewind cut_result find_turn_start new_message is_tool_result is_user
    estimate_ai_message_tokens estimate_context_tokens text_block is_assistant is_failed
branch-prepared = refl

prepare_compaction-IsCovered_example : IsCovered at_zero no_length no_blocks branch prepared
prepare_compaction-IsCovered_example =
    prepare_compaction-IsCovered at_zero no_length no_blocks branch settings prepared
      branch-prepared
