-- ===== src/Tests/Context.antt =====
-- The theorems on the context and the transcript at small branches.
use attention.Prelude.{ℕ, ◌≡◌, refl, String, [], ◌∷◌, ◌++◌, none, some, false, All}
use attention.Value.{null}
use attention.Ai.Types.{
  ContentBlock, Message, new_message, text_block, user, assistant, tool_call, image,
}
use attention.Ai.Transform.{insert_synthetic_tool_results, replace_images}
use attention.Ai.Transform.Results.{IsAnswered, insert_synthetic_tool_results-IsAnswered}
use attention.Ai.Transform.Content.{IsImageless, collapse_images, replace_images-IsImageless}
use attention.Session.Types.{Body, SessionEntry}
use attention.Session.Context.{is_compaction_of, build_context_from_path, summary_message}
use attention.Session.Context.Refine.{
  kept_from, messages_of, compaction_at, build_context-IsUncompacted, build_context-compaction,
}
use attention.Session.Context.Latest.{or_else, with_default, latest, level_set, model_set}
use attention.Tests.Scenario.{question, answer}

abbrev at_zero : String → ℕ
at_zero t = 0

abbrev old : SessionEntry
old = record { id = "1"; parent_id = none; timestamp = "t1"; body = question }

abbrev kept : SessionEntry
kept = record { id = "2"; parent_id = some "1"; timestamp = "t2"; body = answer }

abbrev compacted : SessionEntry
compacted = record {
  id = "3";
  parent_id = some "2";
  timestamp = "t3";
  body = Body.compaction "a question" "2" 10 null false;
}

abbrev later : SessionEntry
later = record { id = "4"; parent_id = some "3"; timestamp = "t4"; body = question }

build_context-IsUncompacted_example :
    let context = build_context_from_path at_zero (old ∷ kept ∷ []) in
    (context.messages ≡ messages_of at_zero (old ∷ kept ∷ []))
    × (context.thinking_level ≡ with_default (latest level_set (old ∷ kept ∷ [])) "off")
    × (context.model ≡ or_else (latest model_set (old ∷ kept ∷ [])) none)
build_context-IsUncompacted_example =
    build_context-IsUncompacted at_zero (old ∷ kept ∷ []) (tt, (tt, tt))

not_it : All (λ x. is_compaction_of "3" x ≡ false) (old ∷ kept ∷ [])
unfolding is_compaction_of
not_it = (refl, (refl, tt))

build_context-compaction_example :
    (build_context_from_path at_zero (old ∷ kept ∷ compacted ∷ later ∷ [])).messages
    ≡ summary_message at_zero (compaction_at compacted "a question" "2" 10)
      ∷ (messages_of at_zero (kept_from "2" (old ∷ kept ∷ [])) ++ messages_of at_zero (later ∷ []))
build_context-compaction_example =
    build_context-compaction at_zero (old ∷ kept ∷ []) (later ∷ []) compacted "a question" "2" 10
      null false refl not_it (tt, tt)

-- A call of a tool that no result answers.
abbrev call : ContentBlock
call = record (text_block "") { block_type = tool_call; tool_call_id = "c1"; tool_name = "ls" }

abbrev calls : Message
calls = new_message assistant (call ∷ []) 1

abbrev next : Message
next = new_message user (text_block "go on" ∷ []) 2

insert_synthetic_tool_results-IsAnswered_example :
    IsAnswered [] [] (insert_synthetic_tool_results 5 (calls ∷ next ∷ []))
insert_synthetic_tool_results-IsAnswered_example =
    insert_synthetic_tool_results-IsAnswered 5 (calls ∷ next ∷ [])

abbrev picture : ContentBlock
picture = record (text_block "") {
  block_type = image;
  image_data = "AAAA";
  mime_type = "image/png";
}

replace_images-IsImageless_example :
    (replace_images "(image)" (picture ∷ picture ∷ [])
      ≡ collapse_images "(image)" false (picture ∷ picture ∷ []))
    × IsImageless (replace_images "(image)" (picture ∷ picture ∷ []))
replace_images-IsImageless_example = replace_images-IsImageless "(image)" (picture ∷ picture ∷ [])
