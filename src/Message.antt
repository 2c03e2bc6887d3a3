-- ===== src/Message.antt =====
-- internal/message: the transcript's messages (message.go, custom.go) and their projection to
-- provider messages. A Go pointer to a message is the message, and a nil one is `nil`.
use attention.Prelude.{
  ℕ, String, Bool, List, [], ◌∷◌, Option, none, some, not, ◌&&◌, ◌==◌, eqb, show_nat, if◌then◌else◌,
}
use Prim.Native.String.{◌++◌}
use attention.Value.{Value}
use attention.Ai.Types.{ContentBlock, text_block, Message, user, other_role, new_message}

-- `*int`: an exit code, which is negative where the process was killed.
pub data ExitCode : Type 0 where
  unknown : ExitCode
  exited : ℕ → ExitCode
  negative : ℕ → ExitCode

pub record BashExecutionMessage : Type 0 where
  pub command : String
  pub output : String
  pub exit_code : ExitCode
  pub cancelled : Bool
  pub truncated : Bool
  pub full_output_path : String
  pub timestamp : ℕ
  pub exclude_from_context : Bool

-- The dynamic types that `CustomMessage.Content` is switched on.
pub data Content : Type 0 where
  text : String → Content
  blocks : List ContentBlock → Content
  raw : Value → Content
  missing : Content

pub record CustomMessage : Type 0 where
  pub custom_type : String
  pub content : Content
  pub display : Bool
  pub details : Value
  pub timestamp : ℕ

pub record BranchSummaryMessage : Type 0 where
  pub summary : String
  pub from_id : String
  pub timestamp : ℕ

pub record CompactionSummaryMessage : Type 0 where
  pub summary : String
  pub tokens_before : ℕ
  pub timestamp : ℕ

-- The types that implement `AgentMessage`, and the nil interface.
pub data AgentMessage : Type 0 where
  nil : AgentMessage
  ai : Message → AgentMessage
  bash_execution : BashExecutionMessage → AgentMessage
  custom : CustomMessage → AgentMessage
  branch_summary : BranchSummaryMessage → AgentMessage
  compaction_summary : CompactionSummaryMessage → AgentMessage
  raw_message : String → AgentMessage

unfoldable pub as_ai_message : AgentMessage → Option Message
as_ai_message (ai m) = some m
as_ai_message _ = none

-- Go copies the message out of a pointer; values are copies here.
unfoldable pub snapshot : AgentMessage → AgentMessage
unfolding as_ai_message
snapshot m = elim (as_ai_message m) [ some msg ↦ ai msg | none ↦ m ]

exit_note : ExitCode → String
exit_note unknown = ""
exit_note (exited n) = if eqb n 0 then "" else "\n\nCommand exited with code " ++ show_nat n
exit_note (negative n) = "\n\nCommand exited with code -" ++ show_nat n

unfoldable pub bash_execution_to_text : BashExecutionMessage → String
unfolding exit_note
bash_execution_to_text m =
    ("Ran `" ++ (m.command ++ "`\n"))
    ++ ((if m.output == "" then "(no output)" else "```\n" ++ (m.output ++ "\n```"))
        ++ ((if m.cancelled then "\n\n(command cancelled)" else exit_note m.exit_code)
            ++ (if m.truncated && not (m.full_output_path == "")
                then "\n\n[Output truncated. Full output: " ++ (m.full_output_path ++ "]")
                else "")))

-- `CustomContentBlocks`; `decode` is the JSON round trip of a `[]any`, `none` where it fails.
module _ (decode : Value → Option (List ContentBlock)) where
  unfoldable pub custom_content_blocks : Content → Option (List ContentBlock)
  custom_content_blocks (text s) = some (text_block s ∷ [])
  custom_content_blocks (blocks bs) = some bs
  custom_content_blocks (raw v) = decode v
  custom_content_blocks missing = some []

  custom_to_llm : CustomMessage → Option Message
  unfolding custom_content_blocks
  custom_to_llm m = elim (custom_content_blocks m.content) [
    | none ↦ none
    | some bs ↦ some (new_message user bs m.timestamp)
  ]

  -- What one transcript message becomes: nothing, a provider message, or an error (`none`).
  unfoldable pub convert_one : AgentMessage → Option (List Message)
  unfolding custom_to_llm
  convert_one nil = some []
  convert_one (bash_execution m) =
      if m.exclude_from_context
      then some []
      else some (new_message user (text_block (bash_execution_to_text m) ∷ []) m.timestamp ∷ [])
  convert_one (custom m) = elim (custom_to_llm m) [ none ↦ none | some msg ↦ some (msg ∷ []) ]
  convert_one (branch_summary m) =
      some (new_message user (text_block (branch_text m.summary) ∷ []) m.timestamp ∷ [])
    where
      branch_text : String → String
      branch_text s =
          "The following is a summary of a branch that this conversation came back from:\n\n<summary>\n"
          ++ (s ++ "</summary>")
  convert_one (compaction_summary m) =
      some (new_message user (text_block (compaction_text m.summary) ∷ []) m.timestamp ∷ [])
    where
      compaction_text : String → String
      compaction_text s =
          "The conversation history before this point was compacted into the following summary:\n\n<summary>\n"
          ++ (s ++ "\n</summary>")
  convert_one (raw_message r) = some []
  convert_one (ai m) = elim m.role [ other_role r ↦ some [] | _ ↦ some (m ∷ []) ]

  -- The whole projection; the first error ends it.
  unfoldable pub default_convert_to_llm : List AgentMessage → Option (List Message)
  unfolding convert_one
  default_convert_to_llm [] = some []
  default_convert_to_llm (m ∷ ms) =
      let rest = default_convert_to_llm ms in
      elim (convert_one m) [
        | none ↦ none
        | some out ↦ elim rest [ none ↦ none | some more ↦ some (mathlib.Core.List.◌++◌ out more) ]
      ]
