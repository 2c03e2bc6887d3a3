-- ===== src/Harness/Estimate.antt =====
-- internal/harness/compact.go: the character heuristic for the size of messages. Lengths are in
-- bytes. `marshal_length` is the length of the JSON text of a tool call's arguments, `none` where
-- `json.Marshal` fails; `decode` is the JSON round trip of `CustomContentBlocks`.
use attention.Prelude.{
  ℕ, ◌+◌, ◌/◌, len, String, List, [], ◌∷◌, reverse, Option, none, some, ltb, if◌then◌else◌,
}
use Prim.Native.String
use attention.Value.{Value}
use attention.Ai.Types.{
  ContentBlock, ContentBlockType, text, thinking, image, tool_call, Role, user, assistant,
  tool_result, other_role, is_assistant, is_failed, Usage,
}
use attention.Message.{
  AgentMessage, nil, ai, bash_execution, custom, branch_summary, compaction_summary, raw_message,
  Content, blocks, raw, missing, as_ai_message,
}

unfoldable pub chars_to_tokens : ℕ → ℕ
chars_to_tokens chars = (chars + 3) / 4

unfoldable pub estimate_string_tokens : String → ℕ
unfolding chars_to_tokens
estimate_string_tokens s = chars_to_tokens (len s)

module _ (marshal_length : List (String × Value) → Option ℕ) where
  assistant_chars : ContentBlockType → ContentBlock → ℕ
  assistant_chars text b = len b.text
  assistant_chars thinking b = len b.thinking
  assistant_chars tool_call b =
      len b.tool_name + elim (marshal_length b.arguments) [ none ↦ 0 | some n ↦ n ]
  assistant_chars image b = 0

  user_chars : ContentBlockType → ContentBlock → ℕ
  user_chars text b = len b.text
  user_chars _ b = 0

  other_chars : ContentBlockType → ContentBlock → ℕ
  other_chars text b = len b.text
  other_chars image b = 4800
  other_chars _ b = 0

  block_chars : Role → ContentBlock → ℕ
  unfolding assistant_chars user_chars other_chars
  block_chars assistant b = assistant_chars b.block_type b
  block_chars user b = user_chars b.block_type b
  block_chars tool_result b = other_chars b.block_type b
  block_chars (other_role r) b = other_chars b.block_type b

  content_chars : Role → List ContentBlock → ℕ
  unfolding block_chars
  content_chars role [] = 0
  content_chars role (b ∷ bs) = block_chars role b + content_chars role bs

  unfoldable pub estimate_ai_message_tokens : Role → List ContentBlock → ℕ
  unfolding content_chars chars_to_tokens
  estimate_ai_message_tokens role content = chars_to_tokens (content_chars role content)

  module _ (decode : Value → Option (List ContentBlock)) where
    unfoldable pub estimate_content_tokens : Content → ℕ
    unfolding estimate_ai_message_tokens estimate_string_tokens
    estimate_content_tokens (Content.text s) = estimate_string_tokens s
    estimate_content_tokens (blocks bs) = estimate_ai_message_tokens (other_role "") bs
    estimate_content_tokens (raw v) = elim (decode v) [
      | none ↦ 0
      | some bs ↦ estimate_ai_message_tokens (other_role "") bs
    ]
    estimate_content_tokens missing = 0

    unfoldable pub estimate_agent_message_tokens : AgentMessage → ℕ
    unfolding estimate_ai_message_tokens estimate_string_tokens estimate_content_tokens
    estimate_agent_message_tokens (ai m) = estimate_ai_message_tokens m.role m.content
    estimate_agent_message_tokens (bash_execution m) =
        estimate_string_tokens (String.◌++◌ m.command m.output)
    estimate_agent_message_tokens (custom m) = estimate_content_tokens m.content
    estimate_agent_message_tokens (branch_summary m) = estimate_string_tokens m.summary
    estimate_agent_message_tokens (compaction_summary m) = estimate_string_tokens m.summary
    estimate_agent_message_tokens (raw_message r) = 0
    estimate_agent_message_tokens nil = 0

    usage_total : Usage → Option ℕ
    usage_total u =
        if ltb 0 u.total_tokens
        then some u.total_tokens
        else (if ltb 0 (u.input + u.output + u.cache_read + u.cache_write)
            then some (u.input + u.output + u.cache_read + u.cache_write)
            else none)

    -- `assistantUsageTokens`: what a provider reported with a message that did not fail.
    unfoldable pub assistant_usage_tokens : AgentMessage → Option ℕ
    unfolding usage_total as_ai_message
    assistant_usage_tokens msg = elim (as_ai_message msg) [
      | none ↦ none
      | some m ↦
          if is_assistant m.role
          then (if is_failed m.stop_reason
              then none
              else elim m.usage [ none ↦ none | some u ↦ usage_total u ])
          else none
    ]

    unfoldable pub estimate_all : List AgentMessage → ℕ
    unfolding estimate_agent_message_tokens
    estimate_all [] = 0
    estimate_all (m ∷ ms) = estimate_agent_message_tokens m + estimate_all ms

    -- The loop from the last message back; `trailing` is the estimate of those behind it.
    unfoldable pub estimate_back : (reversed : List AgentMessage) → (trailing : ℕ) → ℕ
    unfolding assistant_usage_tokens estimate_agent_message_tokens
    estimate_back [] trailing = trailing
    estimate_back (m ∷ ms) trailing =
        let rest = estimate_back ms (estimate_agent_message_tokens m + trailing) in
        elim (assistant_usage_tokens m) [ none ↦ rest | some tokens ↦ tokens + trailing ]

    -- `estimateAgentMessagesContextTokens`.
    unfoldable pub estimate_context_tokens : List AgentMessage → ℕ
    unfolding estimate_back
    estimate_context_tokens ms = estimate_back (reverse ms) 0
