-- ===== src/Session/Json/Message.antt =====
-- The JSON objects of messages: the `MarshalJSON` methods of internal/message/custom.go, and
-- `decodeAgentMessage` of internal/session/json.go.
use attention.Prelude.{ℕ, String, Bool, Option, none, some, ◌||◌, ◌==◌, if◌then◌else◌}
use attention.Value.{Value, Members}
use attention.Message.{
  ExitCode, AgentMessage, BashExecutionMessage, CustomMessage, BranchSummaryMessage,
  CompactionSummaryMessage,
}
use attention.Session.Json.Fields.{
  Codec, field, text_at, flag_at, any_at, int_at, content_of, encode_content, unless_null,
  unless_false, unless_empty, ◌>>=◌,
}

module _ (codec : Codec) where
  unfoldable pub int_value : ℕ → Value
  int_value n = Value.num (codec.show_int n)

  -- `ExitCode`, a pointer that may be left out.
  unfoldable pub unless_unknown : ExitCode → Members → Members
  unless_unknown ExitCode.unknown ms = ms
  unless_unknown c ms = Members.member "exitCode" (Value.num (codec.show_code c)) ms

  unfoldable pub encode_bash_execution : BashExecutionMessage → Members
  unfolding int_value unless_unknown unless_empty unless_false
  encode_bash_execution m = Members.member "role" (Value.str "bashExecution") (
      Members.member "command" (Value.str m.command) (
        Members.member "output" (Value.str m.output) (
          unless_unknown m.exit_code (
            Members.member "cancelled" (Value.bool m.cancelled) (
              Members.member "truncated" (Value.bool m.truncated) (
                unless_empty "fullOutputPath" m.full_output_path (
                  Members.member "timestamp" (int_value m.timestamp)
                    (unless_false "excludeFromContext" m.exclude_from_context Members.end))))))))

  unfoldable pub encode_custom : CustomMessage → Members
  unfolding int_value encode_content unless_null
  encode_custom m = Members.member "role" (Value.str "custom") (
      Members.member "customType" (Value.str m.custom_type) (
        Members.member "content" (encode_content codec m.content) (
          Members.member "display" (Value.bool m.display) (
            unless_null "details" m.details
              (Members.member "timestamp" (int_value m.timestamp) Members.end)))))

  unfoldable pub encode_branch_summary : BranchSummaryMessage → Members
  unfolding int_value
  encode_branch_summary m = Members.member "role" (Value.str "branchSummary") (
      Members.member "summary" (Value.str m.summary) (
        Members.member "fromId" (Value.str m.from_id)
          (Members.member "timestamp" (int_value m.timestamp) Members.end)))

  unfoldable pub encode_compaction_summary : CompactionSummaryMessage → Members
  unfolding int_value
  encode_compaction_summary m = Members.member "role" (Value.str "compactionSummary") (
      Members.member "summary" (Value.str m.summary) (
        Members.member "tokensBefore" (int_value m.tokens_before)
          (Members.member "timestamp" (int_value m.timestamp) Members.end)))

  -- A raw message is its text, `null` where that is empty.
  unfoldable pub encode_message : AgentMessage → Value
  unfolding encode_bash_execution encode_custom encode_branch_summary encode_compaction_summary
  encode_message AgentMessage.nil = Value.null
  encode_message (AgentMessage.ai m) = Value.obj (codec.encode_ai m)
  encode_message (AgentMessage.bash_execution m) = Value.obj (encode_bash_execution m)
  encode_message (AgentMessage.custom m) = Value.obj (encode_custom m)
  encode_message (AgentMessage.branch_summary m) = Value.obj (encode_branch_summary m)
  encode_message (AgentMessage.compaction_summary m) = Value.obj (encode_compaction_summary m)
  encode_message (AgentMessage.raw_message s) = if s == "" then Value.null else codec.parse s

  unfoldable pub read_exit_code : Option Value → Option ExitCode
  read_exit_code none = some ExitCode.unknown
  read_exit_code (some Value.null) = some ExitCode.unknown
  read_exit_code (some (Value.num t)) = codec.read_code t
  read_exit_code (some _) = none

  unfoldable pub decode_bash_execution : Members → Option BashExecutionMessage
  unfolding field text_at flag_at int_at read_exit_code
  decode_bash_execution ms = do
    command ← text_at "command" ms
    output ← text_at "output" ms
    exit_code ← read_exit_code (field "exitCode" ms)
    cancelled ← flag_at "cancelled" ms
    truncated ← flag_at "truncated" ms
    path ← text_at "fullOutputPath" ms
    timestamp ← int_at codec "timestamp" ms
    excluded ← flag_at "excludeFromContext" ms
    some (record {
      command = command;
      output = output;
      exit_code = exit_code;
      cancelled = cancelled;
      truncated = truncated;
      full_output_path = path;
      timestamp = timestamp;
      exclude_from_context = excluded;
    })

  unfoldable pub decode_custom : Members → Option CustomMessage
  unfolding text_at flag_at any_at int_at content_of
  decode_custom ms = do
    custom_type ← text_at "customType" ms
    display ← flag_at "display" ms
    timestamp ← int_at codec "timestamp" ms
    some (record {
      custom_type = custom_type;
      content = content_of (any_at "content" ms);
      display = display;
      details = any_at "details" ms;
      timestamp = timestamp;
    })

  unfoldable pub decode_branch_summary : Members → Option BranchSummaryMessage
  unfolding text_at int_at
  decode_branch_summary ms = do
    summary ← text_at "summary" ms
    from_id ← text_at "fromId" ms
    timestamp ← int_at codec "timestamp" ms
    some (record { summary = summary; from_id = from_id; timestamp = timestamp })

  unfoldable pub decode_compaction_summary : Members → Option CompactionSummaryMessage
  unfolding text_at int_at
  decode_compaction_summary ms = do
    summary ← text_at "summary" ms
    tokens_before ← int_at codec "tokensBefore" ms
    timestamp ← int_at codec "timestamp" ms
    some (record { summary = summary; tokens_before = tokens_before; timestamp = timestamp })

  -- The role of a message, `none` where the value has no role that is a text.
  unfoldable pub role_of : Value → Option String
  unfolding text_at
  role_of Value.null = some ""
  role_of (Value.obj ms) = text_at "role" ms
  role_of _ = none

  unfoldable pub is_ai_role : String → Bool
  is_ai_role r = r == "user" || (r == "assistant" || r == "toolResult")

  unfoldable pub or_raw : Value → Option AgentMessage → AgentMessage
  or_raw v none = AgentMessage.raw_message (codec.print v)
  or_raw v (some m) = m

  -- An object of a role; a value that is none has no role.
  unfoldable pub by_role : String → Value → Members → Option AgentMessage
  unfolding is_ai_role decode_bash_execution decode_custom decode_branch_summary
      decode_compaction_summary
  by_role r v ms =
      if is_ai_role r
      then (do m ← codec.decode_ai v; some (AgentMessage.ai m))
      else if r == "bashExecution"
      then (do m ← decode_bash_execution ms; some (AgentMessage.bash_execution m))
      else if r == "custom"
      then (do m ← decode_custom ms; some (AgentMessage.custom m))
      else if r == "branchSummary"
      then (do m ← decode_branch_summary ms; some (AgentMessage.branch_summary m))
      else if r == "compactionSummary"
      then (do m ← decode_compaction_summary ms; some (AgentMessage.compaction_summary m))
      else none

  abbrev pub members_of : Value → Members
  members_of (Value.obj ms) = ms
  members_of _ = Members.end

  unfoldable pub read_as : Value → Option String → AgentMessage
  unfolding or_raw by_role
  read_as v none = AgentMessage.raw_message (codec.print v)
  read_as v (some r) = or_raw v (by_role r v (members_of v))

  -- `decodeAgentMessage`; what is not understood is kept as it is.
  unfoldable pub decode_agent_message : Option Value → AgentMessage
  unfolding role_of read_as
  decode_agent_message none = AgentMessage.raw_message "null"
  decode_agent_message (some v) = read_as v (role_of v)
