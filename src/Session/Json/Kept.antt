-- ===== src/Session/Json/Kept.antt =====
-- What JSON keeps of messages and of the content of custom messages, and that it does.
use attention.Prelude.{
  ◌≡◌, refl, sym, ap, ◌∙◌, ℕ, String, Bool, true, false, some, ◌⊎◌, inl, inr, ◌==◌, Bool-cases,
  eq_iff,
}
use attention.Value.{Value, Members}
use attention.Ai.Types.{Role}
use attention.Message.{
  ExitCode, Content, AgentMessage, BashExecutionMessage, CustomMessage, BranchSummaryMessage,
  CompactionSummaryMessage,
}
use attention.Session.Json.Fields.{
  Codec, field, read_string, read_bool, read_int, read_any, text_at, flag_at, any_at, int_at,
  content_of, encode_content, unless_null, unless_false, unless_empty, ◌>>=◌,
}
use attention.Session.Json.Message.{
  encode_bash_execution, encode_custom, encode_branch_summary, encode_compaction_summary,
  encode_message, int_value, unless_unknown, read_exit_code, decode_bash_execution, decode_custom,
  decode_branch_summary, decode_compaction_summary, role_of, is_ai_role, or_raw, by_role, read_as,
  decode_agent_message,
}

-- A member that is left out where it is null, or is there.
pub solid :
    (d : Value)
    → (d ≡ Value.null) ⊎ ((k : String) (ms : Members) → unless_null k d ms ≡ Members.member k d ms)
unfolding unless_null
solid Value.null = inl refl
solid (Value.bool b) = inr λ k ms. refl
solid (Value.num n) = inr λ k ms. refl
solid (Value.str s) = inr λ k ms. refl
solid (Value.arr xs) = inr λ k ms. refl
solid (Value.obj ms) = inr λ k ms'. refl

-- Content that JSON keeps: no typed list of blocks, which is read as a bare array, and no bare null or
-- text, which are read as no content and as a text.
abbrev pub IsKeptContent : Content → Type 0
IsKeptContent (Content.text s) = Unit
IsKeptContent (Content.blocks bs) = ⊥
IsKeptContent (Content.raw Value.null) = ⊥
IsKeptContent (Content.raw (Value.str s)) = ⊥
IsKeptContent (Content.raw v) = Unit
IsKeptContent Content.missing = Unit

pub content_of-encode_content :
    (codec : Codec) (c : Content) → IsKeptContent c → content_of (encode_content codec c) ≡ c
unfolding content_of encode_content
content_of-encode_content codec (Content.text s) k = refl
content_of-encode_content codec (Content.blocks bs) k = absurd k
content_of-encode_content codec (Content.raw Value.null) k = absurd k
content_of-encode_content codec (Content.raw (Value.bool b)) k = refl
content_of-encode_content codec (Content.raw (Value.num n)) k = refl
content_of-encode_content codec (Content.raw (Value.str s)) k = absurd k
content_of-encode_content codec (Content.raw (Value.arr xs)) k = refl
content_of-encode_content codec (Content.raw (Value.obj ms)) k = refl
content_of-encode_content codec Content.missing k = refl

-- The three roles of a provider's messages, as they are written.
abbrev pub RoleText : Role → String → Type 0
RoleText Role.user t = t ≡ "user"
RoleText Role.assistant t = t ≡ "assistant"
RoleText Role.tool_result t = t ≡ "toolResult"
RoleText (Role.other_role r) t = ⊥

module _ (codec : Codec) where
  -- A count that the library writes and reads again.
  abbrev pub IsRead : ℕ → Type 0
  IsRead n = codec.read_int (codec.show_int n) ≡ some n

  abbrev pub IsReadCode : ExitCode → Type 0
  IsReadCode ExitCode.unknown = Unit
  IsReadCode c = codec.read_code (codec.show_code c) ≡ some c

  -- What JSON keeps of a message: one of a provider that the library reads back and whose role is its
  -- member `role`; one of the program's own with counts that the library reads back; no other one.
  abbrev pub IsKeptMessage : AgentMessage → Type 0
  IsKeptMessage AgentMessage.nil = ⊥
  IsKeptMessage (AgentMessage.ai m) =
      (codec.decode_ai (Value.obj (codec.encode_ai m)) ≡ some m)
      × ((r : String) × (field "role" (codec.encode_ai m) ≡ some (Value.str r)) × RoleText m.role r)
  IsKeptMessage (AgentMessage.bash_execution m) = IsReadCode m.exit_code × IsRead m.timestamp
  IsKeptMessage (AgentMessage.custom m) = IsKeptContent m.content × IsRead m.timestamp
  IsKeptMessage (AgentMessage.branch_summary m) = IsRead m.timestamp
  IsKeptMessage (AgentMessage.compaction_summary m) = IsRead m.tokens_before × IsRead m.timestamp
  IsKeptMessage (AgentMessage.raw_message s) = ⊥

  abbrev HasRole : String → Members → Type 0
  HasRole r ms = field "role" ms ≡ some (Value.str r)

  RoleText-is_ai_role : (r : Role) (t : String) → RoleText r t → is_ai_role codec t ≡ true
  unfolding is_ai_role
  RoleText-is_ai_role Role.user t e = rw e refl
  RoleText-is_ai_role Role.assistant t e = rw e refl
  RoleText-is_ai_role Role.tool_result t e = rw e refl
  RoleText-is_ai_role (Role.other_role r) t e = absurd e

  decode_compaction_summary-encode :
      (m : CompactionSummaryMessage)
      → IsRead m.tokens_before
      → IsRead m.timestamp
      → decode_compaction_summary codec (encode_compaction_summary codec m) ≡ some m
  unfolding decode_compaction_summary encode_compaction_summary text_at int_at field read_string
      read_int int_value
  decode_compaction_summary-encode m n t = rw (n, t) refl

  decode_branch_summary-encode :
      (m : BranchSummaryMessage)
      → IsRead m.timestamp
      → decode_branch_summary codec (encode_branch_summary codec m) ≡ some m
  unfolding decode_branch_summary encode_branch_summary text_at int_at field read_string read_int
      int_value
  decode_branch_summary-encode m t = rw t refl

  decode_custom-encode :
      (m : CustomMessage)
      → IsKeptContent m.content
      → IsRead m.timestamp
      → HasRole "custom" (encode_custom codec m)
        × (decode_custom codec (encode_custom codec m) ≡ some m)
  unfolding decode_custom encode_custom text_at flag_at any_at int_at field read_string read_bool
      read_int read_any int_value unless_null
  decode_custom-encode m c t =
      let k = content_of-encode_content codec m.content c in
      elim (solid m.details) [
        | inl e ↦ rw (e, t, k) (refl, refl)
        | inr e ↦
            rw
              (
                e "details" (Members.member "timestamp" (int_value codec m.timestamp) Members.end),
                t,
                k,
              )
              (refl, refl)
      ]

  -- The members behind the exit code are read whether it is there or not.
  decode_bash_execution-encode :
      (m : BashExecutionMessage)
      → IsReadCode m.exit_code
      → IsRead m.timestamp
      → HasRole "bashExecution" (encode_bash_execution codec m)
        × (decode_bash_execution codec (encode_bash_execution codec m) ≡ some m)
  unfolding decode_bash_execution encode_bash_execution text_at flag_at any_at int_at field
      read_string read_bool read_int int_value unless_unknown unless_false unless_empty
      read_exit_code
  decode_bash_execution-encode m c t =
      by_members m.exit_code m.full_output_path m.exclude_from_context c
    where
      made : ExitCode → String → Bool → BashExecutionMessage
      made code path excluded = record m {
        exit_code = code;
        full_output_path = path;
        exclude_from_context = excluded;
      }

      by_members :
          (code : ExitCode) (path : String) (excluded : Bool)
          → IsReadCode code
          → HasRole "bashExecution" (encode_bash_execution codec (made code path excluded))
            × (decode_bash_execution codec (encode_bash_execution codec (made code path excluded))
                ≡ some (made code path excluded))
      by_members ExitCode.unknown path true c = elim (Bool-cases (path == "")) [
        | inl e ↦
            rw (e, t)
              (refl, (ap (λ p. some (made ExitCode.unknown p true)) (sym ((eq_iff path "").0 e))))
        | inr e ↦ rw (e, t) (refl, refl)
      ]
      by_members ExitCode.unknown path false c = elim (Bool-cases (path == "")) [
        | inl e ↦
            rw (e, t)
              (refl, (ap (λ p. some (made ExitCode.unknown p false)) (sym ((eq_iff path "").0 e))))
        | inr e ↦ rw (e, t) (refl, refl)
      ]
      by_members (ExitCode.exited n) path true c = elim (Bool-cases (path == "")) [
        | inl e ↦
            rw (e, t, c)
              (
                refl,
                (ap (λ p. some (made (ExitCode.exited n) p true)) (sym ((eq_iff path "").0 e))),
              )
        | inr e ↦ rw (e, t, c) (refl, refl)
      ]
      by_members (ExitCode.exited n) path false c = elim (Bool-cases (path == "")) [
        | inl e ↦
            rw (e, t, c)
              (
                refl,
                (ap (λ p. some (made (ExitCode.exited n) p false)) (sym ((eq_iff path "").0 e))),
              )
        | inr e ↦ rw (e, t, c) (refl, refl)
      ]
      by_members (ExitCode.negative n) path true c = elim (Bool-cases (path == "")) [
        | inl e ↦
            rw (e, t, c)
              (
                refl,
                (ap (λ p. some (made (ExitCode.negative n) p true)) (sym ((eq_iff path "").0 e))),
              )
        | inr e ↦ rw (e, t, c) (refl, refl)
      ]
      by_members (ExitCode.negative n) path false c = elim (Bool-cases (path == "")) [
        | inl e ↦
            rw (e, t, c)
              (
                refl,
                (ap (λ p. some (made (ExitCode.negative n) p false)) (sym ((eq_iff path "").0 e))),
              )
        | inr e ↦ rw (e, t, c) (refl, refl)
      ]

  -- A provider's message is read by the library.
  by_role-ai :
      (r : String) (v : Value) (ms : Members)
      → is_ai_role codec r ≡ true
      → by_role codec r v ms ≡ (do m ← codec.decode_ai v; some (AgentMessage.ai m))
  unfolding by_role
  by_role-ai r v ms h = rw h refl

  -- The object of each message is read as that message.
  pub decode_agent_message-encode_message :
      (m : AgentMessage)
      → IsKeptMessage m
      → decode_agent_message codec (some (encode_message codec m)) ≡ m
  unfolding decode_agent_message encode_message read_as role_of by_role or_raw is_ai_role text_at
      field read_string encode_bash_execution encode_custom encode_branch_summary
      encode_compaction_summary
  decode_agent_message-encode_message AgentMessage.nil k = absurd k
  decode_agent_message-encode_message (AgentMessage.ai m) (dec, (r, role, named)) =
      let v = Value.obj (codec.encode_ai m) in
      ap (λ o. read_as codec v (read_string o)) role
      ∙ (ap (or_raw codec v)
            (by_role-ai r v (codec.encode_ai m) (RoleText-is_ai_role m.role r named))
          ∙ ap (λ o. or_raw codec v (o >>= λ x. some (AgentMessage.ai x))) dec)
  decode_agent_message-encode_message (AgentMessage.bash_execution m) (c, t) =
      let (role, dec) = decode_bash_execution-encode m c t in
      let v = Value.obj (encode_bash_execution codec m) in
      ap (λ o. read_as codec v (read_string o)) role
      ∙ ap (λ o. or_raw codec v (o >>= λ x. some (AgentMessage.bash_execution x))) dec
  decode_agent_message-encode_message (AgentMessage.custom m) (c, t) =
      let (role, dec) = decode_custom-encode m c t in
      let v = Value.obj (encode_custom codec m) in
      ap (λ o. read_as codec v (read_string o)) role
      ∙ ap (λ o. or_raw codec v (o >>= λ x. some (AgentMessage.custom x))) dec
  decode_agent_message-encode_message (AgentMessage.branch_summary m) t =
      ap
        (λ o.
          or_raw codec (Value.obj (encode_branch_summary codec m))
            (o >>= λ x. some (AgentMessage.branch_summary x)))
        (decode_branch_summary-encode m t)
  decode_agent_message-encode_message (AgentMessage.compaction_summary m) (n, t) =
      ap
        (λ o.
          or_raw codec (Value.obj (encode_compaction_summary codec m))
            (o >>= λ x. some (AgentMessage.compaction_summary x)))
        (decode_compaction_summary-encode m n t)
  decode_agent_message-encode_message (AgentMessage.raw_message s) k = absurd k
