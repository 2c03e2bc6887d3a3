-- ===== src/Harness/Prepare.antt =====
-- internal/harness/compact.go: `prepareCompaction`. The file operations that the summary
-- lists are left out. A negative `KeepRecentTokens` acts as 0, so settings are natural numbers.
pub mod Range
pub mod Split
use attention.Prelude.{
  ℕ, zero, suc, ◌+◌, ◌-◌, String, Bool, true, false, not, ◌&&◌, ◌||◌, List, [], ◌∷◌, ◌++◌, Option,
  none, some, get_elem?, get_last?, length, drop, take, leb, ltb, eqb, ◌==◌, if◌then◌else◌,
}
use attention.Value.{Value}
use attention.Ai.Types.{Message, ContentBlock}
use attention.Message.{AgentMessage, nil, custom, branch_summary, compaction_summary, snapshot}
use attention.Session.Types.{Body, SessionEntry}
use attention.Harness.Estimate.{estimate_ai_message_tokens, estimate_context_tokens}
use attention.Harness.CutPoint.{CutPointResult, find_cut_point}

pub record CompactionSettings : Type 0 where
  pub enabled : Bool
  pub reserve_tokens : ℕ
  pub keep_recent_tokens : ℕ

-- `compactionSettingsWithDefaults`: settings that are all zero are replaced.
unfoldable pub with_defaults : CompactionSettings → CompactionSettings
with_defaults s =
    if not s.enabled && eqb s.reserve_tokens 0 && eqb s.keep_recent_tokens 0
    then record { enabled = true; reserve_tokens = 16384; keep_recent_tokens = 20000 }
    else s

pub record CompactionPrep : Type 0 where
  pub first_kept_entry_id : String
  pub messages_to_summarize : List AgentMessage
  pub turn_prefix_messages : List AgentMessage
  pub is_split_turn : Bool
  pub tokens_before : ℕ
  pub previous_summary : String
  pub settings : CompactionSettings

-- The last compaction before the end, with its index, and the summary and first kept id in it.
pub record Previous : Type 0 where
  pub index : ℕ
  pub timestamp : String
  pub summary : String
  pub first_kept_entry_id : String
  pub tokens_before : ℕ

unfoldable pub previous_body : ℕ → (timestamp : String) → Body → Option Previous
previous_body i timestamp (Body.compaction summary first_kept tokens d h) = some (record {
  index = i;
  timestamp = timestamp;
  summary = summary;
  first_kept_entry_id = first_kept;
  tokens_before = tokens;
})
previous_body i timestamp _ = none

unfoldable pub or_else : Option Previous → Option Previous → Option Previous
or_else none p = p
or_else (some q) p = some q

-- The search from the last entry back, as the last hit of a search from `i` on.
unfoldable pub find_previous : (i : ℕ) → List SessionEntry → Option Previous
unfolding previous_body or_else
find_previous i [] = none
find_previous i (e ∷ es) = or_else (find_previous (suc i) es) (previous_body i e.timestamp e.body)

unfoldable pub index_of : String → (i : ℕ) → List SessionEntry → Option ℕ
index_of id i [] = none
index_of id i (e ∷ es) = let rest = index_of id (suc i) es in if e.id == id then some i else rest

-- `boundaryStart`: where the entries begin that no earlier summary covers.
unfoldable pub boundary_start : List SessionEntry → Option Previous → ℕ
unfolding index_of
boundary_start branch none = 0
boundary_start branch (some p) = elim (index_of p.first_kept_entry_id 0 branch) [
  | some i ↦ i
  | none ↦ suc p.index
]

previous_summary : Option Previous → String
previous_summary none = ""
previous_summary (some p) = p.summary

-- The entries from index `i` up to `j`.
abbrev pub range : ℕ → ℕ → List SessionEntry → List SessionEntry
range i j es = take (j - i) (drop i es)

unfoldable pub ends_in_compaction : List SessionEntry → Bool
ends_in_compaction [] = true
ends_in_compaction (e ∷ []) = elim (previous_body 0 e.timestamp e.body) [
  | none ↦ false
  | some p ↦ true
]
ends_in_compaction (e ∷ f ∷ es) = ends_in_compaction (f ∷ es)

module _ (parse_millis : String → ℕ) where
  -- `messageFromEntryForCompaction`.
  unfoldable pub message_from_body : SessionEntry → Body → List AgentMessage
  message_from_body e (Body.message nil) = []
  message_from_body e (Body.message m) = snapshot m ∷ []
  message_from_body e (Body.custom_message t c d details) =
      custom (record {
        custom_type = t;
        content = c;
        display = d;
        details = details;
        timestamp = parse_millis e.timestamp;
      })
      ∷ []
  message_from_body e (Body.branch_summary summary from d h) =
      branch_summary (record {
        summary = summary;
        from_id = elim from [ none ↦ "root" | some id ↦ id ];
        timestamp = parse_millis e.timestamp;
      })
      ∷ []
  message_from_body e _ = []

  -- The messages of entries, those without one left out.
  unfoldable pub messages_from : List SessionEntry → List AgentMessage
  unfolding message_from_body
  messages_from [] = []
  messages_from (e ∷ es) = message_from_body e e.body ++ messages_from es

  -- The entries before the compaction, from the first that it kept; `found` is `foundFirstKept`.
  unfoldable pub kept_messages :
      (first_kept : String) → (found : Bool) → List SessionEntry → List AgentMessage
  unfolding message_from_body
  kept_messages first_kept found [] = []
  kept_messages first_kept found (e ∷ es) =
      let found' = found || e.id == first_kept in
      let rest = kept_messages first_kept found' es in
      if found' then message_from_body e e.body ++ rest else rest

  estimated_messages : Option Previous → List SessionEntry → List AgentMessage
  unfolding kept_messages messages_from
  estimated_messages none entries = messages_from entries
  estimated_messages (some p) entries =
      compaction_summary (record {
        summary = p.summary;
        tokens_before = p.tokens_before;
        timestamp = parse_millis p.timestamp;
      })
      ∷ (kept_messages p.first_kept_entry_id false (take p.index entries)
          ++ messages_from (drop (suc p.index) entries))

  -- `contextMessagesForTokenEstimate`.
  unfoldable pub context_messages_for_estimate : List SessionEntry → List AgentMessage
  unfolding estimated_messages find_previous
  context_messages_for_estimate entries = estimated_messages (find_previous 0 entries) entries

  module _ (marshal_length : List (String × Value) → Option ℕ)
      (decode : Value → Option (List ContentBlock)) where
    -- `estimateContextTokens`.
    unfoldable pub estimate_entries : List SessionEntry → ℕ
    unfolding context_messages_for_estimate
    estimate_entries entries =
        estimate_context_tokens marshal_length decode (context_messages_for_estimate entries)

    -- `estimateAIMessageTokens`.
    abbrev pub tokens : Message → ℕ
    tokens m = estimate_ai_message_tokens marshal_length m.role m.content

    -- What is prepared once the cut and the first kept entry are known.
    unfoldable pub prepare_at :
        List SessionEntry
        → CompactionSettings
        → (previous : Option Previous) → (boundary : ℕ) → CutPointResult
        → SessionEntry
        → CompactionPrep
    unfolding previous_summary estimate_entries
    prepare_at branch settings previous boundary cut e =
        let kept = cut.first_kept_entry_index in
        let turn : ℕ = elim cut.turn_start_index [ none ↦ 0 | some t ↦ t ] in
        let history_end = if cut.is_split_turn then turn else kept in
        record {
          first_kept_entry_id = e.id;
          messages_to_summarize = messages_from (range boundary history_end branch);
          turn_prefix_messages =
              if cut.is_split_turn then messages_from (range turn kept branch) else [];
          is_split_turn = cut.is_split_turn;
          tokens_before = estimate_entries branch;
          previous_summary = previous_summary previous;
          settings = settings;
        }

    -- The rest of `prepareCompaction` once the cut is found.
    unfoldable pub prepare_from :
        List SessionEntry
        → CompactionSettings
        → (previous : Option Previous) → (boundary : ℕ) → CutPointResult
        → Option CompactionPrep
    unfolding prepare_at
    prepare_from branch settings previous boundary cut =
        elim (get_elem? branch cut.first_kept_entry_index) [
          | none ↦ none
          | some e ↦
              if e.id == "" then none else some (prepare_at branch settings previous boundary cut e)
        ]

    -- `prepareCompaction`; `none` is that there is nothing to compact.
    unfoldable pub prepare_compaction :
        List SessionEntry → CompactionSettings → Option CompactionPrep
    unfolding with_defaults find_previous boundary_start ends_in_compaction prepare_from
    prepare_compaction branch settings =
        let settings' = with_defaults settings in
        let previous = find_previous 0 branch in
        let boundary = boundary_start branch previous in
        let cut =
          find_cut_point tokens branch boundary (length branch) settings'.keep_recent_tokens in
        if ends_in_compaction branch
        then none
        else prepare_from branch settings' previous boundary cut
