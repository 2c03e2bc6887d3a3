-- ===== src/Session/Context.antt =====
-- `buildContextFromPath` (internal/session/session.go): the messages, the thinking level and the
-- model that a branch stands for. `parse_millis` is `parseTimestampMillis`: Go's reading of a
-- timestamp as milliseconds, 0 where it is malformed.
pub mod Latest
pub mod Refine
use attention.Prelude.{
  ℕ, zero, suc, ◌≡◌, refl, String, Bool, true, false, List, [], ◌∷◌, ◌++◌, Option, none, some, take,
  drop, ◌==◌, ◌||◌, if◌then◌else◌,
}
use attention.Value.{Value}
use attention.Ai.Types.{Message, is_assistant}
use attention.Message.{
  AgentMessage, custom, branch_summary, compaction_summary, as_ai_message, snapshot,
}
use attention.Session.Types.{
  Body, SessionEntry, Context, ModelRef, Result, ok, err, Ctx, check_ctx, ◌>>=◌, ◌>>◌,
}
use attention.Session.Core.{Core, get_leaf_id, get_path_to_root}

-- What the first loop remembers of the last compaction entry.
pub record Compaction : Type 0 where
  pub id : String
  pub timestamp : String
  pub summary : String
  pub first_kept_entry_id : String
  pub tokens_before : ℕ

pub record Scan : Type 0 where
  pub thinking_level : String
  pub model : Option ModelRef
  pub last_compaction : Option Compaction

model_of : Option ModelRef → Message → Option ModelRef
model_of old m =
    if is_assistant m.role then some (record { provider = m.provider; model_id = m.model }) else old

-- One round of the first loop, by the entry's type.
unfoldable pub scan_body : SessionEntry → Body → Scan → Scan
unfolding model_of as_ai_message
scan_body e (Body.thinking_level_change level) s = record s { thinking_level = level }
scan_body e (Body.model_change provider model_id) s = record s {
  model = some (record { provider = provider; model_id = model_id });
}
scan_body e (Body.message m) s = elim (as_ai_message m) [
  | none ↦ s
  | some msg ↦ record s { model = model_of s.model msg }
]
scan_body e (Body.compaction summary first_kept tokens details from_hook) s = record s {
  last_compaction = some (record {
    id = e.id;
    timestamp = e.timestamp;
    summary = summary;
    first_kept_entry_id = first_kept;
    tokens_before = tokens;
  });
}
scan_body e _ s = s

unfoldable pub scan : List SessionEntry → Scan → Scan
unfolding scan_body
scan [] s = s
scan (e ∷ es) s = scan es (scan_body e e.body s)

is_compaction : Body → Bool
is_compaction (Body.compaction t k n d h) = true
is_compaction _ = false

-- `entry.Type == "compaction" && entry.ID == id`.
unfoldable pub is_compaction_of : String → SessionEntry → Bool
unfolding is_compaction
is_compaction_of id e = if is_compaction e.body then e.id == id else false

-- The index of the first such entry.
unfoldable pub compaction_index : String → List SessionEntry → Option ℕ
compaction_index id [] = none
compaction_index id (e ∷ es) =
    let rest = compaction_index id es in
    if is_compaction_of id e then some 0 else elim rest [ none ↦ none | some i ↦ some (suc i) ]

module _ (parse_millis : String → ℕ) where
  -- `appendContextMessage`, by the entry's type.
  unfoldable pub append_body : List AgentMessage → SessionEntry → Body → List AgentMessage
  append_body ms e (Body.message m) = ms ++ snapshot m ∷ []
  append_body ms e (Body.custom_message t c d details) =
      ms
      ++ custom (record {
        custom_type = t;
        content = c;
        display = d;
        details = details;
        timestamp = parse_millis e.timestamp;
      })
        ∷ []
  append_body ms e (Body.branch_summary summary from details hook) =
      if summary == ""
      then ms
      else ms
        ++ branch_summary (record {
          summary = summary;
          from_id = elim from [ none ↦ "root" | some id ↦ id ];
          timestamp = parse_millis e.timestamp;
        })
          ∷ []
  append_body ms e _ = ms

  unfoldable pub append_context_message : List AgentMessage → SessionEntry → List AgentMessage
  unfolding append_body
  append_context_message ms e = append_body ms e e.body

  unfoldable pub append_all : List AgentMessage → List SessionEntry → List AgentMessage
  append_all ms [] = ms
  append_all ms (e ∷ es) = append_all (append_context_message ms e) es

  -- The loop over the entries before the compaction; `found` is `foundFirstKept`.
  unfoldable pub append_kept :
      String → Bool → List AgentMessage → List SessionEntry → List AgentMessage
  append_kept first_kept found ms [] = ms
  append_kept first_kept found ms (e ∷ es) =
      let found' = found || e.id == first_kept in
      append_kept first_kept found' (if found' then append_context_message ms e else ms) es

  unfoldable pub summary_message : Compaction → AgentMessage
  summary_message c = compaction_summary (record {
    summary = c.summary;
    tokens_before = c.tokens_before;
    timestamp = parse_millis c.timestamp;
  })

  -- The messages around the compaction at an index; without one the second loop runs from 0.
  unfoldable pub messages_around : Compaction → Option ℕ → List SessionEntry → List AgentMessage
  unfolding summary_message append_kept append_all
  messages_around c none path = append_all (summary_message c ∷ []) path
  messages_around c (some i) path =
      append_all (append_kept c.first_kept_entry_id false (summary_message c ∷ []) (take i path))
        (drop (suc i) path)

  -- The messages of a branch whose last compaction is given.
  unfoldable pub context_messages : Option Compaction → List SessionEntry → List AgentMessage
  unfolding messages_around append_all
  context_messages none path = append_all [] path
  context_messages (some c) path = messages_around c (compaction_index c.id path) path

  unfoldable pub build_context_from_path : List SessionEntry → Context
  unfolding scan context_messages
  build_context_from_path path =
      let s = scan path (record { thinking_level = "off"; model = none; last_compaction = none }) in
      record {
        messages = context_messages s.last_compaction path;
        thinking_level = s.thinking_level;
        model = s.model;
      }

  -- `BuildContext`.
  unfoldable pub build_context : Ctx → Core → Result Context
  build_context ctx c = do
    check_ctx ctx
    leaf ← get_leaf_id c
    path ← get_path_to_root leaf c
    ok (build_context_from_path path)
