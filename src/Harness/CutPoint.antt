-- ===== src/Harness/CutPoint.antt =====
-- internal/harness/compact.go: where a branch is cut. Entries are addressed by index; `tokens`
-- is the estimate for a provider message.
pub mod Points
pub mod Bounds
use attention.Prelude.{
  ℕ, zero, suc, ◌+◌, ◌-◌, String, Bool, true, false, not, ◌&&◌, ◌||◌, List, [], ◌∷◌, Option, none,
  some, get_elem?, drop, take, leb, ltb, if◌then◌else◌,
}
use attention.Ai.Types.{Message, is_user, is_tool_result}
use attention.Message.{
  AgentMessage, nil, ai, bash_execution, custom, branch_summary, compaction_summary, raw_message,
  as_ai_message,
}
use attention.Session.Types.{Body, SessionEntry}

unfoldable pub is_valid_message_cut_point : AgentMessage → Bool
is_valid_message_cut_point (ai m) = not (is_tool_result m.role)
is_valid_message_cut_point (raw_message r) = false
is_valid_message_cut_point nil = false
is_valid_message_cut_point _ = true

unfoldable pub is_user_message_entry : AgentMessage → Bool
is_user_message_entry (ai m) = is_user m.role
is_user_message_entry _ = false

unfoldable pub is_turn_start_message : AgentMessage → Bool
unfolding is_user_message_entry
is_turn_start_message (bash_execution m) = true
is_turn_start_message (ai m) = is_user_message_entry (ai m)
is_turn_start_message _ = false

-- The cases of `findValidCutPoints`.
unfoldable pub is_cut_point : Body → Bool
unfolding is_valid_message_cut_point
is_cut_point (Body.message m) = is_valid_message_cut_point m
is_cut_point (Body.branch_summary t f d h) = true
is_cut_point (Body.custom_message t c d x) = true
is_cut_point _ = false

unfoldable pub find_valid_cut_points : (index : ℕ) → List SessionEntry → List ℕ
unfolding is_cut_point
find_valid_cut_points i [] = []
find_valid_cut_points i (e ∷ es) =
    let rest = find_valid_cut_points (suc i) es in if is_cut_point e.body then i ∷ rest else rest

-- `entry.Type == "compaction" || entry.Type == "message"`.
unfoldable pub stops_rewind : Body → Bool
stops_rewind (Body.compaction t k n d h) = true
stops_rewind (Body.message m) = true
stops_rewind _ = false

unfoldable pub starts_turn : Body → Bool
unfolding is_turn_start_message
starts_turn (Body.branch_summary t f d h) = true
starts_turn (Body.custom_message t c d x) = true
starts_turn (Body.message m) = is_turn_start_message m
starts_turn _ = false

unfoldable pub is_user_entry : Body → Bool
unfolding is_user_message_entry
is_user_entry (Body.message m) = is_user_message_entry m
is_user_entry _ = false

-- The entry at an index, seen through a test; out of range the test fails.
abbrev pub test_at : (Body → Bool) → List SessionEntry → ℕ → Bool
test_at test entries i = elim (get_elem? entries i) [ none ↦ false | some e ↦ test e.body ]

-- `findTurnStartIndex` from `start + rounds - 1` down to `start`.
unfoldable pub find_turn_start : List SessionEntry → (start rounds : ℕ) → Option ℕ
unfolding starts_turn
find_turn_start entries start zero = none
find_turn_start entries start (suc rounds) =
    let rest = find_turn_start entries start rounds in
    if test_at starts_turn entries (start + rounds) then some (start + rounds) else rest

-- The cut moves back over entries that are neither messages nor compactions.
unfoldable pub rewind : List SessionEntry → (start rounds : ℕ) → ℕ
unfolding stops_rewind
rewind entries start zero = start
rewind entries start (suc rounds) =
    let rest = rewind entries start rounds in
    if test_at stops_rewind entries (start + rounds) then start + suc rounds else rest

-- The first candidate from an index on, or the default.
unfoldable pub candidate_from : (index default : ℕ) → List ℕ → ℕ
candidate_from i default [] = default
candidate_from i default (c ∷ cs) =
    let rest = candidate_from i default cs in if leb i c then c else rest

-- The cut point for the entry at which enough is kept.
unfoldable pub chosen_candidate : (first : ℕ) → List ℕ → Option ℕ → ℕ
unfolding candidate_from
chosen_candidate first cut_points none = first
chosen_candidate first cut_points (some i) = candidate_from i first cut_points

pub record CutPointResult : Type 0 where
  pub first_kept_entry_index : ℕ
  pub turn_start_index : Option ℕ
  pub is_split_turn : Bool

module _ (tokens : Message → ℕ) where
  -- What an entry adds to the accumulated tokens; `none` is `continue`.
  unfoldable pub entry_tokens : Body → Option ℕ
  unfolding as_ai_message
  entry_tokens (Body.message m) = elim (as_ai_message m) [
    | none ↦ none
    | some msg ↦ some (tokens msg)
  ]
  entry_tokens _ = none

  tokens_at : List SessionEntry → ℕ → Option ℕ
  unfolding entry_tokens
  tokens_at entries i = elim (get_elem? entries i) [ none ↦ none | some e ↦ entry_tokens e.body ]

  -- The loop from `start + rounds - 1` down to `start`: the entry at which enough is kept.
  unfoldable pub find_budget :
      List SessionEntry → (start rounds : ℕ) → (keep_recent_tokens accumulated : ℕ) → Option ℕ
  unfolding tokens_at
  find_budget entries start zero keep accumulated = none
  find_budget entries start (suc rounds) keep accumulated =
      elim (tokens_at entries (start + rounds)) [
        | none ↦ find_budget entries start rounds keep accumulated
        | some n ↦ elim (ltb (accumulated + n) keep) [
          | true ↦ find_budget entries start rounds keep (accumulated + n)
          | false ↦ some (start + rounds)
        ]
      ]

  -- `cutIndex` behind the two loops, for a list of cut points that begins with `first`.
  unfoldable pub choose_cut : List SessionEntry → (start end keep : ℕ) → (first : ℕ) → List ℕ → ℕ
  unfolding find_budget chosen_candidate rewind
  choose_cut entries start end keep first cut_points =
      let budget = find_budget entries start (end - start) keep 0 in
      rewind entries start (chosen_candidate first cut_points budget - start)

  -- What `findCutPoint` returns for a cut.
  unfoldable pub cut_result : List SessionEntry → (start cut : ℕ) → CutPointResult
  unfolding find_turn_start is_user_entry
  cut_result entries start cut =
      let is_user_message = test_at is_user_entry entries cut in
      let turn_start =
        if is_user_message then none else find_turn_start entries start (suc cut - start) in
      record {
        first_kept_entry_index = cut;
        turn_start_index = turn_start;
        is_split_turn = elim turn_start [ none ↦ false | some i ↦ not is_user_message ];
      }

  unfoldable pub find_cut_point :
      List SessionEntry → (start end keep_recent_tokens : ℕ) → CutPointResult
  unfolding find_valid_cut_points choose_cut cut_result
  find_cut_point entries start end keep =
      elim (find_valid_cut_points start (take (end - start) (drop start entries))) [
        | [] ↦ record {
          first_kept_entry_index = start;
          turn_start_index = none;
          is_split_turn = false;
        }
        | first ∷ rest ↦
            cut_result entries start (choose_cut entries start end keep first (first ∷ rest))
      ]
