-- ===== src/Session/Operations.antt =====
-- internal/session/session.go: the operations of a `Session`, over any storage. Each call runs
-- under the session's lock, so a session is the sequence of its calls. `now` is the clock's reading
-- at the call.
pub mod Append
pub mod Moves
pub mod Labels
use attention.Prelude.{
  String, Bool, true, false, List, Option, none, some, trim_space, get_last?, ◌==◌, if◌then◌else◌,
}
use attention.Value.{Value}
use attention.Message.{AgentMessage, Content, snapshot}
use attention.Session.Types.{
  Body, SessionEntry, Result, ok, err, diverges, panics, not_found, Ctx, check_ctx, BranchSummary,
}
use attention.Session.Core.{
  Core, get_leaf_id, get_entry, get_path_to_root, find_entries, entry_not_found,
}
use attention.Session.Storage.{Action, pure, lift, gets, ◌>>=◌, ◌>>◌, SessionStorage}

-- `if _, ok := s.storage.GetEntry(id); !ok { … }`.
unfoldable pub check_entry : String → Core → Result (Unit {0})
unfolding get_entry entry_not_found
check_entry id c = elim (get_entry id c) [
  | none ↦ err (record { code = not_found; text = entry_not_found id })
  | some e ↦ ok tt
]

unfoldable pub check_target : Option String → Core → Result (Unit {0})
unfolding check_entry
check_target none c = ok tt
check_target (some id) c = check_entry id c

is_session_info : Body → Bool
is_session_info (Body.session_info name) = true
is_session_info _ = false

name_of : Body → String
name_of (Body.session_info name) = name
name_of _ = ""

module _ {S : Type 0} (st : SessionStorage S) where
  create_id : Action S String
  create_id s = (ok (st.create_entry_id s).0, (st.create_entry_id s).1)

  -- What every `Append…` does with its entry, after its own checks.
  unfoldable pub append : Ctx → (now : String) → Body → Action S String
  unfolding create_id
  append ctx now body = do
    lift (check_ctx ctx)
    leaf ← gets (λ s. get_leaf_id (st.core s))
    id ← create_id
    st.append_entry (record { id = id; parent_id = leaf; timestamp = now; body = body })
    pure id

  unfoldable pub append_message : Ctx → (now : String) → AgentMessage → Action S String
  append_message ctx now m = append ctx now (Body.message (snapshot m))

  unfoldable pub append_model_change : Ctx → (now provider model_id : String) → Action S String
  append_model_change ctx now provider model_id =
      append ctx now (Body.model_change provider model_id)

  unfoldable pub append_thinking_level_change : Ctx → (now level : String) → Action S String
  append_thinking_level_change ctx now level = append ctx now (Body.thinking_level_change level)

  unfoldable pub append_compaction :
      Ctx → (now summary first_kept : String) → Prim.Native.Nat.ℕ → Value → Bool → Action S String
  append_compaction ctx now summary first_kept tokens details from_hook =
      append ctx now (Body.compaction summary first_kept tokens details from_hook)

  unfoldable pub append_custom_entry : Ctx → (now custom_type : String) → Value → Action S String
  append_custom_entry ctx now custom_type payload = append ctx now (Body.custom custom_type payload)

  unfoldable pub append_custom_message_entry :
      Ctx → (now custom_type : String) → Content → Bool → Value → Action S String
  append_custom_message_entry ctx now custom_type content display details =
      append ctx now (Body.custom_message custom_type content display details)

  unfoldable pub append_label : Ctx → (now target text : String) → Action S String
  unfolding append
  append_label ctx now target text = do
    lift (check_ctx ctx)
    gets (λ s. check_entry target (st.core s))
    append none now (Body.label (some target) text)

  unfoldable pub append_session_name : Ctx → (now name : String) → Action S String
  append_session_name ctx now name = append ctx now (Body.session_info (trim_space name))

  -- The entry that `MoveTo` writes for a summary.
  unfoldable pub add_summary :
      (now : String) → Option String → Option BranchSummary → Action S (Option String)
  unfolding create_id
  add_summary now target none = pure none
  add_summary now target (some summary) = do
    id ← create_id
    st.append_entry (record {
      id = id;
      parent_id = target;
      timestamp = now;
      body = Body.branch_summary summary.summary target summary.details summary.from_hook;
    })
    pure (some id)

  unfoldable pub move_to :
      Ctx → (now : String) → Option String → Option BranchSummary → Action S (Option String)
  unfolding add_summary check_target
  move_to ctx now target summary = do
    lift (check_ctx ctx)
    gets (λ s. check_target target (st.core s))
    st.set_leaf_id now target
    add_summary now target summary

  -- `GetBranch`: a missing id stands for the leaf.
  unfoldable pub get_branch : Option String → S → Result (List SessionEntry)
  get_branch none s = elim (get_leaf_id (st.core s)) [
    | ok leaf ↦ get_path_to_root leaf (st.core s)
    | err e ↦ err e
    | diverges ↦ diverges
    | panics ↦ panics
  ]
  get_branch (some id) s = get_path_to_root (some id) (st.core s)

  -- `GetSessionName`: the last name that was set, unless it is blank.
  unfoldable pub get_session_name : S → Option String
  unfolding is_session_info name_of
  get_session_name s = elim (get_last? (find_entries is_session_info (st.core s).entries)) [
    | none ↦ none
    | some e ↦ let name = trim_space (name_of e.body) in if name == "" then none else some name
  ]
