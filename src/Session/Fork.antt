-- ===== src/Session/Fork.antt =====
-- internal/session/repo.go: `getEntriesToFork`, what a fork takes over of the session that it is made
-- from.
use mathlib.Core.List.{reverse-cons}
use Prim.Native.String
use attention.Prelude.{
  ◌≡◌, refl, sym, ap, ◌∙◌, subst, String, Bool, true, false, List, [], ◌∷◌, ◌++◌, ℕ, Option, none,
  some, some-injective, reverse,
}
use attention.Ai.Types.{is_user}
use attention.Message.{as_ai_message}
use attention.Session.Types.{Body, SessionEntry, Result, ok, err, invalid_fork_target}
use attention.Session.Core.{Core, get_entry, get_path_to_root}
use attention.Session.Tree.{IsValid, ParentBelow, get_entry_index}
use attention.Session.Tree.Path.{IsKnown, get_path_to_root-IsBranch, get_path_to_root_lem}

-- `ForkPosition`: any value but the one for `ForkAt` means before the entry.
pub data ForkPosition : Type 0 where
  fork_at fork_before : ForkPosition

unfoldable pub is_user_message : Body → Bool
is_user_message (Body.message m) = elim (as_ai_message m) [
  | none ↦ false
  | some msg ↦ is_user msg.role
]
is_user_message _ = false

fork_before_it : (id : String) → (is_user : Bool) → SessionEntry → Core → Result (List SessionEntry)
unfolding get_path_to_root
fork_before_it id true target c = get_path_to_root target.parent_id c
fork_before_it id false target c = err (record {
  code = invalid_fork_target;
  text = String.◌++◌ "Entry " (String.◌++◌ id " is not a user message");
})

fork_from : (id : String) → Option SessionEntry → ForkPosition → Core → Result (List SessionEntry)
unfolding is_user_message get_path_to_root fork_before_it
fork_from id none position c = err (record {
  code = invalid_fork_target;
  text = String.◌++◌ "Entry " (String.◌++◌ id " not found");
})
fork_from id (some target) fork_at c = get_path_to_root (some target.id) c
fork_from id (some target) fork_before c = fork_before_it id (is_user_message target.body) target c

unfoldable pub get_entries_to_fork :
    Core → Option String → ForkPosition → Result (List SessionEntry)
unfolding get_entry fork_from
get_entries_to_fork c none position = ok c.entries
get_entries_to_fork c (some id) position = fork_from id (get_entry id c) position c

-- The parent of an entry that is found is known.
parent-IsKnown :
    {c : Core} (v : IsValid c) (id : String) (e : SessionEntry)
    → get_entry id c ≡ some e
    → (e.id ≡ id) × IsKnown c e.parent_id
parent-IsKnown {c} v id e h =
    let (i, at, is) = get_entry_index c id h in
    let (f, is', same, below) = v.indexed id i at in
    let f≡e : f ≡ e = some-injective f e (sym is' ∙ is) in
    subst (λ x. (x.id ≡ id) × IsKnown c x.parent_id) f≡e (same, known f.parent_id i below)
  where
    known : (p : Option String) (i : ℕ) → ParentBelow c.by_id i p → IsKnown c p
    known none i b = tt
    known (some p) i (j, at, lt) = (j, at)

-- The branch of an entry is that of its parent, and the entry.
path-parent :
    {c : Core} (v : IsValid c) (id : String) (e : SessionEntry)
    → get_entry id c ≡ some e
    → (up : List SessionEntry) × (get_path_to_root e.parent_id c ≡ ok (reverse up))
      × (get_path_to_root (some id) c ≡ ok (reverse up ++ e ∷ []))
path-parent {c} v id e h =
    let (same, known) = parent-IsKnown v id e h in
    let (up, run, branch) = get_path_to_root-IsBranch v e.parent_id known in
    let (i, at, is) = get_entry_index c id h in
    (
      up,
      run,
      get_path_to_root_lem v (some id) (e ∷ up) (i, at) (id, refl, h, branch)
          ∙ ap (λ xs. ok xs) (reverse-cons e up),
    )

-- In a well-formed session a fork before a user message takes over a branch, and a fork at it the same
-- branch with the message behind it.
pub get_entries_to_fork-user :
    {c : Core} (v : IsValid c) (id : String) (e : SessionEntry)
    → get_entry id c ≡ some e
    → is_user_message e.body ≡ true
    → (path : List SessionEntry) × (get_entries_to_fork c (some id) fork_before ≡ ok path)
      × (get_entries_to_fork c (some id) fork_at ≡ ok (path ++ e ∷ []))
unfolding get_entries_to_fork fork_from fork_before_it
get_entries_to_fork-user {c} v id e h u =
    let (up, before, at) = path-parent v id e h in
    let (same, _) = parent-IsKnown v id e h in
    (
      reverse up,
      ap (λ o. fork_from id o fork_before c) h ∙ (ap (λ b. fork_before_it id b e c) u ∙ before),
      ap (λ o. fork_from id o fork_at c) h ∙ (ap (λ i. get_path_to_root (some i) c) same ∙ at),
    )
