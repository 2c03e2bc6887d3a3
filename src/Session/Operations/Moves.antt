-- ===== src/Session/Operations/Moves.antt =====
-- `MoveTo`: the leaf goes to another entry, with a summary of the branch that is left, or none.
use attention.Prelude.{
  ◌≡◌, refl, ◌∙◌, ap, subst, String, List, [], ◌∷◌, ◌++◌, Option, none, some, inl, inr, arith,
}
use attention.Prelude.Dict.{get}
use attention.Session.Types.{Body, SessionEntry, ok, BranchSummary}
use attention.Session.Core.{
  Core, add_entry, move_leaf, check_leaf, get_path_to_root, leaf_id_after_entry,
}
use attention.Session.Storage.{SessionStorage, Laws, IsFresh}
use attention.Session.Tree.{IsValid, get_entry_at}
use attention.Session.Tree.Grow.{Fits, add_entry-IsValid}
use attention.Session.Tree.Path.{
  IsKnown, IsKnown-add_entry, get_path_to_root-add_entry, get_path_to_root-add_entry_known,
}
use attention.Session.Operations.{check_target, move_to, get_branch}
use attention.Session.Operations.Append.{get_branch_lem}

-- The entry that `SetLeafID` records.
abbrev pub leaf_entry : (id now : String) → Option String → Core → SessionEntry
leaf_entry id now target c = record {
  id = id;
  parent_id = c.leaf_id;
  timestamp = now;
  body = Body.leaf target;
}

-- Recording the move adds that entry as `AppendEntry` would.
move_leaf-eq-add_entry :
    (id now : String) (target : Option String) (c : Core)
    → move_leaf id now target c ≡ add_entry (leaf_entry id now target c) c
unfolding move_leaf add_entry
move_leaf-eq-add_entry id now target c = refl

leaf_entry-Fits :
    {c : Core}
    → IsValid c
    → (id now : String) (target : Option String) → get c.by_id id ≡ none
    → IsKnown c target
    → Fits c (leaf_entry id now target c)
unfolding leaf_id_after_entry
leaf_entry-Fits v id now none fresh k = record {
  fresh = fresh;
  parent_known = v.leaf_known;
  target_known = λ t h. absurd (cc);
}
leaf_entry-Fits v id now (some target) fresh (i, at) = record {
  fresh = fresh;
  parent_known = v.leaf_known;
  target_known = λ t h. inr (i, ground arith);
}

pub check_target-IsKnown :
    {c : Core}
    → IsValid c
    → (target : Option String) → IsKnown c target
    → check_target target c ≡ ok tt
unfolding check_target
check_target-IsKnown v none k = refl
check_target-IsKnown {c} v (some id) (i, at) =
    let (e, is, _, _) = v.indexed id i at in ground (arith, get_entry_at c id at is)

check_leaf-IsKnown :
    (c : Core) (target : Option String) → IsKnown c target → check_leaf target c ≡ ok tt
unfolding check_leaf
check_leaf-IsKnown c none k = refl
check_leaf-IsKnown c (some id) (i, at) = ground (arith, at)

module _ {S : Type 0} {st : SessionStorage S} (laws : Laws st) {s : S} (v : IsValid (st.core s))
    (fresh : IsFresh st s) (now : String) (target : Option String)
    (known : IsKnown (st.core s) target) where
  -- The state that `SetLeafID` leaves.
  abbrev pub moved : S
  moved = (st.set_leaf_id now target s).1

  abbrev pub marker : SessionEntry
  marker = leaf_entry (st.create_entry_id s).0 now target (st.core s)

  marker-Fits : Fits (st.core s) marker
  marker-Fits = leaf_entry-Fits v (st.create_entry_id s).0 now target fresh known

  pub core-moved : st.core moved ≡ add_entry marker (st.core s)
  core-moved =
      laws.core-set_leaf_id now target s (check_leaf-IsKnown (st.core s) target known)
      ∙ move_leaf-eq-add_entry (st.create_entry_id s).0 now target (st.core s)

  pub moved-IsValid : IsValid (st.core moved)
  moved-IsValid = rw core-moved (add_entry-IsValid v marker-Fits)

  path-moved : get_path_to_root target (st.core moved) ≡ get_path_to_root target (st.core s)
  path-moved = rw core-moved (get_path_to_root-add_entry_known v marker-Fits target known)

  leaf-moved : (st.core moved).leaf_id ≡ target
  unfolding add_entry leaf_id_after_entry
  leaf-moved = ap (λ c. c.leaf_id) core-moved

  pub IsKnown-moved : IsKnown (st.core moved) target
  IsKnown-moved = rw core-moved (IsKnown-add_entry v marker-Fits target known)

  -- Over every storage that keeps the laws, in a well-formed session whose next id is new, for a
  -- context that is not cancelled, a target that is none or known, and a storage that takes the
  -- move: `MoveTo` without a summary returns no id and leaves the state of `SetLeafID`, which is
  -- well-formed, and the leaf's branch is then the branch that the target had before.
  pub move_to-branch :
      (st.set_leaf_id now target s).0 ≡ ok tt
      → (move_to st none now target none s ≡ (ok none, moved))
        × IsValid (st.core moved)
        × (get_branch st none moved ≡ get_path_to_root target (st.core s))
  unfolding move_to
  move_to-branch taken = (
    ground (arith, check_target-IsKnown v target known),
    moved-IsValid,
    get_branch_lem st moved moved-IsValid
        ∙ ap (λ x. get_path_to_root x (st.core moved)) leaf-moved
        ∙ path-moved,
  )

  -- The entry that a summary writes.
  abbrev pub summary_entry : BranchSummary → SessionEntry
  summary_entry b = record {
    id = (st.create_entry_id moved).0;
    parent_id = target;
    timestamp = now;
    body = Body.branch_summary b.summary target b.details b.from_hook;
  }

  -- The state that the summary's entry leaves.
  abbrev pub summarised : BranchSummary → S
  summarised b = (st.append_entry (summary_entry b) (st.create_entry_id moved).1).1

  summary-Fits : IsFresh st moved → (b : BranchSummary) → Fits (st.core moved) (summary_entry b)
  unfolding leaf_id_after_entry
  summary-Fits free b = record {
    fresh = free;
    parent_known = λ p h. subst (λ x. IsKnown (st.core moved) x) h IsKnown-moved;
    target_known = λ t h. inl (ground arith);
  }

  core-summarised :
      (b : BranchSummary) → st.core (summarised b) ≡ add_entry (summary_entry b) (st.core moved)
  core-summarised b =
      laws.core-append_entry (summary_entry b) (st.create_entry_id moved).1
      ∙ ap (add_entry (summary_entry b)) (laws.core-create_entry_id moved)

  pub summarised-IsValid : IsFresh st moved → (b : BranchSummary) → IsValid (st.core (summarised b))
  summarised-IsValid free b =
      rw (core-summarised b) (add_entry-IsValid moved-IsValid (summary-Fits free b))

  leaf-summarised :
      (b : BranchSummary) → (st.core (summarised b)).leaf_id ≡ some (summary_entry b).id
  unfolding add_entry leaf_id_after_entry
  leaf-summarised b = ap (λ c. c.leaf_id) (core-summarised b)

  -- Over every storage that keeps the laws, in a well-formed session whose next id is new, and the
  -- one after the move too, for a context that is not cancelled, a target that is none or known
  -- and whose branch is `path`, and a storage that takes the move and the summary's entry:
  -- `MoveTo` with a summary returns the second id, the session is then well-formed, and the leaf's
  -- branch is `path` followed by the summary's entry.
  pub move_to-branch_summary :
      (b : BranchSummary)
      → IsFresh st moved
      → (st.set_leaf_id now target s).0 ≡ ok tt
      → (st.append_entry (summary_entry b) (st.create_entry_id moved).1).0 ≡ ok tt
      → (path : List SessionEntry) → get_path_to_root target (st.core s) ≡ ok path
      → (move_to st none now target (some b) s
          ≡ (ok (some (st.create_entry_id moved).0), summarised b))
        × IsValid (st.core (summarised b))
        × (get_branch st none (summarised b) ≡ ok (path ++ summary_entry b ∷ []))
  unfolding move_to
  move_to-branch_summary b free taken written path h = (
    ground (arith, check_target-IsKnown v target known),
    summarised-IsValid free b,
    get_branch_lem st (summarised b) (summarised-IsValid free b)
        ∙ ap (λ x. get_path_to_root x (st.core (summarised b))) (leaf-summarised b)
        ∙ ap (get_path_to_root (some (summary_entry b).id)) (core-summarised b)
        ∙ get_path_to_root-add_entry moved-IsValid (summary-Fits free b) path (path-moved ∙ h),
  )
