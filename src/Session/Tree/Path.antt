-- ===== src/Session/Tree/Path.antt =====
-- `GetPathToRoot` computes the branch, and an added entry prolongs the branch of its parent.
use mathlib.Core.List.{reverse-cons}
use attention.Prelude.{
  ℕ, suc, ◌<◌, ◌≡◌, refl, sym, ◌∙◌, ap, String, List, [], ◌∷◌, ◌++◌, Option, none, some, arith,
  length, get_elem?-lt_length, reverse,
}
use attention.Prelude.Dict.{get}
use attention.Session.Types.{SessionEntry, ok}
use attention.Session.Core.{Core, add_entry, walk, get_path_to_root}
use attention.Session.Tree.{IsValid, IsBranch, walk-IsBranch}
use attention.Session.Tree.Grow.{
  Fits, get_entry-add_entry_self, IsBranch-add_entry, add_entry-IsValid, get-by_id-add_entry,
  get-by_id-add_entry_self,
}

-- No leaf, or an entry that the index holds.
abbrev pub IsKnown : Core → Option String → Type 0
IsKnown c none = Unit
IsKnown c (some id) = (i : ℕ) × (get c.by_id id ≡ some i)

-- In a well-formed session the path from no entry, or from any known entry, is computed: the walk
-- ends within its fuel without an error, and gives, from the root on, the entries that lead from
-- the entry up to the root by their parents.
pub get_path_to_root-IsBranch :
    {c : Core}
    → IsValid c
    → (id : Option String) → IsKnown c id
    → (up : List SessionEntry) × (get_path_to_root id c ≡ ok (reverse up)) × IsBranch c id up
unfolding get_path_to_root
get_path_to_root-IsBranch v none k = ([], refl, refl)
get_path_to_root-IsBranch {c} v (some id) (i, at) =
    let (e, is, _, _) = v.indexed id i at in
    let lt : i < length c.entries = get_elem?-lt_length c.entries i is in
    let (up, run, branch) = walk-IsBranch c v (suc (length c.entries)) id i [] at (omega arith) in
    (up, rw run, branch)

IsBranch-unique :
    (c : Core) (id jd : Option String) (up vp : List SessionEntry)
    → id ≡ jd
    → IsBranch c id up
    → IsBranch c jd vp
    → up ≡ vp
IsBranch-unique c id jd [] [] same b d = refl
IsBranch-unique c id jd [] (f ∷ vp) same b (j, at, _, _) = absurd (cc)
IsBranch-unique c id jd (e ∷ up) [] same (i, at, _, _) d = absurd (cc)
IsBranch-unique c id jd (e ∷ up) (f ∷ vp) same (i, at, is, b) (j, at', is', d) =
    let i≡j : i ≡ j = ground arith in
    let e≡f : e ≡ f = ground (arith, ap (λ k. attention.Session.Core.get_entry k c) i≡j) in
    let rest = IsBranch-unique c e.parent_id f.parent_id up vp (ap (λ x. x.parent_id) e≡f) b d in cc

pub get_path_to_root_lem :
    {c : Core}
    → IsValid c
    → (id : Option String) (up : List SessionEntry) → IsKnown c id
    → IsBranch c id up
    → get_path_to_root id c ≡ ok (reverse up)
get_path_to_root_lem {c} v id up k b =
    let (vp, run, d) = get_path_to_root-IsBranch v id k in
    run ∙ ap (λ x. ok (reverse x)) (IsBranch-unique c id id vp up refl d b)

module _ {c : Core} (v : IsValid c) {e : SessionEntry} (fits : Fits c e) where
  parent-IsKnown : (p : Option String) → e.parent_id ≡ p → IsKnown c p
  parent-IsKnown none h = tt
  parent-IsKnown (some p) h = fits.parent_known p h

  pub IsKnown-add_entry : (id : Option String) → IsKnown c id → IsKnown (add_entry e c) id
  IsKnown-add_entry none k = tt
  IsKnown-add_entry (some id) (i, at) = (i, get-by_id-add_entry v fits id at)

  -- The path to the new entry is the path to its parent and then the entry.
  pub get_path_to_root-add_entry :
      (path : List SessionEntry)
      → get_path_to_root e.parent_id c ≡ ok path
      → get_path_to_root (some e.id) (add_entry e c) ≡ ok (path ++ e ∷ [])
  get_path_to_root-add_entry path h =
      let (up, run, b) =
        get_path_to_root-IsBranch v e.parent_id (parent-IsKnown e.parent_id refl) in
      let grown : IsBranch (add_entry e c) (some e.id) (e ∷ up) =
        (e.id, refl, get_entry-add_entry_self v fits, IsBranch-add_entry v fits e.parent_id up b) in
      let same : reverse up ≡ path = cc in
      get_path_to_root_lem (add_entry-IsValid v fits) (some e.id) (e ∷ up)
        (length c.entries, get-by_id-add_entry_self v fits) grown
      ∙ ap ok (reverse-cons e up ∙ ap (λ x. x ++ e ∷ []) same)

  -- The paths that there were stay as they were.
  pub get_path_to_root-add_entry_known :
      (id : Option String)
      → IsKnown c id
      → get_path_to_root id (add_entry e c) ≡ get_path_to_root id c
  get_path_to_root-add_entry_known id k =
      let (up, run, b) = get_path_to_root-IsBranch v id k in
      get_path_to_root_lem (add_entry-IsValid v fits) id up (IsKnown-add_entry id k)
        (IsBranch-add_entry v fits id up b)
      ∙ sym run
