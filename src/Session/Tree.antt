-- ===== src/Session/Tree.antt =====
-- The session as a tree: a well-formed core, and the branch from an entry up to the root.
pub mod Grow
pub mod Path
use attention.Prelude.{
  ℕ, zero, suc, ◌<◌, ◌≡◌, refl, ◌∙◌, ap, String, List, [], ◌∷◌, ◌++◌, Option, none, some, arith,
  get_elem?, append_assoc, Option-cases, inl, inr,
}
use attention.Prelude.Dict.{get}
use attention.Session.Types.{SessionEntry, ok}
use attention.Session.Core.{Core, empty, walk, get_entry}

-- The parent of the entry at `i` stands at a lower index.
abbrev pub ParentBelow : List (String × ℕ) → ℕ → Option String → Type 0
ParentBelow m i none = Unit
ParentBelow m i (some p) = (j : ℕ) × (get m p ≡ some j) × (j < i)

-- `id` is the entry at `i`.
abbrev pub Holds : Core → String → ℕ → Type 0
Holds c id i =
    (e : SessionEntry) × (get_elem? c.entries i ≡ some e)
    × (e.id ≡ id)
    × ParentBelow c.by_id i e.parent_id

pub record IsValid (c : Core) : Type 0 where
  pub indexed : (id : String) (i : ℕ) → get c.by_id id ≡ some i → Holds c id i
  pub leaf_known : (id : String) → c.leaf_id ≡ some id → (i : ℕ) × (get c.by_id id ≡ some i)

-- `up` are the entries from `id` to the root: each is the parent of the one before it, and the
-- last has no parent.
abbrev pub IsBranch : Core → Option String → List SessionEntry → Type 0
IsBranch c id [] = id ≡ none
IsBranch c id (e ∷ up) =
    (i : String) × (id ≡ some i) × (get_entry i c ≡ some e) × IsBranch c e.parent_id up

pub empty-IsValid : IsValid empty
unfolding empty get
empty-IsValid = record { indexed = λ id i h. ground arith; leaf_known = λ id h. ground arith }

pub get_entry_at :
    (c : Core) (id : String) {i : ℕ} {e : SessionEntry}
    → get c.by_id id ≡ some i
    → get_elem? c.entries i ≡ some e
    → get_entry id c ≡ some e
unfolding get_entry
get_entry_at c id at is = ground arith

-- An entry that is found stands at the index of its id.
pub get_entry_index :
    (c : Core) (id : String) {e : SessionEntry}
    → get_entry id c ≡ some e
    → (i : ℕ) × (get c.by_id id ≡ some i) × (get_elem? c.entries i ≡ some e)
unfolding get_entry
get_entry_index c id h = elim (Option-cases (get c.by_id id)) [
  | inl missing ↦ absurd (ground arith)
  | inr (i, at) ↦ (i, at, ground arith)
]

module _ (c : Core) (fuel : ℕ) (id : String) {i : ℕ} {e : SessionEntry}
    (at : get c.by_id id ≡ some i) (is : get_elem? c.entries i ≡ some e) where
  walk-root :
      (acc : List SessionEntry) → e.parent_id ≡ none → walk (suc fuel) c id acc ≡ ok (acc ++ e ∷ [])
  unfolding walk
  walk-root acc h = ground arith

  walk-parent :
      (acc : List SessionEntry) {p : String} {j : ℕ}
      → e.parent_id ≡ some p
      → get c.by_id p ≡ some j
      → walk (suc fuel) c id acc ≡ walk fuel c p (acc ++ e ∷ [])
  unfolding walk
  walk-parent acc h known = ground arith

abbrev pub Walked : Core → ℕ → String → List SessionEntry → Type 0
Walked c fuel id acc =
    (up : List SessionEntry) × (walk fuel c id acc ≡ ok (acc ++ up)) × IsBranch c (some id) up

-- With more fuel than the entry's index, the walk ends at the root.
pub walk-IsBranch :
    (c : Core) (v : IsValid c) (fuel : ℕ) (id : String) (i : ℕ) (acc : List SessionEntry)
    → get c.by_id id ≡ some i
    → i < fuel
    → Walked c fuel id acc
walk-IsBranch c v zero id i acc at lt = elim lt [ ]
walk-IsBranch c v (suc fuel) id i acc at lt =
    let (e, is, _, below) = v.indexed id i at in
    step e is e.parent_id refl below (λ p j. walk-IsBranch c v fuel p j (acc ++ e ∷ []))
  where
    step :
        (e : SessionEntry)
        → get_elem? c.entries i ≡ some e
        → (p : Option String) → e.parent_id ≡ p
        → ParentBelow c.by_id i p
        → ((p : String) (j : ℕ)
            → get c.by_id p ≡ some j
            → j < fuel
            → Walked c fuel p (acc ++ e ∷ []))
        → Walked c (suc fuel) id acc
    step e is none h below rec =
        (e ∷ [], walk-root c fuel id at is acc h, (id, refl, get_entry_at c id at is, h))
    step e is (some p) h (j, known, lt') rec =
        let (up, run, branch) = rec p j known (omega arith) in
        (
          e ∷ up,
          walk-parent c fuel id at is acc h known ∙ run ∙ ap ok (append_assoc acc (e ∷ []) up),
          (id, refl, get_entry_at c id at is, subst_branch up branch h),
        )
      where
        subst_branch :
            (up : List SessionEntry)
            → IsBranch c (some p) up
            → e.parent_id ≡ some p
            → IsBranch c e.parent_id up
        subst_branch up b h = rw h b
