-- ===== src/Session/Tree/Grow.antt =====
-- Adding an entry: the core stays well formed, and every branch stays what it was.
use attention.Prelude.{
  ℕ, ◌≡◌, refl, subst, ◌∙◌, String, ◌==◌, eq_iff, eq_refl, false, List, [], ◌∷◌, Option, none, some,
  ◌⊎◌, inl, inr, arith, length, get_elem?-lt_length, get_elem?-append, get_elem?-append_length,
  Bool-cases,
}
use attention.Prelude.Dict.{get, get-put}
use attention.Session.Types.{SessionEntry}
use attention.Session.Core.{Core, add_entry, get_entry, leaf_id_after_entry}
use attention.Session.Tree.{IsValid, Holds, ParentBelow, IsBranch, get_entry_at, get_entry_index}

-- What an entry must satisfy to be added: its id is new, and its parent and its target are known.
pub record Fits (c : Core) (e : SessionEntry) : Type 0 where
  pub fresh : get c.by_id e.id ≡ none
  pub parent_known : (p : String) → e.parent_id ≡ some p → (j : ℕ) × (get c.by_id p ≡ some j)
  pub target_known :
      (t : String)
      → leaf_id_after_entry e ≡ some t
      → (t ≡ e.id) ⊎ ((j : ℕ) × (get c.by_id t ≡ some j))

module _ {c : Core} (v : IsValid c) {e : SessionEntry} (fits : Fits c e) where
  known-ne-id : (id : String) {i : ℕ} → get c.by_id id ≡ some i → (e.id == id) ≡ false
  known-ne-id id h = ground (arith, eq_iff e.id id, fits.fresh)

  -- A known id keeps its index.
  pub get-by_id-add_entry :
      (id : String) {i : ℕ} → get c.by_id id ≡ some i → get (add_entry e c).by_id id ≡ some i
  unfolding add_entry
  get-by_id-add_entry id h = get-put c.by_id e.id id (length c.entries) ∙ rw (known-ne-id id h) h

  pub get-by_id-add_entry_self : get (add_entry e c).by_id e.id ≡ some (length c.entries)
  unfolding add_entry
  get-by_id-add_entry_self = get-put c.by_id e.id e.id (length c.entries) ∙ rw (eq_refl e.id)

  ParentBelow-add_entry :
      (i : ℕ) (p : Option String) → ParentBelow c.by_id i p → ParentBelow (add_entry e c).by_id i p
  ParentBelow-add_entry i none b = b
  ParentBelow-add_entry i (some p) (j, known, lt) = (j, get-by_id-add_entry p known, lt)

  new-ParentBelow :
      (p : Option String) → e.parent_id ≡ p → ParentBelow (add_entry e c).by_id (length c.entries) p
  new-ParentBelow none h = tt
  new-ParentBelow (some p) h =
      let (j, known) = fits.parent_known p h in
      let (f, is, _, _) = v.indexed p j known in
      (j, get-by_id-add_entry p known, get_elem?-lt_length c.entries j is)

  new-Holds : Holds (add_entry e c) e.id (length c.entries)
  unfolding add_entry
  new-Holds = (e, get_elem?-append_length c.entries e, refl, new-ParentBelow e.parent_id refl)

  old-Holds : (id : String) (i : ℕ) → get c.by_id id ≡ some i → Holds (add_entry e c) id i
  unfolding add_entry
  old-Holds id i h =
      let (f, is, same, below) = v.indexed id i h in
      (f, get_elem?-append c.entries (e ∷ []) i is, same, ParentBelow-add_entry i f.parent_id below)

  indexed-add_entry :
      (id : String) (i : ℕ) → get (add_entry e c).by_id id ≡ some i → Holds (add_entry e c) id i
  unfolding add_entry
  indexed-add_entry id i h = elim (Bool-cases (e.id == id)) [
    | inl same ↦
        let last : length c.entries ≡ i =
          ground (arith, get-put c.by_id e.id id (length c.entries)) in
        subst (λ x. Holds (add_entry e c) x i) ((eq_iff e.id id).0 same)
          (subst (λ n. Holds (add_entry e c) e.id n) last new-Holds)
    | inr differs ↦
        let old : get c.by_id id ≡ some i =
          ground (arith, get-put c.by_id e.id id (length c.entries)) in
        old-Holds id i old
  ]

  leaf-add_entry :
      (id : String)
      → (add_entry e c).leaf_id ≡ some id
      → (i : ℕ) × (get (add_entry e c).by_id id ≡ some i)
  unfolding add_entry
  leaf-add_entry id h = elim (fits.target_known id h) [
    | inl self ↦ (length c.entries, rw self get-by_id-add_entry_self)
    | inr (j, known) ↦ (j, get-by_id-add_entry id known)
  ]

  pub add_entry-IsValid : IsValid (add_entry e c)
  add_entry-IsValid = record { indexed = indexed-add_entry; leaf_known = leaf-add_entry }

  pub get_entry-add_entry :
      (id : String) {f : SessionEntry}
      → get_entry id c ≡ some f
      → get_entry id (add_entry e c) ≡ some f
  unfolding add_entry
  get_entry-add_entry id h =
      let (i, at, is) = get_entry_index c id h in
      get_entry_at (add_entry e c) id (get-by_id-add_entry id at)
        (get_elem?-append c.entries (e ∷ []) i is)

  pub get_entry-add_entry_self : get_entry e.id (add_entry e c) ≡ some e
  unfolding add_entry
  get_entry-add_entry_self =
      get_entry_at (add_entry e c) e.id get-by_id-add_entry_self
        (get_elem?-append_length c.entries e)

  -- A branch of the old tree is a branch of the new one.
  pub IsBranch-add_entry :
      (id : Option String) (up : List SessionEntry)
      → IsBranch c id up
      → IsBranch (add_entry e c) id up
  IsBranch-add_entry id [] b = b
  IsBranch-add_entry id (f ∷ up) (i, at, is, b) =
      (i, at, get_entry-add_entry i is, IsBranch-add_entry f.parent_id up b)
