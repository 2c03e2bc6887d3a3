-- ===== src/Tool/Diff/Groups.antt =====
-- The groups of a difference are its items, in runs of changes and of lines that were kept.
use attention.Prelude.{
  ◌≡◌, refl, sym, ap, ◌∙◌, Bool, true, false, List, [], ◌∷◌, ◌++◌, append_assoc, append-nil, All,
  Bool-cases, inl, inr,
}
use attention.Tool.Diff.{
  agree, DiffItem, DiffGroup, is_change, add_to_groups, groups_loop, diff_groups,
}

abbrev pub flatten : List DiffGroup → List DiffItem
flatten [] = []
flatten (g ∷ gs) = g.items ++ flatten gs

-- The items of a group are of its sort.
abbrev pub IsOneSort : DiffGroup → Type 0
IsOneSort g = All (λ x. is_change x.kind ≡ g.change) g.items

-- A group and the one behind it differ in their sort, so that no run is cut.
abbrev pub Alternates : List DiffGroup → Type 0
Alternates [] = Unit
Alternates (g ∷ []) = Unit
Alternates (g ∷ h ∷ gs) = (agree g.change h.change ≡ false) × Alternates (h ∷ gs)

abbrev pub HasItem : DiffGroup → Type 0
HasItem g = (x : DiffItem) × (xs : List DiffItem) × (g.items ≡ x ∷ xs)

All-append :
    (P : DiffItem → Type 0) (xs : List DiffItem) (x : DiffItem)
    → All P xs
    → P x
    → All P (xs ++ x ∷ [])
All-append P [] x a p = (p, tt)
All-append P (y ∷ ys) x (q, a) p = (q, All-append P ys x a p)

agree-eq : (a b : Bool) → agree a b ≡ true → b ≡ a
unfolding agree
agree-eq true b h = h
agree-eq false true h = cc
agree-eq false false h = refl

IsOneSort-append :
    (g : DiffGroup) (x : DiffItem)
    → IsOneSort g
    → agree g.change (is_change x.kind) ≡ true
    → IsOneSort (record g { items = g.items ++ x ∷ [] })
IsOneSort-append g x a h =
    All-append (λ y. is_change y.kind ≡ g.change) g.items x a
      (agree-eq g.change (is_change x.kind) h)

flatten-add_to_groups :
    (gs : List DiffGroup) (x : DiffItem) → flatten (add_to_groups gs x) ≡ flatten gs ++ x ∷ []
unfolding add_to_groups
flatten-add_to_groups [] x = refl
flatten-add_to_groups (g ∷ []) x = elim (Bool-cases (agree g.change (is_change x.kind))) [
  | inl e ↦
      rw e (append-nil (g.items ++ x ∷ []) ∙ ap (λ xs. xs ++ x ∷ []) (sym (append-nil g.items)))
  | inr e ↦ rw e (ap (λ xs. xs ++ x ∷ []) (sym (append-nil g.items)))
]
flatten-add_to_groups (g ∷ h ∷ gs) x =
    ap (λ xs. g.items ++ xs) (flatten-add_to_groups (h ∷ gs) x)
    ∙ sym (append_assoc g.items (flatten (h ∷ gs)) (x ∷ []))

add_to_groups-IsOneSort :
    (gs : List DiffGroup) (x : DiffItem) → All IsOneSort gs → All IsOneSort (add_to_groups gs x)
unfolding add_to_groups
add_to_groups-IsOneSort [] x a = ((refl, tt), tt)
add_to_groups-IsOneSort (g ∷ []) x (p, _) = elim (Bool-cases (agree g.change (is_change x.kind))) [
  | inl e ↦ rw e (IsOneSort-append g x p e, tt)
  | inr e ↦ rw e (p, ((refl, tt), tt))
]
add_to_groups-IsOneSort (g ∷ h ∷ gs) x (p, a) = (p, add_to_groups-IsOneSort (h ∷ gs) x a)

groups_loop-IsOneSort :
    (gs : List DiffGroup) (xs : List DiffItem)
    → All IsOneSort gs
    → (flatten (groups_loop gs xs) ≡ flatten gs ++ xs) × All IsOneSort (groups_loop gs xs)
unfolding groups_loop
groups_loop-IsOneSort gs [] a = (sym (append-nil (flatten gs)), a)
groups_loop-IsOneSort gs (x ∷ xs) a =
    let (f, b) = groups_loop-IsOneSort (add_to_groups gs x) xs (add_to_groups-IsOneSort gs x a) in
    (
      f
          ∙ (ap (λ ys. ys ++ xs) (flatten-add_to_groups gs x)
              ∙ append_assoc (flatten gs) (x ∷ []) xs),
      b,
    )

-- The first group keeps its sort.
abbrev HeadIs : Bool → List DiffGroup → Type 0
HeadIs b [] = ⊥
HeadIs b (g ∷ gs) = g.change ≡ b

HeadIs-add_to_groups :
    (g : DiffGroup) (gs : List DiffGroup) (x : DiffItem)
    → HeadIs g.change (add_to_groups (g ∷ gs) x)
unfolding add_to_groups
HeadIs-add_to_groups g [] x = elim (Bool-cases (agree g.change (is_change x.kind))) [
  | inl e ↦ rw e refl
  | inr e ↦ rw e refl
]
HeadIs-add_to_groups g (h ∷ gs) x = refl

Alternates-cons :
    (g : DiffGroup) (b : Bool) (gs : List DiffGroup)
    → agree g.change b ≡ false
    → HeadIs b gs
    → Alternates gs
    → Alternates (g ∷ gs)
Alternates-cons g b [] e h a = tt
Alternates-cons g b (k ∷ gs) e h a = (ap (agree g.change) h ∙ e, a)

add_to_groups-Alternates :
    (gs : List DiffGroup) (x : DiffItem) → Alternates gs → Alternates (add_to_groups gs x)
unfolding add_to_groups
add_to_groups-Alternates [] x a = tt
add_to_groups-Alternates (g ∷ []) x a = elim (Bool-cases (agree g.change (is_change x.kind))) [
  | inl e ↦ rw e tt
  | inr e ↦ rw e (e, tt)
]
add_to_groups-Alternates (g ∷ h ∷ gs) x (e, a) =
    Alternates-cons g h.change (add_to_groups (h ∷ gs) x) e (HeadIs-add_to_groups h gs x)
      (add_to_groups-Alternates (h ∷ gs) x a)

HasItem-append :
    (b : Bool) (xs : List DiffItem) (x : DiffItem)
    → HasItem (record { change = b; items = xs ++ x ∷ [] })
HasItem-append b [] x = (x, [], refl)
HasItem-append b (y ∷ xs) x = (y, xs ++ x ∷ [], refl)

add_to_groups-HasItem :
    (gs : List DiffGroup) (x : DiffItem) → All HasItem gs → All HasItem (add_to_groups gs x)
unfolding add_to_groups
add_to_groups-HasItem [] x a = ((x, [], refl), tt)
add_to_groups-HasItem (g ∷ []) x (p, _) = elim (Bool-cases (agree g.change (is_change x.kind))) [
  | inl e ↦ rw e (HasItem-append g.change g.items x, tt)
  | inr e ↦ rw e (p, ((x, [], refl), tt))
]
add_to_groups-HasItem (g ∷ h ∷ gs) x (p, a) = (p, add_to_groups-HasItem (h ∷ gs) x a)

groups_loop-Alternates :
    (gs : List DiffGroup) (xs : List DiffItem)
    → Alternates gs
    → All HasItem gs
    → Alternates (groups_loop gs xs) × All HasItem (groups_loop gs xs)
unfolding groups_loop
groups_loop-Alternates gs [] a i = (a, i)
groups_loop-Alternates gs (x ∷ xs) a i =
    groups_loop-Alternates (add_to_groups gs x) xs (add_to_groups-Alternates gs x a)
      (add_to_groups-HasItem gs x i)

-- The groups of a difference have its items, all of them and in their order; the items of a group are
-- all changes or all lines that were kept, as the group says; no group is empty, and two groups in a
-- row are never of the same sort, so that each group is a whole run.
pub diff_groups-IsOneSort :
    (items : List DiffItem)
    → (flatten (diff_groups items) ≡ items)
      × All IsOneSort (diff_groups items)
      × All HasItem (diff_groups items)
      × Alternates (diff_groups items)
unfolding diff_groups
diff_groups-IsOneSort items =
    let (same, sorts) = groups_loop-IsOneSort [] items tt in
    let (alternate, filled) = groups_loop-Alternates [] items tt tt in
    (same, sorts, filled, alternate)
