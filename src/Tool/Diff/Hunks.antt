-- ===== src/Tool/Diff/Hunks.antt =====
-- The hunks of a patch: every change is in one.
use attention.Prelude.{
  ◌≡◌, sym, ◌∙◌, subst, ℕ, zero, suc, ◌+◌, ◌-◌, ◌≤◌, ◌<◌, min, true, List, [], ◌∷◌, ◌++◌, some,
  length, length-append, get_elem?, get_elem?-lt_length, All, some-injective, leb, arith,
  Bool-cases, ◌⊎◌, inl, inr, if◌then◌else◌,
}
use attention.Tool.Diff.{
  DiffItem, DiffGroup, DiffRange, is_change, diff_groups, add_range, ranges_loop, hunk_ranges,
}
use attention.Tool.Diff.Groups.{flatten, IsOneSort, diff_groups-IsOneSort}

-- A position is in one of the ranges.
abbrev pub Covers : List DiffRange → ℕ → Type 0
Covers [] k = ⊥
Covers (r ∷ rs) k = ((r.start ≤ k) × (k < r.end)) ⊎ Covers rs k

-- The ranges start at the bound or before it.
abbrev StartBy : ℕ → List DiffRange → Type 0
StartBy n rs = All (λ r. r.start ≤ n) rs

StartBy-le : (m n : ℕ) (rs : List DiffRange) → m ≤ n → StartBy m rs → StartBy n rs
StartBy-le m n [] h a = tt
StartBy-le m n (r ∷ rs) h (p, a) = (omega (h, p, arith), StartBy-le m n rs h a)

StartBy-add_range :
    (rs : List DiffRange) (next : DiffRange)
    → StartBy next.start rs
    → StartBy next.start (add_range rs next)
unfolding add_range
StartBy-add_range [] next a = (omega arith, tt)
StartBy-add_range (r ∷ []) next (p, a) = elim (Bool-cases (leb next.start r.end)) [
  | inl e ↦ rw e (p, tt)
  | inr e ↦ rw e (p, (omega arith, tt))
]
StartBy-add_range (r ∷ s ∷ rs) next (p, a) = (p, StartBy-add_range (s ∷ rs) next a)

-- What was in a range stays in one.
Covers-add_range :
    (rs : List DiffRange) (next : DiffRange) (k : ℕ) → Covers rs k → Covers (add_range rs next) k
unfolding add_range
Covers-add_range [] next k c = absurd c
Covers-add_range (r ∷ []) next k (inl (a, b)) = elim (Bool-cases (leb next.start r.end)) [
  | inl e ↦ rw e (inl (a, omega (b, arith)))
  | inr e ↦ rw e (inl (a, b))
]
Covers-add_range (r ∷ []) next k (inr c) = absurd c
Covers-add_range (r ∷ s ∷ rs) next k (inl p) = inl p
Covers-add_range (r ∷ s ∷ rs) next k (inr c) = inr (Covers-add_range (s ∷ rs) next k c)

-- So is what is in the next range.
add_range-Covers :
    (rs : List DiffRange) (next : DiffRange) (k : ℕ)
    → StartBy next.start rs
    → next.start ≤ k
    → k < next.end
    → Covers (add_range rs next) k
unfolding add_range
add_range-Covers [] next k a p q = inl (p, q)
add_range-Covers (r ∷ []) next k (h, a) p q = elim (Bool-cases (leb next.start r.end)) [
  | inl e ↦ rw e (inl (omega (h, p, arith), omega (q, arith)))
  | inr e ↦ rw e (inr (inl (p, q)))
]
add_range-Covers (r ∷ s ∷ rs) next k (h, a) p q = inr (add_range-Covers (s ∷ rs) next k a p q)

get_elem?-split :
    (xs ys : List DiffItem) (k : ℕ) {x : DiffItem}
    → get_elem? (xs ++ ys) k ≡ some x
    → (get_elem? xs k ≡ some x) ⊎ ((j : ℕ) × (k ≡ length xs + j) × (get_elem? ys j ≡ some x))
get_elem?-split [] ys k h = inr (k, omega arith, h)
get_elem?-split (y ∷ xs) ys zero h = inl h
get_elem?-split (y ∷ xs) ys (suc k) h = elim (get_elem?-split xs ys k h) [
  | inl p ↦ inl p
  | inr (j, e, p) ↦ inr (j, omega (e, arith), p)
]

All-get_elem? :
    (P : DiffItem → Type 0) (xs : List DiffItem) (k : ℕ) {x : DiffItem}
    → All P xs
    → get_elem? xs k ≡ some x
    → P x
All-get_elem? P [] k a h = cc
All-get_elem? P (y ∷ xs) zero {x = x} (p, a) h = subst P (some-injective y x h) p
All-get_elem? P (y ∷ xs) (suc k) (p, a) h = All-get_elem? P xs k a h

module _ (c count : ℕ) where
  abbrev next_range : ℕ → DiffGroup → DiffRange
  next_range offset g = record {
    start = offset - c;
    end = min count ((offset + length g.items) + c);
  }

  ranges_loop-keeps :
      (gs : List DiffGroup) (offset : ℕ) (rs : List DiffRange) (k : ℕ)
      → Covers rs k
      → Covers (ranges_loop c count offset rs gs) k
  unfolding ranges_loop
  ranges_loop-keeps [] offset rs k h = h
  ranges_loop-keeps (g ∷ gs) offset rs k h = elim (Bool-cases g.change) [
    | inl e ↦ rw e (
        ranges_loop-keeps gs (offset + length g.items) (add_range rs (next_range offset g)) k
          (Covers-add_range rs (next_range offset g) k h))
    | inr e ↦ rw e (ranges_loop-keeps gs (offset + length g.items) rs k h)
  ]

  -- The ranges behind a group.
  abbrev ranges_behind : ℕ → List DiffRange → DiffGroup → List DiffRange
  ranges_behind offset rs g = if g.change then add_range rs (next_range offset g) else rs

  StartBy-behind :
      (offset : ℕ) (rs : List DiffRange) (g : DiffGroup)
      → StartBy (offset - c) rs
      → StartBy ((offset + length g.items) - c) (ranges_behind offset rs g)
  StartBy-behind offset rs g a = elim (Bool-cases g.change) [
    | inl e ↦ rw e (
        StartBy-le (offset - c) _ (add_range rs (next_range offset g)) (omega arith)
          (StartBy-add_range rs (next_range offset g) a))
    | inr e ↦ rw e (StartBy-le (offset - c) _ rs (omega arith) a)
  ]

  ranges_loop-Covers :
      (gs : List DiffGroup) (offset : ℕ) (rs : List DiffRange) (k : ℕ) (x : DiffItem)
      → StartBy (offset - c) rs
      → All IsOneSort gs
      → get_elem? (flatten gs) k ≡ some x
      → is_change x.kind ≡ true
      → offset + length (flatten gs) ≤ count
      → Covers (ranges_loop c count offset rs gs) (offset + k)
  unfolding ranges_loop
  ranges_loop-Covers [] offset rs k x a o h y l = cc
  ranges_loop-Covers (g ∷ gs) offset rs k x a (p, o) h y l =
      let total = length-append g.items (flatten gs) in
      elim (get_elem?-split g.items (flatten gs) k h) [
        | inl q ↦
            let e : g.change ≡ true =
              sym (All-get_elem? (λ z. is_change z.kind ≡ g.change) g.items k p q) ∙ y in
            let small = get_elem?-lt_length g.items k q in
            rw e (
              ranges_loop-keeps gs (offset + length g.items) (add_range rs (next_range offset g))
                (offset + k)
                (add_range-Covers rs (next_range offset g) (offset + k) a (omega arith)
                  (omega (small, total, l, arith))))
        | inr (j, e, q) ↦
            subst (λ n. Covers (ranges_loop c count offset rs (g ∷ gs)) n) (omega (e, arith))
              (ranges_loop-Covers gs (offset + length g.items) (ranges_behind offset rs g) j x
                (StartBy-behind offset rs g a) o q y (omega (total, l, arith)))
      ]

-- Every item of a difference that is a change is in the range of a hunk, whatever the number of lines
-- of context.
pub hunk_ranges-Covers :
    (items : List DiffItem) (context_lines : ℕ) (k : ℕ) (x : DiffItem)
    → get_elem? items k ≡ some x
    → is_change x.kind ≡ true
    → Covers (hunk_ranges items context_lines) k
unfolding hunk_ranges
hunk_ranges-Covers items c k x h y =
    let (f, o, _, _) = diff_groups-IsOneSort items in
    subst (λ n. Covers (ranges_loop c (length items) 0 [] (diff_groups items)) n) (omega arith)
      (ranges_loop-Covers c (length items) (diff_groups items) 0 [] k x tt o
        (subst (λ xs. get_elem? xs k ≡ some x) (sym f) h) y
        (subst (λ xs. 0 + length xs ≤ length items) (sym f) (omega arith)))
