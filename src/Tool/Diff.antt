-- ===== src/Tool/Diff.antt =====
-- internal/tool/builtin/editdiff.go: the difference of two texts by lines, its groups, and the hunks
-- of a unified patch. The matching of edits, and the texts of the diff and of the patch, are left out.
pub mod Lcs
pub mod Best
pub mod Lines
pub mod Groups
pub mod Hunks
use attention.Prelude.{
  ℕ, zero, suc, ◌+◌, ◌-◌, max, min, String, Bool, true, false, not, List, [], ◌∷◌, ◌++◌, Option,
  none, some, length, drop, take, get_elem?, leb, ltb, eqb, ◌==◌, if◌then◌else◌,
}
use attention.Tool.Truncate.{split_newlines}

-- `diffKind`.
pub data DiffKind : Type 0 where
  equal removed added : DiffKind

pub record DiffItem : Type 0 where
  pub kind : DiffKind
  pub text : String
  pub old_line : ℕ
  pub new_line : ℕ

pub record DiffGroup : Type 0 where
  pub change : Bool
  pub items : List DiffItem

pub record DiffRange : Type 0 where
  pub start : ℕ
  pub end : ℕ

drop_empty_last : List String → List String
drop_empty_last [] = []
drop_empty_last (x ∷ []) = if x == "" then [] else x ∷ []
drop_empty_last (x ∷ y ∷ xs) = x ∷ drop_empty_last (y ∷ xs)

unfoldable pub comparable_lines : String → List String
unfolding drop_empty_last split_newlines
comparable_lines s = if s == "" then [] else drop_empty_last (split_newlines s)

-- The head of a row of the table.
abbrev pub first : List ℕ → ℕ
first [] = 0
first (n ∷ ns) = n

-- A row of `lcs`, for the old line `x`, from the row below it: `news` are the new lines from the
-- column on, and the last column is 0.
unfoldable pub lcs_row : (x : String) → (news : List String) → (below : List ℕ) → List ℕ
lcs_row x [] below = 0 ∷ []
lcs_row x (y ∷ ys) [] = 0 ∷ []
lcs_row x (y ∷ ys) (b ∷ bs) =
    let rest = lcs_row x ys bs in (if x == y then suc (first bs) else max b (first rest)) ∷ rest

-- The last row.
unfoldable pub zeros : List String → List ℕ
zeros [] = 0 ∷ []
zeros (y ∷ ys) = 0 ∷ zeros ys

unfoldable pub row_below : List (List ℕ) → List ℕ
row_below [] = []
row_below (r ∷ rs) = r

-- `lcsLengths`: the rows from the last one up.
unfoldable pub lcs_lengths : (old_lines new_lines : List String) → List (List ℕ)
unfolding lcs_row zeros row_below
lcs_lengths [] news = zeros news ∷ []
lcs_lengths (x ∷ xs) news = let rest = lcs_lengths xs news in lcs_row x news (row_below rest) ∷ rest

-- `lcs[i][j]`.
unfoldable pub entry_at : List (List ℕ) → (i j : ℕ) → ℕ
entry_at table i j = elim (get_elem? table i) [
  | none ↦ 0
  | some row ↦ elim (get_elem? row j) [ none ↦ 0 | some n ↦ n ]
]

abbrev pub item : DiffKind → String → (i j : ℕ) → DiffItem
item kind text i j = record { kind = kind; text = text; old_line = suc i; new_line = suc j }

-- The loop of `lineDiffItems`: `olds` and `news` are the lines from `i` and `j` on, and the line
-- numbers are `i + 1` and `j + 1`. One unit of fuel for each round.
unfoldable pub diff_loop :
    List (List ℕ) → (fuel i j : ℕ) → (olds news : List String) → List DiffItem
unfolding entry_at
diff_loop lcs zero i j olds news = []
diff_loop lcs (suc fuel) i j [] [] = []
diff_loop lcs (suc fuel) i j (o ∷ os) [] =
    item DiffKind.removed o i j ∷ diff_loop lcs fuel (suc i) j os []
diff_loop lcs (suc fuel) i j [] (w ∷ ws) =
    item DiffKind.added w i j ∷ diff_loop lcs fuel i (suc j) [] ws
diff_loop lcs (suc fuel) i j (o ∷ os) (w ∷ ws) = elim (o == w) [
  | true ↦ item DiffKind.equal o i j ∷ diff_loop lcs fuel (suc i) (suc j) os ws
  | false ↦ elim (leb (entry_at lcs i (suc j)) (entry_at lcs (suc i) j)) [
    | true ↦ item DiffKind.removed o i j ∷ diff_loop lcs fuel (suc i) j os (w ∷ ws)
    | false ↦ item DiffKind.added w i j ∷ diff_loop lcs fuel i (suc j) (o ∷ os) ws
  ]
]

-- Every round takes a line.
unfoldable pub line_diff_items : (old_lines new_lines : List String) → List DiffItem
unfolding diff_loop lcs_lengths
line_diff_items olds news =
    diff_loop (lcs_lengths olds news) (length olds + length news) 0 0 olds news

unfoldable pub is_change : DiffKind → Bool
is_change DiffKind.equal = false
is_change _ = true

unfoldable pub agree : Bool → Bool → Bool
agree true b = b
agree false b = not b

-- The last group gets the item, if it is of its sort; else a group is begun.
unfoldable pub add_to_groups : List DiffGroup → DiffItem → List DiffGroup
unfolding is_change agree
add_to_groups [] x = record { change = is_change x.kind; items = x ∷ [] } ∷ []
add_to_groups (g ∷ []) x =
    if agree g.change (is_change x.kind)
    then record g { items = g.items ++ x ∷ [] } ∷ []
    else g ∷ record { change = is_change x.kind; items = x ∷ [] } ∷ []
add_to_groups (g ∷ h ∷ gs) x = g ∷ add_to_groups (h ∷ gs) x

unfoldable pub groups_loop : List DiffGroup → List DiffItem → List DiffGroup
unfolding add_to_groups
groups_loop groups [] = groups
groups_loop groups (x ∷ xs) = groups_loop (add_to_groups groups x) xs

unfoldable pub diff_groups : List DiffItem → List DiffGroup
unfolding groups_loop
diff_groups = groups_loop []

-- The last range grows where the next one touches it.
unfoldable pub add_range : List DiffRange → DiffRange → List DiffRange
add_range [] next = next ∷ []
add_range (r ∷ []) next =
    if leb next.start r.end then record r { end = max r.end next.end } ∷ [] else r ∷ next ∷ []
add_range (r ∷ s ∷ rs) next = r ∷ add_range (s ∷ rs) next

unfoldable pub ranges_loop :
    (context_lines count offset : ℕ) → List DiffRange → List DiffGroup → List DiffRange
unfolding add_range
ranges_loop c count offset ranges [] = ranges
ranges_loop c count offset ranges (g ∷ gs) =
    let group_end = offset + length g.items in
    let next : DiffRange = record { start = offset - c; end = min count (group_end + c) } in
    ranges_loop c count group_end (if g.change then add_range ranges next else ranges) gs

unfoldable pub hunk_ranges : List DiffItem → (context_lines : ℕ) → List DiffRange
unfolding ranges_loop diff_groups
hunk_ranges items c = ranges_loop c (length items) 0 [] (diff_groups items)

unfoldable pub slices : List DiffItem → List DiffRange → List (List DiffItem)
slices items [] = []
slices items (r ∷ rs) = take (r.end - r.start) (drop r.start items) ∷ slices items rs

unfoldable pub unified_patch_hunks : List DiffItem → (context_lines : ℕ) → List (List DiffItem)
unfolding hunk_ranges slices
unified_patch_hunks items c = slices items (hunk_ranges items c)
