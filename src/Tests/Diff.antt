-- ===== src/Tests/Diff.antt =====
-- The theorems on differences of lines at a line that is replaced.
use attention.Prelude.{◌≡◌, refl, ◌≤◌, String, true, List, [], ◌∷◌, length, All, inl, inr}
use attention.Tool.Diff.{
  DiffKind, DiffItem, item, line_diff_items, diff_loop, lcs_lengths, lcs_row, zeros, row_below,
  entry_at, is_change, diff_groups, hunk_ranges,
}
use attention.Tool.Diff.Lines.{old_side, new_side, numbered, line_diff_items-sides}
use attention.Tool.Diff.Lcs.{kept}
use attention.Tool.Diff.Best.{length-le_kept}
use attention.Tool.Diff.Groups.{flatten, IsOneSort, HasItem, Alternates, diff_groups-IsOneSort}
use attention.Tool.Diff.Hunks.{Covers, hunk_ranges-Covers}

abbrev before : List String
before = "package main" ∷ "var x = 1" ∷ "func main() {}" ∷ []

abbrev behind : List String
behind = "package main" ∷ "var x = 2" ∷ "func main() {}" ∷ []

abbrev common : List String
common = "package main" ∷ "func main() {}" ∷ []

abbrev items : List DiffItem
items =
    item DiffKind.equal "package main" 0 0
    ∷ item DiffKind.removed "var x = 1" 1 1
    ∷ item DiffKind.added "var x = 2" 2 1
    ∷ item DiffKind.equal "func main() {}" 2 2
    ∷ []

items-computed : line_diff_items before behind ≡ items
unfolding line_diff_items diff_loop lcs_lengths lcs_row zeros row_below entry_at
items-computed = refl

line_diff_items-sides_example :
    (old_side (line_diff_items before behind) ≡ numbered 0 before)
    × (new_side (line_diff_items before behind) ≡ numbered 0 behind)
line_diff_items-sides_example = line_diff_items-sides before behind

length-le_kept_example : length common ≤ kept (line_diff_items before behind)
length-le_kept_example =
    length-le_kept before behind common (inl (refl, inr (inl (refl, tt))))
      (inl (refl, inr (inl (refl, tt))))

diff_groups-IsOneSort_example :
    (flatten (diff_groups items) ≡ items)
    × All IsOneSort (diff_groups items)
    × All HasItem (diff_groups items)
    × Alternates (diff_groups items)
diff_groups-IsOneSort_example = diff_groups-IsOneSort items

is_change-removed : is_change DiffKind.removed ≡ true
unfolding is_change
is_change-removed = refl

hunk_ranges-Covers_example : Covers (hunk_ranges items 0) 1
hunk_ranges-Covers_example =
    hunk_ranges-Covers items 0 1 (item DiffKind.removed "var x = 1" 1 1) refl is_change-removed
