-- ===== src/Tool/Diff/Lcs.antt =====
-- The entries of the table of `lcsLengths`, and common subsequences.
use attention.Prelude.{
  ◌≡◌, refl, sym, ap, subst, ℕ, zero, suc, max, String, List, [], ◌∷◌, none, some, drop, get_elem?,
  ◌==◌, ◌⊎◌, if◌then◌else◌,
}
use attention.Tool.Diff.{
  DiffKind, DiffItem, first, lcs_row, zeros, row_below, lcs_lengths, entry_at,
}

-- `zs` is left of `xs` where some of its lines are taken out.
abbrev pub Sub : List String → List String → Type 0
Sub [] xs = Unit
Sub (z ∷ zs) [] = ⊥
Sub (z ∷ zs) (x ∷ xs) = ((z ≡ x) × Sub zs xs) ⊎ Sub (z ∷ zs) xs

-- How many lines a difference keeps.
abbrev pub kept : List DiffItem → ℕ
kept [] = 0
kept (x ∷ xs) = elim x.kind [ DiffKind.equal ↦ suc (kept xs) | _ ↦ kept xs ]

-- The row of the table for the old lines `xs`, and its entry in the column of `ys`.
abbrev pub row : List String → List String → List ℕ
row [] ys = zeros ys
row (x ∷ xs) ys = lcs_row x ys (row xs ys)

abbrev pub best : List String → List String → ℕ
best xs ys = first (row xs ys)

row_below-lcs_lengths : (xs ys : List String) → row_below (lcs_lengths xs ys) ≡ row xs ys
unfolding row_below lcs_lengths
row_below-lcs_lengths [] ys = refl
row_below-lcs_lengths (x ∷ xs) ys = ap (lcs_row x ys) (row_below-lcs_lengths xs ys)

-- The row in the next column.
row-cons :
    (xs : List String) (y : String) (ys : List String)
    → row xs (y ∷ ys) ≡ best xs (y ∷ ys) ∷ row xs ys
unfolding lcs_row zeros
row-cons [] y ys = refl
row-cons (x ∷ xs) y ys =
    subst (λ r. lcs_row x (y ∷ ys) r ≡ first (lcs_row x (y ∷ ys) r) ∷ lcs_row x ys (row xs ys))
      (sym (row-cons xs y ys)) refl

pub best-nil : (xs : List String) → best xs [] ≡ 0
unfolding lcs_row zeros
best-nil [] = refl
best-nil (x ∷ xs) = refl

row-nil : (xs : List String) → row xs [] ≡ 0 ∷ []
unfolding lcs_row zeros
row-nil [] = refl
row-nil (x ∷ xs) = refl

-- The recursion of the table.
pub best-step :
    (x : String) (xs : List String) (y : String) (ys : List String)
    → best (x ∷ xs) (y ∷ ys)
      ≡ (if x == y then suc (best xs ys) else max (best xs (y ∷ ys)) (best (x ∷ xs) ys))
unfolding lcs_row
best-step x xs y ys =
    subst
      (λ r.
        first (lcs_row x (y ∷ ys) r)
        ≡ (if x == y then suc (best xs ys) else max (first r) (best (x ∷ xs) ys)))
      (sym (row-cons xs y ys)) refl

get_elem?-row :
    (xs ys : List String) (j : ℕ)
    → elim (get_elem? (row xs ys) j) [ none ↦ 0 | some n ↦ n ] ≡ best xs (drop j ys)
get_elem?-row xs [] zero = rw (row-nil xs) refl
get_elem?-row xs [] (suc j) = rw (row-nil xs) refl
get_elem?-row xs (y ∷ ys) zero = rw (row-cons xs y ys) refl
get_elem?-row xs (y ∷ ys) (suc j) = rw (row-cons xs y ys) (get_elem?-row xs ys j)

-- Every entry of the table.
pub entry_at-lcs_lengths :
    (xs ys : List String) (i j : ℕ)
    → entry_at (lcs_lengths xs ys) i j ≡ best (drop i xs) (drop j ys)
unfolding entry_at lcs_lengths zeros
entry_at-lcs_lengths [] ys zero j = get_elem?-row [] ys j
entry_at-lcs_lengths [] ys (suc i) j = sym (best-empty (drop j ys))
  where
    best-empty : (ys : List String) → best [] ys ≡ 0
    best-empty [] = refl
    best-empty (y ∷ ys) = refl
entry_at-lcs_lengths (x ∷ xs) ys zero j =
    rw (row_below-lcs_lengths xs ys) (get_elem?-row (x ∷ xs) ys j)
entry_at-lcs_lengths (x ∷ xs) ys (suc i) j = entry_at-lcs_lengths xs ys i j
