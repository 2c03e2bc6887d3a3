-- ===== src/Tool/Diff/Lines.antt =====
-- The two sides of a difference of lines are the two texts.
use attention.Prelude.{
  ◌≡◌, refl, ap, ℕ, zero, suc, ◌+◌, ◌≤◌, String, Bool, true, false, List, [], ◌∷◌, length, ◌==◌,
  leb, eq_iff, arith, subst,
}
use attention.Tool.Diff.{
  DiffKind, DiffItem, item, entry_at, diff_loop, lcs_lengths, line_diff_items,
}

-- The lines with their numbers, from the one behind `i` on.
abbrev pub numbered : ℕ → List String → List (ℕ × String)
numbered i [] = []
numbered i (x ∷ xs) = (suc i, x) ∷ numbered (suc i) xs

-- What a difference says of the old text: the lines that were kept or removed.
abbrev pub old_side : List DiffItem → List (ℕ × String)
old_side [] = []
old_side (x ∷ xs) = elim x.kind [
  | DiffKind.added ↦ old_side xs
  | _ ↦ (x.old_line, x.text) ∷ old_side xs
]

-- What it says of the new text: the lines that were kept or added.
abbrev pub new_side : List DiffItem → List (ℕ × String)
new_side [] = []
new_side (x ∷ xs) = elim x.kind [
  | DiffKind.removed ↦ new_side xs
  | _ ↦ (x.new_line, x.text) ∷ new_side xs
]

abbrev Sides : (i j : ℕ) → (olds news : List String) → List DiffItem → Type 0
Sides i j olds news items = (old_side items ≡ numbered i olds) × (new_side items ≡ numbered j news)

diff_loop-Sides :
    (lcs : List (List ℕ)) (fuel i j : ℕ) (olds news : List String)
    → length olds + length news ≤ fuel
    → Sides i j olds news (diff_loop lcs fuel i j olds news)
unfolding diff_loop
diff_loop-Sides lcs zero i j [] [] h = (refl, refl)
diff_loop-Sides lcs zero i j (o ∷ os) news h = absurd (omega (h, arith))
diff_loop-Sides lcs zero i j [] (w ∷ ws) h = absurd (omega (h, arith))
diff_loop-Sides lcs (suc fuel) i j [] [] h = (refl, refl)
diff_loop-Sides lcs (suc fuel) i j (o ∷ os) [] h =
    let (a, b) = diff_loop-Sides lcs fuel (suc i) j os [] (omega (h, arith)) in
    (ap (λ xs. (suc i, o) ∷ xs) a, b)
diff_loop-Sides lcs (suc fuel) i j [] (w ∷ ws) h =
    let (a, b) = diff_loop-Sides lcs fuel i (suc j) [] ws (omega (h, arith)) in
    (a, ap (λ xs. (suc j, w) ∷ xs) b)
diff_loop-Sides lcs (suc fuel) i j (o ∷ os) (w ∷ ws) h =
    decide (o == w) refl (leb (entry_at lcs i (suc j)) (entry_at lcs (suc i) j))
      (diff_loop-Sides lcs fuel (suc i) (suc j) os ws (omega (h, arith)))
      (diff_loop-Sides lcs fuel (suc i) j os (w ∷ ws) (omega (h, arith)))
      (diff_loop-Sides lcs fuel i (suc j) (o ∷ os) ws (omega (h, arith)))
  where
    decide :
        (same : Bool)
        → (o == w) ≡ same
        → (above : Bool) → Sides (suc i) (suc j) os ws (diff_loop lcs fuel (suc i) (suc j) os ws)
        → Sides (suc i) j os (w ∷ ws) (diff_loop lcs fuel (suc i) j os (w ∷ ws))
        → Sides i (suc j) (o ∷ os) ws (diff_loop lcs fuel i (suc j) (o ∷ os) ws)
        → Sides i j (o ∷ os) (w ∷ ws) (elim same [
          | true ↦ item DiffKind.equal o i j ∷ diff_loop lcs fuel (suc i) (suc j) os ws
          | false ↦ elim above [
            | true ↦ item DiffKind.removed o i j ∷ diff_loop lcs fuel (suc i) j os (w ∷ ws)
            | false ↦ item DiffKind.added w i j ∷ diff_loop lcs fuel i (suc j) (o ∷ os) ws
          ]
        ])
    decide true e above (a, b) _ _ =
        let same : o ≡ w = (eq_iff o w).0 e in
        (
          ap (λ xs. (suc i, o) ∷ xs) a,
          subst
              (λ x.
                (suc j, o) ∷ new_side (diff_loop lcs fuel (suc i) (suc j) os ws)
                ≡ (suc j, x) ∷ numbered (suc j) ws)
              same (ap (λ xs. (suc j, o) ∷ xs) b),
        )
    decide false e true _ (a, b) _ = (ap (λ xs. (suc i, o) ∷ xs) a, b)
    decide false e false _ _ (a, b) = (a, ap (λ xs. (suc j, w) ∷ xs) b)

-- The items that are not added are the old lines, all of them and in their order, with their numbers;
-- those that are not removed are the new lines with theirs.
pub line_diff_items-sides :
    (olds news : List String)
    → (old_side (line_diff_items olds news) ≡ numbered 0 olds)
      × (new_side (line_diff_items olds news) ≡ numbered 0 news)
unfolding line_diff_items
line_diff_items-sides olds news =
    diff_loop-Sides (lcs_lengths olds news) (length olds + length news) 0 0 olds news (omega arith)
