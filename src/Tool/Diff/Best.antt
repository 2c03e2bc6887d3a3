-- ===== src/Tool/Diff/Best.antt =====
-- A difference of lines keeps as many lines as any common subsequence of the two texts has.
use attention.Prelude.{
  ◌≡◌, refl, sym, ap, ◌∙◌, subst, ℕ, zero, suc, ◌+◌, ◌≤◌, max, String, Bool, true, false, List, [],
  ◌∷◌, length, drop, ◌==◌, leb, eq_refl, arith, inl, inr, if◌then◌else◌,
}
use attention.Tool.Diff.{DiffKind, item, zeros, lcs_lengths, entry_at, diff_loop, line_diff_items}
use attention.Tool.Diff.Lcs.{Sub, kept, best, best-step, best-nil, entry_at-lcs_lengths}

drop-suc :
    (i : ℕ) (xs : List String) (y : String) (ys : List String)
    → drop i xs ≡ y ∷ ys
    → drop (suc i) xs ≡ ys
drop-suc zero [] y ys h = cc
drop-suc zero (x ∷ xs) y ys h = cc
drop-suc (suc i) [] y ys h = cc
drop-suc (suc i) (x ∷ xs) y ys h = drop-suc i xs y ys h

best-empty : (ys : List String) → best [] ys ≡ 0
unfolding zeros
best-empty [] = refl
best-empty (y ∷ ys) = refl

takes_left : {x y a b : ℕ} → leb x y ≡ true → y ≡ a → x ≡ b → max a b ≡ a
takes_left h p q = ground arith

takes_right : {x y a b : ℕ} → leb x y ≡ false → y ≡ a → x ≡ b → max a b ≡ b
takes_right h p q = ground arith

module _ (all_old all_new : List String) where
  abbrev table : List (List ℕ)
  table = lcs_lengths all_old all_new

  kept-diff_loop :
      (fuel i j : ℕ) (olds news : List String)
      → drop i all_old ≡ olds
      → drop j all_new ≡ news
      → length olds + length news ≤ fuel
      → kept (diff_loop table fuel i j olds news) ≡ best olds news
  unfolding diff_loop
  kept-diff_loop zero i j [] [] p q h = sym (best-empty [])
  kept-diff_loop zero i j (o ∷ os) news p q h = absurd (omega (h, arith))
  kept-diff_loop zero i j [] (w ∷ ws) p q h = absurd (omega (h, arith))
  kept-diff_loop (suc fuel) i j [] [] p q h = sym (best-empty [])
  kept-diff_loop (suc fuel) i j (o ∷ os) [] p q h =
      kept-diff_loop fuel (suc i) j os [] (drop-suc i all_old o os p) q (omega (h, arith))
      ∙ (best-nil os ∙ sym (best-nil (o ∷ os)))
  kept-diff_loop (suc fuel) i j [] (w ∷ ws) p q h =
      kept-diff_loop fuel i (suc j) [] ws p (drop-suc j all_new w ws q) (omega (h, arith))
      ∙ (best-empty ws ∙ sym (best-empty (w ∷ ws)))
  kept-diff_loop (suc fuel) i j (o ∷ os) (w ∷ ws) p q h =
      let p' = drop-suc i all_old o os p in
      let q' = drop-suc j all_new w ws q in
      decide (o == w) refl (leb (entry_at table i (suc j)) (entry_at table (suc i) j)) refl
        (kept-diff_loop fuel (suc i) (suc j) os ws p' q' (omega (h, arith)))
        (kept-diff_loop fuel (suc i) j os (w ∷ ws) p' q (omega (h, arith)))
        (kept-diff_loop fuel i (suc j) (o ∷ os) ws p q' (omega (h, arith)))
        (entry_at-lcs_lengths all_old all_new (suc i) j
          ∙ (ap (λ xs. best xs (drop j all_new)) p' ∙ ap (best os) q))
        (entry_at-lcs_lengths all_old all_new i (suc j)
          ∙ (ap (λ xs. best xs (drop (suc j) all_new)) p ∙ ap (best (o ∷ os)) q'))
    where
      decide :
          (same : Bool)
          → (o == w) ≡ same
          → (above : Bool) → leb (entry_at table i (suc j)) (entry_at table (suc i) j) ≡ above
          → kept (diff_loop table fuel (suc i) (suc j) os ws) ≡ best os ws
          → kept (diff_loop table fuel (suc i) j os (w ∷ ws)) ≡ best os (w ∷ ws)
          → kept (diff_loop table fuel i (suc j) (o ∷ os) ws) ≡ best (o ∷ os) ws
          → entry_at table (suc i) j ≡ best os (w ∷ ws)
          → entry_at table i (suc j) ≡ best (o ∷ os) ws
          → kept (elim same [
            | true ↦ item DiffKind.equal o i j ∷ diff_loop table fuel (suc i) (suc j) os ws
            | false ↦ elim above [
              | true ↦ item DiffKind.removed o i j ∷ diff_loop table fuel (suc i) j os (w ∷ ws)
              | false ↦ item DiffKind.added w i j ∷ diff_loop table fuel i (suc j) (o ∷ os) ws
            ]
          ])
            ≡ best (o ∷ os) (w ∷ ws)
      decide true e above l k _ _ _ _ = ap suc k ∙ sym (best-step o os w ws ∙ rw e refl)
      decide false e true l _ k _ a b = k ∙ sym (best-step o os w ws ∙ rw e (takes_left l a b))
      decide false e false l _ _ k a b = k ∙ sym (best-step o os w ws ∙ rw e (takes_right l a b))

-- Without its first line a common subsequence is one still.
Sub-tail : (z : String) (zs : List String) (xs : List String) → Sub (z ∷ zs) xs → Sub zs xs
Sub-tail z [] xs s = tt
Sub-tail z (y ∷ zs) [] s = s
Sub-tail z (y ∷ zs) (x ∷ xs) (inl (e, s)) = inr s
Sub-tail z (y ∷ zs) (x ∷ xs) (inr s) = inr (Sub-tail z (y ∷ zs) xs s)

-- Behind the first line of the text there is all but the first line of the subsequence.
Sub-behind :
    (z : String) (zs : List String) (x : String) (xs : List String)
    → Sub (z ∷ zs) (x ∷ xs)
    → Sub zs xs
Sub-behind z zs x xs (inl (e, s)) = s
Sub-behind z zs x xs (inr s) = Sub-tail z zs xs s

-- A line that is not the first one of the text is further behind.
Sub-else :
    (z : String) (zs : List String) (x : String) (xs : List String)
    → ((z == x) ≡ false)
    → Sub (z ∷ zs) (x ∷ xs)
    → Sub (z ∷ zs) xs
Sub-else z zs x xs h (inl (e, s)) =
    let same : (z == x) ≡ true = subst (λ w. (z == w) ≡ true) e (eq_refl z) in cc
Sub-else z zs x xs h (inr s) = s

-- No common subsequence is longer than the table says.
length-Sub : (xs ys zs : List String) → Sub zs xs → Sub zs ys → length zs ≤ best xs ys
length-Sub xs ys [] s t = omega arith
length-Sub [] ys (z ∷ zs) s t = absurd s
length-Sub (x ∷ xs) [] (z ∷ zs) s t = absurd t
length-Sub (x ∷ xs) (y ∷ ys) (z ∷ zs) s t =
    subst (λ n. suc (length zs) ≤ n) (sym (best-step x xs y ys))
      (decide (x == y) refl s
        (length-Sub xs ys zs (Sub-behind z zs x xs s) (Sub-behind z zs y ys t))
        (λ s'. length-Sub xs (y ∷ ys) (z ∷ zs) s' t) (λ t'. length-Sub (x ∷ xs) ys (z ∷ zs) s t'))
  where
    decide :
        (same : Bool)
        → (x == y) ≡ same
        → Sub (z ∷ zs) (x ∷ xs)
        → length zs ≤ best xs ys
        → (Sub (z ∷ zs) xs → suc (length zs) ≤ best xs (y ∷ ys))
        → (Sub (z ∷ zs) ys → suc (length zs) ≤ best (x ∷ xs) ys)
        → suc (length zs)
          ≤ (if same then suc (best xs ys) else max (best xs (y ∷ ys)) (best (x ∷ xs) ys))
    decide true e s h k l = omega (h, arith)
    decide false e (inl (zx, s)) h k l =
        let other : (z == y) ≡ false = subst (λ w. (w == y) ≡ false) (sym zx) e in
        let bound = l (Sub-else z zs y ys other t) in omega (bound, arith)
    decide false e (inr s) h k l = let bound = k s in omega (bound, arith)

-- The lines that a difference keeps are at least as many as those of any list of lines that can be got
-- from both texts by taking lines out: no difference of the two texts keeps more.
pub length-le_kept :
    (olds news zs : List String)
    → Sub zs olds
    → Sub zs news
    → length zs ≤ kept (line_diff_items olds news)
unfolding line_diff_items
length-le_kept olds news zs s t =
    subst (λ n. length zs ≤ n)
      (sym (
        kept-diff_loop olds news (length olds + length news) 0 0 olds news refl refl (omega arith)))
      (length-Sub olds news zs s t)
