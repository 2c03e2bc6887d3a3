-- ===== src/Harness/Prepare/Range.antt =====
-- Ranges of entries that follow one another.
use attention.Prelude.{
  ℕ, zero, suc, ◌+◌, ◌-◌, ◌≤◌, ◌≡◌, refl, sym, ◌∙◌, ap, String, List, [], ◌∷◌, ◌++◌, drop, take,
  arith, append_assoc,
}
use attention.Session.Types.{SessionEntry}
use attention.Harness.Prepare.{range, message_from_body, messages_from}

take-add : (m n : ℕ) (es : List SessionEntry) → take (m + n) es ≡ take m es ++ take n (drop m es)
take-add zero n es = ap (λ k. take k es) (omega arith)
take-add (suc m) n [] = let e : suc m + n ≡ suc (m + n) = omega arith in rw e (nil n)
  where
    nil : (n : ℕ) → [] ≡ take {A = SessionEntry} n []
    nil zero = refl
    nil (suc n) = refl
take-add (suc m) n (x ∷ es) =
    let e : suc m + n ≡ suc (m + n) = omega arith in
    ap (λ k. take k (x ∷ es)) e ∙ ap (◌∷◌ x) (take-add m n es)

drop-add : (m n : ℕ) (es : List SessionEntry) → drop (m + n) es ≡ drop n (drop m es)
drop-add zero n es = ap (λ k. drop k es) (omega arith)
drop-add (suc m) n [] = let e : suc m + n ≡ suc (m + n) = omega arith in rw e (nil n)
  where
    nil : (n : ℕ) → [] ≡ drop {A = SessionEntry} n []
    nil zero = refl
    nil (suc n) = refl
drop-add (suc m) n (x ∷ es) =
    let e : suc m + n ≡ suc (m + n) = omega arith in ap (λ k. drop k (x ∷ es)) e ∙ drop-add m n es

-- A range is the two ranges on either side of an index in it.
pub range-split :
    (i j k : ℕ) (es : List SessionEntry)
    → i ≤ j
    → j ≤ k
    → range i k es ≡ range i j es ++ range j k es
range-split i j k es h g =
    let parts : k - i ≡ (j - i) + (k - j) = omega arith in
    let up : i + (j - i) ≡ j = omega arith in
    ap (λ n. take n (drop i es)) parts
    ∙ take-add (j - i) (k - j) (drop i es)
    ∙ ap (λ x. take (j - i) (drop i es) ++ take (k - j) x)
        (sym (drop-add i (j - i) es) ∙ ap (λ n. drop n es) up)

module _ (parse_millis : String → ℕ) where
  pub messages_from-append :
      (xs ys : List SessionEntry)
      → messages_from parse_millis (xs ++ ys)
        ≡ messages_from parse_millis xs ++ messages_from parse_millis ys
  unfolding messages_from
  messages_from-append [] ys = refl
  messages_from-append (e ∷ xs) ys =
      ap (λ z. message_from_body parse_millis e e.body ++ z) (messages_from-append xs ys)
      ∙ sym (
          append_assoc (message_from_body parse_millis e e.body) (messages_from parse_millis xs)
            (messages_from parse_millis ys))
