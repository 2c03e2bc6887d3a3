-- ===== src/Harness/CutPoint/Points.antt =====
-- The cut points of a range, and the candidate that is chosen among them.
use attention.Prelude.{
  ℕ, zero, suc, ◌+◌, ◌≤◌, ◌<◌, ◌≡◌, refl, sym, ◌∙◌, ap, true, List, [], ◌∷◌, Option, none, some,
  All, get_elem?, take, drop, arith, Bool-cases, inl, inr, leb,
}
use attention.Session.Types.{SessionEntry}
use attention.Harness.CutPoint.{
  is_cut_point, find_valid_cut_points, candidate_from, chosen_candidate,
}

-- A cut point: an index below `end` at which an entry stands that may be cut at.
abbrev pub CanCut : List SessionEntry → (start end : ℕ) → ℕ → Type 0
CanCut entries start end i =
    (start ≤ i)
    × (i < end)
    × (e : SessionEntry) × (get_elem? entries i ≡ some e)
    × (is_cut_point e.body ≡ true)

-- `part` is what `entries` holds from index `i` up to `end`.
abbrev pub Window : List SessionEntry → (i end : ℕ) → List SessionEntry → Type 0
Window entries i end [] = Unit
Window entries i end (e ∷ es) =
    (get_elem? entries i ≡ some e) × (i < end) × Window entries (suc i) end es

pub All-CanCut :
    (entries part : List SessionEntry) (start i end : ℕ)
    → start ≤ i
    → Window entries i end part
    → All (CanCut entries start end) (find_valid_cut_points i part)
unfolding find_valid_cut_points
All-CanCut entries [] start i end lo w = tt
All-CanCut entries (e ∷ es) start i end lo (at, hi, w) =
    let rest = All-CanCut entries es start (suc i) end (omega arith) w in
    elim (Bool-cases (is_cut_point e.body)) [
      | inl good ↦ rw good ((lo, hi, e, at, good), rest)
      | inr bad ↦ rw bad rest
    ]

pub Window-take :
    (entries part : List SessionEntry) (i n end : ℕ)
    → i + n ≡ end
    → ((k : ℕ) → get_elem? entries (i + k) ≡ get_elem? part k)
    → Window entries i end (take n part)
Window-take entries part i zero end e same = tt
Window-take entries [] i (suc n) end e same = tt
Window-take entries (x ∷ es) i (suc n) end e same =
    let here : i + 0 ≡ i = omega arith in
    (
      ap (get_elem? entries) (sym here) ∙ same 0,
      omega arith,
      Window-take entries es (suc i) n end (omega arith) λ k.
          let next : suc i + k ≡ i + suc k = omega arith in
          ap (get_elem? entries) next ∙ same (suc k),
    )

pub get_elem?-drop :
    (entries : List SessionEntry) (start k : ℕ)
    → get_elem? entries (start + k) ≡ get_elem? (drop start entries) k
get_elem?-drop entries zero k = let e : 0 + k ≡ k = omega arith in ap (get_elem? entries) e
get_elem?-drop [] (suc start) k = refl
get_elem?-drop (x ∷ entries) (suc start) k =
    let e : suc start + k ≡ suc (start + k) = omega arith in
    ap (get_elem? (x ∷ entries)) e ∙ get_elem?-drop entries start k

candidate_from-All :
    (P : ℕ → Type 0) (i default : ℕ) (cs : List ℕ)
    → P default
    → All P cs
    → P (candidate_from i default cs)
unfolding candidate_from
candidate_from-All P i default [] d a = d
candidate_from-All P i default (c ∷ cs) d (p, a) =
    let rest = candidate_from-All P i default cs d a in
    elim (Bool-cases (leb i c)) [ inl h ↦ rw h p | inr h ↦ rw h rest ]

pub chosen_candidate-All :
    (P : ℕ → Type 0) (first : ℕ) (cs : List ℕ) (budget : Option ℕ)
    → P first
    → All P cs
    → P (chosen_candidate first cs budget)
unfolding chosen_candidate
chosen_candidate-All P first cs none p a = p
chosen_candidate-All P first cs (some i) p a = candidate_from-All P i first cs p a
