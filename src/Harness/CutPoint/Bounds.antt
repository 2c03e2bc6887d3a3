-- ===== src/Harness/CutPoint/Bounds.antt =====
-- The cut lies in the range, is never at a tool result, and a split turn begins before it.
use attention.Prelude.{
  not, if◌then◌else◌, ℕ, zero, suc, ◌+◌, ◌-◌, ◌≤◌, ◌<◌, ◌≡◌, refl, sym, subst, ◌∙◌, ap, Bool, true,
  false, List, [], ◌∷◌, Option, none, some, All, get_elem?, take, drop, arith, Bool-cases,
  Option-cases, inl, inr, ◌⊎◌,
}
use attention.Ai.Types.{Message, is_tool_result}
use attention.Message.{ai}
use attention.Session.Types.{Body, SessionEntry}
use attention.Harness.CutPoint.{
  is_user_entry, is_cut_point, find_valid_cut_points, stops_rewind, starts_turn, test_at,
  find_turn_start, rewind, candidate_from, CutPointResult, chosen_candidate, choose_cut, cut_result,
  find_cut_point,
}
use attention.Harness.CutPoint.Points.{
  CanCut, All-CanCut, Window-take, get_elem?-drop, chosen_candidate-All,
}

-- The entry is the message of a tool result.
unfoldable pub is_result_entry : Body → Bool
is_result_entry (Body.message (ai m)) = is_tool_result m.role
is_result_entry _ = false

cut_point-not_result : (b : Body) → is_cut_point b ≡ true → is_result_entry b ≡ false
unfolding is_cut_point is_result_entry
cut_point-not_result (Body.message m) h = ground arith
cut_point-not_result (Body.compaction t k n d x) h = refl
cut_point-not_result b h = ground arith

skipped-not_result : (b : Body) → stops_rewind b ≡ false → is_result_entry b ≡ false
unfolding stops_rewind is_result_entry
skipped-not_result (Body.message m) h = cc
skipped-not_result (Body.compaction t k n d x) h = refl
skipped-not_result b h = ground arith

test_at-some :
    (test : Body → Bool) (entries : List SessionEntry) (i : ℕ) {e : SessionEntry}
    → get_elem? entries i ≡ some e
    → test_at test entries i ≡ test e.body
test_at-some test entries i h = ground arith

test_at-none :
    (test : Body → Bool) (entries : List SessionEntry) (i : ℕ)
    → get_elem? entries i ≡ none
    → test_at test entries i ≡ false
test_at-none test entries i h = ground arith

skipped_at-not_result :
    (entries : List SessionEntry) (i : ℕ)
    → test_at stops_rewind entries i ≡ false
    → test_at is_result_entry entries i ≡ false
skipped_at-not_result entries i h = elim (Option-cases (get_elem? entries i)) [
  | inl e ↦ test_at-none is_result_entry entries i e
  | inr (x, e) ↦
      test_at-some is_result_entry entries i e
      ∙ skipped-not_result x.body (sym (test_at-some stops_rewind entries i e) ∙ h)
]

-- Moving back keeps the cut in the range and off the tool results.
abbrev IsCut : List SessionEntry → (start end : ℕ) → ℕ → Type 0
IsCut entries start end i = (start ≤ i) × (i < end) × (test_at is_result_entry entries i ≡ false)

rewind-IsCut :
    (entries : List SessionEntry) (start rounds end : ℕ)
    → start + rounds < end
    → test_at is_result_entry entries (start + rounds) ≡ false
    → IsCut entries start end (rewind entries start rounds)
unfolding rewind
rewind-IsCut entries start zero end lt h =
    let e : start + 0 ≡ start = omega arith in
    (omega arith, omega arith, subst (λ i. test_at is_result_entry entries i ≡ false) e h)
rewind-IsCut entries start (suc rounds) end lt h =
    elim (Bool-cases (test_at stops_rewind entries (start + rounds))) [
      | inl stop ↦ rw stop (omega arith, lt, h)
      | inr on ↦ rw on (
          rewind-IsCut entries start rounds end (omega arith)
            (skipped_at-not_result entries (start + rounds) on))
    ]

find_turn_start-lt :
    (entries : List SessionEntry) (start rounds i : ℕ)
    → find_turn_start entries start rounds ≡ some i
    → (start ≤ i) × (i < start + rounds) × (test_at starts_turn entries i ≡ true)
unfolding find_turn_start
find_turn_start-lt entries start zero i h = absurd (cc)
find_turn_start-lt entries start (suc rounds) i h =
    elim (Bool-cases (test_at starts_turn entries (start + rounds))) [
      | inl yes' ↦
          let e : start + rounds ≡ i = ground arith in
          (omega arith, omega arith, subst (λ k. test_at starts_turn entries k ≡ true) e yes')
      | inr no' ↦
          let (lo, hi, t) = find_turn_start-lt entries start rounds i (rw no' at h) in
          (lo, omega arith, t)
    ]

-- A turn that is split begins in the range, not behind the cut, at an entry that starts a turn.
abbrev pub TurnBefore : List SessionEntry → (start cut : ℕ) → Option ℕ → Type 0
TurnBefore entries start cut none = Unit
TurnBefore entries start cut (some t) =
    (start ≤ t) × (t ≤ cut) × (test_at starts_turn entries t ≡ true)

abbrev pub is_some : Option ℕ → Bool
is_some none = false
is_some (some t) = true

-- What is promised of a cut: its place, its entry, and where a split turn begins.
pub record IsGoodCut (entries : List SessionEntry) (start end : ℕ) (r : CutPointResult)
    : Type 0 where
  pub from_start : start ≤ r.first_kept_entry_index
  pub before_end : r.first_kept_entry_index < end
  pub off_results : test_at is_result_entry entries r.first_kept_entry_index ≡ false
  pub turn_before : TurnBefore entries start r.first_kept_entry_index r.turn_start_index
  pub split_turn : r.is_split_turn ≡ is_some r.turn_start_index

module _ (entries : List SessionEntry) (start end cut : ℕ) (c : IsCut entries start end cut) where
  found-TurnBefore :
      (t : Option ℕ)
      → find_turn_start entries start (suc cut - start) ≡ t
      → TurnBefore entries start cut t
  found-TurnBefore none h = tt
  found-TurnBefore (some t) h =
      let (lo, hi, good) = find_turn_start-lt entries start (suc cut - start) t h in
      let below : start ≤ cut = c.0 in (lo, omega arith, good)

  -- The result that is built around a cut.
  cut_result-IsGoodCut :
      (tokens : Message → ℕ) → IsGoodCut entries start end (cut_result tokens entries start cut)
  unfolding cut_result
  cut_result-IsGoodCut tokens = elim (Bool-cases (test_at is_user_entry entries cut)) [
    | inl user ↦ record {
      from_start = c.0;
      before_end = c.1;
      off_results = c.2;
      turn_before = rw user tt;
      split_turn = flag (test_at is_user_entry entries cut) turn;
    }
    | inr other ↦ record {
      from_start = c.0;
      before_end = c.1;
      off_results = c.2;
      turn_before = rw other (found-TurnBefore turn refl);
      split_turn = flag (test_at is_user_entry entries cut) turn;
    }
  ]
    where
      turn : Option ℕ
      turn = find_turn_start entries start (suc cut - start)

      flag :
          (user : Bool) (t : Option ℕ)
          → (elim (if user then none else t) [ none ↦ false | some i ↦ not user ])
            ≡ is_some (if user then none else t)
      flag true t = refl
      flag false none = refl
      flag false (some t) = refl

module _ (tokens : Message → ℕ) (entries : List SessionEntry) (start end keep : ℕ) where
  choose_cut-IsCut :
      (first : ℕ) (cs : List ℕ)
      → All (CanCut entries start end) (first ∷ cs)
      → IsCut entries start end (choose_cut tokens entries start end keep first (first ∷ cs))
  unfolding choose_cut
  choose_cut-IsCut first cs (p, a) =
      let budget =
        attention.Harness.CutPoint.find_budget tokens entries start (end - start) keep 0 in
      let (lo, hi, e, at, good) =
        chosen_candidate-All (CanCut entries start end) first (first ∷ cs) budget p (p, a) in
      let i = chosen_candidate first (first ∷ cs) budget in
      let whole : start + (i - start) ≡ i = omega arith in
      rewind-IsCut entries start (i - start) end (omega arith) (
        ap (test_at is_result_entry entries) whole
        ∙ test_at-some is_result_entry entries i at
        ∙ cut_point-not_result e.body good)

  -- Where the range begins no later than it ends, either the cut lies in the range and is at no
  -- tool result, its turn start, if there is one, is an entry of the range not behind the cut at
  -- which a turn starts, and a split turn has a turn start; or no entry of the range may be cut
  -- at, and the result is the range's start with nothing split.
  pub find_cut_point-IsGoodCut :
      start ≤ end
      → IsGoodCut entries start end (find_cut_point tokens entries start end keep)
        ⊎ (find_valid_cut_points start (take (end - start) (drop start entries)) ≡ [])
          × (find_cut_point tokens entries start end keep ≡ record {
            first_kept_entry_index = start;
            turn_start_index = none;
            is_split_turn = false;
          })
  unfolding find_cut_point
  find_cut_point-IsGoodCut h =
      by_points (find_valid_cut_points start (take (end - start) (drop start entries))) refl (
        All-CanCut entries (take (end - start) (drop start entries)) start start end (omega arith) (
          Window-take entries (drop start entries) start (end - start) end (omega arith)
            (get_elem?-drop entries start)))
    where
      by_points :
          (cs : List ℕ)
          → find_valid_cut_points start (take (end - start) (drop start entries)) ≡ cs
          → All
              (CanCut entries start end)
              (find_valid_cut_points start (take (end - start) (drop start entries)))
          → IsGoodCut entries start end (find_cut_point tokens entries start end keep)
            ⊎ (find_valid_cut_points start (take (end - start) (drop start entries)) ≡ [])
              × (find_cut_point tokens entries start end keep ≡ record {
                first_kept_entry_index = start;
                turn_start_index = none;
                is_split_turn = false;
              })
      by_points [] e a = inr (e, rw (e, find_cut_point))
      by_points (first ∷ cs) e a = inl (
          rw (e, find_cut_point)
            (cut_result-IsGoodCut entries start end
              (choose_cut tokens entries start end keep first (first ∷ cs))
              (choose_cut-IsCut first cs (rw e at a)) tokens))
