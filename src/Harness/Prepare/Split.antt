-- ===== src/Harness/Prepare/Split.antt =====
-- What is summarised: the history and the prefix of a split turn are together the messages of the
-- entries between the boundary and the cut, in order.
use attention.Prelude.{
  some-injective, none-ne-some, ℕ, suc, ◌+◌, ◌≤◌, ◌<◌, ◌≡◌, refl, sym, ◌∙◌, ap, subst, String, Bool,
  true, false, List, [], ◌∷◌, ◌++◌, Option, none, some, get_elem?, length, ◌==◌, arith, append-nil,
  Bool-cases, Option-cases, inl, inr, if◌then◌else◌,
}
use attention.Value.{Value}
use attention.Ai.Types.{ContentBlock}
use attention.Session.Types.{Body, SessionEntry}
use attention.Harness.CutPoint.{CutPointResult, find_cut_point}
use attention.Harness.CutPoint.Bounds.{IsGoodCut, TurnBefore, is_some, find_cut_point-IsGoodCut}
use attention.Harness.Prepare.{
  CompactionSettings, CompactionPrep, with_defaults, previous_body, or_else, ends_in_compaction,
  Previous, find_previous, index_of, boundary_start, range, messages_from, tokens, prepare_at,
  prepare_from, prepare_compaction,
}
use attention.Harness.Prepare.Range.{range-split, messages_from-append}

index_of-lt :
    (id : String) (i : ℕ) (es : List SessionEntry) (j : ℕ)
    → index_of id i es ≡ some j
    → j < i + length es
unfolding index_of
index_of-lt id i [] j h = absurd (cc)
index_of-lt id i (e ∷ es) j h = elim (Bool-cases (e.id == id)) [
  | inl yes' ↦ let eq : some i ≡ some j = rw yes' at h in let eq' : i ≡ j = cc in omega arith
  | inr no' ↦ let below = index_of-lt id (suc i) es j (rw no' at h) in omega arith
]

previous_body-index :
    (i : ℕ) (t : String) (b : Body) (p : Previous) → previous_body i t b ≡ some p → p.index ≡ i
unfolding previous_body
previous_body-index i at (Body.compaction t k n d h) p e =
    let same : some record {
      index = i;
      timestamp = at;
      summary = t;
      first_kept_entry_id = k;
      tokens_before = n;
    }
        ≡ some p =
      e in
    ground arith
previous_body-index i at b p e = ground arith

find_previous-lt :
    (i : ℕ) (es : List SessionEntry) (p : Previous)
    → find_previous i es ≡ some p
    → p.index < i + length es
unfolding find_previous
find_previous-lt i [] p h = absurd (cc)
find_previous-lt i (e ∷ es) p h = elim (Option-cases (find_previous (suc i) es)) [
  | inl here ↦
      let at = previous_body-index i e.timestamp e.body p (rw (here, or_else) at h) in omega arith
  | inr (q, later) ↦
      let below = find_previous-lt (suc i) es q later in
      let eq : some q ≡ some p = rw (later, or_else) at h in
      let eq' : q.index ≡ p.index = ground arith in omega arith
]

boundary_start-le :
    (branch : List SessionEntry) → boundary_start branch (find_previous 0 branch) ≤ length branch
unfolding boundary_start
boundary_start-le branch = elim (Option-cases (find_previous 0 branch)) [
  | inl e ↦ rw e (omega arith)
  | inr (p, e) ↦
      let below = find_previous-lt 0 branch p e in
      rw (e, boundary_start)
        (elim (Option-cases (index_of p.first_kept_entry_id 0 branch)) [
          | inl none' ↦ rw (none', boundary_start) (omega arith)
          | inr (j, some') ↦
              let lt = index_of-lt p.first_kept_entry_id 0 branch j some' in
              rw (some', boundary_start) (omega arith)
        ])
]

module _ (parse_millis : String → ℕ) (marshal_length : List (String × Value) → Option ℕ)
    (decode : Value → Option (List ContentBlock)) where
  -- The cut is an entry of the branch, and all before it from the boundary on is summarised.
  abbrev pub IsCovered : List SessionEntry → CompactionPrep → Type 0
  IsCovered branch p =
      (cut : ℕ) × (e : SessionEntry) × (boundary_start branch (find_previous 0 branch) ≤ cut)
      × (get_elem? branch cut ≡ some e)
      × (p.first_kept_entry_id ≡ e.id)
      × (p.messages_to_summarize ++ p.turn_prefix_messages
          ≡ messages_from parse_millis
              (range (boundary_start branch (find_previous 0 branch)) cut branch))

  -- The two parts that a split flag and a turn start leave.
  split-parts :
      (branch : List SessionEntry) (boundary kept : ℕ) (split : Bool) (turn : Option ℕ)
      → (split ≡ true → (i : ℕ) × (turn ≡ some i) × (boundary ≤ i) × (i ≤ kept))
      → let start : ℕ = elim turn [ none ↦ 0 | some t ↦ t ] in
        messages_from parse_millis (range boundary (if split then start else kept) branch)
          ++ (if split then messages_from parse_millis (range start kept branch) else [])
        ≡ messages_from parse_millis (range boundary kept branch)
  split-parts branch boundary kept false turn good =
      append-nil (messages_from parse_millis (range boundary kept branch))
  split-parts branch boundary kept true none good = let (i, no', lo, hi) = good refl in absurd (cc)
  split-parts branch boundary kept true (some t) good =
      let (i, eq, lo, hi) = good refl in
      let same : t ≡ i = ground arith in
      sym (
        ap (messages_from parse_millis)
          (range-split boundary t kept branch (omega arith) (omega arith))
        ∙ messages_from-append parse_millis (range boundary t branch) (range t kept branch))

  -- A good cut, or one that splits no turn.
  split_turn-inside :
      (branch : List SessionEntry) (boundary end : ℕ) (cut : CutPointResult)
      → IsGoodCut branch boundary end cut
      → cut.is_split_turn ≡ true
      → (i : ℕ) × (cut.turn_start_index ≡ some i)
        × (boundary ≤ i)
        × (i ≤ cut.first_kept_entry_index)
  split_turn-inside branch boundary end cut good split =
      inside cut.turn_start_index (sym good.split_turn ∙ split) good.turn_before
    where
      inside :
          (turn : Option ℕ)
          → is_some turn ≡ true
          → TurnBefore branch boundary cut.first_kept_entry_index turn
          → (i : ℕ) × (turn ≡ some i) × (boundary ≤ i) × (i ≤ cut.first_kept_entry_index)
      inside none h t = absurd (cc)
      inside (some i) h (lo, hi, _) = (i, refl, lo, hi)

  prepare_at-IsCovered :
      (branch : List SessionEntry) (settings : CompactionSettings) (cut : CutPointResult)
      (e : SessionEntry)
      → let boundary = boundary_start branch (find_previous 0 branch) in
        boundary ≤ cut.first_kept_entry_index
        → (cut.is_split_turn ≡ true
            → (i : ℕ) × (cut.turn_start_index ≡ some i)
              × (boundary ≤ i)
              × (i ≤ cut.first_kept_entry_index))
        → get_elem? branch cut.first_kept_entry_index ≡ some e
        → IsCovered branch (
            prepare_at parse_millis marshal_length decode branch settings
              (find_previous 0 branch)
              boundary
              cut
              e)
  unfolding prepare_at
  prepare_at-IsCovered branch settings cut e lo good at = (
    cut.first_kept_entry_index,
    e,
    lo,
    at,
    refl,
    split-parts branch (boundary_start branch (find_previous 0 branch)) cut.first_kept_entry_index
        cut.is_split_turn cut.turn_start_index good,
  )

  -- The same for what is prepared from a cut.
  prepare_from-IsCovered :
      (branch : List SessionEntry) (settings : CompactionSettings) (cut : CutPointResult)
      (p : CompactionPrep)
      → let boundary = boundary_start branch (find_previous 0 branch) in
        boundary ≤ cut.first_kept_entry_index
        → (cut.is_split_turn ≡ true
            → (i : ℕ) × (cut.turn_start_index ≡ some i)
              × (boundary ≤ i)
              × (i ≤ cut.first_kept_entry_index))
        → prepare_from parse_millis marshal_length decode branch settings
            (find_previous 0 branch)
            boundary
            cut
          ≡ some p
        → IsCovered branch p
  unfolding prepare_from
  prepare_from-IsCovered branch settings cut p lo good h =
      elim (Option-cases (get_elem? branch cut.first_kept_entry_index)) [
        | inl missing ↦ absurd (none-ne-some p (rw (missing, prepare_from) at h))
        | inr (e, at) ↦ named e at (e.id == "") (rw (at, prepare_from) at h)
      ]
    where
      prepared : SessionEntry → CompactionPrep
      prepared e =
          prepare_at parse_millis marshal_length decode branch settings (find_previous 0 branch)
            (boundary_start branch (find_previous 0 branch)) cut e

      named :
          (e : SessionEntry)
          → get_elem? branch cut.first_kept_entry_index ≡ some e
          → (unnamed : Bool)
          → (if unnamed
              then none
              else some (
                  prepare_at parse_millis marshal_length decode branch settings
                    (find_previous 0 branch)
                    (boundary_start branch (find_previous 0 branch))
                    cut
                    e))
            ≡ some p
          → IsCovered branch p
      named e at true h = absurd (none-ne-some p h)
      named e at false h =
          subst (IsCovered branch) (some-injective (prepared e) p h)
            (prepare_at-IsCovered branch settings cut e lo good at)

  -- Where a compaction is prepared, its first kept entry is an entry of the branch that is not
  -- before the boundary of the last compaction, and the messages to summarise followed by those of
  -- the split turn's prefix are the messages of all entries from that boundary up to the first
  -- kept entry, in order.
  pub prepare_compaction-IsCovered :
      (branch : List SessionEntry) (settings : CompactionSettings) (p : CompactionPrep)
      → prepare_compaction parse_millis marshal_length decode branch settings ≡ some p
      → IsCovered branch p
  unfolding prepare_compaction
  prepare_compaction-IsCovered branch settings p h = elim (Bool-cases (ends_in_compaction branch)) [
    | inl ends ↦ absurd (none-ne-some p (rw (ends, prepare_compaction) at h))
    | inr on ↦
        elim (find_cut_point-IsGoodCut (tokens parse_millis marshal_length decode) branch boundary
          (length branch) keep (boundary_start-le branch)) [
            | inl good ↦
                prepare_from-IsCovered branch settings' cut p good.from_start
                  (split_turn-inside branch boundary (length branch) cut good)
                  (rw (on, prepare_compaction) at h)
            | inr (empty, whole) ↦
                prepare_from-IsCovered branch settings' cut p
                  (subst (λ c. boundary ≤ c.first_kept_entry_index) (sym whole) (omega arith))
                  (λ split.
                    let no' : cut.is_split_turn ≡ false = ap (λ c. c.is_split_turn) whole in
                    absurd (cc))
                  (rw (on, prepare_compaction) at h)
          ]
  ]
    where
      settings' : CompactionSettings
      settings' = with_defaults settings

      keep : ℕ
      keep = settings'.keep_recent_tokens

      boundary : ℕ
      boundary = boundary_start branch (find_previous 0 branch)

      cut : CutPointResult
      cut =
          find_cut_point (tokens parse_millis marshal_length decode) branch boundary (length branch)
            keep
