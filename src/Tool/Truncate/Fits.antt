-- ===== src/Tool/Truncate/Fits.antt =====
-- What is returned keeps within both limits.
use text.Mathlib.TextPositions.{len-append}
use attention.Prelude.{
  ℕ, zero, suc, ◌+◌, ◌≤◌, ◌≡◌, refl, ◌∙◌, ap, String, len, eqb, Bool, true, false, ◌&&◌, List, [],
  ◌∷◌, ◌++◌, length, length-append, append_assoc, ◌⊎◌, leb, ltb, ◌==◌, eq_iff, join, Bool-cases,
  inl, inr, ltb→le, leb→le, arith, if◌then◌else◌,
}
use Prim.Native.Char.{Char, code}
use Prim.Native.String
use attention.Session.Types.{Result, ok}
use attention.Tool.Truncate.{
  TruncationResult, TruncationOptions, split_lines_for_counting, line_bytes, take_lines, line_limit,
  byte_limit, head_result, whole_result, first_line_result, truncate_lines, truncate_head,
  split_newlines, ends_in_newline, in_front, drop_last,
}

-- One line more costs its bytes, and a line break.
join-append :
    (output : List String) (line : String)
    → len (join (output ++ line ∷ []) "\n") ≡ len (join output "\n") + line_bytes output line
unfolding join line_bytes
join-append [] line = omega arith
join-append (x ∷ []) line =
    omega (arith, len-append x (String.◌++◌ "\n" line), len-append "\n" line)
join-append (x ∷ y ∷ output) line =
    let rest = join (y ∷ output) "\n" in
    let rest' = join (y ∷ output ++ line ∷ []) "\n" in
    omega (
      arith,
      len-append x (String.◌++◌ "\n" rest'),
      len-append "\n" rest',
      len-append x (String.◌++◌ "\n" rest),
      len-append "\n" rest,
      join-append (y ∷ output) line,
    )

pub take_lines-Fits :
    (max_bytes rounds : ℕ) (output : List String) (bytes : ℕ) (lines : List String)
    → bytes ≡ len (join output "\n")
    → bytes ≤ max_bytes
    → let t = take_lines max_bytes rounds output bytes lines in
      (len (join t.output "\n") ≤ max_bytes) × (length t.output ≤ length output + rounds)
unfolding take_lines
take_lines-Fits max_bytes rounds output bytes [] e h = (omega arith, omega arith)
take_lines-Fits max_bytes zero output bytes (line ∷ lines) e h = (omega arith, omega arith)
take_lines-Fits max_bytes (suc rounds) output bytes (line ∷ lines) e h =
    elim (Bool-cases (ltb max_bytes (bytes + line_bytes output line))) [
      | inl over ↦ rw (over, take_lines) (omega arith, omega arith)
      | inr fits ↦
          let (small, few) =
            take_lines-Fits max_bytes rounds (output ++ line ∷ []) (bytes + line_bytes output line)
              lines (omega (arith, join-append output line))
              (ltb→le max_bytes (bytes + line_bytes output line) fits) in
          rw (fits, take_lines) (small, omega (arith, length-append output (line ∷ [])))
    ]

-- The lines that are taken are the first of the lines.
take_lines-prefix :
    (max_bytes rounds : ℕ) (output : List String) (bytes : ℕ) (lines : List String)
    → (rest : List String) × ((take_lines max_bytes rounds output bytes lines).output ++ rest
        ≡ output ++ lines)
unfolding take_lines
take_lines-prefix max_bytes rounds output bytes [] = ([], refl)
take_lines-prefix max_bytes zero output bytes (line ∷ lines) = (line ∷ lines, refl)
take_lines-prefix max_bytes (suc rounds) output bytes (line ∷ lines) =
    elim (Bool-cases (ltb max_bytes (bytes + line_bytes output line))) [
      | inl over ↦ rw (over, take_lines) (line ∷ lines, refl)
      | inr fits ↦
          let (rest, same) =
            take_lines-prefix max_bytes rounds (output ++ line ∷ [])
              (bytes + line_bytes output line) lines in
          rw (fits, take_lines) (rest, same ∙ append_assoc output (line ∷ []) lines)
    ]

abbrev HasOne : List String → Type 0
HasOne [] = ⊥
HasOne (x ∷ xs) = Unit

abbrev HasTwo : List String → Type 0
HasTwo [] = ⊥
HasTwo (x ∷ xs) = HasOne xs

in_front-HasOne : (c : Char) (xs : List String) → HasOne (in_front c xs)
unfolding in_front
in_front-HasOne c [] = tt
in_front-HasOne c (x ∷ xs) = tt

in_front-HasTwo : (c : Char) (xs : List String) → HasTwo xs → HasTwo (in_front c xs)
unfolding in_front
in_front-HasTwo c [] h = elim h [ ]
in_front-HasTwo c (x ∷ xs) h = h

split_newlines-HasOne : (s : String) → HasOne (split_newlines s)
unfolding split_newlines
split_newlines-HasOne String.[] = tt
split_newlines-HasOne (String.◌∷◌ c s) = elim (Bool-cases (eqb (code c) 10)) [
  | inl line ↦ rw line tt
  | inr other ↦ rw other (in_front-HasOne c (split_newlines s))
]

split_newlines-HasTwo : (s : String) → ends_in_newline s ≡ true → HasTwo (split_newlines s)
unfolding split_newlines ends_in_newline
split_newlines-HasTwo String.[] h = absurd (cc)
split_newlines-HasTwo (String.◌∷◌ c String.[]) h = rw h tt
split_newlines-HasTwo (String.◌∷◌ c (String.◌∷◌ d s)) h = elim (Bool-cases (eqb (code c) 10)) [
  | inl line ↦ rw line (split_newlines-HasOne (String.◌∷◌ d s))
  | inr other ↦ rw other (
      in_front-HasTwo c (split_newlines (String.◌∷◌ d s))
        (split_newlines-HasTwo (String.◌∷◌ d s) h))
]

drop_last-HasOne : (xs : List String) → HasTwo xs → HasOne (drop_last xs)
unfolding drop_last
drop_last-HasOne [] h = elim h [ ]
drop_last-HasOne (x ∷ []) h = elim h [ ]
drop_last-HasOne (x ∷ y ∷ xs) h = tt

-- A content has a line, unless it is empty.
split_lines_for_counting-HasOne :
    (content : String) → (content == "") ≡ false → HasOne (split_lines_for_counting content)
unfolding split_lines_for_counting
split_lines_for_counting-HasOne content h = elim (Bool-cases (ends_in_newline content)) [
  | inl ends ↦
      rw (h, ends) (drop_last-HasOne (split_newlines content) (split_newlines-HasTwo content ends))
  | inr other ↦ rw (h, other) (split_newlines-HasOne content)
]

-- What is said of the content: the totals, and the size of what is left of it.
abbrev pub Counts : (content : String) → TruncationResult → Type 0
Counts content r =
    (r.total_lines ≡ length (split_lines_for_counting content))
    × (r.total_bytes ≡ len content)
    × (r.output_bytes ≡ len r.content)

-- The whole content, or the first of its lines and no others, with their number.
abbrev pub IsHead : (content : String) → TruncationResult → Type 0
IsHead content r =
    ((r.truncated ≡ false)
      × (r.content ≡ content)
      × (r.output_lines ≡ length (split_lines_for_counting content)))
    ⊎ ((output : List String) × (rest : List String) × (r.truncated ≡ true)
        × (output ++ rest ≡ split_lines_for_counting content)
        × (r.content ≡ join output "\n")
        × (r.output_lines ≡ length output))

-- What is promised of a result.
abbrev pub Fits : (content : String) → (max_lines max_bytes : ℕ) → Result TruncationResult → Type 0
Fits content max_lines max_bytes out =
    (r : TruncationResult) × (out ≡ ok r)
    × (r.output_lines ≤ max_lines)
    × (len r.content ≤ max_bytes)
    × Counts content r
    × IsHead content r

truncate_lines-Fits :
    (content : String) (lines : List String) (max_lines max_bytes : ℕ)
    → HasOne lines
    → lines ≡ split_lines_for_counting content
    → Fits content max_lines max_bytes (truncate_lines content lines max_lines max_bytes)
unfolding truncate_lines head_result first_line_result join
truncate_lines-Fits content [] max_lines max_bytes h e = absurd h
truncate_lines-Fits content (line ∷ lines) max_lines max_bytes h e =
    elim (Bool-cases (ltb max_bytes (len line))) [
      | inl over ↦ rw over (
        first_line_result content (line ∷ lines) max_lines max_bytes,
        refl,
        omega arith,
        omega arith,
        (ap length e, refl, omega arith),
        inr ([], line ∷ lines, refl, e, refl, refl),
      )
      | inr fits ↦
          let t = take_lines max_bytes max_lines [] 0 (line ∷ lines) in
          let (small, few) =
            take_lines-Fits max_bytes max_lines [] 0 (line ∷ lines) (omega arith) (omega arith) in
          let (rest, same) = take_lines-prefix max_bytes max_lines [] 0 (line ∷ lines) in
          rw fits (
            head_result content (line ∷ lines) max_lines max_bytes t,
            refl,
            omega arith,
            small,
            (ap length e, refl, refl),
            inr (t.output, rest, refl, same ∙ e, refl, refl),
          )
    ]

-- An empty content passes the first guard.
empty-passes :
    (content : String) (n : ℕ)
    → (content == "") ≡ true
    → (leb (length (split_lines_for_counting content)) n ≡ true) × (leb (len content) n ≡ true)
unfolding split_lines_for_counting
empty-passes content n h =
    let none' : leb 0 n ≡ true = ground arith in
    (rw h none', ap (λ x. leb (len x) n) ((eq_iff content "").0 h) ∙ none')

-- The output of `truncateHead` keeps within both limits, with the defaults for options that are 0;
-- it is the whole content or the first of its lines; the counts of lines and of bytes, of the output
-- and of the content, are right; and the function never panics.
pub truncate_head-Fits :
    (content : String) (opts : TruncationOptions)
    → Fits content (line_limit opts) (byte_limit opts) (truncate_head content opts)
unfolding truncate_head
truncate_head-Fits content opts =
    by_guard (leb (length lines) (line_limit opts)) (leb (len content) (byte_limit opts)) refl refl
  where
    lines : List String
    lines = split_lines_for_counting content

    cut :
        (content == "") ≡ false
        → Fits content
            (line_limit opts)
            (byte_limit opts)
            (truncate_lines content lines (line_limit opts) (byte_limit opts))
    cut other =
        truncate_lines-Fits content lines (line_limit opts) (byte_limit opts)
          (split_lines_for_counting-HasOne content other) refl

    by_guard :
        (few small : Bool)
        → leb (length lines) (line_limit opts) ≡ few
        → leb (len content) (byte_limit opts) ≡ small
        → Fits content (line_limit opts) (byte_limit opts) (
            if few && small
            then ok (whole_result content lines (line_limit opts) (byte_limit opts))
            else truncate_lines content lines (line_limit opts) (byte_limit opts))
    by_guard true true e h = (
      whole_result content lines (line_limit opts) (byte_limit opts),
      refl,
      leb→le (length lines) (line_limit opts) e,
      leb→le (len content) (byte_limit opts) h,
      (refl, refl, refl),
      inl (refl, refl, refl),
    )
    by_guard true false e h = elim (Bool-cases (content == "")) [
      | inl empty ↦ let (_, passed) = empty-passes content (byte_limit opts) empty in absurd (cc)
      | inr other ↦ cut other
    ]
    by_guard false small e h = elim (Bool-cases (content == "")) [
      | inl empty ↦ let (passed, _) = empty-passes content (line_limit opts) empty in absurd (cc)
      | inr other ↦ cut other
    ]
