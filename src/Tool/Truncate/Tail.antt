-- ===== src/Tool/Truncate/Tail.antt =====
-- `truncateTail` of internal/tool/builtin/truncate.go: the end of an output within a number of lines
-- and bytes.
use text.Mathlib.TextPositions.{len-append}
use mathlib.Core.List.{reverse-cons, reverse-reverse}
use Prim.Native.String
use attention.Prelude.{
  ℕ, zero, suc, ◌+◌, ◌≤◌, ◌≡◌, refl, sym, ap, subst, ◌∙◌, ◌++◌, ◌⊎◌, append_assoc, append-nil,
  String, len, Bool, true, false, ◌&&◌, List, [], ◌∷◌, length, reverse, leb, ltb, Bool-cases, inl,
  inr, ltb→le, leb→le, join, arith, if◌then◌else◌,
}
use attention.Tool.Truncate.{
  TruncationResult, TruncationOptions, split_lines_for_counting, line_bytes, line_limit, byte_limit,
  whole_result,
}
use attention.Tool.Truncate.Fits.{Counts}
use attention.Tool.Truncate.Partial.{
  truncate_string_to_bytes_from_end, truncate_string_to_bytes_from_end-IsLongestEnd,
}

pub record TakenTail : Type 0 where
  output : List String
  output_bytes : ℕ
  truncated_by : String
  last_line_partial : Bool

-- Where a line does not fit: of the last line a part is kept.
stop_at_line : (max_bytes : ℕ) → (output : List String) → (output_bytes : ℕ) → String → TakenTail
unfolding truncate_string_to_bytes_from_end
stop_at_line max_bytes [] bytes line = record {
  output = truncate_string_to_bytes_from_end line max_bytes ∷ [];
  output_bytes = len (truncate_string_to_bytes_from_end line max_bytes);
  truncated_by = "bytes";
  last_line_partial = true;
}
stop_at_line max_bytes (x ∷ output) bytes line = record {
  output = x ∷ output;
  output_bytes = bytes;
  truncated_by = "bytes";
  last_line_partial = false;
}

-- The loop of `truncateTail` over the lines from the last; `rounds` is how many may still be taken.
unfoldable take_last_lines :
    (max_bytes rounds : ℕ) → (output : List String) → (output_bytes : ℕ) → List String → TakenTail
unfolding line_bytes stop_at_line
take_last_lines max_bytes rounds output bytes [] = record {
  output = output;
  output_bytes = bytes;
  truncated_by = "lines";
  last_line_partial = false;
}
take_last_lines max_bytes zero output bytes (line ∷ lines) = record {
  output = output;
  output_bytes = bytes;
  truncated_by = "lines";
  last_line_partial = false;
}
take_last_lines max_bytes (suc rounds) output bytes (line ∷ lines) =
    elim (ltb max_bytes (bytes + line_bytes output line)) [
      | true ↦ stop_at_line max_bytes output bytes line
      | false ↦
          take_last_lines max_bytes rounds (line ∷ output) (bytes + line_bytes output line) lines
    ]

-- The result for the lines that were taken.
tail_result :
    (content : String) → List String → (max_lines max_bytes : ℕ) → TakenTail → TruncationResult
tail_result content lines max_lines max_bytes t = record {
  content = join t.output "\n";
  truncated = true;
  truncated_by =
      if leb max_lines (length t.output) && leb t.output_bytes max_bytes
      then "lines"
      else t.truncated_by;
  total_lines = length lines;
  total_bytes = len content;
  output_lines = length t.output;
  output_bytes = len (join t.output "\n");
  last_line_partial = t.last_line_partial;
  first_line_exceeds_limit = false;
  max_lines = max_lines;
  max_bytes = max_bytes;
}

unfoldable pub truncate_tail : String → TruncationOptions → TruncationResult
unfolding split_lines_for_counting line_limit byte_limit whole_result take_last_lines tail_result
truncate_tail content opts =
    let max_lines = line_limit opts in
    let max_bytes = byte_limit opts in
    let lines = split_lines_for_counting content in
    if leb (length lines) max_lines && leb (len content) max_bytes
    then whole_result content lines max_lines max_bytes
    else tail_result content lines max_lines max_bytes
        (take_last_lines max_bytes max_lines [] 0 (reverse lines))

-- A line in front costs its bytes, and a line break.
len-join-cons :
    (line : String) (output : List String)
    → len (join (line ∷ output) "\n") ≡ len (join output "\n") + line_bytes output line
unfolding join line_bytes
len-join-cons line [] = omega arith
len-join-cons line (x ∷ output) =
    let rest = join (x ∷ output) "\n" in
    omega (arith, len-append line (String.◌++◌ "\n" rest), len-append "\n" rest)

-- What is promised of the lines that were taken.
abbrev Within : (max_lines max_bytes : ℕ) → TakenTail → Type 0
Within max_lines max_bytes t =
    (len (join t.output "\n") ≤ max_bytes) × (length t.output ≤ max_lines)

stop_at_line-Within :
    (max_bytes n : ℕ) (output : List String) (bytes : ℕ) (line : String)
    → len (join output "\n") ≤ max_bytes
    → length output ≤ n
    → Within (suc n) max_bytes (stop_at_line max_bytes output bytes line)
unfolding stop_at_line join
stop_at_line-Within max_bytes n [] bytes line small few =
    let (front, same, fits, over) = truncate_string_to_bytes_from_end-IsLongestEnd line max_bytes in
    (fits, omega arith)
stop_at_line-Within max_bytes n (x ∷ output) bytes line small few = (small, omega arith)

take_last_lines-Within :
    (max_bytes rounds : ℕ) (output : List String) (bytes : ℕ) (lines : List String)
    → bytes ≡ len (join output "\n")
    → bytes ≤ max_bytes
    → Within
        (length output + rounds)
        max_bytes
        (take_last_lines max_bytes rounds output bytes lines)
unfolding take_last_lines
take_last_lines-Within max_bytes rounds output bytes [] e h = (omega arith, omega arith)
take_last_lines-Within max_bytes zero output bytes (line ∷ lines) e h = (omega arith, omega arith)
take_last_lines-Within max_bytes (suc rounds) output bytes (line ∷ lines) e h =
    elim (Bool-cases (ltb max_bytes (bytes + line_bytes output line))) [
      | inl over ↦
          let (small, few) =
            stop_at_line-Within max_bytes (length output + rounds) output bytes line (omega arith)
              (omega arith) in
          rw (over, take_last_lines) (small, omega arith)
      | inr fits ↦
          let (small, few) =
            take_last_lines-Within max_bytes rounds (line ∷ output) (bytes + line_bytes output line)
              lines (omega (arith, len-join-cons line output))
              (ltb→le max_bytes (bytes + line_bytes output line) fits) in
          rw (fits, take_last_lines) (small, omega arith)
    ]

-- What is taken of some lines: the last ones, whole, or of the last one a part from its end.
abbrev IsEnd : (max_bytes : ℕ) → (lines : List String) → TakenTail → Type 0
IsEnd max_bytes lines t =
    ((rest : List String) × (rest ++ t.output ≡ lines) × (t.last_line_partial ≡ false))
    ⊎ ((rest : List String) × (line : String) × (rest ++ line ∷ [] ≡ lines)
        × (t.output ≡ truncate_string_to_bytes_from_end line max_bytes ∷ [])
        × (t.last_line_partial ≡ true))

stop_at_line-IsEnd :
    (max_bytes : ℕ) (output : List String) (bytes : ℕ) (line : String) (lines : List String)
    → IsEnd max_bytes (reverse (line ∷ lines) ++ output) (stop_at_line max_bytes output bytes line)
unfolding stop_at_line
stop_at_line-IsEnd max_bytes [] bytes line lines = inr (
  reverse lines,
  line,
  sym (reverse-cons line lines) ∙ sym (append-nil (reverse (line ∷ lines))),
  refl,
  refl,
)
stop_at_line-IsEnd max_bytes (x ∷ output) bytes line lines =
    inl (reverse (line ∷ lines), refl, refl)

take_last_lines-IsEnd :
    (max_bytes rounds : ℕ) (output : List String) (bytes : ℕ) (lines : List String)
    → IsEnd max_bytes
        (reverse lines ++ output)
        (take_last_lines max_bytes rounds output bytes lines)
unfolding take_last_lines
take_last_lines-IsEnd max_bytes rounds output bytes [] = inl ([], refl, refl)
take_last_lines-IsEnd max_bytes zero output bytes (line ∷ lines) =
    inl (reverse (line ∷ lines), refl, refl)
take_last_lines-IsEnd max_bytes (suc rounds) output bytes (line ∷ lines) =
    elim (Bool-cases (ltb max_bytes (bytes + line_bytes output line))) [
      | inl over ↦ rw (over, take_last_lines) (stop_at_line-IsEnd max_bytes output bytes line lines)
      | inr fits ↦
          rw (fits, take_last_lines)
            (subst
              (λ all. IsEnd max_bytes all (
                take_last_lines max_bytes rounds (line ∷ output) (bytes + line_bytes output line)
                  lines))
              (sym (
                ap (λ xs. xs ++ output) (reverse-cons line lines)
                ∙ append_assoc (reverse lines) (line ∷ []) output))
              (take_last_lines-IsEnd max_bytes rounds (line ∷ output)
                (bytes + line_bytes output line) lines))
    ]

-- The whole content; the last of its lines and no others; or a part of the last line, from its end.
abbrev pub IsTail : (content : String) → (max_bytes : ℕ) → TruncationResult → Type 0
IsTail content max_bytes r =
    ((r.truncated ≡ false)
      × (r.content ≡ content)
      × (r.output_lines ≡ length (split_lines_for_counting content)))
    ⊎ ((t : TakenTail) × (r.truncated ≡ true)
        × IsEnd max_bytes (split_lines_for_counting content) t
        × (r.content ≡ join t.output "\n")
        × (r.output_lines ≡ length t.output)
        × (r.last_line_partial ≡ t.last_line_partial))

-- The output of `truncateTail` keeps within both limits, with the defaults for options that are 0,
-- also where the last line alone is too long. It is the whole content, or the last of its lines, or
-- the part of the last line that fits; and the counts of lines and of bytes, of the output and of the
-- content, are right.
pub truncate_tail-Fits :
    (content : String) (opts : TruncationOptions)
    → let r = truncate_tail content opts in
      (r.output_lines ≤ line_limit opts)
      × (len r.content ≤ byte_limit opts)
      × Counts content r
      × IsTail content (byte_limit opts) r
unfolding truncate_tail tail_result whole_result join
truncate_tail-Fits content opts =
    by_guard (leb (length lines) (line_limit opts)) (leb (len content) (byte_limit opts)) refl refl
  where
    lines : List String
    lines = split_lines_for_counting content

    taken : TakenTail
    taken = take_last_lines (byte_limit opts) (line_limit opts) [] 0 (reverse lines)

    kept : Within (line_limit opts) (byte_limit opts) taken
    kept =
        let (small, few) =
          take_last_lines-Within (byte_limit opts) (line_limit opts) [] 0 (reverse lines)
            (omega arith) (omega arith) in
        (small, omega arith)

    end : IsEnd (byte_limit opts) lines taken
    end =
        subst (λ all. IsEnd (byte_limit opts) all taken)
          (append-nil (reverse (reverse lines)) ∙ reverse-reverse lines)
          (take_last_lines-IsEnd (byte_limit opts) (line_limit opts) [] 0 (reverse lines))

    Promised : TruncationResult → Type 0
    Promised r =
        (r.output_lines ≤ line_limit opts)
        × (len r.content ≤ byte_limit opts)
        × Counts content r
        × IsTail content (byte_limit opts) r

    cut : Promised (tail_result content lines (line_limit opts) (byte_limit opts) taken)
    cut = (kept.1, kept.0, (refl, refl, refl), inr (taken, refl, end, refl, refl, refl))

    by_guard :
        (few small : Bool)
        → leb (length lines) (line_limit opts) ≡ few
        → leb (len content) (byte_limit opts) ≡ small
        → Promised (
            if few && small
            then whole_result content lines (line_limit opts) (byte_limit opts)
            else tail_result content lines (line_limit opts) (byte_limit opts) taken)
    by_guard true true e h = (
      leb→le (length lines) (line_limit opts) e,
      leb→le (len content) (byte_limit opts) h,
      (refl, refl, refl),
      inl (refl, refl, refl),
    )
    by_guard true false e h = cut
    by_guard false small e h = cut
