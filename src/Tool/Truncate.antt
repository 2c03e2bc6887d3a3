-- ===== src/Tool/Truncate.antt =====
-- internal/tool/builtin/truncate.go: the output of a tool is cut to a number of lines and bytes. The
-- two options are natural numbers; 0 stands for the default. `truncateTail` is in Truncate/Tail.
pub mod Fits
pub mod Partial
pub mod Tail
use Prim.Native.Char.{code}
use attention.Prelude.{
  ℕ, zero, suc, ◌+◌, String, len, Bool, true, false, ◌&&◌, List, [], ◌∷◌, ◌++◌, length, leb, ltb,
  eqb, ◌==◌, join, if◌then◌else◌,
}
use Prim.Native.String
use attention.Session.Types.{Result, ok, panics}

pub record TruncationResult : Type 0 where
  pub content : String
  pub truncated : Bool
  pub truncated_by : String
  pub total_lines : ℕ
  pub total_bytes : ℕ
  pub output_lines : ℕ
  pub output_bytes : ℕ
  pub last_line_partial : Bool
  pub first_line_exceeds_limit : Bool
  pub max_lines : ℕ
  pub max_bytes : ℕ

pub record TruncationOptions : Type 0 where
  pub max_lines : ℕ
  pub max_bytes : ℕ

-- A part of `strings.Split` with a character in front.
in_front : Prim.Native.Char.Char → List String → List String
in_front c [] = String.◌∷◌ c String.[] ∷ []
in_front c (x ∷ xs) = String.◌∷◌ c x ∷ xs

-- `strings.Split(content, "\n")`.
unfoldable pub split_newlines : String → List String
unfolding in_front
split_newlines String.[] = "" ∷ []
split_newlines (String.◌∷◌ c s) =
    let rest = split_newlines s in if eqb (code c) 10 then "" ∷ rest else in_front c rest

-- `strings.HasSuffix(content, "\n")`.
unfoldable pub ends_in_newline : String → Bool
ends_in_newline String.[] = false
ends_in_newline (String.◌∷◌ c String.[]) = eqb (code c) 10
ends_in_newline (String.◌∷◌ c (String.◌∷◌ d s)) = ends_in_newline (String.◌∷◌ d s)

drop_last : List String → List String
drop_last [] = []
drop_last (x ∷ []) = []
drop_last (x ∷ y ∷ xs) = x ∷ drop_last (y ∷ xs)

unfoldable pub split_lines_for_counting : String → List String
unfolding split_newlines ends_in_newline drop_last
split_lines_for_counting content =
    if content == ""
    then []
    else (if ends_in_newline content
        then drop_last (split_newlines content)
        else split_newlines content)

-- A line's bytes, and those of the line break before it.
unfoldable pub line_bytes : List String → String → ℕ
line_bytes [] line = len line
line_bytes (x ∷ output) line = suc (len line)

pub record Taken : Type 0 where
  pub output : List String
  pub output_bytes : ℕ
  pub truncated_by : String

-- The loop of `truncateHead` over the lines; `rounds` is how many lines may still be taken.
unfoldable pub take_lines :
    (max_bytes rounds : ℕ) → (output : List String) → (output_bytes : ℕ) → List String → Taken
unfolding line_bytes
take_lines max_bytes rounds output bytes [] = record {
  output = output;
  output_bytes = bytes;
  truncated_by = "lines";
}
take_lines max_bytes zero output bytes (line ∷ lines) = record {
  output = output;
  output_bytes = bytes;
  truncated_by = "lines";
}
take_lines max_bytes (suc rounds) output bytes (line ∷ lines) =
    elim (ltb max_bytes (bytes + line_bytes output line)) [
      | true ↦ record { output = output; output_bytes = bytes; truncated_by = "bytes" }
      | false ↦
          take_lines max_bytes rounds (output ++ line ∷ []) (bytes + line_bytes output line) lines
    ]

or_default : ℕ → ℕ → ℕ
or_default zero d = d
or_default (suc n) d = suc n

unfoldable pub line_limit : TruncationOptions → ℕ
unfolding or_default
line_limit opts = or_default opts.max_lines 2000

unfoldable pub byte_limit : TruncationOptions → ℕ
unfolding or_default
byte_limit opts = or_default opts.max_bytes 51200

-- The result for the lines that were taken.
unfoldable pub head_result :
    (content : String) → List String → (max_lines max_bytes : ℕ) → Taken → TruncationResult
head_result content lines max_lines max_bytes t = record {
  content = join t.output "\n";
  truncated = true;
  truncated_by =
      if leb max_lines (length t.output) && leb t.output_bytes max_bytes
      then "lines"
      else t.truncated_by;
  total_lines = length lines;
  total_bytes = len content;
  output_lines = length t.output;
  output_bytes = len (join t.output "\n");
  last_line_partial = false;
  first_line_exceeds_limit = false;
  max_lines = max_lines;
  max_bytes = max_bytes;
}

whole_result : (content : String) → List String → (max_lines max_bytes : ℕ) → TruncationResult
whole_result content lines max_lines max_bytes = record {
  content = content;
  truncated = false;
  truncated_by = "";
  total_lines = length lines;
  total_bytes = len content;
  output_lines = length lines;
  output_bytes = len content;
  last_line_partial = false;
  first_line_exceeds_limit = false;
  max_lines = max_lines;
  max_bytes = max_bytes;
}

first_line_result : (content : String) → List String → (max_lines max_bytes : ℕ) → TruncationResult
first_line_result content lines max_lines max_bytes = record {
  content = "";
  truncated = true;
  truncated_by = "bytes";
  total_lines = length lines;
  total_bytes = len content;
  output_lines = 0;
  output_bytes = 0;
  last_line_partial = false;
  first_line_exceeds_limit = true;
  max_lines = max_lines;
  max_bytes = max_bytes;
}

-- What is returned behind the first guard; without a line, `lines[0]` panics.
unfoldable pub truncate_lines :
    (content : String) → List String → (max_lines max_bytes : ℕ) → Result TruncationResult
unfolding take_lines head_result first_line_result
truncate_lines content [] max_lines max_bytes = panics
truncate_lines content (line ∷ lines) max_lines max_bytes = ok (
    if ltb max_bytes (len line)
    then first_line_result content (line ∷ lines) max_lines max_bytes
    else head_result content (line ∷ lines) max_lines max_bytes
        (take_lines max_bytes max_lines [] 0 (line ∷ lines)))

unfoldable pub truncate_head : String → TruncationOptions → Result TruncationResult
unfolding split_lines_for_counting line_limit byte_limit whole_result truncate_lines
truncate_head content opts =
    let max_lines = line_limit opts in
    let max_bytes = byte_limit opts in
    let lines = split_lines_for_counting content in
    if leb (length lines) max_lines && leb (len content) max_bytes
    then ok (whole_result content lines max_lines max_bytes)
    else truncate_lines content lines max_lines max_bytes
