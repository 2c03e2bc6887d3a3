-- ===== src/Tool/Truncate/Partial.antt =====
-- `truncateStringToBytesFromEnd` of internal/tool/builtin/truncate.go: the end of a text in whole
-- runes. A text is valid UTF-8, so that the last rune of `text[:start]` is its last character, and the
-- size that `utf8.DecodeLastRuneInString` returns is that character's; it is 0 where none is left.
use Prim.Native.Char.{Char, len_utf8}
use Prim.Native.String
use Prim.Native.String.append
use Prim.Native.String.len
use text.Mathlib.TextLemmas.{append-nil, append_assoc}
use text.Mathlib.TextPositions.{len_utf8-pos}
use attention.Prelude.{
  ℕ, zero, suc, ◌+◌, ◌≤◌, ◌<◌, ◌≡◌, refl, sym, ◌∙◌, ap, subst, String, len, true, false, ◌⊎◌, inl,
  inr, List, [], ◌∷◌, leb, ltb, Bool-cases, ltb→lt, ltb→le, leb→le, arith, if◌then◌else◌,
}

-- The runes of a text from its end, before those of `acc`.
unfoldable pub backwards : String → (acc : List Char) → List Char
backwards String.[] acc = acc
backwards (String.◌∷◌ c text) acc = backwards text (c ∷ acc)

-- The loop: `before` are the runes of `text[:start]` from its end, `kept` is `text[start:]`.
unfoldable pub keep_end :
    (max_bytes : ℕ) → (before : List Char) → (used : ℕ) → (kept : String) → String
keep_end max_bytes [] used kept = kept
keep_end max_bytes (c ∷ before) used kept = elim (ltb max_bytes (used + len_utf8 c)) [
  | true ↦ kept
  | false ↦ keep_end max_bytes before (used + len_utf8 c) (String.◌∷◌ c kept)
]

unfoldable pub truncate_string_to_bytes_from_end : String → (max_bytes : ℕ) → String
unfolding backwards keep_end
truncate_string_to_bytes_from_end text zero = ""
truncate_string_to_bytes_from_end text (suc max_bytes) =
    if leb (len text) (suc max_bytes)
    then text
    else keep_end (suc max_bytes) (backwards text []) 0 ""

-- The text whose runes from the end are given, followed by another.
forwards : List Char → String → String
forwards [] s = s
forwards (c ∷ cs) s = forwards cs (String.◌∷◌ c s)

forwards-backwards :
    (text : String) (acc : List Char) → forwards (backwards text acc) "" ≡ forwards acc text
unfolding forwards backwards
forwards-backwards String.[] acc = refl
forwards-backwards (String.◌∷◌ c text) acc = forwards-backwards text (c ∷ acc)

one_more : (c : Char) (s : String) → String.◌++◌ (String.◌∷◌ c "") s ≡ String.◌∷◌ c s
one_more c s = append.cons c "" s ∙ ap (λ t. String.◌∷◌ c t) (append.nil s)

forwards-append : (cs : List Char) (s : String) → forwards cs s ≡ String.◌++◌ (forwards cs "") s
unfolding forwards
forwards-append [] s = sym (append.nil s)
forwards-append (c ∷ cs) s =
    forwards-append cs (String.◌∷◌ c s)
    ∙ ap (λ t. String.◌++◌ (forwards cs "") t) (sym (one_more c s))
    ∙ sym (append_assoc (forwards cs "") (String.◌∷◌ c "") s)
    ∙ ap (λ t. String.◌++◌ t s) (sym (forwards-append cs (String.◌∷◌ c "")))

-- A text is empty, or it has a last rune, which is over the bound behind `used` bytes.
abbrev pub IsOver : (max_bytes used : ℕ) → (front : String) → Type 0
IsOver max_bytes used front =
    (front ≡ "")
    ⊎ ((u : String) × (c : Char) × (front ≡ String.◌++◌ u (String.◌∷◌ c ""))
        × (max_bytes < used + len_utf8 c))

forwards-IsOver :
    (max_bytes used : ℕ) (c : Char) (cs : List Char)
    → max_bytes < used + len_utf8 c
    → IsOver max_bytes used (forwards (c ∷ cs) "")
unfolding forwards
forwards-IsOver max_bytes used c cs h =
    inr (forwards cs "", c, forwards-append cs (String.◌∷◌ c ""), h)

-- What `keep_end` keeps is an end of the text, fits, and the rune before it would not.
keep_end_lem :
    (max_bytes : ℕ) (before : List Char) (used : ℕ) (kept : String)
    → used ≡ len kept
    → used ≤ max_bytes
    → let out = keep_end max_bytes before used kept in
      (rest : List Char) × (forwards rest out ≡ forwards before kept)
      × (len out ≤ max_bytes)
      × IsOver max_bytes (len out) (forwards rest "")
unfolding keep_end forwards
keep_end_lem max_bytes [] used kept e h = ([], refl, omega arith, inl refl)
keep_end_lem max_bytes (c ∷ before) used kept e h =
    elim (Bool-cases (ltb max_bytes (used + len_utf8 c))) [
      | inl over ↦
          rw (over, keep_end)
            (
              c ∷ before,
              refl,
              omega arith,
              forwards-IsOver max_bytes (len kept) c before
                  (let lt = ltb→lt max_bytes (used + len_utf8 c) over in omega arith),
            )
      | inr fits ↦
          rw (fits, keep_end)
            (keep_end_lem max_bytes before (used + len_utf8 c) (String.◌∷◌ c kept)
              (omega (arith, len.cons c kept)) (ltb→le max_bytes (used + len_utf8 c) fits))
    ]

-- What is promised of an end of a text.
abbrev pub IsLongestEnd : (text : String) → (max_bytes : ℕ) → (out : String) → Type 0
IsLongestEnd text max_bytes out =
    (front : String) × (String.◌++◌ front out ≡ text)
    × (len out ≤ max_bytes)
    × IsOver max_bytes (len out) front

keep_end-IsLongestEnd :
    (text : String) (max_bytes : ℕ)
    → IsLongestEnd text max_bytes (keep_end max_bytes (backwards text []) 0 "")
unfolding forwards
keep_end-IsLongestEnd text max_bytes =
    let (rest, same, fits, over) =
      keep_end_lem max_bytes (backwards text []) 0 "" (omega arith) (omega arith) in
    (
      forwards rest "",
      sym (forwards-append rest (keep_end max_bytes (backwards text []) 0 ""))
          ∙ (same ∙ forwards-backwards text []),
      fits,
      over,
    )

-- Without a byte nothing is kept.
whole-IsOver : (text : String) → IsOver 0 0 text
unfolding forwards
whole-IsOver text =
    subst (λ t. IsOver 0 0 t) (forwards-backwards text []) (by_runes (backwards text []))
  where
    by_runes : (cs : List Char) → IsOver 0 0 (forwards cs "")
    by_runes [] = inl refl
    by_runes (c ∷ cs) = let (k, e) = len_utf8-pos c in forwards-IsOver 0 0 c cs (omega arith)

-- What is kept of a text is the longest end of whole runes that fits in the bytes.
pub truncate_string_to_bytes_from_end-IsLongestEnd :
    (text : String) (max_bytes : ℕ)
    → IsLongestEnd text max_bytes (truncate_string_to_bytes_from_end text max_bytes)
unfolding truncate_string_to_bytes_from_end
truncate_string_to_bytes_from_end-IsLongestEnd text zero =
    (text, append-nil text, omega arith, whole-IsOver text)
truncate_string_to_bytes_from_end-IsLongestEnd text (suc max_bytes) =
    elim (Bool-cases (leb (len text) (suc max_bytes))) [
      | inl fits ↦ rw fits ("", append.nil text, leb→le (len text) (suc max_bytes) fits, inl refl)
      | inr over ↦ rw over (keep_end-IsLongestEnd text (suc max_bytes))
    ]
