-- ===== src/Session/Jsonl/Header.antt =====
-- The header line of internal/session/storage.go: `sessionHeader` as a JSON object, and
-- `parseHeaderLine`. Its field `Type` is always `session`, and a version is a natural number.
use attention.Prelude.{
  ◌≡◌, refl, sym, ap, ℕ, String, false, Option, none, some, Bool-cases, inl, inr, eq_iff, ltb, ◌==◌,
  if◌then◌else◌,
}
use attention.Value.{Value, Members}
use attention.Session.Types.{Result, ok, err, invalid_session, ◌>>=◌}
use attention.Session.Json.Fields.{
  Codec, field, read_string, read_int, text_at, int_at, unless_empty,
}

pub record SessionHeader : Type 0 where
  pub version : ℕ
  pub id : String
  pub timestamp : String
  pub cwd : String
  pub parent_session : String

-- The tests of `parseHeaderLine`, with its messages.
unfoldable pub check_header : SessionHeader → Result SessionHeader
check_header h =
    if ltb 3 h.version
    then err (record { code = invalid_session; text = "unsupported session version" })
    else (if h.id == ""
        then err (record { code = invalid_session; text = "session header is missing id" })
        else (if h.timestamp == ""
            then err
                (record { code = invalid_session; text = "session header is missing timestamp" })
            else (if h.cwd == ""
                then err (record { code = invalid_session; text = "session header is missing cwd" })
                else ok h)))

abbrev pub no_header : {A : Type 0} → Result A
no_header =
    err (record { code = invalid_session; text = "first line is not a valid session header" })

with_parent_session : SessionHeader → Option Value → Result SessionHeader
with_parent_session h none = ok h
with_parent_session h (some (Value.str s)) = ok (record h { parent_session = s })
with_parent_session h (some _) =
    err (record { code = invalid_session; text = "session header parentSession must be a string" })

module _ (codec : Codec) where
  unfoldable pub encode_header : SessionHeader → Value
  unfolding unless_empty
  encode_header h = Value.obj (
      Members.member "type" (Value.str "session") (
        Members.member "version" (Value.num (codec.show_int h.version)) (
          Members.member "id" (Value.str h.id) (
            Members.member "timestamp" (Value.str h.timestamp) (
              Members.member "cwd" (Value.str h.cwd)
                (unless_empty "parentSession" h.parent_session Members.end))))))

  -- The type of the object and its header, but for the parent session.
  header_fields : Members → Option (String × SessionHeader)
  unfolding text_at int_at
  header_fields ms = elim (text_at "type" ms) [
    | none ↦ none
    | some t ↦ elim (int_at codec "version" ms) [
      | none ↦ none
      | some n ↦ elim (text_at "id" ms) [
        | none ↦ none
        | some i ↦ elim (text_at "timestamp" ms) [
          | none ↦ none
          | some time ↦ elim (text_at "cwd" ms) [
            | none ↦ none
            | some cwd ↦ some (
              t,
              record { version = n; id = i; timestamp = time; cwd = cwd; parent_session = "" },
            )
          ]
        ]
      ]
    ]
  ]

  parse_fields : Option Value → Option (String × SessionHeader) → Result SessionHeader
  unfolding check_header with_parent_session
  parse_fields parent none = no_header
  parse_fields parent (some (t, h)) =
      if t == "session" then (do h' ← check_header h; with_parent_session h' parent) else no_header

  -- `parseHeaderLine`; a value that is no object is no header.
  unfoldable pub parse_header : Value → Result SessionHeader
  unfolding header_fields parse_fields field
  parse_header (Value.obj ms) = parse_fields (field "parentSession" ms) (header_fields ms)
  parse_header _ = no_header

  -- A header that the tests pass and whose version the library reads back.
  pub record IsHeader (h : SessionHeader) : Type 0 where
    pub supported : ltb 3 h.version ≡ false
    pub has_id : (h.id == "") ≡ false
    pub has_timestamp : (h.timestamp == "") ≡ false
    pub has_cwd : (h.cwd == "") ≡ false
    pub is_read : codec.read_int (codec.show_int h.version) ≡ some h.version

  -- It is read as it was written.
  pub parse_header-encode_header :
      (h : SessionHeader) → IsHeader h → parse_header (encode_header h) ≡ ok h
  unfolding parse_header encode_header header_fields parse_fields check_header with_parent_session
      field read_string read_int text_at int_at unless_empty
  parse_header-encode_header h g = elim (Bool-cases (h.parent_session == "")) [
    | inl e ↦
        rw (e, g.is_read, g.supported, g.has_id, g.has_timestamp, g.has_cwd)
          (ap (λ p. ok (record h { parent_session = p })) (sym ((eq_iff h.parent_session "").0 e)))
    | inr e ↦ rw (e, g.is_read, g.supported, g.has_id, g.has_timestamp, g.has_cwd) refl
  ]
