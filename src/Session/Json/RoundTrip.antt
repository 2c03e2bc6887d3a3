-- ===== src/Session/Json/RoundTrip.antt =====
-- An entry that is written and read again is the same entry.
use attention.Prelude.{
  ◌≡◌, ◌≢◌, refl, sym, ap, ℕ, String, Bool, true, false, Option, none, some, inl, inr, ◌==◌,
  Bool-cases, eq_iff,
}
use attention.Value.{Value, Members}
use attention.Message.{Content}
use attention.Session.Types.{Body, SessionEntry, ok}
use attention.Session.Json.Fields.{
  Codec, field, read_string, read_bool, read_int, read_any, text_at, flag_at, any_at, int_at,
  decode_optional_entry_id, from_id_from_json, encode_content, pointer, unless_null, unless_false,
  unless_empty,
}
use attention.Session.Json.Kept.{
  IsKeptMessage, IsKeptContent, IsRead, solid, content_of-encode_content,
  decode_agent_message-encode_message,
}
use attention.Session.Json.{type_of, encode_body, encode_entry}
use attention.Session.Json.Decode.{
  decode_body, with_body, with_parent, checked, discriminated, decode_entry,
}

-- What JSON keeps of the fields of a type: a message and content that it keeps, a count that the
-- library reads back, an origin that is not the word for none, the target of a label.
abbrev pub IsKept : Codec → Body → Type 0
IsKept codec (Body.message m) = IsKeptMessage codec m
IsKept codec (Body.compaction s f t d h) = IsRead codec t
IsKept codec (Body.branch_summary s f d h) = f ≢ some "root"
IsKept codec (Body.custom_message t c d e) = IsKeptContent c
IsKept codec (Body.label t l) = (i : String) × (t ≡ some i)
IsKept codec (Body.other t raw) = ⊥
IsKept codec _ = Unit

-- The members that every entry has, before those of its type.
abbrev headed : (t i p u : Value) → Members → Members
headed t i p u ms =
    Members.member "type" t
      (Members.member "id" i (Members.member "parentId" p (Members.member "timestamp" u ms)))

-- The members of a type do not hide those that every entry has.
abbrev IsPayload : Members → Type 0
IsPayload ms =
    (field "type" ms ≡ none)
    × (field "id" ms ≡ none)
    × (field "parentId" ms ≡ none)
    × (field "timestamp" ms ≡ none)

module _ (codec : Codec) (t i p u : Value) where
  -- The members of a type are written, and read back behind the others.
  abbrev Reads : Body → Members → Type 0
  Reads b ms = IsPayload ms × (decode_body codec (type_of b) (headed t i p u ms) ≡ some b)

  -- Two members that may be left out.
  abbrev tail : Value → Bool → Members
  tail d h = unless_null "details" d (unless_false "fromHook" h Members.end)

  compaction-Reads :
      (s f : String) (n : ℕ) (d : Value) (h : Bool)
      → codec.read_int (codec.show_int n) ≡ some n
      → Reads (Body.compaction s f n d h) (
          Members.member "summary" (Value.str s) (
            Members.member "firstKeptEntryId"
              (Value.str f)
              (Members.member "tokensBefore" (Value.num (codec.show_int n)) (tail d h))))
  unfolding field read_string read_bool read_int read_any int_at unless_null unless_false type_of
      decode_body text_at flag_at any_at
  compaction-Reads s f n d true k = elim (solid d) [
    | inl e ↦ rw (e, k) ((refl, refl, refl, refl), refl)
    | inr e ↦
        rw (e "details" (unless_false "fromHook" true Members.end), k)
          ((refl, refl, refl, refl), refl)
  ]
  compaction-Reads s f n d false k = elim (solid d) [
    | inl e ↦ rw (e, k) ((refl, refl, refl, refl), refl)
    | inr e ↦ rw (e "details" Members.end, k) ((refl, refl, refl, refl), refl)
  ]

  origin :
      (f : Option String)
      → f ≢ some "root"
      → from_id_from_json (elim f [ none ↦ "root" | some j ↦ j ]) ≡ f
  unfolding from_id_from_json
  origin none k = refl
  origin (some j) k = elim (Bool-cases (j == "root")) [
    | inl e ↦ absurd (k (ap (λ x. some x) ((eq_iff j "root").0 e)))
    | inr e ↦ rw e refl
  ]

  branch_summary-Reads :
      (s : String) (f : Option String) (d : Value) (h : Bool)
      → f ≢ some "root"
      → Reads (Body.branch_summary s f d h) (
          Members.member "fromId"
            (Value.str (elim f [ none ↦ "root" | some j ↦ j ]))
            (Members.member "summary" (Value.str s) (tail d h)))
  unfolding field read_string read_bool read_int read_any int_at unless_null unless_false type_of
      decode_body text_at flag_at any_at
  branch_summary-Reads s f d true k = elim (solid d) [
    | inl e ↦ rw (e, origin f k) ((refl, refl, refl, refl), refl)
    | inr e ↦
        rw (e "details" (unless_false "fromHook" true Members.end), origin f k)
          ((refl, refl, refl, refl), refl)
  ]
  branch_summary-Reads s f d false k = elim (solid d) [
    | inl e ↦ rw (e, origin f k) ((refl, refl, refl, refl), refl)
    | inr e ↦ rw (e "details" Members.end, origin f k) ((refl, refl, refl, refl), refl)
  ]

  custom-Reads :
      (c : String) (d : Value)
      → Reads
          (Body.custom c d)
          (Members.member "customType" (Value.str c) (unless_null "data" d Members.end))
  unfolding field read_string read_bool read_int read_any int_at unless_null unless_false type_of
      decode_body text_at flag_at any_at
  custom-Reads c d = elim (solid d) [
    | inl e ↦ rw e ((refl, refl, refl, refl), refl)
    | inr e ↦ rw (e "data" Members.end) ((refl, refl, refl, refl), refl)
  ]

  custom_message-Reads :
      (c : String) (x : Content) (d : Bool) (e : Value)
      → IsKeptContent x
      → Reads (Body.custom_message c x d e) (
          Members.member "customType" (Value.str c) (
            Members.member "content"
              (encode_content codec x)
              (Members.member "display" (Value.bool d) (unless_null "details" e Members.end))))
  unfolding field read_string read_bool read_int read_any int_at unless_null unless_false type_of
      decode_body text_at flag_at any_at
  custom_message-Reads c x d e k =
      let same = content_of-encode_content codec x k in
      elim (solid e) [
        | inl h ↦ rw (h, same) ((refl, refl, refl, refl), refl)
        | inr h ↦ rw (h "details" Members.end, same) ((refl, refl, refl, refl), refl)
      ]

  session_info-Reads :
      (n : String) → Reads (Body.session_info n) (unless_empty "name" n Members.end)
  unfolding field read_string unless_empty type_of decode_body text_at
  session_info-Reads n = elim (Bool-cases (n == "")) [
    | inl e ↦
        rw e
          ((refl, refl, refl, refl), ap (λ x. some (Body.session_info x)) (sym ((eq_iff n "").0 e)))
    | inr e ↦ rw e ((refl, refl, refl, refl), refl)
  ]

  -- Whatever the members that every entry has, those of a type are read back.
  body-Reads :
      (b : Body) → IsKept codec b → (ms : Members) × (encode_body codec b ≡ some ms) × Reads b ms
  unfolding encode_body field read_string type_of decode_body text_at decode_optional_entry_id
      pointer
  body-Reads (Body.message m) k = (
    _,
    refl,
    (
      (refl, refl, refl, refl),
      ap (λ x. some (Body.message x)) (decode_agent_message-encode_message codec m k),
    ),
  )
  body-Reads (Body.model_change p m) k = (_, refl, ((refl, refl, refl, refl), refl))
  body-Reads (Body.thinking_level_change l) k = (_, refl, ((refl, refl, refl, refl), refl))
  body-Reads (Body.compaction s f n d h) k = (_, refl, compaction-Reads s f n d h k)
  body-Reads (Body.branch_summary s f d h) k = (_, refl, branch_summary-Reads s f d h k)
  body-Reads (Body.custom c d) k = (_, refl, custom-Reads c d)
  body-Reads (Body.custom_message c x d e) k = (_, refl, custom_message-Reads c x d e k)
  body-Reads (Body.label none l) (j, e) = cc
  body-Reads (Body.label (some i) l) k = (_, refl, ((refl, refl, refl, refl), refl))
  body-Reads (Body.session_info n) k = (_, refl, session_info-Reads n)
  body-Reads (Body.leaf none) k = (_, refl, ((refl, refl, refl, refl), refl))
  body-Reads (Body.leaf (some i)) k = (_, refl, ((refl, refl, refl, refl), refl))
  body-Reads (Body.other t raw) k = absurd k

has_type : (codec : Codec) (b : Body) → IsKept codec b → (type_of b == "") ≡ false
unfolding type_of
has_type codec (Body.message m) k = refl
has_type codec (Body.model_change p m) k = refl
has_type codec (Body.thinking_level_change l) k = refl
has_type codec (Body.compaction s f t d h) k = refl
has_type codec (Body.branch_summary s f d h) k = refl
has_type codec (Body.custom c d) k = refl
has_type codec (Body.custom_message c x d e) k = refl
has_type codec (Body.label t l) k = refl
has_type codec (Body.session_info n) k = refl
has_type codec (Body.leaf t) k = refl
has_type codec (Body.other t raw) k = absurd k

decode-pointer : (p : Option String) → decode_optional_entry_id (pointer p) ≡ some p
unfolding decode_optional_entry_id pointer
decode-pointer none = refl
decode-pointer (some i) = refl

-- The object of an entry.
abbrev object : SessionEntry → Members → Members
object e ms =
    headed (Value.str (type_of e.body)) (Value.str e.id) (pointer e.parent_id)
      (Value.str e.timestamp) ms

encode_entry-object :
    (codec : Codec) (e : SessionEntry) (ms : Members)
    → encode_body codec e.body ≡ some ms
    → encode_entry codec e ≡ some (Value.obj (object e ms))
unfolding encode_entry
encode_entry-object codec e ms h = rw (h, encode_entry) refl

decode_entry-object :
    (codec : Codec) (path : String) (line_number : ℕ) (e : SessionEntry) (ms : Members)
    → (e.id == "") ≡ false
    → (e.timestamp == "") ≡ false
    → (type_of e.body == "") ≡ false
    → IsPayload ms
    → decode_body codec (type_of e.body) (object e ms) ≡ some e.body
    → decode_entry codec path line_number (Value.obj (object e ms)) ≡ ok e
unfolding decode_entry discriminated checked with_parent with_body text_at field read_string
decode_entry-object codec path n e ms hi ht hb (f1, f2, f3, f4) dec =
    rw (f1, f2, f3, f4, hi, ht, hb, decode-pointer e.parent_id, dec) refl

-- An entry with an id and a timestamp, of a type that is known, has a line, and the line is read as
-- the very same entry, where JSON keeps the fields of its type: a message of a provider or of the
-- program, of which the library reads back the provider's message and the counts; content of a custom
-- message that is no typed list of blocks and no bare null or text; an origin of a branch summary that
-- is not the word for none; and a label's target.
pub decode_entry-encode_entry :
    (codec : Codec) (path : String) (line_number : ℕ) (e : SessionEntry)
    → (e.id == "") ≡ false
    → (e.timestamp == "") ≡ false
    → IsKept codec e.body
    → (v : Value) × (encode_entry codec e ≡ some v) × (decode_entry codec path line_number v ≡ ok e)
decode_entry-encode_entry codec path n e hi ht k =
    let (ms, enc, (payload, dec)) =
      body-Reads codec (Value.str (type_of e.body)) (Value.str e.id) (pointer e.parent_id)
        (Value.str e.timestamp) e.body k in
    (
      Value.obj (object e ms),
      encode_entry-object codec e ms enc,
      decode_entry-object codec path n e ms hi ht (has_type codec e.body k) payload dec,
    )
