-- ===== src/Session/Migrate/Chained.antt =====
-- A migrated file of version 1 is one chain of entries.
use attention.Prelude.{
  ◌≡◌, refl, sym, ap, ◌∙◌, subst, ℕ, String, true, false, List, [], ◌∷◌, ◌++◌, Option, none, some,
  ◌⊎◌, inl, inr, ◌==◌, Bool-cases, All, if◌then◌else◌,
}
use attention.Prelude.Dict.{get, put, delete, get-put, get-delete}
use attention.Value.{Value}
use attention.Session.Types.{Error, ok, panics, ◌>>=◌}
use attention.Session.Migrate.{
  FileEntry, FileLine, rewrite, is_text, replace_index, resolve_at, resolve_index, rename_role,
  role_is_hook, v2_message, has_text, is_header, generate_id, resolve_kept, link, v1_loop,
  migrate_v1_to_v2, v2_entry, migrate_v2_to_v3, file_version, migrate_session_file,
}

-- From `p` on every entry but a header has an id, and the id before it for its parent; the last is
-- `q`. No line is a nil map.
abbrev pub ChainTo : (p : Value) → List FileLine → (q : Value) → Type 0
ChainTo p [] q = p ≡ q
ChainTo p (none ∷ es) q = ⊥
ChainTo p (some e ∷ es) q =
    ((is_header e ≡ true) × ChainTo p es q)
    ⊎ ((id : String) × (is_header e ≡ false)
        × (get e "parentId" ≡ some p)
        × (get e "id" ≡ some (Value.str id))
        × ChainTo (Value.str id) es q)

-- No line was read as a nil map.
abbrev pub IsRead : FileLine → Type 0
IsRead none = ⊥
IsRead (some e) = Unit

ChainTo-append :
    (p q r : Value) (xs ys : List FileLine)
    → ChainTo p xs q
    → ChainTo q ys r
    → ChainTo p (xs ++ ys) r
ChainTo-append p q r [] ys a b = subst (λ v. ChainTo v ys r) (sym a) b
ChainTo-append p q r (none ∷ xs) ys a b = absurd a
ChainTo-append p q r (some x ∷ xs) ys (inl (h, a)) b = inl (h, ChainTo-append p q r xs ys a b)
ChainTo-append p q r (some x ∷ xs) ys (inr (id, h, pa, i, a)) b =
    inr (id, h, pa, i, ChainTo-append (Value.str id) q r xs ys a b)

-- Two entries of the same type.
is_header-get : (e f : FileEntry) → get f "type" ≡ get e "type" → is_header f ≡ is_header e
unfolding is_header has_text
is_header-get e f h = ap (λ o. is_text o "session") h

-- The other keys.
get-put_other :
    (e : FileEntry) (j : String) (v : Value) (k : String)
    → (j == k) ≡ false
    → get (put e j v) k ≡ get e k
get-put_other e j v k h = get-put e j k v ∙ ap (λ b. if b then some v else get e k) h

get-delete_other : (e : FileEntry) (j k : String) → (j == k) ≡ false → get (delete e j) k ≡ get e k
get-delete_other e j k h = get-delete e j k ∙ ap (λ b. if b then none else get e k) h

module _ (new_random_id : ℕ → String) (read_index : String → Option ℕ) where
  module _ (k : String) (h : ("firstKeptEntryId" == k) ≡ false)
      (h' : ("firstKeptEntryIndex" == k) ≡ false) where
    get-replace_index :
        (v : Option Value) (e : FileEntry)
        → get (replace_index new_random_id read_index v e) k ≡ get e k
    unfolding replace_index
    get-replace_index none e = get-delete_other e "firstKeptEntryIndex" k h'
    get-replace_index (some v) e =
        get-delete_other (put e "firstKeptEntryId" v) "firstKeptEntryIndex" k h'
        ∙ get-put_other e "firstKeptEntryId" v k h

    get-resolve_at :
        (files : List FileLine) (i : Option ℕ) (e : FileEntry)
        → get (resolve_at new_random_id read_index files i e) k ≡ get e k
    unfolding resolve_at
    get-resolve_at files none e = get-replace_index none e
    get-resolve_at files (some i) e = get-replace_index _ e

    get-resolve_index :
        (files : List FileLine) (v : Option Value) (e : FileEntry)
        → get (resolve_index new_random_id read_index files v e) k ≡ get e k
    unfolding resolve_index
    get-resolve_index files none e = refl
    get-resolve_index files (some Value.null) e = refl
    get-resolve_index files (some (Value.bool b)) e = refl
    get-resolve_index files (some (Value.num t)) e = get-resolve_at files (read_index t) e
    get-resolve_index files (some (Value.str s)) e = refl
    get-resolve_index files (some (Value.arr xs)) e = refl
    get-resolve_index files (some (Value.obj ms)) e = refl

    get-resolve_kept :
        (files : List FileLine) (e : FileEntry)
        → get (resolve_kept new_random_id read_index files e) k ≡ get e k
    unfolding resolve_kept
    get-resolve_kept files e = elim (Bool-cases (has_text e "type" "compaction")) [
      | inl b ↦ rw b (get-resolve_index files (get e "firstKeptEntryIndex") e)
      | inr b ↦ rw b refl
    ]

  v1_loop-ChainTo :
      (done : List FileLine) (ids : List String) (n : ℕ) (previous : Value) (es : List FileLine)
      → All IsRead es
      → ChainTo Value.null done previous
      → (out : List FileLine) × (v1_loop new_random_id read_index done ids n previous es ≡ ok out)
        × ((last : Value) × ChainTo Value.null out last)
  unfolding v1_loop link
  v1_loop-ChainTo done ids n previous [] r a = (done, refl, (previous, a))
  v1_loop-ChainTo done ids n previous (none ∷ es) (r, rs) a = absurd r
  v1_loop-ChainTo done ids n previous (some e ∷ es) (r, rs) a = elim (Bool-cases (is_header e)) [
    | inl h ↦
        rw (h, v1_loop)
          (let e' = put e "version" (Value.num "2") in
            v1_loop-ChainTo (done ++ some e' ∷ []) ids n previous es rs (
              ChainTo-append Value.null previous previous done (some e' ∷ []) a
                (inl (is_header-get e e' (get-put e "version" "type" (Value.num "2")) ∙ h, refl))))
    | inr h ↦
        rw (h, v1_loop)
          (let (id, n') = generate_id new_random_id read_index 100 ids n in
            let linked = link id previous e in
            let files = done ++ some linked ∷ es in
            let e' = resolve_kept new_random_id read_index files linked in
            v1_loop-ChainTo (done ++ some e' ∷ []) (id ∷ ids) n' (Value.str id) es rs (
              ChainTo-append Value.null previous (Value.str id) done (some e' ∷ []) a (
                inr (
                  id,
                  is_header-get e e' (
                        get-resolve_kept "type" refl refl files linked
                        ∙ (get-put (put e "id" (Value.str id)) "parentId" "type" previous
                            ∙ get-put e "id" "type" (Value.str id)))
                      ∙ h,
                  get-resolve_kept "parentId" refl refl files linked
                      ∙ get-put (put e "id" (Value.str id)) "parentId" "parentId" previous,
                  get-resolve_kept "id" refl refl files linked
                      ∙ (get-put (put e "id" (Value.str id)) "parentId" "id" previous
                          ∙ get-put e "id" "id" (Value.str id)),
                  refl,
                ))))
  ]

  -- Behind the first nil map nothing is read.
  v1_loop-panics :
      (es fs : List FileLine) (done : List FileLine) (ids : List String) (n : ℕ) (previous : Value)
      → v1_loop new_random_id read_index done ids n previous (es ++ none ∷ fs) ≡ panics
  unfolding v1_loop
  v1_loop-panics [] fs done ids n previous = refl
  v1_loop-panics (none ∷ es) fs done ids n previous = refl
  v1_loop-panics (some e ∷ es) fs done ids n previous = elim (Bool-cases (is_header e)) [
    | inl h ↦ rw (h, v1_loop) (v1_loop-panics es fs _ ids n previous)
    | inr h ↦ rw (h, v1_loop) (v1_loop-panics es fs _ _ _ _)
  ]

get-v2_message :
    (v : Option Value) (e : FileEntry) (k : String)
    → ("message" == k) ≡ false
    → get (v2_message v e) k ≡ get e k
unfolding v2_message
get-v2_message none e k h = refl
get-v2_message (some Value.null) e k h = refl
get-v2_message (some (Value.bool b)) e k h = refl
get-v2_message (some (Value.num t)) e k h = refl
get-v2_message (some (Value.str s)) e k h = refl
get-v2_message (some (Value.arr xs)) e k h = refl
get-v2_message (some (Value.obj ms)) e k h = elim (Bool-cases (role_is_hook ms)) [
  | inl b ↦ rw b (get-put_other e "message" (Value.obj (rename_role ms)) k h)
  | inr b ↦ rw b refl
]

get-v2_entry :
    (e : FileEntry) (k : String)
    → ("version" == k) ≡ false
    → ("message" == k) ≡ false
    → get (v2_entry e) k ≡ get e k
unfolding v2_entry
get-v2_entry e k h h' = elim (Bool-cases (is_header e)) [
  | inl b ↦ rw b (get-put_other e "version" (Value.num "3") k h)
  | inr b ↦ elim (Bool-cases (has_text e "type" "message")) [
    | inl c ↦ rw (b, c) (get-v2_message (get e "message") e k h')
    | inr c ↦ rw (b, c) refl
  ]
]

migrate_v2_to_v3-ChainTo :
    (es : List FileLine) (p q : Value) → ChainTo p es q → ChainTo p (migrate_v2_to_v3 es) q
unfolding migrate_v2_to_v3
migrate_v2_to_v3-ChainTo [] p q a = a
migrate_v2_to_v3-ChainTo (none ∷ es) p q a = absurd a
migrate_v2_to_v3-ChainTo (some e ∷ es) p q (inl (h, a)) = inl (
  is_header-get e (v2_entry e) (get-v2_entry e "type" refl refl) ∙ h,
  migrate_v2_to_v3-ChainTo es p q a,
)
migrate_v2_to_v3-ChainTo (some e ∷ es) p q (inr (id, h, pa, i, a)) = inr (
  id,
  is_header-get e (v2_entry e) (get-v2_entry e "type" refl refl) ∙ h,
  get-v2_entry e "parentId" refl refl ∙ pa,
  get-v2_entry e "id" refl refl ∙ i,
  migrate_v2_to_v3-ChainTo es (Value.str id) q a,
)

-- A file of version 1 without a line `null` is migrated: in what it becomes every entry but the header
-- has an id, and for its parent the entry before it, the first one none, whatever the entries held
-- under these keys. Where it cannot be written, that is the error.
pub migrate_session_file-ChainTo :
    (new_random_id : ℕ → String) (read_index : String → Option ℕ) (read_version : String → ℕ)
    (write : Option Error) (files : List FileLine)
    → file_version read_version files ≡ 1
    → All IsRead files
    → (out : List FileLine) × (migrate_session_file new_random_id read_index read_version write
          files
        ≡ rewrite write out)
      × ((last : Value) × ChainTo Value.null out last)
unfolding migrate_session_file migrate_v1_to_v2
migrate_session_file-ChainTo new_random_id read_index read_version write files h rs =
    let (out, e, (last, a)) =
      v1_loop-ChainTo new_random_id read_index [] [] 0 Value.null files rs refl in
    (
      migrate_v2_to_v3 out,
      rw h (ap (λ r. r >>= λ linked. rewrite write (migrate_v2_to_v3 linked)) e),
      (last, migrate_v2_to_v3-ChainTo out Value.null last a),
    )

-- A line `null` anywhere in a file of version 1 makes the migration panic.
pub migrate_session_file-panics :
    (new_random_id : ℕ → String) (read_index : String → Option ℕ) (read_version : String → ℕ)
    (write : Option Error) (before behind : List FileLine)
    → file_version read_version (before ++ none ∷ behind) ≡ 1
    → migrate_session_file new_random_id read_index read_version write (before ++ none ∷ behind)
      ≡ panics
unfolding migrate_session_file migrate_v1_to_v2
migrate_session_file-panics new_random_id read_index read_version write before behind h = rw h (
    ap (λ r. r >>= λ linked. rewrite write (migrate_v2_to_v3 linked))
      (v1_loop-panics new_random_id read_index before behind [] [] 0 Value.null))
