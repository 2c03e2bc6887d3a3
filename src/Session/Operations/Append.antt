-- ===== src/Session/Operations/Append.antt =====
-- Appending an entry: what it does to the core, over every storage that keeps the laws.
use attention.Prelude.{
  ◌≡◌, refl, sym, ◌∙◌, ap, String, List, [], ◌∷◌, ◌++◌, none, some, inl, inr, arith, Option-cases,
}
use attention.Session.Types.{Body, SessionEntry, Result, ok, err, diverges, panics}
use attention.Session.Core.{Core, add_entry, get_leaf_id, get_path_to_root, leaf_id_after_entry}
use attention.Session.Storage.{pure, continue, SessionStorage, Laws, IsFresh}
use attention.Session.Tree.{IsValid}
use attention.Session.Tree.Grow.{Fits, add_entry-IsValid}
use attention.Session.Tree.Path.{
  IsKnown, get_path_to_root-add_entry, get_path_to_root-add_entry_known,
}
use attention.Session.Operations.{append, get_branch}

-- The leaf of a well-formed session is never refused.
pub get_leaf_id_lem : {c : Core} → IsValid c → get_leaf_id c ≡ ok c.leaf_id
unfolding get_leaf_id
get_leaf_id_lem {c} v = elim (Option-cases c.leaf_id) [
  | inl e ↦ rw e
  | inr (id, e) ↦ let (i, at) = v.leaf_known id e in rw e (ground (arith, at))
]

pub continue-pure :
    {S A B : Type 0} (r : Result A) (b : B) (s : S) → (continue r (λ _. pure b) s).1 ≡ s
continue-pure (ok a) b s = refl
continue-pure (err e) b s = refl
continue-pure diverges b s = refl
continue-pure panics b s = refl

-- A body that moves the leaf to its own entry: every one but `leaf`.
abbrev pub IsPlain : Body → Type 0
IsPlain (Body.leaf t) = ⊥
IsPlain _ = Unit

pub leaf_id_after-IsPlain :
    (e : SessionEntry) (b : Body) → e.body ≡ b → IsPlain b → leaf_id_after_entry e ≡ some e.id
unfolding leaf_id_after_entry
leaf_id_after-IsPlain e (Body.leaf t) h p = absurd p
leaf_id_after-IsPlain e (Body.message m) h p = rw h
leaf_id_after-IsPlain e _ h p = rw h

module _ {S : Type 0} (st : SessionStorage S) where
  -- The entry that an append with this body writes.
  abbrev pub new_entry : S → (now : String) → Body → SessionEntry
  new_entry s now body = record {
    id = (st.create_entry_id s).0;
    parent_id = (st.core s).leaf_id;
    timestamp = now;
    body = body;
  }

-- In a well-formed session the branch without an id is that of the leaf.
pub get_branch_lem :
    {S : Type 0} (st : SessionStorage S) (s : S)
    → IsValid (st.core s)
    → get_branch st none s ≡ get_path_to_root (st.core s).leaf_id (st.core s)
unfolding get_branch
get_branch_lem st s v = rw (get_leaf_id_lem v, get_branch)

module _ {S : Type 0} {st : SessionStorage S} (laws : Laws st) {s : S}
    (v : IsValid (st.core s)) where
  pub core-append :
      (now : String) (body : Body)
      → st.core (append st none now body s).1 ≡ add_entry (new_entry st s now body) (st.core s)
  unfolding append
  core-append now body = rw (get_leaf_id_lem v) (
      ap st.core (continue-pure (st.append_entry (new_entry st s now body) s').0 id _)
      ∙ laws.core-append_entry (new_entry st s now body) s'
      ∙ ap (add_entry (new_entry st s now body)) (laws.core-create_entry_id s))
    where
      s' : S
      s' = (st.create_entry_id s).1

      id : String
      id = (st.create_entry_id s).0

  pub new_entry-Fits :
      IsFresh st s
      → (now : String) (body : Body) → IsPlain body
      → Fits (st.core s) (new_entry st s now body)
  new_entry-Fits fresh now body plain = record {
    fresh = fresh;
    parent_known = v.leaf_known;
    target_known = λ t h. inl (own t h);
  }
    where
      own :
          (t : String)
          → leaf_id_after_entry (new_entry st s now body) ≡ some t
          → t ≡ (st.create_entry_id s).0
      own t h = ground (arith, leaf_id_after-IsPlain (new_entry st s now body) body refl plain)

  pub append-IsValid :
      IsFresh st s
      → (now : String) (body : Body) → IsPlain body
      → IsValid (st.core (append st none now body s).1)
  append-IsValid fresh now body plain =
      rw (core-append now body) (add_entry-IsValid v (new_entry-Fits fresh now body plain))

  leaf-append :
      (now : String) (body : Body)
      → IsPlain body
      → (st.core (append st none now body s).1).leaf_id ≡ some (st.create_entry_id s).0
  unfolding add_entry
  leaf-append now body plain =
      ap (λ c. c.leaf_id) (core-append now body)
      ∙ leaf_id_after-IsPlain (new_entry st s now body) body refl plain

  -- Over every storage that keeps the laws, in a well-formed session whose next id is new: when an
  -- entry whose body is no `leaf` is appended and the context is not cancelled, the leaf's branch
  -- afterwards is the branch before it followed by the new entry.
  pub get_branch-append :
      IsFresh st s
      → (now : String) (body : Body) → IsPlain body
      → (path : List SessionEntry) → get_branch st none s ≡ ok path
      → get_branch st none (append st none now body s).1 ≡ ok (path ++ new_entry st s now body ∷ [])
  get_branch-append fresh now body plain path h =
      get_branch_lem st _ (append-IsValid fresh now body plain)
      ∙ ap (λ x. get_path_to_root x (st.core (append st none now body s).1))
          (leaf-append now body plain)
      ∙ ap (get_path_to_root (some (st.create_entry_id s).0)) (core-append now body)
      ∙ get_path_to_root-add_entry v (new_entry-Fits fresh now body plain) path
          (sym (get_branch_lem st s v) ∙ h)

  -- Over every storage that keeps the laws, in a well-formed session whose next id is new: when an
  -- entry whose body is no `leaf` is appended and the context is not cancelled, the branch of
  -- every entry that the index knew is what it was before.
  pub get_branch-append_known :
      IsFresh st s
      → (now : String) (body : Body) → IsPlain body
      → (id : String) → IsKnown (st.core s) (some id)
      → get_branch st (some id) (append st none now body s).1 ≡ get_branch st (some id) s
  unfolding get_branch
  get_branch-append_known fresh now body plain id k =
      rw (core-append now body)
        (get_path_to_root-add_entry_known v (new_entry-Fits fresh now body plain) (some id) k)
