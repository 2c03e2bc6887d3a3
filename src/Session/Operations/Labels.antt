-- ===== src/Session/Operations/Labels.antt =====
-- `AppendLabel`, and the labels that are read afterwards.
use attention.Prelude.{
  ◌≡◌, ◌∙◌, ap, String, List, Option, none, some, trim_space, ◌==◌, Bool-cases, inl, inr,
  if◌then◌else◌,
}
use attention.Prelude.Dict.{get, put, delete, get-put, get-delete}
use attention.Session.Types.{Body, ok}
use attention.Session.Core.{add_entry, update_label_cache, get_label}
use attention.Session.Storage.{SessionStorage, Laws}
use attention.Session.Tree.{IsValid}
use attention.Session.Operations.{append_label, check_entry}
use attention.Session.Operations.Append.{core-append}

-- A label that is blank is none.
abbrev pub shown : String → Option String
shown text = if trim_space text == "" then none else some (trim_space text)

get-set_label :
    (labels : List (String × String)) (target text id : String)
    → get (if text == "" then delete labels target else put labels target text) id
      ≡ (if target == id then (if text == "" then none else some text) else get labels id)
get-set_label labels target text id = elim (Bool-cases (text == "")) [
  | inl blank ↦ rw blank (get-delete labels target id)
  | inr real ↦ rw real (get-put labels target id text)
]

module _ {S : Type 0} {st : SessionStorage S} (laws : Laws st) {s : S}
    (v : IsValid (st.core s)) where
  -- Over every storage that keeps the laws, in a well-formed session: when a known entry is
  -- labelled and the context is not cancelled, the entry has the trimmed text for its label, or
  -- none if that is blank, and every other id has the label that it had.
  pub append_label-get_label :
      (now target text : String)
      → check_entry target (st.core s) ≡ ok tt
      → (id : String)
      → get_label id (st.core (append_label st none now target text s).1)
        ≡ (if target == id then shown text else get_label id (st.core s))
  unfolding append_label get_label add_entry update_label_cache
  append_label-get_label now target text known id = rw known (
      ap (λ c. get c.labels id) (core-append laws v now (Body.label (some target) text))
      ∙ get-set_label (st.core s).labels target (trim_space text) id)
