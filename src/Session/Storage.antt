-- ===== src/Session/Storage.antt =====
-- The interface `SessionStorage` (internal/session/types.go), and actions on a storage. Its reading
-- methods (`GetLeafID`, `GetEntry`, `FindEntries`, `GetLabel`, `GetPathToRoot`, `GetEntries`) are
-- the same text in both storages, so they are functions of the core that a storage keeps.
pub mod After
use attention.Prelude.{◌≡◌, String, Option, none}
use attention.Prelude.Dict.{get}
use attention.Session.Types.{SessionEntry, Result, ok, err, diverges, panics, Error}
use attention.Session.Core.{Core, add_entry, move_leaf, check_leaf}

-- A method returns its result, and the state that it leaves also where it fails.
abbrev pub Action : Type 0 → Type 0 → Type 0
Action S A = S → Result A × S

module _ {S A : Type 0} where
  abbrev pub pure : A → Action S A
  pure a s = (ok a, s)

  abbrev pub lift : Result A → Action S A
  lift r s = (r, s)

  abbrev pub gets : (S → Result A) → Action S A
  gets f s = (f s, s)

module _ {S A B : Type 0} where
  abbrev pub continue : Result A → (A → Action S B) → Action S B
  continue (ok a) f s = f a s
  continue (err e) f s = (err e, s)
  continue diverges f s = (diverges, s)
  continue panics f s = (panics, s)

  infixl 5 ◌>>=◌ ◌>>◌
  abbrev pub ◌>>=◌ : Action S A → (A → Action S B) → Action S B
  ◌>>=◌ m f s = let (r, s') = m s in continue r f s'

  abbrev pub ◌>>◌ : Action S A → Action S B → Action S B
  m >> n = m >>= λ _. n

-- The operations that change a storage; `now` is the clock's reading (`newTimestamp`).
pub record SessionStorage (S : Type 0) : Type 0 where
  pub core : S → Core
  pub create_entry_id : S → String × S
  pub append_entry : SessionEntry → Action S (Unit {0})
  pub set_leaf_id : (now : String) → Option String → Action S (Unit {0})

-- What a storage promises. A write to the disk may fail; the core has taken the entry all the same.
pub record Laws {S : Type 0} (st : SessionStorage S) : Type 0 where
  pub core-create_entry_id : (s : S) → st.core (st.create_entry_id s).1 ≡ st.core s
  pub core-append_entry :
      (e : SessionEntry) (s : S) → st.core (st.append_entry e s).1 ≡ add_entry e (st.core s)
  pub core-set_leaf_id :
      (now : String) (target : Option String) (s : S)
      → check_leaf target (st.core s) ≡ ok tt
      → st.core (st.set_leaf_id now target s).1
        ≡ move_leaf (st.create_entry_id s).0 now target (st.core s)
  pub set_leaf_id-refused :
      (now : String) (target : Option String) (s : S) (x : Error)
      → check_leaf target (st.core s) ≡ err x
      → st.set_leaf_id now target s ≡ (err x, s)

-- The next id that the storage creates is not taken.
abbrev pub IsFresh : {S : Type 0} → SessionStorage S → S → Type 0
IsFresh st s = get (st.core s).by_id (st.create_entry_id s).0 ≡ none
