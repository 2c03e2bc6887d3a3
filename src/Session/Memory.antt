-- ===== src/Session/Memory.antt =====
-- internal/session/memory.go: `InMemorySessionStorage`. `newRandomID` draws on the system's random
-- source and clock; its values are a parameter, and the storage counts how many were drawn.
use attention.Prelude.{ℕ, zero, suc, ◌≡◌, refl, String, slice, Option, none, arith, if◌then◌else◌}
use attention.Prelude.Dict.{get, has}
use attention.Session.Types.{SessionEntry, Metadata, ok, err, diverges, panics}
use attention.Session.Core.{Core, empty, add_entry, move_leaf, check_leaf}
use attention.Session.Storage.{Action, SessionStorage, Laws}

pub record MemoryStorage : Type 0 where
  pub metadata : Metadata
  pub core : Core
  pub drawn : ℕ

unfoldable pub new_storage : (id cwd now : String) → MemoryStorage
new_storage id cwd now = record {
  metadata = record { id = id; cwd = cwd; created_at = now; path = ""; parent_session_path = "" };
  core = empty;
  drawn = 1;
}

module _ (new_random_id : ℕ → String) where
  -- The loop of `createEntryIDLocked`: short ids, and a whole one after so many collisions. The
  -- second value is how many ids are drawn then.
  unfoldable pub draw_id : ℕ → Core → ℕ → String × ℕ
  draw_id zero c n = (new_random_id n, suc n)
  draw_id (suc tries) c n =
      let id = slice (new_random_id n) 0 8 in
      let again = draw_id tries c (suc n) in if has c.by_id id then again else (id, suc n)

  -- With any number of tries, an id that is drawn is not in the index, if none of the whole ids,
  -- of which the short ones are cut, is in it.
  pub draw_id-fresh :
      (tries : ℕ) (c : Core) (n : ℕ)
      → ((k : ℕ) → get c.by_id (new_random_id k) ≡ none)
      → get c.by_id (draw_id tries c n).0 ≡ none
  unfolding draw_id
  draw_id-fresh zero c n whole = whole n
  draw_id-fresh (suc tries) c n whole = ground (arith, draw_id-fresh tries c (suc n) whole)

  abbrev max_tries : ℕ
  max_tries = 100

  unfoldable pub create_entry_id : MemoryStorage → String × MemoryStorage
  create_entry_id s =
      let (id, drawn) = draw_id max_tries s.core s.drawn in (id, record s { drawn = drawn })

  unfoldable pub append_entry : SessionEntry → Action MemoryStorage (Unit {0})
  append_entry entry s = (ok tt, record s { core = add_entry entry s.core })

  unfoldable pub set_leaf_id : (now : String) → Option String → Action MemoryStorage (Unit {0})
  unfolding create_entry_id
  set_leaf_id now target s = elim (check_leaf target s.core) [
    | ok _ ↦
        let (id, s') = create_entry_id s in
        (ok tt, record s' { core = move_leaf id now target s'.core })
    | err e ↦ (err e, s)
    | diverges ↦ (diverges, s)
    | panics ↦ (panics, s)
  ]

  abbrev pub memory : SessionStorage MemoryStorage
  memory = record {
    core = λ s. s.core;
    create_entry_id = create_entry_id;
    append_entry = append_entry;
    set_leaf_id = set_leaf_id;
  }

  pub memory-Laws : Laws memory
  unfolding create_entry_id append_entry set_leaf_id
  memory-Laws = record {
    core-create_entry_id = λ s. refl;
    core-append_entry = λ e s. refl;
    core-set_leaf_id = λ now target s h. ground arith;
    set_leaf_id-refused = λ now target s x h. ground arith;
  }
