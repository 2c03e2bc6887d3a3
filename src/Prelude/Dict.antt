-- ===== src/Prelude/Dict.antt =====
-- Go's `map[string]V` as an association list: reading, writing and deleting a key.
use Prim.Native.String.{String}
use text.Mathlib.Text.{◌==◌}
use text.Mathlib.TextEquality.{eq_iff}
use mathlib.Core.Path.{◌≡◌, refl}
use mathlib.Core.Bool.{Bool, true, false}
use mathlib.Core.Option.{Option, none, some}
use mathlib.Core.List.{List, [], ◌∷◌}
use native.Mathlib.Omega.{arith}
use attention.Prelude.Tests.{if◌then◌else◌}

module _ {ℓ} {V : Type ℓ} where
  -- `v, ok := m[k]`
  unfoldable pub get : List (String × V) → String → Option V
  get [] k = none
  get ((i, v) ∷ m) k = if i == k then some v else get m k

  -- `m[k] = v`
  unfoldable pub put : List (String × V) → String → V → List (String × V)
  put [] k v = (k, v) ∷ []
  put ((i, w) ∷ m) k v = if i == k then (k, v) ∷ m else (i, w) ∷ put m k v

  -- `delete(m, k)`
  unfoldable pub delete : List (String × V) → String → List (String × V)
  delete [] k = []
  delete ((i, w) ∷ m) k = let rest = delete m k in if i == k then rest else (i, w) ∷ rest

  abbrev pub has : List (String × V) → String → Bool
  has m k = elim (get m k) [ none ↦ false | some _ ↦ true ]

  pub get-put :
      (m : List (String × V)) (k j : String) (v : V)
      → get (put m k v) j ≡ (if k == j then some v else get m j)
  unfolding get put
  get-put [] k j v = refl
  get-put ((i, w) ∷ m) k j v = ground (arith, eq_iff k j, eq_iff i k, eq_iff i j, get-put m k j v)

  pub get-delete :
      (m : List (String × V)) (k j : String)
      → get (delete m k) j ≡ (if k == j then none else get m j)
  unfolding get delete
  get-delete [] k j = ground arith
  get-delete ((i, w) ∷ m) k j = ground (arith, eq_iff k j, eq_iff i k, eq_iff i j, get-delete m k j)
