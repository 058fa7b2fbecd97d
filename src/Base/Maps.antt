-- ===== src/Base/Maps.antt =====
-- JavaScript's `Map` and objects with string keys, in the order of insertion.
use Prim.Native.String.{String}
use mathlib.Core.Path.{◌≡◌}
use mathlib.Core.Bool.{Bool, false, not, ◌&&◌}
use mathlib.Core.Logic.{inl, inr}
use mathlib.Core.Option.{Option, none, some}
use mathlib.Core.List.{List, [], ◌∷◌, ◌++◌, map}
use native.Mathlib.Omega.{arith}
use text.Mathlib.TextEquality.{eq_iff}
use rdfm.Base.Lists.{find, any, filter}
use rdfm.Base.Tests.{Bool-cases, ◌==◌, string_eq, if◌then◌else◌}

abbrev get {ℓ} : {V : Type ℓ} → Option (String × V) → Option V
get none = none
get (some e) = some e.1

module _ {ℓ} {V : Type ℓ} where
  -- `map.get(k)`
  unfoldable pub lookup : String → List (String × V) → Option V
  lookup k m = get (find (λ e. e.0 == k) m)

  -- `map.has(k)`
  unfoldable pub has : String → List (String × V) → Bool
  has k m = any (λ e. e.0 == k) m

  abbrev put : String → V → String × V → String × V
  put k v e = if e.0 == k then (k, v) else e

  -- `map.set(k, v)`: a key that is there keeps its place.
  unfoldable pub insert : String → V → List (String × V) → List (String × V)
  unfolding has
  insert k v m = if has k m then map (put k v) m else m ++ (k, v) ∷ []

  -- `map.delete(k)`
  unfoldable pub erase : String → List (String × V) → List (String × V)
  erase k m = filter (λ e. not (e.0 == k)) m

  lookup-put :
      (k j : String) (v : V) (m : List (String × V))
      → lookup j (map (put k v) m) ≡ (if (k == j) && has k m then some v else lookup j m)
  unfolding lookup has
  lookup-put k j v [] = ground arith
  lookup-put k j v (e ∷ m) =
      ground (arith, lookup-put k j v m, eq_iff k j, eq_iff e.0 k, eq_iff e.0 j)

  lookup-append :
      (k j : String) (v : V) (m : List (String × V))
      → has k m ≡ false
      → lookup j (m ++ (k, v) ∷ []) ≡ (if k == j then some v else lookup j m)
  unfolding lookup has
  lookup-append k j v [] h = ground arith
  lookup-append k j v (e ∷ m) h =
      ground (arith, lookup-append k j v m, eq_iff k j, eq_iff e.0 k, eq_iff e.0 j)

  pub lookup-insert :
      (key other : String) (v : V) (m : List (String × V))
      → lookup other (insert key v m) ≡ (if key == other then some v else lookup other m)
  unfolding insert
  lookup-insert key other v m = elim (Bool-cases (has key m)) [
    | inl old ↦ rw (old, lookup-put, old) (ground arith)
    | inr new ↦ rw new (lookup-append key other v m new)
  ]

  pub lookup-erase :
      (k j : String) (m : List (String × V))
      → lookup j (erase k m) ≡ (if k == j then none else lookup j m)
  unfolding lookup erase
  lookup-erase k j [] = ground arith
  lookup-erase k j (e ∷ m) =
      ground (arith, lookup-erase k j m, eq_iff e.0 k, eq_iff e.0 j, eq_iff k j)
