-- ===== src/Common/Maps.antt =====
-- `std::map`, as the list of its entries in the order of insertion, with the test of its keys.
use mathlib.Core.Bool.{Bool}
use mathlib.Core.Option.{Option, none, some}
use mathlib.Core.List.{List, [], ◌∷◌, ◌++◌}
use mathlib.Core.Path.{◌≡◌, subst}
use latypus.Common.Lists.{All}
use latypus.Common.Tests.{if◌then◌else◌, Bool-cases}
use mathlib.Core.Logic.{inl, inr}

module _ {ℓ κ} {K : Type ℓ} {V : Type κ} (same : K → K → Bool) where
  unfoldable pub find : List (K × V) → K → Option V
  find [] key = none
  find ((k, v) ∷ entries) key = if same k key then some v else find entries key

  -- An entry whose key is there already is not inserted.
  unfoldable pub insert : List (K × V) → K → V → List (K × V)
  unfolding find
  insert entries key value = elim (find entries key) [
    | none ↦ entries ++ ((key, value) ∷ [])
    | some v ↦ entries
  ]

  unfoldable pub insert_all : List (K × V) → List (K × V) → List (K × V)
  unfolding insert
  insert_all entries [] = entries
  insert_all entries ((k, v) ∷ table) = insert_all (insert entries k v) table

-- What holds of every value holds of one that is found.
pub find-All {ℓ κ ι} :
    {K : Type ℓ} {V : Type κ} (P : V → Type ι) (same : K → K → Bool) (table : List (K × V))
    (key : K) (v : V)
    → All (λ (e : K × V). P e.1) table
    → find same table key ≡ some v
    → P v
unfolding find
find-All P same [] key v h e = cc
find-All P same ((k, x) ∷ table) key v (p, h) e = elim (Bool-cases (same k key)) [
  | inl f ↦
      let first : some x ≡ some v = rw f at e in let same_value : x ≡ v = cc in subst P same_value p
  | inr f ↦ find-All P same table key v h (rw f at e)
]
