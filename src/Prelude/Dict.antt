-- ===== src/Prelude/Dict.antt =====
-- A Go map as an association list. Its order stands for the unspecified order of `range`.
use Prim.Native.Nat.{◌+◌, ◌≤◌}
use mathlib.Core.Path.{◌≡◌, refl}
use mathlib.Core.Logic.{inl, inr}
use mathlib.Core.Bool.{Bool, true, false}
use mathlib.Core.Option.{Option, none, some}
use mathlib.Core.List.{List, [], ◌∷◌, map}
use native.Mathlib.Omega.{arith}
use p2pool_go_vtc.Prelude.Tests.{if◌then◌else◌, Bool-cases}
use p2pool_go_vtc.Prelude.Lists.{length}
use p2pool_go_vtc.Prelude.Eq.{Eq}

abbrev pub Dict {ℓ κ} : Type ℓ → Type κ → Type (ℓ ⊔ κ)
Dict K V = List (K × V)

abbrev pub keys {ℓ κ} : {K : Type ℓ} {V : Type κ} → Dict K V → List K
keys m = map (λ e. e.0) m

module _ {ℓ κ} {K : Type ℓ} {V : Type κ} ⦃eq : Eq K⦄ where
  abbrev pub lookup : K → Dict K V → Option V
  lookup k [] = none
  lookup k (e ∷ m) = if eq.beq e.0 k then some e.1 else lookup k m

  -- `_, ok := m[k]`
  abbrev pub has : K → Dict K V → Bool
  has k m = elim (lookup k m) [ none ↦ false | some v ↦ true ]

  -- `m[k]` with the zero value of the type.
  abbrev pub get_or : V → K → Dict K V → V
  get_or d k m = elim (lookup k m) [ none ↦ d | some v ↦ v ]

  -- `m[k] = v`
  abbrev pub insert : K → V → Dict K V → Dict K V
  insert k v [] = (k, v) ∷ []
  insert k v (e ∷ m) = if eq.beq e.0 k then (k, v) ∷ m else e ∷ insert k v m

  -- `delete(m, k)`
  abbrev pub erase : K → Dict K V → Dict K V
  erase k [] = []
  erase k (e ∷ m) = let rest = erase k m in if eq.beq e.0 k then rest else e ∷ rest

  pub lookup-insert :
      (k j : K) (v : V) (m : Dict K V)
      → lookup j (insert k v m) ≡ (if eq.beq k j then some v else lookup j m)
  lookup-insert k j v [] = refl
  lookup-insert k j v (e ∷ m) =
      ground (arith, eq.beq_iff k j, eq.beq_iff e.0 k, eq.beq_iff e.0 j, lookup-insert k j v m)

  pub lookup-erase :
      (k j : K) (m : Dict K V) → lookup j (erase k m) ≡ (if eq.beq k j then none else lookup j m)
  lookup-erase k j [] = ground arith
  lookup-erase k j (e ∷ m) =
      ground (arith, eq.beq_iff k j, eq.beq_iff e.0 k, eq.beq_iff e.0 j, lookup-erase k j m)

  pub length-insert-le : (k : K) (v : V) (m : Dict K V) → length (insert k v m) ≤ length m + 1
  length-insert-le k v [] = omega arith
  length-insert-le k v (e ∷ m) = ground (arith, length-insert-le k v m)

  pub length-erase-le : (k : K) (m : Dict K V) → length (erase k m) ≤ length m
  length-erase-le k [] = omega arith
  length-erase-le k (e ∷ m) = ground (arith, length-erase-le k m)

  -- No key stands twice.
  abbrev pub Distinct : Dict K V → Type κ
  Distinct [] = Unit
  Distinct (e ∷ m) = (lookup e.0 m ≡ none) × Distinct m

  pub insert-Distinct : (k : K) (v : V) (m : Dict K V) → Distinct m → Distinct (insert k v m)
  insert-Distinct k v [] d = (refl, tt)
  insert-Distinct k v (e ∷ m) d = elim (Bool-cases (eq.beq e.0 k)) [
    | inl same ↦ rw same (ground (arith, eq.beq_iff e.0 k), d.1)
    | inr other ↦ rw other (
      ground (arith, lookup-insert k e.0 v m, eq.beq_iff e.0 k, eq.beq_iff k e.0),
      insert-Distinct k v m d.1,
    )
  ]

  pub erase-Distinct : (k : K) (m : Dict K V) → Distinct m → Distinct (erase k m)
  erase-Distinct k [] d = tt
  erase-Distinct k (e ∷ m) d = elim (Bool-cases (eq.beq e.0 k)) [
    | inl same ↦ rw same (erase-Distinct k m d.1)
    | inr other ↦ rw other (ground (arith, lookup-erase k e.0 m), erase-Distinct k m d.1)
  ]
