-- ===== src/Base/Dict.antt =====
-- A dictionary keyed by numbers, as an association list, and sums of a weight over its values.
use Prim.Native.Nat.{ℕ, ◌+◌, ◌≤◌}
use mathlib.Core.Path.{◌≡◌, refl}
use mathlib.Core.Option.{Option, none, some}
use mathlib.Core.List.{List, [], ◌∷◌}
use native.Mathlib.Omega.{arith}
use clustly_solana_escrow.Base.Tests.{◌==◌, if◌then◌else◌}

abbrev pub Dict {ℓ} : Type ℓ → Type ℓ
Dict V = List (ℕ × V)

module _ {ℓ} {V : Type ℓ} where
  unfoldable pub lookup : ℕ → Dict V → Option V
  lookup k [] = none
  lookup k ((j, v) ∷ d) = if j == k then some v else lookup k d

  unfoldable pub insert : ℕ → V → Dict V → Dict V
  insert k v [] = (k, v) ∷ []
  insert k v ((j, u) ∷ d) = if j == k then (k, v) ∷ d else (j, u) ∷ insert k v d

  -- Every entry of the key goes.
  unfoldable pub erase : ℕ → Dict V → Dict V
  erase k [] = []
  erase k ((j, u) ∷ d) = let rest = erase k d in if j == k then rest else (j, u) ∷ rest

  pub lookup-insert :
      (k j : ℕ) (v : V) (d : Dict V)
      → lookup j (insert k v d) ≡ (if k == j then some v else lookup j d)
  unfolding lookup insert
  lookup-insert k j v [] = refl
  lookup-insert k j v ((i, u) ∷ d) = ground (arith, lookup-insert k j v d)

  pub lookup-erase :
      (k j : ℕ) (d : Dict V) → lookup j (erase k d) ≡ (if k == j then none else lookup j d)
  unfolding lookup erase
  lookup-erase k j [] = ground arith
  lookup-erase k j ((i, u) ∷ d) = ground (arith, lookup-erase k j d)

module _ {ℓ} {V : Type ℓ} where
  -- No key is listed twice.
  abbrev pub Distinct : Dict V → Type ℓ
  Distinct [] = Unit
  Distinct ((k, v) ∷ d) = (lookup k d ≡ none) × Distinct d

  pub insert-Distinct : (k : ℕ) (v : V) (d : Dict V) → Distinct d → Distinct (insert k v d)
  unfolding insert lookup
  insert-Distinct k v [] h = (refl, tt)
  insert-Distinct k v ((j, u) ∷ d) h =
      ground (arith, insert-Distinct k v d h.1, lookup-insert k j v d)

  pub erase-Distinct : (k : ℕ) (d : Dict V) → Distinct d → Distinct (erase k d)
  unfolding erase
  erase-Distinct k [] h = tt
  erase-Distinct k ((j, u) ∷ d) h = ground (arith, erase-Distinct k d h.1, lookup-erase k j d)

module _ {ℓ} {V : Type ℓ} (weight : V → ℕ) where
  -- The weight of an entry that may be missing.
  abbrev pub weight_of : Option V → ℕ
  weight_of none = 0
  weight_of (some v) = weight v

  unfoldable pub total : Dict V → ℕ
  total [] = 0
  total ((j, v) ∷ d) = weight v + total d

  pub total-insert :
      (k : ℕ) (v : V) (d : Dict V)
      → total (insert k v d) + weight_of (lookup k d) ≡ total d + weight v
  unfolding total insert lookup
  total-insert k v [] = omega arith
  total-insert k v ((j, u) ∷ d) = ground (arith, total-insert k v d)

  pub weight-le-total : (k : ℕ) (d : Dict V) → weight_of (lookup k d) ≤ total d
  unfolding total lookup
  weight-le-total k [] = omega arith
  weight-le-total k ((j, u) ∷ d) = ground (arith, weight-le-total k d)

  total-erase_absent : (k : ℕ) (d : Dict V) → lookup k d ≡ none → total (erase k d) ≡ total d
  unfolding total erase lookup
  total-erase_absent k [] h = refl
  total-erase_absent k ((j, u) ∷ d) h = ground (arith, total-erase_absent k d)

  pub total-erase :
      (k : ℕ) (d : Dict V) → Distinct d → total (erase k d) + weight_of (lookup k d) ≡ total d
  unfolding total erase lookup
  total-erase k [] h = omega arith
  total-erase k ((j, u) ∷ d) h = ground (arith, total-erase k d h.1, total-erase_absent k d)
