-- ===== src/Common/Dict.antt =====
-- A Python dict as an association list in insertion order.
use mathlib.Core.Path.{◌≡◌, refl, sym, subst}
use mathlib.Core.Bool.{true, false}
use mathlib.Core.Logic.{◌≢◌, ◌⊎◌, inl, inr}
use mathlib.Core.Option.{Option, none, some}
use mathlib.Core.List.{List, [], ◌∷◌}
use native.Mathlib.Omega.{arith}
use mt5_connector.Common.Tests.{if◌then◌else◌, HasEq, ◌==◌, Bool-cases, Option-cases}

abbrev pub Dict {ℓ κ} : Type ℓ → Type κ → Type (ℓ ⊔ κ)
Dict K V = List (K × V)

module _ {ℓ} {K : Type ℓ} ⦃e : HasEq K⦄ where
  pub beq_refl : (k : K) → (k == k) ≡ true
  beq_refl k = (e.equal_iff k k).1 refl

  pub beq_ne : (j k : K) → j ≢ k → (j == k) ≡ false
  beq_ne j k h = elim (Bool-cases (j == k)) [
    | inl p ↦ absurd (h ((e.equal_iff j k).0 p))
    | inr q ↦ q
  ]

module _ {ℓ κ} {K : Type ℓ} {V : Type κ} ⦃e : HasEq K⦄ where
  -- `d.get(k)`
  abbrev pub lookup : K → Dict K V → Option V
  lookup k [] = none
  lookup k ((j, v) ∷ d) = if k == j then some v else lookup k d

  -- `d[k] = v`: a known key keeps its place
  abbrev pub insert : K → V → Dict K V → Dict K V
  insert k v [] = (k, v) ∷ []
  insert k v ((j, w) ∷ d) = if k == j then (k, v) ∷ d else (j, w) ∷ insert k v d

  -- `d.pop(k, None)`
  abbrev pub erase : K → Dict K V → Dict K V
  erase k [] = []
  erase k ((j, w) ∷ d) = let rest = erase k d in if k == j then rest else (j, w) ∷ rest

  -- `d.setdefault(k, v)`, the dict that it leaves
  abbrev pub setdefault : K → V → Dict K V → Dict K V
  setdefault k v d = elim (lookup k d) [ none ↦ insert k v d | some _ ↦ d ]

  pub lookup-insert :
      (j k : K) (v : V) (d : Dict K V)
      → lookup j (insert k v d) ≡ (if j == k then some v else lookup j d)
  lookup-insert j k v [] = refl
  lookup-insert j k v ((i, w) ∷ d) =
      ground (
        arith,
        e.equal_iff j k,
        e.equal_iff k i,
        e.equal_iff j i,
        beq_refl j,
        lookup-insert j k v d,
      )

  pub lookup-erase :
      (j k : K) (d : Dict K V) → lookup j (erase k d) ≡ (if j == k then none else lookup j d)
  lookup-erase j k [] = ground arith
  lookup-erase j k ((i, w) ∷ d) =
      ground (arith, e.equal_iff j k, e.equal_iff k i, e.equal_iff j i, lookup-erase j k d)

  pub lookup-insert_self : (k : K) (v : V) (d : Dict K V) → lookup k (insert k v d) ≡ some v
  lookup-insert_self k v d = rw (lookup-insert k k v d, beq_refl k)

  pub lookup-insert_ne :
      (j k : K) (v : V) (d : Dict K V) → j ≢ k → lookup j (insert k v d) ≡ lookup j d
  lookup-insert_ne j k v d h = rw (lookup-insert j k v d, beq_ne j k h)

  pub lookup-insert_inv :
      (j k : K) (v w : V) (d : Dict K V)
      → lookup j (insert k v d) ≡ some w
      → ((j ≡ k) × (v ≡ w)) ⊎ ((j ≢ k) × (lookup j d ≡ some w))
  lookup-insert_inv j k v w d h = elim (Bool-cases (j == k)) [
    | inl p ↦ inl ((e.equal_iff j k).0 p, ground (arith, lookup-insert j k v d))
    | inr q ↦ inr (ground (arith, e.equal_iff j k), ground (arith, lookup-insert j k v d))
  ]

  pub lookup-erase_inv :
      (j k : K) (w : V) (d : Dict K V)
      → lookup j (erase k d) ≡ some w
      → (j ≢ k) × (lookup j d ≡ some w)
  lookup-erase_inv j k w d h =
      (ground (arith, e.equal_iff j k, lookup-erase j k d), ground (arith, lookup-erase j k d))

  pub lookup-erase_ne : (j k : K) (d : Dict K V) → j ≢ k → lookup j (erase k d) ≡ lookup j d
  lookup-erase_ne j k d h = rw (lookup-erase j k d, beq_ne j k h)

  pub lookup-setdefault_ne :
      (j k : K) (v : V) (d : Dict K V) → j ≢ k → lookup j (setdefault k v d) ≡ lookup j d
  lookup-setdefault_ne j k v d h = elim (Option-cases (lookup k d)) [
    | inl absent ↦ ground (arith, lookup-insert_ne j k v d h)
    | inr (w, found) ↦ ground arith
  ]

  -- What every entry of the dict satisfies.
  abbrev pub Holds {ι} : (K → V → Type ι) → Dict K V → Type (ℓ ⊔ κ ⊔ ι)
  Holds P d = (k : K) (v : V) → lookup k d ≡ some v → P k v

  pub Holds-insert {ι} :
      (P : K → V → Type ι) (k : K) (v : V) (d : Dict K V)
      → P k v
      → Holds P d
      → Holds P (insert k v d)
  Holds-insert P k v d p every j w h = elim (lookup-insert_inv j k v w d h) [
    | inl (same, eq) ↦ subst (λ u. P j u) eq (subst (λ i. P i v) (sym same) p)
    | inr (_, old) ↦ every j w old
  ]

  pub Holds-erase {ι} :
      (P : K → V → Type ι) (k : K) (d : Dict K V) → Holds P d → Holds P (erase k d)
  Holds-erase P k d every j w h = every j w (lookup-erase_inv j k w d h).1
