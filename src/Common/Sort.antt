-- ===== src/Common/Sort.antt =====
-- `sorted`, which is stable, by a Boolean order of the keys.
use mathlib.Core.List.Perm
use mathlib.Core.Bool.{Bool, false, true}
use mathlib.Core.List.{List, Perm, [], ◌∷◌}
use mathlib.Core.Option.{Option, none, some}
use mathlib.Core.Path.{◌≡◌}
use mt5_connector.Common.Int.{leb_ℤ, ℤ}
use mt5_connector.Common.Lists.{All}
use mt5_connector.Common.Search.{All-map}
use mt5_connector.Common.Tests.{if-cases, if◌then◌else◌}
use native.Mathlib.Omega.{arith}

module _ {ℓ} {A : Type ℓ} where
  abbrev pub insert_by : (A → A → Bool) → A → List A → List A
  insert_by le a [] = a ∷ []
  insert_by le a (b ∷ bs) =
      let later = insert_by le a bs in if le a b then a ∷ b ∷ bs else b ∷ later

  abbrev pub sort_by : (A → A → Bool) → List A → List A
  sort_by le [] = []
  sort_by le (a ∷ as_) = insert_by le a (sort_by le as_)

  -- Each element comes no later than those after it.
  abbrev pub IsSorted : (A → A → Bool) → List A → Type ℓ
  IsSorted le [] = Unit
  IsSorted le (a ∷ as_) = All (λ b. le a b ≡ true) as_ × IsSorted le as_

  abbrev pub IsTransitive : (A → A → Bool) → Type ℓ
  IsTransitive le = (a b c : A) → le a b ≡ true → le b c ≡ true → le a c ≡ true

  abbrev pub IsTotal : (A → A → Bool) → Type ℓ
  IsTotal le = (a b : A) → le a b ≡ false → le b a ≡ true

  insert_by-Perm : (le : A → A → Bool) (a : A) (bs : List A) → Perm (insert_by le a bs) (a ∷ bs)
  insert_by-Perm le a [] = Perm.refl (a ∷ [])
  insert_by-Perm le a (b ∷ bs) =
      if-cases (λ l. Perm l (a ∷ b ∷ bs)) (le a b) (a ∷ b ∷ bs) (b ∷ insert_by le a bs)
        (λ hit. Perm.refl (a ∷ b ∷ bs))
        (λ miss. Perm.trans (Perm.cons b (insert_by-Perm le a bs)) (Perm.swap a b bs))

  pub sort_by-Perm : (le : A → A → Bool) (xs : List A) → Perm (sort_by le xs) xs
  sort_by-Perm le [] = Perm.refl []
  sort_by-Perm le (x ∷ xs) =
      Perm.trans (insert_by-Perm le x (sort_by le xs)) (Perm.cons x (sort_by-Perm le xs))

  insert_by-All {κ} :
      (P : A → Type κ) (le : A → A → Bool) (a : A) (bs : List A)
      → P a
      → All P bs
      → All P (insert_by le a bs)
  insert_by-All P le a [] p ps = (p, tt)
  insert_by-All P le a (b ∷ bs) p ps =
      if-cases (All P) (le a b) (a ∷ b ∷ bs) (b ∷ insert_by le a bs) (λ hit. (p, ps))
        (λ miss. (ps.0, insert_by-All P le a bs p ps.1))

  insert_by-IsSorted :
      (le : A → A → Bool) (a : A) (bs : List A)
      → IsTransitive le
      → IsTotal le
      → IsSorted le bs
      → IsSorted le (insert_by le a bs)
  insert_by-IsSorted le a [] trans total h = (tt, tt)
  insert_by-IsSorted le a (b ∷ bs) trans total h =
      if-cases (IsSorted le) (le a b) (a ∷ b ∷ bs) (b ∷ insert_by le a bs)
        (λ hit. (
          (hit, All-map (λ c. le b c ≡ true) (λ c. le a c ≡ true) bs (λ c. trans a b c hit) h.0),
          h,
        ))
        (λ miss. (
          insert_by-All (λ c. le b c ≡ true) le a bs (total a b miss) h.0,
          insert_by-IsSorted le a bs trans total h.1,
        ))

  pub sort_by-IsSorted :
      (le : A → A → Bool) (xs : List A) → IsTransitive le → IsTotal le → IsSorted le (sort_by le xs)
  sort_by-IsSorted le [] trans total = tt
  sort_by-IsSorted le (x ∷ xs) trans total =
      insert_by-IsSorted le x (sort_by le xs) trans total (sort_by-IsSorted le xs trans total)

  -- What every element satisfies, every element of the sorted list does.
  pub sort_by-All {κ} :
      (P : A → Type κ) (le : A → A → Bool) (xs : List A) → All P xs → All P (sort_by le xs)
  sort_by-All P le [] h = tt
  sort_by-All P le (x ∷ xs) h = insert_by-All P le x (sort_by le xs) h.0 (sort_by-All P le xs h.1)

-- A key that is not there comes after all that are.
abbrev pub none_last : Option ℤ → Option ℤ → Bool
none_last none none = true
none_last none (some b) = false
none_last (some a) none = true
none_last (some a) (some b) = leb_ℤ a b

pub none_last-IsTransitive : IsTransitive none_last
none_last-IsTransitive a b c h k = ground arith

pub none_last-IsTotal : IsTotal none_last
none_last-IsTotal a b h = ground arith
