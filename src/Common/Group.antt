-- ===== src/Common/Group.antt =====
-- Grouping into a dict of lists, and what it comes to: for each key, the elements that have it.
use mathlib.Core.Bool.{Bool, false, ◌||◌}
use mathlib.Core.List.{List, [], append-nil, append_assoc, map, ◌++◌, ◌∷◌}
use mathlib.Core.Logic.{inl, inr}
use mathlib.Core.Option.{Option, none, some}
use mathlib.Core.Path.{ap, fun_ext, refl, subst, sym, ◌∙◌, ◌≡◌}
use mt5_connector.Common.Dict.{Dict, beq_refl, insert, lookup}
use mt5_connector.Common.Lists.{add_elem, elem, keep}
use mt5_connector.Common.Tests.{Bool-cases, HasEq, if-cases, if◌then◌else◌, nat_eq, string_eq, ◌==◌}
use native.Mathlib.Omega.{arith}

module _ {ℓ} {A : Type ℓ} where
  keep-snoc :
      (p : A → Bool) (x : A) (xs : List A)
      → keep p (xs ++ x ∷ []) ≡ keep p xs ++ (if p x then x ∷ [] else [])
  keep-snoc p x [] = ground arith
  keep-snoc p x (y ∷ xs) = ground (arith, keep-snoc p x xs)

  abbrev pub values_of : Option (List A) → List A
  values_of none = []
  values_of (some xs) = xs

module _ {ℓ κ} {K : Type ℓ} {V : Type κ} where
  -- The dict of a function on a list of keys.
  abbrev pub tabulate : (K → V) → List K → Dict K V
  tabulate f [] = []
  tabulate f (k ∷ ks) = (k, f k) ∷ tabulate f ks

module _ {ℓ} {K : Type ℓ} ⦃e : HasEq K⦄ where
  abbrev pub Distinct : List K → Type 0
  Distinct [] = Unit
  Distinct (k ∷ ks) = (elem k ks ≡ false) × Distinct ks

  -- The keys in the order in which they first appear, after those of a first list.
  abbrev pub distinct_after : List K → List K → List K
  distinct_after ks [] = ks
  distinct_after ks (j ∷ js) = distinct_after (add_elem j ks) js

  elem-snoc : (j k : K) (ks : List K) → elem j (ks ++ k ∷ []) ≡ (elem j ks || j == k)
  elem-snoc j k [] = ground arith
  elem-snoc j k (i ∷ ks) = ground (arith, elem-snoc j k ks)

  pub elem-add_elem : (j k : K) (ks : List K) → elem j (add_elem k ks) ≡ (elem j ks || j == k)
  elem-add_elem j k ks = elim (Bool-cases (j == k)) [
    | inl same ↦
        let eq : j ≡ k = (e.equal_iff j k).0 same in
        let alike : elem j ks ≡ elem k ks = rw eq refl in ground (arith, elem-snoc j k ks, alike)
    | inr other ↦ ground (arith, elem-snoc j k ks)
  ]

  Distinct-snoc : (k : K) (ks : List K) → elem k ks ≡ false → Distinct ks → Distinct (ks ++ k ∷ [])
  Distinct-snoc k [] h d = (refl, tt)
  Distinct-snoc k (i ∷ ks) h d = (
    ground (arith, elem-snoc i k ks, e.equal_iff i k, e.equal_iff k i),
    Distinct-snoc k ks (ground arith) d.1,
  )

  pub Distinct-add_elem : (k : K) (ks : List K) → Distinct ks → Distinct (add_elem k ks)
  Distinct-add_elem k ks d =
      if-cases Distinct (elem k ks) ks (ks ++ k ∷ []) (λ known. d) (λ new. Distinct-snoc k ks new d)

  pub Distinct-distinct_after : (ks js : List K) → Distinct ks → Distinct (distinct_after ks js)
  Distinct-distinct_after ks [] d = d
  Distinct-distinct_after ks (j ∷ js) d =
      Distinct-distinct_after (add_elem j ks) js (Distinct-add_elem j ks d)

  add_elem-cons :
      (k i : K) (ks : List K) → (k == i) ≡ false → add_elem k (i ∷ ks) ≡ i ∷ add_elem k ks
  add_elem-cons k i ks h = ground arith

module _ {ℓ κ} {K : Type ℓ} {V : Type κ} ⦃e : HasEq K⦄ where
  abbrev pub put_at : (K → V) → K → V → K → V
  put_at f k v j = if j == k then v else f j

  tabulate-put_at :
      (f : K → V) (k : K) (v : V) (ks : List K)
      → elem k ks ≡ false
      → tabulate (put_at f k v) ks ≡ tabulate f ks
  tabulate-put_at f k v [] h = refl
  tabulate-put_at f k v (i ∷ ks) h =
      ground (arith, tabulate-put_at f k v ks (ground arith), e.equal_iff i k, e.equal_iff k i)

  insert-first :
      (f : K → V) (k : K) (v : V) (ks : List K)
      → elem k ks ≡ false
      → insert k v (tabulate f (k ∷ ks)) ≡ tabulate (put_at f k v) (add_elem k (k ∷ ks))
  insert-first f k v ks h = rw (beq_refl k, beq_refl k, tabulate-put_at f k v ks h) refl

  insert-tabulate :
      (f : K → V) (k : K) (v : V) (ks : List K)
      → Distinct ks
      → insert k v (tabulate f ks) ≡ tabulate (put_at f k v) (add_elem k ks)
  insert-tabulate f k v [] d = ground (arith, beq_refl k)
  insert-tabulate f k v (i ∷ ks) d = elim (Bool-cases (k == i)) [
    | inl same ↦
        let eq : k ≡ i = (e.equal_iff k i).0 same in
        subst
          (λ j. insert k v (tabulate f (j ∷ ks)) ≡ tabulate (put_at f k v) (add_elem k (j ∷ ks))) eq
          (insert-first f k v ks (subst (λ j. elem j ks ≡ false) (sym eq) d.0))
    | inr other ↦
        let rest = insert-tabulate f k v ks d.1 in
        let kept : (i == k) ≡ false = ground (arith, e.equal_iff i k, e.equal_iff k i) in
        let first : insert k v (tabulate f (i ∷ ks)) ≡ (i, f i) ∷ insert k v (tabulate f ks) =
          rw other refl in
        let next : (i, f i) ∷ tabulate (put_at f k v) (add_elem k ks)
            ≡ tabulate (put_at f k v) (i ∷ add_elem k ks) =
          rw kept refl in
        first
        ∙ ap (λ d'. (i, f i) ∷ d') rest
        ∙ next
        ∙ ap (tabulate (put_at f k v)) (sym (add_elem-cons k i ks other))
  ]

  pub lookup-tabulate :
      (f : K → V) (k : K) (ks : List K)
      → lookup k (tabulate f ks) ≡ (if elem k ks then some (f k) else none)
  lookup-tabulate f k [] = refl
  lookup-tabulate f k (i ∷ ks) = ground (arith, e.equal_iff k i, lookup-tabulate f k ks)

module _ {ℓ κ} {K : Type ℓ} {A : Type κ} ⦃e : HasEq K⦄ where
  -- `d.setdefault(key(x), []).append(x)` for each `x`
  abbrev pub append_to : K → A → Dict K (List A) → Dict K (List A)
  append_to k x d = insert k (values_of (lookup k d) ++ x ∷ []) d

  abbrev pub group_into : (A → K) → Dict K (List A) → List A → Dict K (List A)
  group_into key d [] = d
  group_into key d (x ∷ xs) = group_into key (append_to (key x) x d) xs

  abbrev pub having : (A → K) → List A → K → List A
  having key xs k = keep (λ x. k == key x) xs

  -- Every key of the elements is listed.
  abbrev pub IsListed : (A → K) → List K → List A → Type (ℓ ⊔ κ)
  IsListed key ks xs = (k : K) → elem k ks ≡ false → having key xs k ≡ []

  values_at :
      (key : A → K) (seen : List A) (ks : List K) (j : K)
      → IsListed key ks seen
      → values_of (lookup j (tabulate (having key seen) ks)) ≡ having key seen j
  values_at key seen ks j listed = elim (Bool-cases (elem j ks)) [
    | inl hit ↦ ground (arith, lookup-tabulate (having key seen) j ks)
    | inr miss ↦ ground (arith, lookup-tabulate (having key seen) j ks, listed j miss)
  ]

  having-append :
      (key : A → K) (x : A) (seen : List A) (ks : List K)
      → IsListed key ks seen
      → put_at
          (having key seen)
          (key x)
          (values_of (lookup (key x) (tabulate (having key seen) ks)) ++ x ∷ [])
        ≡ having key (seen ++ x ∷ [])
  having-append key x seen ks listed = fun_ext λ k. elim (Bool-cases (k == key x)) [
    | inl same ↦
        let alike : having key seen (key x) ≡ having key seen k =
          rw ((e.equal_iff k (key x)).0 same) refl in
        ground
          (arith, values_at key seen ks (key x) listed, alike, keep-snoc (λ y. k == key y) x seen)
    | inr other ↦
        let none_left : having key seen k ++ [] ≡ having key seen k =
          append-nil (having key seen k) in
        ground (arith, none_left, keep-snoc (λ y. k == key y) x seen)
  ]

  IsListed-append :
      (key : A → K) (x : A) (seen : List A) (ks : List K)
      → IsListed key ks seen
      → IsListed key (add_elem (key x) ks) (seen ++ x ∷ [])
  IsListed-append key x seen ks listed k miss =
      ground (arith, elem-add_elem k (key x) ks, listed k, keep-snoc (λ y. k == key y) x seen)

  group_into-tabulate :
      (key : A → K) (seen : List A) (ks : List K) (xs : List A)
      → Distinct ks
      → IsListed key ks seen
      → group_into key (tabulate (having key seen) ks) xs
        ≡ tabulate (having key (seen ++ xs)) (distinct_after ks (map key xs))
  group_into-tabulate key seen ks [] d listed =
      ap (λ l. tabulate (having key l) ks) (sym (append-nil seen))
  group_into-tabulate key seen ks (x ∷ xs) d listed =
      let f = having key seen in
      let put =
        insert-tabulate f (key x) (values_of (lookup (key x) (tabulate f ks)) ++ x ∷ []) ks d in
      let next = ap (λ g. tabulate g (add_elem (key x) ks)) (having-append key x seen ks listed) in
      let rest =
        group_into-tabulate key (seen ++ x ∷ []) (add_elem (key x) ks) xs
          (Distinct-add_elem (key x) ks d) (IsListed-append key x seen ks listed) in
      ap (λ d'. group_into key d' xs) (put ∙ next)
      ∙ rest
      ∙ ap (λ l. tabulate (having key l) (distinct_after (add_elem (key x) ks) (map key xs)))
          (append_assoc seen (x ∷ []) xs)

  -- Grouping is filtering once for each key, in the order in which the keys appear.
  pub group_into-having :
      (key : A → K) (xs : List A)
      → group_into key [] xs ≡ tabulate (having key xs) (distinct_after [] (map key xs))
  group_into-having key xs = group_into-tabulate key [] [] xs tt (λ k miss. refl)

  IsListed-distinct_after :
      (key : A → K) (seen : List A) (ks : List K) (xs : List A)
      → IsListed key ks seen
      → IsListed key (distinct_after ks (map key xs)) (seen ++ xs)
  IsListed-distinct_after key seen ks [] listed =
      subst (IsListed key ks) (sym (append-nil seen)) listed
  IsListed-distinct_after key seen ks (x ∷ xs) listed =
      subst (IsListed key (distinct_after (add_elem (key x) ks) (map key xs)))
        (append_assoc seen (x ∷ []) xs)
        (IsListed-distinct_after key (seen ++ x ∷ []) (add_elem (key x) ks) xs
          (IsListed-append key x seen ks listed))

  pub lookup-group_into :
      (key : A → K) (xs : List A) (k : K)
      → values_of (lookup k (group_into key [] xs)) ≡ having key xs k
  lookup-group_into key xs k =
      ap (λ d. values_of (lookup k d)) (group_into-having key xs)
      ∙ values_at key xs (distinct_after [] (map key xs)) k
          (IsListed-distinct_after key [] [] xs (λ j miss. refl))
