-- ===== src/Common/Search.antt =====
-- What `find` finds.
use mathlib.Core.Bool.{Bool, false, true}
use mathlib.Core.List.{
  List, Mem, [], mem-cons_of_mem, mem-cons_self, reverse, reverse-cons, ◌++◌, ◌∷◌,
}
use mathlib.Core.Logic.{inl, inr}
use mathlib.Core.Option.{none, some}
use mathlib.Core.Path.{refl, subst, sym, ◌≡◌}
use mt5_connector.Common.Lists.{All, any, find}
use mt5_connector.Common.Tests.{Bool-cases, Option-cases, if◌then◌else◌, or_else}
use native.Mathlib.Omega.{arith}

module _ {ℓ} {A : Type ℓ} where
  pub find-some :
      (p : A → Bool) (xs : List A) (a : A) → find p xs ≡ some a → (p a ≡ true) × Mem a xs
  find-some p [] a e = absurd (ground arith)
  find-some p (x ∷ xs) a e = elim (Bool-cases (p x)) [
    | inl hit ↦
        let same : x ≡ a = ground arith in (subst (λ y. p y ≡ true) same hit, rw same mem-cons_self)
    | inr miss ↦ let rest = find-some p xs a (ground arith) in (rest.0, mem-cons_of_mem x rest.1)
  ]

  pub find-none : (p : A → Bool) (xs : List A) → find p xs ≡ none → any p xs ≡ false
  find-none p [] e = refl
  find-none p (x ∷ xs) e = ground (arith, find-none p xs)

  -- A test that accepts the hit of another and nothing that the other rejects has the same hit.
  pub find-agree :
      (p q : A → Bool) (xs : List A) (a : A)
      → find p xs ≡ some a
      → q a ≡ true
      → All (λ x. q x ≡ true → p x ≡ true) xs
      → find q xs ≡ some a
  find-agree p q [] a e hit only = absurd (ground arith)
  find-agree p q (x ∷ xs) a e hit only = elim (Bool-cases (p x)) [
    | inl accepts ↦
        let same : x ≡ a = ground arith in
        let hit' : q x ≡ true = subst (λ y. q y ≡ true) (sym same) hit in ground (arith, same)
    | inr rejects ↦ elim (Bool-cases (q x)) [
      | inl bad ↦ absurd (ground (arith, only.0 bad))
      | inr miss ↦ let rest = find-agree p q xs a (ground arith) hit only.1 in ground arith
    ]
  ]

  pub All-map {κ ι} :
      (P : A → Type κ) (Q : A → Type ι) (xs : List A) → ((x : A) → P x → Q x) → All P xs → All Q xs
  All-map P Q [] f h = tt
  All-map P Q (x ∷ xs) f h = (f x h.0, All-map P Q xs f h.1)

  All-append {κ} : (P : A → Type κ) (xs ys : List A) → All P xs → All P ys → All P (xs ++ ys)
  All-append P [] ys h k = k
  All-append P (x ∷ xs) ys h k = (h.0, All-append P xs ys h.1 k)

  pub All-reverse {κ} : (P : A → Type κ) (xs : List A) → All P xs → All P (reverse xs)
  All-reverse P [] h = tt
  All-reverse P (x ∷ xs) h =
      subst (All P) (sym (reverse-cons x xs))
        (All-append P (reverse xs) (x ∷ []) (All-reverse P xs h.1) (h.0, tt))

  pub find-append :
      (p : A → Bool) (xs ys : List A) → find p (xs ++ ys) ≡ or_else (find p xs) (find p ys)
  find-append p [] ys = refl
  find-append p (x ∷ xs) ys = ground (arith, find-append p xs ys)

  -- From the end, the first of the list is tried last.
  pub find-reverse_cons :
      (p : A → Bool) (x : A) (xs : List A)
      → find p (reverse (x ∷ xs)) ≡ or_else (find p (reverse xs)) (if p x then some x else none)
  find-reverse_cons p x xs = rw (reverse-cons x xs, find-append p (reverse xs) (x ∷ [])) refl

  -- What every element satisfies, the hit does.
  pub find-All {κ} :
      (P : A → Type κ) (p : A → Bool) (xs : List A) (a : A)
      → All P xs
      → find p (reverse xs) ≡ some a
      → P a
  find-All P p [] a all_p e = absurd (ground arith)
  find-All P p (x ∷ xs) a all_p e =
      let split = find-reverse_cons p x xs in
      elim (Option-cases (find p (reverse xs))) [
        | inl nothing ↦ let same : x ≡ a = ground (arith, split) in subst P same all_p.0
        | inr (y, found) ↦
            let same : y ≡ a = ground (arith, split) in
            subst P same (find-All P p xs y all_p.1 found)
      ]
