-- ===== src/Mt5api/Enrich/Outcome.antt =====
-- What `enrich_mae_mfe` leaves of the positions.
use mathlib.Core.Bool.{false≢true}
use mathlib.Core.List.{append_assoc}
use mathlib.Core.Option.{some-injective}
use mt5_connector.Common.{
  All, Bool, List, Option, Option-cases, String, [], arith, false, if-cases, inl, inr, keep, length,
  length-append, nat_eq, none, refl, some, string_eq, subst, suc, sym, take, true, zero, ℕ, ◌++◌,
  ◌+◌, ◌∙◌, ◌∷◌, ◌≡◌,
}
use mt5_connector.Common.Dict.{lookup}
use mt5_connector.Common.Float.{Float}
use mt5_connector.Common.Sort.{sort_by-All}
use mt5_connector.Domain.Fx.{FxPosition}
use mt5_connector.Mt5api.Enrich.Kept.{
  IsFaithful, IsMeasuring, IsSoundState, enrich_from-IsSoundState,
}
use mt5_connector.Mt5api.Enrich.Levels.{value_per_lot}
use mt5_connector.Mt5api.Enrich.Loop.{
  Enriching, Visit, apply_measured, candidates_of, deferred_at_first, enrich_closed, enrich_mae_mfe,
  enrich_state, is_candidate, latest_first, limited, nothing_yet, numbered,
}

module _ {ℓ} {A : Type ℓ} where
  abbrev pub nth : ℕ → List A → Option A
  nth n [] = none
  nth zero (x ∷ xs) = some x
  nth (suc n) (x ∷ xs) = nth n xs

  nth-length :
      (before : List A) (x : A) (after : List A)
      → nth (length before) (before ++ x ∷ after) ≡ some x
  nth-length [] x after = refl
  nth-length (y ∷ before) x after = nth-length before x after

  All-keep {κ} :
      (P : A → Type κ) (p : A → Bool) (xs : List A)
      → All P xs
      → All (λ x. P x × (p x ≡ true)) (keep p xs)
  All-keep P p [] h = tt
  All-keep P p (x ∷ xs) h =
      if-cases (All (λ y. P y × (p y ≡ true))) (p x) (x ∷ keep p xs) (keep p xs)
        (λ hit. ((h.0, hit), All-keep P p xs h.1)) (λ miss. All-keep P p xs h.1)

  All-take {κ} : (P : A → Type κ) (n : ℕ) (xs : List A) → All P xs → All P (take n xs)
  All-take P zero xs h = tt
  All-take P (suc n) [] h = tt
  All-take P (suc n) (x ∷ xs) h = (h.0, All-take P n xs h.1)

module _ {F : Type 0} where
  -- The position at a place, which is one to measure.
  abbrev pub IsPlaced : List String → List (FxPosition F) → ℕ → FxPosition F → Type 0
  IsPlaced measured ps place p = (nth place ps ≡ some p) × (is_candidate measured p ≡ true)

  numbered-nth :
      (before ps : List (FxPosition F))
      → All (λ item. nth item.0 (before ++ ps) ≡ some item.1) (numbered (length before) ps)
  numbered-nth before [] = tt
  numbered-nth before (p ∷ ps) =
      let rest = numbered-nth (before ++ p ∷ []) ps in
      let shift : length (before ++ p ∷ []) ≡ length before + 1 = length-append before (p ∷ []) in
      let same : (before ++ p ∷ []) ++ ps ≡ before ++ p ∷ ps = append_assoc before (p ∷ []) ps in
      let rest' =
        subst
          (λ n. All (λ item. nth item.0 ((before ++ p ∷ []) ++ ps) ≡ some item.1) (numbered n ps))
          shift rest in
      (
        nth-length before p ps,
        subst (λ l. All (λ item. nth item.0 l ≡ some item.1) (numbered (length before + 1) ps)) same
            rest',
      )

  candidates-IsPlaced :
      (measured : List String) (ps : List (FxPosition F))
      → All (λ item. IsPlaced measured ps item.0 item.1) (candidates_of measured ps)
  candidates-IsPlaced measured ps =
      sort_by-All (λ item. IsPlaced measured ps item.0 item.1) latest_first
        (keep (λ item. is_candidate measured item.1) (numbered 0 ps))
        (All-keep (λ item. nth item.0 ps ≡ some item.1) (λ item. is_candidate measured item.1)
          (numbered 0 ps) (numbered-nth [] ps))

  limited-All :
      (P : ℕ × FxPosition F → Type 0) (limit : Option ℕ) (items : List (ℕ × FxPosition F))
      → All P items
      → All P (limited limit items)
  limited-All P none items h = h
  limited-All P (some limit) items h = All-take P limit items h

  -- What becomes of a position: `mae` and `mfe` alone are set, and that only of one to measure.
  abbrev pub IsKept : List String → FxPosition F → FxPosition F → Type 0
  IsKept measured p q = IsMeasuring p q × (is_candidate measured p ≡ false → q ≡ p)

  abbrev pub AreKept : List String → List (FxPosition F) → List (FxPosition F) → Type 0
  AreKept measured [] [] = Unit
  AreKept measured (p ∷ ps) (q ∷ qs) = IsKept measured p q × AreKept measured ps qs
  AreKept measured _ _ = ⊥

  IsKept-lookup :
      (measured : List String) (all_ : List (FxPosition F)) (n : ℕ) (o : Option (FxPosition F))
      (p : FxPosition F)
      → ((q : FxPosition F)
          → o ≡ some q
          → (p' : FxPosition F) × IsPlaced measured all_ n p' × IsMeasuring p' q)
      → nth n all_ ≡ some p
      → IsKept measured p (elim o [ none ↦ p | some q ↦ q ])
  IsKept-lookup measured all_ n none p faithful here = (refl, λ no. refl)
  IsKept-lookup measured all_ n (some q) p faithful here =
      let (p', placed, measuring) = faithful q refl in
      let same : p' ≡ p = some-injective _ _ (sym placed.0 ∙ here) in
      (
        subst (λ r. IsMeasuring r q) same measuring,
        λ no.
            absurd
              (false≢true (sym no ∙ subst (λ r. is_candidate measured r ≡ true) same placed.1)),
      )

module _ {F : Type 0} ⦃fl : Float F⦄ where
  enrich_state-IsSoundState :
      (visit : ℕ → Visit F) (limit : Option ℕ) (measured : List String) (ps : List (FxPosition F))
      (s : Enriching F)
      → enrich_state visit limit measured ps ≡ some s
      → IsSoundState (IsPlaced measured ps) s
  enrich_state-IsSoundState visit limit measured ps s e =
      closed (candidates_of measured ps) (candidates-IsPlaced measured ps) e
    where
      closed :
          (items : List (ℕ × FxPosition F))
          → All (λ item. IsPlaced measured ps item.0 item.1) items
          → enrich_closed visit limit ps items ≡ some s
          → IsSoundState (IsPlaced measured ps) s
      closed [] placed e' =
          subst (IsSoundState (IsPlaced measured ps)) (some-injective _ _ e')
            (λ pair. (omega arith, refl), λ k v hit. absurd (ground arith))
      closed (item ∷ items) placed e' =
          enrich_from-IsSoundState (IsPlaced measured ps) (value_per_lot ps) visit 0
            (limited limit (item ∷ items))
            (record nothing_yet { deferred = deferred_at_first limit (item ∷ items) }) s
            (limited-All (λ i. IsPlaced measured ps i.0 i.1) limit (item ∷ items) placed) e'
            (λ pair. (omega arith, refl), λ k v hit. absurd (ground arith))

  apply_measured-AreKept :
      (measured : List String) (all_ : List (FxPosition F)) (s : Enriching F) (n : ℕ)
      (ps : List (FxPosition F))
      → IsFaithful (IsPlaced measured all_) s
      → All (λ item. nth item.0 all_ ≡ some item.1) (numbered n ps)
      → AreKept measured ps (apply_measured s.measured (numbered n ps))
  apply_measured-AreKept measured all_ s n [] faithful placed = tt
  apply_measured-AreKept measured all_ s n (p ∷ ps) faithful placed = (
    IsKept-lookup measured all_ n (lookup n s.measured) p (λ q e. faithful n q e) placed.0,
    apply_measured-AreKept measured all_ s (n + 1) ps faithful placed.1,
  )

  -- A run of the enrichment keeps every position but for its `mae` and `mfe`, and it keeps whole
  -- those that are measured already, that have no time of opening or closing, or that name no symbol.
  pub enrich_mae_mfe-AreKept :
      (visit : ℕ → Visit F) (limit : Option ℕ) (measured : List String)
      (ps qs : List (FxPosition F))
      → enrich_mae_mfe visit limit measured ps ≡ some qs
      → AreKept measured ps qs
  unfolding enrich_mae_mfe
  enrich_mae_mfe-AreKept visit limit measured ps qs e =
      elim (Option-cases (enrich_state visit limit measured ps)) [
        | inl dead ↦ absurd (ground arith)
        | inr (s, ended) ↦
            let sound = enrich_state-IsSoundState visit limit measured ps s ended in
            let same : apply_measured s.measured (numbered 0 ps) ≡ qs = ground arith in
            subst (AreKept measured ps) same
              (apply_measured-AreKept measured ps s 0 ps sound.1 (numbered-nth [] ps))
      ]
