-- ===== src/Mt5api/Enrich/Bounds.antt =====
-- That the enrichment accounts for each position once, keeps to its limit, and fails only where the
-- terminal is lost.
use mathlib.Core.Option
use mathlib.Core.Option.{some-injective}
use mt5_connector.Common.{
  Bool, Bool-cases, List, Option, Option-cases, String, [], arith, elem, false, if-cases, inl, inr,
  is_some, length, nat_eq, none, refl, some, string_eq, subst, suc, take, true, zero, ℕ, ◌+◌, ◌-◌,
  ◌∷◌, ◌≡◌, ◌≤◌,
}
use mt5_connector.Common.Dict.{Dict, erase}
use mt5_connector.Common.Float.{Float}
use mt5_connector.Domain.Fx.{FxPosition}
use mt5_connector.Mt5api.Enrich.Levels.{value_per_lot}
use mt5_connector.Mt5api.Enrich.Loop.{
  CandleReply, Enriching, Visit, apply_measured, candidates_of, candles, candles_failed,
  deferred_at_first, enrich_closed, enrich_from, enrich_mae_mfe, enrich_position, enrich_state,
  extend, fetch_segments, limited, note_candles, note_measured, note_reply, nothing_yet, numbered,
  span_of, terminal_gone,
}
use mt5_connector.Mt5api.Enrich.Segments.{Segment}
use mt5_connector.Mt5api.Raw.{RawCandle}

take-le {ℓ} : {A : Type ℓ} (n : ℕ) (xs : List A) → length (take n xs) ≤ n
take-le zero xs = omega arith
take-le (suc n) [] = omega arith
take-le (suc n) (x ∷ xs) = omega (arith, take-le n xs)

length-take {ℓ} :
    {A : Type ℓ} (n : ℕ) (xs : List A) → length (take n xs) + (length xs - n) ≤ length xs
length-take zero xs = omega arith
length-take (suc n) [] = omega arith
length-take (suc n) (x ∷ xs) = omega (arith, length-take n xs)

module _ {F : Type 0} where
  abbrev pub total_of : Enriching F → ℕ
  total_of s = s.enriched + s.rejected + s.skipped + s.deferred

  abbrev pub is_gone : CandleReply F → Bool
  is_gone terminal_gone = true
  is_gone candles_failed = false
  is_gone (candles cs) = false

  -- From one state to another, at most one more is counted for each of `n` positions.
  abbrev pub IsWithin : ℕ → Enriching F → Enriching F → Type 0
  IsWithin n s t = (total_of t ≤ total_of s + n) × (t.enriched ≤ s.enriched + n)

module _ {F : Type 0} ⦃fl : Float F⦄ where
  note_measured-IsWithin :
      (place : ℕ) (o : Option (FxPosition F)) (s : Enriching F)
      → IsWithin 1 s (note_measured place o s)
  note_measured-IsWithin place none s = (omega arith, omega arith)
  note_measured-IsWithin place (some p) s = (omega arith, omega arith)

  note_candles-IsWithin :
      (per_lot : Dict String F) (item : ℕ × FxPosition F) (cs : List (RawCandle F))
      (s : Enriching F)
      → IsWithin 1 s (note_candles per_lot item cs s)
  note_candles-IsWithin per_lot (place, p) [] s = (omega arith, omega arith)
  note_candles-IsWithin per_lot (place, p) (c ∷ cs) s = note_measured-IsWithin place _ s

  note_reply-IsWithin :
      (per_lot : Dict String F) (item : ℕ × FxPosition F) (reply : CandleReply F)
      (s t : Enriching F)
      → note_reply per_lot item reply s ≡ some t
      → IsWithin 1 s t
  note_reply-IsWithin per_lot item terminal_gone s t e = absurd (ground arith)
  note_reply-IsWithin per_lot item candles_failed s t e =
      subst (IsWithin 1 s) (some-injective _ _ e) (omega arith, omega arith)
  note_reply-IsWithin per_lot item (candles cs) s t e =
      subst (IsWithin 1 s) (some-injective _ _ e) (
        note_candles-IsWithin per_lot item cs
          (record s { failures = erase item.1.pair s.failures }))

  enrich_position-IsWithin :
      (per_lot : Dict String F) (reply : Segment → CandleReply F) (item : ℕ × FxPosition F)
      (s t : Enriching F)
      → enrich_position per_lot reply item s ≡ some t
      → IsWithin 1 s t
  unfolding enrich_position
  enrich_position-IsWithin per_lot reply item s t e =
      elim (Bool-cases (elem item.1.pair s.abandoned)) [
        | inl gone ↦
            let same : record s { skipped = s.skipped + 1 } ≡ t = ground arith in
            subst (IsWithin 1 s) same (omega arith, omega arith)
        | inr known ↦
            note_reply-IsWithin per_lot item (fetch_segments reply (span_of item.1)) s t
              (ground arith)
      ]

  enrich_from-IsWithin :
      (per_lot : Dict String F) (visit : ℕ → Visit F) (index : ℕ) (todo : List (ℕ × FxPosition F))
      (s t : Enriching F)
      → enrich_from per_lot visit index todo s ≡ some t
      → IsWithin (length todo) s t
  unfolding enrich_from
  enrich_from-IsWithin per_lot visit index [] s t e =
      subst (IsWithin 0 s) (some-injective _ _ e) (omega arith, omega arith)
  enrich_from-IsWithin per_lot visit index (item ∷ todo) s t e =
      elim (Bool-cases (visit index).is_over) [
        | inl over ↦
            let same : record s { out_of_time = true; deferred = s.deferred + length (item ∷ todo) }
                ≡ t =
              ground arith in
            subst (IsWithin (length (item ∷ todo)) s) same (omega arith, omega arith)
        | inr on ↦ elim (Option-cases (enrich_position per_lot (visit index).reply item s)) [
          | inl dead ↦ absurd (ground arith)
          | inr (next, stepped) ↦
              let first =
                enrich_position-IsWithin per_lot (visit index).reply item s next stepped in
              let rest =
                enrich_from-IsWithin per_lot visit (index + 1) todo next t (ground arith) in
              (omega (arith, first.0, rest.0), omega (arith, first.1, rest.1))
        ]
      ]

  -- Each position to measure is counted at most once, as enriched, rejected, skipped or deferred,
  -- and with a limit, no more are enriched than it says.
  pub enrich_state-bounded :
      (visit : ℕ → Visit F) (limit : ℕ) (measured : List String) (ps : List (FxPosition F))
      (s : Enriching F)
      → enrich_state visit (some limit) measured ps ≡ some s
      → (total_of s ≤ length (candidates_of measured ps)) × (s.enriched ≤ limit)
  enrich_state-bounded visit limit measured ps s e = closed (candidates_of measured ps) e
    where
      closed :
          (items : List (ℕ × FxPosition F))
          → enrich_closed visit (some limit) ps items ≡ some s
          → (total_of s ≤ length items) × (s.enriched ≤ limit)
      closed [] e' =
          subst (λ t. (total_of t ≤ 0) × (t.enriched ≤ limit)) (some-injective _ _ e')
            (omega arith, omega arith)
      closed (item ∷ items) e' =
          let within =
            enrich_from-IsWithin (value_per_lot ps) visit 0 (take limit (item ∷ items))
              (record nothing_yet { deferred = deferred_at_first (some limit) (item ∷ items) }) s
              e' in
          (
            omega (arith, within.0, length-take limit (item ∷ items)),
            omega (arith, within.1, take-le limit (item ∷ items)),
          )

  extend-here :
      (r t : CandleReply F) → is_gone r ≡ false → is_gone t ≡ false → is_gone (extend r t) ≡ false
  extend-here (candles cs) (candles ds) h k = refl
  extend-here (candles cs) candles_failed h k = refl
  extend-here (candles cs) terminal_gone h k = k
  extend-here candles_failed t h k = refl
  extend-here terminal_gone t h k = h

  fetch_segments-here :
      (reply : Segment → CandleReply F) (ss : List Segment)
      → ((s : Segment) → is_gone (reply s) ≡ false)
      → is_gone (fetch_segments reply ss) ≡ false
  fetch_segments-here reply [] here = refl
  fetch_segments-here reply (s ∷ ss) here =
      extend-here (reply s) (fetch_segments reply ss) (here s) (fetch_segments-here reply ss here)

  note_reply-some :
      (per_lot : Dict String F) (item : ℕ × FxPosition F) (reply : CandleReply F) (s : Enriching F)
      → is_gone reply ≡ false
      → is_some (note_reply per_lot item reply s) ≡ true
  note_reply-some per_lot item terminal_gone s here = absurd (ground arith)
  note_reply-some per_lot item candles_failed s here = refl
  note_reply-some per_lot item (candles cs) s here = refl

  enrich_position-some :
      (per_lot : Dict String F) (reply : Segment → CandleReply F) (item : ℕ × FxPosition F)
      (s : Enriching F)
      → ((g : Segment) → is_gone (reply g) ≡ false)
      → is_some (enrich_position per_lot reply item s) ≡ true
  unfolding enrich_position
  enrich_position-some per_lot reply item s here =
      if-cases (λ o. is_some o ≡ true) (elem item.1.pair s.abandoned)
        (some (record s { skipped = s.skipped + 1 }))
        (note_reply per_lot item (fetch_segments reply (span_of item.1)) s) (λ gone. refl)
        (λ known.
          note_reply-some per_lot item (fetch_segments reply (span_of item.1)) s
            (fetch_segments-here reply (span_of item.1) here))

  enrich_from-some :
      (per_lot : Dict String F) (visit : ℕ → Visit F) (index : ℕ) (todo : List (ℕ × FxPosition F))
      (s : Enriching F)
      → ((i : ℕ) (g : Segment) → is_gone ((visit i).reply g) ≡ false)
      → is_some (enrich_from per_lot visit index todo s) ≡ true
  unfolding enrich_from
  enrich_from-some per_lot visit index [] s here = refl
  enrich_from-some per_lot visit index (item ∷ todo) s here =
      let step_some = enrich_position-some per_lot (visit index).reply item s (here index) in
      elim (Option-cases (enrich_position per_lot (visit index).reply item s)) [
        | inl dead ↦ absurd (ground arith)
        | inr (next, stepped) ↦
            let rest = enrich_from-some per_lot visit (index + 1) todo next here in ground arith
      ]

  -- The enrichment comes to an end with a result, however the fetches fail, as long as none of them
  -- loses the terminal.
  pub enrich_mae_mfe-ends :
      (visit : ℕ → Visit F) (limit : Option ℕ) (measured : List String) (ps : List (FxPosition F))
      → ((i : ℕ) (g : Segment) → is_gone ((visit i).reply g) ≡ false)
      → is_some (enrich_mae_mfe visit limit measured ps) ≡ true
  unfolding enrich_mae_mfe
  enrich_mae_mfe-ends visit limit measured ps here =
      mapped (enrich_state visit limit measured ps) (closed (candidates_of measured ps))
    where
      mapped :
          (o : Option (Enriching F))
          → is_some o ≡ true
          → is_some (Option.map (λ s. apply_measured s.measured (numbered 0 ps)) o) ≡ true
      mapped none h = h
      mapped (some s) h = refl

      closed :
          (items : List (ℕ × FxPosition F)) → is_some (enrich_closed visit limit ps items) ≡ true
      closed [] = refl
      closed (item ∷ items) =
          enrich_from-some (value_per_lot ps) visit 0 (limited limit (item ∷ items))
            (record nothing_yet { deferred = deferred_at_first limit (item ∷ items) }) here
