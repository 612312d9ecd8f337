-- ===== src/Mt5api/Enrich/Kept.antt =====
-- What the enrichment keeps: the positions that it does not measure, all but two fields of the
-- others, and how often the candles of a symbol may fail.
use mathlib.Core.Option.{some-injective}
use mt5_connector.Common.{
  All, Bool-cases, List, Option, Option-cases, String, [], arith, elem, false, if-cases, inl, inr,
  leb, length, map, nat_eq, none, refl, some, string_eq, subst, true, ℕ, ◌+◌, ◌==◌, ◌||◌, ◌∷◌, ◌≡◌,
  ◌≤◌,
}
use mt5_connector.Common.Dict.{
  Dict, Holds, Holds-insert, erase, lookup, lookup-erase, lookup-insert,
}
use mt5_connector.Common.Float.{Float, max, maximum, min, minimum}
use mt5_connector.Common.Group.{elem-add_elem}
use mt5_connector.Domain.Fx.{FxPosition}
use mt5_connector.Mt5api.Clock.Measure.{differs}
use mt5_connector.Mt5api.Enrich.Levels.{apply_mae_mfe, measure, overlap_tolerance, resolve_value}
use mt5_connector.Mt5api.Enrich.Loop.{
  CandleReply, Enriching, Visit, candles, candles_failed, count_of, enrich_from, enrich_position,
  fetch_segments, note_candles, note_failure, note_measured, note_reply, span_of,
  symbol_failure_limit, terminal_gone,
}
use mt5_connector.Mt5api.Enrich.Segments.{Segment}
use mt5_connector.Mt5api.Raw.{RawCandle}

module _ {F : Type 0} where
  -- But for `mae` and `mfe`, a position is as it was.
  abbrev pub IsMeasuring : FxPosition F → FxPosition F → Type 0
  IsMeasuring p q = record q { mae = p.mae; mfe = p.mfe } ≡ p

  -- What has been set is of positions of which `P` holds, each but for `mae` and `mfe` as it was.
  abbrev pub IsFaithful : (ℕ → FxPosition F → Type 0) → Enriching F → Type 0
  IsFaithful P s = Holds (λ place q. (p : FxPosition F) × P place p × IsMeasuring p q) s.measured

  -- A symbol is abandoned at its third failure in a row, and none has more.
  abbrev pub IsCounting : Enriching F → Type 0
  IsCounting s =
      (pair : String)
      → (count_of (lookup pair s.failures) ≤ symbol_failure_limit)
        × (elem pair s.abandoned ≡ leb symbol_failure_limit (count_of (lookup pair s.failures)))

  note_failure-IsCounting :
      (pair : String) (s : Enriching F)
      → elem pair s.abandoned ≡ false
      → IsCounting s
      → IsCounting (note_failure pair s)
  note_failure-IsCounting pair s here counting other =
      let own = counting pair in
      let their = counting other in
      elim (Bool-cases (other == pair)) [
        | inl same ↦
            let eq : other ≡ pair = (string_eq.equal_iff other pair).0 same in
            let alike : elem other s.abandoned ≡ elem pair s.abandoned = rw eq refl in
            (
              ground (
                arith,
                own.0,
                own.1,
                lookup-insert other pair (count_of (lookup pair s.failures) + 1) s.failures,
              ),
              ground (
                arith,
                own.0,
                own.1,
                alike,
                elem-add_elem other pair s.abandoned,
                lookup-insert other pair (count_of (lookup pair s.failures) + 1) s.failures,
              ),
            )
        | inr differs ↦ (
          ground (
            arith,
            their.0,
            lookup-insert other pair (count_of (lookup pair s.failures) + 1) s.failures,
          ),
          ground (
            arith,
            their.1,
            elem-add_elem other pair s.abandoned,
            lookup-insert other pair (count_of (lookup pair s.failures) + 1) s.failures,
          ),
        )
      ]

  success-IsCounting :
      (pair : String) (s : Enriching F)
      → elem pair s.abandoned ≡ false
      → IsCounting s
      → IsCounting (record s { failures = erase pair s.failures })
  success-IsCounting pair s here counting other =
      let their = counting other in
      elim (Bool-cases (other == pair)) [
        | inl same ↦
            let alike : elem other s.abandoned ≡ elem pair s.abandoned =
              rw ((string_eq.equal_iff other pair).0 same) refl in
            (
              ground (arith, lookup-erase other pair s.failures),
              ground (arith, alike, lookup-erase other pair s.failures),
            )
        | inr differs ↦ (
          ground (arith, their.0, lookup-erase other pair s.failures),
          ground (arith, their.1, lookup-erase other pair s.failures),
        )
      ]

module _ {F : Type 0} ⦃fl : Float F⦄ where
  measure-IsMeasuring :
      (p : FxPosition F) (high low unit : F) → IsMeasuring p (measure p high low unit)
  measure-IsMeasuring p high low unit =
      if-cases (IsMeasuring p) (p.side == "LONG") _ _ (λ long. refl) (λ short. refl)

  apply_mae_mfe-IsMeasuring :
      (p : FxPosition F) (high low : F) (unit : Option F) (q : FxPosition F)
      → apply_mae_mfe p high low unit ≡ some q
      → IsMeasuring p q
  unfolding apply_mae_mfe
  apply_mae_mfe-IsMeasuring p high low none q e = absurd (ground arith)
  apply_mae_mfe-IsMeasuring p high low (some unit) q e =
      let traded_low = min p.entry_price p.exit_price in
      let traded_high = max p.entry_price p.exit_price in
      let slack = fl.mul traded_high overlap_tolerance in
      elim (Bool-cases
        (fl.lt (fl.add traded_high slack) low || fl.lt high (fl.sub traded_low slack))) [
          | inl far ↦ absurd (ground arith)
          | inr near ↦
              let same : measure p (max high traded_high) (min low traded_low) unit ≡ q =
                ground arith in
              subst (IsMeasuring p) same
                (measure-IsMeasuring p (max high traded_high) (min low traded_low) unit)
        ]

  -- What a visited position leaves: the counts stay right, and what is set stays faithful.
  abbrev pub IsSoundState : (ℕ → FxPosition F → Type 0) → Enriching F → Type 0
  IsSoundState P s = IsCounting s × IsFaithful P s

  note_measured-IsSoundState :
      (P : ℕ → FxPosition F → Type 0) (place : ℕ) (p : FxPosition F) (o : Option (FxPosition F))
      (s : Enriching F)
      → P place p
      → ((q : FxPosition F) → o ≡ some q → IsMeasuring p q)
      → IsSoundState P s
      → IsSoundState P (note_measured place o s)
  note_measured-IsSoundState P place p none s here measuring sound = sound
  note_measured-IsSoundState P place p (some q) s here measuring sound = (
    sound.0,
    Holds-insert (λ at_ r. (p' : FxPosition F) × P at_ p' × IsMeasuring p' r) place q s.measured
        (p, here, measuring q refl) sound.1,
  )

  note_candles-IsSoundState :
      (P : ℕ → FxPosition F → Type 0) (per_lot : Dict String F) (item : ℕ × FxPosition F)
      (cs : List (RawCandle F)) (s : Enriching F)
      → P item.0 item.1
      → IsSoundState P s
      → IsSoundState P (note_candles per_lot item cs s)
  note_candles-IsSoundState P per_lot (place, p) [] s here sound = sound
  note_candles-IsSoundState P per_lot (place, p) (c ∷ cs) s here sound =
      let high = maximum c.high (map (λ d. d.high) cs) in
      let low = minimum c.low (map (λ d. d.low) cs) in
      let unit = resolve_value p per_lot in
      note_measured-IsSoundState P place p (apply_mae_mfe p high low unit) s here
        (λ q e. apply_mae_mfe-IsMeasuring p high low unit q e) sound

  note_reply-IsSoundState :
      (P : ℕ → FxPosition F → Type 0) (per_lot : Dict String F) (item : ℕ × FxPosition F)
      (reply : CandleReply F) (s t : Enriching F)
      → P item.0 item.1
      → elem item.1.pair s.abandoned ≡ false
      → note_reply per_lot item reply s ≡ some t
      → IsSoundState P s
      → IsSoundState P t
  note_reply-IsSoundState P per_lot item terminal_gone s t here known e sound =
      absurd (ground arith)
  note_reply-IsSoundState P per_lot item candles_failed s t here known e sound =
      subst (IsSoundState P) (some-injective _ _ e)
        (note_failure-IsCounting item.1.pair s known sound.0, sound.1)
  note_reply-IsSoundState P per_lot item (candles cs) s t here known e sound =
      subst (IsSoundState P) (some-injective _ _ e) (
        note_candles-IsSoundState P per_lot item cs
          (record s { failures = erase item.1.pair s.failures }) here
          (success-IsCounting item.1.pair s known sound.0, sound.1))

  enrich_position-IsSoundState :
      (P : ℕ → FxPosition F → Type 0) (per_lot : Dict String F) (reply : Segment → CandleReply F)
      (item : ℕ × FxPosition F) (s t : Enriching F)
      → P item.0 item.1
      → enrich_position per_lot reply item s ≡ some t
      → IsSoundState P s
      → IsSoundState P t
  unfolding enrich_position
  enrich_position-IsSoundState P per_lot reply item s t here e sound =
      elim (Bool-cases (elem item.1.pair s.abandoned)) [
        | inl gone ↦
            let same : record s { skipped = s.skipped + 1 } ≡ t = ground arith in
            subst (IsSoundState P) same sound
        | inr known ↦
            note_reply-IsSoundState P per_lot item (fetch_segments reply (span_of item.1)) s t here
              known (ground arith) sound
      ]

  pub enrich_from-IsSoundState :
      (P : ℕ → FxPosition F → Type 0) (per_lot : Dict String F) (visit : ℕ → Visit F) (index : ℕ)
      (todo : List (ℕ × FxPosition F)) (s t : Enriching F)
      → All (λ item. P item.0 item.1) todo
      → enrich_from per_lot visit index todo s ≡ some t
      → IsSoundState P s
      → IsSoundState P t
  unfolding enrich_from
  enrich_from-IsSoundState P per_lot visit index [] s t among e sound =
      subst (IsSoundState P) (some-injective _ _ e) sound
  enrich_from-IsSoundState P per_lot visit index (item ∷ todo) s t among e sound =
      elim (Bool-cases (visit index).is_over) [
        | inl over ↦
            let same : record s { out_of_time = true; deferred = s.deferred + length (item ∷ todo) }
                ≡ t =
              ground arith in
            subst (IsSoundState P) same sound
        | inr on ↦ elim (Option-cases (enrich_position per_lot (visit index).reply item s)) [
          | inl dead ↦ absurd (ground arith)
          | inr (next, stepped) ↦
              enrich_from-IsSoundState P per_lot visit (index + 1) todo next t among.1
                (ground arith)
                (enrich_position-IsSoundState P per_lot (visit index).reply item s next among.0
                  stepped sound)
        ]
      ]
