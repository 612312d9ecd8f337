-- ===== src/Mt5api/History.antt =====
-- mt5api/fetch.py, from the account to the candles, and the middle of `_run_task` of pool/worker.py:
-- the history, the payload, its enrichment and its rows. What the MetaTrader5 package answers is an
-- input, with the code of the last error after each call.
pub mod Withheld
pub mod Login
pub mod TaskLogin
pub mod Tests
use mathlib.Core.Option
use mt5_connector.Common.{
  Bool, List, Option, String, [], false, if◌then◌else◌, keep, map, none, not, some, true, ℕ, ◌&&◌,
  ◌++◌, ◌||◌, ◌∷◌,
}
use mt5_connector.Common.Float.{Float, le}
use mt5_connector.Common.Int.{abs, leb_ℤ, ℤ}
use mt5_connector.Domain.Fx.{SyncPayload}
use mt5_connector.Domain.Rows.{Documents, Hashing, rows_from_payload}
use mt5_connector.Mt5api.Build.Payload.{build_sync_payload}
use mt5_connector.Mt5api.Clock.Defs.{IsoText, ServerClock}
use mt5_connector.Mt5api.Enrich.Levels.{measure}
use mt5_connector.Mt5api.Enrich.Loop.{
  CandleReply, Visit, candles, candles_failed, enrich_mae_mfe, terminal_gone,
}
use mt5_connector.Mt5api.Enrich.Segments.{Segment}
use mt5_connector.Mt5api.Fetch.{
  ClockCache, Settled, clock_symbols, fetch_clock, settled, timed_over, unanswered,
}
use mt5_connector.Mt5api.Raw.{
  Mt5Row, RawAccount, RawCandle, RawDeal, RawHistory, RawOrder, RawPosition, account_of_row,
  candle_of, deal_of, order_of, position_of,
}
use mt5_connector.Mt5api.Terminal.Connect.{Probes, check_call, terminal_failure}
use mt5_connector.Mt5api.Terminal.Start.{Outcome, Setup, Terminal, raised, returned}
use mt5_connector.Mt5api.Terminal.Task.{Fetched, broken, fetched}
use mt5_connector.Services.Store.{SyncRows}

-- A call that answers with rows, or with None.
pub record Answer (F : Type 0) : Type 0 where
  pub rows : Option (List (Mt5Row F))
  pub code : Option ℤ

-- What the calls of `fetch_history` answer; `settled` is what `wait_for_history` comes to, and
-- `measure` what `measure_server_clock` answers for the symbols.
pub record HistoryAnswers (F : Type 0) : Type 0 where
  pub account : Option (Mt5Row F)
  pub account_code : Option ℤ
  pub settled : Settled
  pub deals : Answer F
  pub orders : Answer F
  pub positions : Answer F
  pub open_orders : Answer F
  pub measure : List String → ServerClock

-- What a fetch changes: the terminal, and the cache of the clocks.
abbrev pub Held : Type 0
Held = Terminal × ClockCache

-- A result that was raised is raised on.
abbrev pub and_then :
    {A B : Type 0} → Outcome A × Held → (A → Held → Outcome B × Held) → Outcome B × Held
and_then (raised error, held) f = (raised error, held)
and_then (returned a, held) f = f a held

module _ (setup : Setup) (probes : Probes) where
  abbrev pub fail_with : {A : Type 0} → Option ℤ → Held → Outcome A × Held
  fail_with code (t, cache) =
      let (error, t') = terminal_failure setup probes code t in (raised error, (t', cache))

  abbrev pub check_rows :
      {A F : Type 0} → (Mt5Row F → A) → Answer F → Held → Outcome (List A) × Held
  check_rows read answer (t, cache) =
      let (outcome, t') = check_call setup probes answer.rows answer.code t in
      and_then (outcome, (t', cache)) (λ rows held. (returned (map read rows), held))

  abbrev pub wait_settled : Settled → Held → Outcome Unit × Held
  wait_settled (settled total) held = (returned tt, held)
  wait_settled timed_over held = (returned tt, held)
  wait_settled (unanswered code) held = fail_with code held

  abbrev pub clock_for : ℕ → String → ServerClock → Held → Outcome ServerClock × Held
  clock_for now server measured (t, cache) =
      let (clock, cache') = fetch_clock now server measured cache in (returned clock, (t, cache'))

  module _ {F : Type 0} ⦃fl : Float F⦄ where
    abbrev pub fetch_account : Option (Mt5Row F) → Option ℤ → Held → Outcome (RawAccount F) × Held
    fetch_account none code held = fail_with code held
    fetch_account (some row) code held = (returned (account_of_row row), held)

    -- `fetch_deals`, `fetch_orders`, `fetch_open_positions` and `fetch_open_orders`
    abbrev pub fetch_deals : Answer F → Held → Outcome (List (RawDeal F)) × Held
    fetch_deals answer held = check_rows deal_of answer held

    abbrev pub fetch_orders : Answer F → Held → Outcome (List (RawOrder F)) × Held
    fetch_orders answer held = check_rows order_of answer held

    abbrev pub fetch_open_positions : Answer F → Held → Outcome (List (RawPosition F)) × Held
    fetch_open_positions answer held = check_rows position_of answer held

    unfoldable pub fetch_history : ℕ → HistoryAnswers F → Held → Outcome (RawHistory F) × Held
    fetch_history now calls held =
        and_then (fetch_account calls.account calls.account_code held) λ account held₁.
          and_then (wait_settled calls.settled held₁) λ _ held₂.
            and_then (fetch_deals calls.deals held₂) λ deals held₃.
              and_then (fetch_orders calls.orders held₃) λ orders held₄.
                and_then (fetch_open_positions calls.positions held₄) λ positions held₅.
                  and_then
                    (clock_for now account.server
                      (calls.measure (clock_symbols (map (λ deal. deal.symbol) deals))) held₅)
                    λ clock held₆.
                      and_then (fetch_orders calls.open_orders held₆) λ open_orders held₇. (
                        returned (record {
                          account = account;
                          deals = deals;
                          orders = orders ++ open_orders;
                          positions = positions;
                          clock = clock;
                        }),
                        held₇,
                      )

    abbrev pub is_inside : ℤ → ℤ → RawCandle F → Bool
    is_inside start end_ candle = elim candle.time [
      | none ↦ false
      | some time ↦ leb_ℤ start time && leb_ℤ time end_
    ]

    unfoldable pub fetch_candles : ℤ → ℤ → Answer F → Held → Outcome (List (RawCandle F)) × Held
    fetch_candles start end_ answer held =
        and_then (check_rows candle_of answer held)
          (λ rows held'. (returned (keep (is_inside start end_) rows), held'))

    abbrev pub reply_of : Outcome (List (RawCandle F)) × Held → CandleReply F
    reply_of (returned cs, held) = candles cs
    reply_of (raised error, held) = if error.terminal_lost then terminal_gone else candles_failed

    -- A round of the enrichment on what the terminal answers: an error that does not lose the
    -- terminal leaves it as it is.
    abbrev pub visit_of : Held → (ℕ → Bool × (Segment → Answer F)) → ℕ → Visit F
    visit_of held rounds index = record {
      is_over = (rounds index).0;
      reply = λ s. reply_of (fetch_candles s.begins s.ends ((rounds index).1 s) held);
    }

module _ {F : Type 0} ⦃fl : Float F⦄ where
  abbrev pub is_round_balance : F → Bool
  is_round_balance balance =
      le (fl.abs (fl.sub balance (fl.round_tens balance))) (fl.of_text "0.005")

  unfoldable pub history_withheld : RawHistory F → Bool
  history_withheld history = elim history.deals [
    | deal ∷ deals ↦ false
    | [] ↦
        elim history.positions [ [] ↦ false | p ∷ ps ↦ true ]
        || not (is_round_balance history.account.balance)
        || not (fl.eq history.account.equity history.account.balance)
  ]

-- The parameters of `_run_task`.
pub record TaskSettings : Type 0 where
  pub with_mae_mfe : Bool
  pub enrich_limit : ℕ
  pub already_measured : List String

-- What the enrichment leaves of the payload, `none` where the terminal is lost.
abbrev pub enrich_payload :
    {F : Type 0} ⦃fl : Float F⦄
    → TaskSettings
    → Bool
    → (ℕ → Visit F)
    → SyncPayload F
    → Option (SyncPayload F)
enrich_payload settings withheld visit payload =
    if settings.with_mae_mfe && not withheld
    then Option.map (λ ps. record payload { positions = ps })
        (enrich_mae_mfe visit (some settings.enrich_limit) settings.already_measured
          payload.positions)
    else some payload

module _ {F O : Type 0} ⦃fl : Float F⦄ (text : IsoText) (hashing : Hashing)
    (docs : Documents F O) where
  -- From the payload on; `lost_code` is that of the last error where the terminal is lost.
  abbrev pub answer_payload :
      Setup
      → Probes
      → Option ℤ
      → Bool
      → Held
      → Option (SyncPayload F)
      → Fetched (SyncRows F O) × Held
  answer_payload setup probes lost_code withheld (t, cache) none =
      let (error, t') = terminal_failure setup probes lost_code t in
      (broken withheld error, (t', cache))
  answer_payload setup probes lost_code withheld held (some payload) =
      (fetched (rows_from_payload text hashing docs payload) withheld, held)

  abbrev pub answer_history :
      Setup
      → Probes
      → TaskSettings
      → (ℕ → Bool × (Segment → Answer F))
      → Option ℤ
      → Outcome (RawHistory F) × Held
      → Fetched (SyncRows F O) × Held
  answer_history setup probes settings rounds lost_code (raised error, held) =
      (broken false error, held)
  answer_history setup probes settings rounds lost_code (returned history, held) =
      let withheld = history_withheld history in
      answer_payload setup probes lost_code withheld held (
        enrich_payload settings withheld (visit_of setup probes held rounds)
          (build_sync_payload text history))

  -- The fetch of `_run_task`, from `fetch_history` to `rows_from_payload`.
  unfoldable pub fetch_payload :
      Setup
      → Probes
      → TaskSettings
      → ℕ
      → HistoryAnswers F
      → (ℕ → Bool × (Segment → Answer F))
      → Option ℤ
      → Held
      → Fetched (SyncRows F O) × Held
  fetch_payload setup probes settings now calls rounds lost_code held =
      answer_history setup probes settings rounds lost_code
        (fetch_history setup probes now calls held)
