-- ===== src/Mt5api/History/Login.antt =====
-- That the calls of `fetch_history` (mt5api/fetch.py) neither bind the terminal nor log in.

use mt5_connector.Common.{List, Option, [], arith, if-cases, map, none, some, ℕ, ◌∙◌, ◌≡◌, ◌++◌}
use mt5_connector.Common.Float.{Float}
use mt5_connector.Common.Int.{ℤ}
use mt5_connector.Mt5api.Clock.Defs.{ServerClock}
use mt5_connector.Mt5api.Fetch.{
  Settled, settled, timed_over, unanswered, clock_symbols, fetch_clock,
}
use mt5_connector.Mt5api.History.{
  Answer, Held, HistoryAnswers, and_then, check_rows, fail_with, fetch_account, fetch_history,
  wait_settled, fetch_deals, fetch_orders, fetch_open_positions, clock_for,
}
use mt5_connector.Mt5api.Raw.{
  Mt5Row, RawHistory, deal_of, order_of, position_of, RawAccount, RawDeal, RawOrder, RawPosition,
}
use mt5_connector.Mt5api.Terminal.Connect.{Probes, check_call, is_ok_code, terminal_failure}
use mt5_connector.Mt5api.Terminal.Start.{Outcome, Setup, Terminal, raised, returned}

-- What is left of `fetch_history` after each of its calls.
abbrev Ends : Type 0 → Type 0
Ends F = Held → Outcome (RawHistory F) × Held

-- Bound as before, and with the login that it had.
abbrev pub SameLogin : Terminal → Terminal → Type 0
SameLogin t t' = (t'.is_bound ≡ t.is_bound) × (t'.current_login ≡ t.current_login)

pub SameLogin-trans : (t u v : Terminal) → SameLogin t u → SameLogin u v → SameLogin t v
SameLogin-trans t u v first second = (second.0 ∙ first.0, second.1 ∙ first.1)

pub terminal_failure-SameLogin :
    (setup : Setup) (probes : Probes) (code : Option ℤ) (t : Terminal)
    → SameLogin t (terminal_failure setup probes code t).1
unfolding terminal_failure
terminal_failure-SameLogin setup probes code t = (ground arith, ground arith)

and_then-SameLogin :
    {A B : Type 0} (t : Terminal) (x : Outcome A × Held) (f : A → Held → Outcome B × Held)
    → SameLogin t x.1.0
    → ((a : A) (held : Held) → SameLogin t held.0 → SameLogin t (f a held).1.0)
    → SameLogin t (and_then x f).1.0
and_then-SameLogin t (raised error, held) f same next = same
and_then-SameLogin t (returned a, held) f same next = next a held same

-- The rest of the fetch leaves the login as it was.
abbrev KeepsEnds : {F : Type 0} → Terminal → Ends F → Type 0
KeepsEnds t ends = (held : Held) → SameLogin t held.0 → SameLogin t (ends held).1.0

module _ (setup : Setup) (probes : Probes) (t : Terminal) where
  fail_with-SameLogin :
      (A : Type 0) (code : Option ℤ) (held : Held)
      → SameLogin t held.0
      → SameLogin t (fail_with setup probes {A = A} code held).1.0
  fail_with-SameLogin A code (u, cache) same =
      SameLogin-trans t u (terminal_failure setup probes code u).1 same
        (terminal_failure-SameLogin setup probes code u)

  check_call-SameLogin :
      {A : Type 0} (rows : Option (List A)) (code : Option ℤ) (u : Terminal)
      → SameLogin t u
      → SameLogin t (check_call setup probes rows code u).1
  unfolding check_call
  check_call-SameLogin (some rows) code u same = same
  check_call-SameLogin none code u same =
      if-cases (λ (x : Outcome (List _) × Terminal). SameLogin t x.1) (is_ok_code code)
        (returned [], u)
        (let (error, u') = terminal_failure setup probes code u in (raised error, u'))
        (λ fine. same)
        (λ bad.
          SameLogin-trans t u (terminal_failure setup probes code u).1 same
            (terminal_failure-SameLogin setup probes code u))

  check_rows-SameLogin :
      {A F : Type 0} (read : Mt5Row F → A) (answer : Answer F) (held : Held)
      → SameLogin t held.0
      → SameLogin t (check_rows setup probes read answer held).1.0
  check_rows-SameLogin read answer (u, cache) same =
      let called = check_call setup probes answer.rows answer.code u in
      and_then-SameLogin t (called.0, (called.1, cache))
        (λ rows held. (returned (map read rows), held))
        (check_call-SameLogin answer.rows answer.code u same) (λ rows held kept. kept)

  wait_settled-SameLogin :
      (answer : Settled) (held : Held)
      → SameLogin t held.0
      → SameLogin t (wait_settled setup probes answer held).1.0
  wait_settled-SameLogin (settled total) held same = same
  wait_settled-SameLogin timed_over held same = same
  wait_settled-SameLogin (unanswered code) held same = fail_with-SameLogin Unit code held same

  module _ {F : Type 0} ⦃fl : Float F⦄ where
    fetch_account-SameLogin :
        (row : Option (Mt5Row F)) (code : Option ℤ) (held : Held)
        → SameLogin t held.0
        → SameLogin t (fetch_account setup probes row code held).1.0
    fetch_account-SameLogin none code held same = fail_with-SameLogin (RawAccount F) code held same
    fetch_account-SameLogin (some row) code held same = same

    module _ (now : ℕ) (calls : HistoryAnswers F) (account : RawAccount F) where
      abbrev with_clock :
          List (RawDeal F) → List (RawOrder F) → List (RawPosition F) → ServerClock → Ends F
      with_clock deals orders positions clock held =
          and_then (fetch_orders setup probes calls.open_orders held) λ open_orders held'. (
            returned (record {
              account = account;
              deals = deals;
              orders = orders ++ open_orders;
              positions = positions;
              clock = clock;
            }),
            held',
          )

      abbrev with_positions : List (RawDeal F) → List (RawOrder F) → List (RawPosition F) → Ends F
      with_positions deals orders positions held =
          and_then
            (clock_for setup probes now account.server
              (calls.measure (clock_symbols (map (λ deal. deal.symbol) deals))) held)
            (with_clock deals orders positions)

      abbrev with_orders : List (RawDeal F) → List (RawOrder F) → Ends F
      with_orders deals orders held =
          and_then (fetch_open_positions setup probes calls.positions held)
            (with_positions deals orders)

      abbrev with_deals : List (RawDeal F) → Ends F
      with_deals deals held =
          and_then (fetch_orders setup probes calls.orders held) (with_orders deals)

      abbrev once_settled : Ends F
      once_settled held = and_then (fetch_deals setup probes calls.deals held) with_deals

      with_clock-KeepsEnds :
          (deals : List (RawDeal F)) (orders : List (RawOrder F)) (positions : List (RawPosition F))
          (clock : ServerClock)
          → KeepsEnds t (with_clock deals orders positions clock)
      with_clock-KeepsEnds deals orders positions clock held same =
          and_then-SameLogin t (fetch_orders setup probes calls.open_orders held) _
            (check_rows-SameLogin order_of calls.open_orders held same) (λ _ held' kept. kept)

      with_orders-KeepsEnds :
          (deals : List (RawDeal F)) (orders : List (RawOrder F))
          → KeepsEnds t (with_orders deals orders)
      with_orders-KeepsEnds deals orders held same =
          and_then-SameLogin t (fetch_open_positions setup probes calls.positions held)
            (with_positions deals orders)
            (check_rows-SameLogin position_of calls.positions held same)
            (λ positions held' same'.
              with_clock-KeepsEnds deals orders positions
                (fetch_clock now account.server
                  (calls.measure (clock_symbols (map (λ deal. deal.symbol) deals))) held'.1).0
                (
                  held'.0,
                  (fetch_clock now account.server
                      (calls.measure (clock_symbols (map (λ deal. deal.symbol) deals))) held'.1).1,
                )
                same')

      once_settled-KeepsEnds : KeepsEnds t once_settled
      once_settled-KeepsEnds held same =
          and_then-SameLogin t (fetch_deals setup probes calls.deals held) with_deals
            (check_rows-SameLogin deal_of calls.deals held same)
            (λ deals held' same'.
              and_then-SameLogin t (fetch_orders setup probes calls.orders held')
                (with_orders deals) (check_rows-SameLogin order_of calls.orders held' same')
                (with_orders-KeepsEnds deals))

    pub fetch_history-SameLogin :
        (now : ℕ) (calls : HistoryAnswers F) (held : Held)
        → SameLogin t held.0
        → SameLogin t (fetch_history setup probes now calls held).1.0
    unfolding fetch_history
    fetch_history-SameLogin now calls held same =
        and_then-SameLogin t (fetch_account setup probes calls.account calls.account_code held)
          (λ account held₁.
            and_then (wait_settled setup probes calls.settled held₁)
              (λ _. once_settled now calls account))
          (fetch_account-SameLogin calls.account calls.account_code held same)
          (λ account held₁ same₁.
            and_then-SameLogin t (wait_settled setup probes calls.settled held₁)
              (λ _. once_settled now calls account)
              (wait_settled-SameLogin calls.settled held₁ same₁)
              (λ _. once_settled-KeepsEnds now calls account))
