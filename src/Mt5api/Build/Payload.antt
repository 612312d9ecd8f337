-- ===== src/Mt5api/Build/Payload.antt =====
-- mt5api/payload.py: what a sync brings, from the history of the terminal.
use mathlib.Core.Option
use mt5_connector.Common.{Option, map}
use mt5_connector.Common.Float.{Float}
use mt5_connector.Common.Int.{ℤ}
use mt5_connector.Domain.Fx.{FxOpenPosition, FxPosition, SyncPayload, Transaction}
use mt5_connector.Mt5api.Build.Others.{build_open_positions, build_transactions}
use mt5_connector.Mt5api.Build.Position.{build_fx_positions}
use mt5_connector.Mt5api.Clock.Defs.{IsoText, ServerClock, rows_of, to_utc}
use mt5_connector.Mt5api.Clock.Times.{Stamp, naive}
use mt5_connector.Mt5api.Raw.{RawHistory}

abbrev pub utc_of : ServerClock → Option ℤ → Option Stamp
utc_of clock time = to_utc clock (Option.map naive time)

module _ {F : Type 0} where
  abbrev pub date_position : ServerClock → FxPosition F → FxPosition F
  date_position clock p = record p {
    created_at_utc = utc_of clock p.created_at;
    closed_at_utc = utc_of clock p.closed_at;
  }

  abbrev pub date_open_position : ServerClock → FxOpenPosition F → FxOpenPosition F
  date_open_position clock p = record p { open_time_utc = utc_of clock p.open_time }

  abbrev pub date_transaction : ServerClock → Transaction F → Transaction F
  date_transaction clock t = record t { time_utc = utc_of clock t.time }

module _ {F : Type 0} ⦃fl : Float F⦄ where
  unfoldable pub build_sync_payload : IsoText → RawHistory F → SyncPayload F
  build_sync_payload text history =
      let account = history.account in
      record {
        account_info = record {
          balance = account.balance;
          leverage = account.leverage;
          currency = account.currency;
        };
        equity = account.equity;
        positions =
            map (date_position history.clock)
              (build_fx_positions history.deals history.orders account.balance account.leverage);
        open_positions =
            map (date_open_position history.clock)
              (build_open_positions history.positions history.orders);
        transactions = map (date_transaction history.clock) (build_transactions history.deals);
        server_clock = rows_of text history.clock;
      }
