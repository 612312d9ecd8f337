-- ===== src/Services/Queries.antt =====
-- services/query_service.py, and the listings of repositories/position_repo.py,
-- repositories/transaction_repo.py and repositories/account_repo.py. The database may give rows with
-- equal times in any order; here it is that of the table.
use mathlib.Core.Option
use mt5_connector.Common.{
  Bool, List, Option, String, drop, false, if◌then◌else◌, keep, leb, map, nat_eq, none, not, some,
  string_eq, take, true, ℕ, ◌*◌, ◌==◌, ◌≡◌,
}
use mt5_connector.Common.Dict.{Dict}
use mt5_connector.Common.Float.{Float}
use mt5_connector.Common.Int.{leb_ℤ, pos, ℤ, ◌-ℤ◌}
use mt5_connector.Common.Sort.{sort_by}
use mt5_connector.Domain.Fx.{BalanceSnapshot, FxOpenPosition, FxPosition, Transaction}
use mt5_connector.Domain.Rows.{Documents, map-inverse, position_row}
use mt5_connector.Mt5api.Build.Others.{build_balance_snapshots}
use mt5_connector.Mt5api.Build.Payload.{date_position}
use mt5_connector.Mt5api.Clock.Defs.{ServerClock, to_server, to_utc}
use mt5_connector.Mt5api.Clock.Times.{Stamp, as_server_time, day, naive, utc}
use mt5_connector.Services.Store.{
  Account, OpenPositionData, PositionData, Row, Store, TransactionData, key_eq,
}

-- `cutoff_from_days`; `now` is in microseconds of UTC
abbrev pub cutoff_from_days : ℕ → Option ℕ → Option Stamp
cutoff_from_days now none = none
cutoff_from_days now (some days) =
    if days == 0 then none else some (utc (pos now -ℤ pos (days * day)))

abbrev pub or_stamp : Option Stamp → Stamp → Stamp
or_stamp none cutoff = cutoff
or_stamp (some shown) cutoff = shown

-- `_window_start`
unfoldable pub window_start : ServerClock → ℕ → Option ℕ → Option ℤ
window_start clock now days =
    Option.map (λ cutoff. as_server_time (or_stamp (to_server clock (some cutoff)) cutoff))
      (cutoff_from_days now days)

-- `time >= start`, which no row without a time satisfies
abbrev pub is_from : Option ℤ → Option ℤ → Bool
is_from none time = true
is_from (some start) none = false
is_from (some start) (some time) = leb_ℤ start time

-- `desc().nullslast()` and `asc().nullsfirst()`
abbrev pub latest_before : Option ℤ → Option ℤ → Bool
latest_before none none = true
latest_before none (some b) = false
latest_before (some a) none = true
latest_before (some a) (some b) = leb_ℤ b a

abbrev pub none_first : Option ℤ → Option ℤ → Bool
none_first none b = true
none_first (some a) none = false
none_first (some a) (some b) = leb_ℤ a b

module _ {D : Type 0} where
  -- The rows of an account in a table.
  abbrev pub rows_of_account : String → Dict (String × String) (Row D) → List D
  rows_of_account account table =
      map (λ entry. entry.1.values) (keep (λ entry. entry.0.0 == account) table)

  abbrev pub page : ℕ → ℕ → List D → List D
  page limit offset rows = take limit (drop offset rows)

abbrev pub is_enabled_as : {F : Type 0} → Option Bool → Account F → Bool
is_enabled_as none account = true
is_enabled_as (some true) account = account.enabled
is_enabled_as (some false) account = not account.enabled

module _ {F O : Type 0} where
  -- `PositionRepository.list`
  unfoldable pub list_positions : String → Option ℤ → ℕ → ℕ → Store F O → List (PositionData F O)
  list_positions account closed_after limit offset db = page limit offset (
      sort_by (λ a b. latest_before a.closed_at b.closed_at)
        (keep (λ p. is_from closed_after p.closed_at) (rows_of_account account db.positions)))

  -- `PositionRepository.list_all`
  unfoldable pub list_all_positions : String → Store F O → List (PositionData F O)
  list_all_positions account db =
      sort_by (λ a b. none_first a.created_at b.created_at) (rows_of_account account db.positions)

  -- `OpenPositionRepository.list`
  unfoldable pub list_open_positions : String → Store F O → List (OpenPositionData F O)
  list_open_positions account db =
      sort_by (λ a b. latest_before a.open_time b.open_time)
        (rows_of_account account db.open_positions)

  -- `TransactionRepository.list`
  unfoldable pub list_transactions :
      String → Option ℤ → ℕ → ℕ → Store F O → List (TransactionData F)
  list_transactions account after limit offset db = page limit offset (
      sort_by (λ a b. latest_before a.time b.time)
        (keep (λ t. is_from after t.time) (rows_of_account account db.transactions)))

  -- `AccountRepository.list`, the latest account first
  unfoldable pub list_accounts : Option Bool → ℕ → ℕ → Store F O → List (Account F)
  list_accounts enabled limit offset db = page limit offset (
      sort_by (λ a b. leb b.created_at a.created_at)
        (keep (is_enabled_as enabled) (map (λ entry. entry.1) db.accounts)))

module _ {F O : Type 0} (docs : Documents F O) (clock : ServerClock) where
  abbrev pub shown_utc : Option ℤ → Option Stamp
  shown_utc time = to_utc clock (Option.map naive time)

  abbrev pub position_to_fx : PositionData F O → FxPosition F
  position_to_fx row = record {
    id = row.external_id;
    side = row.side;
    pair = row.pair;
    amount = row.amount;
    entry_price = row.entry_price;
    exit_price = row.exit_price;
    pnl = row.pnl;
    net_pnl = row.net_pnl;
    commission = row.commission;
    swap = row.swap;
    mae = row.mae;
    mfe = row.mfe;
    rr = row.rr;
    rr_planned = row.rr_planned;
    tp = row.tp;
    sl = row.sl;
    liquidation_price = row.liquidation_price;
    multiplier = row.multiplier;
    isolated = row.isolated;
    closed = row.closed;
    status = row.status;
    created_at = row.created_at;
    closed_at = row.closed_at;
    created_at_utc = shown_utc row.created_at;
    closed_at_utc = shown_utc row.closed_at;
    orders = map docs.validate row.orders;
    balance_init = row.balance_init;
  }

  abbrev pub open_position_to_fx : OpenPositionData F O → FxOpenPosition F
  open_position_to_fx row = record {
    id = row.external_id;
    pair = row.pair;
    amount = row.amount;
    side = row.side;
    entry_price = row.entry_price;
    current_price = row.current_price;
    open_time = row.open_time;
    open_time_utc = shown_utc row.open_time;
    orders = map docs.validate row.orders;
  }

  abbrev pub transaction_to_fx : TransactionData F → Transaction F
  transaction_to_fx row = record {
    time = row.time;
    time_utc = shown_utc row.time;
    kind = row.kind;
    amount = row.amount;
  }

  -- `QueryService.positions`, `open_positions`, `transactions` and `balance_snapshots`
  unfoldable pub query_positions : String → ℕ → Option ℕ → ℕ → ℕ → Store F O → List (FxPosition F)
  query_positions account now days limit offset db =
      map position_to_fx (list_positions account (window_start clock now days) limit offset db)

  unfoldable pub query_open_positions : String → Store F O → List (FxOpenPosition F)
  query_open_positions account db = map open_position_to_fx (list_open_positions account db)

  unfoldable pub query_transactions :
      String → ℕ → Option ℕ → ℕ → ℕ → Store F O → List (Transaction F)
  query_transactions account now days limit offset db =
      map transaction_to_fx
        (list_transactions account (window_start clock now days) limit offset db)

  unfoldable pub query_balance_snapshots :
      ⦃fl : Float F⦄ → String → ℕ → Option ℕ → Store F O → List (BalanceSnapshot F)
  query_balance_snapshots account now days db =
      build_balance_snapshots (map position_to_fx (list_all_positions account db))
        (window_start clock now days) clock

module _ {F O : Type 0} (docs : Documents F O) (clock : ServerClock) where
  -- A position that is stored from a payload is answered as it was there, its times in UTC read by
  -- the clock of the account.
  pub position_to_fx-position_row :
      (p : FxPosition F)
      → position_to_fx docs clock (position_row docs p).values ≡ date_position clock p
  position_to_fx-position_row p i = record (date_position clock p) {
    orders = map-inverse docs.dump docs.validate p.orders docs.validate-dump i;
  }
