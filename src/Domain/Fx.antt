-- ===== src/Domain/Fx.antt =====
-- domain/fx.py: what a sync brings. `F` is the type of the floating point numbers. Datetimes are
-- microseconds as the broker's server shows them, and those in UTC have their zone.
use mt5_connector.Common.{Bool, List, Option, String, none, ℕ}
use mt5_connector.Common.Float.{Float}
use mt5_connector.Common.Int.{ℤ}
use mt5_connector.Mt5api.Clock.Defs.{RowTime}
use mt5_connector.Mt5api.Clock.Times.{Stamp}

pub record FxTrade (F : Type 0) : Type 0 where
  pub order_id : String
  pub side : String
  pub price : F
  pub amount : F
  pub commission : F
  pub profit : F
  pub done_at : Option ℤ

pub record FxOrder (F : Type 0) : Type 0 where
  pub id : String
  pub position_id : String
  pub kind : String
  pub status : String
  pub side : String
  pub amount : F
  pub amount_filled : F
  pub average_price : F
  pub stop_price : F
  pub original_price : F
  pub updated_at : Option ℤ
  pub trade : FxTrade F

pub record FxPosition (F : Type 0) : Type 0 where
  pub id : String
  pub side : String
  pub pair : String
  pub amount : F
  pub entry_price : F
  pub exit_price : F
  pub pnl : F
  pub net_pnl : F
  pub commission : F
  pub swap : F
  pub mae : Option F
  pub mfe : Option F
  pub rr : Option F
  pub rr_planned : Option F
  pub tp : Option F
  pub sl : Option F
  pub liquidation_price : F
  pub multiplier : ℕ
  pub isolated : Bool
  pub closed : Bool
  pub status : Option String
  pub created_at : Option ℤ
  pub closed_at : Option ℤ
  pub created_at_utc : Option Stamp
  pub closed_at_utc : Option Stamp
  pub orders : List (FxOrder F)
  pub balance_init : F

pub record FxOpenPosition (F : Type 0) : Type 0 where
  pub id : String
  pub pair : String
  pub amount : F
  pub side : String
  pub entry_price : F
  pub current_price : F
  pub open_time : Option ℤ
  pub open_time_utc : Option Stamp
  pub orders : List (FxOrder F)

pub record FxAccountInfo (F : Type 0) : Type 0 where
  pub balance : F
  pub leverage : ℕ
  pub currency : String

pub record BalanceSnapshot (F : Type 0) : Type 0 where
  pub created_at : Option ℤ
  pub created_at_utc : Option Stamp
  pub balance : F

pub record Transaction (F : Type 0) : Type 0 where
  pub time : Option ℤ
  pub time_utc : Option Stamp
  pub kind : String
  pub amount : F

pub record SyncPayload (F : Type 0) : Type 0 where
  pub account_info : FxAccountInfo F
  pub equity : F
  pub positions : List (FxPosition F)
  pub open_positions : List (FxOpenPosition F)
  pub transactions : List (Transaction F)
  pub server_clock : List (RowTime × ℤ)

-- The default of `trade`: an order without a deal.
abbrev pub no_trade : {F : Type 0} ⦃fl : Float F⦄ → FxTrade F
no_trade ⦃fl = fl⦄ = record {
  order_id = "";
  side = "";
  price = fl.nought;
  amount = fl.nought;
  commission = fl.nought;
  profit = fl.nought;
  done_at = none;
}
