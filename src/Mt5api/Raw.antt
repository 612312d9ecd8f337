-- ===== src/Mt5api/Raw.antt =====
-- mt5api/raw.py: the rows of the MetaTrader5 package as the code keeps them. A row of the package is
-- its named fields: `none` for a field that is missing or None. Its numbers are not negative.
use mt5_connector.Common.{
  Bool, List, Option, String, [], if◌then◌else◌, nat_eq, none, not, some, string_eq, ℕ, ◌*◌, ◌==◌,
  ◌||◌, ◌∷◌,
}
use mt5_connector.Common.Float.{Float, or_nought}
use mt5_connector.Common.Int.{pos, ℤ}
use mt5_connector.Mt5api.Clock.Defs.{ServerClock}
use mt5_connector.Mt5api.Clock.Times.{from_epoch}

pub record Mt5Row (F : Type 0) : Type 0 where
  pub ints : String → Option ℕ
  pub floats : String → Option F
  pub texts : String → Option String

abbrev pub deal_type_buy : ℕ
deal_type_buy = 0

abbrev pub deal_type_sell : ℕ
deal_type_sell = 1

abbrev pub balance_deal_types : List ℕ
balance_deal_types = 2 ∷ 3 ∷ 4 ∷ 5 ∷ 6 ∷ []

abbrev pub deal_entry_in : ℕ
deal_entry_in = 0

abbrev pub deal_entry_out : ℕ
deal_entry_out = 1

abbrev pub deal_entry_inout : ℕ
deal_entry_inout = 2

abbrev pub deal_entry_out_by : ℕ
deal_entry_out_by = 3

abbrev pub position_type_sell : ℕ
position_type_sell = 1

abbrev pub timeframe_m1 : ℕ
timeframe_m1 = 1

abbrev pub timeframe_d1 : ℕ
timeframe_d1 = 16408

-- `_stamp`: milliseconds, or seconds where there are none
unfoldable pub stamp : ℕ → ℕ → Option ℤ
stamp msc seconds =
    if not (msc == 0)
    then some (pos (1000 * msc))
    else if not (seconds == 0)
    then some (from_epoch seconds)
    else none

pub record RawDeal (F : Type 0) : Type 0 where
  pub ticket : ℕ
  pub order : ℕ
  pub position_id : ℕ
  pub time : Option ℤ
  pub time_msc : ℕ
  pub kind : ℕ
  pub entry : ℕ
  pub volume : F
  pub price : F
  pub commission : F
  pub swap : F
  pub profit : F
  pub fee : F
  pub symbol : String
  pub comment : String

pub record RawOrder (F : Type 0) : Type 0 where
  pub ticket : ℕ
  pub position_id : ℕ
  pub time_setup : Option ℤ
  pub time_done : Option ℤ
  pub kind : ℕ
  pub state : ℕ
  pub volume_initial : F
  pub volume_current : F
  pub price_open : F
  pub price_stoplimit : F
  pub sl : F
  pub tp : F

pub record RawPosition (F : Type 0) : Type 0 where
  pub ticket : ℕ
  pub identifier : ℕ
  pub time : Option ℤ
  pub kind : ℕ
  pub volume : F
  pub price_open : F
  pub price_current : F
  pub symbol : String

pub record RawCandle (F : Type 0) : Type 0 where
  pub time : Option ℤ
  pub high : F
  pub low : F

pub record RawAccount (F : Type 0) : Type 0 where
  pub login : ℕ
  pub balance : F
  pub equity : F
  pub leverage : ℕ
  pub currency : String
  pub server : String

pub record RawHistory (F : Type 0) : Type 0 where
  pub account : RawAccount F
  pub deals : List (RawDeal F)
  pub orders : List (RawOrder F)
  pub positions : List (RawPosition F)
  pub clock : ServerClock

abbrev pub or_0 : Option ℕ → ℕ
or_0 none = 0
or_0 (some n) = n

abbrev pub or_empty : Option String → String
or_empty none = ""
or_empty (some s) = s

module _ {F : Type 0} where
  -- `is_trading`, `is_opening` and `is_closing`
  abbrev pub is_trading : RawDeal F → Bool
  is_trading deal = deal.kind == deal_type_buy || deal.kind == deal_type_sell

  abbrev pub is_opening : RawDeal F → Bool
  is_opening deal = deal.entry == deal_entry_in || deal.entry == deal_entry_inout

  abbrev pub is_closing : RawDeal F → Bool
  is_closing deal =
      deal.entry == deal_entry_out
      || deal.entry == deal_entry_out_by
      || deal.entry == deal_entry_inout

  -- `_int` and `_str`
  abbrev pub int_of : Mt5Row F → String → ℕ
  int_of row name = or_0 (row.ints name)

  abbrev pub str_of : Mt5Row F → String → String
  str_of row name = or_empty (row.texts name)

module _ {F : Type 0} ⦃fl : Float F⦄ where
  abbrev pub balance_delta : RawDeal F → F
  balance_delta deal = fl.add (fl.add (fl.add deal.profit deal.swap) deal.commission) deal.fee

  abbrev pub float_or : Option F → F
  float_or none = fl.nought
  float_or (some x) = or_nought x

  -- `_float`
  abbrev pub float_of : Mt5Row F → String → F
  float_of row name = float_or (row.floats name)

  unfoldable pub deal_of : Mt5Row F → RawDeal F
  deal_of row =
      let msc = int_of row "time_msc" in
      let seconds = int_of row "time" in
      record {
        ticket = int_of row "ticket";
        order = int_of row "order";
        position_id = int_of row "position_id";
        time = stamp msc seconds;
        time_msc = if msc == 0 then 1000 * seconds else msc;
        kind = int_of row "type";
        entry = int_of row "entry";
        volume = float_of row "volume";
        price = float_of row "price";
        commission = float_of row "commission";
        swap = float_of row "swap";
        profit = float_of row "profit";
        fee = float_of row "fee";
        symbol = str_of row "symbol";
        comment = str_of row "comment";
      }

  unfoldable pub order_of : Mt5Row F → RawOrder F
  order_of row = record {
    ticket = int_of row "ticket";
    position_id = int_of row "position_id";
    time_setup = stamp (int_of row "time_setup_msc") (int_of row "time_setup");
    time_done = stamp (int_of row "time_done_msc") (int_of row "time_done");
    kind = int_of row "type";
    state = int_of row "state";
    volume_initial = float_of row "volume_initial";
    volume_current = float_of row "volume_current";
    price_open = float_of row "price_open";
    price_stoplimit = float_of row "price_stoplimit";
    sl = float_of row "sl";
    tp = float_of row "tp";
  }

  unfoldable pub position_of : Mt5Row F → RawPosition F
  position_of row = record {
    ticket = int_of row "ticket";
    identifier = int_of row "identifier";
    time = stamp (int_of row "time_msc") (int_of row "time");
    kind = int_of row "type";
    volume = float_of row "volume";
    price_open = float_of row "price_open";
    price_current = float_of row "price_current";
    symbol = str_of row "symbol";
  }

  unfoldable pub candle_of : Mt5Row F → RawCandle F
  candle_of row = record {
    time = stamp 0 (int_of row "time");
    high = float_of row "high";
    low = float_of row "low";
  }

  unfoldable pub account_of_row : Mt5Row F → RawAccount F
  account_of_row row = record {
    login = int_of row "login";
    balance = float_of row "balance";
    equity = float_of row "equity";
    leverage = int_of row "leverage";
    currency = str_of row "currency";
    server = str_of row "server";
  }
