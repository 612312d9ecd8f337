-- ===== src/Domain/Rows.antt =====
-- domain/rows.py: the rows of a payload, and the payload of rows. The documents of the orders are
-- pydantic's, which reads back what it dumps; SHA-256 is a parameter.
use Prim.Native.String.{◌++◌ as concat}
use mt5_connector.Common.{List, Option, String, [], map, none, refl, some, ◌∷◌, ◌≡◌}
use mt5_connector.Common.Float.{Float}
use mt5_connector.Common.Int.{ℤ}
use mt5_connector.Domain.Fx.{FxOpenPosition, FxOrder, FxPosition, SyncPayload, Transaction}
use mt5_connector.Mt5api.Clock.Defs.{IsoText}
use mt5_connector.Services.Store.{OpenPositionRow, PositionRow, SyncRows, TransactionRow, key_eq}

-- `model_dump` and `model_validate` of an order
pub record Documents (F O : Type 0) : Type 0 where
  pub dump : FxOrder F → O
  pub validate : O → FxOrder F
  pub validate-dump : (order : FxOrder F) → validate (dump order) ≡ order

-- `hashlib.sha256`, of which the first 16 hexadecimal digits are taken
pub record Hashing : Type 0 where
  pub digest : String → String

abbrev pub stamp_text : IsoText → Option ℤ → String
stamp_text text none = ""
stamp_text text (some time) = text.print_iso time

module _ {F O : Type 0} (docs : Documents F O) where
  abbrev pub orders_json : List (FxOrder F) → List O
  orders_json orders = map docs.dump orders

  abbrev pub position_row : FxPosition F → PositionRow F O
  position_row p = record {
    values = record {
      external_id = p.id;
      side = p.side;
      pair = p.pair;
      amount = p.amount;
      entry_price = p.entry_price;
      exit_price = p.exit_price;
      pnl = p.pnl;
      net_pnl = p.net_pnl;
      commission = p.commission;
      swap = p.swap;
      mae = p.mae;
      mfe = p.mfe;
      rr = p.rr;
      rr_planned = p.rr_planned;
      tp = p.tp;
      sl = p.sl;
      liquidation_price = p.liquidation_price;
      multiplier = p.multiplier;
      isolated = p.isolated;
      closed = p.closed;
      status = p.status;
      balance_init = p.balance_init;
      created_at = p.created_at;
      closed_at = p.closed_at;
      orders = orders_json p.orders;
    };
    created_at_utc = p.created_at_utc;
    closed_at_utc = p.closed_at_utc;
  }

  abbrev pub position_from_row : PositionRow F O → FxPosition F
  position_from_row row =
      let v = row.values in
      record {
        id = v.external_id;
        side = v.side;
        pair = v.pair;
        amount = v.amount;
        entry_price = v.entry_price;
        exit_price = v.exit_price;
        pnl = v.pnl;
        net_pnl = v.net_pnl;
        commission = v.commission;
        swap = v.swap;
        mae = v.mae;
        mfe = v.mfe;
        rr = v.rr;
        rr_planned = v.rr_planned;
        tp = v.tp;
        sl = v.sl;
        liquidation_price = v.liquidation_price;
        multiplier = v.multiplier;
        isolated = v.isolated;
        closed = v.closed;
        status = v.status;
        created_at = v.created_at;
        closed_at = v.closed_at;
        created_at_utc = row.created_at_utc;
        closed_at_utc = row.closed_at_utc;
        orders = map docs.validate v.orders;
        balance_init = v.balance_init;
      }

  abbrev pub open_position_row : FxOpenPosition F → OpenPositionRow F O
  open_position_row p = record {
    values = record {
      external_id = p.id;
      pair = p.pair;
      amount = p.amount;
      side = p.side;
      entry_price = p.entry_price;
      current_price = p.current_price;
      open_time = p.open_time;
      orders = orders_json p.orders;
    };
    open_time_utc = p.open_time_utc;
  }

  abbrev pub open_position_from_row : OpenPositionRow F O → FxOpenPosition F
  open_position_from_row row =
      let v = row.values in
      record {
        id = v.external_id;
        pair = v.pair;
        amount = v.amount;
        side = v.side;
        entry_price = v.entry_price;
        current_price = v.current_price;
        open_time = v.open_time;
        open_time_utc = row.open_time_utc;
        orders = map docs.validate v.orders;
      }

abbrev pub transaction_from_row : {F : Type 0} → TransactionRow F → Transaction F
transaction_from_row row = record {
  time = row.values.time;
  time_utc = row.time_utc;
  kind = row.values.kind;
  amount = row.values.amount;
}

module _ {F : Type 0} ⦃fl : Float F⦄ (text : IsoText) (hashing : Hashing) where
  abbrev pub transaction_fingerprint : Option ℤ → String → F → String
  transaction_fingerprint time kind amount =
      hashing.digest
        (concat (stamp_text text time) (concat "|" (concat kind (concat "|" (fl.text8 amount)))))

  abbrev pub transaction_row : Transaction F → TransactionRow F
  transaction_row t = record {
    values = record {
      fingerprint = transaction_fingerprint t.time t.kind t.amount;
      time = t.time;
      kind = t.kind;
      amount = t.amount;
    };
    time_utc = t.time_utc;
  }

  unfoldable pub rows_from_payload : {O : Type 0} → Documents F O → SyncPayload F → SyncRows F O
  rows_from_payload docs payload = record {
    balance = payload.account_info.balance;
    equity = payload.equity;
    leverage = payload.account_info.leverage;
    currency = payload.account_info.currency;
    server_clock = payload.server_clock;
    positions = map (position_row docs) payload.positions;
    open_positions = map (open_position_row docs) payload.open_positions;
    transactions = map transaction_row payload.transactions;
  }

pub map-inverse {ℓ κ} :
    {A : Type ℓ} {B : Type κ} (f : A → B) (g : B → A) (xs : List A)
    → ((x : A) → g (f x) ≡ x)
    → map g (map f xs) ≡ xs
map-inverse f g [] back = refl
map-inverse f g (x ∷ xs) back = λ i. back x i ∷ map-inverse f g xs back i

module _ {F O : Type 0} (docs : Documents F O) where
  unfoldable pub payload_from_rows : SyncRows F O → SyncPayload F
  payload_from_rows rows = record {
    account_info = record {
      balance = rows.balance;
      leverage = rows.leverage;
      currency = rows.currency;
    };
    equity = rows.equity;
    positions = map (position_from_row docs) rows.positions;
    open_positions = map (open_position_from_row docs) rows.open_positions;
    transactions = map transaction_from_row rows.transactions;
    server_clock = rows.server_clock;
  }

  position_from_row-position_row :
      (p : FxPosition F) → position_from_row docs (position_row docs p) ≡ p
  position_from_row-position_row p i = record p {
    orders = map-inverse docs.dump docs.validate p.orders docs.validate-dump i;
  }

  open_position_from_row-open_position_row :
      (p : FxOpenPosition F) → open_position_from_row docs (open_position_row docs p) ≡ p
  open_position_from_row-open_position_row p i = record p {
    orders = map-inverse docs.dump docs.validate p.orders docs.validate-dump i;
  }

  -- A payload comes back from its rows, whatever it holds.
  pub payload_from_rows-rows_from_payload :
      ⦃fl : Float F⦄ (text : IsoText) (hashing : Hashing) (payload : SyncPayload F)
      → payload_from_rows (rows_from_payload text hashing docs payload) ≡ payload
  unfolding payload_from_rows rows_from_payload
  payload_from_rows-rows_from_payload text hashing payload i = record payload {
    positions =
        map-inverse (position_row docs) (position_from_row docs) payload.positions
          position_from_row-position_row i;
    open_positions =
        map-inverse (open_position_row docs) (open_position_from_row docs) payload.open_positions
          open_position_from_row-open_position_row i;
    transactions =
        map-inverse (transaction_row text hashing) transaction_from_row payload.transactions
          (λ t. refl) i;
  }
