-- ===== src/Services/Store.antt =====
-- domain/models.py and domain/rows.py: the tables, and the rows that a sync brings. `F` is the type
-- of the floating point numbers and `O` that of the orders' documents, which are only passed on.
use mt5_connector.Common.{
  Bool, HasEq, List, Option, String, [], arith, false, if◌then◌else◌, map, nat_eq, refl, string_eq,
  true, ℕ, ◌&&◌, ◌==◌, ◌↔◌, ◌∷◌, ◌≡◌,
}
use mt5_connector.Common.Dict.{Dict, beq_refl}
use mt5_connector.Common.Int.{ℤ}
use mt5_connector.Mt5api.Clock.Defs.{RowTime}
use mt5_connector.Mt5api.Clock.Times.{Stamp}
use mt5_connector.Pool.Protocol.{ErrorText}

pub data AccountStatus : Type 0 where
  active error_connection : AccountStatus

abbrev pub is_error_connection : AccountStatus → Bool
is_error_connection active = false
is_error_connection error_connection = true

pub record Account (F : Type 0) : Type 0 where
  pub account_id : String
  pub login : ℕ
  pub password : String
  pub server : String
  pub terminal_path : Option String
  pub enabled : Bool
  pub status : AccountStatus
  pub consecutive_failures : ℕ
  pub balance : F
  pub equity : F
  pub leverage : ℕ
  pub currency : String
  pub server_clock : List (RowTime × ℤ)
  pub last_synced_at : Option ℕ
  pub last_error : Option ErrorText
  pub history_withheld_until : Option ℕ
  pub created_at : ℕ
  pub updated_at : ℕ

-- A position as `position_row` gives it.
pub record PositionData (F O : Type 0) : Type 0 where
  pub external_id : String
  pub side : String
  pub pair : String
  pub amount : F
  pub entry_price : F
  pub exit_price : F
  pub pnl : F
  pub net_pnl : F
  pub commission : F
  pub swap : F
  pub mae : Option F
  pub mfe : Option F
  pub rr : Option F
  pub rr_planned : Option F
  pub tp : Option F
  pub sl : Option F
  pub liquidation_price : F
  pub multiplier : ℕ
  pub isolated : Bool
  pub closed : Bool
  pub status : Option String
  pub balance_init : F
  pub created_at : Option ℤ
  pub closed_at : Option ℤ
  pub orders : List O

-- An open position as `open_position_row` gives it.
pub record OpenPositionData (F O : Type 0) : Type 0 where
  pub external_id : String
  pub pair : String
  pub amount : F
  pub side : String
  pub entry_price : F
  pub current_price : F
  pub open_time : Option ℤ
  pub orders : List O

-- A transaction as `transaction_row` gives it.
pub record TransactionData (F : Type 0) : Type 0 where
  pub fingerprint : String
  pub time : Option ℤ
  pub kind : String
  pub amount : F

-- The rows of `position_row`, `open_position_row` and `transaction_row`: what the tables keep of
-- them, and their times in UTC, which the tables have no columns for.
pub record PositionRow (F O : Type 0) : Type 0 where
  pub values : PositionData F O
  pub created_at_utc : Option Stamp
  pub closed_at_utc : Option Stamp

pub record OpenPositionRow (F O : Type 0) : Type 0 where
  pub values : OpenPositionData F O
  pub open_time_utc : Option Stamp

pub record TransactionRow (F : Type 0) : Type 0 where
  pub values : TransactionData F
  pub time_utc : Option Stamp

pub record SyncRows (F O : Type 0) : Type 0 where
  pub balance : F
  pub equity : F
  pub leverage : ℕ
  pub currency : String
  pub server_clock : List (RowTime × ℤ)
  pub positions : List (PositionRow F O)
  pub open_positions : List (OpenPositionRow F O)
  pub transactions : List (TransactionRow F)

abbrev pub stored_positions : {F O : Type 0} → SyncRows F O → List (PositionData F O)
stored_positions rows = map (λ row. row.values) rows.positions

abbrev pub stored_open_positions : {F O : Type 0} → SyncRows F O → List (OpenPositionData F O)
stored_open_positions rows = map (λ row. row.values) rows.open_positions

abbrev pub stored_transactions : {F O : Type 0} → SyncRows F O → List (TransactionData F)
stored_transactions rows = map (λ row. row.values) rows.transactions

-- A stored row: what it holds, and when it was written.
pub record Row (D : Type 0) : Type 0 where
  pub values : D
  pub synced_at : ℕ

-- The tables. The keys of a dict are the unique constraint of its table: the account with the
-- external id, or with the fingerprint.
pub record Store (F O : Type 0) : Type 0 where
  pub accounts : Dict String (Account F)
  pub positions : Dict (String × String) (Row (PositionData F O))
  pub open_positions : Dict (String × String) (Row (OpenPositionData F O))
  pub transactions : Dict (String × String) (Row (TransactionData F))

abbrev pub same_key : String × String → String × String → Bool
same_key j k = j.0 == k.0 && j.1 == k.1

pub same_key_iff : (j k : String × String) → (same_key j k ≡ true) ↔ (j ≡ k)
same_key_iff j k = (
  λ e.
      both (ground (arith, string_eq.equal_iff j.0 k.0))
        (ground (arith, string_eq.equal_iff j.1 k.1)),
  λ e. rw (e, beq_refl k.0, beq_refl k.1) refl,
)
  where
    both : j.0 ≡ k.0 → j.1 ≡ k.1 → j ≡ k
    both e f i = (e i, f i)

instance abbrev pub key_eq : HasEq (String × String)
key_eq = record { equal_iff = same_key_iff; equal = same_key }

-- The rows of an account leave a table.
abbrev pub erase_account :
    {D : Type 0} → String → Dict (String × String) D → Dict (String × String) D
erase_account account [] = []
erase_account account ((k, row) ∷ rows) =
    let rest = erase_account account rows in if k.0 == account then rest else (k, row) ∷ rest
