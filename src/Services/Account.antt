-- ===== src/Services/Account.antt =====
-- What repositories/account_repo.py and services/account_service.py read and change of one account.
use mt5_connector.Common.{
  Bool, List, Option, String, [], false, if◌then◌else◌, is_some, leb, ltb, nat_eq, none, not, some,
  string_eq, true, ℕ, ◌&&◌, ◌*◌, ◌+◌, ◌-◌, ◌==◌, ◌||◌, ◌∷◌,
}
use mt5_connector.Common.Int.{ℤ}
use mt5_connector.Mt5api.Clock.Defs.{RowTime}
use mt5_connector.Pool.Protocol.{ErrorText}
use mt5_connector.Services.Store.{Account, active, error_connection, is_error_connection, key_eq}

-- What `mark_synced` and `mark_withheld` note of the account.
pub record Figures (F : Type 0) : Type 0 where
  pub balance : F
  pub equity : F
  pub leverage : ℕ
  pub currency : String
  pub server_clock : List (RowTime × ℤ)

abbrev pub due_batch : ℕ
due_batch = 200

abbrev pub minute : ℕ
minute = 60000000

-- `pick_terminal`: the first path with the least count, `none` where there is no path (ValueError)
abbrev pub least_loaded : (String → ℕ) → String → List String → String
least_loaded counts best [] = best
least_loaded counts best (path ∷ paths) =
    least_loaded counts (if ltb (counts path) (counts best) then path else best) paths

unfoldable pub pick_terminal : List String → (String → ℕ) → Option String
pick_terminal [] counts = none
pick_terminal (path ∷ paths) counts = some (least_loaded counts path paths)

abbrev pub before_or_none : ℕ → Option ℕ → Bool
before_or_none bound none = true
before_or_none bound (some t) = ltb t bound

abbrev pub until_or_none : ℕ → Option ℕ → Bool
until_or_none now none = true
until_or_none now (some t) = leb t now

abbrev pub not_later : Option ℕ → Option ℕ → Bool
not_later none _ = true
not_later (some _) none = false
not_later (some a) (some b) = leb a b

module _ {F : Type 0} where
  -- `_active`
  abbrev pub is_active : Account F → Bool
  is_active account = account.enabled && not (is_error_connection account.status)

  abbrev pub is_on : String → Account F → Bool
  is_on path account = elim account.terminal_path [ none ↦ false | some own ↦ own == path ]

  -- `get_by_login`
  abbrev pub has_login : ℕ → String → String × Account F → Bool
  has_login login server entry = entry.1.login == login && entry.1.server == server

  -- `due_for_sync`: the threshold is `interval` minutes ago; rows that tie keep their order.
  abbrev pub is_due_for_sync : ℕ → ℕ → Account F → Bool
  is_due_for_sync now interval account =
      is_active account
      && before_or_none (now - interval * minute) account.last_synced_at
      && until_or_none now account.history_withheld_until

  abbrev pub insert_due : Account F → List (Account F) → List (Account F)
  insert_due a [] = a ∷ []
  insert_due a (b ∷ rest) =
      let later = insert_due a rest in
      if not_later a.last_synced_at b.last_synced_at then a ∷ b ∷ rest else b ∷ later

  abbrev pub sort_due : List (Account F) → List (Account F)
  sort_due [] = []
  sort_due (a ∷ rest) = insert_due a (sort_due rest)

  abbrev pub note_figures : Figures F → Account F → Account F
  note_figures f account = record account {
    balance = f.balance;
    equity = f.equity;
    leverage = f.leverage;
    currency = f.currency;
    server_clock = elim f.server_clock [ [] ↦ account.server_clock | _ ∷ _ ↦ f.server_clock ];
  }

  -- What takes an account out of its failures.
  abbrev pub clear_failures : Account F → Account F
  clear_failures account = record account {
    status = active;
    consecutive_failures = 0;
    last_error = none;
    history_withheld_until = none;
  }

  -- `mark_synced` on the object
  abbrev pub synced : ℕ → Figures F → Account F → Account F
  synced now f account = record (clear_failures (note_figures f account)) {
    last_synced_at = some now;
  }

  -- `mark_error` on the object
  unfoldable pub failed_again : ErrorText → Bool → ℕ → Account F → Account F
  failed_again error first threshold account =
      let failures = account.consecutive_failures + 1 in
      record account {
        consecutive_failures = failures;
        last_error = some error;
        status = if first || leb threshold failures then error_connection else account.status;
      }

  abbrev pub is_synced : Account F → Bool
  is_synced account = is_some account.last_synced_at

  -- `AccountService.update`
  abbrev pub set_password : Option String → Account F → Account F
  set_password none account = account
  set_password (some password) account =
      if password == account.password
      then account
      else record (clear_failures account) { password = password }

  abbrev pub set_enabled : Option Bool → Account F → Account F
  set_enabled none account = account
  set_enabled (some enabled) account = record account { enabled = enabled }
