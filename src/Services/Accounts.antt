-- ===== src/Services/Accounts.antt =====
-- repositories/account_repo.py, services/terminal_affinity.py and services/account_service.py.
use mathlib.Core.Option
use mt5_connector.Common.{
  Bool, List, Option, String, count_if, elem, false, find, if◌then◌else◌, keep, map, nat_eq, none,
  not, some, string_eq, take, true, ℕ, ◌&&◌, ◌*◌, ◌+◌, ◌||◌,
}
use mt5_connector.Common.Dict.{erase, insert, lookup}
use mt5_connector.Pool.Protocol.{ErrorText}
use mt5_connector.Services.Account.{
  Figures, clear_failures, due_batch, failed_again, has_login, is_active, is_due_for_sync, is_on,
  is_synced, minute, pick_terminal, set_enabled, set_password, sort_due, synced,
}
use mt5_connector.Services.Store.{Account, Store, erase_account, is_error_connection, key_eq}

-- What `create` comes to: the account exists, there is no terminal, a new account, or one retaken.
pub data Created (F O : Type 0) : Type 0 where
  exists_already no_terminal : Created F O
  created retaken : Account F → Store F O → Created F O

module _ {F O : Type 0} where
  -- `counts_by_terminal`, where a path without accounts counts 0
  unfoldable pub counts_by_terminal : Store F O → String → ℕ
  counts_by_terminal db path =
      count_if (λ entry. is_active entry.1 && is_on path entry.1) db.accounts

  unfoldable pub get_by_login : ℕ → String → Store F O → Option (Account F)
  get_by_login login server db =
      Option.map (λ entry. entry.1) (find (has_login login server) db.accounts)

  -- `get`
  abbrev pub get_account : String → Store F O → Option (Account F)
  get_account account_id db = lookup account_id db.accounts

  abbrev pub put_account : Account F → Store F O → Store F O
  put_account account db = record db { accounts = insert account.account_id account db.accounts }

  -- `update`
  abbrev pub update_row : ℕ → Account F → Store F O → Store F O
  update_row now account db = put_account (record account { updated_at = now }) db

  unfoldable pub due_for_sync : ℕ → ℕ → Store F O → List (Account F)
  due_for_sync now interval db =
      take due_batch
        (sort_due (keep (is_due_for_sync now interval) (map (λ entry. entry.1) db.accounts)))

  unfoldable pub mark_synced : ℕ → Figures F → Account F → Store F O → Store F O
  mark_synced now f account db = update_row now (synced now f account) db

  -- `mark_withheld`
  unfoldable pub mark_withheld : ℕ → ℕ → Figures F → Account F → Store F O → Store F O
  mark_withheld now pause_minutes f account db =
      update_row now
        (record (synced now f account) {
          history_withheld_until = some (now + pause_minutes * minute);
        })
        db

  abbrev pub mark_error : ℕ → ErrorText → Bool → ℕ → Account F → Store F O → Store F O
  mark_error now error first threshold account db =
      update_row now (failed_again error first threshold account) db

  -- The session writes what has changed of the account before it counts.
  abbrev pub retake : ℕ → String → List String → Account F → Store F O → Created F O
  retake now password paths account db =
      let cleared = record (clear_failures account) { password = password; enabled = true } in
      elim (pick_terminal paths (counts_by_terminal (put_account cleared db))) [
        | none ↦ no_terminal
        | some path ↦
            let account' = record cleared { terminal_path = some path; updated_at = now } in
            retaken account' (put_account account' db)
      ]

  -- `fresh` is the row that the model's defaults give: its id, its login and its password are new.
  abbrev pub add_account : List String → Account F → Store F O → Created F O
  add_account paths fresh db = elim (pick_terminal paths (counts_by_terminal db)) [
    | none ↦ no_terminal
    | some path ↦
        let account = record fresh { terminal_path = some path } in
        created account (put_account account db)
  ]

  unfoldable pub create_account : ℕ → List String → Account F → Store F O → Created F O
  unfolding pick_terminal
  create_account now paths fresh db = elim (get_by_login fresh.login fresh.server db) [
    | none ↦ add_account paths fresh db
    | some existing ↦
        if is_synced existing || not (is_error_connection existing.status)
        then exists_already
        else retake now fresh.password paths existing db
  ]

  unfoldable pub update_account :
      ℕ → Option String → Option Bool → Account F → Store F O → Store F O
  update_account now password enabled account db =
      update_row now (set_enabled enabled (set_password password account)) db

  -- `AccountService.delete`: the rows of the account, then the account
  unfoldable pub delete_account : String → Store F O → Store F O
  delete_account account_id db = record {
    accounts = erase account_id db.accounts;
    positions = erase_account account_id db.positions;
    open_positions = erase_account account_id db.open_positions;
    transactions = erase_account account_id db.transactions;
  }

  -- `ensure_assigned`: the path and the store, `none` where there is nowhere to place
  unfoldable pub ensure_assigned :
      ℕ → List String → List String → Account F → Store F O → Option (String × Store F O)
  unfolding pick_terminal
  ensure_assigned now keepable_paths place account db =
      if elim account.terminal_path [ none ↦ false | some own ↦ elem own keepable_paths ]
      then Option.map (λ own. (own, db)) account.terminal_path
      else Option.map
          (λ path. (path, update_row now (record account { terminal_path = some path }) db))
          (pick_terminal place (counts_by_terminal db))
