-- ===== src/Services/Rows.antt =====
-- repositories/position_repo.py and repositories/transaction_repo.py: what a sync writes.
use mt5_connector.Common.{
  Bool, List, Option, String, [], drop, elem, false, if◌then◌else◌, is_some, keep, length, map,
  nat_eq, none, or_else, some, string_eq, suc, take, zero, ℕ, ◌&&◌, ◌==◌, ◌||◌, ◌∷◌,
}
use mt5_connector.Common.Dict.{Dict, insert, lookup, setdefault}
use mt5_connector.Services.Store.{
  OpenPositionData, PositionData, Row, Store, TransactionData, erase_account, key_eq,
}

abbrev pub batch_size : ℕ
batch_size = 1000

-- `_batches`: `fuel` is the number of the rows, as each batch takes one at least
abbrev pub batches_of {ℓ} : {A : Type ℓ} → ℕ → List A → List (List A)
batches_of zero xs = []
batches_of (suc fuel) [] = []
batches_of (suc fuel) (x ∷ xs) =
    take batch_size (x ∷ xs) ∷ batches_of fuel (drop batch_size (x ∷ xs))

abbrev pub batches {ℓ} : {A : Type ℓ} → List A → List (List A)
batches xs = batches_of (length xs) xs

abbrev pub has_repeats : List String → Bool
has_repeats [] = false
has_repeats (x ∷ xs) = elem x xs || has_repeats xs

module _ {F O : Type 0} where
  -- The row that the statement leaves: all but `mae` and `mfe` is the new one's.
  abbrev pub merge : Option (Row (PositionData F O)) → ℕ → PositionData F O → Row (PositionData F O)
  merge none now p = record { values = p; synced_at = now }
  merge (some old) now p = record {
    values = record p { mae = or_else p.mae old.values.mae; mfe = or_else p.mfe old.values.mfe };
    synced_at = now;
  }

  abbrev pub put_position : String → ℕ → PositionData F O → Store F O → Store F O
  put_position account now p db =
      let key : String × String = (account, p.external_id) in
      record db { positions = insert key (merge (lookup key db.positions) now p) db.positions }

  abbrev pub put_positions : String → ℕ → List (PositionData F O) → Store F O → Store F O
  put_positions account now [] db = db
  put_positions account now (p ∷ ps) db =
      put_positions account now ps (put_position account now p db)

  -- A statement: it fails where two of its rows have the same key.
  abbrev pub upsert_batch : String → ℕ → List (PositionData F O) → Store F O → Option (Store F O)
  upsert_batch account now ps db =
      if has_repeats (map (λ p. p.external_id) ps)
      then none
      else some (put_positions account now ps db)

  abbrev pub upsert_batches :
      String → ℕ → List (List (PositionData F O)) → Store F O → Option (Store F O)
  upsert_batches account now [] db = some db
  upsert_batches account now (b ∷ bs) db = elim (upsert_batch account now b db) [
    | none ↦ none
    | some db' ↦ upsert_batches account now bs db'
  ]

  -- `PositionRepository.upsert_many`
  unfoldable pub upsert_positions :
      String → ℕ → List (PositionData F O) → Store F O → Option (Store F O)
  upsert_positions account now ps db = upsert_batches account now (batches ps) db

  -- `measured_external_ids`
  abbrev pub is_measured_for : String → (String × String) × Row (PositionData F O) → Bool
  is_measured_for account entry = entry.0.0 == account && is_some entry.1.values.mae

  unfoldable pub measured_external_ids : String → Store F O → List String
  measured_external_ids account db =
      map (λ entry. entry.0.1) (keep (is_measured_for account) db.positions)

  abbrev pub put_open_positions :
      String
      → ℕ
      → List (OpenPositionData F O)
      → Dict (String × String) (Row (OpenPositionData F O))
      → Dict (String × String) (Row (OpenPositionData F O))
  put_open_positions account now [] rows = rows
  put_open_positions account now (p ∷ ps) rows =
      put_open_positions account now ps
        (insert (account, p.external_id) (record { values = p; synced_at = now }) rows)

  -- `OpenPositionRepository.replace_all`: `none` where the rows repeat a key
  unfoldable pub replace_open_positions :
      String → ℕ → List (OpenPositionData F O) → Store F O → Option (Store F O)
  replace_open_positions account now ps db =
      if has_repeats (map (λ p. p.external_id) ps)
      then none
      else some (record db {
        open_positions =
            put_open_positions account now ps (erase_account account db.open_positions);
      })

  -- `TransactionRepository.upsert_many`: a known fingerprint keeps its row
  abbrev pub put_transaction : String → ℕ → TransactionData F → Store F O → Store F O
  put_transaction account now t db = record db {
    transactions =
        setdefault (account, t.fingerprint) (record { values = t; synced_at = now })
          db.transactions;
  }

  unfoldable pub upsert_transactions : String → ℕ → List (TransactionData F) → Store F O → Store F O
  upsert_transactions account now [] db = db
  upsert_transactions account now (t ∷ ts) db =
      upsert_transactions account now ts (put_transaction account now t db)
