-- ===== src/Services/Isolation.antt =====
-- The tables' operations change nothing of any other account.
use mt5_connector.Common.{
  Bool-cases, List, String, [], ap, arith, inl, inr, map, nat_eq, refl, some, string_eq, subst, ℕ,
  ◌∙◌, ◌∷◌, ◌≡◌, ◌≢◌,
}
use mt5_connector.Common.Dict.{
  Dict, insert, lookup, lookup-erase_ne, lookup-insert_ne, lookup-setdefault_ne,
}
use mt5_connector.Services.Accounts.{delete_account, put_account}
use mt5_connector.Services.Rows.{
  has_repeats, merge, put_open_positions, put_position, put_positions, put_transaction,
  replace_open_positions, upsert_batches, upsert_transactions,
}
use mt5_connector.Services.Store.{
  Account, OpenPositionData, PositionData, Row, Store, TransactionData, erase_account, key_eq,
}

module _ {D : Type 0} where
  lookup-erase_account :
      (account : String) (k : String × String) (rows : Dict (String × String) D)
      → k.0 ≢ account
      → lookup k (erase_account account rows) ≡ lookup k rows
  lookup-erase_account account k [] other = refl
  lookup-erase_account account k ((j, row) ∷ rows) other =
      let rest = lookup-erase_account account k rows other in
      ground (arith, rest, string_eq.equal_iff j.0 account, string_eq.equal_iff k.0 j.0)

  lookup-insert_other :
      (account : String) (k j : String × String) (row : D) (rows : Dict (String × String) D)
      → k.0 ≢ account
      → j.0 ≡ account
      → lookup k (insert j row rows) ≡ lookup k rows
  lookup-insert_other account k j row rows other own =
      lookup-insert_ne k j row rows (λ same. other (ap (λ i. i.0) same ∙ own))

module _ {F O : Type 0} where
  -- What the two stores hold for the account is the same.
  abbrev pub Untouched : String → Store F O → Store F O → Type 0
  Untouched account old new =
      (lookup account new.accounts ≡ lookup account old.accounts)
      × ((ext : String) → lookup (account, ext) new.positions ≡ lookup (account, ext) old.positions)
      × ((ext : String)
          → lookup (account, ext) new.open_positions ≡ lookup (account, ext) old.open_positions)
      × ((ext : String)
          → lookup (account, ext) new.transactions ≡ lookup (account, ext) old.transactions)

  pub Untouched-refl : (other : String) (db : Store F O) → Untouched other db db
  Untouched-refl other db = (refl, λ ext. refl, λ ext. refl, λ ext. refl)

  pub Untouched-trans :
      (other : String) (a b c : Store F O)
      → Untouched other a b
      → Untouched other b c
      → Untouched other a c
  Untouched-trans other a b c h k =
      (k.0 ∙ h.0, λ ext. k.1 ext ∙ h.1 ext, λ ext. k.2 ext ∙ h.2 ext, λ ext. k.3 ext ∙ h.3 ext)

  pub put_account-Untouched :
      (other : String) (a : Account F) (db : Store F O)
      → other ≢ a.account_id
      → Untouched other db (put_account a db)
  put_account-Untouched other a db ne =
      (lookup-insert_ne other a.account_id a db.accounts ne, λ ext. refl, λ ext. refl, λ ext. refl)

  pub delete_account-Untouched :
      (other account : String) (db : Store F O)
      → other ≢ account
      → Untouched other db (delete_account account db)
  unfolding delete_account
  delete_account-Untouched other account db ne = (
    lookup-erase_ne other account db.accounts ne,
    λ ext. lookup-erase_account account (other, ext) db.positions ne,
    λ ext. lookup-erase_account account (other, ext) db.open_positions ne,
    λ ext. lookup-erase_account account (other, ext) db.transactions ne,
  )

  put_positions-Untouched :
      (other account : String) (now : ℕ) (ps : List (PositionData F O)) (db : Store F O)
      → other ≢ account
      → Untouched other db (put_positions account now ps db)
  put_positions-Untouched other account now [] db ne = Untouched-refl other db
  put_positions-Untouched other account now (p ∷ ps) db ne =
      Untouched-trans other db (put_position account now p db)
        (put_positions account now ps (put_position account now p db))
        (
          refl,
          λ ext.
              lookup-insert_other account (other, ext) (account, p.external_id)
                (merge (lookup (account, p.external_id) db.positions) now p) db.positions ne refl,
          λ ext. refl,
          λ ext. refl,
        )
        (put_positions-Untouched other account now ps (put_position account now p db) ne)

  pub upsert_batches-Untouched :
      (other account : String) (now : ℕ) (bs : List (List (PositionData F O))) (db db' : Store F O)
      → other ≢ account
      → upsert_batches account now bs db ≡ some db'
      → Untouched other db db'
  upsert_batches-Untouched other account now [] db db' ne e =
      let same : db ≡ db' = ground arith in
      subst (Untouched other db) same (Untouched-refl other db)
  upsert_batches-Untouched other account now (b ∷ bs) db db' ne e =
      elim (Bool-cases (has_repeats (map (λ p. p.external_id) b))) [
        | inl bad ↦ absurd (ground arith)
        | inr fine ↦
            Untouched-trans other db (put_positions account now b db) db'
              (put_positions-Untouched other account now b db ne)
              (upsert_batches-Untouched other account now bs (put_positions account now b db) db' ne
                (ground arith))
      ]

  put_open-untouched :
      (other account ext : String) (now : ℕ) (ps : List (OpenPositionData F O))
      (rows : Dict (String × String) (Row (OpenPositionData F O)))
      → other ≢ account
      → lookup (other, ext) (put_open_positions account now ps rows) ≡ lookup (other, ext) rows
  put_open-untouched other account ext now [] rows ne = refl
  put_open-untouched other account ext now (p ∷ ps) rows ne =
      put_open-untouched other account ext now ps
        (insert (account, p.external_id) (record { values = p; synced_at = now }) rows) ne
      ∙ lookup-insert_other account (other, ext) (account, p.external_id)
          (record { values = p; synced_at = now }) rows ne refl

  pub replace_open_positions-Untouched :
      (other account : String) (now : ℕ) (ps : List (OpenPositionData F O)) (db db' : Store F O)
      → other ≢ account
      → replace_open_positions account now ps db ≡ some db'
      → Untouched other db db'
  unfolding replace_open_positions
  replace_open_positions-Untouched other account now ps db db' ne e =
      elim (Bool-cases (has_repeats (map (λ p. p.external_id) ps))) [
        | inl bad ↦ absurd (ground arith)
        | inr fine ↦
            let wiped = erase_account account db.open_positions in
            let new : Store F O = record db {
              open_positions = put_open_positions account now ps wiped;
            } in
            let same : new ≡ db' = ground arith in
            subst (Untouched other db) same (
              refl,
              λ ext. refl,
              λ ext.
                  put_open-untouched other account ext now ps wiped ne
                  ∙ lookup-erase_account account (other, ext) db.open_positions ne,
              λ ext. refl,
            )
      ]

  pub upsert_transactions-Untouched :
      (other account : String) (now : ℕ) (ts : List (TransactionData F)) (db : Store F O)
      → other ≢ account
      → Untouched other db (upsert_transactions account now ts db)
  unfolding upsert_transactions
  upsert_transactions-Untouched other account now [] db ne = Untouched-refl other db
  upsert_transactions-Untouched other account now (t ∷ ts) db ne =
      Untouched-trans other db (put_transaction account now t db)
        (upsert_transactions account now ts (put_transaction account now t db))
        (
          refl,
          λ ext. refl,
          λ ext. refl,
          λ ext.
              lookup-setdefault_ne (other, ext) (account, t.fingerprint)
                (record { values = t; synced_at = now }) db.transactions
                (λ same. ne (ap (λ k. k.0) same)),
        )
        (upsert_transactions-Untouched other account now ts (put_transaction account now t db) ne)
