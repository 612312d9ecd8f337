-- ===== src/Services/Due.antt =====
-- Which accounts a scheduler tick takes.
use mt5_connector.Common.{
  All, Bool, Bool-cases, List, Option, String, [], arith, false, if-cases, inl, inr, keep, length,
  map, nat_eq, some, string_eq, subst, suc, take, true, zero, ℕ, ◌==◌, ◌∷◌, ◌≡◌, ◌≤◌, sym, ◌∙◌, ap,
  refl, none, ◌-◌, ◌*◌, ◌<◌, ◌⊎◌,
}
use mt5_connector.Common.Dict.{Dict, lookup}
use mt5_connector.Common.Search.{All-map}
use mt5_connector.Services.Account.{
  due_batch, insert_due, is_due_for_sync, not_later, sort_due, minute, before_or_none,
  until_or_none,
}
use mt5_connector.Services.Accounts.{due_for_sync}
use mt5_connector.Services.Store.{Account, Store, is_error_connection, key_eq}
use mathlib.Core.Bool.{false≢true}
use mathlib.Core.Option.{some-injective}

not_later_trans :
    (a b c : Option ℕ) → not_later a b ≡ true → not_later b c ≡ true → not_later a c ≡ true
not_later_trans a b c h k = ground arith

module _ {F : Type 0} where
  -- The accounts in the order of their last sync, those without one first.
  abbrev pub IsOldestFirst : List (Account F) → Type 0
  IsOldestFirst [] = Unit
  IsOldestFirst (a ∷ rest) =
      All (λ b. not_later a.last_synced_at b.last_synced_at ≡ true) rest × IsOldestFirst rest

  All-insert_due {κ} :
      (P : Account F → Type κ) (a : Account F) (xs : List (Account F))
      → P a
      → All P xs
      → All P (insert_due a xs)
  All-insert_due P a [] p h = (p, tt)
  All-insert_due P a (b ∷ rest) p h =
      if-cases (All P) (not_later a.last_synced_at b.last_synced_at) (a ∷ b ∷ rest)
        (b ∷ insert_due a rest) (λ hit. (p, h)) (λ miss. (h.0, All-insert_due P a rest p h.1))

  insert_due-IsOldestFirst :
      (a : Account F) (xs : List (Account F)) → IsOldestFirst xs → IsOldestFirst (insert_due a xs)
  insert_due-IsOldestFirst a [] h = (tt, tt)
  insert_due-IsOldestFirst a (b ∷ rest) h =
      if-cases IsOldestFirst (not_later a.last_synced_at b.last_synced_at) (a ∷ b ∷ rest)
        (b ∷ insert_due a rest)
        (λ hit. (
          (
            hit,
            All-map (λ c. not_later b.last_synced_at c.last_synced_at ≡ true)
                (λ c. not_later a.last_synced_at c.last_synced_at ≡ true) rest
                (λ c later.
                  not_later_trans a.last_synced_at b.last_synced_at c.last_synced_at hit later)
                h.0,
          ),
          h,
        ))
        (λ miss. (
          All-insert_due (λ c. not_later b.last_synced_at c.last_synced_at ≡ true) a rest
              (ground arith) h.0,
          insert_due-IsOldestFirst a rest h.1,
        ))

  sort_due-IsOldestFirst : (xs : List (Account F)) → IsOldestFirst (sort_due xs)
  sort_due-IsOldestFirst [] = tt
  sort_due-IsOldestFirst (a ∷ rest) =
      insert_due-IsOldestFirst a (sort_due rest) (sort_due-IsOldestFirst rest)

  All-sort_due {κ} :
      (P : Account F → Type κ) (xs : List (Account F)) → All P xs → All P (sort_due xs)
  All-sort_due P [] h = tt
  All-sort_due P (a ∷ rest) h = All-insert_due P a (sort_due rest) h.0 (All-sort_due P rest h.1)

All-take {ℓ κ} : {A : Type ℓ} (P : A → Type κ) (n : ℕ) (xs : List A) → All P xs → All P (take n xs)
All-take P zero xs h = tt
All-take P (suc n) [] h = tt
All-take P (suc n) (x ∷ xs) h = (h.0, All-take P n xs h.1)

All-keep {ℓ} : {A : Type ℓ} (p : A → Bool) (xs : List A) → All (λ x. p x ≡ true) (keep p xs)
All-keep p [] = tt
All-keep p (x ∷ xs) =
    if-cases (All (λ y. p y ≡ true)) (p x) (x ∷ keep p xs) (keep p xs) (λ hit. (hit, All-keep p xs))
      (λ miss. All-keep p xs)

length-take_le {ℓ} : {A : Type ℓ} (n : ℕ) (xs : List A) → length (take n xs) ≤ n
length-take_le zero xs = omega arith
length-take_le (suc n) [] = omega arith
length-take_le (suc n) (x ∷ xs) = omega (arith, length-take_le n xs)

module _ {F : Type 0} where
  IsOldestFirst-take :
      (n : ℕ) (xs : List (Account F)) → IsOldestFirst xs → IsOldestFirst (take n xs)
  IsOldestFirst-take zero xs h = tt
  IsOldestFirst-take (suc n) [] h = tt
  IsOldestFirst-take (suc n) (x ∷ xs) h = (All-take _ n xs h.0, IsOldestFirst-take n xs h.1)

abbrev pub IsIn : {A : Type 0} → A → List A → Type 0
IsIn a [] = ⊥
IsIn a (x ∷ xs) = (a ≡ x) ⊎ IsIn a xs

before_or_none-lt :
    (bound : ℕ) (o : Option ℕ) → before_or_none bound o ≡ true → (t : ℕ) → o ≡ some t → t < bound
before_or_none-lt bound none h t e = absurd (ground arith)
before_or_none-lt bound (some u) h t e = ground (arith, some-injective _ _ e)

until_or_none-le :
    (now : ℕ) (o : Option ℕ) → until_or_none now o ≡ true → (t : ℕ) → o ≡ some t → t ≤ now
until_or_none-le now none h t e = absurd (ground arith)
until_or_none-le now (some u) h t e = ground (arith, some-injective _ _ e)

before_or_none_iff :
    (bound : ℕ) (o : Option ℕ) → ((t : ℕ) → o ≡ some t → t < bound) → before_or_none bound o ≡ true
before_or_none_iff bound none h = refl
before_or_none_iff bound (some u) h = ground (arith, h u refl)

until_or_none_iff :
    (now : ℕ) (o : Option ℕ) → ((t : ℕ) → o ≡ some t → t ≤ now) → until_or_none now o ≡ true
until_or_none_iff now none h = refl
until_or_none_iff now (some u) h = ground (arith, h u refl)

module _ {F : Type 0} where
  -- Due, on the columns: enabled, not given up, last synced before the interval began or never, and
  -- with no pause that lasts longer than now.
  abbrev pub IsDue : ℕ → ℕ → Account F → Type 0
  IsDue now interval a =
      (a.enabled ≡ true)
      × (is_error_connection a.status ≡ false)
      × ((t : ℕ) → a.last_synced_at ≡ some t → t < now - interval * minute)
      × ((t : ℕ) → a.history_withheld_until ≡ some t → t ≤ now)

  is_due_for_sync-IsDue :
      (now interval : ℕ) (a : Account F)
      → is_due_for_sync now interval a ≡ true
      → IsDue now interval a
  is_due_for_sync-IsDue now interval a h = (
    ground (arith, h),
    ground (arith, h),
    before_or_none-lt (now - interval * minute) a.last_synced_at (ground (arith, h)),
    until_or_none-le now a.history_withheld_until (ground (arith, h)),
  )

  IsDue-is_due_for_sync :
      (now interval : ℕ) (a : Account F)
      → IsDue now interval a
      → is_due_for_sync now interval a ≡ true
  IsDue-is_due_for_sync now interval a (on, fine, before, until) =
      let early = before_or_none_iff (now - interval * minute) a.last_synced_at before in
      let free = until_or_none_iff now a.history_withheld_until until in
      ground (arith, on, fine, early, free)

  IsIn-insert_due :
      (a b : Account F) (xs : List (Account F)) → IsIn a (b ∷ xs) → IsIn a (insert_due b xs)
  IsIn-insert_due a b [] h = h
  IsIn-insert_due a b (x ∷ xs) h =
      if-cases (IsIn a) (not_later b.last_synced_at x.last_synced_at) (b ∷ x ∷ xs)
        (x ∷ insert_due b xs) (λ hit. h)
        (λ miss. elim h [
          | inl own ↦ inr (IsIn-insert_due a b xs (inl own))
          | inr (inl next) ↦ inl next
          | inr (inr rest) ↦ inr (IsIn-insert_due a b xs (inr rest))
        ])

  IsIn-sort_due : (a : Account F) (xs : List (Account F)) → IsIn a xs → IsIn a (sort_due xs)
  IsIn-sort_due a [] h = absurd h
  IsIn-sort_due a (x ∷ xs) (inl own) = IsIn-insert_due a x (sort_due xs) (inl own)
  IsIn-sort_due a (x ∷ xs) (inr rest) =
      IsIn-insert_due a x (sort_due xs) (inr (IsIn-sort_due a xs rest))

  IsIn-All :
      (P : Account F → Type 0) (a : Account F) (xs : List (Account F)) → All P xs → IsIn a xs → P a
  IsIn-All P a [] h within = absurd within
  IsIn-All P a (x ∷ xs) h (inl own) = subst P (sym own) h.0
  IsIn-All P a (x ∷ xs) h (inr rest) = IsIn-All P a xs h.1 rest

  -- Of a list in order, an account is among the first ones, or they are as many as asked for and
  -- none of them is later.
  IsIn-take :
      (n : ℕ) (a : Account F) (xs : List (Account F))
      → IsOldestFirst xs
      → IsIn a xs
      → IsIn a (take n xs)
        ⊎ ((length (take n xs) ≡ n)
            × All (λ b. not_later b.last_synced_at a.last_synced_at ≡ true) (take n xs))
  IsIn-take zero a xs order h = inr (refl, tt)
  IsIn-take (suc n) a [] order h = absurd h
  IsIn-take (suc n) a (x ∷ xs) order (inl own) = inl (inl own)
  IsIn-take (suc n) a (x ∷ xs) order (inr rest) = elim (IsIn-take n a xs order.1 rest) [
    | inl among ↦ inl (inr among)
    | inr (full, earlier) ↦ inr (
      ground (arith, full),
      (
        IsIn-All (λ b. not_later x.last_synced_at b.last_synced_at ≡ true) a xs order.0 rest,
        earlier,
      ),
    )
  ]

IsIn-keep :
    {A : Type 0} (p : A → Bool) (a : A) (xs : List A) → p a ≡ true → IsIn a xs → IsIn a (keep p xs)
IsIn-keep p a [] yes_ h = absurd h
IsIn-keep p a (x ∷ xs) yes_ (inl own) =
    if-cases (IsIn a) (p x) (x ∷ keep p xs) (keep p xs) (λ hit. inl own)
      (λ miss. absurd (false≢true (sym miss ∙ ap p (sym own) ∙ yes_)))
IsIn-keep p a (x ∷ xs) yes_ (inr rest) =
    if-cases (IsIn a) (p x) (x ∷ keep p xs) (keep p xs) (λ hit. inr (IsIn-keep p a xs yes_ rest))
      (λ miss. IsIn-keep p a xs yes_ rest)

IsIn-lookup :
    {A : Type 0} (k : String) (a : A) (d : Dict String A)
    → lookup k d ≡ some a
    → IsIn a (map (λ entry. entry.1) d)
IsIn-lookup k a [] found = absurd (ground arith)
IsIn-lookup k a ((j, b) ∷ d) found = elim (Bool-cases (k == j)) [
  | inl same ↦ inl (sym (some-injective _ _ (rw same at found)))
  | inr other ↦ inr (IsIn-lookup k a d (rw other at found))
]

module _ {F O : Type 0} where
  -- The accounts that a scheduler tick takes of a store.
  abbrev pub IsBatch : ℕ → ℕ → Store F O → List (Account F) → Type 0
  IsBatch now interval db batch =
      (length batch ≤ 200)
      × All (IsDue now interval) batch
      × IsOldestFirst batch
      × ((id : String) (a : Account F)
          → lookup id db.accounts ≡ some a
          → IsDue now interval a
          → IsIn a batch
            ⊎ ((length batch ≡ 200)
                × All (λ b. not_later b.last_synced_at a.last_synced_at ≡ true) batch))

  -- A scheduler tick takes 200 accounts at most. Each of them is due: enabled, not in error, not
  -- synced within the interval and not paused. They come in the order of their last sync, those
  -- without one first. An account that is due and not taken is left for 200 that waited as long.
  pub due_for_sync-IsBatch :
      (now interval : ℕ) (db : Store F O) → IsBatch now interval db (due_for_sync now interval db)
  unfolding due_for_sync
  due_for_sync-IsBatch now interval db =
      let all_accounts = map (λ entry. entry.1) db.accounts in
      let found = keep (is_due_for_sync now interval) all_accounts in
      let order = sort_due-IsOldestFirst found in
      (
        length-take_le due_batch (sort_due found),
        All-take _ due_batch (sort_due found) (
            All-sort_due _ found (
              All-map (λ a. is_due_for_sync now interval a ≡ true) (IsDue now interval) found
                (is_due_for_sync-IsDue now interval)
                (All-keep (is_due_for_sync now interval) all_accounts))),
        IsOldestFirst-take due_batch (sort_due found) order,
        λ id a known due. IsIn-take due_batch a (sort_due found) order (
            IsIn-sort_due a found (
              IsIn-keep (is_due_for_sync now interval) a all_accounts
                (IsDue-is_due_for_sync now interval a due) (IsIn-lookup id a db.accounts known))),
      )
