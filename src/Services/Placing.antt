-- ===== src/Services/Placing.antt =====
-- Where accounts are placed, and when they are given up.
use mt5_connector.Common.{
  Bool, Bool-cases, List, String, [], arith, elem, if◌then◌else◌, inl, inr, leb, length, ltb,
  nat_eq, some, string_eq, subst, true, ℕ, ◌&&◌, ◌==◌, ◌∷◌, ◌≡◌, ◌≤◌, any, ◌||◌,
}
use mt5_connector.Common.Dict.{beq_refl}
use mt5_connector.Mt5api.Clock.Measure.{differs}
use mt5_connector.Pool.Protocol.{ErrorText}
use mt5_connector.Services.Account.{failed_again, least_loaded, pick_terminal}
use mt5_connector.Services.Store.{Account, active, is_error_connection, key_eq}

least_loaded-least :
    (counts : String → ℕ) (best : String) (paths : List String)
    → (elem (least_loaded counts best paths) (best ∷ paths) ≡ true)
      × (counts (least_loaded counts best paths) ≤ counts best)
      × ((path : String)
          → elem path paths ≡ true
          → counts (least_loaded counts best paths) ≤ counts path)
least_loaded-least counts best [] =
    (ground (arith, beq_refl best), omega arith, λ path e. absurd (ground arith))
least_loaded-least counts best (x ∷ xs) =
    let next = if ltb (counts x) (counts best) then x else best in
    let ih = least_loaded-least counts next xs in
    (
      ground (arith, ih.0),
      ground (arith, ih.1),
      λ path e. elim (Bool-cases (path == x)) [
        | inl same ↦ rw ((string_eq.equal_iff path x).0 same) (ground (arith, ih.1))
        | inr differs ↦ ih.2 path (ground arith)
      ],
    )

-- A picked terminal is one of the given paths, and none of them has fewer accounts.
pick_terminal-least :
    (paths : List String) (counts : String → ℕ) (best : String)
    → pick_terminal paths counts ≡ some best
    → (elem best paths ≡ true)
      × ((path : String) → elem path paths ≡ true → counts best ≤ counts path)
unfolding pick_terminal
pick_terminal-least [] counts best e = absurd (ground arith)
pick_terminal-least (x ∷ xs) counts best e =
    let least = least_loaded-least counts x xs in
    let same : least_loaded counts x xs ≡ best = ground arith in
    subst
      (λ b.
        (elem b (x ∷ xs) ≡ true)
        × ((path : String) → elem path (x ∷ xs) ≡ true → counts b ≤ counts path))
      same
      (
        least.0,
        λ path e. elim (Bool-cases (path == x)) [
          | inl first ↦ rw ((string_eq.equal_iff path x).0 first) least.1
          | inr later ↦ least.2 path (ground arith)
        ],
      )

module _ {F : Type 0} where
  -- The account after failed syncs, the last one first, each with whether it was a first sync.
  abbrev pub fail_all : ErrorText → ℕ → List Bool → Account F → Account F
  fail_all error threshold [] account = account
  fail_all error threshold (first ∷ earlier) account =
      failed_again error first threshold (fail_all error threshold earlier account)

  -- An account without failures, after some failures in a row: it counts them, and it is given up
  -- just when one of them was a first sync, or when they are at least one and reach the threshold.
  pub fail_all-status :
      (error : ErrorText) (threshold : ℕ) (failures : List Bool) (account : Account F)
      → account.status ≡ active
      → account.consecutive_failures ≡ 0
      → ((fail_all error threshold failures account).consecutive_failures ≡ length failures)
        × (is_error_connection (fail_all error threshold failures account).status ≡ (
            any (λ first. first) failures
            || (leb 1 (length failures) && leb threshold (length failures))))
  unfolding failed_again
  fail_all-status error threshold [] account h k = (k, ground arith)
  fail_all-status error threshold (first ∷ earlier) account h k =
      let ih = fail_all-status error threshold earlier account h k in
      (ground (arith, ih.0), ground (arith, ih.0, ih.1))
