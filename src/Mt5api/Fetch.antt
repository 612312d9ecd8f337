-- ===== src/Mt5api/Fetch.antt =====
-- mt5api/fetch.py: the wait for a settled history, the symbols for the clock, and the cache of the
-- clocks. What the terminal answers is an input.
pub mod Tests
use mathlib.Core.List.{reverse}
use mt5_connector.Common.{
  Bool, Bool-cases, List, Option, String, [], any, arith, elem, false, if-cases, if◌then◌else◌, inl,
  inr, is_some, leb, length, ltb, nat_eq, none, refl, some, string_eq, subst, sym, true, ℕ, ◌&&◌,
  ◌++◌, ◌+◌, ◌-◌, ◌==◌, ◌||◌, ◌∷◌, ◌≡◌, ◌≢◌, ◌⊎◌,
}
use mt5_connector.Common.Dict.{Dict, Holds, Holds-insert, erase, insert, lookup, lookup-insert_ne}
use mt5_connector.Common.Int.{ℤ}
use mt5_connector.Mt5api.Clock.Defs.{ServerClock, is_known, unknown_clock}
use mt5_connector.Pool.Protocol.{is_ipc}

abbrev pub settle_stable_reads : ℕ
settle_stable_reads = 2

-- A round of `wait_for_history`: the total, or the code of the last error, and whether the deadline
-- is over when it has been read.
pub data Total : Type 0 where
  counted : ℕ → Total
  unread : Option ℤ → Total

pub record Poll : Type 0 where
  pub total : Total
  pub is_over : Bool

-- How the wait ends: on a settled history, at the deadline, or on a failure of the terminal.
pub data Settled : Type 0 where
  settled : ℕ → Settled
  timed_over : Settled
  unanswered : Option ℤ → Settled

abbrev pub next_stable : Option ℕ → ℕ → ℕ → ℕ
next_stable none stable total = 1
next_stable (some previous) stable total = if total == previous then stable + 1 else 1

abbrev pub is_settled : ℕ → ℕ → Bool
is_settled total stable = ltb 0 total && leb settle_stable_reads stable

-- `wait_for_history` on the rounds that it gets to: `none` while it waits for the next one
unfoldable pub wait_for_history : Option ℕ → ℕ → List Poll → Option Settled
wait_for_history previous stable [] = none
wait_for_history previous stable (poll ∷ polls) = elim poll.total [
  | unread code ↦
      let rest = wait_for_history previous stable polls in
      if is_ipc code then some (unanswered code) else if poll.is_over then some timed_over else rest
  | counted total ↦
      let stable' = next_stable previous stable total in
      let rest = wait_for_history (some total) stable' polls in
      if is_settled total stable'
      then some (settled total)
      else if poll.is_over
      then some timed_over
      else rest
]

abbrev pub clock_symbol_count : ℕ
clock_symbol_count = 4

-- `_clock_symbols`, on the symbols of the deals, last first
abbrev pub collect_symbols : List String → List String → List String
collect_symbols seen [] = seen
collect_symbols seen (symbol ∷ symbols) =
    if symbol == "" || elem symbol seen
    then collect_symbols seen symbols
    else if leb clock_symbol_count (length seen + 1)
    then seen ++ symbol ∷ []
    else collect_symbols (seen ++ symbol ∷ []) symbols

unfoldable pub clock_symbols : List String → List String
clock_symbols symbols = collect_symbols [] (reverse symbols)

-- `_clock_cache` and `_clock_misses`; times are microseconds of the monotonic clock.
pub record ClockCache : Type 0 where
  pub clocks : Dict String (ℕ × ServerClock)
  pub misses : Dict String ℕ

abbrev pub ttl_scanned : ℕ
ttl_scanned = 21600000000

abbrev pub ttl_tick_only : ℕ
ttl_tick_only = 300000000

abbrev pub ttl_unknown : ℕ
ttl_unknown = 21600000000

abbrev pub ttl_of : ServerClock → ℕ
ttl_of clock = if clock.scanned then ttl_scanned else ttl_tick_only

abbrev pub is_fresh : ℕ → Option (ℕ × ServerClock) → Bool
is_fresh now none = false
is_fresh now (some (read_at, clock)) = ltb (now - read_at) (ttl_of clock)

abbrev pub missed_lately : ℕ → Option ℕ → Bool
missed_lately now none = false
missed_lately now (some missed) = ltb (now - missed) ttl_unknown

abbrev pub clock_or_unknown : Option (ℕ × ServerClock) → ServerClock
clock_or_unknown none = unknown_clock
clock_or_unknown (some (read_at, clock)) = clock

-- `fetch_clock`; `measured` is what `measure_server_clock` would answer.
unfoldable pub fetch_clock : ℕ → String → ServerClock → ClockCache → ServerClock × ClockCache
fetch_clock now server measured cache =
    let cached = lookup server cache.clocks in
    if is_fresh now cached || missed_lately now (lookup server cache.misses)
    then (clock_or_unknown cached, cache)
    else if is_known measured
    then (
      measured,
      record {
        clocks = insert server (now, measured) cache.clocks;
        misses = erase server cache.misses;
      },
    )
    else (
      elim cached [ none ↦ measured | some (read_at, clock) ↦ clock ],
      record cache { misses = insert server now cache.misses },
    )

-- Every cached clock is known.
abbrev pub IsKnownCache : ClockCache → Type 0
IsKnownCache cache = Holds (λ server entry. is_known entry.1 ≡ true) cache.clocks

-- What a fetch for a server leaves of the cache, and what it answers.
abbrev pub KeepsClocks : String → ClockCache → ServerClock × ClockCache → Type 0
KeepsClocks server cache (clock, cache') =
    IsKnownCache cache'
    × ((other : String) → other ≢ server → lookup other cache'.clocks ≡ lookup other cache.clocks)
    × ((entry : ℕ × ServerClock) → lookup server cache.clocks ≡ some entry → is_known clock ≡ true)

cached-known :
    (server : String) (cache : ClockCache) (entry : ℕ × ServerClock) (fallback : ServerClock)
    → IsKnownCache cache
    → lookup server cache.clocks ≡ some entry
    → is_known (elim (lookup server cache.clocks) [ none ↦ fallback | some (t, clock) ↦ clock ])
      ≡ true
cached-known server cache entry fallback known e =
    subst (λ o. is_known (elim o [ none ↦ fallback | some (t, clock) ↦ clock ]) ≡ true) (sym e)
      (known server entry e)

-- In a cache of known clocks, a fetch leaves known clocks only and keeps those of the other servers,
-- and for a server that has a clock there it answers with a known one, even when measuring it anew
-- fails.
pub fetch_clock-KeepsClocks :
    (now : ℕ) (server : String) (measured : ServerClock) (cache : ClockCache)
    → IsKnownCache cache
    → KeepsClocks server cache (fetch_clock now server measured cache)
unfolding fetch_clock
fetch_clock-KeepsClocks now server measured cache known =
    let cached = lookup server cache.clocks in
    let stored : ServerClock × ClockCache = (
      measured,
      record {
        clocks = insert server (now, measured) cache.clocks;
        misses = erase server cache.misses;
      },
    ) in
    let stale : ServerClock × ClockCache = (
      elim cached [ none ↦ measured | some (read_at, clock) ↦ clock ],
      record cache { misses = insert server now cache.misses },
    ) in
    if-cases (KeepsClocks server cache)
      (is_fresh now cached || missed_lately now (lookup server cache.misses))
      (clock_or_unknown cached, cache) (if is_known measured then stored else stale)
      (λ again. (known, λ other ne. refl, λ entry e. reused entry e))
      (λ anew.
        if-cases (KeepsClocks server cache) (is_known measured) stored stale
          (λ hit. (
            Holds-insert (λ k entry. is_known entry.1 ≡ true) server (now, measured) cache.clocks
                hit known,
            λ other ne. lookup-insert_ne other server (now, measured) cache.clocks ne,
            λ entry e. hit,
          ))
          (λ miss.
            (known, λ other ne. refl, λ entry e. cached-known server cache entry measured known e)))
  where
    reused :
        (entry : ℕ × ServerClock)
        → lookup server cache.clocks ≡ some entry
        → is_known (clock_or_unknown (lookup server cache.clocks)) ≡ true
    reused entry e =
        subst (λ o. is_known (clock_or_unknown o) ≡ true) (sym e) (known server entry e)

Total-cases : (t : Total) → ((n : ℕ) × (t ≡ counted n)) ⊎ ((code : Option ℤ) × (t ≡ unread code))
Total-cases (counted n) = inl (n, refl)
Total-cases (unread code) = inr (code, refl)

-- The wait ends by the first round whose deadline is over, however the terminal answers.
pub wait_for_history-ends :
    (previous : Option ℕ) (stable : ℕ) (polls : List Poll)
    → any (λ poll. poll.is_over) polls ≡ true
    → is_some (wait_for_history previous stable polls) ≡ true
unfolding wait_for_history
wait_for_history-ends previous stable [] e = absurd (ground arith)
wait_for_history-ends previous stable (poll ∷ polls) e = elim (Bool-cases poll.is_over) [
  | inl over ↦ ground arith
  | inr early ↦
      let rest : any (λ p. p.is_over) polls ≡ true = ground arith in
      elim (Total-cases poll.total) [
        | inl (total, read) ↦ ground (
          arith,
          wait_for_history-ends (some total) (next_stable previous stable total) polls rest,
        )
        | inr (code, missing) ↦ ground (arith, wait_for_history-ends previous stable polls rest)
      ]
]
