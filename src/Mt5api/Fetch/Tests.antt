-- ===== src/Mt5api/Fetch/Tests.antt =====
-- Waits and fetches of a clock at concrete inputs.
use mt5_connector.Common.{
  List, [], arith, false, is_some, nat_eq, none, refl, string_eq, true, ℕ, ◌∷◌, ◌≡◌,
}
use mt5_connector.Common.Dict.{Holds-insert}
use mt5_connector.Common.Int.{pos}
use mt5_connector.Mt5api.Clock.Defs.{ServerClock, is_known, unknown_clock}
use mt5_connector.Mt5api.Fetch.{
  ClockCache, IsKnownCache, KeepsClocks, Poll, counted, fetch_clock, fetch_clock-KeepsClocks,
  unread, wait_for_history, wait_for_history-ends,
}

abbrev steady : ServerClock
steady = record { steps = (pos 0, pos 120) ∷ []; scanned = false }

abbrev warm_cache : ClockCache
warm_cache = record { clocks = ("srv", (5, steady)) ∷ []; misses = [] }

warm_cache-IsKnownCache : IsKnownCache warm_cache
warm_cache-IsKnownCache =
    Holds-insert (λ server entry. is_known entry.1 ≡ true) "srv" (5, steady) [] refl
      (λ k v h. absurd (ground arith))

abbrev too_old : ℕ
too_old = 300000006

fetch_clock_stale : (fetch_clock too_old "srv" unknown_clock warm_cache).0 ≡ steady
unfolding fetch_clock
fetch_clock_stale = refl

fetch_clock-KeepsClocks_example :
    KeepsClocks "srv" warm_cache (fetch_clock too_old "srv" unknown_clock warm_cache)
fetch_clock-KeepsClocks_example =
    fetch_clock-KeepsClocks too_old "srv" unknown_clock warm_cache warm_cache-IsKnownCache

abbrev three_polls : List Poll
three_polls =
    record { total = counted 4; is_over = false }
    ∷ record { total = unread none; is_over = false }
    ∷ record { total = counted 5; is_over = true }
    ∷ []

wait_for_history-ends_example : is_some (wait_for_history none 0 three_polls) ≡ true
wait_for_history-ends_example = wait_for_history-ends none 0 three_polls refl
