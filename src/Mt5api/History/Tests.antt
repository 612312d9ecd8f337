-- ===== src/Mt5api/History/Tests.antt =====
-- A withheld history: no deals, and a balance that is no round number. And a task on a fresh terminal,
-- whose account answers and whose history is empty.
use mt5_connector.Common.{[], refl, true, ◌≡◌, none, some, false, Bool, ℕ}
use mt5_connector.Common.Int.{pos, ℤ, ◌+ℤ◌, ◌-ℤ◌}
use mt5_connector.Common.Whole.{whole_float}
use mt5_connector.Domain.Tests.{tally_text, own_documents, no_hashing}
use mt5_connector.Mt5api.Build.Payload.{build_sync_payload}
use mt5_connector.Mt5api.Clock.Defs.{unknown_clock}
use mt5_connector.Mt5api.History.{
  history_withheld, Answer, HistoryAnswers, TaskSettings, fetch_payload, fetch_history,
}
use mt5_connector.Mt5api.History.Withheld.{history_withheld-empty}
use mt5_connector.Mt5api.Raw.{RawHistory}
use mt5_connector.Domain.Fx.{FxOrder}
use mt5_connector.Mt5api.History.TaskLogin.{fetch_with, fetch_with-KeepsLogin}
use mt5_connector.Mt5api.Fetch.{ClockCache, settled}
use mt5_connector.Mt5api.Enrich.Segments.{Segment}
use mt5_connector.Mt5api.Terminal.Connect.{connect, check_call}
use mt5_connector.Mt5api.Terminal.Task.{Fetched, login_of, run_task}
use mt5_connector.Mt5api.Terminal.Start.{Terminal}
use mt5_connector.Mt5api.Terminal.Served.{IsServed, left_by, run_task-IsServed}
use mt5_connector.Mt5api.Terminal.Tests.{setup, fresh, session, small_task, quiet}
use mt5_connector.Services.Store.{SyncRows}

abbrev withheld : RawHistory ℤ
withheld = record {
  account = record {
    login = 5;
    balance = pos 1234;
    equity = pos 1234;
    leverage = 100;
    currency = "USD";
    server = "srv";
  };
  deals = [];
  orders = [];
  positions = [];
  clock = unknown_clock;
}

withheld_is : history_withheld withheld ≡ true
unfolding history_withheld ◌+ℤ◌ ◌-ℤ◌
withheld_is = refl

history_withheld-empty_example :
    ((build_sync_payload tally_text withheld).positions ≡ [])
    × ((build_sync_payload tally_text withheld).transactions ≡ [])
    × (withheld.deals ≡ [])
history_withheld-empty_example = history_withheld-empty tally_text withheld withheld_is

-- An account in dollars with a balance of 100, and no rows.
abbrev answers : HistoryAnswers ℤ
answers = record {
  account = some record {
    ints = λ name. some 100;
    floats = λ name. some (pos 100);
    texts = λ name. some "USD";
  };
  account_code = none;
  settled = settled 0;
  deals = record { rows = some []; code = none };
  orders = record { rows = some []; code = none };
  positions = record { rows = some []; code = none };
  open_orders = record { rows = some []; code = none };
  measure = λ symbols. unknown_clock;
}

abbrev no_clocks : ClockCache
no_clocks = record { clocks = []; misses = [] }

abbrev settings : TaskSettings
settings = record { with_mae_mfe = false; enrich_limit = 0; already_measured = [] }

abbrev no_rounds : ℕ → Bool × (Segment → Answer ℤ)
no_rounds n = (false, λ segment. record { rows = none; code = none })

abbrev fetch_small : Terminal → Fetched (SyncRows ℤ (FxOrder ℤ)) × Terminal
fetch_small =
    fetch_with tally_text no_hashing own_documents setup quiet settings 0 answers no_rounds none
      no_clocks

run_task-IsServed_example :
    IsServed
      (login_of small_task)
      (left_by fetch_small (connect setup session (login_of small_task) none fresh)).report
      (run_task setup session fetch_small "w" small_task 3 "" fresh)
run_task-IsServed_example =
    run_task-IsServed setup session fetch_small "w" small_task 3 "" fresh
      (fetch_with-KeepsLogin tally_text no_hashing own_documents setup quiet settings 0 answers
        no_rounds none no_clocks)
      (λ _. refl)

small_task_served : (run_task setup session fetch_small "w" small_task 3 "" fresh).0.ok ≡ true
unfolding run_task connect check_call fetch_payload fetch_history
small_task_served = refl
