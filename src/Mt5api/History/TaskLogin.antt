-- ===== src/Mt5api/History/TaskLogin.antt =====
-- The fetch of a task (the middle of `_run_task` of pool/worker.py) as a function of the terminal.

use mt5_connector.Common.{Bool, Option, none, refl, some, ℕ}
use mt5_connector.Common.Float.{Float}
use mt5_connector.Common.Int.{ℤ}
use mt5_connector.Domain.Fx.{SyncPayload}
use mt5_connector.Domain.Rows.{Documents, Hashing}
use mt5_connector.Mt5api.Clock.Defs.{IsoText}
use mt5_connector.Mt5api.Enrich.Segments.{Segment}
use mt5_connector.Mt5api.Fetch.{ClockCache}
use mt5_connector.Mt5api.History.{
  Answer, Held, HistoryAnswers, TaskSettings, answer_history, answer_payload, fetch_history,
  fetch_payload, history_withheld,
}
use mt5_connector.Mt5api.Raw.{RawHistory}
use mt5_connector.Mt5api.Terminal.Connect.{Probes, terminal_failure}
use mt5_connector.Mt5api.Terminal.Served.{KeepsLogin}
use mt5_connector.Mt5api.Terminal.Start.{Outcome, Setup, Terminal, raised, returned}
use mt5_connector.Mt5api.Terminal.Task.{Fetched}
use mt5_connector.Services.Store.{SyncRows}
use mt5_connector.Mt5api.History.Login.{
  SameLogin, SameLogin-trans, terminal_failure-SameLogin, fetch_history-SameLogin,
}

module _ {F O : Type 0} ⦃fl : Float F⦄ (text : IsoText) (hashing : Hashing) (docs : Documents F O)
    (setup : Setup) (probes : Probes) where
  answer_payload-SameLogin :
      (t : Terminal) (lost_code : Option ℤ) (withheld : Bool) (held : Held)
      (payload : Option (SyncPayload F))
      → SameLogin t held.0
      → SameLogin t
          (answer_payload text hashing docs setup probes lost_code withheld held payload).1.0
  answer_payload-SameLogin t lost_code withheld (u, cache) none same =
      SameLogin-trans t u (terminal_failure setup probes lost_code u).1 same
        (terminal_failure-SameLogin setup probes lost_code u)
  answer_payload-SameLogin t lost_code withheld held (some payload) same = same

  answer_history-SameLogin :
      (t : Terminal) (settings : TaskSettings) (rounds : ℕ → Bool × (Segment → Answer F))
      (lost_code : Option ℤ) (x : Outcome (RawHistory F) × Held)
      → SameLogin t x.1.0
      → SameLogin t (answer_history text hashing docs setup probes settings rounds lost_code x).1.0
  answer_history-SameLogin t settings rounds lost_code (raised error, held) same = same
  answer_history-SameLogin t settings rounds lost_code (returned history, held) same =
      answer_payload-SameLogin t lost_code (history_withheld history) held _ same

  -- The fetch of a task as a function of the terminal.
  abbrev pub fetch_with :
      TaskSettings
      → ℕ
      → HistoryAnswers F
      → (ℕ → Bool × (Segment → Answer F))
      → Option ℤ
      → ClockCache
      → Terminal
      → Fetched (SyncRows F O) × Terminal
  fetch_with settings now calls rounds lost_code cache t =
      let (answer, held) =
        fetch_payload text hashing docs setup probes settings now calls rounds lost_code
          (t, cache) in
      (answer, held.0)

  -- The fetch of a task neither binds the terminal nor logs in, whatever the calls answer.
  pub fetch_with-KeepsLogin :
      (settings : TaskSettings) (now : ℕ) (calls : HistoryAnswers F)
      (rounds : ℕ → Bool × (Segment → Answer F)) (lost_code : Option ℤ) (cache : ClockCache)
      → KeepsLogin (fetch_with settings now calls rounds lost_code cache)
  unfolding fetch_payload
  fetch_with-KeepsLogin settings now calls rounds lost_code cache t =
      answer_history-SameLogin t settings rounds lost_code
        (fetch_history setup probes now calls (t, cache))
        (fetch_history-SameLogin setup probes t now calls (t, cache) (refl, refl))
