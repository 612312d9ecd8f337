-- ===== src/Pool/Manager/Custody.antt =====
-- No submitted task is lost or answered twice: the item of a future stands in exactly one place of
-- the pool until the future is set, and nowhere after that.
use mt5_connector.Common.{
  Bool-cases, Option, Option-cases, String, [], arith, eqb_iff, if◌then◌else◌, inl, inr, nat_eq,
  none, refl, some, string_eq, subst, sym, ℕ, ◌+◌, ◌==◌, ◌∷◌, ◌≡◌, ◌≤◌, List, ap,
}
use mt5_connector.Common.Dict.{Dict, insert, lookup, lookup-insert}
use mt5_connector.Pool.Manager.Count.{in_worker, in_workers, in_workers-insert, one_for, in_items}
use mt5_connector.Pool.Manager.Defs.{Pool, set_result}
use mt5_connector.Pool.Protocol.{SyncResult}
use mt5_connector.Pool.Worker.{QueuedTask, Worker}

-- How many places an entry of the dict of futures accounts for.
abbrev pub owed : {P : Type 0} → Option (Option (SyncResult P)) → ℕ
owed none = 0
owed (some none) = 1
owed (some (some _)) = 0

pub record HasCustody {P : Type 0} (s : Pool P) : Type 0 where
  pub held :
      (future : ℕ)
      → in_workers future s.workers + in_items future s.abandoned ≡ owed (lookup future s.futures)
  pub fresh : (future : ℕ) → s.next_future ≤ future → lookup future s.futures ≡ none

-- What an event does to the tasks of one worker: nothing, a move within the worker, the resolution
-- of one item that leaves it, or the cancellation of one.
pub data Moved {P : Type 0} (path : String) (w : Worker P) (s s' : Pool P) : Type 0 where
  still : s' ≡ s → Moved path w s s'
  kept :
      (w' : Worker P)
      → s'.workers ≡ insert path w' s.workers
      → ((future : ℕ) → in_worker future w' ≡ in_worker future w)
      → s'.futures ≡ s.futures
      → ◌≡◌ {A = ℕ × List QueuedTask} (s'.next_future, s'.abandoned) (s.next_future, s.abandoned)
      → Moved path w s s'
  dropped :
      (w' : Worker P) (item : QueuedTask) (result : SyncResult P)
      → s'.workers ≡ insert path w' s.workers
      → ((future : ℕ) → in_worker future w ≡ in_worker future w' + one_for future item)
      → s'.futures ≡ set_result item.future result s.futures
      → ◌≡◌ {A = ℕ × List QueuedTask} (s'.next_future, s'.abandoned) (s.next_future, s.abandoned)
      → Moved path w s s'
  lost :
      (w' : Worker P) (item : QueuedTask)
      → s'.workers ≡ insert path w' s.workers
      → ((future : ℕ) → in_worker future w ≡ in_worker future w' + one_for future item)
      → s'.futures ≡ s.futures
      → s'.next_future ≡ s.next_future
      → s'.abandoned ≡ item ∷ s.abandoned
      → Moved path w s s'

module _ {P : Type 0} where
  lookup-set_result :
      (future other : ℕ) (result : SyncResult P) (futures : Dict ℕ (Option (SyncResult P)))
      → lookup future futures ≡ some none
      → lookup other (set_result future result futures)
        ≡ (if other == future then some (some result) else lookup other futures)
  lookup-set_result future other result futures e =
      ground (arith, e, lookup-insert other future (some result) futures)

  in_worker-le :
      (future : ℕ) (path : String) (w : Worker P) (workers : Dict String (Worker P))
      → lookup path workers ≡ some w
      → in_worker future w ≤ in_workers future workers
  in_worker-le future path w [] e = absurd (ground arith)
  in_worker-le future path w ((q, v) ∷ rest) e = elim (Bool-cases (path == q)) [
    | inl same ↦ let eq : v ≡ w = ground arith in rw eq (omega arith)
    | inr other ↦ omega (arith, in_worker-le future path w rest (ground arith))
  ]

  owed-some : (entry : Option (Option (SyncResult P))) → 1 ≤ owed entry → entry ≡ some none
  owed-some none h = absurd (omega arith)
  owed-some (some none) h = refl
  owed-some (some (some _)) h = absurd (omega arith)

  -- The item that leaves its worker belongs to a future that is not set yet.
  dropped_open :
      (path : String) (w w' : Worker P) (item : QueuedTask) (s : Pool P)
      → lookup path s.workers ≡ some w
      → ((future : ℕ) → in_worker future w ≡ in_worker future w' + one_for future item)
      → HasCustody s
      → lookup item.future s.futures ≡ some none
  dropped_open path w w' item s found drops v =
      let own : one_for item.future item ≡ 1 = ground arith in
      owed-some (lookup item.future s.futures) (
        omega (
          arith,
          drops item.future,
          own,
          in_worker-le item.future path w s.workers found,
          v.held item.future,
        ))

  pub Moved-HasCustody :
      (path : String) (w : Worker P) (s s' : Pool P)
      → lookup path s.workers ≡ some w
      → Moved path w s s'
      → HasCustody s
      → HasCustody s'
  Moved-HasCustody path w s s' found (still e) v = subst HasCustody (sym e) v
  Moved-HasCustody path w s s' found (kept w' put same futures next) v = record {
    held = λ f.
        rw (put, futures, ap (λ n. n.1) next)
          (omega (arith, in_workers-insert f path w w' s.workers found, same f, v.held f));
    fresh = λ f h. rw futures (v.fresh f (rw (ap (λ n. n.0) next) at h));
  }
  Moved-HasCustody path w s s' found (lost w' item put drops futures next gone) v = record {
    held = λ f.
        rw (put, futures, gone)
          (omega (arith, in_workers-insert f path w w' s.workers found, drops f, v.held f));
    fresh = λ f h. rw futures (v.fresh f (rw next at h));
  }
  Moved-HasCustody path w s s' found (dropped w' item result put drops futures next) v =
      let opened = dropped_open path w w' item s found drops v in
      record {
        held = λ f. elim (Bool-cases (f == item.future)) [
          | inl same ↦
              let eq = (eqb_iff f item.future).0 same in
              let own : one_for f item ≡ 1 = ground arith in
              rw
                (
                  put,
                  futures,
                  ap (λ n. n.1) next,
                  lookup-set_result item.future f result s.futures opened,
                  same,
                )
                (omega (
                  arith,
                  in_workers-insert f path w w' s.workers found,
                  drops f,
                  own,
                  v.held f,
                  subst (λ g. owed (lookup g s.futures) ≡ 1) (sym eq) (rw opened),
                ))
          | inr other ↦
              let none_of : one_for f item ≡ 0 = ground arith in
              rw
                (
                  put,
                  futures,
                  ap (λ n. n.1) next,
                  lookup-set_result item.future f result s.futures opened,
                  other,
                )
                (omega (
                  arith,
                  in_workers-insert f path w w' s.workers found,
                  drops f,
                  none_of,
                  v.held f,
                ))
        ];
        fresh = λ f h.
            let old = v.fresh f (rw (ap (λ n. n.0) next) at h) in
            rw (futures, lookup-set_result item.future f result s.futures opened)
              (ground (arith, old, opened, eqb_iff f item.future));
      }

  pub set_result-final :
      (future other : ℕ) (result old : SyncResult P) (futures : Dict ℕ (Option (SyncResult P)))
      → lookup other futures ≡ some (some old)
      → lookup other (set_result future result futures) ≡ some (some old)
  set_result-final future other result old futures h = elim (Option-cases (lookup future futures)) [
    | inl unknown ↦
        rw (unknown, set_result, lookup-insert other future (some result) futures)
          (ground (arith, h, unknown, eqb_iff other future))
    | inr (some done, e) ↦ rw (e, set_result) h
    | inr (none, e) ↦
        rw (e, set_result, lookup-insert other future (some result) futures)
          (ground (arith, h, e, eqb_iff other future))
  ]
