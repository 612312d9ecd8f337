-- ===== src/Pool/Manager/Count.antt =====
-- In how many places of the pool the item of a future stands.
use mt5_connector.Common.{
  Bool, Bool-cases, String, [], arith, count_if, if◌then◌else◌, inl, inr, nat_eq, none, some,
  string_eq, ℕ, ◌+◌, ◌==◌, ◌∷◌, ◌≡◌, List,
}
use mt5_connector.Common.Dict.{Dict, insert, lookup}
use mt5_connector.Pool.Worker.{
  Phase, QueuedTask, TaskQueue, Worker, draining, enqueue_at, getting, holding, key_before,
  persisting, restarting_for, rotating, running, waiting,
}

abbrev pub is_for : ℕ → ℕ × ℕ × QueuedTask → Bool
is_for future (_, _, item) = item.future == future

abbrev pub one_for_number : ℕ → ℕ → ℕ
one_for_number future other = if other == future then 1 else 0

abbrev pub one_for : ℕ → QueuedTask → ℕ
one_for future item = one_for_number future item.future

abbrev pub in_items : ℕ → List QueuedTask → ℕ
in_items future [] = 0
in_items future (item ∷ items) = one_for future item + in_items future items

abbrev pub in_queue : ℕ → TaskQueue → ℕ
in_queue future queue = count_if (is_for future) queue

module _ {P : Type 0} where
  abbrev pub in_phase : ℕ → Phase P → ℕ
  in_phase future waiting = 0
  in_phase future getting = 0
  in_phase future (holding item) = one_for future item
  in_phase future (running item) = one_for future item
  in_phase future (rotating item _) = one_for future item
  in_phase future (restarting_for item _) = one_for future item
  in_phase future (persisting item _) = one_for future item
  in_phase future (draining item _) = one_for future item

  abbrev pub in_worker : ℕ → Worker P → ℕ
  in_worker future w = in_queue future w.queue + in_phase future w.phase

  abbrev pub in_workers : ℕ → Dict String (Worker P) → ℕ
  in_workers future [] = 0
  in_workers future ((path, w) ∷ rest) = in_worker future w + in_workers future rest

  -- A change of one worker changes the count by what it changes there.
  pub in_workers-insert :
      (future : ℕ) (path : String) (w w' : Worker P) (workers : Dict String (Worker P))
      → lookup path workers ≡ some w
      → in_workers future (insert path w' workers) + in_worker future w
        ≡ in_workers future workers + in_worker future w'
  in_workers-insert future path w w' [] e = absurd (ground arith)
  in_workers-insert future path w w' ((q, v) ∷ rest) e = elim (Bool-cases (path == q)) [
    | inl same ↦ let eq : v ≡ w = ground arith in rw same (rw eq (omega arith))
    | inr other ↦ rw other (omega (arith, in_workers-insert future path w w' rest (ground arith)))
  ]

module _ {P : Type 0} where
  pub in_workers-insert_new :
      (future : ℕ) (path : String) (w : Worker P) (workers : Dict String (Worker P))
      → lookup path workers ≡ none
      → in_workers future (insert path w workers) ≡ in_workers future workers + in_worker future w
  in_workers-insert_new future path w [] e = omega arith
  in_workers-insert_new future path w ((q, v) ∷ rest) e = elim (Bool-cases (path == q)) [
    | inl same ↦ absurd (ground arith)
    | inr other ↦ rw other (omega (arith, in_workers-insert_new future path w rest (ground arith)))
  ]

pub in_queue-enqueue_at :
    (future priority sequence : ℕ) (item : QueuedTask) (queue : TaskQueue)
    → in_queue future (enqueue_at priority sequence item queue)
      ≡ in_queue future queue + one_for future item
unfolding enqueue_at
in_queue-enqueue_at future priority sequence item [] = omega arith
in_queue-enqueue_at future priority sequence item (entry ∷ queue) =
    elim (Bool-cases (key_before priority sequence entry)) [
      | inl first ↦ rw first (omega arith)
      | inr later ↦
          rw later (omega (arith, in_queue-enqueue_at future priority sequence item queue))
    ]
