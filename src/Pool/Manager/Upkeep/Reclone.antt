-- ===== src/Pool/Manager/Upkeep/Reclone.antt =====
-- What the steps of a reclone keep.
use mt5_connector.Common.{
  Bool, Option, Option-cases, String, ap, arith, false, if-cases, inl, inr, nat_eq, none, refl,
  some, string_eq, subst, sym, true, ℕ, ◌∙◌, ◌≡◌,
}
use mt5_connector.Common.Dict.{Holds, beq_refl, lookup}
use mt5_connector.Pool.Health.Board.{
  due_for_reclone, mark_reclone_failed, mark_recloned, mark_recloning, modify, set_reclone_failed,
  set_recloned, set_recloning,
}
use mt5_connector.Pool.Health.Defs.{HealthBoard, TerminalHealth}
use mt5_connector.Pool.Manager.Defs.{put_worker}
use mt5_connector.Pool.Manager.Upkeep.{
  Lock, Recloned, Upkeep, UpkeepSettings, begin_reclone, board_or, can_reclone, change_worker,
  end_reclone, for_reclone, for_refresh, lock_board, on_reclone_due, on_reclone_restarted,
  on_reclone_restarted_at, on_recloned, on_recloned_at, reclone_raised, recloned_to, unlocked,
}
use mt5_connector.Pool.Manager.Upkeep.Boards.{
  IsExclusive, IsExclusiveBoard, board_of, counted-terminals, holds_for, holds_for-other,
  is_recloning, is_unlocked-eq, modify-IsExclusiveBoard,
}
use mt5_connector.Pool.Worker.{Start, Worker, mark_idle, restart, terminate}

module _ {P : Type 0} where
  pub board_or-health :
      (o : Option HealthBoard) (u : Upkeep P)
      → (board_or o u).pool.health ≡ board_of o u.pool.health
  board_or-health none u = refl
  board_or-health (some b) u = refl

  pub change_worker-health :
      (f : Worker P → Worker P) (path : String) (u : Upkeep P)
      → (change_worker f path u).pool.health ≡ u.pool.health
  change_worker-health f path u = elim (Option-cases (lookup path u.pool.workers)) [
    | inl absent ↦ ground arith
    | inr (w, here) ↦ ground arith
  ]

  pub change_worker-lock :
      (f : Worker P → Worker P) (path : String) (u : Upkeep P)
      → (change_worker f path u).lock ≡ u.lock
  change_worker-lock f path u = elim (Option-cases (lookup path u.pool.workers)) [
    | inl absent ↦ ground arith
    | inr (w, here) ↦ ground arith
  ]

  pub change_worker-IsExclusive :
      (f : Worker P → Worker P) (path : String) (u : Upkeep P)
      → IsExclusive u
      → IsExclusive (change_worker f path u)
  change_worker-IsExclusive f path u exclusive =
      subst (λ l. IsExclusiveBoard l (change_worker f path u).pool.health)
        (sym (change_worker-lock f path u))
        (subst (IsExclusiveBoard u.lock) (sym (change_worker-health f path u)) exclusive)

  -- A reclone that ends, with the terminal out of `recloning` and the lock free.
  pub freed-IsExclusive :
      (path : String) (f : TerminalHealth → TerminalHealth) (u : Upkeep P)
      → u.lock ≡ for_reclone path
      → ((h : TerminalHealth) → is_recloning (f h).state ≡ false)
      → IsExclusive u
      → IsExclusiveBoard unlocked (board_of (modify path f u.pool.health) u.pool.health)
  freed-IsExclusive path f u held out exclusive =
      modify-IsExclusiveBoard path f u.lock unlocked u.pool.health out
        (λ other differ. sym (ap (holds_for other) held ∙ holds_for-other path other differ))
        exclusive

  pub lock_board-IsExclusive :
      (path : String) (o : Option HealthBoard) (u : Upkeep P)
      → IsExclusive u
      → IsExclusiveBoard (for_reclone path) (board_of o u.pool.health)
      → IsExclusive (lock_board path o u)
  lock_board-IsExclusive path none u exclusive moved = exclusive
  lock_board-IsExclusive path (some b) u exclusive moved = moved

  pub begin_reclone-IsExclusive :
      (now : ℕ) (o : Option String) (u : Upkeep P)
      → u.lock ≡ unlocked
      → IsExclusive u
      → IsExclusive (begin_reclone now o u)
  unfolding mark_recloning
  begin_reclone-IsExclusive now none u free exclusive = exclusive
  begin_reclone-IsExclusive now (some path) u free exclusive =
      lock_board-IsExclusive path (mark_recloning now path u.pool.health) u exclusive (
        modify-IsExclusiveBoard path (set_recloning now) u.lock (for_reclone path) u.pool.health
          (λ h. sym (beq_refl path))
          (λ other differ. holds_for-other path other differ ∙ sym (ap (holds_for other) free))
          exclusive)

  pub on_reclone_due-IsExclusive :
      (settings : UpkeepSettings) (now : ℕ) (u : Upkeep P)
      → IsExclusive u
      → IsExclusive (on_reclone_due settings now u)
  unfolding on_reclone_due
  on_reclone_due-IsExclusive settings now u exclusive =
      let due = due_for_reclone now settings.reclone_interval u.pool.health in
      if-cases IsExclusive (can_reclone settings u) (begin_reclone now due u) u
        (λ can.
          begin_reclone-IsExclusive now due u (is_unlocked-eq u.lock (ground arith)) exclusive)
        (λ cannot. exclusive)

  -- The end of a reclone on the board, and the lock.
  pub ended-IsExclusive :
      (path : String) (f : TerminalHealth → TerminalHealth) (o : Option HealthBoard)
      (u v : Upkeep P)
      → u.lock ≡ for_reclone path
      → v.pool.health ≡ u.pool.health
      → (board_of o u.pool.health).terminals
        ≡ (board_of (modify path f u.pool.health) u.pool.health).terminals
      → ((h : TerminalHealth) → is_recloning (f h).state ≡ false)
      → IsExclusive u
      → IsExclusiveBoard unlocked (board_or o v).pool.health
  ended-IsExclusive path f o u v held same alike out exclusive =
      let terminals = ap (λ b. b.terminals) (board_or-health o v ∙ ap (board_of o) same) ∙ alike in
      subst (λ ts. Holds (λ q h. is_recloning h.state ≡ holds_for q unlocked) ts) (sym terminals)
        (freed-IsExclusive path f u held out exclusive)

  pub on_recloned_at-IsExclusive :
      (reply : Recloned) (path : String) (u : Upkeep P)
      → u.lock ≡ for_reclone path
      → IsExclusive u
      → IsExclusive (on_recloned_at reply path u)
  unfolding mark_reclone_failed
  on_recloned_at-IsExclusive (recloned_to build) path u held exclusive =
      change_worker-IsExclusive terminate path u exclusive
  on_recloned_at-IsExclusive (reclone_raised error) path u held exclusive =
      ended-IsExclusive path (set_reclone_failed error)
        (mark_reclone_failed path error u.pool.health) u (change_worker terminate path u) held
        (change_worker-health terminate path u) refl (λ h. refl) exclusive

  pub end_reclone-IsExclusive :
      (ok : Bool) (path : String) (u : Upkeep P)
      → u.lock ≡ for_reclone path
      → IsExclusive u
      → IsExclusive (end_reclone ok path u)
  unfolding mark_reclone_failed mark_recloned
  end_reclone-IsExclusive false path u held exclusive =
      let why : String = "worker did not start after the reclone" in
      ended-IsExclusive path (set_reclone_failed why) (mark_reclone_failed path why u.pool.health) u
        u held refl refl (λ h. refl) exclusive
  end_reclone-IsExclusive true path u held exclusive =
      ended-IsExclusive path set_recloned (mark_recloned path u.pool.health) u
        (change_worker mark_idle path u) held (change_worker-health mark_idle path u)
        (counted-terminals (modify path set_recloned u.pool.health) u.pool.health) (λ h. refl)
        exclusive

  pub on_reclone_restarted_at-IsExclusive :
      (starts : Start × Start × Start) (path : String) (u : Upkeep P)
      → u.lock ≡ for_reclone path
      → IsExclusive u
      → IsExclusive (on_reclone_restarted_at starts path u)
  unfolding restart mark_recloned mark_reclone_failed
  on_reclone_restarted_at-IsExclusive starts path u held exclusive =
      split (lookup path u.pool.workers)
    where
      split :
          (l : Option (Worker P))
          → IsExclusive (elim l [
            | none ↦ u
            | some w ↦
                let (w', ok) = restart starts w in
                end_reclone ok path (record u { pool = put_worker path w' u.pool })
          ])
      split none = exclusive
      split (some w) =
          let (w', ok) = restart starts w in
          end_reclone-IsExclusive ok path (record u { pool = put_worker path w' u.pool }) held
            exclusive

  pub on_recloned-IsExclusive :
      (reply : Recloned) (u : Upkeep P) → IsExclusive u → IsExclusive (on_recloned reply u)
  unfolding on_recloned
  on_recloned-IsExclusive reply u exclusive = split u.lock refl
    where
      split :
          (l : Lock)
          → u.lock ≡ l
          → IsExclusive (elim l [ for_reclone path ↦ on_recloned_at reply path u | _ ↦ u ])
      split unlocked held = exclusive
      split (for_refresh path) held = exclusive
      split (for_reclone path) held = on_recloned_at-IsExclusive reply path u held exclusive

  pub on_reclone_restarted-IsExclusive :
      (starts : Start × Start × Start) (u : Upkeep P)
      → IsExclusive u
      → IsExclusive (on_reclone_restarted starts u)
  unfolding on_reclone_restarted
  on_reclone_restarted-IsExclusive starts u exclusive = split u.lock refl
    where
      split :
          (l : Lock)
          → u.lock ≡ l
          → IsExclusive
              (elim l [ for_reclone path ↦ on_reclone_restarted_at starts path u | _ ↦ u ])
      split unlocked held = exclusive
      split (for_refresh path) held = exclusive
      split (for_reclone path) held =
          on_reclone_restarted_at-IsExclusive starts path u held exclusive
