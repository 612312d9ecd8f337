-- ===== src/Pool/Manager/Upkeep/Exclusive.antt =====
-- That a terminal is being recloned just while the lock is held for it.
use mt5_connector.Common.{nat_eq, string_eq, ◌≡◌, true}
use mt5_connector.Pool.Manager.Upkeep.{Lock, Upkeep}
use mt5_connector.Pool.Manager.Upkeep.Boards.{IsExclusiveBoard}
use mt5_connector.Pool.Worker.{Worker}

module _ {P : Type 0} where
  -- The terminals that are being recloned are those of one lock, the one that is held while the
  -- reaper runs.
  abbrev IsOrderly : Upkeep P → Type 0
  IsOrderly u = (l : Lock) × IsExclusiveBoard l u.pool.health × (u.reaping ≡ true → u.lock ≡ l)
