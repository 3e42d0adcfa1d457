-- ===== src/Image/Throttle.antt =====
-- crates/image/src/throttle.rs: the counting semaphore of the image converter.
-- The mutex makes each critical section one step. `Condvar::wait_timeout_while` is the standard
-- library's: as documented, it checks the predicate on entry and after each wake-up, spurious ones
-- included, and gives up only when the predicate holds and the time is spent.
pub mod Room
use y4p.Prelude.{ℕ, ◌+◌, ◌-◌, Bool, ◌&&◌, not, leb, ◌==◌, if◌then◌else◌}

pub record ProcessThrottle : Type 0 where
  pub in_use : ℕ
  pub limit : ℕ
  pub wait : ℕ

unfoldable pub new : ℕ → ℕ → ProcessThrottle
new limit wait = record { in_use = 0; limit = if limit == 0 then 1 else limit; wait = wait }

-- The closure handed to `wait_timeout_while`, on the counter behind the guard.
saturated : ProcessThrottle → Bool
saturated t = leb t.limit t.in_use

pub data Answer : Type 0 where
  admitted refused waiting : Answer

-- The end of `acquire`: decide on the counter itself, not on the timeout flag.
decide : ProcessThrottle → ProcessThrottle × Answer
unfolding saturated
decide t = if saturated t then (t, refused) else (record t { in_use = t.in_use + 1 }, admitted)

-- One check of the predicate inside `acquire`, by a caller whose patience ends at `deadline`.
unfoldable pub acquire_woken : ProcessThrottle → ℕ → ℕ → ProcessThrottle × Answer
unfolding decide
acquire_woken t deadline now =
    if saturated t && not (leb deadline now) then (t, waiting) else decide t

-- `Drop for Slot` calls `release`, which subtracts with saturation.
unfoldable pub release : ProcessThrottle → ProcessThrottle
release t = record t { in_use = t.in_use - 1 }
