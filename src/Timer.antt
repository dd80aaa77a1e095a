-- ===== src/Timer.antt =====
-- The timers of bridge/sw/lib/evcoap/src/evcoap_timer.c, over the timer events of libevent.
use webthings.Common.{ℕ, Bool, true, false, ◌==◌, not, if◌then◌else◌, Result, ok, err, fault}

-- ec_timer_t. `evti` is whether an event is attached, `pending` whether libevent is going to fire it,
-- `tout` the interval in seconds.
pub record Timer : Type 0 where
  pub evti : Bool
  pub pending : Bool
  pub retries_left : ℕ
  pub tout : ℕ

-- A timer of a fresh object.
abbrev pub timer_unset : Timer
timer_unset = record { evti = false; pending = false; retries_left = 0; tout = 0 }

-- Whether evtimer_new, evtimer_add and evtimer_del of libevent succeed.
pub record Events : Type 0 where
  pub new_ok : Bool
  pub add_ok : Bool
  pub del_ok : Bool

-- ec_timer_remove.
unfoldable pub timer_remove : Timer → Timer
timer_remove ti =
    if ti.evti then record ti { evti = false; pending = false; retries_left = 0 } else ti

-- ec_timer_start.
unfoldable pub timer_start : Events → Timer → ℕ → Result Timer Timer
unfolding timer_remove
timer_start ev ti max_retry =
    if max_retry == 0
    then err ti
    else (if ti.evti
        then err ti
        else (if not ev.new_ok
            then err (timer_remove (record ti { retries_left = max_retry }))
            else (if not ev.add_ok
                then err (timer_remove (record ti { evti = true; retries_left = max_retry }))
                else ok (record ti { evti = true; pending = true; retries_left = max_retry }))))

-- ec_timer_restart; libevent dereferences the event that it is given.
unfoldable pub timer_restart : Events → Timer → Result Timer Timer
timer_restart ev ti =
    if not ti.evti
    then fault
    else (if not ev.del_ok
        then err ti
        else (if not ev.add_ok
            then err (record ti { pending = false })
            else ok (record ti { pending = true })))

-- What libevent does to a one-shot timer that fires.
abbrev pub fired : Timer → Timer
fired ti = record ti { pending = false }
