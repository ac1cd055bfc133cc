-- ===== src/Timer/Examples.antt =====
-- The theorems on the timer at timers of one and two retries.
use amf_cdac.Base.{◌≡◌, refl, some, [], ◌∷◌, arith, false, true}
use amf_cdac.Timer.{Timer, expired_func, cancel_func, take_done, new_timer, run, stop, panics}
use amf_cdac.Timer.Retry.{ticks, run-gives_up}
use amf_cdac.Timer.Stopping.{stop-panics_twice}

run-gives_up_example :
    ((run (new_timer 2) (ticks 3)).calls ≡ cancel_func ∷ expired_func 2 ∷ expired_func 1 ∷ [])
    × ((run (new_timer 2) (ticks 3)).running ≡ false)
run-gives_up_example = run-gives_up 2 (omega arith)

-- A timer that has retried once and whose next tick has arrived, and the same after Stop.
abbrev waiting : Timer
waiting = record {
  expire_times = 1;
  max_retry_times = 1;
  buffered = false;
  closed = false;
  ticked = true;
  running = true;
  calls = expired_func 1 ∷ [];
}

abbrev halting : Timer
halting = record waiting { buffered = true; closed = true }

stop-panics_twice_example : stop (some (run halting (take_done ∷ []))) ≡ panics
stop-panics_twice_example = stop-panics_twice waiting halting (take_done ∷ []) (unfold stop in refl)
