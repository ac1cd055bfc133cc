-- ===== src/Timer/Stopping.antt =====
-- What Stop does to the timer and to a second Stop (context/timer.go).
use amf_cdac.Base.{◌+◌, if◌then◌else◌, ◌≡◌, refl, ◌∙◌, List, [], ◌∷◌, some, true, false, arith}
use amf_cdac.Timer.{
  Timer, Call, expired_func, cancel_func, int32, gt_int32, Move, take_tick, take_done, stopped,
  panics, stop, move, run,
}

move_halted :
    (t : Timer) (m : Move)
    → t.running ≡ false
    → ((move t m).running ≡ false) × ((move t m).calls ≡ t.calls)
unfolding move
move_halted t m h = ground arith

run_halted : (t : Timer) (ms : List Move) → t.running ≡ false → (run t ms).calls ≡ t.calls
unfolding run
run_halted t [] h = refl
run_halted t (m ∷ ms) h =
    let (still, same) = move_halted t m h in run_halted (move t m) ms still ∙ same

closed-move : (t : Timer) (m : Move) → t.closed ≡ true → (move t m).closed ≡ true
unfolding move
closed-move t m h = ground arith

closed-run : (t : Timer) (ms : List Move) → t.closed ≡ true → (run t ms).closed ≡ true
unfolding run
closed-run t [] h = h
closed-run t (m ∷ ms) h = closed-run (move t m) ms (closed-move t m h)

stopped_running :
    (t t' : Timer)
    → stop (some t) ≡ stopped t'
    → (t'.closed ≡ true)
      × (t'.calls ≡ t.calls)
      × ((move t' take_done).running ≡ false)
      × ((move t' take_done).calls ≡ t.calls)
unfolding stop move
stopped_running t t' h = ground arith

-- Once the goroutine has taken the value that Stop sent, no further tick makes a call: the calls
-- stay those made before Stop.
pub stop-silences :
    (t t' : Timer) (ms : List Move)
    → stop (some t) ≡ stopped t'
    → (run t' (take_done ∷ ms)).calls ≡ t.calls
unfolding run
stop-silences t t' ms h =
    let (_, _, halted, same) = stopped_running t t' h in
    run_halted (move t' take_done) ms halted ∙ same

-- What the timer calls at its next expiry.
unfoldable pub next_call : Timer → Call
next_call t =
    if gt_int32 (int32 (t.expire_times + 1)) t.max_retry_times
    then cancel_func
    else expired_func (int32 (t.expire_times + 1))

-- Until then it may still make one: a tick that had arrived when Stop was called can be taken after
-- it, and the call that was due at that expiry, expiredFunc or cancelFunc, is made after Stop.
pub stop-late_call :
    (t t' : Timer)
    → t.running ≡ true
    → t.ticked ≡ true
    → stop (some t) ≡ stopped t'
    → (move t' take_tick).calls ≡ next_call t ∷ t.calls
unfolding stop move next_call
stop-late_call t t' r k h = ground arith

-- A second Stop panics, whatever the timer did in between: the first one closed the channel.
pub stop-panics_twice :
    (t t' : Timer) (ms : List Move) → stop (some t) ≡ stopped t' → stop (some (run t' ms)) ≡ panics
unfolding stop
stop-panics_twice t t' ms h =
    ground (arith, closed-run t' ms (unfold stop in (stopped_running t t' h).0))
