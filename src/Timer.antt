-- ===== src/Timer.antt =====
-- context/timer.go: the retransmission timer. Its goroutine waits on the `done` channel and on the
-- channel of the ticker; which of the two a select takes when both are ready is the environment's
-- choice, so a run of the timer is a list of moves. time.Ticker is Go's library: a tick arrives by
-- a move, and is dropped when the last one was not taken.
mod Examples
pub mod Retry
pub mod Stopping
use amf_cdac.Base.{
  ℕ, ◌+◌, ◌%◌, ◌^◌, List, [], ◌∷◌, Option, none, some, Bool, true, false, ◌&&◌, ◌||◌, ltb,
  if◌then◌else◌,
}

-- What the goroutine calls: the two functions given to NewTimer.
pub data Call : Type 0 where
  expired_func : ℕ → Call
  cancel_func : Call

-- `expireTimes` and `maxRetryTimes` are the bits of an int32. `buffered` and `closed` are the state
-- of the channel `done` of capacity 1, `ticked` that of the ticker's channel. `running` holds until
-- the goroutine returns, and `calls` lists its calls, the newest first.
pub record Timer : Type 0 where
  pub expire_times : ℕ
  pub max_retry_times : ℕ
  pub buffered : Bool
  pub closed : Bool
  pub ticked : Bool
  pub running : Bool
  pub calls : List Call

abbrev pub int32 : ℕ → ℕ
int32 n = n % 2 ^ 32

-- `a > b` on int32: the sign bit is flipped, and the rest compared as it stands.
abbrev pub gt_int32 : ℕ → ℕ → Bool
gt_int32 a b = ltb (int32 (b + 2 ^ 31)) (int32 (a + 2 ^ 31))

-- NewTimer(d, maxRetryTimes, …)
unfoldable pub new_timer : ℕ → Timer
new_timer max_retry_times = record {
  expire_times = 0;
  max_retry_times = int32 max_retry_times;
  buffered = false;
  closed = false;
  ticked = false;
  running = true;
  calls = [];
}

-- The case of a tick in the goroutine's loop.
expire : Timer → Timer
expire t =
    let t' = record t { expire_times = int32 (t.expire_times + 1); ticked = false } in
    if gt_int32 t'.expire_times t'.max_retry_times
    then record t' { calls = cancel_func ∷ t'.calls; running = false }
    else record t' { calls = expired_func t'.expire_times ∷ t'.calls }

-- The outcome of Stop for its caller.
pub data Stopped : Type 0 where
  stopped : Timer → Stopped
  hangs panics : Stopped

-- t.done <- true; close(t.done). A nil timer and a closed channel panic, a full channel blocks.
unfoldable pub stop : Option Timer → Stopped
stop none = panics
stop (some t) =
    if t.closed
    then panics
    else if t.buffered
    then hangs
    else stopped (record t { buffered = true; closed = true })

-- A tick arrives, the goroutine takes a tick, the goroutine takes from `done`.
pub data Move : Type 0 where
  arrive take_tick take_done : Move

-- A move that is not enabled changes nothing.
unfoldable pub move : Timer → Move → Timer
unfolding expire
move t arrive = record t { ticked = true }
move t take_tick = if t.running && t.ticked then expire t else t
move t take_done =
    if t.running && (t.buffered || t.closed)
    then record t { buffered = false; running = false }
    else t

unfoldable pub run : Timer → List Move → Timer
run t [] = t
run t (m ∷ ms) = run (move t m) ms
