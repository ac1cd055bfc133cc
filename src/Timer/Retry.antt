-- ===== src/Timer/Retry.antt =====
-- How often the timer calls its two functions (context/timer.go).
use amf_cdac.Base.{
  ℕ, zero, suc, ◌+◌, ◌<◌, ◌≤◌, ◌^◌, ◌≡◌, refl, ◌⊎◌, inl, inr, List, [], ◌∷◌, ◌++◌, ap, true, false,
  arith,
}
use native.Mathlib.Decide.{dec_le}
use amf_cdac.Timer.{
  Timer, Call, expired_func, cancel_func, Move, arrive, take_tick, take_done, int32, new_timer,
  move, run,
}

-- The calls expiredFunc(n), …, expiredFunc(1), the newest first.
abbrev pub countdown : ℕ → List Call
countdown zero = []
countdown (suc n) = expired_func (suc n) ∷ countdown n

-- The calls of a timer that has seen `n` expiries, of which `limit` are retried.
pub record Counted (limit : ℕ) (t : Timer) : Type 0 where
  pub limit_kept : t.max_retry_times ≡ limit
  pub within : t.expire_times ≤ suc limit
  pub retrying : t.expire_times ≤ limit → t.calls ≡ countdown t.expire_times
  pub over :
      t.expire_times ≡ suc limit → (t.calls ≡ cancel_func ∷ countdown limit) × (t.running ≡ false)

new_timer-Counted : (limit : ℕ) → limit < 2 ^ 31 → Counted limit (new_timer limit)
unfolding new_timer
new_timer-Counted limit h = record {
  limit_kept = omega arith;
  within = omega arith;
  retrying = λ _. refl;
  over = λ e. absurd (omega arith);
}

countdown-suc : (n m : ℕ) → m ≡ suc n → countdown m ≡ expired_func m ∷ countdown n
countdown-suc n zero h = absurd (omega arith)
countdown-suc n (suc m) h = let e : m ≡ n = omega arith in rw e

move-Counted :
    (limit : ℕ) (t : Timer) (m : Move)
    → suc limit < 2 ^ 31
    → Counted limit t
    → Counted limit (move t m)
unfolding move
move-Counted limit t arrive h c = ground arith
move-Counted limit t take_tick h c =
    ground (arith, c.retrying, c.over, countdown-suc t.expire_times (int32 (t.expire_times + 1)))
move-Counted limit t take_done h c = ground (arith, c.retrying, c.over)

run-Counted :
    (limit : ℕ) (t : Timer) (ms : List Move)
    → suc limit < 2 ^ 31
    → Counted limit t
    → Counted limit (run t ms)
unfolding run
run-Counted limit t [] h c = c
run-Counted limit t (m ∷ ms) h c = run-Counted limit (move t m) ms h (move-Counted limit t m h c)

-- Some of the retries, or all of them and then the one cancellation.
abbrev pub Budgeted : ℕ → List Call → Type 0
Budgeted limit calls =
    ((n : ℕ) × (n ≤ limit) × (calls ≡ countdown n)) ⊎ (calls ≡ cancel_func ∷ countdown limit)

Counted-Budgeted : (limit : ℕ) (t : Timer) → Counted limit t → Budgeted limit t.calls
Counted-Budgeted limit t c = elim (dec_le t.expire_times limit) [
  | yes p ↦ inl (t.expire_times, p, c.retrying p)
  | no p ↦ let within : t.expire_times ≤ suc limit = c.within in inr (c.over (omega arith)).0
]

-- Whatever ticks come and whenever the timer is stopped, a timer made with `limit` retries (below
-- 2^31 - 1) has called expiredFunc(1), …, expiredFunc(n) in this order for some n ≤ limit and
-- nothing else, or all of them up to `limit` and then cancelFunc once.
pub run-calls_budget :
    (limit : ℕ) (ms : List Move)
    → suc limit < 2 ^ 31
    → Budgeted limit (run (new_timer limit) ms).calls
run-calls_budget limit ms h =
    Counted-Budgeted limit (run (new_timer limit) ms)
      (run-Counted limit (new_timer limit) ms h (new_timer-Counted limit (omega (arith, h))))

-- `n` ticks, each taken before the next arrives.
abbrev pub ticks : ℕ → List Move
ticks zero = []
ticks (suc n) = arrive ∷ take_tick ∷ ticks n

ticks-append : (n : ℕ) → ticks (suc n) ≡ ticks n ++ arrive ∷ take_tick ∷ []
ticks-append zero = refl
ticks-append (suc n) = ap (λ (ms : List Move). arrive ∷ take_tick ∷ ms) (ticks-append n)

run-append : (t : Timer) (xs ys : List Move) → run t (xs ++ ys) ≡ run (run t xs) ys
unfolding run
run-append t [] ys = refl
run-append t (x ∷ xs) ys = run-append (move t x) xs ys

tick_counts :
    (t : Timer) (limit n : ℕ)
    → suc limit < 2 ^ 31
    → n ≤ limit
    → t.max_retry_times ≡ limit
    → t.running ≡ true
    → t.expire_times ≡ n
    → let u = move (move t arrive) take_tick in
      (u.max_retry_times ≡ limit) × (u.expire_times ≡ suc n) × (n < limit → u.running ≡ true)
unfolding move
tick_counts t limit n h k m r e = ground arith

ticks_expire :
    (limit n : ℕ)
    → suc limit < 2 ^ 31
    → n ≤ limit
    → let t = run (new_timer limit) (ticks n) in
      (t.max_retry_times ≡ limit) × (t.expire_times ≡ n) × (t.running ≡ true)
unfolding run new_timer
ticks_expire limit zero h k = (omega arith, refl, refl)
ticks_expire limit (suc n) h k =
    let t = run (new_timer limit) (ticks n) in
    let (m, e, r) = ticks_expire limit n h (omega arith) in
    rw (ticks-append n, run-append (new_timer limit) (ticks n) (arrive ∷ take_tick ∷ []))
      (let (m', e', r') = tick_counts t limit n h (omega arith) m r e in (m', e', r' k))

-- A timer that nobody stops gives up: with `limit` retries, `limit` + 1 below 2^31, after `limit` + 1
-- ticks it has retried exactly `limit` times, has called cancelFunc last, and its goroutine has
-- returned.
pub run-gives_up :
    (limit : ℕ)
    → suc limit < 2 ^ 31
    → let t = run (new_timer limit) (ticks (suc limit)) in
      (t.calls ≡ cancel_func ∷ countdown limit) × (t.running ≡ false)
run-gives_up limit h =
    let t = run (new_timer limit) (ticks limit) in
    let (m, e, r) = ticks_expire limit limit h (omega arith) in
    let (m', e', _) = tick_counts t limit limit h (omega arith) m r e in
    let c =
      run-Counted limit (new_timer limit) (ticks (suc limit)) h
        (new_timer-Counted limit (omega (arith, h))) in
    let last : run (new_timer limit) (ticks (suc limit)) ≡ move (move t arrive) take_tick =
      rw (ticks-append limit, run-append (new_timer limit) (ticks limit) (arrive ∷ take_tick ∷ []))
        (unfold run in refl) in
    c.over (rw last e')
