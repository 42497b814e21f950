-- ===== src/Starfield/Ending/Laws.antt =====
-- The program comes to its end at a signal: nobody is left waiting, and the steps are few.
use tcb.Base.{
  ℕ, zero, suc, ◌+◌, ◌<◌, ◌≤◌, ◌≡◌, refl, Bool, true, false, ◌&&◌, leb, ◌==◌, ◌⊎◌, inl, inr, arith,
}
use tcb.Starfield.Ending.{
  WorkerAt, testing, posting, waiting, fading, leaving, gone, MainAt, deciding, calculating,
  committed, between, closing, joining, joined, Program, program, Step, worker_goes_on,
  worker_leaves_loop, worker_posts, worker_waits, worker_fades, worker_posts_last, main_goes_on,
  main_leaves_loop, main_continues, main_commits, main_waits, main_posts, main_posts_last,
  main_joins, Run, begin, step, signal, exit_prog,
}

-- The turn is with one of the worker, main and the semaphores; the last post brings a second one.
abbrev worker_turn : WorkerAt → ℕ
worker_turn waiting = 0
worker_turn gone = 0
worker_turn _ = 1

abbrev main_turn : MainAt → ℕ
main_turn between = 1
main_turn _ = 0

abbrev last_turn : MainAt → ℕ
last_turn joining = 1
last_turn joined = 1
last_turn _ = 0

-- 1 for what holds only once `running` is 0.
abbrev worker_ends : WorkerAt → ℕ
worker_ends leaving = 1
worker_ends gone = 1
worker_ends _ = 0

abbrev main_ends : MainAt → ℕ
main_ends closing = 1
main_ends joining = 1
main_ends joined = 1
main_ends _ = 0

abbrev stopped : Bool → ℕ
stopped true = 0
stopped false = 1

-- A post for the worker that is to come out of its wait.
abbrev owed : WorkerAt → MainAt → ℕ
owed posting joining = 1
owed waiting joining = 1
owed _ _ = 0

-- No post is left where the worker is gone and main may wait.
abbrev spare : WorkerAt → MainAt → ℕ → ℕ
spare gone calculating s = s
spare gone committed s = s
spare _ _ _ = 0

abbrev not_gone : WorkerAt → MainAt → ℕ
not_gone gone joined = 0
not_gone _ joined = 1
not_gone _ _ = 0

abbrev sound : Bool → WorkerAt → MainAt → ℕ → ℕ → Bool
sound r w m s t =
    (worker_turn w + main_turn m + s + t == 1 + last_turn m)
    && leb (worker_ends w) (stopped r)
    && leb (main_ends m) (stopped r)
    && leb (owed w m) s
    && (spare w m s == 0)
    && (not_gone w m == 0)

abbrev pub IsSound : Program → Type 0
IsSound a = sound a.running a.worker a.main a.sem a.sem_main ≡ true

Step-IsSound : {a b : Program} → Step a b → IsSound a → IsSound b
Step-IsSound (worker_goes_on m s t) h = ground (arith, h)
Step-IsSound (worker_leaves_loop m s t) h = ground (arith, h)
Step-IsSound (worker_posts r m s t) h = ground (arith, h)
Step-IsSound (worker_waits r m s t) h = ground (arith, h)
Step-IsSound (worker_fades r m s t) h = ground (arith, h)
Step-IsSound (worker_posts_last r m s t) h = ground (arith, h)
Step-IsSound (main_goes_on w s t) h = ground (arith, h)
Step-IsSound (main_leaves_loop w s t) h = ground (arith, h)
Step-IsSound (main_continues r w s t) h = ground (arith, h)
Step-IsSound (main_commits r w s t) h = ground (arith, h)
Step-IsSound (main_waits r w s t) h = ground (arith, h)
Step-IsSound (main_posts r w s t) h = ground (arith, h)
Step-IsSound (main_posts_last r w s t) h = ground (arith, h)
Step-IsSound (main_joins r s t) h = ground (arith, h)

exit_prog-IsSound :
    (r : Bool) (w : WorkerAt) (m : MainAt) (s t : ℕ)
    → sound r w m s t ≡ true
    → sound false w m s t ≡ true
exit_prog-IsSound r w m s t h = ground (arith, h)

Run-IsSound : {a : Program} → Run a → IsSound a
Run-IsSound begin = refl
Run-IsSound (step r s) = Step-IsSound s (Run-IsSound r)
Run-IsSound (signal {a = a} r) =
    exit_prog-IsSound a.running a.worker a.main a.sem a.sem_main (Run-IsSound r)

abbrev pub Ended : Program → Type 0
Ended a = (a.worker ≡ gone) × (a.main ≡ joined)

abbrev pub GoesOn : Program → Type 0
GoesOn a = (b : Program) × Step a b

waits_at :
    (r : Bool) (m : MainAt) (s t : ℕ)
    → sound r waiting m s t ≡ true
    → GoesOn (program r waiting m s t)
waits_at r m (suc s) t h = (_, worker_waits r m s t)
waits_at true deciding zero t h = (_, main_goes_on waiting zero t)
waits_at false deciding zero t h = (_, main_leaves_loop waiting zero t)
waits_at r calculating zero t h = (_, main_continues r waiting zero t)
waits_at r committed zero (suc t) h = (_, main_waits r waiting zero t)
waits_at r committed zero zero h = absurd (ground (arith, h))
waits_at r between zero t h = (_, main_posts r waiting zero t)
waits_at r closing zero t h = (_, main_posts_last r waiting zero t)
waits_at r joining zero t h = absurd (ground (arith, h))
waits_at r joined zero t h = absurd (ground (arith, h))

gone_at :
    (r : Bool) (m : MainAt) (s t : ℕ)
    → sound r gone m s t ≡ true
    → Ended (program r gone m s t) ⊎ GoesOn (program r gone m s t)
gone_at true deciding s t h = inr (_, main_goes_on gone s t)
gone_at false deciding s t h = inr (_, main_leaves_loop gone s t)
gone_at r calculating s t h = inr (_, main_continues r gone s t)
gone_at r committed s (suc t) h = inr (_, main_waits r gone s t)
gone_at r committed s zero h = absurd (ground (arith, h))
gone_at r between s t h = inr (_, main_posts r gone s t)
gone_at r closing s t h = inr (_, main_posts_last r gone s t)
gone_at r joining s t h = inr (_, main_joins r s t)
gone_at r joined s t h = inl (refl, refl)

goes_on :
    (r : Bool) (w : WorkerAt) (m : MainAt) (s t : ℕ)
    → sound r w m s t ≡ true
    → Ended (program r w m s t) ⊎ GoesOn (program r w m s t)
goes_on true testing m s t h = inr (_, worker_goes_on m s t)
goes_on false testing m s t h = inr (_, worker_leaves_loop m s t)
goes_on r posting m s t h = inr (_, worker_posts r m s t)
goes_on r waiting m s t h = inr (waits_at r m s t h)
goes_on r fading m s t h = inr (_, worker_fades r m s t)
goes_on r leaving m s t h = inr (_, worker_posts_last r m s t)
goes_on r gone m s t h = gone_at r m s t h

-- From every state that steps and signals lead to, a worker or main can go on, unless the worker is
-- gone and main has joined it: neither is ever left waiting for the other, wherever the signal comes.
pub Run-Ended : (a : Program) → Run a → Ended a ⊎ GoesOn a
Run-Ended a r = goes_on a.running a.worker a.main a.sem a.sem_main (Run-IsSound r)

-- The steps left behind the signal.
abbrev worker_left : WorkerAt → ℕ
worker_left posting = 5
worker_left waiting = 4
worker_left fading = 3
worker_left testing = 2
worker_left leaving = 1
worker_left gone = 0

abbrev main_left : MainAt → ℕ
main_left calculating = 6
main_left committed = 5
main_left between = 4
main_left deciding = 3
main_left closing = 2
main_left joining = 1
main_left joined = 0

abbrev left : Program → ℕ
left a = worker_left a.worker + main_left a.main

Step-lt : {a b : Program} → Step a b → a.running ≡ false → (b.running ≡ false) × (left b < left a)
Step-lt (worker_goes_on m s t) h = absurd (cc)
Step-lt (worker_leaves_loop m s t) h = (refl, omega arith)
Step-lt (worker_posts r m s t) h = (h, omega arith)
Step-lt (worker_waits r m s t) h = (h, omega arith)
Step-lt (worker_fades r m s t) h = (h, omega arith)
Step-lt (worker_posts_last r m s t) h = (h, omega arith)
Step-lt (main_goes_on w s t) h = absurd (cc)
Step-lt (main_leaves_loop w s t) h = (refl, omega arith)
Step-lt (main_continues r w s t) h = (h, omega arith)
Step-lt (main_commits r w s t) h = (h, omega arith)
Step-lt (main_waits r w s t) h = (h, omega arith)
Step-lt (main_posts r w s t) h = (h, omega arith)
Step-lt (main_posts_last r w s t) h = (h, omega arith)
Step-lt (main_joins r s t) h = (h, omega arith)

-- A number of steps in a row.
pub data Steps : ℕ → Program → Program → Type 0 where
  done : {a : Program} → Steps 0 a a
  then_step : {n : ℕ} {a b c : Program} → Step a b → Steps n b c → Steps (suc n) a c

Steps-le : {n : ℕ} {a b : Program} → Steps n a b → a.running ≡ false → n + left b ≤ left a
Steps-le done h = omega arith
Steps-le (then_step s more) h = let one = Step-lt s h in omega (arith, one.1, Steps-le more one.0)

left_small : (w : WorkerAt) (m : MainAt) → worker_left w + main_left m ≤ 11
left_small w m = ground arith

Steps-le_eleven : (a : Program) {n : ℕ} {b : Program} → Steps n (exit_prog a) b → n ≤ 11
Steps-le_eleven a run = omega (arith, Steps-le run refl, left_small a.worker a.main)

Steps-Run : {n : ℕ} {a b : Program} → Run a → Steps n a b → Run b
Steps-Run r done = r
Steps-Run r (then_step s more) = Steps-Run (step r s) more

-- From wherever the signal comes, a worker and main have no more than eleven steps left, in whatever
-- order they take them, and only stop once the worker is gone and main has joined it: the program
-- ends.
pub Run-exit_prog :
    (a : Program)
    → Run a
    → (n : ℕ) (b : Program) → Steps n (exit_prog a) b
    → (n ≤ 11) × (Ended b ⊎ GoesOn b)
Run-exit_prog a r n b more = (Steps-le_eleven a more, Run-Ended b (Steps-Run (signal r) more))
