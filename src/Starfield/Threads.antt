-- ===== src/Starfield/Threads.antt =====
-- The semaphores of main.c between one `fade_worker` and `main`, while `running` is 1. The pairs of
-- semaphores of different workers do not meet; what main does for the others is within `outside`.
use tcb.Base.{ℕ, zero, suc, ◌+◌, ◌≤◌, ◌≡◌, refl, arith}

-- Where the worker is: before `sem_post(&sem_main[id])`, before `sem_wait(&sem[id])`, or in `fade`.
pub data WorkerAt : Type 0 where
  posting waiting fading : WorkerAt

-- Where `main` is: outside its two calls for this worker, or between `sem_wait` and `sem_post`.
pub data MainAt : Type 0 where
  outside between : MainAt

pub record Threads : Type 0 where
  pub worker : WorkerAt
  pub main : MainAt
  pub sem : ℕ
  pub sem_main : ℕ

-- A semaphore that is 0 holds up the thread that waits for it.
pub data Step : Threads → Threads → Type 0 where
  worker_posts :
      (m : MainAt) (s t : ℕ)
      → Step
          (record { worker = posting; main = m; sem = s; sem_main = t })
          (record { worker = waiting; main = m; sem = s; sem_main = suc t })
  worker_waits :
      (m : MainAt) (s t : ℕ)
      → Step
          (record { worker = waiting; main = m; sem = suc s; sem_main = t })
          (record { worker = fading; main = m; sem = s; sem_main = t })
  worker_fades :
      (m : MainAt) (s t : ℕ)
      → Step
          (record { worker = fading; main = m; sem = s; sem_main = t })
          (record { worker = posting; main = m; sem = s; sem_main = t })
  main_waits :
      (w : WorkerAt) (s t : ℕ)
      → Step
          (record { worker = w; main = outside; sem = s; sem_main = suc t })
          (record { worker = w; main = between; sem = s; sem_main = t })
  main_posts :
      (w : WorkerAt) (s t : ℕ)
      → Step
          (record { worker = w; main = between; sem = s; sem_main = t })
          (record { worker = w; main = outside; sem = suc s; sem_main = t })

-- After `sem_init` and `pthread_create`.
abbrev pub created : Threads
created = record { worker = posting; main = outside; sem = 0; sem_main = 0 }

-- What steps lead to.
pub data Run : Threads → Type 0 where
  start : Run created
  step : {a b : Threads} → Run a → Step a b → Run b

-- The turn is with one of the worker, `sem_main`, `main` and `sem`.
abbrev pub worker_turn : WorkerAt → ℕ
worker_turn posting = 1
worker_turn waiting = 0
worker_turn fading = 1

abbrev pub main_turn : MainAt → ℕ
main_turn outside = 0
main_turn between = 1

abbrev pub turns : Threads → ℕ
turns a = worker_turn a.worker + main_turn a.main + a.sem + a.sem_main

Step-turns : {a b : Threads} → Step a b → turns b ≡ turns a
Step-turns (worker_posts m s t) = omega arith
Step-turns (worker_waits m s t) = omega arith
Step-turns (worker_fades m s t) = omega arith
Step-turns (main_waits w s t) = omega arith
Step-turns (main_posts w s t) = omega arith

Run-turns : {a : Threads} → Run a → turns a ≡ 1
Run-turns start = refl
Run-turns (step r s) = omega (arith, Run-turns r, Step-turns s)

one_turn :
    (w : WorkerAt) (m : MainAt) (s t : ℕ)
    → worker_turn w + main_turn m + s + t ≡ 1
    → (s ≤ 1) × (t ≤ 1) × (w ≡ fading → (s ≡ 0) × (t ≡ 0) × (m ≡ outside))
one_turn w m s t h = ground arith

goes_on :
    (w : WorkerAt) (m : MainAt) (s t : ℕ)
    → worker_turn w + main_turn m + s + t ≡ 1
    → (b : Threads) × Step (record { worker = w; main = m; sem = s; sem_main = t }) b
goes_on posting m s t h = (_, worker_posts m s t)
goes_on fading m s t h = (_, worker_fades m s t)
goes_on waiting between s t h = (_, main_posts waiting s t)
goes_on waiting outside (suc s) t h = (_, worker_waits outside s t)
goes_on waiting outside zero (suc t) h = (_, main_waits waiting zero t)
goes_on waiting outside zero zero h = absurd (omega (arith, h))

-- In every order of steps, a worker that fades has not been given its next round, and has not told
-- main that it is done: both semaphores are 0 and main is not between its two calls. And neither
-- semaphore is ever above 1.
pub Run-fading :
    (a : Threads)
    → Run a
    → (a.sem ≤ 1)
      × (a.sem_main ≤ 1)
      × (a.worker ≡ fading → (a.sem ≡ 0) × (a.sem_main ≡ 0) × (a.main ≡ outside))
Run-fading a r = one_turn a.worker a.main a.sem a.sem_main (Run-turns r)

-- A worker and main do not block each other: from every state that a run leads to, the worker or main's
-- calls for it can go on.
pub Run-Step : (a : Threads) → Run a → (b : Threads) × Step a b
Run-Step a r = goes_on a.worker a.main a.sem a.sem_main (Run-turns r)
