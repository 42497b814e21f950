-- ===== src/Starfield/Ending.antt =====
-- A `fade_worker` and `main` of main.c with the end of the program: the flag `running`, which
-- `exit_prog` clears at a signal, the tests of both loops, the last posts, and `pthread_join`.
pub mod Laws
use tcb.Base.{ℕ, zero, suc, Bool, true, false}

-- A worker at `while (running)`, before its calls in the loop, and behind it.
pub data WorkerAt : Type 0 where
  testing posting waiting fading leaving gone : WorkerAt

-- `main` at `while (running)`, in `calc_starfield` or at the semaphores of other workers, before
-- `sem_wait(&sem_main[i])`, before `sem_post(&sem[i])`, before the last `sem_post`, in
-- `pthread_join`, and behind it.
pub data MainAt : Type 0 where
  deciding calculating committed between closing joining joined : MainAt

pub record Program : Type 0 where
  pub running : Bool
  pub worker : WorkerAt
  pub main : MainAt
  pub sem : ℕ
  pub sem_main : ℕ

abbrev pub program : Bool → WorkerAt → MainAt → ℕ → ℕ → Program
program r w m s t = record { running = r; worker = w; main = m; sem = s; sem_main = t }

-- The steps of the two threads.
pub data Step : Program → Program → Type 0 where
  worker_goes_on :
      (m : MainAt) (s t : ℕ) → Step (program true testing m s t) (program true posting m s t)
  worker_leaves_loop :
      (m : MainAt) (s t : ℕ) → Step (program false testing m s t) (program false leaving m s t)
  worker_posts :
      (r : Bool) (m : MainAt) (s t : ℕ)
      → Step (program r posting m s t) (program r waiting m s (suc t))
  worker_waits :
      (r : Bool) (m : MainAt) (s t : ℕ)
      → Step (program r waiting m (suc s) t) (program r fading m s t)
  worker_fades :
      (r : Bool) (m : MainAt) (s t : ℕ) → Step (program r fading m s t) (program r testing m s t)
  worker_posts_last :
      (r : Bool) (m : MainAt) (s t : ℕ)
      → Step (program r leaving m s t) (program r gone m s (suc t))
  main_goes_on :
      (w : WorkerAt) (s t : ℕ) → Step (program true w deciding s t) (program true w calculating s t)
  main_leaves_loop :
      (w : WorkerAt) (s t : ℕ) → Step (program false w deciding s t) (program false w closing s t)
  main_continues :
      (r : Bool) (w : WorkerAt) (s t : ℕ)
      → Step (program r w calculating s t) (program r w deciding s t)
  main_commits :
      (r : Bool) (w : WorkerAt) (s t : ℕ)
      → Step (program r w calculating s t) (program r w committed s t)
  main_waits :
      (r : Bool) (w : WorkerAt) (s t : ℕ)
      → Step (program r w committed s (suc t)) (program r w between s t)
  main_posts :
      (r : Bool) (w : WorkerAt) (s t : ℕ)
      → Step (program r w between s t) (program r w deciding (suc s) t)
  main_posts_last :
      (r : Bool) (w : WorkerAt) (s t : ℕ)
      → Step (program r w closing s t) (program r w joining (suc s) t)
  main_joins : (r : Bool) (s t : ℕ) → Step (program r gone joining s t) (program r gone joined s t)

-- `exit_prog`
abbrev pub exit_prog : Program → Program
exit_prog a = record a { running = false }

abbrev pub created : Program
created = program true testing deciding 0 0

-- What the steps and a signal lead to.
pub data Run : Program → Type 0 where
  begin : Run created
  step : {a b : Program} → Run a → Step a b → Run b
  signal : {a : Program} → Run a → Run (exit_prog a)
