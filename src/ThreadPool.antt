-- ===== src/ThreadPool.antt =====
-- src/thread_pool.cpp: a queue of jobs, and threads that wait for them.
pub mod Jobs
pub mod Totals
pub mod Wakeups
pub mod TearDown
mod Tests
use cs550_pa.Prelude.{
  ℕ, zero, suc, ◌+◌, ◌≡◌, Bool, true, false, Option, none, some, List, [], ◌∷◌, ◌++◌, if◌then◌else◌,
}

-- Where a thread of the pool stands in `thread_loop`: about to take the lock and look at the queue, with
-- the lock and a predicate of `wait` that was false, asleep in `wait`, with the lock and a look at
-- `interrupt` that was clear, running a job, or back from the loop.
pub data Thread : Type 0 where
  looking : Thread
  deciding : Thread
  asleep : Thread
  picking : Thread
  working : ℕ → Thread
  returned : Thread

-- Where the owner stands: the pool serves, or the destructor has set `interrupt` and is to call
-- `notify_all`, or it joins the threads.
pub data Owner : Type 0 where
  serving : Owner
  interrupting : Owner
  joining : Owner

-- A job is known by its number. `log` is what has been taken off the queue, oldest first; `locked` is
-- whether a thread has the lock, and `pending` counts the calls of `queue_job`, by whatever thread, that
-- have pushed and are to call `notify_one`.
pub record Pool : Type 0 where
  pub work_queue : List ℕ
  pub threads : List Thread
  pub interrupt : Bool
  pub locked : Bool
  pub pending : ℕ
  pub owner : Owner
  pub log : List ℕ

-- `ThreadPool(n)`.
unfoldable pub spawn : ℕ → List Thread
spawn zero = []
spawn (suc n) = looking ∷ spawn n

abbrev pub created : ℕ → Pool
created n = record {
  work_queue = [];
  threads = spawn n;
  interrupt = false;
  locked = false;
  pending = 0;
  owner = serving;
  log = [];
}

-- `notify_all`
unfoldable pub wake_all : List Thread → List Thread
wake_all [] = []
wake_all (t ∷ ts) = elim t [
  | asleep ↦ looking ∷ wake_all ts
  | picking ↦ picking ∷ wake_all ts
  | looking ↦ looking ∷ wake_all ts
  | deciding ↦ deciding ∷ wake_all ts
  | working j ↦ working j ∷ wake_all ts
  | returned ↦ returned ∷ wake_all ts
]

-- Whether a thread sleeps.
abbrev pub is_asleep : Thread → Bool
is_asleep asleep = true
is_asleep _ = false

unfoldable pub any_asleep : List Thread → Bool
any_asleep [] = false
any_asleep (t ∷ ts) = if is_asleep t then true else any_asleep ts

-- The thread between `before` and `behind` goes from one place to another.
abbrev pub moves : Pool → List Thread → Thread → List Thread → Pool
moves p before t behind = record p { threads = before ++ t ∷ behind }

-- One step of one thread of the pool, of a thread that queues a job, or of the owner, who at last tears
-- the pool down.
pub data Step : Pool → Pool → Type 0 where
  -- `queue_job`: push under the lock.
  push :
      (p : Pool) (job : ℕ)
      → p.locked ≡ false
      → Step p (record p { work_queue = p.work_queue ++ job ∷ []; pending = p.pending + 1 })
  -- `notify_one` with a thread that sleeps, and without one.
  notify_one :
      (p : Pool) (before behind : List Thread) (k : ℕ)
      → p.pending ≡ suc k
      → p.threads ≡ before ++ asleep ∷ behind
      → Step p (record (moves p before looking behind) { pending = k })
  notify_none :
      (p : Pool) (k : ℕ)
      → p.pending ≡ suc k
      → any_asleep p.threads ≡ false
      → Step p (record p { pending = k })
  -- A wake-up for no reason.
  wake :
      (p : Pool) (before behind : List Thread)
      → p.threads ≡ before ++ asleep ∷ behind
      → Step p (moves p before looking behind)
  -- The predicate of `wait` is false: the thread keeps the lock until it sleeps.
  decide :
      (p : Pool) (before behind : List Thread)
      → p.threads ≡ before ++ looking ∷ behind
      → p.locked ≡ false
      → p.work_queue ≡ []
      → p.interrupt ≡ false
      → Step p (record (moves p before deciding behind) { locked = true })
  sleep :
      (p : Pool) (before behind : List Thread)
      → p.threads ≡ before ++ deciding ∷ behind
      → Step p (record (moves p before asleep behind) { locked = false })
  -- `if(interrupt) return`
  leave :
      (p : Pool) (before behind : List Thread)
      → p.threads ≡ before ++ looking ∷ behind
      → p.locked ≡ false
      → p.interrupt ≡ true
      → Step p (moves p before returned behind)
  -- `interrupt` is clear at the test behind `wait`; it may be set before the next step.
  pick :
      (p : Pool) (before behind : List Thread) (job : ℕ) (jobs : List ℕ)
      → p.threads ≡ before ++ looking ∷ behind
      → p.locked ≡ false
      → p.interrupt ≡ false
      → p.work_queue ≡ job ∷ jobs
      → Step p (record (moves p before picking behind) { locked = true })
  -- `front` and `pop`, and the lock is given back.
  take_job :
      (p : Pool) (before behind : List Thread) (job : ℕ) (jobs : List ℕ)
      → p.threads ≡ before ++ picking ∷ behind
      → p.work_queue ≡ job ∷ jobs
      → Step p (record (moves p before (working job) behind) {
        work_queue = jobs;
        locked = false;
        log = p.log ++ job ∷ [];
      })
  -- `job()` is done.
  finish :
      (p : Pool) (before behind : List Thread) (job : ℕ)
      → p.threads ≡ before ++ working job ∷ behind
      → Step p (moves p before looking behind)
  -- The destructor: `interrupt = true` with no lock, and then `notify_all`.
  stop :
      (p : Pool) → p.owner ≡ serving → Step p (record p { interrupt = true; owner = interrupting })
  notify_all :
      (p : Pool)
      → p.owner ≡ interrupting
      → Step p (record p { threads = wake_all p.threads; owner = joining })

-- A run of the pool from its creation on.
pub data Run (n : ℕ) : Pool → Type 0 where
  begin : Run n (created n)
  then_step : (p q : Pool) → Run n p → Step p q → Run n q
