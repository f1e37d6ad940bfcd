-- ===== src/ThreadPool/Tests.antt =====
-- Runs of the model of src/thread_pool.cpp.
use cs550_pa.Prelude.{ℕ, ◌≡◌, ◌≤◌, refl, true, false, Bool, List, [], ◌∷◌, ◌++◌, length}
use cs550_pa.ThreadPool.{
  looking, picking, working, Owner, serving, interrupting, Pool, spawn, created, any_asleep, push,
  notify_none, pick, take_job, stop, Run, begin, then_step,
}
use cs550_pa.ThreadPool.Jobs.{pushes, run-jobs}
use cs550_pa.ThreadPool.Totals.{total, picks}
use cs550_pa.ThreadPool.Wakeups.{Inv, run-Inv}
use cs550_pa.ThreadPool.TearDown.{stay, go, interrupt_log, stuck, run-stuck}

-- A pool of one thread with a job in the queue, and when the thread is to take it.
abbrev with_job : ℕ → Pool
with_job pending = record {
  work_queue = 7 ∷ [];
  threads = looking ∷ [];
  interrupt = false;
  locked = false;
  pending = pending;
  owner = serving;
  log = [];
}

abbrev about_to_take : Bool → Owner → Pool
about_to_take interrupt owner = record {
  work_queue = 7 ∷ [];
  threads = picking ∷ [];
  interrupt = interrupt;
  locked = true;
  pending = 0;
  owner = owner;
  log = [];
}

abbrev taken : Bool → Owner → Pool
taken interrupt owner = record {
  work_queue = [];
  threads = working 7 ∷ [];
  interrupt = interrupt;
  locked = false;
  pending = 0;
  owner = owner;
  log = 7 ∷ [];
}

picked : Run 1 (about_to_take false serving)
unfolding spawn any_asleep
picked =
    then_step (with_job 0) (about_to_take false serving)
      (then_step (with_job 1) (with_job 0)
        (then_step (created 1) (with_job 1) begin (push (created 1) 7 refl))
        (notify_none (with_job 1) 0 refl refl))
      (pick (with_job 0) [] [] 7 [] refl refl refl refl)

one_job : Run 1 (taken false serving)
one_job =
    then_step (about_to_take false serving) (taken false serving) picked
      (take_job (about_to_take false serving) [] [] 7 [] refl refl)

run-jobs_example : (taken false serving).log ++ (taken false serving).work_queue ≡ pushes one_job
run-jobs_example = run-jobs 1 (taken false serving) one_job

run-Inv_example : Inv (taken false serving)
run-Inv_example = run-Inv 0 (taken false serving) one_job

-- The destructor sets `interrupt` between the test and `front`.
interrupted : Run 1 (about_to_take true interrupting)
interrupted =
    then_step (about_to_take false serving) (about_to_take true interrupting) picked
      (stop (about_to_take false serving) refl)

interrupt_log_example :
    (jobs : List ℕ) × (true ≡ true)
    × (7 ∷ [] ≡ [] ++ jobs)
    × (length jobs ≤ total picks (picking ∷ []))
    × (length jobs ≤ 1)
interrupt_log_example =
    interrupt_log 0 (about_to_take true interrupting) (taken true interrupting) interrupted refl (
      go (about_to_take true interrupting) (taken true interrupting) stay
        (take_job (about_to_take true interrupting) [] [] 7 [] refl refl))

run-stuck_example : Run 3 (stuck 2)
run-stuck_example = run-stuck 2
