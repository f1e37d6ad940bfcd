-- ===== src/ThreadPool/TearDown.antt =====
-- The destructor of src/thread_pool.cpp.
use cs550_pa.Prelude.{
  ℕ, zero, suc, ◌+◌, ◌≤◌, ◌≡◌, refl, ap, sym, ◌∙◌, arith, true, false, List, [], ◌∷◌, ◌++◌, length,
  length-append, append-nil, append_assoc, Bool-cases,
}
use cs550_pa.ThreadPool.{
  looking, deciding, asleep, picking, working, returned, Owner, serving, interrupting, joining,
  Pool, spawn, created, wake_all, Step, push, notify_one, notify_none, wake, decide, sleep, leave,
  pick, take_job, finish, stop, notify_all, Run, begin, then_step,
}
use cs550_pa.ThreadPool.Totals.{total, picks, total-moves, total-wake_all}
use cs550_pa.ThreadPool.Wakeups.{run-Inv}

-- What is taken after `interrupt` is set, `p.log ++ jobs` of it, is paid for by the threads that pick.
record Pays (p q : Pool) (jobs : List ℕ) : Type 0 where
  still : q.interrupt ≡ true
  more : q.log ≡ p.log ++ jobs
  paid : length jobs + total picks q.threads ≤ total picks p.threads

step-Pays : {p q : Pool} → Step p q → p.interrupt ≡ true → (jobs : List ℕ) × Pays p q jobs
step-Pays (push p job _) e =
    ([], record { still = e; more = sym (append-nil p.log); paid = omega arith })
step-Pays (notify_one p before behind k _ t) e =
    let move = total-moves picks p.threads before behind asleep looking t in
    ([], record { still = e; more = sym (append-nil p.log); paid = omega (arith, move) })
step-Pays (notify_none p k _ _) e =
    ([], record { still = e; more = sym (append-nil p.log); paid = omega arith })
step-Pays (wake p before behind t) e =
    let move = total-moves picks p.threads before behind asleep looking t in
    ([], record { still = e; more = sym (append-nil p.log); paid = omega (arith, move) })
step-Pays (decide p before behind _ _ _ n) e = cc (e, n)
step-Pays (sleep p before behind t) e =
    let move = total-moves picks p.threads before behind deciding asleep t in
    ([], record { still = e; more = sym (append-nil p.log); paid = omega (arith, move) })
step-Pays (leave p before behind t _ _) e =
    let move = total-moves picks p.threads before behind looking returned t in
    ([], record { still = e; more = sym (append-nil p.log); paid = omega (arith, move) })
step-Pays (pick p before behind job jobs _ _ n _) e = cc (e, n)
step-Pays (take_job p before behind job jobs t _) e =
    let move = total-moves picks p.threads before behind picking (working job) t in
    (job ∷ [], record { still = e; more = refl; paid = omega (arith, move) })
step-Pays (finish p before behind job t) e =
    let move = total-moves picks p.threads before behind (working job) looking t in
    ([], record { still = e; more = sym (append-nil p.log); paid = omega (arith, move) })
step-Pays (stop p _) e =
    ([], record { still = refl; more = sym (append-nil p.log); paid = omega arith })
step-Pays (notify_all p _) e = (
  [],
  record {
    still = e;
    more = sym (append-nil p.log);
    paid = omega (arith, total-wake_all picks p.threads refl);
  },
)

-- The steps that follow a state.
pub data Steps (p : Pool) : Pool → Type 0 where
  stay : Steps p p
  go : (q r : Pool) → Steps p q → Step q r → Steps p r

Steps-Pays : {p q : Pool} → Steps p q → p.interrupt ≡ true → (jobs : List ℕ) × Pays p q jobs
Steps-Pays {p} stay e =
    ([], record { still = e; more = sym (append-nil p.log); paid = omega arith })
Steps-Pays {p} (go q r steps s) e =
    let (jobs, before) = Steps-Pays steps e in
    let (later, last) = step-Pays s before.still in
    (
      jobs ++ later,
      record {
        still = last.still;
        more = last.more ∙ ap (λ xs. xs ++ later) before.more ∙ append_assoc p.log jobs later;
        paid = omega (arith, length-append jobs later, before.paid, last.paid);
      },
    )

-- Once `interrupt` is set, the threads take at most one more job, whatever steps follow, and that only if
-- a thread had looked at `interrupt` before and has the lock: the destructor sets it without the lock.
-- All other jobs of the queue are dropped, and `interrupt` stays set.
pub interrupt_log :
    (n : ℕ) (p q : Pool)
    → Run (suc n) p
    → p.interrupt ≡ true
    → Steps p q
    → (jobs : List ℕ) × (q.interrupt ≡ true)
      × (q.log ≡ p.log ++ jobs)
      × (length jobs ≤ total picks p.threads)
      × (length jobs ≤ 1)
interrupt_log n p q run e steps =
    let (jobs, pays) = Steps-Pays steps e in
    let one = (run-Inv n p run).lock_one in
    let taken : length jobs ≤ total picks p.threads = omega (arith, pays.paid) in
    let few : length jobs ≤ 1 = ground (arith, taken, one, Bool-cases p.locked) in
    (jobs, pays.still, pays.more, taken, few)

wake_all-spawn : (n : ℕ) → wake_all (spawn n) ≡ spawn n
unfolding wake_all spawn
wake_all-spawn zero = refl
wake_all-spawn (suc n) = ap (◌∷◌ looking) (wake_all-spawn n)

-- The pool while the first thread keeps the lock, and after it has gone to sleep.
abbrev held_up : ℕ → Owner → Pool
held_up n o = record {
  work_queue = [];
  threads = deciding ∷ spawn n;
  interrupt = true;
  locked = true;
  pending = 0;
  owner = o;
  log = [];
}

-- The tear-down waits for a thread that nobody wakes.
abbrev pub stuck : ℕ → Pool
stuck n = record {
  work_queue = [];
  threads = asleep ∷ spawn n;
  interrupt = true;
  locked = false;
  pending = 0;
  owner = joining;
  log = [];
}

notified : (n : ℕ) → Step (held_up n interrupting) (held_up n joining)
unfolding wake_all
notified n = rw (wake_all-spawn n) at (notify_all (held_up n interrupting) refl)

-- A pool of any size can come to a state in which the destructor has called `notify_all` and joins the
-- threads, and a thread sleeps: it finds the queue empty and `interrupt` clear, the destructor, which
-- takes no lock, sets `interrupt` and calls `notify_all`, and only then the thread goes to sleep.
pub run-stuck : (n : ℕ) → Run (suc n) (stuck n)
unfolding spawn
run-stuck n =
    then_step (held_up n joining) (stuck n)
      (then_step (held_up n interrupting) (held_up n joining)
        (then_step (record (held_up n serving) { interrupt = false }) (held_up n interrupting)
          (then_step (created (suc n)) (record (held_up n serving) { interrupt = false }) begin
            (decide (created (suc n)) [] (spawn n) refl refl refl refl))
          (stop (record (held_up n serving) { interrupt = false }) refl))
        (notified n))
      (sleep (held_up n joining) [] (spawn n) refl)
