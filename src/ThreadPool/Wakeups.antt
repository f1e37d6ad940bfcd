-- ===== src/ThreadPool/Wakeups.antt =====
-- Who is awake in a run of src/thread_pool.cpp.
use cs550_pa.Prelude.{
  ℕ, zero, suc, ◌+◌, ◌<◌, ◌≤◌, ◌≡◌, refl, ap, ◌∙◌, arith, Bool, true, false, List, [], ◌∷◌, ◌++◌,
  if◌then◌else◌, Bool-cases, length, length-append,
}
use cs550_pa.ThreadPool.{
  moves, Thread, looking, deciding, asleep, picking, working, returned, Owner, serving, Pool, spawn,
  created, Step, push, notify_one, notify_none, wake, decide, sleep, leave, pick, take_job, finish,
  stop, notify_all, Run, begin, then_step,
}
use cs550_pa.ThreadPool.Totals.{
  total, each, decides, picks, looks, sleeps, is_back, total-moves, total-wake_all, none_asleep,
}

-- Whether the tear-down has begun.
abbrev pub stopped : Owner → Bool
stopped serving = false
stopped _ = true

pub record Inv (p : Pool) : Type 0 where
  pub lock_one : total decides p.threads + total picks p.threads ≡ (if p.locked then 1 else 0)
  pub lock_empty : 0 < total decides p.threads → length p.work_queue ≡ 0
  pub pick_full : 0 < total picks p.threads → 0 < length p.work_queue
  pub alive : p.interrupt ≡ stopped p.owner
  pub none_back : p.interrupt ≡ false → total is_back p.threads ≡ 0
  pub some_thread : 0 < total each p.threads
  pub awake :
      p.interrupt ≡ false
      → 0 < total sleeps p.threads
      → length p.work_queue ≤ total looks p.threads + p.pending

-- A thread without the lock is to look at the queue again.
looking-Inv :
    (p : Pool) (before behind : List Thread) (old : Thread) (pending : ℕ)
    → p.pending ≤ pending + 1
    → decides old ≡ 0
    → picks old ≡ 0
    → is_back old ≡ 0
    → looks old ≡ 0
    → p.threads ≡ before ++ old ∷ behind
    → Inv p
    → Inv (record (moves p before looking behind) { pending = pending })
looking-Inv p before behind old pending c d k b l e i =
    let move = λ (w : Thread → ℕ). total-moves w p.threads before behind old looking e in
    record {
      lock_one = ground (arith, move decides, move picks, i.lock_one, d, k);
      lock_empty = λ h. i.lock_empty (omega (arith, move decides, d, h));
      pick_full = λ h. i.pick_full (omega (arith, move picks, k, h));
      alive = i.alive;
      none_back = λ h. omega (arith, move is_back, i.none_back h, b);
      some_thread = omega (arith, move each, i.some_thread);
      awake = λ h q. omega (arith, move looks, c, l, i.awake h (omega (arith, move sleeps, q)));
    }

step-Inv : {p q : Pool} → Step p q → Inv p → Inv q
step-Inv (push p job l) i =
    let longer = length-append p.work_queue (job ∷ []) in
    record {
      lock_one = i.lock_one;
      lock_empty = λ h. ground (arith, i.lock_one, l, h);
      pick_full = λ h. omega (arith, longer);
      alive = i.alive;
      none_back = i.none_back;
      some_thread = i.some_thread;
      awake = λ h k. omega (arith, longer, i.awake h k);
    }
step-Inv (notify_one p before behind n c e) i =
    looking-Inv p before behind asleep n (omega (arith, c)) refl refl refl refl e i
step-Inv (notify_none p n c e) i = record {
  lock_one = i.lock_one;
  lock_empty = i.lock_empty;
  pick_full = i.pick_full;
  alive = i.alive;
  none_back = i.none_back;
  some_thread = i.some_thread;
  awake = λ h k. absurd (omega (arith, k, none_asleep p.threads e));
}
step-Inv (wake p before behind e) i =
    looking-Inv p before behind asleep p.pending (omega arith) refl refl refl refl e i
step-Inv (decide p before behind e l q n) i =
    let move = λ (w : Thread → ℕ). total-moves w p.threads before behind looking deciding e in
    record {
      lock_one = ground (arith, move decides, move picks, i.lock_one, l, ap (length {A = ℕ}) q);
      lock_empty = λ h.
          ground (
            arith,
            move decides,
            move picks,
            i.lock_one,
            i.lock_empty,
            h,
            l,
            ap (length {A = ℕ}) q,
          );
      pick_full = λ h.
          ground
            (arith, move decides, move picks, i.lock_one, i.pick_full, h, l, ap (length {A = ℕ}) q);
      alive = i.alive;
      none_back = λ h. ground (arith, move is_back, i.none_back, h, l, ap (length {A = ℕ}) q);
      some_thread = omega (arith, move each, i.some_thread);
      awake = λ h k. ground (
        arith,
        move decides,
        move looks,
        move sleeps,
        i.lock_empty,
        i.awake,
        h,
        k,
        l,
        ap (length {A = ℕ}) q,
      );
    }
step-Inv (sleep p before behind e) i =
    let move = λ (w : Thread → ℕ). total-moves w p.threads before behind deciding asleep e in
    record {
      lock_one = ground (arith, move decides, move picks, i.lock_one, Bool-cases p.locked);
      lock_empty = λ h. ground (arith, move decides, move picks, i.lock_one, i.lock_empty, h);
      pick_full = λ h. ground (arith, move decides, move picks, i.lock_one, i.pick_full, h);
      alive = i.alive;
      none_back = λ h. ground (arith, move is_back, i.none_back, h);
      some_thread = omega (arith, move each, i.some_thread);
      awake = λ h k. ground (arith, move decides, i.lock_empty);
    }
step-Inv (leave p before behind e l t) i =
    let move = λ (w : Thread → ℕ). total-moves w p.threads before behind looking returned e in
    record {
      lock_one = ground (arith, move decides, move picks, i.lock_one);
      lock_empty = λ h. ground (arith, move decides, move picks, i.lock_one, i.lock_empty, h);
      pick_full = λ h. ground (arith, move decides, move picks, i.lock_one, i.pick_full, h);
      alive = i.alive;
      none_back = λ h. cc (h, t);
      some_thread = omega (arith, move each, i.some_thread);
      awake = λ h k. cc (h, t);
    }
step-Inv (pick p before behind job jobs e l n q) i =
    let move = λ (w : Thread → ℕ). total-moves w p.threads before behind looking picking e in
    record {
      lock_one = ground (arith, move decides, move picks, i.lock_one, l, ap (length {A = ℕ}) q);
      lock_empty = λ h.
          ground (
            arith,
            move decides,
            move picks,
            i.lock_one,
            i.lock_empty,
            h,
            l,
            ap (length {A = ℕ}) q,
          );
      pick_full = λ h.
          ground
            (arith, move decides, move picks, i.lock_one, i.pick_full, h, l, ap (length {A = ℕ}) q);
      alive = i.alive;
      none_back = λ h. ground (arith, move is_back, i.none_back, h, l, ap (length {A = ℕ}) q);
      some_thread = omega (arith, move each, i.some_thread);
      awake = λ h k. ground (
        arith,
        move decides,
        move looks,
        move sleeps,
        i.lock_empty,
        i.awake,
        h,
        k,
        l,
        ap (length {A = ℕ}) q,
      );
    }
step-Inv (take_job p before behind job jobs e q) i =
    let move = λ (w : Thread → ℕ). total-moves w p.threads before behind picking (working job) e in
    record {
      lock_one =
          ground (
            arith,
            move decides,
            move picks,
            i.lock_one,
            ap (length {A = ℕ}) q,
            Bool-cases p.locked,
          );
      lock_empty = λ h. ground (
        arith,
        move decides,
        move picks,
        i.lock_one,
        i.lock_empty,
        h,
        ap (length {A = ℕ}) q,
        Bool-cases p.locked,
      );
      pick_full = λ h. ground (
        arith,
        move decides,
        move picks,
        i.lock_one,
        i.pick_full,
        h,
        ap (length {A = ℕ}) q,
        Bool-cases p.locked,
      );
      alive = i.alive;
      none_back = λ h.
          ground (arith, move is_back, i.none_back, h, ap (length {A = ℕ}) q, Bool-cases p.locked);
      some_thread = omega (arith, move each, i.some_thread);
      awake = λ h k. ground (
        arith,
        move decides,
        move looks,
        move sleeps,
        i.lock_empty,
        i.awake,
        h,
        k,
        ap (length {A = ℕ}) q,
        Bool-cases p.locked,
      );
    }
step-Inv (finish p before behind job e) i =
    looking-Inv p before behind (working job) p.pending (omega arith) refl refl refl refl e i
step-Inv (stop p o) i = record {
  lock_one = i.lock_one;
  lock_empty = i.lock_empty;
  pick_full = i.pick_full;
  alive = refl;
  none_back = λ e. cc;
  some_thread = i.some_thread;
  awake = λ e. cc;
}
step-Inv (notify_all p o) i = record {
  lock_one = omega (
    arith,
    total-wake_all decides p.threads refl,
    total-wake_all picks p.threads refl,
    i.lock_one,
  );
  lock_empty = λ h. i.lock_empty (omega (arith, total-wake_all decides p.threads refl, h));
  pick_full = λ h. i.pick_full (omega (arith, total-wake_all picks p.threads refl, h));
  alive = i.alive ∙ rw o refl;
  none_back = λ e. total-wake_all is_back p.threads refl ∙ i.none_back e;
  some_thread = omega (arith, total-wake_all each p.threads refl, i.some_thread);
  awake = λ h. cc (i.alive, o, h);
}

created-Inv : (n : ℕ) → Inv (created (suc n))
unfolding total spawn
created-Inv n = record {
  lock_one = omega (arith, none_at decides refl (suc n), none_at picks refl (suc n));
  lock_empty = λ e. refl;
  pick_full = λ h. absurd (omega (arith, none_at picks refl (suc n)));
  alive = refl;
  none_back = λ e. none_at is_back refl (suc n);
  some_thread = omega arith;
  awake = λ h k. omega arith;
}
  where
    none_at : (w : Thread → ℕ) → w looking ≡ 0 → (n : ℕ) → total w (spawn n) ≡ 0
    none_at w e zero = refl
    none_at w e (suc n) = omega (arith, e, none_at w e n)

-- In every run of a pool with a thread, the lock is held by at most one thread: one that decides to sleep,
-- and then the queue is empty, or one that takes a job, and then there is one; no thread has returned
-- before `interrupt` is set, which happens only at the tear-down; and until then, while a thread sleeps,
-- the queue has no more jobs than there are threads on their way to it and calls of `notify_one` to come:
-- no job is left to a thread that runs another, and no wake-up for a job is lost.
pub run-Inv : (n : ℕ) (p : Pool) → Run (suc n) p → Inv p
run-Inv n p begin = created-Inv n
run-Inv n p (then_step q _ run s) = step-Inv s (run-Inv n q run)
