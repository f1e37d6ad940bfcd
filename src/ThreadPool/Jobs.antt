-- ===== src/ThreadPool/Jobs.antt =====
-- The jobs of src/thread_pool.cpp are neither lost nor done twice, and wake a thread.
use cs550_pa.Prelude.{ℕ, ◌≡◌, refl, sym, ap, ◌∙◌, List, [], ◌∷◌, ◌++◌, append-nil, append_assoc}
use cs550_pa.ThreadPool.{
  Pool, Step, push, notify_one, notify_none, wake, decide, sleep, leave, pick, take_job, finish,
  stop, notify_all, Run, begin, then_step,
}

-- The jobs that a step, and a run, has pushed.
unfoldable pub pushed_by : {p q : Pool} → Step p q → List ℕ
pushed_by (push p job _) = job ∷ []
pushed_by _ = []

unfoldable pub pushes : {n : ℕ} {p : Pool} → Run n p → List ℕ
pushes begin = []
pushes (then_step p q run step) = pushes run ++ pushed_by step

step_jobs :
    {p q : Pool} (s : Step p q) → q.log ++ q.work_queue ≡ (p.log ++ p.work_queue) ++ pushed_by s
unfolding pushed_by
step_jobs (push p job _) = sym (append_assoc p.log p.work_queue (job ∷ []))
step_jobs (notify_one p before behind k _ _) = sym (append-nil (p.log ++ p.work_queue))
step_jobs (notify_none p k _ _) = sym (append-nil (p.log ++ p.work_queue))
step_jobs (wake p before behind _) = sym (append-nil (p.log ++ p.work_queue))
step_jobs (decide p before behind _ _ _ _) = sym (append-nil (p.log ++ p.work_queue))
step_jobs (sleep p before behind _) = sym (append-nil (p.log ++ p.work_queue))
step_jobs (leave p before behind _ _ _) = sym (append-nil (p.log ++ p.work_queue))
step_jobs (pick p before behind job jobs _ _ _ _) = sym (append-nil (p.log ++ p.work_queue))
step_jobs (take_job p before behind job jobs _ e) =
    append_assoc p.log (job ∷ []) jobs
    ∙ ap (◌++◌ p.log) (sym e)
    ∙ sym (append-nil (p.log ++ p.work_queue))
step_jobs (finish p before behind job _) = sym (append-nil (p.log ++ p.work_queue))
step_jobs (stop p _) = sym (append-nil (p.log ++ p.work_queue))
step_jobs (notify_all p _) = sym (append-nil (p.log ++ p.work_queue))

-- In every run, the jobs that threads have taken, followed by those still in the queue, are the jobs
-- that were pushed, in that order: none is lost, taken twice or overtaken.
pub run-jobs : (n : ℕ) (p : Pool) (run : Run n p) → p.log ++ p.work_queue ≡ pushes run
unfolding pushes
run-jobs n p begin = refl
run-jobs n p (then_step q _ run s) = step_jobs s ∙ ap (λ js. js ++ pushed_by s) (run-jobs n q run)
