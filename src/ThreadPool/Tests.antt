-- ===== src/ThreadPool/Tests.antt =====
-- The witnesses of the properties of the thread pool.
use mathlib.Core.List.{Perm}
use libant.Common.{ℕ, ◌+◌, ◌≤◌, ◌≡◌, ◌⊎◌, refl, arith, true, false, [], ◌∷◌, ◌++◌, map, some}
use libant.ThreadPool.{Pc, Worker, Pool, create, worker_count, ready, busy, run, look}
use libant.ThreadPool.{push_result, start_stop, new_worker}
use libant.ThreadPool.Workers.{total, waits, exits, running, all_returned}
use libant.ThreadPool.Steps.{System, Step, Reach, fresh, moved, after_run}
use libant.ThreadPool.Reachable.{Reach-IsBounded, Reach-once, stopped-done}
use libant.ThreadPool.Lost.{abandoned-reachable}

abbrev process : ℕ → ℕ
process x = x + 1

-- One worker, a task, and `Stop` while the task is executed.
abbrev created : Pool ℕ ℕ
created = record {
  max_thread_num = 1;
  task_queue = [];
  out_queue = [];
  workers = new_worker true ∷ [];
  free_worker_num = 0;
  stop = false;
}

abbrev at : Pc ℕ → Worker ℕ
at c = record { keep_in_pool = true; pc = c }

abbrev accepted : System ℕ ℕ
accepted = after_run 5 (fresh created)

abbrev taken : System ℕ ℕ
taken = moved accepted [] (at ready) [] (look accepted.pool)

abbrev stopped : System ℕ ℕ
stopped = record taken { pool = start_stop taken.pool }

abbrev done : System ℕ ℕ
done = record (moved stopped [] (at (busy 5)) [] (ready, push_result 6 stopped.pool)) {
  finished = 5 ∷ [];
}

abbrev left : System ℕ ℕ
left = moved done [] (at ready) [] (look done.pool)

create-created : create 1 1 ≡ some created
unfolding create
create-created = refl

taken-Reach : Reach process (fresh created) taken
unfolding run look
taken-Reach =
    Reach.next (Reach.next Reach.here (Step.runs 5 refl))
      (Step.looks [] [] (at ready) refl refl refl)

left-Reach : Reach process (fresh created) left
unfolding run look push_result start_stop
left-Reach =
    Reach.next
      (Reach.next (Reach.next taken-Reach (Step.stops refl))
        (Step.finishes [] [] (at (busy 5)) 5 refl refl refl))
      (Step.looks [] [] (at ready) refl refl refl)

left-all_returned : all_returned left.pool.workers ≡ true
unfolding all_returned run look push_result start_stop
left-all_returned = refl

Reach-IsBounded_example :
    (worker_count taken.pool.workers ≤ 1)
    × (total waits taken.pool.workers ≤ taken.pool.free_worker_num)
    × (taken.pool.free_worker_num ≤ total waits taken.pool.workers + total exits taken.pool.workers)
    × ((taken.pool.stop ≡ true) ⊎ (taken.pool.free_worker_num ≡ total waits taken.pool.workers))
Reach-IsBounded_example =
    Reach-IsBounded process 1 1 created taken (omega arith) create-created taken-Reach

Reach-once_example :
    (left.submitted ≡ left.started ++ left.pool.task_queue)
    × Perm left.started (left.finished ++ running left.pool.workers)
    × (map process left.finished ≡ left.collected ++ left.pool.out_queue)
Reach-once_example = Reach-once process 1 1 created left (omega arith) create-created left-Reach

stopped-done_example :
    (left.pool.task_queue ≡ [])
    × Perm left.submitted left.finished
    × (map process left.finished ≡ left.collected ++ left.pool.out_queue)
stopped-done_example =
    stopped-done process 1 1 created left (omega arith) create-created left-Reach (omega arith)
      left-all_returned

abandoned-reachable_example :
    (p : Pool ℕ ℕ) × (s : System ℕ ℕ) × (create 0 4 ≡ some p)
    × Reach process (fresh p) s
    × (s.submitted ≡ 5 ∷ 7 ∷ [])
    × (s.started ≡ 5 ∷ [])
    × (s.pool.task_queue ≡ 7 ∷ [])
    × (s.pool.stop ≡ false)
    × (worker_count s.pool.workers ≡ 0)
abandoned-reachable_example = abandoned-reachable process 4 5 7 (omega arith)
