-- ===== src/ThreadPool/Reachable.antt =====
-- What holds in every reachable state of a pool.
use mathlib.Core.Path.{subst}
use mathlib.Core.List.{Perm}
use mathlib.Core.List.Perm
use mathlib.Core.Option.{some-injective}
use libant.Common.{
  ℕ, ◌+◌, ◌^◌, ◌≤◌, ◌<◌, ◌≡◌, ◌⊎◌, refl, sym, ap, ◌∙◌, arith, inl, inr, Option, none, some,
}
use libant.Common.{Bool-cases, leb, true, false, List, [], ◌∷◌, ◌++◌, map, append-nil, length}
use libant.ThreadPool.{Pc, Worker, Pool, create, worker_count, ready, look, wake, time_out}
use libant.ThreadPool.{push_result, get_job_output, get_pending_task_count}
use libant.ThreadPool.Workers.{
  total, waits, exits, running, tasks_of, all_returned, worker_count-total, waits-here,
}
use libant.ThreadPool.Workers.{
  new-total, new-here, new-kept, new-kept_exits, new-running, returned-running,
}
use libant.ThreadPool.Effects.{
  Counts, look-Takes, wake-Takes, time_out-Takes, look-Counts, wake-Counts, time_out-Counts,
  push_result-Counts,
}
use libant.ThreadPool.Steps.{System, Step, Reach, fresh, moved, after_get}
use libant.ThreadPool.Invariant.{IsCounted, put-IsCounted, waiting-free, ready-free, run-IsCounted}
use libant.ThreadPool.Invariant.{after_get-IsCounted, start_stop-IsCounted, end_stop-IsCounted}
use libant.ThreadPool.Kept.{IsKept, put-IsKept, run-IsKept, after_get-IsKept, start_stop-IsKept}
use libant.ThreadPool.Kept.{returned-empty, end_stop-IsKept}
use libant.ThreadPool.Once.{
  IsOnce, moved-IsOnce, finished-IsOnce, after_run-IsOnce, after_get-IsOnce,
}
use libant.ThreadPool.Once.{start_stop-IsOnce, end_stop-IsOnce}

pub record IsGood {A B : Type 0} (process : A → B) (min max : ℕ) (s : System A B) : Type 0 where
  pub counted : IsCounted max s.pool
  pub staff : IsKept min s.pool
  pub once : IsOnce process s

module _ {A B : Type 0} (process : A → B) (min max : ℕ) (small : max < 2 ^ 64) where
  -- A step of a worker that has no task.
  moved-IsGood :
      (us vs : List (Worker A)) (w : Worker A) (s : System A B) (r : Pc A × Pool A B)
      → s.pool.workers ≡ us ++ (w ∷ vs)
      → tasks_of w.pc ≡ []
      → Counts w.keep_in_pool w.pc s.pool r.0 r.1
      → IsOnce process (moved s us w vs r)
      → IsGood process min max s
      → IsGood process min max (moved s us w vs r)
  moved-IsGood us vs w s (c, q) eq idle e once g = record {
    counted = put-IsCounted max us vs w s.pool c q eq e g.counted;
    staff = put-IsKept min us vs w s.pool c q eq e g.staff;
    once = once;
  }

  Step-IsGood :
      (s t : System A B) → Step process s t → IsGood process min max s → IsGood process min max t
  Step-IsGood s t (Step.runs x eq) g = subst (IsGood process min max) (sym eq) (record {
    counted = run-IsCounted max x s.pool g.counted;
    staff = run-IsKept min x s.pool g.staff;
    once = after_run-IsOnce process x s g.once;
  })
  Step-IsGood s t (Step.looks us vs w eq at same) g = subst (IsGood process min max) (sym same) (
      moved-IsGood us vs w s (look s.pool) eq (ap tasks_of at)
        (subst (λ c. Counts w.keep_in_pool c s.pool (look s.pool).0 (look s.pool).1) (sym at)
          (look-Counts s.pool w.keep_in_pool (ready-free max us vs w s.pool eq at small g.counted)))
        (moved-IsOnce process us vs w s (look s.pool).0 (look s.pool).1 eq (ap tasks_of at)
          (look-Takes s.pool) g.once)
        g)
  Step-IsGood s t (Step.wakes us vs w eq at same) g =
      let (some_free, low) = waiting-free max us vs w s.pool eq at small g.counted in
      subst (IsGood process min max) (sym same) (
        moved-IsGood us vs w s (wake s.pool) eq (ap tasks_of at)
          (subst (λ c. Counts w.keep_in_pool c s.pool (wake s.pool).0 (wake s.pool).1) (sym at)
            (wake-Counts s.pool w.keep_in_pool some_free low))
          (moved-IsOnce process us vs w s (wake s.pool).0 (wake s.pool).1 eq (ap tasks_of at)
            (wake-Takes s.pool) g.once)
          g)
  Step-IsGood s t (Step.times_out us vs w eq at off same) g =
      let (some_free, low) = waiting-free max us vs w s.pool eq at small g.counted in
      subst (IsGood process min max) (sym same) (
        moved-IsGood us vs w s (time_out s.pool) eq (ap tasks_of at)
          (subst (λ k. Counts k w.pc s.pool (time_out s.pool).0 (time_out s.pool).1) (sym off)
            (subst (λ c. Counts false c s.pool (time_out s.pool).0 (time_out s.pool).1) (sym at)
              (time_out-Counts s.pool some_free low)))
          (moved-IsOnce process us vs w s (time_out s.pool).0 (time_out s.pool).1 eq
            (ap tasks_of at) (time_out-Takes s.pool) g.once)
          g)
  Step-IsGood s t (Step.finishes us vs w x eq at same) g =
      subst (IsGood process min max) (sym same) (record {
        counted =
            put-IsCounted max us vs w s.pool ready (push_result (process x) s.pool) eq finished
              g.counted;
        staff =
            put-IsKept min us vs w s.pool ready (push_result (process x) s.pool) eq finished
              g.staff;
        once = finished-IsOnce process us vs w x s eq at g.once;
      })
    where
      finished : Counts w.keep_in_pool w.pc s.pool ready (push_result (process x) s.pool)
      finished =
          subst (λ c. Counts w.keep_in_pool c s.pool ready (push_result (process x) s.pool))
            (sym at) (push_result-Counts w.keep_in_pool x (process x) s.pool)
  Step-IsGood s t (Step.gets same) g = subst (IsGood process min max) (sym same) (
      got s (get_job_output s.pool) (after_get-IsCounted max s.pool g.counted)
        (after_get-IsKept min s.pool g.staff) (after_get-IsOnce process s g.once))
    where
      got :
          (s : System A B) (r : Option B × Pool A B)
          → IsCounted max r.1
          → IsKept min r.1
          → IsOnce process (after_get s r)
          → IsGood process min max (after_get s r)
      got s (none, q) counted staff once = record { counted = counted; staff = staff; once = once }
      got s (some b, q) counted staff once = record {
        counted = counted;
        staff = staff;
        once = once;
      }
  Step-IsGood s t (Step.stops same) g = subst (IsGood process min max) (sym same) (record {
    counted = start_stop-IsCounted max s.pool g.counted;
    staff = start_stop-IsKept min s.pool g.staff;
    once = start_stop-IsOnce process s g.once;
  })
  Step-IsGood s t (Step.ends st done same) g = subst (IsGood process min max) (sym same) (record {
    counted = end_stop-IsCounted max s.pool g.counted;
    staff = end_stop-IsKept min s.pool st done g.staff;
    once = end_stop-IsOnce process s done g.once;
  })

  Reach-IsGood :
      (s t : System A B) → Reach process s t → IsGood process min max s → IsGood process min max t
  Reach-IsGood s t Reach.here g = g
  Reach-IsGood s t (Reach.next {t = u} r st) g = Step-IsGood u t st (Reach-IsGood s u r g)

  create-IsGood : (p : Pool A B) → create min max ≡ some p → IsGood process min max (fresh p)
  unfolding create
  create-IsGood p made = elim (Bool-cases (leb min max)) [
    | inr refused ↦ absurd (fails (rw refused at made))
    | inl fits ↦
        subst (λ q. IsGood process min max (fresh q)) (some-injective _ _ (rw fits at made))
          (record {
            counted = record {
              limit = refl;
              bound = let all = new-here A min in ground arith;
              low = let none_waits = new-total A waits min refl in omega arith;
              high = omega arith;
              exact = let none_waits = new-total A waits min refl in inr (omega arith);
            };
            staff = record { quiet = inl (new-kept_exits A min); all = inl (new-kept A min) };
            once = record {
              order = refl;
              share = subst (λ l. Perm [] l) (sym (new-running A min)) (Perm.refl []);
              results = refl;
            };
          })
  ]
    where
      fails : ◌≡◌ {A = Option (Pool A B)} none (some p) → ⊥
      fails eq = ground arith

module _ {A B : Type 0} (process : A → B) (min max : ℕ) (p : Pool A B) (s : System A B)
    (small : max < 2 ^ 64) (made : create min max ≡ some p)
    (reach : Reach process (fresh p) s) where
  reached : IsGood process min max s
  reached =
      Reach-IsGood process min max small (fresh p) s reach
        (create-IsGood process min max small p made)

  -- In every state that the callers and the workers of a pool can reach, in whatever order they act,
  -- if the limit fits 64 bits: there are never more workers than the limit, `freeWorkerNum_` never
  -- wraps around, it is the number of waiting workers until `Stop` is called, and after that it
  -- exceeds it at most by the number of workers that have left `run`.
  pub Reach-IsBounded :
      (worker_count s.pool.workers ≤ max)
      × (total waits s.pool.workers ≤ s.pool.free_worker_num)
      × (s.pool.free_worker_num ≤ total waits s.pool.workers + total exits s.pool.workers)
      × ((s.pool.stop ≡ true) ⊎ (s.pool.free_worker_num ≡ total waits s.pool.workers))
  Reach-IsBounded =
      let g = reached in
      let count = worker_count-total s.pool.workers in
      (omega (arith, g.counted.bound), g.counted.low, g.counted.high, g.counted.exact)

  -- In every state that the callers and the workers of a pool can reach, in whatever order they act,
  -- if the limit fits 64 bits: the accepted tasks are those that workers have taken, in order, and then
  -- those in the queue; the tasks taken are, but for the order, those that are done and those that
  -- workers execute now; the results handed out and then those in the output queue are the results of
  -- the tasks done, in order. So no task is executed twice, and no result is lost or handed out twice.
  pub Reach-once :
      (s.submitted ≡ s.started ++ s.pool.task_queue)
      × Perm s.started (s.finished ++ running s.pool.workers)
      × (map process s.finished ≡ s.collected ++ s.pool.out_queue)
  Reach-once = let g = reached in (g.once.order, g.once.share, g.once.results)

  -- In every state that the callers and the workers of a pool can reach, for a limit that fits 64 bits
  -- and a minimum of at least one worker: once every worker has left `run`, which is what `Stop` waits for, every accepted task is done, and its result was handed out
  -- or is in the output queue.
  pub stopped-done :
      1 ≤ min
      → all_returned s.pool.workers ≡ true
      → (s.pool.task_queue ≡ [])
        × Perm s.submitted s.finished
        × (map process s.finished ≡ s.collected ++ s.pool.out_queue)
  stopped-done some_kept done =
      let g = reached in
      let empty : s.pool.task_queue ≡ [] = elim (returned-empty min s.pool done g.staff) [
        | inl no_kept ↦ absurd (omega arith)
        | inr empty ↦ empty
      ] in
      (
        empty,
        subst (λ l. Perm l s.finished)
            (sym (g.once.order ∙ ap (λ l. s.started ++ l) empty ∙ append-nil s.started))
            (subst (λ l. Perm s.started l)
              (ap (λ l. s.finished ++ l) (returned-running s.pool.workers done)
                ∙ append-nil s.finished)
              g.once.share),
        g.once.results,
      )

  -- What `GetPendingTaskCount` counts: the tasks in the queue and the workers that do not wait, among
  -- them those that have no task.
  pending-waits :
      s.pool.stop ≡ false
      → length s.pool.task_queue + max < 2 ^ 64
      → get_pending_task_count s.pool + total waits s.pool.workers
        ≡ length s.pool.task_queue + worker_count s.pool.workers
  unfolding get_pending_task_count
  pending-waits going few =
      let g = reached in
      let count = worker_count-total s.pool.workers in
      let most = waits-here s.pool.workers in
      elim g.counted.exact [
        | inl st ↦ absurd (both st)
        | inr whole ↦ omega (arith, g.counted.bound)
      ]
    where
      both : s.pool.stop ≡ true → ⊥
      both st = ground arith
