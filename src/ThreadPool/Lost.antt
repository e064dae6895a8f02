-- ===== src/ThreadPool/Lost.antt =====
-- A task that no worker is left to execute.
use libant.Common.{ℕ, ◌≤◌, ◌≡◌, refl, sym, ap, arith, true, false, ltb, leb}
use libant.Common.{List, [], ◌∷◌, some}
use libant.ThreadPool.{
  Pc, Worker, Pool, create, worker_count, ready, waiting, busy, gone, run, look, time_out,
}
use libant.ThreadPool.{push_result, new_worker}
use libant.ThreadPool.Steps.{System, Step, Reach, fresh}

module _ {A B : Type 0} (process : A → B) (max : ℕ) (t u : A) where
  -- A pool with at most one worker, which is not kept.
  abbrev pool : List A → List B → List (Worker A) → ℕ → Pool A B
  pool tasks out ws free = record {
    max_thread_num = max;
    task_queue = tasks;
    out_queue = out;
    workers = ws;
    free_worker_num = free;
    stop = false;
  }

  abbrev at : Pc A → List (Worker A)
  at c = record { keep_in_pool = false; pc = c } ∷ []

  abbrev submitted_first : System A B
  submitted_first = record {
    pool = pool (t ∷ []) [] (at ready) 0;
    submitted = t ∷ [];
    started = [];
    finished = [];
    collected = [];
  }

  abbrev waits_again : System A B
  waits_again = record {
    pool = pool [] (process t ∷ []) (at waiting) 1;
    submitted = t ∷ [];
    started = t ∷ [];
    finished = t ∷ [];
    collected = [];
  }

  -- The worker is gone, and the second task is in the queue.
  abbrev abandoned : System A B
  abandoned = record {
    pool = pool (u ∷ []) (process t ∷ []) (at gone) 0;
    submitted = t ∷ u ∷ [];
    started = t ∷ [];
    finished = t ∷ [];
    collected = [];
  }

  first_run : ltb 0 max ≡ true → run t (pool [] [] [] 0) ≡ pool (t ∷ []) [] (at ready) 0
  unfolding run
  first_run room = rw room refl

  second_run : run u waits_again.pool ≡ pool (u ∷ []) (process t ∷ []) (at waiting) 1
  unfolding run
  second_run = refl

  first-Reach : 1 ≤ max → Reach process (fresh (pool [] [] [] 0)) submitted_first
  first-Reach some_room = Reach.next Reach.here (
      Step.runs t (
        ap
          (λ (q : Pool A B). record {
            pool = q;
            submitted = t ∷ [];
            started = [];
            finished = [];
            collected = [];
          })
          (sym (first_run (ground arith)))))

  waits-Reach : 1 ≤ max → Reach process (fresh (pool [] [] [] 0)) waits_again
  unfolding look push_result
  waits-Reach some_room =
      Reach.next
        (Reach.next
          (Reach.next (first-Reach some_room) (Step.looks [] [] (new_worker false) refl refl refl))
          (Step.finishes [] [] (record { keep_in_pool = false; pc = busy t }) t refl refl refl))
        (Step.looks [] [] (new_worker false) refl refl refl)

  abandoned-Reach : 1 ≤ max → Reach process (fresh (pool [] [] [] 0)) abandoned
  unfolding time_out run
  abandoned-Reach some_room =
      Reach.next (Reach.next (waits-Reach some_room) (Step.runs u refl))
        (Step.times_out [] [] (record { keep_in_pool = false; pc = waiting }) refl refl refl refl)

  create_pool : create 0 max ≡ some (pool [] [] [] 0)
  unfolding create
  create_pool = let low : leb 0 max ≡ true = ground arith in rw low refl

  -- For a pool that keeps no workers and allows at least one, and any two tasks: it can be reached that
  -- both were accepted and only the first was taken, that the second is in the queue, that the pool
  -- is not stopped, and that there is no worker left to take it. A worker whose wait times out leaves
  -- the pool without a look at the queue.
  pub abandoned-reachable :
      1 ≤ max
      → (p : Pool A B) × (s : System A B) × (create 0 max ≡ some p)
        × Reach process (fresh p) s
        × (s.submitted ≡ t ∷ u ∷ [])
        × (s.started ≡ t ∷ [])
        × (s.pool.task_queue ≡ u ∷ [])
        × (s.pool.stop ≡ false)
        × (worker_count s.pool.workers ≡ 0)
  abandoned-reachable some_room = (
    pool [] [] [] 0,
    abandoned,
    create_pool,
    abandoned-Reach some_room,
    refl,
    refl,
    refl,
    refl,
    refl,
  )
