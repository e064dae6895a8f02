-- ===== src/ThreadPool/Steps.antt =====
-- The callers and the workers of one pool, each step of one between any two of another.
use libant.Common.{◌≡◌, true, false, if◌then◌else◌, List, [], ◌∷◌, ◌++◌, Option, none, some}
use libant.ThreadPool.{Pc, Worker, Pool, ready, waiting, busy, run, look, wake, time_out}
use libant.ThreadPool.{push_result, get_job_output, start_stop, end_stop}
use libant.ThreadPool.Workers.{tasks_of, all_returned}

-- The pool, the tasks it has accepted, those that a worker has taken and those that are done, each in
-- order, and the results handed out.
pub record System (A B : Type 0) : Type 0 where
  pub pool : Pool A B
  pub submitted : List A
  pub started : List A
  pub finished : List A
  pub collected : List B

module _ {A B : Type 0} where
  abbrev pub fresh : Pool A B → System A B
  fresh p = record { pool = p; submitted = []; started = []; finished = []; collected = [] }

  abbrev pub after_run : A → System A B → System A B
  after_run t s = record s {
    pool = run t s.pool;
    submitted = if s.pool.stop then s.submitted else s.submitted ++ (t ∷ []);
  }

  -- The worker between `us` and `vs` has changed the pool.
  abbrev pub moved :
      System A B → List (Worker A) → Worker A → List (Worker A) → Pc A × Pool A B → System A B
  moved s us w vs (c, p) = record s {
    pool = record p { workers = us ++ (record w { pc = c } ∷ vs) };
    started = s.started ++ tasks_of c;
  }

  abbrev pub after_get : System A B → Option B × Pool A B → System A B
  after_get s (none, p) = record s { pool = p }
  after_get s (some b, p) = record s { pool = p; collected = s.collected ++ (b ∷ []) }

-- `process` is what the tasks do.
pub data Step {A B : Type 0} (process : A → B) (s t : System A B) : Type 0 where
  runs : (x : A) → t ≡ after_run x s → Step process s t
  looks :
      (us vs : List (Worker A)) (w : Worker A)
      → s.pool.workers ≡ us ++ (w ∷ vs)
      → w.pc ≡ ready
      → t ≡ moved s us w vs (look s.pool)
      → Step process s t
  wakes :
      (us vs : List (Worker A)) (w : Worker A)
      → s.pool.workers ≡ us ++ (w ∷ vs)
      → w.pc ≡ waiting
      → t ≡ moved s us w vs (wake s.pool)
      → Step process s t
  times_out :
      (us vs : List (Worker A)) (w : Worker A)
      → s.pool.workers ≡ us ++ (w ∷ vs)
      → w.pc ≡ waiting
      → w.keep_in_pool ≡ false
      → t ≡ moved s us w vs (time_out s.pool)
      → Step process s t
  finishes :
      (us vs : List (Worker A)) (w : Worker A) (x : A)
      → s.pool.workers ≡ us ++ (w ∷ vs)
      → w.pc ≡ busy x
      → t ≡ record (moved s us w vs (ready, push_result (process x) s.pool)) {
        finished = s.finished ++ (x ∷ []);
      }
      → Step process s t
  gets : t ≡ after_get s (get_job_output s.pool) → Step process s t
  stops : t ≡ record s { pool = start_stop s.pool } → Step process s t
  ends :
      s.pool.stop ≡ true
      → all_returned s.pool.workers ≡ true
      → t ≡ record s { pool = end_stop s.pool }
      → Step process s t

pub data Reach {A B : Type 0} (process : A → B) (s : System A B) : System A B → Type 0 where
  here : Reach process s s
  next : {t u : System A B} → Reach process s t → Step process t u → Reach process s u
