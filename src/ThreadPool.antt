-- ===== src/ThreadPool.antt =====
-- ThreadPoolEx (include/libant/thread/thread_pool_ex.h, src/thread/thread_pool_ex.cpp): tasks in a
-- queue, workers that take them, and their results in a second queue. All of this changes only under
-- one mutex: a step is what a thread does from one release of it to the next. A waiting worker may
-- wake at any time, so notifications are left out. ThreadPool (include/libant/thread/thread_pool.h)
-- is the same but for the configuration of its jobs, and for keeping the mutex between the result of
-- a task and the next look at the queue: its runs are among those here.
pub mod Workers
pub mod Steps
pub mod Effects
pub mod Invariant
pub mod Kept
pub mod Once
pub mod Reachable
pub mod Lost
mod Tests
use libant.Common.{ℕ, zero, suc, ◌+◌, ◌-◌, ◌%◌, ◌^◌, ltb, leb, ◌&&◌, Bool, true, false, not}
use libant.Common.{if◌then◌else◌, List, [], ◌∷◌, ◌++◌, length, replicate, Option, none, some}

-- Where a worker stands: about to look at the queue, waiting for a notification, executing a task, at
-- the end of `run`, or deleted by itself.
pub data Pc (A : Type 0) : Type 0 where
  ready : Pc A
  waiting : Pc A
  busy : A → Pc A
  exited : Pc A
  gone : Pc A

pub record Worker (A : Type 0) : Type 0 where
  pub keep_in_pool : Bool
  pub pc : Pc A

-- `allWorkers_` are the workers that are not gone.
pub record Pool (A B : Type 0) : Type 0 where
  pub max_thread_num : ℕ
  pub task_queue : List A
  pub out_queue : List B
  pub workers : List (Worker A)
  pub free_worker_num : ℕ
  pub stop : Bool

abbrev pub is_gone : {A : Type 0} → Pc A → Bool
is_gone gone = true
is_gone _ = false

module _ {A : Type 0} where
  -- `allWorkers_.size()`
  abbrev pub worker_count : List (Worker A) → ℕ
  worker_count [] = 0
  worker_count (w ∷ ws) = let rest = worker_count ws in if is_gone w.pc then rest else suc rest

  -- `new Worker(…)`, which is started at once.
  abbrev pub new_worker : Bool → Worker A
  new_worker keep = record { keep_in_pool = keep; pc = ready }

module _ {A B : Type 0} where
  -- The constructor; `none` is the failed assert.
  unfoldable pub create : ℕ → ℕ → Option (Pool A B)
  create min_thread_num max_thread_num =
      if leb min_thread_num max_thread_num
      then some (record {
        max_thread_num = max_thread_num;
        task_queue = [];
        out_queue = [];
        workers = replicate min_thread_num (new_worker true);
        free_worker_num = 0;
        stop = false;
      })
      else none

  abbrev pub create_worker : Bool → Pool A B → Pool A B
  create_worker keep p = record p { workers = p.workers ++ (new_worker keep ∷ []) }

  abbrev pub put_task : A → Pool A B → Pool A B
  put_task t p = record p { task_queue = p.task_queue ++ (t ∷ []) }

  -- `Run`; the task is dropped when the pool is stopped.
  unfoldable pub run : A → Pool A B → Pool A B
  run t p =
      if p.stop
      then p
      else if leb p.free_worker_num (length p.task_queue)
          && ltb (worker_count p.workers) p.max_thread_num
      then put_task t (create_worker false p)
      else put_task t p

  -- The loop of `Worker::run` from a look at the queue to the release of the mutex.
  unfoldable pub look : Pool A B → Pc A × Pool A B
  look p = elim p.task_queue [
    | [] ↦
        if p.stop
        then (exited, p)
        else (waiting, record p { free_worker_num = (p.free_worker_num + 1) % 2 ^ 64 })
    | t ∷ ts ↦ (busy t, record p { task_queue = ts })
  ]

  -- The end of the wait, and the look at the queue behind it.
  unfoldable pub wake : Pool A B → Pc A × Pool A B
  wake p = look (record p { free_worker_num = (p.free_worker_num + 2 ^ 64 - 1) % 2 ^ 64 })

  -- The end of the wait by the timeout, for a worker that is not kept in the pool.
  unfoldable pub time_out : Pool A B → Pc A × Pool A B
  time_out p =
      if not p.stop
      then (gone, record p { free_worker_num = (p.free_worker_num + 2 ^ 64 - 1) % 2 ^ 64 })
      else (exited, p)

  -- `Exec` and `pushResult`, for the result of a task.
  unfoldable pub push_result : B → Pool A B → Pool A B
  push_result b p = record p { out_queue = p.out_queue ++ (b ∷ []) }

  -- `GetJobOutput` once it has stopped waiting.
  unfoldable pub get_job_output : Pool A B → Option B × Pool A B
  get_job_output p = elim p.out_queue [
    | [] ↦ (none, p)
    | b ∷ bs ↦ (some b, record p { out_queue = bs })
  ]

  -- `Stop` before it waits for the workers, and what it does when they have all returned.
  unfoldable pub start_stop : Pool A B → Pool A B
  start_stop p = record p { stop = true }

  unfoldable pub end_stop : Pool A B → Pool A B
  end_stop p = record p { workers = []; free_worker_num = 0 }

  -- `ThreadPool::GetPendingTaskCount`
  unfoldable pub get_pending_task_count : Pool A B → ℕ
  get_pending_task_count p =
      (length p.task_queue + worker_count p.workers + 2 ^ 64 - p.free_worker_num) % 2 ^ 64
