-- ===== src/ThreadPool/Effects.antt =====
-- What one step of a worker does to the numbers and the queues of the pool.
use libant.Common.{ℕ, ◌+◌, ◌-◌, ◌%◌, ◌^◌, ◌≤◌, ◌<◌, ◌≡◌, ◌⊎◌, inl, inr, refl, arith}
use libant.Common.{length, ltb, leb, ◌&&◌, Bool, true, false, if◌then◌else◌, List, [], ◌∷◌, ◌++◌}
use libant.ThreadPool.{Pc, Worker, Pool, ready, waiting, busy, look, wake, time_out, push_result}
use libant.ThreadPool.{run, put_task, create_worker, worker_count}
use libant.ThreadPool.Workers.{tasks_of, here, waits, exits}

-- A worker at `c` goes on to `d`.
pub record Counts {A B : Type 0} (keep : Bool) (c : Pc A) (p : Pool A B) (d : Pc A) (q : Pool A B)
    : Type 0 where
  pub limit : q.max_thread_num ≡ p.max_thread_num
  pub stopped : q.stop ≡ p.stop
  pub fewer : here d ≤ here c
  pub low : waits d + p.free_worker_num ≤ waits c + q.free_worker_num
  pub high : q.free_worker_num + waits c + exits c ≤ p.free_worker_num + waits d + exits d
  pub exact : (p.stop ≡ true) ⊎ (q.free_worker_num + waits c ≡ p.free_worker_num + waits d)
  pub drained : (p.task_queue ≡ []) → q.task_queue ≡ []
  pub stays :
      (keep ≡ false)
      ⊎ ((here d ≡ here c) × ((exits d ≡ 0) ⊎ ((p.task_queue ≡ []) × (p.stop ≡ true))))

pub record Takes {A B : Type 0} (p : Pool A B) (d : Pc A) (q : Pool A B) : Type 0 where
  pub out : q.out_queue ≡ p.out_queue
  pub took : p.task_queue ≡ tasks_of d ++ q.task_queue

-- The pool by its fields.
abbrev pool :
    {A B : Type 0} (max : ℕ) (tasks : List A) (out : List B) (ws : List (Worker A)) (free : ℕ)
    (st : Bool)
    → Pool A B
pool max tasks out ws free st = record {
  max_thread_num = max;
  task_queue = tasks;
  out_queue = out;
  workers = ws;
  free_worker_num = free;
  stop = st;
}

module _ {A B : Type 0} (max : ℕ) (out : List B) (ws : List (Worker A)) where
  look_fields-Takes :
      (tasks : List A) (free : ℕ) (st : Bool)
      → Takes
          (pool max tasks out ws free st)
          (look (pool max tasks out ws free st)).0
          (look (pool max tasks out ws free st)).1
  unfolding look
  look_fields-Takes [] free true = record { out = refl; took = refl }
  look_fields-Takes [] free false = record { out = refl; took = refl }
  look_fields-Takes (t ∷ ts) free st = record { out = refl; took = refl }

  time_out_fields-Takes :
      (tasks : List A) (free : ℕ) (st : Bool)
      → Takes
          (pool max tasks out ws free st)
          (time_out (pool max tasks out ws free st)).0
          (time_out (pool max tasks out ws free st)).1
  unfolding time_out
  time_out_fields-Takes tasks free true = record { out = refl; took = refl }
  time_out_fields-Takes tasks free false = record { out = refl; took = refl }

  look_fields-Counts :
      (keep : Bool) (tasks : List A) (free : ℕ) (st : Bool)
      → free + 1 < 2 ^ 64
      → Counts keep ready
          (pool max tasks out ws free st)
          (look (pool max tasks out ws free st)).0
          (look (pool max tasks out ws free st)).1
  unfolding look
  look_fields-Counts keep [] free true small = record {
    limit = refl;
    stopped = refl;
    fewer = omega arith;
    low = omega arith;
    high = omega arith;
    exact = inl refl;
    drained = λ empty. refl;
    stays = inr (refl, inr (refl, refl));
  }
  look_fields-Counts keep [] free false small = record {
    limit = refl;
    stopped = refl;
    fewer = omega arith;
    low = omega arith;
    high = omega arith;
    exact = inr (omega arith);
    drained = λ empty. refl;
    stays = inr (refl, inl refl);
  }
  look_fields-Counts keep (t ∷ ts) free st small = record {
    limit = refl;
    stopped = refl;
    fewer = omega arith;
    low = omega arith;
    high = omega arith;
    exact = inr (omega arith);
    drained = λ empty. ground arith;
    stays = inr (refl, inl refl);
  }

  time_out_fields-Counts :
      (tasks : List A) (free : ℕ) (st : Bool)
      → 1 ≤ free
      → free < 2 ^ 64
      → Counts false waiting
          (pool max tasks out ws free st)
          (time_out (pool max tasks out ws free st)).0
          (time_out (pool max tasks out ws free st)).1
  unfolding time_out
  time_out_fields-Counts tasks free true some_free small = record {
    limit = refl;
    stopped = refl;
    fewer = omega arith;
    low = omega arith;
    high = omega arith;
    exact = inl refl;
    drained = λ empty. empty;
    stays = inl refl;
  }
  time_out_fields-Counts tasks free false some_free small = record {
    limit = refl;
    stopped = refl;
    fewer = omega arith;
    low = omega arith;
    high = omega arith;
    exact = inr (omega arith);
    drained = λ empty. empty;
    stays = inl refl;
  }

module _ {A B : Type 0} (p : Pool A B) where
  pub look-Takes : Takes p (look p).0 (look p).1
  look-Takes =
      look_fields-Takes p.max_thread_num p.out_queue p.workers p.task_queue p.free_worker_num p.stop

  pub wake-Takes : Takes p (wake p).0 (wake p).1
  unfolding wake
  wake-Takes =
      let less =
        look_fields-Takes p.max_thread_num p.out_queue p.workers p.task_queue
          ((p.free_worker_num + 2 ^ 64 - 1) % 2 ^ 64) p.stop in
      record { out = less.out; took = less.took }

  pub time_out-Takes : Takes p (time_out p).0 (time_out p).1
  time_out-Takes =
      time_out_fields-Takes p.max_thread_num p.out_queue p.workers p.task_queue p.free_worker_num
        p.stop

  pub look-Counts :
      (keep : Bool) → p.free_worker_num + 1 < 2 ^ 64 → Counts keep ready p (look p).0 (look p).1
  look-Counts keep =
      look_fields-Counts p.max_thread_num p.out_queue p.workers keep p.task_queue p.free_worker_num
        p.stop

  pub time_out-Counts :
      1 ≤ p.free_worker_num
      → p.free_worker_num < 2 ^ 64
      → Counts false waiting p (time_out p).0 (time_out p).1
  time_out-Counts =
      time_out_fields-Counts p.max_thread_num p.out_queue p.workers p.task_queue p.free_worker_num
        p.stop

  pub wake-Counts :
      (keep : Bool)
      → 1 ≤ p.free_worker_num
      → p.free_worker_num < 2 ^ 64
      → Counts keep waiting p (wake p).0 (wake p).1
  unfolding wake
  wake-Counts keep some_free small =
      let less : (p.free_worker_num + 2 ^ 64 - 1) % 2 ^ 64 + 1 ≡ p.free_worker_num = omega arith in
      let c =
        look_fields-Counts p.max_thread_num p.out_queue p.workers keep p.task_queue
          ((p.free_worker_num + 2 ^ 64 - 1) % 2 ^ 64) p.stop (omega arith) in
      record {
        limit = c.limit;
        stopped = c.stopped;
        fewer = c.fewer;
        low = omega (arith, c.low);
        high = omega (arith, c.high);
        exact = elim c.exact [ inl st ↦ inl st | inr eq ↦ inr (omega arith) ];
        drained = c.drained;
        stays = c.stays;
      }

module _ {A B : Type 0} where
  -- The three things that `run` does.
  unfoldable pub Ran : A → Pool A B → Pool A B → Type 0
  Ran x p q =
      ((p.stop ≡ true) × (q ≡ p))
      ⊎ ((p.stop ≡ false)
          × ((q ≡ put_task x p)
              ⊎ ((worker_count p.workers < p.max_thread_num)
                  × (q ≡ put_task x (create_worker false p)))))

  pub run-Ran : (x : A) (p : Pool A B) → Ran x p (run x p)
  unfolding run Ran
  run-Ran x p =
      chosen p.stop (leb p.free_worker_num (length p.task_queue))
        (ltb (worker_count p.workers) p.max_thread_num) refl refl
    where
      chosen :
          (st few room : Bool)
          → p.stop ≡ st
          → ltb (worker_count p.workers) p.max_thread_num ≡ room
          → Ran x p (
              if st
              then p
              else if few && room
              then put_task x (create_worker false p)
              else put_task x p)
      chosen true few room st lt = inl (st, refl)
      chosen false true true st lt = inr (st, inr (ground arith, refl))
      chosen false true false st lt = inr (st, inl refl)
      chosen false false room st lt = inr (st, inl refl)

  pub push_result-Counts :
      (keep : Bool) (x : A) (b : B) (p : Pool A B) → Counts keep (busy x) p ready (push_result b p)
  unfolding push_result
  push_result-Counts keep x b p = record {
    limit = refl;
    stopped = refl;
    fewer = omega arith;
    low = omega arith;
    high = omega arith;
    exact = inr refl;
    drained = λ empty. empty;
    stays = inr (refl, inl refl);
  }
