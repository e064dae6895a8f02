-- ===== src/ThreadPool/Invariant.antt =====
-- The numbers of a pool's workers, and how the steps keep them.
use mathlib.Core.Path.{subst}
use libant.Common.{ℕ, ◌+◌, ◌^◌, ◌≤◌, ◌<◌, ◌≡◌, ◌⊎◌, inl, inr, refl, sym, ap, ◌∙◌, arith}
use libant.Common.{true, false, List, [], ◌∷◌, ◌++◌, Option, none, some}
use libant.ThreadPool.{Pc, Worker, Pool, ready, waiting, get_job_output}
use libant.ThreadPool.{run, new_worker, create_worker, put_task, worker_count, start_stop, end_stop}
use libant.ThreadPool.Workers.{total, total_at, total_append, here, waits, exits}
use libant.ThreadPool.Workers.{waits-here, worker_count-total}
use libant.ThreadPool.Effects.{Counts, Ran, run-Ran}

-- `freeWorkerNum_` is the number of waiting workers, except that after `Stop` it also counts those
-- that left the wait by the timeout.
pub record IsCounted {A B : Type 0} (max : ℕ) (p : Pool A B) : Type 0 where
  pub limit : p.max_thread_num ≡ max
  pub bound : total here p.workers ≤ max
  pub low : total waits p.workers ≤ p.free_worker_num
  pub high : p.free_worker_num ≤ total waits p.workers + total exits p.workers
  pub exact : (p.stop ≡ true) ⊎ (p.free_worker_num ≡ total waits p.workers)

module _ {A B : Type 0} where
  abbrev pub put : List (Worker A) → Worker A → List (Worker A) → Pc A → Pool A B → Pool A B
  put us w vs c q = record q { workers = us ++ (record w { pc = c } ∷ vs) }

  pub put-IsCounted :
      (max : ℕ) (us vs : List (Worker A)) (w : Worker A) (p : Pool A B) (c : Pc A) (q : Pool A B)
      → p.workers ≡ us ++ (w ∷ vs)
      → Counts w.keep_in_pool w.pc p c q
      → IsCounted max p
      → IsCounted max (put us w vs c q)
  put-IsCounted max us vs w p c q eq e g =
      let here_old : total here p.workers ≡ total here us + here w.pc + total here vs =
        ap (total here) eq ∙ total_at here us vs w in
      let waits_old : total waits p.workers ≡ total waits us + waits w.pc + total waits vs =
        ap (total waits) eq ∙ total_at waits us vs w in
      let exits_old : total exits p.workers ≡ total exits us + exits w.pc + total exits vs =
        ap (total exits) eq ∙ total_at exits us vs w in
      let here_new = total_at here us vs (record w { pc = c }) in
      let waits_new = total_at waits us vs (record w { pc = c }) in
      let exits_new = total_at exits us vs (record w { pc = c }) in
      record {
        limit = e.limit ∙ g.limit;
        bound = omega (arith, e.fewer, g.bound);
        low = omega (arith, e.low, g.low);
        high = omega (arith, e.high, g.high);
        exact = elim e.exact [
          | inl st ↦ inl (e.stopped ∙ st)
          | inr same ↦ elim g.exact [
            | inl st ↦ inl (e.stopped ∙ st)
            | inr whole ↦ inr (omega arith)
          ]
        ];
      }

  -- A worker at `waiting` is counted, one at `ready` leaves room for the count to grow.
  pub waiting-free :
      (max : ℕ) (us vs : List (Worker A)) (w : Worker A) (p : Pool A B)
      → p.workers ≡ us ++ (w ∷ vs)
      → w.pc ≡ waiting
      → max < 2 ^ 64
      → IsCounted max p
      → (1 ≤ p.free_worker_num) × (p.free_worker_num < 2 ^ 64)
  waiting-free max us vs w p eq at small g =
      let waits_old : total waits p.workers ≡ total waits us + waits w.pc + total waits vs =
        ap (total waits) eq ∙ total_at waits us vs w in
      let one : waits w.pc ≡ 1 = ap waits at in
      let most = waits-here p.workers in (omega (arith, g.low), omega (arith, g.high, g.bound))

  pub ready-free :
      (max : ℕ) (us vs : List (Worker A)) (w : Worker A) (p : Pool A B)
      → p.workers ≡ us ++ (w ∷ vs)
      → w.pc ≡ ready
      → max < 2 ^ 64
      → IsCounted max p
      → p.free_worker_num + 1 < 2 ^ 64
  ready-free max us vs w p eq at small g =
      let here_old : total here p.workers ≡ total here us + here w.pc + total here vs =
        ap (total here) eq ∙ total_at here us vs w in
      let waits_old : total waits p.workers ≡ total waits us + waits w.pc + total waits vs =
        ap (total waits) eq ∙ total_at waits us vs w in
      let exits_old : total exits p.workers ≡ total exits us + exits w.pc + total exits vs =
        ap (total exits) eq ∙ total_at exits us vs w in
      let one : here w.pc ≡ 1 = ap here at in
      let none_waits : waits w.pc ≡ 0 = ap waits at in
      let none_exits : exits w.pc ≡ 0 = ap exits at in
      let most_us = waits-here us in let most_vs = waits-here vs in omega (arith, g.high, g.bound)

  pub run-IsCounted : (max : ℕ) (x : A) (p : Pool A B) → IsCounted max p → IsCounted max (run x p)
  unfolding Ran total
  run-IsCounted max x p g = elim (run-Ran x p) [
    | inl (st, same) ↦ subst (IsCounted max) (sym same) g
    | inr (going, inl same) ↦
        subst (IsCounted max) (sym same)
          (record { limit = g.limit; bound = g.bound; low = g.low; high = g.high; exact = g.exact })
    | inr (going, inr (room, same)) ↦ subst (IsCounted max) (sym same) (created room)
  ]
    where
      created :
          worker_count p.workers < p.max_thread_num
          → IsCounted max (put_task x (create_worker false p))
      created room =
          let here_new = total_append here p.workers (new_worker false ∷ []) in
          let waits_new = total_append waits p.workers (new_worker false ∷ []) in
          let exits_new = total_append exits p.workers (new_worker false ∷ []) in
          let count = worker_count-total p.workers in
          record {
            limit = g.limit;
            bound = omega (arith, g.limit);
            low = omega (arith, g.low);
            high = omega (arith, g.high);
            exact = elim g.exact [ inl st ↦ inl st | inr whole ↦ inr (omega arith) ];
          }

  pub after_get-IsCounted :
      (max : ℕ) (p : Pool A B) → IsCounted max p → IsCounted max (get_job_output p).1
  unfolding get_job_output
  after_get-IsCounted max p g = got p.out_queue
    where
      got :
          (l : List B)
          → IsCounted max
              (elim l as (λ _. Option B × Pool A B) [
                | [] ↦ (none, p)
                | b ∷ bs ↦ (some b, record p { out_queue = bs })
              ]).1
      got [] = g
      got (b ∷ bs) = record {
        limit = g.limit;
        bound = g.bound;
        low = g.low;
        high = g.high;
        exact = g.exact;
      }

  pub start_stop-IsCounted :
      (max : ℕ) (p : Pool A B) → IsCounted max p → IsCounted max (start_stop p)
  unfolding start_stop
  start_stop-IsCounted max p g = record {
    limit = g.limit;
    bound = g.bound;
    low = g.low;
    high = g.high;
    exact = inl refl;
  }

  pub end_stop-IsCounted : (max : ℕ) (p : Pool A B) → IsCounted max p → IsCounted max (end_stop p)
  unfolding end_stop total
  end_stop-IsCounted max p g = record {
    limit = g.limit;
    bound = omega arith;
    low = omega arith;
    high = omega arith;
    exact = inr refl;
  }
