-- ===== src/ThreadPool/Once.antt =====
-- What becomes of the tasks, and how the steps keep it.
use mathlib.Core.Path.{subst}
use mathlib.Core.List.{Perm, perm_middle, map-append}
use mathlib.Core.List.Perm
use libant.Common.{◌≡◌, refl, sym, ap, ◌∙◌, arith, inl, inr, Option, none, some, if◌then◌else◌}
use libant.Common.{
  Bool, true, false, List, [], ◌∷◌, ◌++◌, map, append_assoc, append-nil, nested-Perm,
}
use libant.ThreadPool.{
  Pc, Worker, Pool, ready, waiting, busy, exited, gone, push_result, get_job_output,
}
use libant.ThreadPool.{run, new_worker, start_stop, end_stop}
use libant.ThreadPool.Workers.{
  tasks_of, running, running_at, running_append, all_returned, returned-running,
}
use libant.ThreadPool.Effects.{Takes, Ran, run-Ran}
use libant.ThreadPool.Steps.{System, moved, after_run, after_get}

-- Every accepted task is in the queue or was taken, in order; those that were taken are done or are
-- being executed; the results of those that are done are handed out or wait for it, in order.
pub record IsOnce {A B : Type 0} (process : A → B) (s : System A B) : Type 0 where
  pub order : s.submitted ≡ s.started ++ s.pool.task_queue
  pub share : Perm s.started (s.finished ++ running s.pool.workers)
  pub results : map process s.finished ≡ s.collected ++ s.pool.out_queue

module _ {A : Type 0} where
  last-Perm : (x : A) (l : List A) → Perm (l ++ (x ∷ [])) (x ∷ l)
  last-Perm x l = subst (λ r. Perm (l ++ (x ∷ [])) (x ∷ r)) (append-nil l) (perm_middle l [])

  -- A worker between `a` and `b` takes the tasks `c`.
  takes-Perm :
      (c : Pc A) (l f a b : List A)
      → Perm l (f ++ (a ++ b))
      → Perm (l ++ tasks_of c) (f ++ (a ++ (tasks_of c ++ b)))
  takes-Perm (busy x) l f a b h =
      Perm.trans (last-Perm x l) (Perm.trans (Perm.cons x h) (Perm.symm (nested-Perm x f a b)))
  takes-Perm ready l f a b h = subst (λ r. Perm r (f ++ (a ++ b))) (sym (append-nil l)) h
  takes-Perm waiting l f a b h = subst (λ r. Perm r (f ++ (a ++ b))) (sym (append-nil l)) h
  takes-Perm exited l f a b h = subst (λ r. Perm r (f ++ (a ++ b))) (sym (append-nil l)) h
  takes-Perm gone l f a b h = subst (λ r. Perm r (f ++ (a ++ b))) (sym (append-nil l)) h

  -- It finishes the task `x`.
  finishes-Perm :
      (x : A) (l f a b : List A)
      → Perm l (f ++ (a ++ (x ∷ b)))
      → Perm l ((f ++ (x ∷ [])) ++ (a ++ b))
  finishes-Perm x l f a b h =
      Perm.trans h
        (Perm.trans (nested-Perm x f a b) (Perm.symm (Perm.append_right (a ++ b) (last-Perm x f))))

module _ {A B : Type 0} (process : A → B) where
  pub moved-IsOnce :
      (us vs : List (Worker A)) (w : Worker A) (s : System A B) (c : Pc A) (q : Pool A B)
      → s.pool.workers ≡ us ++ (w ∷ vs)
      → tasks_of w.pc ≡ []
      → Takes s.pool c q
      → IsOnce process s
      → IsOnce process (moved s us w vs (c, q))
  moved-IsOnce us vs w s c q eq idle e g = record {
    order =
        g.order
        ∙ ap (λ l. s.started ++ l) e.took
        ∙ sym (append_assoc s.started (tasks_of c) q.task_queue);
    share =
        subst (λ l. Perm (s.started ++ tasks_of c) (s.finished ++ l))
          (sym (running_at us vs (record w { pc = c })))
          (takes-Perm c s.started s.finished (running us) (running vs) (
            subst (λ l. Perm s.started (s.finished ++ l))
              (ap running eq ∙ running_at us vs w ∙ ap (λ l. running us ++ (l ++ running vs)) idle)
              g.share));
    results = g.results ∙ ap (λ l. s.collected ++ l) (sym e.out);
  }

  pub finished-IsOnce :
      (us vs : List (Worker A)) (w : Worker A) (x : A) (s : System A B)
      → s.pool.workers ≡ us ++ (w ∷ vs)
      → w.pc ≡ busy x
      → IsOnce process s
      → IsOnce process (record (moved s us w vs (ready, push_result (process x) s.pool)) {
        finished = s.finished ++ (x ∷ []);
      })
  unfolding push_result
  finished-IsOnce us vs w x s eq at g = record {
    order = g.order ∙ ap (λ l. l ++ s.pool.task_queue) (sym (append-nil s.started));
    share =
        subst (λ l. Perm (s.started ++ []) ((s.finished ++ (x ∷ [])) ++ l))
          (sym (running_at us vs (record w { pc = ready })))
          (subst (λ l. Perm l ((s.finished ++ (x ∷ [])) ++ (running us ++ running vs)))
            (sym (append-nil s.started))
            (finishes-Perm x s.started s.finished (running us) (running vs) (
              subst (λ l. Perm s.started (s.finished ++ l))
                (ap running eq
                  ∙ running_at us vs w
                  ∙ ap (λ c. running us ++ (tasks_of c ++ running vs)) at)
                g.share)));
    results =
        map-append process s.finished (x ∷ [])
        ∙ ap (λ l. l ++ (process x ∷ [])) g.results
        ∙ append_assoc s.collected s.pool.out_queue (process x ∷ []);
  }

  pub after_run-IsOnce :
      (x : A) (s : System A B) → IsOnce process s → IsOnce process (after_run x s)
  unfolding Ran running
  after_run-IsOnce x s g = ran (run x s.pool) s.pool.stop refl (run-Ran x s.pool)
    where
      both : s.pool.stop ≡ true → s.pool.stop ≡ false → ⊥
      both st going = ground arith

      put-order : s.submitted ++ (x ∷ []) ≡ s.started ++ (s.pool.task_queue ++ (x ∷ []))
      put-order =
          ap (λ l. l ++ (x ∷ [])) g.order ∙ append_assoc s.started s.pool.task_queue (x ∷ [])

      after : Pool A B → Bool → System A B
      after q st = record s {
        pool = q;
        submitted = if st then s.submitted else s.submitted ++ (x ∷ []);
      }

      ran :
          (q : Pool A B) (st : Bool)
          → s.pool.stop ≡ st
          → Ran x s.pool q
          → IsOnce process (after q st)
      ran q true st (inl (_, same)) =
          subst (λ r. IsOnce process (after r true)) (sym same)
            (record { order = g.order; share = g.share; results = g.results })
      ran q true st (inr (going, rest)) = absurd (both st going)
      ran q false st (inl (stopped, same)) = absurd (both stopped st)
      ran q false st (inr (going, inl same)) =
          subst (λ r. IsOnce process (after r false)) (sym same)
            (record { order = put-order; share = g.share; results = g.results })
      ran q false st (inr (going, inr (room, same))) =
          subst (λ r. IsOnce process (after r false)) (sym same)
            (record {
              order = put-order;
              share =
                  subst (λ l. Perm s.started (s.finished ++ l))
                    (sym (
                      running_append s.pool.workers (new_worker false ∷ [])
                      ∙ append-nil (running s.pool.workers)))
                    g.share;
              results = g.results;
            })

  pub after_get-IsOnce :
      (s : System A B) → IsOnce process s → IsOnce process (after_get s (get_job_output s.pool))
  unfolding get_job_output
  after_get-IsOnce s g = got s.pool.out_queue refl
    where
      got :
          (l : List B)
          → s.pool.out_queue ≡ l
          → IsOnce process (
              after_get s (elim l as (λ _. Option B × Pool A B) [
                | [] ↦ (none, s.pool)
                | b ∷ bs ↦ (some b, record s.pool { out_queue = bs })
              ]))
      got [] eq = g
      got (b ∷ bs) eq = record {
        order = g.order;
        share = g.share;
        results =
            g.results ∙ ap (λ l. s.collected ++ l) eq ∙ sym (append_assoc s.collected (b ∷ []) bs);
      }

  pub start_stop-IsOnce :
      (s : System A B) → IsOnce process s → IsOnce process (record s { pool = start_stop s.pool })
  unfolding start_stop
  start_stop-IsOnce s g = record { order = g.order; share = g.share; results = g.results }

  pub end_stop-IsOnce :
      (s : System A B)
      → all_returned s.pool.workers ≡ true
      → IsOnce process s
      → IsOnce process (record s { pool = end_stop s.pool })
  unfolding end_stop running
  end_stop-IsOnce s done g = record {
    order = g.order;
    share =
        subst (λ l. Perm s.started (s.finished ++ l)) (returned-running s.pool.workers done)
          g.share;
    results = g.results;
  }
