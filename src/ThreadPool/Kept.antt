-- ===== src/ThreadPool/Kept.antt =====
-- The workers that are kept in a pool.
use mathlib.Core.Path.{subst}
use libant.Common.{ℕ, ◌≡◌, ◌⊎◌, inl, inr, refl, sym, ap, ◌∙◌, arith}
use libant.Common.{Bool, true, false, if◌then◌else◌, List, [], ◌∷◌, ◌++◌, Option, none, some}
use libant.ThreadPool.{Pc, Worker, Pool, get_job_output}
use libant.ThreadPool.{run, new_worker, start_stop, end_stop}
use libant.ThreadPool.Workers.{kept, kept_at, kept_append, here, exits}
use libant.ThreadPool.Workers.{all_returned, returned-kept}
use libant.ThreadPool.Effects.{Counts, Ran, run-Ran}
use libant.ThreadPool.Invariant.{put}

-- A worker that is kept in the pool leaves it only when the queue is empty for good.
pub record IsKept {A B : Type 0} (min : ℕ) (p : Pool A B) : Type 0 where
  pub quiet : (kept exits p.workers ≡ 0) ⊎ ((p.task_queue ≡ []) × (p.stop ≡ true))
  pub all :
      (kept here p.workers ≡ min)
      ⊎ ((p.workers ≡ []) × ((min ≡ 0) ⊎ (p.task_queue ≡ [])) × (p.stop ≡ true))

module _ {A : Type 0} where
  stays-here :
      (k : Bool) (c d : Pc A)
      → (k ≡ false) ⊎ (here d ≡ here c)
      → (if k then here d else 0) ≡ (if k then here c else 0)
  stays-here false c d stays = refl
  stays-here true c d (inl off) = ground arith
  stays-here true c d (inr same) = same

  stays-exits : (k : Bool) (d : Pc A) → (k ≡ false) ⊎ (exits d ≡ 0) → (if k then exits d else 0) ≡ 0
  stays-exits false d stays = refl
  stays-exits true d (inl off) = ground arith
  stays-exits true d (inr same) = same

  some_worker : (us vs : List (Worker A)) (w : Worker A) → us ++ (w ∷ vs) ≡ [] → ⊥
  some_worker [] vs w eq = ground arith
  some_worker (u ∷ us) vs w eq = ground arith

module _ {A B : Type 0} where
  module _ (min : ℕ) (us vs : List (Worker A)) (w : Worker A) (p : Pool A B) (c : Pc A)
      (q : Pool A B) (eq : p.workers ≡ us ++ (w ∷ vs)) (e : Counts w.keep_in_pool w.pc p c q)
      (g : IsKept min p) where
    put-all :
        (kept here (us ++ (record w { pc = c } ∷ vs)) ≡ min)
        ⊎ ((us ++ (record w { pc = c } ∷ vs) ≡ [])
            × ((min ≡ 0) ⊎ (q.task_queue ≡ []))
            × (q.stop ≡ true))
    put-all =
        let here_old = ap (kept here) eq ∙ kept_at here us vs w in
        let here_new = kept_at here us vs (record w { pc = c }) in
        let same =
          stays-here w.keep_in_pool w.pc c
            (elim e.stays [ inl off ↦ inl off | inr both ↦ inr both.0 ]) in
        elim g.all [
          | inl whole ↦ inl (omega arith)
          | inr ended ↦ absurd (some_worker us vs w (sym eq ∙ ended.0))
        ]

    put-quiet :
        (kept exits (us ++ (record w { pc = c } ∷ vs)) ≡ 0)
        ⊎ ((q.task_queue ≡ []) × (q.stop ≡ true))
    put-quiet = elim g.quiet [
      | inr (empty, st) ↦ inr (e.drained empty, e.stopped ∙ st)
      | inl none_left ↦ elim e.stays [
        | inl off ↦ inl (counted (inl off) none_left)
        | inr (same, inl stays) ↦ inl (counted (inr stays) none_left)
        | inr (same, inr (empty, st)) ↦ inr (e.drained empty, e.stopped ∙ st)
      ]
    ]
      where
        counted :
            (w.keep_in_pool ≡ false) ⊎ (exits c ≡ 0)
            → kept exits p.workers ≡ 0
            → kept exits (us ++ (record w { pc = c } ∷ vs)) ≡ 0
        counted stays none_left =
            let exits_old = ap (kept exits) eq ∙ kept_at exits us vs w in
            let exits_new = kept_at exits us vs (record w { pc = c }) in
            let still = stays-exits w.keep_in_pool c stays in omega arith

    pub put-IsKept : IsKept min (put us w vs c q)
    put-IsKept = record { quiet = put-quiet; all = put-all }

  going-kept :
      (min : ℕ) (p : Pool A B)
      → p.stop ≡ false
      → IsKept min p
      → (kept exits p.workers ≡ 0) × (kept here p.workers ≡ min)
  going-kept min p going g = (
    elim g.quiet [ inl nobody ↦ nobody | inr (empty, st) ↦ absurd (both st) ],
    elim g.all [ inl whole ↦ whole | inr (gone, empty, st) ↦ absurd (both st) ],
  )
    where
      both : p.stop ≡ true → ⊥
      both st = ground arith

  pub run-IsKept : (min : ℕ) (x : A) (p : Pool A B) → IsKept min p → IsKept min (run x p)
  unfolding Ran kept
  run-IsKept min x p g = elim (run-Ran x p) [
    | inl (st, same) ↦ subst (IsKept min) (sym same) g
    | inr (going, inl same) ↦
        let (nobody, whole) = going-kept min p going g in
        subst (IsKept min) (sym same) (record { quiet = inl nobody; all = inl whole })
    | inr (going, inr (room, same)) ↦
        let (nobody, whole) = going-kept min p going g in
        let here_new = kept_append here p.workers (new_worker false ∷ []) in
        let exits_new = kept_append exits p.workers (new_worker false ∷ []) in
        subst (IsKept min) (sym same)
          (record { quiet = inl (omega arith); all = inl (omega arith) })
  ]

  pub after_get-IsKept : (min : ℕ) (p : Pool A B) → IsKept min p → IsKept min (get_job_output p).1
  unfolding get_job_output
  after_get-IsKept min p g = got p.out_queue
    where
      got :
          (l : List B)
          → IsKept min
              (elim l as (λ _. Option B × Pool A B) [
                | [] ↦ (none, p)
                | b ∷ bs ↦ (some b, record p { out_queue = bs })
              ]).1
      got [] = g
      got (b ∷ bs) = record { quiet = g.quiet; all = g.all }

  pub start_stop-IsKept : (min : ℕ) (p : Pool A B) → IsKept min p → IsKept min (start_stop p)
  unfolding start_stop
  start_stop-IsKept min p g = record {
    quiet = elim g.quiet [ inl nobody ↦ inl nobody | inr (empty, st) ↦ inr (empty, refl) ];
    all = elim g.all [ inl whole ↦ inl whole | inr (gone, empty, st) ↦ inr (gone, empty, refl) ];
  }

  -- When the workers have all returned, one that is kept in the pool has seen the queue empty.
  pub returned-empty :
      (min : ℕ) (p : Pool A B)
      → all_returned p.workers ≡ true
      → IsKept min p
      → (min ≡ 0) ⊎ (p.task_queue ≡ [])
  returned-empty min p done g =
      let most = returned-kept p.workers done in
      elim g.quiet [
        | inr (empty, st) ↦ inr empty
        | inl nobody ↦ elim g.all [ inl whole ↦ inl (omega arith) | inr (gone, empty, st) ↦ empty ]
      ]

  pub end_stop-IsKept :
      (min : ℕ) (p : Pool A B)
      → p.stop ≡ true
      → all_returned p.workers ≡ true
      → IsKept min p
      → IsKept min (end_stop p)
  unfolding end_stop kept
  end_stop-IsKept min p st done g = record {
    quiet = inl refl;
    all = inr (refl, returned-empty min p done g, st);
  }
