-- ===== src/ThreadPool/Workers.antt =====
-- Sums over the workers of a pool, and the tasks that they execute.
use libant.Common.{
  ℕ, zero, suc, ◌+◌, ◌≤◌, ◌≡◌, refl, sym, ap, ◌∙◌, arith, Bool, true, false, if◌then◌else◌,
}
use libant.Common.{List, [], ◌∷◌, ◌++◌, append_assoc, replicate}
use libant.ThreadPool.{
  Pc, Worker, ready, waiting, busy, exited, gone, is_gone, worker_count, new_worker,
}

-- The task of a worker that has just taken one.
abbrev pub tasks_of : {A : Type 0} → Pc A → List A
tasks_of (busy t) = t ∷ []
tasks_of _ = []

-- The worker has left `run`.
abbrev pub has_returned : {A : Type 0} → Pc A → Bool
has_returned exited = true
has_returned gone = true
has_returned _ = false

abbrev pub here : {A : Type 0} → Pc A → ℕ
here gone = 0
here _ = 1

abbrev pub waits : {A : Type 0} → Pc A → ℕ
waits waiting = 1
waits _ = 0

abbrev pub exits : {A : Type 0} → Pc A → ℕ
exits exited = 1
exits _ = 0

module _ {A : Type 0} where
  unfoldable pub total : (Pc A → ℕ) → List (Worker A) → ℕ
  total f [] = 0
  total f (w ∷ ws) = f w.pc + total f ws

  -- The same for the workers that are kept in the pool.
  unfoldable pub kept : (Pc A → ℕ) → List (Worker A) → ℕ
  kept f [] = 0
  kept f (w ∷ ws) = (if w.keep_in_pool then f w.pc else 0) + kept f ws

  unfoldable pub running : List (Worker A) → List A
  running [] = []
  running (w ∷ ws) = tasks_of w.pc ++ running ws

  unfoldable pub all_returned : List (Worker A) → Bool
  all_returned [] = true
  all_returned (w ∷ ws) = if has_returned w.pc then all_returned ws else false

  pub total_append :
      (f : Pc A → ℕ) (us vs : List (Worker A)) → total f (us ++ vs) ≡ total f us + total f vs
  unfolding total
  total_append f [] vs = omega arith
  total_append f (u ∷ us) vs = let ih = total_append f us vs in omega arith

  pub total_at :
      (f : Pc A → ℕ) (us vs : List (Worker A)) (w : Worker A)
      → total f (us ++ (w ∷ vs)) ≡ total f us + f w.pc + total f vs
  unfolding total
  total_at f us vs w = let split = total_append f us (w ∷ vs) in omega arith

  pub kept_append :
      (f : Pc A → ℕ) (us vs : List (Worker A)) → kept f (us ++ vs) ≡ kept f us + kept f vs
  unfolding kept
  kept_append f [] vs = omega arith
  kept_append f (u ∷ us) vs = let ih = kept_append f us vs in omega arith

  pub kept_at :
      (f : Pc A → ℕ) (us vs : List (Worker A)) (w : Worker A)
      → kept f (us ++ (w ∷ vs)) ≡ kept f us + (if w.keep_in_pool then f w.pc else 0) + kept f vs
  unfolding kept
  kept_at f us vs w = let split = kept_append f us (w ∷ vs) in omega arith

  pub running_append : (us vs : List (Worker A)) → running (us ++ vs) ≡ running us ++ running vs
  unfolding running
  running_append [] vs = refl
  running_append (u ∷ us) vs =
      ap (λ l. tasks_of u.pc ++ l) (running_append us vs)
      ∙ sym (append_assoc (tasks_of u.pc) (running us) (running vs))

  pub running_at :
      (us vs : List (Worker A)) (w : Worker A)
      → running (us ++ (w ∷ vs)) ≡ running us ++ (tasks_of w.pc ++ running vs)
  unfolding running
  running_at us vs w = running_append us (w ∷ vs)

  pub worker_count-total : (ws : List (Worker A)) → worker_count ws ≡ total here ws
  unfolding total
  worker_count-total [] = refl
  worker_count-total (w ∷ ws) = counted w.pc (worker_count-total ws)
    where
      counted :
          (c : Pc A)
          → worker_count ws ≡ total here ws
          → (if is_gone c then worker_count ws else suc (worker_count ws)) ≡ here c + total here ws
      counted gone ih = omega arith
      counted ready ih = omega arith
      counted waiting ih = omega arith
      counted (busy t) ih = omega arith
      counted exited ih = omega arith

  -- A worker is in at most one of the two places.
  pub waits-here : (ws : List (Worker A)) → total waits ws + total exits ws ≤ total here ws
  unfolding total
  waits-here [] = omega arith
  waits-here (w ∷ ws) = counted w.pc (waits-here ws)
    where
      counted :
          (c : Pc A)
          → total waits ws + total exits ws ≤ total here ws
          → waits c + total waits ws + (exits c + total exits ws) ≤ here c + total here ws
      counted gone ih = omega arith
      counted ready ih = omega arith
      counted waiting ih = omega arith
      counted (busy t) ih = omega arith
      counted exited ih = omega arith

  pub returned-running : (ws : List (Worker A)) → all_returned ws ≡ true → running ws ≡ []
  unfolding all_returned running
  returned-running [] done = refl
  returned-running (w ∷ ws) done = at_rest w.pc (returned-running ws) done
    where
      at_rest :
          (c : Pc A)
          → (all_returned ws ≡ true → running ws ≡ [])
          → (if has_returned c then all_returned ws else false) ≡ true
          → tasks_of c ++ running ws ≡ []
      at_rest gone ih done = ih done
      at_rest exited ih done = ih done
      at_rest ready ih done = ground arith
      at_rest waiting ih done = ground arith
      at_rest (busy t) ih done = ground arith

  -- Of workers that have all returned, those that have not left the pool are at the end of `run`.
  pub returned-kept : (ws : List (Worker A)) → all_returned ws ≡ true → kept here ws ≤ kept exits ws
  unfolding all_returned kept
  returned-kept [] done = omega arith
  returned-kept (w ∷ ws) done = at_rest w.keep_in_pool w.pc (returned-kept ws) done
    where
      at_rest :
          (k : Bool) (c : Pc A)
          → (all_returned ws ≡ true → kept here ws ≤ kept exits ws)
          → (if has_returned c then all_returned ws else false) ≡ true
          → (if k then here c else 0) + kept here ws ≤ (if k then exits c else 0) + kept exits ws
      at_rest false gone ih done = let bound = ih done in omega arith
      at_rest true gone ih done = let bound = ih done in omega arith
      at_rest false exited ih done = let bound = ih done in omega arith
      at_rest true exited ih done = let bound = ih done in omega arith
      at_rest k ready ih done = ground arith
      at_rest k waiting ih done = ground arith
      at_rest k (busy t) ih done = ground arith

module _ (A : Type 0) where
  pub new-total :
      (f : Pc A → ℕ) (n : ℕ) → f ready ≡ 0 → total f (replicate n (new_worker {A = A} true)) ≡ 0
  unfolding total
  new-total f zero eq = refl
  new-total f (suc n) eq = let ih = new-total f n eq in omega arith

  pub new-here : (n : ℕ) → total here (replicate n (new_worker {A = A} true)) ≡ n
  unfolding total
  new-here zero = refl
  new-here (suc n) = let ih = new-here n in omega arith

  pub new-kept : (n : ℕ) → kept here (replicate n (new_worker {A = A} true)) ≡ n
  unfolding kept
  new-kept zero = refl
  new-kept (suc n) = let ih = new-kept n in omega arith

  pub new-kept_exits : (n : ℕ) → kept exits (replicate n (new_worker {A = A} true)) ≡ 0
  unfolding kept
  new-kept_exits zero = refl
  new-kept_exits (suc n) = let ih = new-kept_exits n in omega arith

  pub new-running : (n : ℕ) → running (replicate n (new_worker {A = A} true)) ≡ []
  unfolding running
  new-running zero = refl
  new-running (suc n) = new-running n
