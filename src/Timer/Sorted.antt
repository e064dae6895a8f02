-- ===== src/Timer/Sorted.antt =====
-- The order of the timers of a TimerManager.
use libant.Common.{ℕ, ◌≤◌, arith, Bool-cases, ltb, inl, inr, List, [], ◌∷◌}
use libant.Timer.{Timer, add_timer}

module _ {ℓ} {C : Type ℓ} where
  -- No timer of the list expires before a time.
  unfoldable pub NoneBefore : ℕ → List (Timer C) → Type 0
  NoneBefore a [] = Unit
  NoneBefore a (t ∷ ts) = (a ≤ t.expiring_time) × NoneBefore a ts

  unfoldable pub IsSorted : List (Timer C) → Type 0
  IsSorted [] = Unit
  IsSorted (t ∷ ts) = NoneBefore t.expiring_time ts × IsSorted ts

  pub NoneBefore-le : (a b : ℕ) (ts : List (Timer C)) → a ≤ b → NoneBefore b ts → NoneBefore a ts
  unfolding NoneBefore
  NoneBefore-le a b [] le h = tt
  NoneBefore-le a b (t ∷ ts) le (later, rest) = (omega arith, NoneBefore-le a b ts le rest)

  add_timer-NoneBefore :
      (a : ℕ) (t : Timer C) (us : List (Timer C))
      → a ≤ t.expiring_time
      → NoneBefore a us
      → NoneBefore a (add_timer t us)
  unfolding NoneBefore add_timer
  add_timer-NoneBefore a t [] le h = (le, tt)
  add_timer-NoneBefore a t (u ∷ us) le (later, rest) =
      elim (Bool-cases (ltb t.expiring_time u.expiring_time)) [
        | inl first ↦ rw first (le, (later, rest))
        | inr behind ↦ rw behind (later, add_timer-NoneBefore a t us le rest)
      ]

  pub add_timer-IsSorted :
      (t : Timer C) (us : List (Timer C)) → IsSorted us → IsSorted (add_timer t us)
  unfolding IsSorted NoneBefore add_timer
  add_timer-IsSorted t [] h = (tt, tt)
  add_timer-IsSorted t (u ∷ us) (low, sorted) =
      elim (Bool-cases (ltb t.expiring_time u.expiring_time)) [
        | inl first ↦ rw first (
            (
              (ground arith, NoneBefore-le t.expiring_time u.expiring_time us (ground arith) low),
              (low, sorted),
            ))
        | inr behind ↦ rw behind (
          add_timer-NoneBefore u.expiring_time t us (ground arith) low,
          add_timer-IsSorted t us sorted,
        )
      ]
