-- ===== src/Timer/Due.antt =====
-- Which timers are due, and how AddTimer changes that.
use mathlib.Core.List.{Perm, perm_middle}
use mathlib.Core.List.Perm
use libant.Common.{ℕ, ◌+◌, ◌<◌, ◌≡◌, refl, ap, arith, Bool-cases, ltb, if◌then◌else◌}
use libant.Common.{true, inl, inr, List, [], ◌∷◌}
use libant.Timer.{Timer, add_timer}
use libant.Timer.Sorted.{NoneBefore}

module _ {ℓ} {C : Type ℓ} (cur : ℕ) where
  -- The callbacks of the timers that have expired, and the other timers, each in order.
  unfoldable pub due : List (Timer C) → List C
  due [] = []
  due (t ∷ ts) = let rest = due ts in if ltb cur t.expiring_time then rest else t.cb ∷ rest

  unfoldable pub pending : List (Timer C) → List (Timer C)
  pending [] = []
  pending (t ∷ ts) = let rest = pending ts in if ltb cur t.expiring_time then t ∷ rest else rest

  pub add_timer-due :
      (t : Timer C) (us : List (Timer C)) → cur < t.expiring_time → due (add_timer t us) ≡ due us
  unfolding due add_timer
  add_timer-due t [] late =
      let ltb_late : ltb cur t.expiring_time ≡ true = ground arith in rw ltb_late refl
  add_timer-due t (u ∷ us) late = elim (Bool-cases (ltb t.expiring_time u.expiring_time)) [
    | inl first ↦
        let ltb_late : ltb cur t.expiring_time ≡ true = ground arith in rw (first, ltb_late) refl
    | inr behind ↦
        rw behind
          (ap (λ l. if ltb cur u.expiring_time then l else u.cb ∷ l) (add_timer-due t us late))
  ]

  pub add_timer-pending :
      (t : Timer C) (us : List (Timer C))
      → cur < t.expiring_time
      → Perm (pending (add_timer t us)) (t ∷ pending us)
  unfolding pending add_timer
  add_timer-pending t [] late =
      let ltb_late : ltb cur t.expiring_time ≡ true = ground arith in
      rw ltb_late (Perm.refl (t ∷ []))
  add_timer-pending t (u ∷ us) late = elim (Bool-cases (ltb t.expiring_time u.expiring_time)) [
    | inl first ↦
        let ltb_late : ltb cur t.expiring_time ≡ true = ground arith in
        rw (first, ltb_late) (Perm.refl (t ∷ pending (u ∷ us)))
    | inr behind ↦ rw behind (passed (add_timer-pending t us late))
  ]
    where
      passed :
          Perm (pending (add_timer t us)) (t ∷ pending us)
          → Perm (pending (u ∷ add_timer t us)) (t ∷ pending (u ∷ us))
      passed ih = elim (Bool-cases (ltb cur u.expiring_time)) [
        | inl late ↦ rw late (Perm.trans (Perm.cons u ih) (perm_middle (u ∷ []) (pending us)))
        | inr early ↦ rw early ih
      ]

  pub none_due : (ts : List (Timer C)) → NoneBefore (cur + 1) ts → due ts ≡ []
  unfolding due NoneBefore
  none_due [] h = refl
  none_due (t ∷ ts) (later, rest) =
      let ltb_late : ltb cur t.expiring_time ≡ true = ground arith in rw ltb_late (none_due ts rest)

  pub all_pending : (ts : List (Timer C)) → NoneBefore (cur + 1) ts → pending ts ≡ ts
  unfolding pending NoneBefore
  all_pending [] h = refl
  all_pending (t ∷ ts) (later, rest) =
      let ltb_late : ltb cur t.expiring_time ≡ true = ground arith in
      rw ltb_late (ap (λ l. t ∷ l) (all_pending ts rest))
