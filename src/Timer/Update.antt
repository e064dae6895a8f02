-- ===== src/Timer/Update.antt =====
-- Update of a TimerManager.
use mathlib.Core.Path.{subst}
use mathlib.Core.List.{Perm, perm_middle, perm_append_comm}
use mathlib.Core.List.Perm
use mathlib.Core.Option as Option
use libant.Common.{ℕ, zero, suc, ◌+◌, ◌≤◌, ◌<◌, ◌≡◌, refl, sym, ap, ◌∙◌, arith, Bool-cases, ltb}
use libant.Common.{
  true, false, inl, inr, List, [], ◌∷◌, ◌++◌, append_assoc, append-nil, length, Option, some,
}
use libant.Timer.{Timer, add_timer, add_around, update_loop, update}
use libant.Timer.Sorted.{NoneBefore, IsSorted, NoneBefore-le, add_timer-IsSorted}
use libant.Timer.Due.{due, pending, none_due, all_pending, add_timer-due, add_timer-pending}

module _ {ℓ} {C : Type ℓ} (cur : ℕ) where
  add_all : List (Timer C) → List (Timer C) → List (Timer C)
  add_all [] us = us
  add_all (t ∷ ts) us = add_all ts (add_timer t us)

  add_around_lem :
      (ts : List (Timer C)) (u : Timer C) (before after : List (Timer C))
      → NoneBefore (cur + 1) ts
      → u.expiring_time ≤ cur
      → add_around ts u (before, after) ≡ (before, add_all ts after)
  unfolding add_around add_all NoneBefore
  add_around_lem [] u before after later early = refl
  add_around_lem (t ∷ ts) u before after (late, later) early =
      let behind : ltb t.expiring_time u.expiring_time ≡ false = ground arith in
      rw behind (add_around_lem ts u before (add_timer t after) later early)

  add_all-IsSorted : (ts us : List (Timer C)) → IsSorted us → IsSorted (add_all ts us)
  unfolding add_all
  add_all-IsSorted [] us sorted = sorted
  add_all-IsSorted (t ∷ ts) us sorted =
      add_all-IsSorted ts (add_timer t us) (add_timer-IsSorted t us sorted)

  add_all-due :
      (ts us : List (Timer C)) → NoneBefore (cur + 1) ts → due cur (add_all ts us) ≡ due cur us
  unfolding add_all NoneBefore
  add_all-due [] us later = refl
  add_all-due (t ∷ ts) us (late, later) =
      add_all-due ts (add_timer t us) later ∙ add_timer-due cur t us (omega arith)

  add_all-pending :
      (ts us : List (Timer C))
      → NoneBefore (cur + 1) ts
      → Perm (pending cur (add_all ts us)) (ts ++ pending cur us)
  unfolding add_all NoneBefore
  add_all-pending [] us later = Perm.refl (pending cur us)
  add_all-pending (t ∷ ts) us (late, later) =
      Perm.trans (add_all-pending ts (add_timer t us) later) (
        Perm.trans (Perm.append_left ts (add_timer-pending cur t us (omega arith)))
          (perm_middle ts (pending cur us)))

  -- The timers that callbacks add.
  unfoldable pub added : (C → ℕ → List (Timer C)) → List C → List (Timer C)
  added adds [] = []
  added adds (c ∷ cs) = adds c cur ++ added adds cs

  Updated : (C → ℕ → List (Timer C)) → List (Timer C) → Option (List C × List (Timer C)) → Type ℓ
  Updated adds ts r =
      (left : List (Timer C)) × (r ≡ some (due cur ts, left))
      × IsSorted left
      × NoneBefore (cur + 1) left
      × Perm left (pending cur ts ++ added adds (due cur ts))

  due-early :
      (t : Timer C) (ts : List (Timer C))
      → ltb cur t.expiring_time ≡ false
      → length (due cur (t ∷ ts)) ≡ length (due cur ts) + 1
  unfolding due
  due-early t ts early = rw early (omega arith)

  update_loop-nil :
      (adds : C → ℕ → List (Timer C)) (n : ℕ) → update_loop adds (suc n) cur [] [] ≡ some ([], [])
  unfolding update_loop
  update_loop-nil adds n = refl

  module _ (adds : C → ℕ → List (Timer C))
      (lates : (c : C) → NoneBefore (cur + 1) (adds c cur)) where
    -- The timer `t` is due, and the loop has gone on with those behind it and those that it added.
    called :
        (t : Timer C) (ts : List (Timer C)) (r : Option (List C × List (Timer C)))
        → ltb cur t.expiring_time ≡ false
        → Updated adds (add_all (adds t.cb cur) ts) r
        → Updated adds (t ∷ ts) (Option.map (λ (x : List C × List (Timer C)). (t.cb ∷ x.0, x.1)) r)
    unfolding Updated due pending added
    called t ts r early (left, eq, sorted, later, share) =
        let same = add_all-due (adds t.cb cur) ts (lates t.cb) in
        let p = pending cur ts in
        let xs = adds t.cb cur in
        let rest = added adds (due cur ts) in
        rw early (
          left,
          ap (Option.map (λ (x : List C × List (Timer C)). (t.cb ∷ x.0, x.1))) eq
              ∙ ap (λ l. some (t.cb ∷ l, left)) same,
          sorted,
          later,
          Perm.trans
              (subst (λ l. Perm left (pending cur (add_all xs ts) ++ added adds l)) same share)
              (Perm.trans
                (Perm.append_right rest
                  (Perm.trans (add_all-pending xs ts (lates t.cb)) (perm_append_comm xs p)))
                (subst (λ l. Perm ((p ++ xs) ++ rest) l) (append_assoc p xs rest)
                  (Perm.refl ((p ++ xs) ++ rest)))),
        )

    -- The loop ends before a timer that is not due.
    idle :
        (ts : List (Timer C))
        → IsSorted ts
        → NoneBefore (cur + 1) ts
        → Updated adds ts (some ([], ts))
    unfolding Updated added
    idle ts sorted later =
        let nothing = none_due cur ts later in
        (
          ts,
          ap (λ l. some (l, ts)) (sym nothing),
          sorted,
          later,
          subst (λ l. Perm ts (pending cur ts ++ added adds l)) (sym nothing)
              (subst (λ l. Perm ts l) (sym (append-nil (pending cur ts) ∙ all_pending cur ts later))
                (Perm.refl ts)),
        )

    update_loop-late :
        (n : ℕ) (t : Timer C) (ts : List (Timer C))
        → ltb cur t.expiring_time ≡ true
        → update_loop adds (suc n) cur [] (t ∷ ts) ≡ some ([], t ∷ ts)
    unfolding update_loop
    update_loop-late n t ts late = rw late refl

    update_loop-early :
        (n : ℕ) (t : Timer C) (ts : List (Timer C))
        → ltb cur t.expiring_time ≡ false
        → update_loop adds (suc n) cur [] (t ∷ ts)
          ≡ Option.map
              (λ (x : List C × List (Timer C)). (t.cb ∷ x.0, x.1))
              (update_loop adds n cur [] (add_all (adds t.cb cur) ts))
    unfolding update_loop
    update_loop-early n t ts early =
        rw (early, add_around_lem (adds t.cb cur) t [] ts (lates t.cb) (ground arith)) refl

    update_loop_lem :
        (n : ℕ) (ts : List (Timer C))
        → IsSorted ts
        → length (due cur ts) < n
        → Updated adds ts (update_loop adds n cur [] ts)
    unfolding IsSorted NoneBefore
    update_loop_lem zero ts sorted enough = absurd (omega arith)
    update_loop_lem (suc n) [] sorted enough =
        subst (Updated adds []) (sym (update_loop-nil adds n)) (idle [] tt tt)
    update_loop_lem (suc n) (t ∷ ts) (low, sorted) enough =
        elim (Bool-cases (ltb cur t.expiring_time)) [
          | inl late ↦ subst (Updated adds (t ∷ ts)) (sym (update_loop-late n t ts late)) (
              idle (t ∷ ts) (low, sorted)
                (ground arith, NoneBefore-le (cur + 1) t.expiring_time ts (ground arith) low))
          | inr early ↦ subst (Updated adds (t ∷ ts)) (sym (update_loop-early n t ts early)) (
              called t ts (update_loop adds n cur [] (add_all (adds t.cb cur) ts)) early (
                update_loop_lem n (add_all (adds t.cb cur) ts)
                  (add_all-IsSorted (adds t.cb cur) ts sorted) (fewer early)))
        ]
      where
        fewer : ltb cur t.expiring_time ≡ false → length (due cur (add_all (adds t.cb cur) ts)) < n
        fewer early =
            let same = ap length (add_all-due (adds t.cb cur) ts (lates t.cb)) in
            let one = due-early t ts early in omega arith

  -- For timers in the order of the map, and callbacks that add, if any, only timers that expire after
  -- the current time: Update returns, calls the callbacks of the expired timers, each once and in the
  -- order of expiry, and leaves, in order again and none of them expired, the timers that had not
  -- expired and those that the callbacks added. Fuel of one more than the number of expired timers
  -- is enough.
  pub update_lem :
      (adds : C → ℕ → List (Timer C)) (fuel : ℕ) (timers : List (Timer C))
      → ((c : C) → NoneBefore (cur + 1) (adds c cur))
      → IsSorted timers
      → length (due cur timers) < fuel
      → (left : List (Timer C)) × (update adds fuel cur timers ≡ some (due cur timers, left))
        × IsSorted left
        × NoneBefore (cur + 1) left
        × Perm left (pending cur timers ++ added adds (due cur timers))
  unfolding Updated
  update_lem adds fuel timers lates sorted enough =
      update_loop_lem adds lates fuel timers sorted enough
