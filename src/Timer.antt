-- ===== src/Timer.antt =====
-- TimerManager (include/libant/timer/timer.h): callbacks that are due at a time, in a multimap. The
-- map is the list of its entries in their order; times are milliseconds since the epoch. What a
-- callback does is a parameter, the list of the timers that it adds by AddTimer.
pub mod Sorted
pub mod Due
pub mod Update
mod Tests
use libant.Common.{ℕ, zero, suc, ltb, if◌then◌else◌, List, [], ◌∷◌, ◌++◌, Option, none, some}
use mathlib.Core.Option as Option

pub record Timer {ℓ} (C : Type ℓ) : Type ℓ where
  pub expiring_time : ℕ
  pub cb : C

module _ {ℓ} {C : Type ℓ} where
  -- `AddTimer`: a multimap puts a new entry behind those with the same key.
  unfoldable pub add_timer : Timer C → List (Timer C) → List (Timer C)
  add_timer t [] = t ∷ []
  add_timer t (u ∷ us) =
      let rest = add_timer t us in
      if ltb t.expiring_time u.expiring_time then t ∷ u ∷ us else u ∷ rest

  -- The timers that a callback adds, while `iter` stands at the entry `u` between two lists.
  unfoldable pub add_around :
      List (Timer C) → Timer C → List (Timer C) × List (Timer C) → List (Timer C) × List (Timer C)
  add_around [] u (before, after) = (before, after)
  add_around (t ∷ ts) u (before, after) =
      if ltb t.expiring_time u.expiring_time
      then add_around ts u (add_timer t before, after)
      else add_around ts u (before, add_timer t after)

  -- The loop of `Update`, on fuel: the entries before and from `iter` on. The result is the callbacks
  -- that were called, and the map; `none` when the fuel does not do.
  unfoldable pub update_loop :
      (C → ℕ → List (Timer C))
      → ℕ
      → ℕ
      → List (Timer C)
      → List (Timer C)
      → Option (List C × List (Timer C))
  update_loop adds zero cur before after = none
  update_loop adds (suc n) cur before [] = some ([], before)
  update_loop adds (suc n) cur before (u ∷ us) =
      let (before2, after) = add_around (adds u.cb cur) u (before, us) in
      let rest = update_loop adds n cur before2 after in
      if ltb cur u.expiring_time
      then some ([], before ++ (u ∷ us))
      else Option.map (λ (r : List C × List (Timer C)). (u.cb ∷ r.0, r.1)) rest

  -- `Update`
  abbrev pub update :
      (C → ℕ → List (Timer C)) → ℕ → ℕ → List (Timer C) → Option (List C × List (Timer C))
  update adds fuel cur timers = update_loop adds fuel cur [] timers

  -- `Clear`
  abbrev pub clear : List (Timer C) → List (Timer C)
  clear timers = []
