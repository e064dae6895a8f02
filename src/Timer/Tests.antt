-- ===== src/Timer/Tests.antt =====
-- The witness of the property of Update.
use mathlib.Core.List.{Perm}
use libant.Common.{ℕ, ◌+◌, ◌<◌, length, ◌≡◌, arith, List, [], ◌∷◌, ◌++◌, some}
use libant.Timer.{Timer, update}
use libant.Timer.Sorted.{NoneBefore, IsSorted}
use libant.Timer.Due.{due, pending}
use libant.Timer.Update.{added, update_lem}

abbrev timer : ℕ → Timer ℕ
timer time = record { expiring_time = time; cb = time }

-- A callback that starts its timer anew.
abbrev adds : ℕ → ℕ → List (Timer ℕ)
adds c cur = timer (cur + c + 1) ∷ []

abbrev timers : List (Timer ℕ)
timers = timer 3 ∷ timer 5 ∷ timer 20 ∷ []

adds-NoneBefore : (c : ℕ) → NoneBefore (10 + 1) (adds c 10)
unfolding NoneBefore
adds-NoneBefore c = (omega arith, tt)

timers-IsSorted : IsSorted timers
unfolding IsSorted NoneBefore
timers-IsSorted = ((omega arith, (omega arith, tt)), ((omega arith, tt), (tt, tt)))

few : length (due 10 timers) < 3
unfolding due
few = omega arith

update_lem_example :
    (left : List (Timer ℕ)) × (update adds 3 10 timers ≡ some (due 10 timers, left))
    × IsSorted left
    × NoneBefore (10 + 1) left
    × Perm left (pending 10 timers ++ added 10 adds (due 10 timers))
update_lem_example = update_lem 10 adds 3 timers adds-NoneBefore timers-IsSorted few
