-- ===== src/ShmQueue/Progress.antt =====
-- How long a Push takes.
use libant.Common.{ℕ, zero, suc, ◌+◌, ◌-◌, ◌≤◌, ◌≡◌, refl, arith}
use libant.Common.{List, [], ◌∷◌, length, some}
use libant.Endian.{Endian}
use libant.ShmQueue.{Queue, Producer, idle, waits, aligns, pads, turns, writes, fills, publishes}
use libant.ShmQueue.{start_push, push_step}

-- A bound for the steps that a call still takes.
abbrev pub steps_left : Producer → ℕ
steps_left idle = 0
steps_left (publishes bs) = 1
steps_left (fills bs) = 2
steps_left (writes bs) = 3
steps_left (waits bs n) = n + 3
steps_left (turns bs) = 14
steps_left (pads bs) = 15
steps_left (aligns bs n) = n + 15

module _ (e : Endian) where
  push_step_le : (p : Producer) (q : Queue) → steps_left (push_step e p q).0 ≤ steps_left p - 1
  unfolding push_step
  push_step_le idle q = omega arith
  push_step_le (writes bs) q = omega arith
  push_step_le (fills bs) q = omega arith
  push_step_le (publishes bs) q = omega arith
  push_step_le (pads bs) q = omega arith
  push_step_le (turns bs) q = omega arith
  push_step_le (waits bs zero) q = omega arith
  push_step_le (waits bs (suc n)) q = ground arith
  push_step_le (aligns bs zero) q = omega arith
  push_step_le (aligns bs (suc n)) q = ground arith

  -- A call that finds the queue in these states, one at each of its steps.
  pub driven : Producer → List Queue → Producer
  driven p [] = p
  driven p (q ∷ qs) = driven (push_step e p q).0 qs

  driven-idle : (qs : List Queue) → driven idle qs ≡ idle
  unfolding driven push_step
  driven-idle [] = refl
  driven-idle (q ∷ qs) = driven-idle qs

  driven_ends : (p : Producer) (qs : List Queue) → steps_left p ≤ length qs → driven p qs ≡ idle
  unfolding driven
  driven_ends idle [] h = refl
  driven_ends (writes bs) [] h = absurd (omega arith)
  driven_ends (fills bs) [] h = absurd (omega arith)
  driven_ends (publishes bs) [] h = absurd (omega arith)
  driven_ends (pads bs) [] h = absurd (omega arith)
  driven_ends (turns bs) [] h = absurd (omega arith)
  driven_ends (waits bs n) [] h = absurd (omega arith)
  driven_ends (aligns bs n) [] h = absurd (omega arith)
  driven_ends p (q ∷ qs) h = driven_ends (push_step e p q).0 qs (omega (arith, push_step_le p q))

  start_push_le :
      (bs : List ℕ) (q : Queue) (p : Producer) → start_push bs q ≡ some p → steps_left p ≤ 25
  unfolding start_push
  start_push_le bs q p eq = ground arith

  -- A call of `Push` is over after 25 of its own steps, whatever the consumer has done to the queue in
  -- between.
  pub start_push-driven :
      (bs : List ℕ) (q : Queue) (p : Producer) (qs : List Queue)
      → start_push bs q ≡ some p
      → 25 ≤ length qs
      → driven p qs ≡ idle
  start_push-driven bs q p qs eq long = driven_ends p qs (omega (arith, start_push_le bs q p eq))
