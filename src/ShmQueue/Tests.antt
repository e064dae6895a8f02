-- ===== src/ShmQueue/Tests.antt =====
-- The witnesses of the properties of the queue in shared memory.
use libant.Common.{ℕ, ◌+◌, ◌≤◌, ◌≡◌, refl, arith, List, [], ◌∷◌, ◌++◌, length, slice, replicate}
use libant.Common.{Option, none, some, length-replicate, sym, ap, ◌∙◌}
use mathlib.Core.Option.{some-injective}
use libant.Endian.{Endian}
use libant.ShmQueue.{Queue, idle, waits, Consumer, resting, aligning, checking, reading, advancing}
use libant.ShmQueue.{returning, head_size, create, store_len, store_data, publish}
use libant.ShmQueue.{start_push, push_step, pop_step}
use libant.ShmQueue.Heads.{pops_left}
use libant.ShmQueue.Valid.{IsValid}
use libant.ShmQueue.Pops.{at}
use libant.ShmQueue.System.{System, Step, Reach, fresh, after_push, after_pop}
use libant.ShmQueue.Reachable.{Next, Reach-pop, Reach-held, create-IsGood}
use libant.ShmQueue.Progress.{driven, start_push-driven}
use libant.ShmQueue.Drained.{Succeeds, drained-Succeeds}

abbrev order : Endian
order = Endian.little_endian

abbrev mapped : ℕ → Option (List ℕ)
mapped size = some (replicate size 0)

mapped-length : (size : ℕ) (mem : List ℕ) → mapped size ≡ some mem → length mem ≡ size
mapped-length size mem eq =
    ap length (sym (some-injective _ _ eq)) ∙ length-replicate {A = ℕ} size 0

-- A queue for messages of up to 4 bytes, with room for 20.
abbrev created : Queue
created = record {
  head = 80;
  tail = 80;
  shm_size = 100;
  elem_max_size = 8;
  name = [];
  mem = replicate 100 0;
}

create-created : create mapped [] 20 4 ≡ some (some created)
unfolding create
create-created = refl

abbrev text : List ℕ
text = 7 ∷ 8 ∷ 9 ∷ []

-- The call of `Push`, its look at the head, its three stores, and the `Pop`.
abbrev called : System
called = record (fresh created) { producer = waits text 10 }

abbrev pushing : System → System
pushing s = after_push s (push_step order s.producer s.queue)

abbrev sent : System
sent = pushing (pushing (pushing (pushing called)))

abbrev popping : Consumer → System → System
popping c s = after_pop s c s.queue none

abbrev found : System
found = popping advancing (popping reading (popping checking (popping aligning sent)))

abbrev moved : System
moved = after_pop found (returning 80) (at order found.queue 87) none

abbrev taken : System
taken = after_pop moved resting moved.queue (some (some (84, 3)))

starts : start_push text created ≡ some (waits text 10)
unfolding start_push
starts = refl

sent-Reach : Reach order (fresh created) sent
sent-Reach =
    Reach.next
      (Reach.next
        (Reach.next
          (Reach.next (Reach.next Reach.here (Step.calls text (waits text 10) refl starts refl))
            (Step.pushes refl))
          (Step.pushes refl))
        (Step.pushes refl))
      (Step.pushes refl)

looks : pop_step order resting sent.queue ≡ some (aligning, sent.queue, none)
unfolding pop_step push_step store_len store_data publish
looks = refl

aligns_it : pop_step order aligning sent.queue ≡ some (checking, sent.queue, none)
unfolding pop_step push_step store_len store_data publish
aligns_it = refl

checks : pop_step order checking sent.queue ≡ some (reading, sent.queue, none)
unfolding pop_step push_step store_len store_data publish
checks = refl

reads : pop_step order reading sent.queue ≡ some (advancing, sent.queue, none)
unfolding pop_step push_step store_len store_data publish
reads = refl

advances : pop_step order advancing found.queue ≡ some (returning 80, at order found.queue 87, none)
unfolding pop_step push_step store_len store_data publish
advances = refl

returns :
    pop_step order (returning 80) moved.queue ≡ some (resting, moved.queue, some (some (84, 3)))
unfolding pop_step push_step store_len store_data publish
returns = refl

moved-Reach : Reach order (fresh created) moved
moved-Reach =
    Reach.next
      (Reach.next
        (Reach.next
          (Reach.next (Reach.next sent-Reach (Step.pops aligning sent.queue none looks refl))
            (Step.pops checking sent.queue none aligns_it refl))
          (Step.pops reading sent.queue none checks refl))
        (Step.pops advancing sent.queue none reads refl))
      (Step.pops (returning 80) (at order found.queue 87) none advances refl)

Reach-pop_example :
    (waiting : List (List ℕ)) × (c : Consumer) × (h : ℕ) × (o : Option (Option (ℕ × ℕ)))
    × (moved.pushed ≡ moved.popped ++ waiting)
    × (pop_step order moved.consumer moved.queue ≡ some (c, at order moved.queue h, o))
    × Next moved.queue moved.consumer c waiting o
    × (pops_left moved.consumer ≤ 7)
Reach-pop_example =
    Reach-pop order mapped [] 20 4 created moved mapped-length create-created moved-Reach

held_text : taken.held ≡ some (84, text)
unfolding push_step store_len store_data publish
held_text = refl

Reach-held_example :
    (slice taken.queue.mem 84 (length text) ≡ text)
    × (head_size ≤ 84)
    × (84 + length text ≤ length taken.queue.mem)
Reach-held_example =
    Reach-held order mapped [] 20 4 created taken 84 text mapped-length create-created
      (Reach.next moved-Reach (Step.pops resting moved.queue (some (some (84, 3))) returns refl))
      held_text

start_push-driven_example : driven order (waits text 10) (replicate 25 created) ≡ idle
start_push-driven_example =
    start_push-driven order text created (waits text 10) (replicate 25 created) starts (omega arith)

created-IsValid : IsValid order created []
created-IsValid = (create-IsGood order mapped [] 20 4 created mapped-length create-created).valid

drained-Succeeds_example : Succeeds order text created
drained-Succeeds_example =
    drained-Succeeds order text created created-IsValid (omega arith, omega arith)
