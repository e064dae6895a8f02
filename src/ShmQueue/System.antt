-- ===== src/ShmQueue/System.antt =====
-- A producer and a consumer at work on one queue, each step of either between any two of the other: a
-- step is one look at the offset of the other side, one read of a length or one store; the bytes of a
-- message are stored in one step, since nothing looks at them before `Tail` is moved. The memory is taken
-- to be sequentially consistent.
use mathlib.Core.Path.{subst}
use libant.Common.{ℕ, zero, suc, ◌+◌, ◌%◌, ◌^◌, ◌≤◌, ◌≡◌, ◌⊎◌, inl, inr, sym, ap, ◌∙◌, arith}
use libant.Common.{List, [], ◌∷◌, ◌++◌, length, slice, store_at, append_assoc, append-nil}
use libant.Common.{Option, none, some}
use mathlib.Core.Option.{some-injective}
use libant.Common.{Bool, Bool-cases, true}
use libant.Endian.{Endian, stored}
use libant.ShmQueue.{Queue, Producer, idle, waits, aligns, pads, turns, writes, fills, publishes}
use libant.ShmQueue.{Consumer, resting, can_push, can_align, head_size}
use libant.ShmQueue.{turn_tail, publish, start_push, push_step, pop_step}
use libant.ShmQueue.Valid.{IsSized, IsValid, IsReady, IsHeld, IsMessage, IsFree, IsComing}
use libant.ShmQueue.Pops.{at}
use libant.ShmQueue.Heads.{Moves, Accounts}
use libant.ShmQueue.Takes.{pop_step-Stepped}
use libant.ShmQueue.Stores.{IsOutside, store-IsValid, store-IsHeld, store-IsComing}
use libant.ShmQueue.Turns.{Moves-IsReady, store_len_lem, store_data_lem, store_len-IsOutside}
use libant.ShmQueue.Turns.{store_data-IsOutside, store_len-IsReady, store_data-IsReady, to}
use libant.ShmQueue.Turns.{write_pad-cases, moved_tail-IsHeld, moved_tail-IsComing, publish_lem}
use libant.ShmQueue.Turns.{published-IsValid, turned-IsValid}

-- The queue, the running calls of `Push` and `Pop`, the data that the last `Pop` returned, until the next
-- call, and what the calls have reported so far: the messages pushed with success, and those popped.
pub record System : Type 0 where
  pub queue : Queue
  pub producer : Producer
  pub consumer : Consumer
  pub held : Option (ℕ × List ℕ)
  pub pushed : List (List ℕ)
  pub popped : List (List ℕ)

-- The message of a call that reports success.
abbrev pub reported : Producer → Option Bool → List (List ℕ)
reported (publishes bs) (some true) = bs ∷ []
reported _ _ = []

abbrev pub after_push : System → Producer × Queue × Option Bool → System
after_push s (p, q, r) = record s {
  queue = q;
  producer = p;
  pushed = s.pushed ++ reported s.producer r;
}

-- The consumer sees the data where `Pop` says that they are.
abbrev pub after_pop : System → Consumer → Queue → Option (Option (ℕ × ℕ)) → System
after_pop s c q (some (some (pos, len))) = record s {
  queue = q;
  consumer = c;
  held = some (pos, slice q.mem pos len);
  popped = s.popped ++ (slice q.mem pos len ∷ []);
}
after_pop s c q _ = record s { queue = q; consumer = c; held = none }

pub data Step (e : Endian) (s t : System) : Type 0 where
  calls :
      (bs : List ℕ) (p : Producer)
      → s.producer ≡ idle
      → start_push bs s.queue ≡ some p
      → t ≡ record s { producer = p }
      → Step e s t
  pushes : t ≡ after_push s (push_step e s.producer s.queue) → Step e s t
  pops :
      (c : Consumer) (q : Queue) (r : Option (Option (ℕ × ℕ)))
      → pop_step e s.consumer s.queue ≡ some (c, q, r)
      → t ≡ after_pop s c q r
      → Step e s t

-- A queue that was just created, with nothing running.
abbrev pub fresh : Queue → System
fresh q = record {
  queue = q;
  producer = idle;
  consumer = resting;
  held = none;
  pushed = [];
  popped = [];
}

pub data Reach (e : Endian) (s : System) : System → Type 0 where
  here : Reach e s s
  next : {t u : System} → Reach e s t → Step e t u → Reach e s u

-- `ms` are the messages in the queue, the oldest first, and `taken` is the one that the running `Pop` has
-- taken out and not yet returned: these were pushed and not yet popped, in order.
pub record IsGood (e : Endian) (s : System) (taken ms : List (List ℕ)) : Type 0 where
  pub valid : IsValid e s.queue ms
  pub ready : IsReady e s.queue s.producer
  pub coming : IsComing e s.queue s.consumer taken ms
  pub kept : IsHeld e s.queue s.held
  pub order : s.pushed ≡ s.popped ++ (taken ++ ms)

module _ (e : Endian) where
  -- A step of the consumer.
  pub pops-IsGood :
      (s : System) (c : Consumer) (q : Queue) (r : Option (Option (ℕ × ℕ)))
      (taken ms : List (List ℕ))
      → IsGood e s taken ms
      → pop_step e s.consumer s.queue ≡ some (c, q, r)
      → (taken' : List (List ℕ)) × (ms' : List (List ℕ)) × IsGood e (after_pop s c q r) taken' ms'
  pops-IsGood s c q r taken ms g eq =
      let (c', h, o, taken', ms', step, v, coming, moves, counts) =
        pop_step-Stepped e s.queue ms g.valid s.consumer taken g.coming in
      (
        taken',
        ms',
        subst
            (λ (x : Consumer × Queue × Option (Option (ℕ × ℕ))).
              IsGood e (after_pop s x.0 x.1 x.2) taken' ms')
            (some-injective _ _ (sym step ∙ eq)) (ended c' h o taken' ms' v coming moves counts),
      )
    where
      ended :
          (c' : Consumer) (h : ℕ) (o : Option (Option (ℕ × ℕ))) (taken' ms' : List (List ℕ))
          → IsValid e (at e s.queue h) ms'
          → IsComing e (at e s.queue h) c' taken' ms'
          → Moves s.queue h
          → Accounts e (at e s.queue h) s.consumer c' taken ms taken' ms' o
          → IsGood e (after_pop s c' (at e s.queue h) o) taken' ms'
      ended c' h none taken' ms' v coming moves (same, fewer) = record {
        valid = v;
        ready = Moves-IsReady e s.queue h s.producer moves g.ready;
        coming = coming;
        kept = tt;
        order = g.order ∙ ap (λ (l : List (List ℕ)). s.popped ++ l) same;
      }
      ended c' h (some none) taken' ms' v coming moves (et, em, et', em') = record {
        valid = v;
        ready = Moves-IsReady e s.queue h s.producer moves g.ready;
        coming = coming;
        kept = tt;
        order = rw (et', em') (rw (et, em) at g.order);
      }
      ended c' h (some (some (pos, len))) taken' ms' v coming moves
            (m, et, et', em', el, (i, ei, (low, (block, end, step, ends)))) =
          let text : slice s.queue.mem pos len ≡ m =
            ap (λ n. slice s.queue.mem n len) ei ∙ ap (slice s.queue.mem (i + 4)) el ∙ block.1 in
          subst
            (λ (x : List ℕ).
              IsGood e
                (record s {
                  queue = at e s.queue h;
                  consumer = c';
                  held = some (pos, x);
                  popped = s.popped ++ (x ∷ []);
                })
                taken' ms')
            (sym text)
            (record {
              valid = v;
              ready = Moves-IsReady e s.queue h s.producer moves g.ready;
              coming = coming;
              kept = (i, ei, (low, (block, end, step, ends)));
              order =
                  g.order
                  ∙ ap (λ (l : List (List ℕ)). s.popped ++ (l ++ ms)) et
                  ∙ sym (append_assoc s.popped (m ∷ []) ms)
                  ∙ ap (λ (l : List (List ℕ)). (s.popped ++ (m ∷ [])) ++ l) (sym em')
                  ∙ ap (λ (l : List (List ℕ)). (s.popped ++ (m ∷ [])) ++ (l ++ ms')) (sym et');
            })

  unchanged-IsGood :
      (s : System) (p : Producer) (taken ms : List (List ℕ))
      → IsGood e s taken ms
      → IsReady e s.queue p
      → IsGood e (record s { producer = p; pushed = s.pushed ++ [] }) taken ms
  unchanged-IsGood s p taken ms g ready = record {
    valid = g.valid;
    ready = ready;
    coming = g.coming;
    kept = g.kept;
    order = append-nil s.pushed ∙ g.order;
  }

  -- A store into the free part of the segment.
  stored-IsGood :
      (s : System) (p : Producer) (taken ms : List (List ℕ)) (i : ℕ) (bs : List ℕ) (q : Queue)
      → IsGood e s taken ms
      → IsOutside s.queue i bs
      → q ≡ record s.queue { mem = store_at s.queue.mem i bs }
      → IsReady e (record s.queue { mem = store_at s.queue.mem i bs }) p
      → IsGood e (record s { queue = q; producer = p; pushed = s.pushed ++ [] }) taken ms
  stored-IsGood s p taken ms i bs q g out eq ready =
      subst
        (λ (x : Queue).
          IsGood e (record s { queue = x; producer = p; pushed = s.pushed ++ [] }) taken ms)
        (sym eq)
        (record {
          valid = store-IsValid e s.queue i bs out ms g.valid;
          ready = ready;
          coming = store-IsComing e s.queue i bs out s.consumer taken ms g.coming;
          kept = store-IsHeld e s.queue i bs out s.held g.kept;
          order = append-nil s.pushed ∙ g.order;
        })

  turned_lem :
      (s : System) (bs : List ℕ) (taken ms : List (List ℕ))
      → IsGood e s taken ms
      → IsReady e s.queue (turns bs)
      → IsGood e
          (record s {
            queue = turn_tail e s.queue;
            producer = waits bs 10;
            pushed = s.pushed ++ [];
          })
          taken
          ms
  unfolding turn_tail
  turned_lem s bs taken ms g (msg, above, below, pad) =
      let sized = g.valid.sized in
      record {
        valid = turned-IsValid e s.queue ms g.valid above below pad;
        ready = (msg, omega (arith, sized.elem_small, msg.1));
        coming = subst (IsComing e (to s.queue head_size) s.consumer taken) (append-nil ms) (
            moved_tail-IsComing e s.queue head_size s.consumer taken ms [] sized
              (inr (above, below)) g.coming);
        kept = moved_tail-IsHeld e s.queue head_size s.held g.kept;
        order = append-nil s.pushed ∙ g.order;
      }

  published_lem :
      (s : System) (bs : List ℕ) (taken ms : List (List ℕ))
      → IsGood e s taken ms
      → IsReady e s.queue (publishes bs)
      → IsGood e
          (record s {
            queue = publish e bs s.queue;
            producer = idle;
            pushed = s.pushed ++ (bs ∷ []);
          })
          taken
          (ms ++ (bs ∷ []))
  published_lem s bs taken ms g ((msg, room, free), block) =
      let end : ℕ = s.queue.tail + length bs + 4 in
      let some_room = g.valid.sized.elem_some in
      subst
        (λ (x : Queue).
          IsGood e (record s { queue = x; producer = idle; pushed = s.pushed ++ (bs ∷ []) }) taken
            (ms ++ (bs ∷ [])))
        (sym (publish_lem e s.queue bs g.valid.sized room))
        (record {
          valid = published-IsValid e s.queue bs ms g.valid ((msg, room, free), block);
          ready = tt;
          coming =
              moved_tail-IsComing e s.queue end s.consumer taken ms (bs ∷ []) g.valid.sized
                (inl (omega arith, ground arith)) g.coming;
          kept = moved_tail-IsHeld e s.queue end s.held g.kept;
          order =
              ap (λ (l : List (List ℕ)). l ++ (bs ∷ [])) g.order
              ∙ append_assoc s.popped (taken ++ ms) (bs ∷ [])
              ∙ ap (λ (l : List (List ℕ)). s.popped ++ l) (append_assoc taken ms (bs ∷ []));
        })

  -- A step of the producer.
  pub pushes-IsGood :
      (s : System) (p : Producer) (taken ms : List (List ℕ))
      → s.producer ≡ p
      → IsGood e s taken ms
      → (ms' : List (List ℕ)) × IsGood e
          (after_push (record s { producer = p }) (push_step e p s.queue))
          taken
          ms'
  unfolding push_step
  pushes-IsGood s idle taken ms eq g = (ms, unchanged-IsGood s idle taken ms g tt)
  pushes-IsGood s (waits bs zero) taken ms eq g = (ms, unchanged-IsGood s idle taken ms g tt)
  pushes-IsGood s (waits bs (suc n)) taken ms eq g =
      let (msg, room) = subst (IsReady e s.queue) eq g.ready in
      elim (Bool-cases (can_push (length bs + 4) s.queue)) [
        | inl can ↦ (
          ms,
          rw can (
              unchanged-IsGood s (writes bs) taken ms g
                (msg, room, can_push-free s.queue bs g.valid.sized room can)),
        )
        | inr cannot ↦ (ms, rw cannot (unchanged-IsGood s (waits bs n) taken ms g (msg, room)))
      ]
    where
      can_push-free :
          (q : Queue) (bs : List ℕ)
          → IsSized q
          → q.tail + length bs + 4 ≤ q.shm_size
          → can_push (length bs + 4) q ≡ true
          → (q.head ≤ q.tail) ⊎ (q.tail + length bs + 4 + q.elem_max_size ≤ q.head)
      can_push-free q bs v room can =
          let whole : (q.tail + (length bs + 4) + q.elem_max_size) % 2 ^ 32
              ≡ q.tail + (length bs + 4) + q.elem_max_size =
            omega (arith, v.small, v.elem_small) in
          ground arith
  pushes-IsGood s (aligns bs zero) taken ms eq g = (ms, unchanged-IsGood s idle taken ms g tt)
  pushes-IsGood s (aligns bs (suc n)) taken ms eq g =
      let msg : IsMessage s.queue bs = subst (IsReady e s.queue) eq g.ready in
      elim (Bool-cases (can_align s.queue)) [
        | inl can ↦
            (ms, rw can (unchanged-IsGood s (pads bs) taken ms g (msg, ground arith, ground arith)))
        | inr cannot ↦ (ms, rw cannot (unchanged-IsGood s (aligns bs n) taken ms g msg))
      ]
  pushes-IsGood s (pads bs) taken ms eq g =
      let (msg, above, below) = subst (IsReady e s.queue) eq g.ready in
      elim (write_pad-cases e s.queue g.valid.sized) [
        | inl (same, pad) ↦ (
          ms,
          stored-IsGood s (turns bs) taken ms s.queue.tail (stored e 4 0xFFFFFFFF) _ g
              (omega arith, inl below) same (msg, above, below, pad),
        )
        | inr (same, pad) ↦ (
          ms,
          subst
              (λ (x : Queue).
                IsGood e (record s { queue = x; producer = turns bs; pushed = s.pushed ++ [] })
                  taken ms)
              (sym same) (unchanged-IsGood s (turns bs) taken ms g (msg, above, below, pad)),
        )
      ]
  pushes-IsGood s (turns bs) taken ms eq g =
      (ms, turned_lem s bs taken ms g (subst (IsReady e s.queue) eq g.ready))
  pushes-IsGood s (writes bs) taken ms eq g =
      let ready : IsFree s.queue bs = subst (IsReady e s.queue) eq g.ready in
      (
        ms,
        stored-IsGood s (fills bs) taken ms s.queue.tail (stored e 4 (length bs + 4)) _ g
            (store_len-IsOutside e s.queue bs ready)
            (store_len_lem e s.queue bs g.valid.sized ready.1)
            (store_len-IsReady e s.queue bs g.valid.sized ready),
      )
  pushes-IsGood s (fills bs) taken ms eq g =
      let ready : IsReady e s.queue (fills bs) = subst (IsReady e s.queue) eq g.ready in
      (
        ms,
        stored-IsGood s (publishes bs) taken ms (s.queue.tail + 4) bs _ g
            (store_data-IsOutside e s.queue bs ready.0) (store_data_lem e s.queue bs)
            (store_data-IsReady e s.queue bs g.valid.sized ready),
      )
  pushes-IsGood s (publishes bs) taken ms eq g =
      let ready : IsReady e s.queue (publishes bs) = subst (IsReady e s.queue) eq g.ready in
      (ms ++ (bs ∷ []), published_lem s bs taken ms g ready)
