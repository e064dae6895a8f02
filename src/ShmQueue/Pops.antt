-- ===== src/ShmQueue/Pops.antt =====
-- The head moved; and `Pop` as a whole, which is its steps with nothing running in between.
use libant.Common.{ℕ, ◌-◌, ◌≤◌, ◌<◌, ◌≡◌, arith}
use libant.Common.{ltb, ◌==◌, ◌||◌, true}
use libant.Common.{ℕ, zero, suc, ◌≤◌, ◌≡◌, Option, none, some, Bool-cases, inl, inr, refl}
use libant.Endian.{Endian}
use libant.ShmQueue.{Consumer, resting, checking, pop_step, pop_block}
use libant.ShmQueue.{Queue, head_size, len_at, align_head, pop_block, pop}
use libant.ShmQueue.Valid.{IsSized}

module _ (e : Endian) where
  -- The queue with the head moved.
  abbrev pub at : Queue → ℕ → Queue
  at q h = record q { head = h }

  pub moved-IsSized :
      (q : Queue) (h : ℕ) → IsSized q → head_size ≤ h → h ≤ q.shm_size → IsSized (at q h)
  moved-IsSized q h s low high = record {
    head_low = low;
    tail_low = s.tail_low;
    head_high = high;
    tail_high = s.tail_high;
    whole = s.whole;
    small = s.small;
    elem_small = s.elem_small;
    elem_some = s.elem_some;
  }

  pub pop-goes_round :
      (q : Queue)
      → q.tail < q.head
      → (ltb (q.shm_size - q.head) 4 || (len_at e q.mem q.head == 0xFFFFFFFF)) ≡ true
      → pop e q ≡ pop_block e (at q head_size)
  unfolding pop align_head
  pop-goes_round q behind pad = ground arith

  -- A call of `Pop` that runs alone, for so many steps at most; `none` is the failed assert.
  go_on :
      (Consumer → Queue → Option (Queue × Option (ℕ × ℕ)))
      → Option (Consumer × Queue × Option (Option (ℕ × ℕ)))
      → Option (Queue × Option (ℕ × ℕ))
  go_on rest none = none
  go_on rest (some (c, q, none)) = rest c q
  go_on rest (some (c, q, some r)) = some (q, r)

  pop_alone : ℕ → Consumer → Queue → Option (Queue × Option (ℕ × ℕ))
  pop_alone zero c q = none
  pop_alone (suc n) c q = go_on (pop_alone n) (pop_step e c q)

  end-alone : (n : ℕ) (q : Queue) → pop_alone (suc (suc (suc (suc n)))) checking q ≡ pop_block e q
  unfolding pop_alone go_on pop_step pop_block
  end-alone n q = ground arith

  -- `Pop` as a whole is what its steps do when nothing runs in between, and 8 of them are enough.
  pop_alone_lem : (q : Queue) → pop_alone 8 resting q ≡ pop e q
  unfolding pop_alone go_on pop_step pop align_head
  pop_alone_lem q = elim (Bool-cases (q.head == q.tail)) [
    | inl same ↦ rw same refl
    | inr busy ↦ elim (Bool-cases (ltb q.head q.tail)) [
      | inl ahead ↦ rw (busy, ahead) (end-alone 2 q)
      | inr behind ↦
          elim (Bool-cases (ltb (q.shm_size - q.head) 4 || (len_at e q.mem q.head == 0xFFFFFFFF))) [
            | inl pad ↦ rw (busy, behind, pad) (end-alone 0 (at q head_size))
            | inr data_there ↦ rw (busy, behind, data_there) (end-alone 1 q)
          ]
    ]
  ]
