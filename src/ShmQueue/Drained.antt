-- ===== src/ShmQueue/Drained.antt =====
-- A Push into a drained queue.
use mathlib.Core.Path.{subst}
use libant.Common.{
  ℕ, zero, suc, ◌+◌, ◌-◌, ◌%◌, ◌^◌, ◌≤◌, ◌<◌, ◌≡◌, ◌⊎◌, inl, inr, refl, sym, ap, ◌∙◌, arith,
}
use libant.Common.{List, [], ◌∷◌, length, Option, none, some}
use mathlib.Core.Option
use mathlib.Core.Option.{some-injective}
use libant.Common.{Bool, Bool-cases, ltb, leb, ◌==◌, true, false, if◌then◌else◌}
use libant.Endian.{Endian}
use libant.ShmQueue.{
  Queue, Producer, waits, aligns, pads, writes, head_size, pop, pop_block, can_push, can_align,
}
use libant.ShmQueue.{start_push, push_step, put_block, align_tail, len_at}
use libant.ShmQueue.Valid.{IsSized, IsValid, IsMessage}
use libant.ShmQueue.Pops.{at, pop-goes_round, moved-IsSized}
use libant.ShmQueue.Aligns.{align_tail-Aligned}

module _ (e : Endian) where
  -- A call that runs alone, with the queue and the result at its end.
  pub alone : ℕ → Producer → Queue → Queue × Option Bool
  alone zero p q = (q, none)
  alone (suc n) p q =
      let r = push_step e p q in
      let rest = alone n r.0 r.1 in elim r.2 [ none ↦ rest | some b ↦ (r.1, some b) ]

  -- `Push` with nothing running in between; `none` is the failed assert.
  pub push : List ℕ → Queue → Option (Queue × Option Bool)
  push bs q = Option.map (λ p. alone 25 p q) (start_push bs q)

  alone-next :
      (n : ℕ) (p p' : Producer) (q q' : Queue)
      → push_step e p q ≡ (p', q', none)
      → alone (suc n) p q ≡ alone n p' q'
  unfolding alone
  alone-next n p p' q q' eq =
      ap
        (λ (r : Producer × Queue × Option Bool). elim r.2 [
          | none ↦ alone n r.0 r.1
          | some b ↦ (r.1, some b)
        ])
        eq

  looks :
      (bs : List ℕ) (n : ℕ) (q : Queue)
      → push_step e (waits bs (suc n)) q
        ≡ (if can_push (length bs + 4) q then (writes bs, q, none) else (waits bs n, q, none))
  unfolding push_step
  looks bs n q = refl

  alone-last :
      (bs : List ℕ) (k : ℕ) (q : Queue)
      → alone (suc (suc (suc k))) (writes bs) q ≡ (put_block e bs q, some true)
  unfolding alone push_step put_block
  alone-last bs k q = refl

  alone-writes :
      (bs : List ℕ) (n k : ℕ) (q : Queue)
      → can_push (length bs + 4) q ≡ true
      → alone (suc (suc (suc (suc k)))) (waits bs (suc n)) q ≡ (put_block e bs q, some true)
  alone-writes bs n k q can =
      alone-next (suc (suc (suc k))) (waits bs (suc n)) (writes bs) q q (looks bs n q ∙ rw can refl)
      ∙ alone-last bs k q

  alone-gives_up :
      (bs : List ℕ) (n k : ℕ) (q : Queue)
      → can_push (length bs + 4) q ≡ false
      → n < k
      → alone k (waits bs n) q ≡ (q, some false)
  unfolding alone push_step
  alone-gives_up bs n zero q cannot h = absurd (omega arith)
  alone-gives_up bs zero (suc k) q cannot h = refl
  alone-gives_up bs (suc n) (suc k) q cannot h =
      alone-next k (waits bs (suc n)) (waits bs n) q q (rw cannot refl)
      ∙ alone-gives_up bs n k q cannot (omega arith)

  start_push-waits :
      (bs : List ℕ) (q : Queue)
      → IsSized q
      → IsMessage q bs
      → q.tail + length bs + 4 ≤ q.shm_size
      → start_push bs q ≡ some (waits bs 10)
  unfolding start_push
  start_push-waits bs q s (some_text, fits) room =
      let limit : (q.elem_max_size + 2 ^ 32 - 4) % 2 ^ 32 ≡ q.elem_max_size - 4 =
        omega (arith, s.small, s.elem_small, s.elem_some) in
      ground arith

  start_push-aligns :
      (bs : List ℕ) (q : Queue)
      → IsSized q
      → IsMessage q bs
      → q.shm_size < q.tail + length bs + 4
      → start_push bs q ≡ some (aligns bs 10)
  unfolding start_push
  start_push-aligns bs q s (some_text, fits) edge =
      let limit : (q.elem_max_size + 2 ^ 32 - 4) % 2 ^ 32 ≡ q.elem_max_size - 4 =
        omega (arith, s.small, s.elem_small, s.elem_some) in
      ground arith

  push-below :
      (bs : List ℕ) (q : Queue)
      → IsSized q
      → IsMessage q bs
      → q.tail + length bs + 4 ≤ q.shm_size
      → q.head ≤ q.tail
      → push bs q ≡ some (put_block e bs q, some true)
  unfolding push
  push-below bs q s msg room below =
      ap (Option.map (λ p. alone 25 p q)) (start_push-waits bs q s msg room)
      ∙ ap some (alone-writes bs 9 21 q (ground arith))

  empty-stays : (q : Queue) → q.head ≡ q.tail → pop_block e q ≡ some (q, none)
  unfolding pop_block
  empty-stays q same = let stops : (q.head == q.tail) ≡ true = ground arith in rw stops refl

  -- The tail is at the start, and the head where the blocks end near the end of the segment.
  at_start :
      (bs : List ℕ) (k : ℕ) (q : Queue)
      → 10 ≤ k
      → IsSized q
      → IsMessage q bs
      → q.tail ≡ head_size
      → head_size < q.head
      → (q.shm_size < q.head + 4) ⊎ (len_at e q.mem q.head ≡ 0xFFFFFFFF)
      → (alone (suc (suc (suc (suc k)))) (waits bs 10) q ≡ (put_block e bs q, some true))
        ⊎ ((alone (suc (suc (suc (suc k)))) (waits bs 10) q ≡ (q, some false))
            × (pop e q ≡ some (at e q head_size, none))
            × (push bs (at e q head_size) ≡ some (put_block e bs (at e q head_size), some true)))
  at_start bs k q few s msg start above pad = elim (Bool-cases (can_push (length bs + 4) q)) [
    | inl can ↦ inl (alone-writes bs 9 k q can)
    | inr cannot ↦ inr (
      alone-gives_up bs 10 (suc (suc (suc (suc k)))) q cannot (omega arith),
      pop-goes_round e q (omega arith) (ground arith) ∙ empty-stays (at e q head_size) (sym start),
      push-below bs (at e q head_size)
          (moved-IsSized e q head_size s (omega arith) (omega (arith, s.head_low, s.head_high))) msg
          (omega (arith, s.elem_small, msg.1)) (omega arith),
    )
  ]

  -- What `Push`, `Pop` and `Push` do: the first succeeds, or the last, and `Pop` returns 0.
  abbrev pub Succeeds : List ℕ → Queue → Type 0
  Succeeds bs q =
      ((q1 : Queue) × (push bs q ≡ some (q1, some true)))
      ⊎ ((q1 : Queue) × (q2 : Queue) × (q3 : Queue) × (push bs q ≡ some (q1, some false))
          × (pop e q1 ≡ some (q2, none))
          × (push bs q2 ≡ some (q3, some true)))

  empty-Wrapped :
      (q : Queue)
      → IsValid e q []
      → q.tail < q.head
      → (q.tail ≡ head_size) × ((q.shm_size < q.head + 4) ⊎ (len_at e q.mem q.head ≡ 0xFFFFFFFF))
  empty-Wrapped q v behind = elim v.layout [
    | inl same ↦ absurd (omega arith)
    | inr ([], [], p, _, eq, blocks, inside, pad, rest) ↦ (
      sym rest,
      subst (λ n. (q.shm_size < n + 4) ⊎ (len_at e q.mem n ≡ 0xFFFFFFFF)) (sym blocks) pad,
    )
    | inr ([], m ∷ second, p, _, eq, blocks, inside, pad, rest) ↦ absurd (cc)
    | inr (m ∷ first, second, p, _, eq, blocks, inside, pad, rest) ↦ absurd (cc)
  ]

  from_start :
      (bs : List ℕ) (k : ℕ) (q q0 : Queue)
      → 10 ≤ k
      → IsValid e q []
      → IsMessage q bs
      → q.tail < q.head
      → push bs q0 ≡ some (alone (suc (suc (suc (suc k)))) (waits bs 10) q)
      → Succeeds bs q0
  from_start bs k q q0 few v msg behind eq =
      let (start, pad) = empty-Wrapped q v behind in
      elim (at_start bs k q few v.sized msg start (omega arith) pad) [
        | inl done ↦ inl (put_block e bs q, eq ∙ ap some done)
        | inr (fails, popped, again) ↦ inr (
          q,
          at e q head_size,
          put_block e bs (at e q head_size),
          eq ∙ ap some fails,
          popped,
          again,
        )
      ]

  aligns-steps :
      (bs : List ℕ) (n k : ℕ) (q : Queue)
      → can_align q ≡ true
      → alone (suc (suc (suc k))) (aligns bs (suc n)) q ≡ alone k (waits bs 10) (align_tail e q)
  unfolding alone push_step align_tail
  aligns-steps bs n k q can =
      alone-next (suc (suc k)) (aligns bs (suc n)) (pads bs) q q (rw can refl)

  drained_straight :
      (bs : List ℕ) (q : Queue) → IsValid e q [] → IsMessage q bs → q.head ≡ q.tail → Succeeds bs q
  unfolding push
  drained_straight bs q v msg same = elim (Bool-cases (leb (q.tail + length bs + 4) q.shm_size)) [
    | inl room ↦ inl (put_block e bs q, push-below bs q v.sized msg (ground arith) (omega arith))
    | inr edge ↦
        let past : q.shm_size < q.tail + length bs + 4 = ground arith in
        let high : head_size < q.head =
          omega (arith, v.sized.head_low, v.sized.elem_small, msg.1) in
        let can : can_align q ≡ true = ground arith in
        let (v1, same_head, start, size, max) = align_tail-Aligned e q [] v can in
        from_start bs 18 (align_tail e q) q (omega arith) v1 (msg.0, omega (arith, msg.1, max))
          (omega (arith, start, same_head))
          (ap (Option.map (λ p. alone 25 p q)) (start_push-aligns bs q v.sized msg past)
            ∙ ap some (aligns-steps bs 9 22 q can))
  ]

  -- When the queue is valid and drained, a `Push` of a message that the queue is made for succeeds, or
  -- it fails, the next `Pop` returns 0, and the `Push` behind that succeeds, each running alone.
  pub drained-Succeeds : (bs : List ℕ) (q : Queue) → IsValid e q [] → IsMessage q bs → Succeeds bs q
  unfolding push
  drained-Succeeds bs q v msg = elim (Bool-cases (ltb q.tail q.head)) [
    | inl behind ↦
        let lt : q.tail < q.head = ground arith in
        let (start, pad) = empty-Wrapped q v lt in
        from_start bs 21 q q (omega arith) v msg lt (
          ap (Option.map (λ p. alone 25 p q))
            (start_push-waits bs q v.sized msg (omega (arith, v.sized.elem_small, msg.1))))
    | inr ahead ↦ elim v.layout [
      | inl same ↦ drained_straight bs q v msg same
      | inr (first, second, p, behind, _, _, _, _, _) ↦ absurd (ground arith)
    ]
  ]
