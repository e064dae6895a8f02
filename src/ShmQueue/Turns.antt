-- ===== src/ShmQueue/Turns.antt =====
-- The stores of Push: what they make ready, and what publishing a block or going round to the start of
-- the segment does.
use libant.Common.{ℕ, ◌+◌, ◌-◌, ◌%◌, ◌^◌, ◌≤◌, ◌<◌, ◌≡◌, ◌⊎◌, inl, inr, refl, sym, ap, ◌∙◌, arith}
use libant.Common.{List, [], ◌∷◌, ◌++◌, length, slice, store_at, slice-store_at}
use libant.Common.{slice-store_at_before, append_assoc, append-nil, Option, none, some}
use libant.Common.{Bool-cases, leb}
use libant.Endian.{Endian, stored, loaded}
use libant.Endian.Order.{loaded-stored, length-stored}
use libant.ShmQueue.{Queue, Producer, idle, waits, aligns, pads, turns, writes, fills, publishes}
use libant.ShmQueue.{Consumer, resting, aligning, at_pad, turning, checking, reading, advancing}
use libant.ShmQueue.{returning, head_size, len_at, store_len, store_data, publish, write_pad}
use libant.ShmQueue.Blocks.{Blocks-snoc}
use libant.ShmQueue.Valid.{IsSized, IsValid, IsPad, IsFree, IsReady, IsHeld}
use libant.ShmQueue.Valid.{IsFront, IsComing}
use libant.ShmQueue.Pops.{at}
use libant.ShmQueue.Heads.{Moves}
use libant.ShmQueue.Stores.{IsOutside}

-- The queue with the tail moved.
abbrev pub to : Queue → ℕ → Queue
to q t = record q { tail = t }

module _ (e : Endian) where
  -- A running `Push` stays ready when the head moves.
  pub Moves-IsReady :
      (q : Queue) (h : ℕ) (p : Producer) → Moves q h → IsReady e q p → IsReady e (at e q h) p
  Moves-IsReady q h idle moves r = tt
  Moves-IsReady q h (waits bs n) moves r = r
  Moves-IsReady q h (aligns bs n) moves r = r
  Moves-IsReady q h (pads bs) (low, moves) (msg, above, below) = (msg, ground arith, ground arith)
  Moves-IsReady q h (turns bs) (low, moves) (msg, above, below, pad) =
      (msg, ground arith, ground arith, pad)
  Moves-IsReady q h (writes bs) (low, moves) (msg, room, free) = (msg, room, ground arith)
  Moves-IsReady q h (fills bs) (low, moves) ((msg, room, free), len) =
      ((msg, room, ground arith), len)
  Moves-IsReady q h (publishes bs) (low, moves) ((msg, room, free), block) =
      ((msg, room, ground arith), block)

  pub store_len_lem :
      (q : Queue) (bs : List ℕ)
      → IsSized q
      → q.tail + length bs + 4 ≤ q.shm_size
      → store_len e bs q ≡ record q { mem = store_at q.mem q.tail (stored e 4 (length bs + 4)) }
  unfolding store_len
  store_len_lem q bs s room =
      ap (λ n. let r : Queue = record q { mem = store_at q.mem q.tail (stored e 4 n) } in r)
        (let size : (length bs + 4) % 2 ^ 32 ≡ length bs + 4 = omega (arith, s.small) in size)

  pub store_data_lem :
      (q : Queue) (bs : List ℕ)
      → store_data e bs q ≡ record q { mem = store_at q.mem (q.tail + 4) bs }
  unfolding store_data
  store_data_lem q bs = refl

  pub store_len-IsOutside :
      (q : Queue) (bs : List ℕ) → IsFree q bs → IsOutside q q.tail (stored e 4 (length bs + 4))
  store_len-IsOutside q bs (msg, room, free) =
      (omega arith, ground (arith, length-stored e 4 (length bs + 4)))

  pub store_data-IsOutside : (q : Queue) (bs : List ℕ) → IsFree q bs → IsOutside q (q.tail + 4) bs
  store_data-IsOutside q bs (msg, room, free) = (omega arith, ground arith)

  stored-len :
      (mem : List ℕ) (i n : ℕ)
      → i + 4 ≤ length mem
      → n < 2 ^ 32
      → len_at e (store_at mem i (stored e 4 n)) i ≡ n
  stored-len mem i n inside small =
      let word : List ℕ = stored e 4 n in
      ap (loaded e) (
        ap (slice (store_at mem i word) i) (sym (length-stored e 4 n))
        ∙ slice-store_at i mem word (omega (arith, length-stored e 4 n)))
      ∙ loaded-stored e 4 n (omega arith)

  pub store_len-IsReady :
      (q : Queue) (bs : List ℕ)
      → IsSized q
      → IsFree q bs
      → IsReady e (record q { mem = store_at q.mem q.tail (stored e 4 (length bs + 4)) }) (fills bs)
  store_len-IsReady q bs s (msg, room, free) = (
    (msg, room, free),
    stored-len q.mem q.tail (length bs + 4) (omega (arith, s.whole)) (omega (arith, s.small)),
  )

  pub store_data-IsReady :
      (q : Queue) (bs : List ℕ)
      → IsSized q
      → IsReady e q (fills bs)
      → IsReady e (record q { mem = store_at q.mem (q.tail + 4) bs }) (publishes bs)
  store_data-IsReady q bs s (((some_text, fits), room, free), len) = (
    ((some_text, fits), room, free),
    (
      ap (loaded e) (slice-store_at_before q.tail 4 (q.tail + 4) q.mem bs (omega arith)) ∙ len,
      slice-store_at (q.tail + 4) q.mem bs (omega (arith, s.whole)),
      some_text,
      fits,
    ),
  )

  -- The pad is written, or there is no room for it.
  pub write_pad-cases :
      (q : Queue)
      → IsSized q
      → ((write_pad e q ≡ record q { mem = store_at q.mem q.tail (stored e 4 0xFFFFFFFF) })
          × IsPad e (record q { mem = store_at q.mem q.tail (stored e 4 0xFFFFFFFF) }) q.tail)
        ⊎ ((write_pad e q ≡ q) × IsPad e q q.tail)
  unfolding write_pad
  write_pad-cases q s = elim (Bool-cases (leb 4 (q.shm_size - q.tail))) [
    | inl room ↦ inl (
      rw room refl,
      inr (
          stored-len q.mem q.tail 0xFFFFFFFF
            (let inside : q.tail + 4 ≤ length q.mem = ground (arith, s.whole, s.tail_high) in
              inside)
            (omega arith)),
    )
    | inr edge ↦ inr (rw edge refl, inl (ground arith))
  ]

  moved_tail-IsSized :
      (q : Queue) (t : ℕ) → IsSized q → head_size ≤ t → t ≤ q.shm_size → IsSized (to q t)
  moved_tail-IsSized q t s low high = record {
    head_low = s.head_low;
    tail_low = low;
    head_high = s.head_high;
    tail_high = high;
    whole = s.whole;
    small = s.small;
    elem_small = s.elem_small;
    elem_some = s.elem_some;
  }

  pub moved_tail-IsHeld :
      (q : Queue) (t : ℕ) (held : Option (ℕ × List ℕ)) → IsHeld e q held → IsHeld e (to q t) held
  moved_tail-IsHeld q t none h = tt
  moved_tail-IsHeld q t (some (pos, m)) h = h

  -- What the consumer knows stays true when the tail moves, ahead of it or round to the start.
  moved_tail-IsFront :
      (q : Queue) (t : ℕ) (ms more : List (List ℕ))
      → IsSized q
      → ((q.tail ≤ t) × ((q.head ≤ q.tail) ⊎ (t < q.head))) ⊎ ((t < q.head) × (q.head ≤ q.tail))
      → IsFront e q ms
      → IsFront e (to q t) (ms ++ more)
  moved_tail-IsFront q t ms more s goes (m, rest, end, eq, blocks, place) =
      let high : q.tail ≤ q.shm_size = s.tail_high in
      (m, rest ++ more, end, ap (λ (l : List (List ℕ)). l ++ more) eq, blocks, ground arith)

  pub moved_tail-IsComing :
      (q : Queue) (t : ℕ) (c : Consumer) (taken ms more : List (List ℕ))
      → IsSized q
      → ((q.tail < t) × ((q.head ≤ q.tail) ⊎ (t < q.head))) ⊎ ((t < q.head) × (q.head ≤ q.tail))
      → IsComing e q c taken ms
      → IsComing e (to q t) c taken (ms ++ more)
  moved_tail-IsComing q t resting taken ms more s goes h = h
  moved_tail-IsComing q t aligning taken ms more s goes (eq, ne) = (eq, ground arith)
  moved_tail-IsComing q t at_pad taken ms more s goes (eq, behind) = (eq, ground arith)
  moved_tail-IsComing q t turning taken ms more s goes (eq, behind, pad) = (eq, ground arith, pad)
  moved_tail-IsComing q t checking taken ms more s goes (eq, inl start) = (eq, inl start)
  moved_tail-IsComing q t checking taken ms more s goes (eq, inr front) =
      (eq, inr (moved_tail-IsFront q t ms more s (ground arith) front))
  moved_tail-IsComing q t reading taken ms more s goes (eq, front) =
      (eq, moved_tail-IsFront q t ms more s (ground arith) front)
  moved_tail-IsComing q t advancing taken ms more s goes (eq, front) =
      (eq, moved_tail-IsFront q t ms more s (ground arith) front)
  moved_tail-IsComing q t (returning i) taken ms more s goes h = h

  pub publish_lem :
      (q : Queue) (bs : List ℕ)
      → IsSized q
      → q.tail + length bs + 4 ≤ q.shm_size
      → publish e bs q ≡ to q (q.tail + length bs + 4)
  unfolding publish
  publish_lem q bs s room = ap (to q) (
      let moved : (q.tail + (length bs + 4) % 2 ^ 32) % 2 ^ 32 ≡ q.tail + length bs + 4 =
        omega (arith, s.small) in
      moved)

  -- Publishing the block adds the message at the end.
  pub published-IsValid :
      (q : Queue) (bs : List ℕ) (ms : List (List ℕ))
      → IsValid e q ms
      → IsReady e q (publishes bs)
      → IsValid e (to q (q.tail + length bs + 4)) (ms ++ (bs ∷ []))
  published-IsValid q bs ms v ((msg, room, free), block) = record {
    sized =
        moved_tail-IsSized q (q.tail + length bs + 4) v.sized (omega (arith, v.sized.tail_low))
          room;
    layout = elim v.layout [
      | inl straight ↦
          inl (Blocks-snoc e q.elem_max_size q.mem bs q.head q.tail _ ms straight block refl)
      | inr (first, second, p, behind, eq, blocks, inside, pad, rest) ↦
          let strict : q.tail + length bs + 4 < q.head = ground (arith, v.sized.elem_some) in
          inr (
            first,
            second ++ (bs ∷ []),
            p,
            strict,
            ap (λ (l : List (List ℕ)). l ++ (bs ∷ [])) eq ∙ append_assoc first second (bs ∷ []),
            blocks,
            inside,
            pad,
            Blocks-snoc e q.elem_max_size q.mem bs head_size q.tail _ second rest block refl,
          )
    ];
  }

  -- Going round to the start keeps the messages.
  pub turned-IsValid :
      (q : Queue) (ms : List (List ℕ))
      → IsValid e q ms
      → head_size < q.head
      → q.head ≤ q.tail
      → IsPad e q q.tail
      → IsValid e (to q head_size) ms
  turned-IsValid q ms v above below pad = record {
    sized =
        moved_tail-IsSized q head_size v.sized (omega arith)
          (omega (arith, v.sized.head_low, v.sized.head_high));
    layout = elim v.layout [
      | inl straight ↦
          inr (ms, [], q.tail, above, sym (append-nil ms), straight, v.sized.tail_high, pad, refl)
      | inr (first, second, p, behind, _, _, _, _, _) ↦ absurd (omega arith)
    ];
  }
