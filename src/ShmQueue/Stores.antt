-- ===== src/ShmQueue/Stores.antt =====
-- A store into the free part of the segment changes nothing that either side relies on.
use libant.Common.{ℕ, ◌+◌, ◌≤◌, ◌<◌, ◌⊎◌, inl, inr, ap, ◌∙◌, arith}
use libant.Common.{List, [], ◌∷◌, length, store_at, length-store_at, slice-store_at_after}
use libant.Common.{Option, none, some}
use libant.Endian.{Endian, loaded}
use libant.ShmQueue.{Queue, Consumer, resting, aligning, at_pad, turning, checking, reading}
use libant.ShmQueue.{advancing, returning}
use libant.ShmQueue.Blocks.{Blocks-le, Blocks-store_at}
use libant.ShmQueue.Valid.{IsSized, IsValid, Straight, Wrapped, IsHeld, IsLast, IsFront, IsComing}
use libant.ShmQueue.Valid.{IsPad}

-- The bytes from `i` on are behind the tail and, if they are in front of the head, a block away.
abbrev pub IsOutside : Queue → ℕ → List ℕ → Type 0
IsOutside q i bs = (q.tail ≤ i) × ((q.head ≤ q.tail) ⊎ (i + length bs + q.elem_max_size ≤ q.head))

module _ (e : Endian) (q : Queue) (i : ℕ) (bs : List ℕ) (out : IsOutside q i bs) where
  after : Queue
  after = record q { mem = store_at q.mem i bs }

  store-IsSized : IsSized q → IsSized after
  unfolding after
  store-IsSized s = record {
    head_low = s.head_low;
    tail_low = s.tail_low;
    head_high = s.head_high;
    tail_high = s.tail_high;
    whole = length-store_at q.mem i bs ∙ s.whole;
    small = s.small;
    elem_small = s.elem_small;
    elem_some = s.elem_some;
  }

  store-IsPad : (p : ℕ) → q.tail < q.head → q.head ≤ p → IsPad e q p → IsPad e after p
  unfolding after
  store-IsPad p behind le (inl edge) = inl edge
  store-IsPad p behind le (inr marked) =
      let (low, room) = out in
      let before : i + length bs ≤ p = ground arith in
      inr (ap (loaded e) (slice-store_at_after p 4 i q.mem bs before) ∙ marked)

  pub store-IsValid :
      (ms : List (List ℕ)) → IsValid e q ms → IsValid e (record q { mem = store_at q.mem i bs }) ms
  unfolding after
  store-IsValid ms v = record { sized = store-IsSized v.sized; layout = kept v.layout }
    where
      kept : Straight e q ms ⊎ Wrapped e q ms → Straight e after ms ⊎ Wrapped e after ms
      kept (inl straight) =
          inl (Blocks-store_at e q.elem_max_size q.mem bs i q.head q.tail ms (inl out.0) straight)
      kept (inr (first, second, p, behind, eq, blocks, inside, pad, rest)) =
          let (low, room) = out in
          let before : i + length bs ≤ q.head = ground arith in
          inr (
            first,
            second,
            p,
            behind,
            eq,
            Blocks-store_at e q.elem_max_size q.mem bs i q.head p first (inr before) blocks,
            inside,
            store-IsPad p behind (Blocks-le e q.elem_max_size q.mem q.head p first blocks) pad,
            Blocks-store_at e q.elem_max_size q.mem bs i 80 q.tail second (inl low) rest,
          )

  pub store-IsLast :
      (j : ℕ) (m : List ℕ) → IsLast e q j m → IsLast e (record q { mem = store_at q.mem i bs }) j m
  store-IsLast j m (low, (block, next, eq, ends)) =
      let (tail_le, room) = out in
      let fits : length m + 4 ≤ q.elem_max_size = block.3 in
      (
        low,
        Blocks-store_at e q.elem_max_size q.mem bs i j q.head (m ∷ [])
            (elim room [ inl below ↦ inl (omega arith) | inr above ↦ inr (omega arith) ])
            (block, next, eq, ends),
      )

  pub store-IsHeld :
      (held : Option (ℕ × List ℕ))
      → IsHeld e q held
      → IsHeld e (record q { mem = store_at q.mem i bs }) held
  store-IsHeld none h = tt
  store-IsHeld (some (pos, m)) (j, eq, last) = (j, eq, store-IsLast j m last)

  store-IsFront :
      (ms : List (List ℕ)) → IsFront e q ms → IsFront e (record q { mem = store_at q.mem i bs }) ms
  store-IsFront ms (m, rest, end, eq, blocks, place) =
      let (low, room) = out in
      (
        m,
        rest,
        end,
        eq,
        Blocks-store_at e q.elem_max_size q.mem bs i q.head end (m ∷ [])
            (elim place [ inl below ↦ inl (omega arith) | inr above ↦ inr (ground arith) ]) blocks,
        place,
      )

  pub store-IsComing :
      (c : Consumer) (taken ms : List (List ℕ))
      → IsComing e q c taken ms
      → IsComing e (record q { mem = store_at q.mem i bs }) c taken ms
  unfolding after
  store-IsComing resting taken ms h = h
  store-IsComing aligning taken ms h = h
  store-IsComing at_pad taken ms h = h
  store-IsComing turning taken ms (eq, behind, pad) =
      (eq, behind, store-IsPad q.head behind (omega arith) pad)
  store-IsComing checking taken ms (eq, inl start) = (eq, inl start)
  store-IsComing checking taken ms (eq, inr front) = (eq, inr (store-IsFront ms front))
  store-IsComing reading taken ms (eq, front) = (eq, store-IsFront ms front)
  store-IsComing advancing taken ms (eq, front) = (eq, store-IsFront ms front)
  store-IsComing (returning j) taken ms (m, eq, last) = (m, eq, store-IsLast j m last)
