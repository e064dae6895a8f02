-- ===== src/ShmQueue/Valid.antt =====
-- What holds of the queue and of running calls between two steps.
use libant.Common.{ℕ, ◌+◌, ◌≤◌, ◌<◌, ◌≡◌, ◌≢◌, ◌⊎◌}
use libant.Common.{List, [], ◌∷◌, ◌++◌, length, Option, none, some}
use libant.Endian.{Endian}
use libant.ShmQueue.{Queue, Producer, idle, waits, aligns, pads, turns, writes, fills, publishes}
use libant.ShmQueue.{Consumer, resting, aligning, at_pad, turning, checking, reading, advancing}
use libant.ShmQueue.{returning, head_size, len_at}
use libant.ShmQueue.Blocks.{Block, Blocks}

-- The offsets lie in the segment, and a message fits into it.
pub record IsSized (q : Queue) : Type 0 where
  pub head_low : head_size ≤ q.head
  pub tail_low : head_size ≤ q.tail
  pub head_high : q.head ≤ q.shm_size
  pub tail_high : q.tail ≤ q.shm_size
  pub whole : length q.mem ≡ q.shm_size
  pub small : q.shm_size < 2000000080
  pub elem_small : q.elem_max_size + head_size ≤ q.shm_size
  pub elem_some : 4 ≤ q.elem_max_size

module _ (e : Endian) where
  -- No block crosses the end of the segment.
  abbrev pub Straight : Queue → List (List ℕ) → Type 0
  Straight q ms = Blocks e q.elem_max_size q.mem q.head ms q.tail

  -- The blocks end at `p` near the end of the segment, or with a pad there, and go on at its start.
  abbrev pub Wrapped : Queue → List (List ℕ) → Type 0
  Wrapped q ms =
      (first : List (List ℕ)) × (second : List (List ℕ)) × (p : ℕ) × (q.tail < q.head)
      × (ms ≡ first ++ second)
      × Blocks e q.elem_max_size q.mem q.head first p
      × (p ≤ q.shm_size)
      × ((q.shm_size < p + 4) ⊎ (len_at e q.mem p ≡ 0xFFFFFFFF))
      × Blocks e q.elem_max_size q.mem head_size second q.tail

  -- The queue holds the messages, the oldest first.
  pub record IsValid (q : Queue) (ms : List (List ℕ)) : Type 0 where
    pub sized : IsSized q
    pub layout : Straight q ms ⊎ Wrapped q ms

-- A message that `Push` accepts.
abbrev pub IsMessage : Queue → List ℕ → Type 0
IsMessage q bs = (0 < length bs) × (length bs + 4 ≤ q.elem_max_size)

-- A producer that saw enough room up to the head, with the block that was popped last in between.
abbrev pub IsFree : Queue → List ℕ → Type 0
IsFree q bs =
    IsMessage q bs
    × (q.tail + length bs + 4 ≤ q.shm_size)
    × ((q.head ≤ q.tail) ⊎ (q.tail + length bs + 4 + q.elem_max_size ≤ q.head))

module _ (e : Endian) where
  -- There is a pad at the offset, or no room for one.
  abbrev pub IsPad : Queue → ℕ → Type 0
  IsPad q p = (q.shm_size < p + 4) ⊎ (len_at e q.mem p ≡ 0xFFFFFFFF)

  -- What a running `Push` knows where it stands.
  abbrev pub IsReady : Queue → Producer → Type 0
  IsReady q idle = Unit
  IsReady q (waits bs n) = IsMessage q bs × (q.tail + length bs + 4 ≤ q.shm_size)
  IsReady q (aligns bs n) = IsMessage q bs
  IsReady q (pads bs) = IsMessage q bs × (head_size < q.head) × (q.head ≤ q.tail)
  IsReady q (turns bs) = IsMessage q bs × (head_size < q.head) × (q.head ≤ q.tail) × IsPad q q.tail
  IsReady q (writes bs) = IsFree q bs
  IsReady q (fills bs) = IsFree q bs × (len_at e q.mem q.tail ≡ length bs + 4)
  IsReady q (publishes bs) = IsFree q bs × Block e q.elem_max_size q.mem q.tail bs

  -- The block of the data that `Pop` returned last is where it was; it ends at the head.
  abbrev pub IsLast : Queue → ℕ → List ℕ → Type 0
  IsLast q i m = (head_size ≤ i) × Blocks e q.elem_max_size q.mem i (m ∷ []) q.head

  abbrev pub IsHeld : Queue → Option (ℕ × List ℕ) → Type 0
  IsHeld q none = Unit
  IsHeld q (some (pos, m)) = (i : ℕ) × (pos ≡ i + 4) × IsLast q i m

  -- The oldest message is in a block at the head.
  abbrev pub IsFront : Queue → List (List ℕ) → Type 0
  IsFront q ms =
      (m : List ℕ) × (rest : List (List ℕ)) × (end : ℕ) × (ms ≡ m ∷ rest)
      × Blocks e q.elem_max_size q.mem q.head (m ∷ []) end
      × ((end ≤ q.tail) ⊎ ((q.tail < q.head) × (end ≤ q.shm_size)))

  -- What a running `Pop` knows where it stands; `taken` is what it is about to return.
  abbrev pub IsComing : Queue → Consumer → List (List ℕ) → List (List ℕ) → Type 0
  IsComing q resting taken ms = taken ≡ []
  IsComing q aligning taken ms = (taken ≡ []) × (q.head ≢ q.tail)
  IsComing q at_pad taken ms = (taken ≡ []) × (q.tail < q.head)
  IsComing q turning taken ms = (taken ≡ []) × (q.tail < q.head) × IsPad q q.head
  IsComing q checking taken ms = (taken ≡ []) × ((q.head ≡ head_size) ⊎ IsFront q ms)
  IsComing q reading taken ms = (taken ≡ []) × IsFront q ms
  IsComing q advancing taken ms = (taken ≡ []) × IsFront q ms
  IsComing q (returning i) taken ms = (m : List ℕ) × (taken ≡ m ∷ []) × IsLast q i m
