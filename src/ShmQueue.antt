-- ===== src/ShmQueue.antt =====
-- ShmCircularBufQueue: a queue in shared memory for one producer and one consumer
-- (include/libant/interprocess/containers/shm_circular_buf_queue.h and
-- src/interprocess/containers/shm_circular_buf_queue.cpp). The segment is the list of its bytes; the
-- fields of its head ShmCQ, which takes the first 80 bytes, are those of the record.
pub mod Blocks
pub mod Valid
pub mod Pops
pub mod Stores
pub mod Heads
pub mod Takes
pub mod Turns
pub mod Aligns
pub mod System
pub mod Reachable
pub mod Progress
pub mod Drained
mod Tests
use libant.Common.{ℕ, zero, suc, ◌+◌, ◌-◌, ◌%◌, ◌^◌, ltb, leb, ◌==◌, ◌&&◌, ◌||◌, Bool, true, false}
use libant.Common.{if◌then◌else◌, List, [], ◌∷◌, ◌++◌, length, slice, store_at, Option, none, some}
use libant.Endian.{Endian, stored, loaded}

-- `sizeof(ShmCQ)` and `sizeof(ShmBlock)`
abbrev pub head_size : ℕ
head_size = 80

abbrev pub block_size : ℕ
block_size = 4

pub record Queue : Type 0 where
  pub head : ℕ
  pub tail : ℕ
  pub shm_size : ℕ
  pub elem_max_size : ℕ
  pub name : List ℕ
  pub mem : List ℕ

-- `Create`; `mapped` is what the system maps for a size, or its failure. The outer `none` is the
-- failed assert, `some none` the result `false`.
unfoldable pub create : (ℕ → Option (List ℕ)) → List ℕ → ℕ → ℕ → Option (Option Queue)
create mapped name cq_size data_max_sz =
    let size = (cq_size + head_size) % 2 ^ 32 in
    if ltb cq_size 2000000000 && leb (data_max_sz + block_size) cq_size
    then (if leb 64 (length name)
        then some none
        else some (elim (mapped size) [
          | none ↦ none
          | some mem ↦ some (record {
            head = head_size;
            tail = head_size;
            shm_size = size;
            elem_max_size = (data_max_sz + block_size) % 2 ^ 32;
            name = name;
            mem = mem;
          })
        ]))
    else none

-- `Empty`
abbrev pub empty : Queue → Bool
empty q = q.head == q.tail

-- What one look at `Head` in `pushWait` and in `tailAlignWait` is to find.
abbrev pub can_push : ℕ → Queue → Bool
can_push len q = leb q.head q.tail || leb ((q.tail + len + q.elem_max_size) % 2 ^ 32) q.head

abbrev pub can_align : Queue → Bool
can_align q = ltb head_size q.head && leb q.head q.tail

module _ (e : Endian) where
  -- `Len` of the block at an offset.
  abbrev pub len_at : List ℕ → ℕ → ℕ
  len_at mem i = loaded e (slice mem i 4)

  -- `alignHead`
  unfoldable pub align_head : Queue → Queue
  align_head q =
      if ltb q.head q.tail
      then q
      else if ltb (q.shm_size - q.head) block_size || (len_at q.mem q.head == 0xFFFFFFFF)
      then record q { head = head_size }
      else q

  -- The rest of `Pop` behind `alignHead`: the offset of the data and its length. `none` is the failed
  -- assert, `some none` the result 0.
  unfoldable pub pop_block : Queue → Option (Queue × Option (ℕ × ℕ))
  pop_block q =
      let len = len_at q.mem q.head in
      if empty q
      then some (q, none)
      else if leb len q.elem_max_size
      then some (
        record q { head = (q.head + len) % 2 ^ 32 },
        some (q.head + block_size, (len + 2 ^ 32 - block_size) % 2 ^ 32),
      )
      else none

  -- `Pop`
  unfoldable pub pop : Queue → Option (Queue × Option (ℕ × ℕ))
  pop q = if empty q then some (q, none) else pop_block (align_head q)

  -- The end of `alignTail` once `tailAlignWait` has succeeded: the pad, if there is room for one, and
  -- the new `Tail`.
  unfoldable pub write_pad : Queue → Queue
  write_pad q =
      if leb block_size (q.shm_size - q.tail)
      then record q { mem = store_at q.mem q.tail (stored e 4 0xFFFFFFFF) }
      else q

  unfoldable pub turn_tail : Queue → Queue
  turn_tail q = record q { tail = head_size }

  unfoldable pub align_tail : Queue → Queue
  align_tail q = turn_tail (write_pad q)

  -- The end of `Push` once `alignTail` has succeeded: `Len`, `memcpy`, and the new `Tail`.
  unfoldable pub store_len : List ℕ → Queue → Queue
  store_len bs q = record q {
    mem = store_at q.mem q.tail (stored e 4 ((length bs + block_size) % 2 ^ 32));
  }

  unfoldable pub store_data : List ℕ → Queue → Queue
  store_data bs q = record q { mem = store_at q.mem (q.tail + block_size) bs }

  unfoldable pub publish : List ℕ → Queue → Queue
  publish bs q = record q { tail = (q.tail + (length bs + block_size) % 2 ^ 32) % 2 ^ 32 }

  unfoldable pub put_block : List ℕ → Queue → Queue
  put_block bs q = publish bs (store_data bs (store_len bs q))

-- Where a call of `Push` stands: not running; in the loop of `pushWait` or of `tailAlignWait` with so
-- many looks to go; about to write the pad, or `Tail` behind it; about to write `Len`, the data, or
-- `Tail` behind them.
pub data Producer : Type 0 where
  idle : Producer
  waits : List ℕ → ℕ → Producer
  aligns : List ℕ → ℕ → Producer
  pads : List ℕ → Producer
  turns : List ℕ → Producer
  writes : List ℕ → Producer
  fills : List ℕ → Producer
  publishes : List ℕ → Producer

-- The call of `Push`, up to the first loop; `none` is the failed assert.
unfoldable pub start_push : List ℕ → Queue → Option Producer
start_push bs q =
    let len = length bs + block_size in
    if ltb 0 (length bs) && leb (length bs) ((q.elem_max_size + 2 ^ 32 - block_size) % 2 ^ 32)
    then (if leb len (q.shm_size - q.tail) then some (waits bs 10) else some (aligns bs 10))
    else none

-- Where a call of `Pop` stands: not running; about to read `Tail` in `alignHead`; to read `Len` there;
-- to write `Head` there; at the second `Empty`; at the assert; to write `Head`; or to return the data
-- of the block at an offset, whose `Len` is read once more.
pub data Consumer : Type 0 where
  resting : Consumer
  aligning : Consumer
  at_pad : Consumer
  turning : Consumer
  checking : Consumer
  reading : Consumer
  advancing : Consumer
  returning : ℕ → Consumer

module _ (e : Endian) where
  -- One step of a running `Push`, the consumer being free to run between two: a look at `Head`, or one
  -- store. The last component is the result of the call when the step ends it.
  unfoldable pub push_step : Producer → Queue → Producer × Queue × Option Bool
  push_step idle q = (idle, q, none)
  push_step (waits bs zero) q = (idle, q, some false)
  push_step (waits bs (suc n)) q =
      if can_push (length bs + block_size) q then (writes bs, q, none) else (waits bs n, q, none)
  push_step (aligns bs zero) q = (idle, q, some false)
  push_step (aligns bs (suc n)) q =
      if can_align q then (pads bs, q, none) else (aligns bs n, q, none)
  push_step (pads bs) q = (turns bs, write_pad e q, none)
  push_step (turns bs) q = (waits bs 10, turn_tail e q, none)
  push_step (writes bs) q = (fills bs, store_len e bs q, none)
  push_step (fills bs) q = (publishes bs, store_data e bs q, none)
  push_step (publishes bs) q = (idle, publish e bs q, some true)

  -- One step of `Pop`, the producer being free to run between two: a look at `Tail`, a read of `Len`, or
  -- a store to `Head`. `none` is the failed assert; the last component is the result of the call when
  -- the step ends it, `none` in it the result 0.
  unfoldable pub pop_step : Consumer → Queue → Option (Consumer × Queue × Option (Option (ℕ × ℕ)))
  pop_step resting q = some (if empty q then (resting, q, some none) else (aligning, q, none))
  pop_step aligning q = some (if ltb q.head q.tail then (checking, q, none) else (at_pad, q, none))
  pop_step at_pad q = some (
      if ltb (q.shm_size - q.head) block_size || (len_at e q.mem q.head == 0xFFFFFFFF)
      then (turning, q, none)
      else (checking, q, none))
  pop_step turning q = some (checking, record q { head = head_size }, none)
  pop_step checking q = some (if empty q then (resting, q, some none) else (reading, q, none))
  pop_step reading q =
      if leb (len_at e q.mem q.head) q.elem_max_size then some (advancing, q, none) else none
  pop_step advancing q =
      some (returning q.head, record q { head = (q.head + len_at e q.mem q.head) % 2 ^ 32 }, none)
  pop_step (returning i) q =
      some (
        resting,
        q,
        some (some (i + block_size, (len_at e q.mem i + 2 ^ 32 - block_size) % 2 ^ 32)),
      )
