-- ===== src/BufferPool.antt =====
-- BufferPool (include/libant/buffer_pool/buffer_pool.h): buffers that are handed out and come back to
-- the pool. A buffer is a number, that of its allocation, and its capacity; what `new` allocates is
-- an argument. `pooledBuffers_` is listed from its back. `BufferSizeType` is taken to have 64 bits, as
-- `std::string::size_type` has; a narrower one would cut the limit.
pub mod Steps
pub mod Invariant
pub mod Reachable
mod Tests
use libant.Common.{ℕ, ◌+◌, ◌-◌, ◌%◌, ◌^◌, leb, if◌then◌else◌, List, [], ◌∷◌, Option, none, some}

pub record Buffer : Type 0 where
  pub id : ℕ
  pub capacity : ℕ

pub record Pool : Type 0 where
  pub max_pooled_size : ℕ
  pub cur_pooled_size : ℕ
  pub pooled_buffers : List Buffer

-- `CreateBufferPool`
abbrev pub create_buffer_pool : ℕ → Pool
create_buffer_pool max_pooled_byte_size = record {
  max_pooled_size = max_pooled_byte_size;
  cur_pooled_size = 0;
  pooled_buffers = [];
}

-- `GetBuffer`; `buf` is what `new` returns if it is called.
unfoldable pub get_buffer : Buffer → Pool → Buffer × Pool
get_buffer buf p = elim p.pooled_buffers [
  | [] ↦ (buf, p)
  | b ∷ bs ↦ (
    b,
    record p {
      cur_pooled_size = (p.cur_pooled_size + 2 ^ 64 - b.capacity) % 2 ^ 64;
      pooled_buffers = bs;
    },
  )
]

-- `freeBuffer`: the pool, and the buffer if it is deleted.
unfoldable pub free_buffer : Buffer → Pool → Pool × List Buffer
free_buffer buf p =
    let new_size = (p.cur_pooled_size + buf.capacity) % 2 ^ 64 in
    if leb new_size p.max_pooled_size
    then (record p { cur_pooled_size = new_size; pooled_buffers = buf ∷ p.pooled_buffers }, [])
    else (p, buf ∷ [])

-- What happens to a buffer that is no longer needed, whether the pool still exists or not: the deleter
-- that `GetBuffer` gives to it.
unfoldable pub give_back : Buffer → Option Pool → Option Pool × List Buffer
give_back buf none = (none, buf ∷ [])
give_back buf (some p) = let (q, deleted) = free_buffer buf p in (some q, deleted)

-- The destructor deletes the buffers of the pool.
unfoldable pub destroy : Option Pool → Option Pool × List Buffer
destroy none = (none, [])
destroy (some p) = (none, p.pooled_buffers)
