-- ===== src/Binary/Buffer.antt =====
-- BinaryBuffer (binary_buffer.h). `head_` and `tail_` are indices into the block that they point
-- into, `mem`. An `assert` that fails ends the program: the result is `none`. What `new char[n]`
-- holds before it is written is not known: it is the parameter `fresh`.
pub mod Holds
pub mod Grow
pub mod Refine
use libant.Common.{ℕ, ◌+◌, ◌-◌, ◌*◌, ◌/◌, ◌%◌, ◌^◌, ◌<◌, ltb, leb, if◌then◌else◌, ◌&&◌}
use libant.Common.{List, length, slice, store_at, Option, none, some}
use mathlib.Core.Option
use libant.Endian.{Endian, IntType, size_of, modulus, Platform}
use libant.Binary.Integer.{encoded}

pub record Buffer : Type 0 where
  pub prependable_bytes : ℕ
  pub head_cap : ℕ
  pub tail_cap : ℕ
  pub head : ℕ
  pub tail : ℕ
  pub mem : List ℕ

-- `Size`: a difference of pointers as a `uint32_t`.
unfoldable pub size : Buffer → ℕ
size b = (b.tail + 2 ^ 64 - b.head) % 2 ^ 32

-- The bytes that `Data` points to, `Size` of them.
unfoldable pub contents : Buffer → List ℕ
contents b = slice b.mem b.head (size b)

-- `Clear`
unfoldable pub clear : Buffer → Buffer
unfolding size
clear b =
    let old_size = size b in
    let prepended_bytes = (b.prependable_bytes + 2 ^ 32 - b.head_cap) % 2 ^ 32 in
    record b {
      head = b.head + prepended_bytes;
      tail = b.head + prepended_bytes;
      head_cap = b.prependable_bytes;
      tail_cap = (old_size + 2 ^ 32 - prepended_bytes + b.tail_cap) % 2 ^ 32;
    }

-- The code that the overloads of `PrependInteger` and `PrependString` share.
unfoldable pub prepend_bytes : List ℕ → Buffer → Option Buffer
prepend_bytes bs b =
    if leb (length bs) b.head_cap
    then some (record b {
      head = b.head - length bs;
      mem = store_at b.mem (b.head - length bs) bs;
      head_cap = (b.head_cap + 2 ^ 8 - length bs) % 2 ^ 8;
    })
    else none

-- `memcpy(tail_, …)` and the updates behind it.
unfoldable pub put_tail : List ℕ → Buffer → Buffer
put_tail bs b = record b {
  mem = store_at b.mem b.tail bs;
  tail = b.tail + length bs;
  tail_cap = (b.tail_cap + 2 ^ 64 - length bs) % 2 ^ 32;
}

module _ (fresh : ℕ → List ℕ) where
  -- The constructor.
  unfoldable pub create : ℕ → ℕ → Option Buffer
  create reserved_bytes prependable_bytes =
      if leb prependable_bytes 200
        && ltb 0 reserved_bytes
        && leb (prependable_bytes + reserved_bytes) 0xFFFFFFFF
      then some (record {
        prependable_bytes = prependable_bytes;
        head_cap = prependable_bytes;
        tail_cap = reserved_bytes;
        head = prependable_bytes;
        tail = prependable_bytes;
        mem = fresh (prependable_bytes + reserved_bytes);
      })
      else none

  -- The rest of `grow`, for a block of `new_size` bytes in place of one of `cur_size`.
  unfoldable pub reallocate : ℕ → ℕ → Buffer → Option Buffer
  unfolding size
  reallocate cur_size new_size b =
      if leb new_size 0xFFFFFFFF
      then some (record b {
        mem = store_at (fresh new_size) b.head_cap (slice b.mem b.head (size b));
        head = b.head_cap;
        tail = b.head_cap + size b;
        tail_cap = (b.tail_cap + (new_size - cur_size)) % 2 ^ 32;
      })
      else none

  -- `grow`: room for so many bytes at the end.
  unfoldable pub grow : ℕ → Buffer → Option Buffer
  unfolding reallocate
  grow appending_bytes b =
      let cur_size = b.head_cap + size b + b.tail_cap in
      let new_size = ((cur_size + appending_bytes) / 1024 + 1) * 1024 in
      if leb appending_bytes b.tail_cap then some b else reallocate cur_size new_size b

  -- The code that the overloads of `AppendInteger` and `AppendString` share; the size is passed to
  -- `grow` as a `uint32_t`.
  unfoldable pub append_bytes : List ℕ → Buffer → Option Buffer
  append_bytes bs b = Option.map (put_tail bs) (grow (length bs % 2 ^ 32) b)

module _ (p : Platform) (e : Endian) where
  -- `PrependInteger`
  unfoldable pub prepend_integer : IntType → ℕ → Buffer → Option Buffer
  prepend_integer t v b = prepend_bytes (encoded p e t v) b

  -- `PrependString<StringLenType>`: the payload, then its length in front of it.
  unfoldable pub prepend_sized_string : IntType → List ℕ → Buffer → Option Buffer
  prepend_sized_string t s b =
      Option.bind (prepend_bytes s b) (prepend_integer t (length s % modulus t))

module _ (p : Platform) (e : Endian) (fresh : ℕ → List ℕ) where
  -- `AppendInteger`
  unfoldable pub append_integer : IntType → ℕ → Buffer → Option Buffer
  append_integer t v b = append_bytes fresh (encoded p e t v) b

  -- `AppendString<StringLenType>`: the length, then the payload.
  unfoldable pub append_sized_string : IntType → List ℕ → Buffer → Option Buffer
  append_sized_string t s b =
      Option.bind (append_integer t (length s % modulus t) b) (append_bytes fresh s)
