-- ===== src/Binary/Reader.antt =====
-- BinaryReader (binary_reader.h): `buf_` is the stream and `pos_` the index of the next byte, a
-- `size_type` of 64 bits.
pub mod Safe
use libant.Common.{ℕ, ◌+◌, ◌-◌, ◌*◌, ◌/◌, ◌%◌, ◌^◌, ◌<◌, leb, ltb, if◌then◌else◌, Bool, false}
use libant.Common.{List, length, slice, drop, Option, none, some}
use libant.Endian.{Endian, IntType, size_of, modulus, Platform}
use libant.Binary.Integer.{decoded}

pub record Reader : Type 0 where
  pub buf : List ℕ
  pub pos : ℕ

-- The constructors.
abbrev pub reader : List ℕ → Reader
reader stream = record { buf = stream; pos = 0 }

-- What `ReadString<StringLenType>` does: `true` with the string, `false`, or an exception or a
-- read past the end of the stream. The object is left as given.
pub data StringRead : Type 0 where
  done : List ℕ → Reader → StringRead
  failed : Reader → StringRead
  fault : StringRead

-- `len >= 0` fails for the upper half of the bit patterns of a signed type.
abbrev pub is_negative : IntType → ℕ → Bool
is_negative IntType.int8 v = leb (2 ^ 7) v
is_negative IntType.int16 v = leb (2 ^ 15) v
is_negative IntType.int32 v = leb (2 ^ 31) v
is_negative IntType.int64 v = leb (2 ^ 63) v
is_negative _ v = false

-- The body of `ReadString<StringLenType>` once the length is read. `append` copies `len` bytes
-- from `&buf_[pos_]`: it throws or reads out of bounds if there are fewer. For no bytes at the end of
-- the stream the address just behind the last byte is taken as usable, as it is for the strings
-- of every common library, although `operator[]` of `std::string_view` does not promise it.
unfoldable pub read_payload : ℕ → Reader → StringRead
read_payload len r =
    let final_pos = (r.pos + len) % 2 ^ 64 in
    if leb final_pos (length r.buf)
    then (if leb (r.pos + len) (length r.buf)
        then done (slice r.buf r.pos len) (record r { pos = final_pos })
        else fault)
    else failed r

module _ (p : Platform) (e : Endian) (t : IntType) where
  -- `ReadInteger`; `none` is the result `false`.
  unfoldable pub read_integer : Reader → Option ℕ × Reader
  read_integer r =
      let final_pos = (r.pos + size_of t) % 2 ^ 64 in
      if leb final_pos (length r.buf)
      then (some (decoded p e t (slice r.buf r.pos (size_of t))), record r { pos = final_pos })
      else (none, r)

  after_length : Option ℕ × Reader → StringRead
  after_length (none, r) = failed r
  after_length (some len, r) = if is_negative t len then failed r else read_payload len r

  -- `ReadString<StringLenType>`
  unfoldable pub read_sized_string : Reader → StringRead
  unfolding after_length
  read_sized_string r = after_length (read_integer r)

-- `ReadString(std::string&)`: the bytes that are left.
unfoldable pub read_string : Reader → List ℕ × Reader
read_string r = (slice r.buf r.pos (length r.buf - r.pos), record r { pos = length r.buf })

-- `RemainingData`; `none` is the null pointer, and a pointer stands for the bytes from it on.
unfoldable pub remaining_data : Reader → Option (List ℕ)
remaining_data r = if ltb r.pos (length r.buf) then some (drop r.pos r.buf) else none

-- `RemainingLength`, a difference of `size_t`.
unfoldable pub remaining_length : Reader → ℕ
remaining_length r = (length r.buf + 2 ^ 64 - r.pos) % 2 ^ 64

-- `CurrentPosition`
unfoldable pub current_position : Reader → ℕ
current_position r = r.pos
