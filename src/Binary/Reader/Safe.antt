-- ===== src/Binary/Reader/Safe.antt =====
-- What the reads of BinaryReader give, and that a reader stays inside of its stream.
use libant.Common.{ℕ, ◌+◌, ◌-◌, ◌*◌, ◌^◌, ◌<◌, ◌≤◌, ◌≡◌, ◌≢◌, refl, sym, ap, ◌∙◌, arith}
use libant.Common.{
  List, ◌++◌, append_assoc, length-append, slice-append, length, slice, drop, none, some,
  length-take, length-drop,
}
use libant.Common.{◌⊎◌, ◌↔◌, inl, inr, Bool, true, false}
use libant.Endian.{Endian, IntType, size_of, modulus, loaded, Platform, IsPlatform}
use libant.Endian.Bytes.{IsBytes, take-IsBytes, drop-IsBytes}
use native.Mathlib.Decide.{dec_le}
use libant.Binary.Integer.{decoded, decoded_lem, loaded-modulus}
use libant.Binary.Reader.{Reader, StringRead, done, failed, fault, is_negative}
use libant.Binary.Reader.{read_integer, read_payload, after_length, read_sized_string}
use libant.Binary.Reader.{read_string, remaining_length, remaining_data, current_position}

-- The position is in the stream, and the stream fits in the address space.
pub record IsValid (r : Reader) : Type 0 where
  pub inside : r.pos ≤ length r.buf
  pub small : length r.buf < 2 ^ 63

size_of_bounds : (t : IntType) → size_of t ≤ 8
size_of_bounds IntType.int8 = omega arith
size_of_bounds IntType.uint8 = omega arith
size_of_bounds IntType.int16 = omega arith
size_of_bounds IntType.uint16 = omega arith
size_of_bounds IntType.int32 = omega arith
size_of_bounds IntType.uint32 = omega arith
size_of_bounds IntType.int64 = omega arith
size_of_bounds IntType.uint64 = omega arith

length-slice : (xs : List ℕ) (i n : ℕ) → i + n ≤ length xs → length (slice xs i n) ≡ n
length-slice xs i n h = omega (arith, length-take n (drop i xs), length-drop i xs)

read_integer_cases :
    (p : Platform) (e : Endian) (t : IntType) {r : Reader}
    → IsValid r
    → ((r.pos + size_of t ≤ length r.buf)
        × (read_integer p e t r ≡ (
          some (decoded p e t (slice r.buf r.pos (size_of t))),
          record r { pos = r.pos + size_of t },
        )))
      ⊎ ((length r.buf < r.pos + size_of t) × (read_integer p e t r ≡ (none, r)))
unfolding read_integer
read_integer_cases p e t {r} v = ground (arith, size_of_bounds t)

-- The types with a sign.
abbrev pub signed : IntType → Bool
signed IntType.int8 = true
signed IntType.int16 = true
signed IntType.int32 = true
signed IntType.int64 = true
signed _ = false

-- A value is negative if its type has a sign and it is in the upper half of the bit patterns.
abbrev pub IsNegative : IntType → ℕ → Type 0
IsNegative t len = (signed t ≡ true) × (modulus t ≤ 2 * len)

abbrev pub IsPositive : IntType → ℕ → Type 0
IsPositive t len = (signed t ≡ false) ⊎ (2 * len < modulus t)

is_negative-IsNegative :
    (t : IntType) (len : ℕ)
    → ((is_negative t len ≡ true) × IsNegative t len)
      ⊎ ((is_negative t len ≡ false) × IsPositive t len)
is_negative-IsNegative IntType.int8 len = ground arith
is_negative-IsNegative IntType.uint8 len = inr (refl, inl refl)
is_negative-IsNegative IntType.int16 len = ground arith
is_negative-IsNegative IntType.uint16 len = inr (refl, inl refl)
is_negative-IsNegative IntType.int32 len = ground arith
is_negative-IsNegative IntType.uint32 len = inr (refl, inl refl)
is_negative-IsNegative IntType.int64 len = ground arith
is_negative-IsNegative IntType.uint64 len = inr (refl, inl refl)

length_small :
    (t : IntType) (len : ℕ)
    → t ≢ IntType.uint64
    → len < modulus t
    → is_negative t len ≡ false
    → len < 2 ^ 63
length_small IntType.int8 len ne h s = omega arith
length_small IntType.uint8 len ne h s = omega arith
length_small IntType.int16 len ne h s = omega arith
length_small IntType.uint16 len ne h s = omega arith
length_small IntType.int32 len ne h s = omega arith
length_small IntType.uint32 len ne h s = omega arith
length_small IntType.int64 len ne h s = ground arith
length_small IntType.uint64 len ne h s = absurd (ne refl)

payload-done :
    (len : ℕ) (r : Reader)
    → length r.buf < 2 ^ 63
    → r.pos + len ≤ length r.buf
    → read_payload len r ≡ done (slice r.buf r.pos len) (record r { pos = r.pos + len })
unfolding read_payload
payload-done len r small h = ground arith

payload-failed :
    (len : ℕ) (r : Reader)
    → r.pos + len < 2 ^ 64
    → length r.buf < r.pos + len
    → read_payload len r ≡ failed r
unfolding read_payload
payload-failed len r small h = ground arith

-- The four outcomes of `ReadString<StringLenType>` on `r`, where `n` is the size of the length and
-- `len` the length.
abbrev pub IsRead : IntType → Reader → ℕ → ℕ → StringRead → Type 0
IsRead t r n len result =
    ((length r.buf < r.pos + n) × (result ≡ failed r))
    ⊎ (((r.pos + n ≤ length r.buf)
          × IsNegative t len
          × (result ≡ failed (record r { pos = r.pos + n })))
        ⊎ (((r.pos + n ≤ length r.buf)
              × (length r.buf < r.pos + n + len)
              × (result ≡ failed (record r { pos = r.pos + n })))
            ⊎ ((r.pos + n + len ≤ length r.buf)
                × IsPositive t len
                × (result
                    ≡ done (slice r.buf (r.pos + n) len) (record r { pos = r.pos + n + len })))))

module _ (p : Platform) (q : IsPlatform p) (e : Endian) (t : IntType) where
  value-loaded :
      (xs : List ℕ) (i : ℕ)
      → IsBytes xs
      → i + size_of t ≤ length xs
      → (decoded p e t (slice xs i (size_of t)) ≡ loaded e (slice xs i (size_of t)))
        × (loaded e (slice xs i (size_of t)) < modulus t)
  value-loaded xs i h fits =
      let l = length-slice xs i (size_of t) fits in
      let bytes = take-IsBytes (size_of t) (drop i xs) (drop-IsBytes i xs h) in
      (
        decoded_lem p q e t (slice xs i (size_of t)) l bytes,
        loaded-modulus e t (slice xs i (size_of t)) l bytes,
      )

  -- `ReadInteger` on a stream of bytes succeeds exactly when the bytes of the type are there. It
  -- then gives the number that they spell in the byte order of the stream, whatever the order of
  -- the system, and takes them; otherwise it leaves the reader as it was.
  pub read_integer_lem :
      {r : Reader}
      → IsValid r
      → IsBytes r.buf
      → ((r.pos + size_of t ≤ length r.buf)
          × (read_integer p e t r ≡ (
            some (loaded e (slice r.buf r.pos (size_of t))),
            record r { pos = r.pos + size_of t },
          )))
        ⊎ ((length r.buf < r.pos + size_of t) × (read_integer p e t r ≡ (none, r)))
  read_integer_lem {r} v h = elim (read_integer_cases p e t v) [
    | inl (fits, eq) ↦ inl (
      fits,
      eq
          ∙ ap (λ n. (some n, let r' : Reader = record r { pos = r.pos + size_of t } in r'))
              (value-loaded r.buf r.pos h fits).0,
    )
    | inr short ↦ inr short
  ]

  after-IsRead :
      (len : ℕ) {r : Reader}
      → t ≢ IntType.uint64
      → IsValid r
      → r.pos + size_of t ≤ length r.buf
      → len < modulus t
      → IsRead t r
          (size_of t)
          len
          (after_length p e t (some len, record r { pos = r.pos + size_of t }))
  unfolding after_length
  after-IsRead len {r} ne v h small = elim (is_negative-IsNegative t len) [
    | inl (minus, below) ↦ rw minus (inr (inl (h, below, refl)))
    | inr (plus, above) ↦ elim (dec_le (r.pos + size_of t + len) (length r.buf)) [
      | yes fits ↦ rw plus (inr (inr (inr (fits, above, payload-done len r' v.small fits))))
      | no past ↦
          let narrow = length_small t len ne small plus in
          rw plus
            (inr (inr (inl (h, omega arith, payload-failed len r' (omega arith) (omega arith)))))
    ]
  ]
    where
      r' : Reader
      r' = record r { pos = r.pos + size_of t }

  -- Reading a string with its length in front, for every length type but `uint64_t`, on a stream of
  -- bytes. With `len` the number that the bytes of the length spell in the byte order of the
  -- stream: if these bytes are not all there, the call fails and does not move; if `len` is
  -- negative or more than what is left behind them, the call fails behind them; otherwise it gives
  -- exactly the `len` bytes behind them and moves behind these. It never faults.
  pub read_sized_string-IsRead :
      {r : Reader}
      → t ≢ IntType.uint64
      → IsValid r
      → IsBytes r.buf
      → IsRead t r
          (size_of t)
          (loaded e (slice r.buf r.pos (size_of t)))
          (read_sized_string p e t r)
  unfolding read_sized_string
  read_sized_string-IsRead {r} ne v h = elim (read_integer_lem v h) [
    | inl (fits, eq) ↦ rw eq (
        after-IsRead (loaded e (slice r.buf r.pos (size_of t))) ne v fits
          (value-loaded r.buf r.pos h fits).1)
    | inr (short, eq) ↦ rw eq (inl (short, refl))
  ]

-- With a length of type `uint64_t` the sum of position and length can wrap round: whenever it
-- reaches 2^64 after the eight bytes of the length, the bound check passes and the call faults.
pub read_sized_string-fault :
    (p : Platform) (e : Endian) {r : Reader}
    → IsValid r
    → r.pos + 8 ≤ length r.buf
    → decoded p e IntType.uint64 (slice r.buf r.pos 8) < 2 ^ 64
    → 2 ^ 64 ≤ r.pos + 8 + decoded p e IntType.uint64 (slice r.buf r.pos 8)
    → read_sized_string p e IntType.uint64 r ≡ fault
unfolding read_sized_string read_integer read_payload
read_sized_string-fault p e {r} v h small wraps = ground arith

-- The accessors agree: position and remaining length make up the stream, `ReadString` without a
-- length takes exactly the remaining bytes and leaves none, and `RemainingData` is null exactly
-- when no byte is left.
remaining_lem :
    {r : Reader}
    → IsValid r
    → (current_position r + remaining_length r ≡ length r.buf)
      × (length (read_string r).0 ≡ remaining_length r)
      × (remaining_length (read_string r).1 ≡ 0)
      × ((remaining_data r ≡ none) ↔ (remaining_length r ≡ 0))
unfolding current_position remaining_length read_string remaining_data
remaining_lem {r} v = (
  omega arith,
  omega (arith, length-slice r.buf r.pos (length r.buf - r.pos) (omega arith)),
  omega arith,
  ground arith,
)

-- What the reads give at a position from where the stream is known.
module _ (p : Platform) (e : Endian) (t : IntType) (front : List ℕ) where
  pub read_integer-append :
      (bs rest : List ℕ)
      → length bs ≡ size_of t
      → length (front ++ (bs ++ rest)) < 2 ^ 63
      → read_integer p e t (record { buf = front ++ (bs ++ rest); pos = length front }) ≡ (
        some (decoded p e t bs),
        record { buf = front ++ (bs ++ rest); pos = length front + size_of t },
      )
  unfolding read_integer
  read_integer-append bs rest l h =
      rw (slice-append front bs rest (length front) (size_of t) refl l)
        (ground (arith, length-append front (bs ++ rest), length-append bs rest))

  pub read_sized_string-append :
      (bs s rest : List ℕ)
      → length bs ≡ size_of t
      → decoded p e t bs ≡ length s
      → is_negative t (length s) ≡ false
      → length (front ++ (bs ++ (s ++ rest))) < 2 ^ 63
      → read_sized_string p e t (record { buf = front ++ (bs ++ (s ++ rest)); pos = length front })
        ≡ done s (record {
          buf = front ++ (bs ++ (s ++ rest));
          pos = length front + size_of t + length s;
        })
  unfolding read_sized_string after_length
  read_sized_string-append bs s rest l value positive h =
      rw (read_integer-append bs (s ++ rest) l h, value, positive)
        (payload-done (length s) (record { buf = stream; pos = length front + size_of t }) h
            (omega (arith, lengths))
          ∙ ap (λ w. done w (record { buf = stream; pos = length front + size_of t + length s }))
              payload)
    where
      stream : List ℕ
      stream = front ++ (bs ++ (s ++ rest))

      lengths : length stream ≡ length front + (size_of t + (length s + length rest))
      lengths = omega (
        arith,
        l,
        length-append front (bs ++ (s ++ rest)),
        length-append bs (s ++ rest),
        length-append s rest,
      )

      payload : slice stream (length front + size_of t) (length s) ≡ s
      payload =
          ap (λ (b : List ℕ). slice b (length front + size_of t) (length s))
            (sym (append_assoc front bs (s ++ rest)))
          ∙ slice-append (front ++ bs) s rest (length front + size_of t) (length s)
              (omega (arith, l, length-append front bs)) refl
