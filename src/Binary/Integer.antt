-- ===== src/Binary/Integer.antt =====
-- The part that the classes share: an integer is converted to the byte order of the stream and
-- stored, or loaded and converted back.
use libant.Common.{ℕ, ◌<◌, ◌≡◌, ap, ◌∙◌, List, length}
use libant.Endian.{Endian, IntType, size_of, modulus, stored, loaded, Platform, IsPlatform}
use libant.Endian.{big_endian_to_host, host_to_big_endian}
use libant.Endian.{little_endian_to_host, host_to_little_endian}
use libant.Endian.Bytes.{le_bytes, be_bytes, IsBytes, length-le_bytes, length-be_bytes}
use libant.Endian.Bytes.{le_bytes-IsBytes, be_bytes-IsBytes, le_value-le_bytes, be_value-be_bytes}
use libant.Endian.Order.{
  length-stored, host_to_endian-stored, endian_to_host-loaded, modulus_lem, loaded-lt,
}

module _ (p : Platform) where
  -- `*reinterpret_cast<T*>(pos) = HostToLittleEndian(val)`, or to big endian: the bytes written.
  unfoldable pub encoded : Endian → IntType → ℕ → List ℕ
  encoded Endian.little_endian t v =
      stored p.system_endian (size_of t) (host_to_little_endian p t v)
  encoded Endian.big_endian t v = stored p.system_endian (size_of t) (host_to_big_endian p t v)

  -- `val = LittleEndianToHost(*reinterpret_cast<const T*>(pos))`, or from big endian.
  unfoldable pub decoded : Endian → IntType → List ℕ → ℕ
  decoded Endian.little_endian t bs = little_endian_to_host p t (loaded p.system_endian bs)
  decoded Endian.big_endian t bs = big_endian_to_host p t (loaded p.system_endian bs)

pub length-encoded :
    (p : Platform) (e : Endian) (t : IntType) (v : ℕ) → length (encoded p e t v) ≡ size_of t
unfolding encoded
length-encoded p Endian.little_endian t v = length-stored p.system_endian (size_of t) _
length-encoded p Endian.big_endian t v = length-stored p.system_endian (size_of t) _

module _ (p : Platform) (q : IsPlatform p) where
  -- The bytes in the stream do not depend on the system.
  pub encoded_lem :
      (e : Endian) (t : IntType) (v : ℕ) → v < modulus t → encoded p e t v ≡ stored e (size_of t) v
  unfolding encoded
  encoded_lem Endian.little_endian t v h = (host_to_endian-stored p q t v h).0
  encoded_lem Endian.big_endian t v h = (host_to_endian-stored p q t v h).1

  pub decoded-encoded :
      (e : Endian) (t : IntType) (v : ℕ) → v < modulus t → decoded p e t (encoded p e t v) ≡ v
  unfolding decoded
  decoded-encoded Endian.little_endian t v h =
      ap (λ bs. little_endian_to_host p t (loaded p.system_endian bs))
        (encoded_lem Endian.little_endian t v h)
      ∙ (endian_to_host-loaded p q t (le_bytes (size_of t) v) (length-le_bytes (size_of t) v)
          (le_bytes-IsBytes (size_of t) v)).0
      ∙ le_value-le_bytes (size_of t) v (rw (← modulus_lem t) h)
  decoded-encoded Endian.big_endian t v h =
      ap (λ bs. big_endian_to_host p t (loaded p.system_endian bs))
        (encoded_lem Endian.big_endian t v h)
      ∙ (endian_to_host-loaded p q t (be_bytes (size_of t) v) (length-be_bytes (size_of t) v)
          (be_bytes-IsBytes (size_of t) v)).1
      ∙ be_value-be_bytes (size_of t) v (rw (← modulus_lem t) h)

  -- What is decoded is the number that the bytes spell in the order of the stream.
  pub decoded_lem :
      (e : Endian) (t : IntType) (bs : List ℕ)
      → length bs ≡ size_of t
      → IsBytes bs
      → decoded p e t bs ≡ loaded e bs
  unfolding decoded
  decoded_lem Endian.little_endian t bs l h = (endian_to_host-loaded p q t bs l h).0
  decoded_lem Endian.big_endian t bs l h = (endian_to_host-loaded p q t bs l h).1

-- What bytes spell is a value of the type.
pub loaded-modulus :
    (e : Endian) (t : IntType) (bs : List ℕ)
    → length bs ≡ size_of t
    → IsBytes bs
    → loaded e bs < modulus t
loaded-modulus e t bs l h = rw (modulus_lem t, ← l) (loaded-lt e bs h)
