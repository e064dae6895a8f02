-- ===== src/Binary/Writer.antt =====
-- BinaryWriter (binary_writer.h): `buf_` is the string that it writes to.
use libant.Common.{ℕ, ◌%◌, ◌≡◌, refl, sym, ap, ◌∙◌}
use libant.Common.{List, [], ◌++◌, length, replicate, append-nil, append_assoc, length-replicate}
use libant.Common.{store_at, store_at-append}
use libant.Endian.{Endian, IntType, size_of, modulus, Platform}
use libant.Binary.Integer.{encoded, length-encoded}

-- `std::string::resize` to a larger size: the new bytes are zero.
abbrev pub grown : List ℕ → ℕ → List ℕ
grown buf n = buf ++ replicate n 0

module _ (p : Platform) (e : Endian) where
  -- `WriteInteger`
  unfoldable pub write_integer : IntType → ℕ → List ℕ → List ℕ
  write_integer t v buf = store_at (grown buf (size_of t)) (length buf) (encoded p e t v)

  -- `WriteString(const std::string&)` and `WriteString(const void*, size_t)`
  unfoldable pub write_string : List ℕ → List ℕ → List ℕ
  write_string s buf = buf ++ s

  -- `WriteString<StringLenType>`
  unfoldable pub write_sized_string : IntType → List ℕ → List ℕ → List ℕ
  write_sized_string t s buf = write_string s (write_integer t (length s % modulus t) buf)

-- `Append`: `n` bytes that the caller is to fill.
unfoldable pub append : ℕ → List ℕ → List ℕ
append n buf = grown buf n

-- `WriteInteger` adds the bytes of the integer behind what the stream holds.
pub write_integer_lem :
    (p : Platform) (e : Endian) (t : IntType) (v : ℕ) (buf : List ℕ)
    → write_integer p e t v buf ≡ buf ++ encoded p e t v
unfolding write_integer
write_integer_lem p e t v buf =
    ap (λ (zeros : List ℕ). store_at (buf ++ zeros) (length buf) (encoded p e t v))
      (sym (append-nil (replicate (size_of t) 0)))
    ∙ store_at-append buf (replicate (size_of t) 0) (encoded p e t v) [] (length buf) refl
        (length-replicate (size_of t) 0 ∙ sym (length-encoded p e t v))
    ∙ ap (λ (bs : List ℕ). buf ++ bs) (append-nil (encoded p e t v))

pub write_sized_string_lem :
    (p : Platform) (e : Endian) (t : IntType) (s buf : List ℕ)
    → write_sized_string p e t s buf ≡ buf ++ (encoded p e t (length s % modulus t) ++ s)
unfolding write_sized_string write_string
write_sized_string_lem p e t s buf =
    ap (λ (b : List ℕ). b ++ s) (write_integer_lem p e t (length s % modulus t) buf)
    ∙ append_assoc buf (encoded p e t (length s % modulus t)) s
