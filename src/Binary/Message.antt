-- ===== src/Binary/Message.antt =====
-- A writer and a reader of one byte order together: a message of integers and of strings with
-- their length in front.
use libant.Common.{ℕ, ◌+◌, ◌%◌, ◌^◌, ◌<◌, ◌≡◌, sym, ap, ◌∙◌, arith, false, map}
use libant.Common.{List, [], ◌∷◌, ◌++◌, length, append-nil, append_assoc, length-append}
use libant.Common.{Option, none, some}
use native.Mathlib.Nat.{mod-eq_of_lt}
use mathlib.Core.Option
use libant.Endian.{Endian, IntType, size_of, modulus, Platform, IsPlatform}
use libant.Binary.Integer.{encoded, decoded, decoded-encoded, length-encoded}
use libant.Binary.Writer.{write_integer, write_sized_string, write_integer_lem}
use libant.Binary.Writer.{write_sized_string_lem}
use libant.Binary.Reader.{Reader, reader, StringRead, done, is_negative}
use libant.Binary.Reader.{read_integer, read_sized_string}
use libant.Binary.Reader.Safe.{read_integer-append, read_sized_string-append}

pub data Field : Type 0 where
  integer : IntType → ℕ → Field
  text : IntType → List ℕ → Field

pub data Shape : Type 0 where
  integer_of : IntType → Shape
  text_of : IntType → Shape

abbrev pub shape : Field → Shape
shape (integer t v) = integer_of t
shape (text t s) = text_of t

-- The value fits its type; the length of a string fits the type of the length and is not negative.
abbrev pub IsField : Field → Type 0
IsField (integer t v) = v < modulus t
IsField (text t s) = (length s < modulus t) × (is_negative t (length s) ≡ false)

abbrev pub AreFields : List Field → Type 0
AreFields [] = Unit
AreFields (f ∷ fs) = IsField f × AreFields fs

abbrev cons_field : Field → List Field × Reader → List Field × Reader
cons_field f (fs, r) = (f ∷ fs, r)

module _ (p : Platform) (e : Endian) where
  unfoldable pub write_field : Field → List ℕ → List ℕ
  write_field (integer t v) buf = write_integer p e t v buf
  write_field (text t s) buf = write_sized_string p e t s buf

  unfoldable pub write_fields : List Field → List ℕ → List ℕ
  write_fields [] buf = buf
  write_fields (f ∷ fs) buf = write_fields fs (write_field f buf)

  unfoldable pub got_integer : IntType → Option ℕ × Reader → Option (Field × Reader)
  got_integer t (none, r) = none
  got_integer t (some v, r) = some (integer t v, r)

  unfoldable pub got_text : IntType → StringRead → Option (Field × Reader)
  got_text t (done s r) = some (text t s, r)
  got_text t _ = none

  unfoldable pub read_field : Shape → Reader → Option (Field × Reader)
  read_field (integer_of t) r = got_integer t (read_integer p e t r)
  read_field (text_of t) r = got_text t (read_sized_string p e t r)

  unfoldable pub read_fields : List Shape → Reader → Option (List Field × Reader)
  read_fields [] r = some ([], r)
  read_fields (s ∷ ss) r = elim (read_field s r) [
    | none ↦ none
    | some (f, r') ↦ Option.map (cons_field f) (read_fields ss r')
  ]

  read_fields_step :
      (s : Shape) (ss : List Shape) (r : Reader) {r' : Reader} {f : Field}
      → read_field s r ≡ some (f, r')
      → read_fields (s ∷ ss) r ≡ Option.map (cons_field f) (read_fields ss r')
  unfolding read_fields
  read_fields_step s ss r h = rw (h, read_fields)

  -- The bytes that a field takes in the stream.
  bytes_of : Field → List ℕ
  bytes_of (integer t v) = encoded p e t v
  bytes_of (text t s) = encoded p e t (length s % modulus t) ++ s

  write_field_lem : (f : Field) (buf : List ℕ) → write_field f buf ≡ buf ++ bytes_of f
  unfolding write_field bytes_of
  write_field_lem (integer t v) buf = write_integer_lem p e t v buf
  write_field_lem (text t s) buf = write_sized_string_lem p e t s buf

  bytes_of_fields : List Field → List ℕ
  bytes_of_fields [] = []
  bytes_of_fields (f ∷ fs) = bytes_of f ++ bytes_of_fields fs

  write_fields_lem :
      (fs : List Field) (buf : List ℕ) → write_fields fs buf ≡ buf ++ bytes_of_fields fs
  unfolding write_fields bytes_of_fields
  write_fields_lem [] buf = sym (append-nil buf)
  write_fields_lem (f ∷ fs) buf =
      write_fields_lem fs (write_field f buf)
      ∙ ap (λ (b : List ℕ). b ++ bytes_of_fields fs) (write_field_lem f buf)
      ∙ append_assoc buf (bytes_of f) (bytes_of_fields fs)

abbrev at : List ℕ → List ℕ → Reader
at front rest = record { buf = front ++ rest; pos = length front }

module _ (p : Platform) (q : IsPlatform p) (e : Endian) where
  read_field-append :
      (f : Field) (front rest : List ℕ)
      → IsField f
      → length (front ++ (bytes_of p e f ++ rest)) < 2 ^ 63
      → read_field p e (shape f) (at front (bytes_of p e f ++ rest))
        ≡ some (
          f,
          record {
            buf = front ++ (bytes_of p e f ++ rest);
            pos = length front + length (bytes_of p e f);
          },
        )
  unfolding read_field bytes_of got_integer got_text
  read_field-append (integer t v) front rest h small = rw (
    read_integer-append p e t front (encoded p e t v) rest (length-encoded p e t v) small,
    decoded-encoded p q e t v h,
    length-encoded p e t v,
  )
  read_field-append (text t s) front rest (fits, positive) small =
      rw
        (
          regroup,
          read_sized_string-append p e t front bs s rest sized value positive
              (rw (← regroup) small),
        )
        (ap (λ n. some (text t s, record { buf = front ++ (bs ++ (s ++ rest)); pos = n })) ends)
    where
      bs : List ℕ
      bs = encoded p e t (length s % modulus t)

      regroup : bs ++ s ++ rest ≡ bs ++ (s ++ rest)
      regroup = append_assoc bs s rest

      sized : length bs ≡ size_of t
      sized = length-encoded p e t (length s % modulus t)

      value : decoded p e t bs ≡ length s
      value = rw (mod-eq_of_lt fits) (decoded-encoded p q e t (length s) fits)

      ends : length front + size_of t + length s ≡ length front + length (bs ++ s)
      ends = omega (arith, sized, length-append bs s)

  read_fields-append :
      (fs : List Field) (front : List ℕ)
      → AreFields fs
      → length (front ++ bytes_of_fields p e fs) < 2 ^ 63
      → read_fields p e (map shape fs) (at front (bytes_of_fields p e fs))
        ≡ some (fs, at (front ++ bytes_of_fields p e fs) [])
  unfolding read_fields bytes_of_fields
  read_fields-append [] front h small = simp append-nil
  read_fields-append (f ∷ fs) front (hf, hs) small =
      read_fields_step p e (shape f) (map shape fs) (at front (bs ++ rest))
        (read_field-append f front rest hf small)
      ∙ ap (λ r. Option.map (cons_field f) (read_fields p e (map shape fs) r)) arrives
      ∙ ap (Option.map (cons_field f))
          (read_fields-append fs (front ++ bs) hs (rw (append_assoc front bs rest) small))
      ∙ ap (λ (b : List ℕ). some (f ∷ fs, at b [])) (append_assoc front bs rest)
    where
      bs : List ℕ
      bs = bytes_of p e f

      rest : List ℕ
      rest = bytes_of_fields p e fs

      arrives :
          ◌≡◌ {A = Reader}
            (record { buf = front ++ (bs ++ rest); pos = length front + length bs })
            (at (front ++ bs) rest)
      arrives = λ i. record {
        buf = sym (append_assoc front bs rest) i;
        pos = sym (length-append front bs) i;
      }

  -- Any message comes back: the fields that a writer puts into an empty stream are what a reader
  -- of the same byte order and types gets, on every system, and nothing is left over. Each value
  -- has to fit its type, each length of a string its length type, and the stream 2^63 bytes.
  pub read_fields-write_fields :
      (fs : List Field)
      → AreFields fs
      → length (write_fields p e fs []) < 2 ^ 63
      → read_fields p e (map shape fs) (reader (write_fields p e fs []))
        ≡ some (fs, record { buf = write_fields p e fs []; pos = length (write_fields p e fs []) })
  read_fields-write_fields fs h small = rw (whole) (
      read_fields-append fs [] h (rw whole at small)
      ∙ ap (λ (b : List ℕ). some (fs, record { buf = b; pos = length bytes })) (append-nil bytes))
    where
      bytes : List ℕ
      bytes = bytes_of_fields p e fs

      whole : write_fields p e fs [] ≡ bytes
      whole = write_fields_lem p e fs []
