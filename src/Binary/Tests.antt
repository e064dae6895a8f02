-- ===== src/Binary/Tests.antt =====
-- Runs of the writer, the reader and the buffer, and their theorems at inputs.
use libant.Common.{ℕ, ◌≡◌, ◌∷◌, [], List, refl, arith, length, replicate, map, some, none}
use libant.Common.{◌⊎◌, ◌≤◌, ◌<◌, ◌+◌, slice, length-replicate}
use libant.Endian.{Endian, IntType, loaded}
use libant.Endian.{host_to_big_endian, little_endian_to_host, swap_32}
use libant.Endian.Samples.{pc, pc-IsPlatform}
use libant.Binary.Integer.{decoded, encoded}
use libant.Binary.Writer.{write_integer, write_sized_string, write_string}
use libant.Binary.Reader.{Reader, reader, fault, read_integer, read_sized_string}
use libant.Binary.Reader.Safe.{IsValid, IsRead, read_integer_lem, read_sized_string-IsRead}
use libant.Binary.Reader.Safe.{read_sized_string-fault}
use libant.Binary.Message.{Field, integer, text, shape, AreFields, write_fields, read_fields}
use libant.Binary.Message.{read_fields-write_fields, write_field}
use libant.Binary.Buffer.{create}
use libant.Binary.Buffer.Refine.{Op, front_integer, back_sized, Shows, run}
use libant.Binary.Buffer.Refine.{spec_all, create-run-Shows}
use mathlib.Core.Option

-- A length of 2^64 - 4 in front of four bytes.
abbrev huge : Reader
huge = reader (252 ∷ 255 ∷ 255 ∷ 255 ∷ 255 ∷ 255 ∷ 255 ∷ 255 ∷ 1 ∷ 2 ∷ 3 ∷ 4 ∷ [])

abbrev short_text : Reader
short_text = reader (2 ∷ 0 ∷ 104 ∷ 105 ∷ [])

abbrev message : List Field
message =
    integer IntType.int32 0xfffffffe
    ∷ text IntType.uint16 (104 ∷ 105 ∷ [])
    ∷ integer IntType.uint8 7
    ∷ []

abbrev calls : List Op
calls = back_sized IntType.uint16 (104 ∷ 105 ∷ []) ∷ front_integer IntType.uint32 258 ∷ []

abbrev zeros : ℕ → List ℕ
zeros n = replicate n 0

huge-IsValid : IsValid huge
huge-IsValid = omega arith

short_text-IsValid : IsValid short_text
short_text-IsValid = omega arith

message-AreFields : AreFields message
message-AreFields = (omega arith, ((omega arith, refl), (omega arith, tt)))

read_integer_lem_example :
    ((0 + 8 ≤ 12)
      × (read_integer pc Endian.big_endian IntType.uint64 huge
          ≡ (some (loaded Endian.big_endian (slice huge.buf 0 8)), record huge { pos = 0 + 8 })))
    ⊎ ((12 < 0 + 8) × (read_integer pc Endian.big_endian IntType.uint64 huge ≡ (none, huge)))
read_integer_lem_example =
    read_integer_lem pc pc-IsPlatform Endian.big_endian IntType.uint64 {r = huge} huge-IsValid
      (omega arith)

read_sized_string-IsRead_example :
    IsRead IntType.uint16 short_text 2
      (loaded Endian.little_endian (slice short_text.buf 0 2))
      (read_sized_string pc Endian.little_endian IntType.uint16 short_text)
read_sized_string-IsRead_example =
    read_sized_string-IsRead pc pc-IsPlatform Endian.little_endian IntType.uint16 {r = short_text}
      (λ e. cc) short_text-IsValid (omega arith)

read_sized_string-fault_example :
    read_sized_string pc Endian.little_endian IntType.uint64 huge ≡ fault
unfolding decoded little_endian_to_host
read_sized_string-fault_example =
    read_sized_string-fault pc Endian.little_endian {r = huge} huge-IsValid (omega arith)
      (omega arith) (omega arith)

read_fields-write_fields_example :
    read_fields pc Endian.big_endian
      (map shape message)
      (reader (write_fields pc Endian.big_endian message []))
    ≡ some (
      message,
      record {
        buf = write_fields pc Endian.big_endian message [];
        pos = length (write_fields pc Endian.big_endian message []);
      },
    )
unfolding write_fields write_field write_integer write_sized_string write_string encoded
    host_to_big_endian swap_32
read_fields-write_fields_example =
    read_fields-write_fields pc pc-IsPlatform Endian.big_endian message message-AreFields
      (omega arith)

create-run-Shows_example :
    Shows
      (Option.bind (create zeros 128 20) (run pc Endian.little_endian zeros calls))
      (spec_all Endian.little_endian calls [])
create-run-Shows_example =
    create-run-Shows pc pc-IsPlatform Endian.little_endian zeros (λ n. length-replicate n 0) 128 20
      calls (omega arith) (omega arith) (omega arith) (omega arith)
