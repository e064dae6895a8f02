-- ===== src/Endian/Tests.antt =====
-- Runs of the conversions, and their theorems at inputs.
use libant.Common.{◌≡◌, ◌∷◌, [], refl, arith}
use libant.Endian.{Endian, IntType, stored, loaded, ant_byte_swap_64}
use libant.Endian.{little_endian_to_host, big_endian_to_host}
use libant.Endian.{host_to_little_endian, host_to_big_endian}
use libant.Endian.Bytes.{le_bytes, be_bytes, le_value, be_value}
use libant.Endian.Order.{host_to_endian-stored, endian_to_host-loaded}
use libant.Endian.Samples.{mainframe, mainframe-IsPlatform}

swap_run : ant_byte_swap_64 0x0102030405060708 ≡ 0x0807060504030201
unfolding ant_byte_swap_64
swap_run = refl

host_to_endian-stored_example :
    (stored Endian.big_endian 4 (host_to_little_endian mainframe IntType.int32 0x01020304)
      ≡ le_bytes 4 0x01020304)
    × (stored Endian.big_endian 4 (host_to_big_endian mainframe IntType.int32 0x01020304)
        ≡ be_bytes 4 0x01020304)
host_to_endian-stored_example =
    host_to_endian-stored mainframe mainframe-IsPlatform IntType.int32 0x01020304 (omega arith)

endian_to_host-loaded_example :
    (little_endian_to_host mainframe IntType.uint16 (loaded Endian.big_endian (1 ∷ 2 ∷ []))
      ≡ le_value (1 ∷ 2 ∷ []))
    × (big_endian_to_host mainframe IntType.uint16 (loaded Endian.big_endian (1 ∷ 2 ∷ []))
        ≡ be_value (1 ∷ 2 ∷ []))
endian_to_host-loaded_example =
    endian_to_host-loaded mainframe mainframe-IsPlatform IntType.uint16 (1 ∷ 2 ∷ []) refl
      (omega arith)
