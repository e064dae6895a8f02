-- ===== src/Endian/Samples.antt =====
-- Two systems: a little-endian one with byteswap.h, and a big-endian one without.
use libant.Common.{refl, true, false}
use libant.Endian.{Endian, Platform, IsPlatform}
use libant.Endian.Bytes.{le_bytes, be_bytes, le_value, be_value}

abbrev pub pc : Platform
pc = record {
  linux = true;
  system_endian = Endian.little_endian;
  bswap_16 = λ v. be_value (le_bytes 2 v);
  bswap_32 = λ v. be_value (le_bytes 4 v);
  bswap_64 = λ v. be_value (le_bytes 8 v);
  ntohs = λ v. be_value (le_bytes 2 v);
  htons = λ v. le_value (be_bytes 2 v);
}

pub pc-IsPlatform : IsPlatform pc
pc-IsPlatform = record {
  bswap_16_lem = λ v h. refl;
  bswap_32_lem = λ v h. refl;
  bswap_64_lem = λ v h. refl;
  ntohs_lem = λ v h. refl;
  htons_lem = λ v h. refl;
}

abbrev pub mainframe : Platform
mainframe = record {
  linux = false;
  system_endian = Endian.big_endian;
  bswap_16 = λ v. be_value (le_bytes 2 v);
  bswap_32 = λ v. be_value (le_bytes 4 v);
  bswap_64 = λ v. be_value (le_bytes 8 v);
  ntohs = λ v. be_value (be_bytes 2 v);
  htons = λ v. be_value (be_bytes 2 v);
}

pub mainframe-IsPlatform : IsPlatform mainframe
mainframe-IsPlatform = record {
  bswap_16_lem = λ v h. refl;
  bswap_32_lem = λ v h. refl;
  bswap_64_lem = λ v h. refl;
  ntohs_lem = λ v h. refl;
  htons_lem = λ v h. refl;
}
