-- ===== src/Crypto/Xxtea/Cipher.antt =====
-- The part of xxtea.h that turns strings into arrays of words and back.
use libant.Common.{ℕ, zero, suc, ◌+◌, ◌-◌, ◌*◌, ◌/◌, ◌%◌, ◌^◌, ltb, leb, ◌==◌, ◌&&◌}
use libant.Common.{if◌then◌else◌, Bool, true, false, List, [], ◌∷◌, ◌++◌, length, get_or, set}
use libant.Common.{take, drop, replicate, Option}
use libant.Endian.{Endian, stored, loaded}
use libant.Crypto.Xxtea.{encrypt, decrypt, sub32}
use mathlib.Core.Option

-- `reinterpret_cast<uint32_t*>`: the first `n` words of the bytes, and the bytes of words.
module _ (e : Endian) where
  abbrev pub words : ℕ → List ℕ → List ℕ
  words zero bs = []
  words (suc n) bs = loaded e (take 4 bs) ∷ words n (drop 4 bs)

  abbrev pub unwords : List ℕ → List ℕ
  unwords [] = []
  unwords (w ∷ ws) = stored e 4 w ++ unwords ws

-- `std::string::resize`
abbrev pub resize : ℕ → List ℕ → List ℕ
resize n s = if leb n (length s) then take n s else (s ++ replicate (n - length s) 0)

-- The check of the decrypted length and the cut; the result of the call and `inOut`.
unfoldable pub check_length : ℕ → ℕ → List ℕ → Bool × List ℕ
check_length data_len decrypted_len s =
    if leb decrypted_len (sub32 data_len 4) && leb (sub32 data_len 7) decrypted_len
    then (true, resize decrypted_len s)
    else (false, s)

module _ (e : Endian) where
  -- The constructor from a string: the first 16 bytes, filled up with zeros.
  unfoldable pub key_of_string : List ℕ → List ℕ
  key_of_string key =
      if ltb (length key) 16
      then words e 4 (key ++ replicate (16 - length key) 0)
      else words e 4 (take 16 key)

  -- The string after its first words have been overwritten in place.
  abbrev pub overwritten : List ℕ → List ℕ → List ℕ
  overwritten ws s = unwords e ws ++ drop (4 * length ws) s

  -- The length is put into the last word before the array is encrypted.
  unfoldable pub encrypt_sized : List ℕ → ℕ → ℕ → List ℕ → Option (List ℕ)
  encrypt_sized key in_len len_idx s =
      Option.map (λ ws. overwritten ws s)
        (encrypt key (set (words e (len_idx + 1) s) len_idx in_len) (len_idx + 1))

  -- `FastEncrypt`, and `Encrypt` on a copy.
  unfoldable pub fast_encrypt : List ℕ → List ℕ → Option (List ℕ)
  fast_encrypt key in_out =
      let in_len = length in_out % 2 ^ 32 in
      let remainder = in_len % 4 in
      if remainder == 0
      then encrypt_sized key in_len (in_len / 4) (resize (length in_out + 4) in_out)
      else encrypt_sized key in_len ((in_len + 4 - remainder) % 2 ^ 32 / 4)
          (resize (length in_out + 8 - remainder) in_out)

  -- The array is decrypted in place; its last word is the length.
  unfoldable pub decrypt_sized : List ℕ → ℕ → ℕ → List ℕ → Option (Bool × List ℕ)
  decrypt_sized key data_len data_num s =
      Option.map (λ ws. check_length data_len (get_or ws (data_num - 1) 0) (overwritten ws s))
        (decrypt key (words e data_num s) data_num)

  -- `FastDecrypt`, and `Decrypt` on a copy. `none` is a division by zero.
  unfoldable pub fast_decrypt : List ℕ → List ℕ → Option (Bool × List ℕ)
  fast_decrypt key in_out =
      let data_len = length in_out % 2 ^ 32 in decrypt_sized key data_len (data_len / 4) in_out
