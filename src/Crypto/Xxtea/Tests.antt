-- ===== src/Crypto/Xxtea/Tests.antt =====
-- The cipher at inputs.
use libant.Common.{
  ℕ, refl, ◌≡◌, ◌⊎◌, Bool, ◌<◌, ◌≤◌, ◌+◌, ◌%◌, ◌∷◌, [], List, length, arith, some, none, true,
  false,
}
use libant.Endian.{Endian}
use libant.Crypto.Xxtea.{encrypt, decrypt, encrypt_rounds, encrypt_pass, add_mx, mx}
use libant.Crypto.Xxtea.Round.{AreWords}
use libant.Crypto.Xxtea.Inverse.{decrypt-encrypt}
use libant.Crypto.Xxtea.Cipher.{fast_encrypt, fast_decrypt}
use libant.Crypto.Xxtea.Text.{fast_decrypt-fast_encrypt, fast_decrypt-none}
use libant.Crypto.Xxtea.Text.{fast_decrypt-empty}

abbrev key : List ℕ
key = 1 ∷ 2 ∷ 3 ∷ 4 ∷ []

abbrev hello : List ℕ
hello = 104 ∷ 101 ∷ 108 ∷ 108 ∷ 111 ∷ []

abbrev block : List ℕ
block = 7 ∷ 0xffffffff ∷ 12 ∷ []

decrypt-encrypt_example :
    (c : List ℕ) × (encrypt key block 3 ≡ some c)
    × (length c ≡ 3)
    × AreWords c
    × (decrypt key c 3 ≡ some block)
decrypt-encrypt_example = decrypt-encrypt key block 3 (omega arith) (omega arith) (omega arith)

fast_decrypt-fast_encrypt_example :
    (c : List ℕ) × (fast_encrypt Endian.little_endian key hello ≡ some c)
    × (length c % 4 ≡ 0)
    × (5 + 4 ≤ length c)
    × (length c ≤ 5 + 7)
    × (fast_decrypt Endian.little_endian key c ≡ some (true, hello))
fast_decrypt-fast_encrypt_example =
    fast_decrypt-fast_encrypt Endian.little_endian key hello (omega arith) (omega arith)
      (omega arith)

fast_decrypt-none_example :
    ((2 < 4) × (fast_decrypt Endian.big_endian key (1 ∷ 2 ∷ []) ≡ none))
    ⊎ ((ok : Bool) × (out : List ℕ) × (4 ≤ 2)
        × (fast_decrypt Endian.big_endian key (1 ∷ 2 ∷ []) ≡ some (ok, out)))
fast_decrypt-none_example = fast_decrypt-none Endian.big_endian key (1 ∷ 2 ∷ []) (omega arith)

fast_decrypt-empty_example :
    (c : List ℕ) × (fast_encrypt Endian.big_endian key [] ≡ some c)
    × (fast_decrypt Endian.big_endian key c ≡ some (false, c))
fast_decrypt-empty_example = fast_decrypt-empty Endian.big_endian key

-- A published test vector: the zero key and two zero words.
encrypt_zeros : encrypt (0 ∷ 0 ∷ 0 ∷ 0 ∷ []) (0 ∷ 0 ∷ []) 2 ≡ some (0x053704ab ∷ 0x575d8c80 ∷ [])
unfolding encrypt encrypt_rounds encrypt_pass add_mx mx
encrypt_zeros = refl
