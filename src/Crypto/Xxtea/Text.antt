-- ===== src/Crypto/Xxtea/Text.antt =====
-- `FastDecrypt` after `FastEncrypt`.
use libant.Common.{
  ℕ, zero, suc, ◌+◌, ◌-◌, ◌*◌, ◌/◌, ◌%◌, ◌^◌, ◌<◌, ◌≤◌, ◌≡◌, refl, sym, ap, ◌∙◌, arith,
}
use libant.Common.{
  List, [], ◌∷◌, ◌++◌, length, set, get_or, take, drop, replicate, some, none, ◌⊎◌, inl, inr, Bool,
}
use libant.Common.{length-append, length-replicate, length-set, length-take, append-nil}
use libant.Common.{take-append, take-append-drop, true, false}
use mathlib.Core.Option
use native.Mathlib.Decide.{ℕ_discrete, dec_le}
use libant.Endian.{Endian, stored, loaded}
use libant.Endian.Bytes.{IsBytes, take-IsBytes}
use libant.Endian.Order.{stored-loaded}
use libant.Crypto.Xxtea.{encrypt, decrypt}
use libant.Crypto.Xxtea.Round.{AreWords, set-AreWords, get_or-set_self}
use libant.Crypto.Xxtea.Inverse.{decrypt-encrypt, decrypt-ends}
use libant.Crypto.Xxtea.Cipher.{words, unwords, resize, encrypt_sized, check_length, overwritten}
use libant.Crypto.Xxtea.Cipher.{decrypt_sized}
use libant.Crypto.Xxtea.Cipher.{fast_encrypt, fast_decrypt}
use libant.Crypto.Xxtea.Words.{length-words, length-unwords, words-AreWords, unwords-words}
use libant.Crypto.Xxtea.Words.{words-unwords, take-unwords-set}

drop_all {ℓ} : {A : Type ℓ} (n : ℕ) (xs : List A) → length xs ≤ n → drop n xs ≡ []
drop_all zero [] h = refl
drop_all zero (x ∷ xs) h = absurd (omega arith)
drop_all (suc n) [] h = refl
drop_all (suc n) (x ∷ xs) h = drop_all n xs (omega arith)

append-IsBytes : (xs ys : List ℕ) → IsBytes xs → IsBytes ys → IsBytes (xs ++ ys)
append-IsBytes [] ys hx hy = hy
append-IsBytes (x ∷ xs) ys hx hy = (hx.0, append-IsBytes xs ys hx.1 hy)

zeros-IsBytes : (n : ℕ) → IsBytes (replicate n 0)
zeros-IsBytes zero = tt
zeros-IsBytes (suc n) = (omega arith, zeros-IsBytes n)

check_length-true :
    (data_len len : ℕ) (s : List ℕ)
    → 7 ≤ data_len
    → data_len < 2 ^ 32
    → len + 4 ≤ data_len
    → data_len ≤ len + 7
    → len ≤ length s
    → check_length data_len len s ≡ (true, take len s)
unfolding check_length
check_length-true data_len len s h1 h2 h3 h4 h5 = ground arith

-- Filled up to whole words with its length behind it, the string comes back: `i` is `lenIdx`, and
-- `r` is the string after `resize`.
module _ (e : Endian) (key s r : List ℕ) (i : ℕ) (sized : length r ≡ 4 * (i + 1))
    (inside : length s ≤ 4 * i) (full : 4 * i ≤ length s + 3) (some_word : 1 ≤ i)
    (small : 4 * (i + 1) < 2 ^ 32) (bytes : IsBytes r) (prefix : take (length s) r ≡ s) where
  array : List ℕ
  array = set (words e (i + 1) r) i (length s)

  length-array : length array ≡ i + 1
  unfolding array
  length-array = length-set (words e (i + 1) r) i (length s) ∙ length-words e (i + 1) r

  array-AreWords : AreWords array
  unfolding array
  array-AreWords =
      set-AreWords (words e (i + 1) r) i (length s) (omega arith)
        (words-AreWords e (i + 1) r (omega arith) bytes)

  take-array : take (length s) (unwords e array) ≡ s
  unfolding array
  take-array =
      take-unwords-set e (length s) i (length s) (words e (i + 1) r)
        (omega (arith, length-words e (i + 1) r)) inside
      ∙ ap (take (length s)) (unwords-words e (i + 1) r sized bytes)
      ∙ prefix

  last-array : get_or array i 0 ≡ length s
  unfolding array
  last-array =
      get_or-set_self (words e (i + 1) r) i (length s) 0 (omega (arith, length-words e (i + 1) r))

  -- Overwriting all words leaves nothing of what was there.
  overwritten-all :
      (ws old : List ℕ)
      → length ws ≡ i + 1
      → length old ≡ 4 * (i + 1)
      → overwritten e ws old ≡ unwords e ws
  overwritten-all ws old hw ho =
      ap (λ (t : List ℕ). unwords e ws ++ t) (drop_all (4 * length ws) old (omega arith))
      ∙ append-nil (unwords e ws)

  decrypt_sized-array :
      (w c : List ℕ)
      → length w ≡ i + 1
      → AreWords w
      → c ≡ unwords e w
      → decrypt key w (i + 1) ≡ some array
      → decrypt_sized e key (4 * (i + 1)) (i + 1) c ≡ some (true, s)
  unfolding decrypt_sized
  decrypt_sized-array w c lw ww hc dec =
      rw (read, dec)
        (ap some (
          ap (λ k. check_length (4 * (i + 1)) (get_or array k 0) (overwritten e array c))
            (let k : i + 1 - 1 ≡ i = omega arith in k)
          ∙ ap (λ k. check_length (4 * (i + 1)) k (overwritten e array c)) last-array
          ∙ ap (check_length (4 * (i + 1)) (length s)) whole
          ∙ check_length-true (4 * (i + 1)) (length s) (unwords e array) (omega arith) small
              (omega arith) (omega arith) (omega (arith, length-unwords e array, length-array))
          ∙ ap (λ (t : List ℕ). (true, t)) take-array))
    where
      read : words e (i + 1) c ≡ w
      read =
          ap (words e (i + 1)) (hc ∙ sym (append-nil (unwords e w)))
          ∙ ap (λ k. words e k (unwords e w ++ [])) (sym lw)
          ∙ words-unwords e w [] ww

      whole : overwritten e array c ≡ unwords e array
      whole =
          overwritten-all array c length-array
            (ap length hc ∙ omega (arith, length-unwords e w, lw))

  sized-inverse :
      (c : List ℕ) × (encrypt_sized e key (length s) i r ≡ some c)
      × (length c ≡ 4 * (i + 1))
      × (fast_decrypt e key c ≡ some (true, s))
  unfolding encrypt_sized fast_decrypt array
  sized-inverse =
      let (w, enc, lw, ww, dec) =
        decrypt-encrypt key array (i + 1) (omega arith) (omega (arith, length-array))
          array-AreWords in
      let lw' : length w ≡ i + 1 = lw ∙ length-array in
      let hc = overwritten-all w r lw' sized in
      let lc : length (overwritten e w r) ≡ 4 * (i + 1) =
        ap length hc ∙ omega (arith, length-unwords e w, lw') in
      (
        overwritten e w r,
        ap (Option.map (λ ws. overwritten e ws r)) enc,
        lc,
        ap (λ k. decrypt_sized e key (k % 2 ^ 32) (k % 2 ^ 32 / 4) (overwritten e w r)) lc
            ∙ ap (λ k. decrypt_sized e key k (k / 4) (overwritten e w r))
                (let k : 4 * (i + 1) % 2 ^ 32 ≡ 4 * (i + 1) = omega arith in k)
            ∙ ap (λ k. decrypt_sized e key (4 * (i + 1)) k (overwritten e w r))
                (let k : 4 * (i + 1) / 4 ≡ i + 1 = omega arith in k)
            ∙ decrypt_sized-array w (overwritten e w r) lw' ww hc dec,
      )

resize_more : (n : ℕ) (s : List ℕ) → length s < n → resize n s ≡ s ++ replicate (n - length s) 0
resize_more n s h = ground arith

-- The array that `FastEncrypt` makes, as one case of the module above.
module _ (e : Endian) (key s : List ℕ) (pos : 0 < length s) (small : length s + 8 < 2 ^ 32)
    (bytes : IsBytes s) where
  padded-inverse :
      (i size : ℕ)
      → size ≡ 4 * (i + 1)
      → length s ≤ 4 * i
      → 4 * i ≤ length s + 3
      → (c : List ℕ) × (encrypt_sized e key (length s) i (resize size s) ≡ some c)
        × (length c ≡ 4 * (i + 1))
        × (fast_decrypt e key c ≡ some (true, s))
  padded-inverse i size hs inside full = rw (resize_more size s (omega arith)) (
      sized-inverse e key s (s ++ zeros) i
        (omega (arith, length-append s zeros, length-replicate {A = ℕ} (size - length s) 0)) inside
        full (omega arith) (omega arith)
        (append-IsBytes s zeros bytes (zeros-IsBytes (size - length s))) (take-append s zeros))
    where
      zeros : List ℕ
      zeros = replicate (size - length s) 0

  -- Where the length goes, and how long the string is made.
  word_count :
      (i : ℕ) × (size : ℕ) × (fast_encrypt e key s
        ≡ encrypt_sized e key (length s) i (resize size s))
      × (size ≡ 4 * (i + 1))
      × (length s ≤ 4 * i)
      × (4 * i ≤ length s + 3)
  unfolding fast_encrypt
  word_count = elim (ℕ_discrete (length s % 4) 0) [
    | yes whole ↦ (length s / 4, length s + 4, ground arith, omega arith, omega arith, omega arith)
    | no part ↦ (
      (length s + 4 - length s % 4) / 4,
      length s + 8 - length s % 4,
      ground arith,
      omega arith,
      omega arith,
      omega arith,
    )
  ]

  -- Every string of bytes that is not empty and is 8 bytes short of 4 GB comes back: `FastEncrypt`
  -- gives whole words, between 4 and 7 bytes more than the string, and `FastDecrypt` with the
  -- same key succeeds on them and restores the string. Key and byte order are any.
  pub fast_decrypt-fast_encrypt :
      (c : List ℕ) × (fast_encrypt e key s ≡ some c)
      × (length c % 4 ≡ 0)
      × (length s + 4 ≤ length c)
      × (length c ≤ length s + 7)
      × (fast_decrypt e key c ≡ some (true, s))
  fast_decrypt-fast_encrypt =
      let (i, size, eq, hs, inside, full) = word_count in
      let (c, enc, lc, dec) = padded-inverse i size hs inside full in
      (c, eq ∙ enc, omega (arith, lc), omega (arith, lc), omega (arith, lc), dec)

-- `FastDecrypt` on a string below 4 GB, for every key: on 4 bytes or more it ends and returns; on
-- fewer it has no result, since `decrypt` is called with no word and divides by zero.
pub fast_decrypt-none :
    (e : Endian) (key s : List ℕ)
    → length s < 2 ^ 32
    → ((length s < 4) × (fast_decrypt e key s ≡ none))
      ⊎ ((ok : Bool) × (out : List ℕ) × (4 ≤ length s) × (fast_decrypt e key s ≡ some (ok, out)))
unfolding fast_decrypt decrypt_sized decrypt Option.bind
fast_decrypt-none e key s small = elim (dec_le 4 (length s)) [
  | yes some_word ↦
      let n : ℕ = length s % 2 ^ 32 / 4 in
      let pos : 0 < n = omega arith in
      let (d, eq) = decrypt-ends key (words e n s) n pos (omega (arith, length-words e n s)) in
      let (ok, out) = check_length (length s % 2 ^ 32) (get_or d (n - 1) 0) (overwritten e d s) in
      inr (ok, out, some_word, rw eq refl)
  | no short ↦ inl (
    omega arith,
    ap (λ k. decrypt_sized e key (length s % 2 ^ 32) k s)
        (let zero_words : length s % 2 ^ 32 / 4 ≡ 0 = omega arith in zero_words),
  )
]

check_length-false :
    (data_len len : ℕ) (s : List ℕ)
    → 4 ≤ data_len
    → data_len < 7
    → check_length data_len len s ≡ (false, s)
unfolding check_length
check_length-false data_len len s h1 h2 = ground arith

-- `FastDecrypt` fails on every string of 4 to 6 bytes and changes none of them, for every key.
fast_decrypt-false :
    (e : Endian) (key s : List ℕ)
    → 4 ≤ length s
    → length s < 7
    → IsBytes s
    → fast_decrypt e key s ≡ some (false, s)
unfolding fast_decrypt decrypt_sized decrypt
fast_decrypt-false e key s h1 h2 bytes =
    ap (λ k. decrypt_sized e key (length s % 2 ^ 32) k s)
      (let one_word : length s % 2 ^ 32 / 4 ≡ 1 = omega arith in one_word)
    ∙ ap some (
        check_length-false (length s % 2 ^ 32) (loaded e (take 4 s)) _ (omega arith) (omega arith)
        ∙ ap (λ (t : List ℕ). (false, t)) same)
  where
    same : overwritten e (words e 1 s) s ≡ s
    same =
        ap (λ (t : List ℕ). t ++ drop 4 s)
          (append-nil (stored e 4 (loaded e (take 4 s)))
            ∙ stored-loaded e 4 (take 4 s) (omega (arith, length-take 4 s))
                (take-IsBytes 4 s bytes))
        ∙ take-append-drop 4 s

abbrev four_zeros : List ℕ
four_zeros = 0 ∷ 0 ∷ 0 ∷ 0 ∷ []

-- The empty string is the one that does not come back: for every key its ciphertext is refused.
pub fast_decrypt-empty :
    (e : Endian) (key : List ℕ)
    → (c : List ℕ) × (fast_encrypt e key [] ≡ some c) × (fast_decrypt e key c ≡ some (false, c))
unfolding fast_encrypt encrypt_sized encrypt
fast_decrypt-empty Endian.little_endian key = (
  four_zeros,
  refl,
  fast_decrypt-false Endian.little_endian key four_zeros (omega arith) (omega arith) (omega arith),
)
fast_decrypt-empty Endian.big_endian key = (
  four_zeros,
  refl,
  fast_decrypt-false Endian.big_endian key four_zeros (omega arith) (omega arith) (omega arith),
)
