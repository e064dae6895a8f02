-- ===== src/Crypto/Xxtea/Inverse.antt =====
-- The outer loops, and `decrypt` as the inverse of `encrypt`.
use libant.Common.{ℕ, zero, suc, ◌+◌, ◌*◌, ◌/◌, ◌%◌, ◌^◌, ◌<◌, ◌≤◌, ◌≡◌, ◌≢◌}
use libant.Common.{refl, ap, ◌∙◌, arith, ◌==◌, ltb, true, false}
use libant.Common.{List, length, get_or, some}
use mathlib.Core.Option
use native.Mathlib.Nat.{div-le_of_le-mul}
use libant.Crypto.Xxtea.{encrypt_pass, add32, sub32}
use libant.Crypto.Xxtea.{delta, encrypt_rounds, decrypt_rounds, encrypt, decrypt}
use libant.Crypto.Xxtea.Round.{mix_to, unmix_down, length-mix_to, AreWords, mix_to-AreWords}
use libant.Crypto.Xxtea.Round.{unmix_down-mix_to, length-unmix_down}
use libant.Crypto.Xxtea.Block.{mix_from, mix_from-mix_to, encrypt_pass-mix_from}
use libant.Crypto.Xxtea.Block.{decrypt_pass-unmix_down}

-- `sum` in round `k`.
abbrev sum_at : ℕ → ℕ
sum_at k = k * delta % 2 ^ 32

-- It comes back to zero in none of the rounds that the code makes.
sum_at-ne : (k : ℕ) → 0 < k → k ≤ 32 → sum_at k ≢ 0
sum_at-ne k pos small = omega arith

module _ (key : List ℕ) (n : ℕ) where
  forward : ℕ → ℕ → List ℕ → List ℕ
  forward zero k d = d
  forward (suc q) k d = forward q (suc k) (mix_to key (sum_at (suc k)) n n d)

  backward : ℕ → List ℕ → List ℕ
  backward zero d = d
  backward (suc k) d = backward k (unmix_down key (sum_at (suc k)) n n d)

  length-forward : (q k : ℕ) (d : List ℕ) → length (forward q k d) ≡ length d
  unfolding forward
  length-forward zero k d = refl
  length-forward (suc q) k d =
      length-forward q (suc k) (mix_to key (sum_at (suc k)) n n d)
      ∙ length-mix_to key (sum_at (suc k)) n n d

  forward-AreWords : (q k : ℕ) (d : List ℕ) → AreWords d → AreWords (forward q k d)
  unfolding forward
  forward-AreWords zero k d h = h
  forward-AreWords (suc q) k d h =
      forward-AreWords q (suc k) _ (mix_to-AreWords key (sum_at (suc k)) n n d h)

  whole_round : (sum m : ℕ) (d : List ℕ) → 0 < m → mix_from key sum n m 0 d ≡ mix_to key sum n m d
  unfolding mix_from mix_to
  whole_round sum zero d h = absurd (omega arith)
  whole_round sum (suc m) d h =
      mix_from-mix_to key sum n m 0 d ∙ ap (λ k. mix_to key sum n (suc k) d) (omega arith)

  -- A pass from place 0 is a round.
  encrypt_pass_lem :
      (sum z : ℕ) (d : List ℕ)
      → 0 < n
      → n < length d
      → z ≡ get_or d n 0
      → encrypt_pass key sum n 0 z d ≡ (mix_to key sum n n d, get_or (mix_to key sum n n d) n 0)
  encrypt_pass_lem sum z d pos inside hz =
      encrypt_pass-mix_from key sum n n 0 z d (omega arith) inside hz
      ∙ ap (λ (t : List ℕ). (t, get_or t n 0)) (whole_round sum n d pos)

  encrypt_rounds-forward :
      (q k sum z : ℕ) (d : List ℕ)
      → 0 < n
      → n < length d
      → sum ≡ sum_at k
      → z ≡ get_or d n 0
      → encrypt_rounds key q n sum z d ≡ forward q k d
  unfolding encrypt_rounds forward
  encrypt_rounds-forward zero k sum z d pos inside hs hz = refl
  encrypt_rounds-forward (suc q) k sum z d pos inside hs hz =
      ap (λ (r : List ℕ × ℕ). encrypt_rounds key q n sum' r.1 r.0)
        (encrypt_pass_lem sum' z d pos inside hz
          ∙ ap (λ s. (mix_to key s n n d, get_or (mix_to key s n n d) n 0)) next)
      ∙ encrypt_rounds-forward q (suc k) sum' (get_or d' n 0) d' pos
          (omega (arith, length-mix_to key (sum_at (suc k)) n n d)) next refl
    where
      sum' : ℕ
      sum' = add32 sum delta

      next : sum' ≡ sum_at (suc k)
      next = omega arith

      d' : List ℕ
      d' = mix_to key (sum_at (suc k)) n n d

  decrypt_rounds-backward :
      (k fuel sum y : ℕ) (d : List ℕ)
      → k < fuel
      → k ≤ 32
      → n < length d
      → sum ≡ sum_at k
      → y ≡ get_or d 0 0
      → decrypt_rounds key fuel n sum y d ≡ some (backward k d)
  unfolding decrypt_rounds backward
  decrypt_rounds-backward k zero sum y d h small inside hs hy = absurd (omega arith)
  decrypt_rounds-backward zero (suc fuel) sum y d h small inside hs hy = ground arith
  decrypt_rounds-backward (suc k) (suc fuel) sum y d h small inside hs hy = rw (going) (
      ap (λ (r : List ℕ × ℕ). decrypt_rounds key fuel n (sub32 sum delta) r.1 r.0)
        (decrypt_pass-unmix_down key sum n n y d (omega arith) inside
            (hy ∙ ap (λ i. get_or d i 0) (ground arith))
          ∙ ap (λ s. (unmix_down key s n n d, get_or (unmix_down key s n n d) 0 0)) hs)
      ∙ decrypt_rounds-backward k fuel (sub32 sum delta) (get_or d' 0 0) d' (omega arith)
          (omega arith) (omega (arith, length-unmix_down key (sum_at (suc k)) n n d))
          (omega (arith, hs)) refl)
    where
      going : (sum == 0) ≡ false
      going = ground (arith, sum_at-ne (suc k))

      d' : List ℕ
      d' = unmix_down key (sum_at (suc k)) n n d

  backward-forward :
      (q k : ℕ) (d : List ℕ)
      → 0 < n
      → n < length d
      → AreWords d
      → backward (k + q) (forward q k d) ≡ backward k d
  unfolding forward backward
  backward-forward zero k d pos inside h =
      ap (λ j. backward j d) (let e : k + 0 ≡ k = omega arith in e)
  backward-forward (suc q) k d pos inside h =
      ap (λ j. backward j (forward q (suc k) d')) (let e : k + suc q ≡ suc k + q = omega arith in e)
      ∙ backward-forward q (suc k) d' pos (omega (arith, length-mix_to key (sum_at (suc k)) n n d))
          (mix_to-AreWords key (sum_at (suc k)) n n d h)
      ∙ ap (backward k) (unmix_down-mix_to key (sum_at (suc k)) n n d pos inside h)
    where
      d' : List ℕ
      d' = mix_to key (sum_at (suc k)) n n d

-- The number of rounds is at most 32.
rounds_le : (n : ℕ) → 6 + 52 / suc (suc n) ≤ 32
rounds_le n = omega (arith, div-le_of_le-mul (suc (suc n)) {m = 52} {n = 26} (omega arith))

-- `encrypt` on an array of `len` words, with `len` at least 1, keeps the length and the words in
-- 32 bits, and `decrypt` ends and gives back the array, for every key.
pub decrypt-encrypt :
    (key d : List ℕ) (len : ℕ)
    → 0 < len
    → len ≤ length d
    → AreWords d
    → (c : List ℕ) × (encrypt key d len ≡ some c)
      × (length c ≡ length d)
      × AreWords c
      × (decrypt key c len ≡ some d)
unfolding encrypt decrypt backward Option.bind
decrypt-encrypt key d zero pos fits h = absurd (omega arith)
decrypt-encrypt key d (suc zero) pos fits h = (d, refl, refl, h, refl)
decrypt-encrypt key d (suc (suc n)) pos fits h = (
  c,
  rw positive (
      ap some (
        encrypt_rounds-forward key (suc n) q 0 0 (get_or d (suc n) 0) d (omega arith) (omega arith)
          refl refl)),
  length-forward key (suc n) q 0 d,
  forward-AreWords key (suc n) q 0 d h,
  rw positive (
      decrypt_rounds-backward key (suc n) q 33 (q * delta % 2 ^ 32) (get_or c 0 0) c
        (omega (arith, rounds_le n)) (rounds_le n) (omega (arith, length-forward key (suc n) q 0 d))
        refl refl
      ∙ ap some (
          ap (λ j. backward key (suc n) j c) (let e : q ≡ 0 + q = omega arith in e)
          ∙ backward-forward key (suc n) q 0 d (omega arith) (omega arith) h)),
)
  where
    positive : ltb 0 (suc n) ≡ true
    positive = ground arith

    q : ℕ
    q = 6 + 52 / suc (suc n)

    c : List ℕ
    c = forward key (suc n) q 0 d

-- `decrypt` ends on every array of at least one word, for every key.
pub decrypt-ends :
    (key d : List ℕ) (len : ℕ)
    → 0 < len
    → len ≤ length d
    → (r : List ℕ) × (decrypt key d len ≡ some r)
unfolding decrypt Option.bind
decrypt-ends key d zero pos fits = absurd (omega arith)
decrypt-ends key d (suc zero) pos fits = (d, refl)
decrypt-ends key d (suc (suc n)) pos fits = (
  backward key (suc n) (6 + 52 / suc (suc n)) d,
  rw positive (
      decrypt_rounds-backward key (suc n) (6 + 52 / suc (suc n)) 33 _ (get_or d 0 0) d
        (omega (arith, rounds_le n)) (rounds_le n) (omega arith) refl refl),
)
  where
    positive : ltb 0 (suc n) ≡ true
    positive = ground arith
