-- ===== src/Crypto/Xxtea/Words.antt =====
-- Bytes as words and back.
use libant.Common.{ℕ, zero, suc, ◌*◌, ◌≤◌, ◌≡◌, refl, sym, ap, ◌∙◌, arith}
use libant.Common.{
  List, [], ◌∷◌, ◌++◌, length, set, take, drop, append_assoc, length-append, length-set,
}
use libant.Common.{length-take, length-drop, take-append-drop, take-append, drop-append}
use libant.Endian.{Endian, stored, loaded}
use libant.Endian.Bytes.{IsBytes, take-IsBytes, drop-IsBytes}
use libant.Endian.Order.{loaded-stored, stored-loaded, loaded-lt}
use libant.Endian.Order.{length-stored}
use libant.Crypto.Xxtea.Round.{AreWords}
use libant.Crypto.Xxtea.Cipher.{words, unwords}

module _ {ℓ} {A : Type ℓ} where
  pub take-append_le : (k : ℕ) (xs ys : List A) → k ≤ length xs → take k (xs ++ ys) ≡ take k xs
  take-append_le zero xs ys h = refl
  take-append_le (suc k) [] ys h = absurd (omega arith)
  take-append_le (suc k) (x ∷ xs) ys h = ap (◌∷◌ x) (take-append_le k xs ys (omega arith))

  pub take-set : (i : ℕ) (xs : List A) (v : A) → take i (set xs i v) ≡ take i xs
  take-set zero xs v = refl
  take-set (suc i) [] v = refl
  take-set (suc i) (x ∷ xs) v = ap (◌∷◌ x) (take-set i xs v)

module _ (e : Endian) where
  pub length-words : (n : ℕ) (bs : List ℕ) → length (words e n bs) ≡ n
  length-words zero bs = refl
  length-words (suc n) bs = ap suc (length-words n (drop 4 bs))

  pub length-unwords : (ws : List ℕ) → length (unwords e ws) ≡ 4 * length ws
  length-unwords [] = refl
  length-unwords (w ∷ ws) =
      omega
        (arith, length-append (stored e 4 w) (unwords e ws), length-stored e 4 w, length-unwords ws)

  pub words-AreWords :
      (n : ℕ) (bs : List ℕ) → 4 * n ≤ length bs → IsBytes bs → AreWords (words e n bs)
  words-AreWords zero bs l h = tt
  words-AreWords (suc n) bs l h = (
    rw (let four : length (take 4 bs) ≡ 4 = omega (arith, length-take 4 bs) in four) at
        (loaded-lt e (take 4 bs) (take-IsBytes 4 bs h)),
    words-AreWords n (drop 4 bs) (omega (arith, length-drop 4 bs)) (drop-IsBytes 4 bs h),
  )

  pub unwords-words :
      (n : ℕ) (bs : List ℕ) → length bs ≡ 4 * n → IsBytes bs → unwords e (words e n bs) ≡ bs
  unwords-words zero [] l h = refl
  unwords-words zero (b ∷ bs) l h = absurd (omega arith)
  unwords-words (suc n) bs l h =
      ap (λ (x : List ℕ). x ++ unwords e (words e n (drop 4 bs)))
        (stored-loaded e 4 (take 4 bs) (omega (arith, length-take 4 bs)) (take-IsBytes 4 bs h))
      ∙ ap (λ (x : List ℕ). take 4 bs ++ x)
          (unwords-words n (drop 4 bs) (omega (arith, length-drop 4 bs)) (drop-IsBytes 4 bs h))
      ∙ take-append-drop 4 bs

  pub words-unwords :
      (ws rest : List ℕ) → AreWords ws → words e (length ws) (unwords e ws ++ rest) ≡ ws
  words-unwords [] rest h = refl
  words-unwords (w ∷ ws) rest h =
      rw (append_assoc (stored e 4 w) (unwords e ws) rest)
        (λ i. head i ∷ (tail ∙ words-unwords ws rest h.1) i)
    where
      more : List ℕ
      more = unwords e ws ++ rest

      four : length (stored e 4 w) ≡ 4
      four = length-stored e 4 w

      head : loaded e (take 4 (stored e 4 w ++ more)) ≡ w
      head =
          ap (λ k. loaded e (take k (stored e 4 w ++ more))) (sym four)
          ∙ ap (loaded e) (take-append (stored e 4 w) more)
          ∙ loaded-stored e 4 w h.0

      tail : words e (length ws) (drop 4 (stored e 4 w ++ more)) ≡ words e (length ws) more
      tail =
          ap (λ k. words e (length ws) (drop k (stored e 4 w ++ more))) (sym four)
          ∙ ap (words e (length ws)) (drop-append (stored e 4 w) more)

  pub unwords-append : (xs ys : List ℕ) → unwords e (xs ++ ys) ≡ unwords e xs ++ unwords e ys
  unwords-append [] ys = refl
  unwords-append (x ∷ xs) ys =
      ap (λ (t : List ℕ). stored e 4 x ++ t) (unwords-append xs ys)
      ∙ sym (append_assoc (stored e 4 x) (unwords e xs) (unwords e ys))

  -- A write of word `i` leaves the bytes before it.
  pub take-unwords-set :
      (k i v : ℕ) (ws : List ℕ)
      → i ≤ length ws
      → k ≤ 4 * i
      → take k (unwords e (set ws i v)) ≡ take k (unwords e ws)
  take-unwords-set k i v ws inside h =
      split (set ws i v) (omega (arith, length-set ws i v))
      ∙ ap (λ (t : List ℕ). take k (unwords e t)) (take-set i ws v)
      ∙ sym (split ws inside)
    where
      split : (xs : List ℕ) → i ≤ length xs → take k (unwords e xs) ≡ take k (unwords e (take i xs))
      split xs h' =
          ap (λ (t : List ℕ). take k (unwords e t)) (sym (take-append-drop i xs))
          ∙ ap (take k) (unwords-append (take i xs) (drop i xs))
          ∙ take-append_le k (unwords e (take i xs)) (unwords e (drop i xs))
              (omega (arith, length-unwords (take i xs), length-take i xs))
