-- ===== src/Common/Memory.antt =====
-- A block of memory as the list of its bytes: stores and reads of a range.
use Prim.Native.Nat.{ℕ, zero, suc, ◌-◌, ◌≤◌}
use mathlib.Core.Path.{◌≡◌, refl, sym, ap}
use mathlib.Core.List.{List, [], ◌∷◌, ◌++◌}
use native.Mathlib.Omega.{arith}
use libant.Common.Lists.{length, take, drop, length-take, length-drop}
use libant.Common.Lists.{take-append-drop}

module _ {ℓ} {A : Type ℓ} where
  -- `memcpy(mem + i, bs, …)`; what falls outside of the block is dropped.
  abbrev pub store_at : List A → ℕ → List A → List A
  store_at [] i bs = []
  store_at (x ∷ xs) zero [] = x ∷ xs
  store_at (x ∷ xs) zero (b ∷ bs) = b ∷ store_at xs zero bs
  store_at (x ∷ xs) (suc i) bs = x ∷ store_at xs i bs

  -- The `n` elements from index `i` on.
  abbrev pub slice : List A → ℕ → ℕ → List A
  slice xs i n = take n (drop i xs)

  pub drop-append : (xs ys : List A) → drop (length xs) (xs ++ ys) ≡ ys
  drop-append [] ys = refl
  drop-append (x ∷ xs) ys = drop-append xs ys

  pub take-append : (xs ys : List A) → take (length xs) (xs ++ ys) ≡ xs
  take-append [] ys = refl
  take-append (x ∷ xs) ys = ap (◌∷◌ x) (take-append xs ys)

  pub slice-append :
      (front mid back : List A) (i n : ℕ)
      → length front ≡ i
      → length mid ≡ n
      → slice (front ++ (mid ++ back)) i n ≡ mid
  slice-append front mid back i n hi hn =
      rw (sym hi, sym hn, drop-append front (mid ++ back)) (take-append mid back)

  store_at-zero :
      (old new back : List A) → length old ≡ length new → store_at (old ++ back) 0 new ≡ new ++ back
  store_at-zero [] [] [] h = refl
  store_at-zero [] [] (x ∷ back) h = refl
  store_at-zero [] (y ∷ new) back h = absurd (omega arith)
  store_at-zero (x ∷ old) [] back h = absurd (omega arith)
  store_at-zero (x ∷ old) (y ∷ new) back h = ap (◌∷◌ y) (store_at-zero old new back (omega arith))

  -- A store replaces as many elements as it has.
  pub store_at-append :
      (front old new back : List A) (i : ℕ)
      → length front ≡ i
      → length old ≡ length new
      → store_at (front ++ (old ++ back)) i new ≡ front ++ (new ++ back)
  store_at-append [] old new back zero h e = store_at-zero old new back e
  store_at-append [] old new back (suc i) h e = absurd (omega arith)
  store_at-append (x ∷ front) old new back zero h e = absurd (omega arith)
  store_at-append (x ∷ front) old new back (suc i) h e =
      ap (◌∷◌ x) (store_at-append front old new back i (omega arith) e)

  pub length-store_at : (xs : List A) (i : ℕ) (bs : List A) → length (store_at xs i bs) ≡ length xs
  length-store_at [] i bs = refl
  length-store_at (x ∷ xs) zero [] = refl
  length-store_at (x ∷ xs) zero (b ∷ bs) = ap suc (length-store_at xs zero bs)
  length-store_at (x ∷ xs) (suc i) bs = ap suc (length-store_at xs i bs)

  -- The last `n` elements, and those before them.
  pub drop_last : ℕ → List A → List A
  drop_last n xs = take (length xs - n) xs

  pub last : ℕ → List A → List A
  last n xs = drop (length xs - n) xs

  pub drop_last-append-last : (n : ℕ) (xs : List A) → drop_last n xs ++ last n xs ≡ xs
  unfolding drop_last last
  drop_last-append-last n xs = take-append-drop (length xs - n) xs

  pub length-last : (n : ℕ) (xs : List A) → n ≤ length xs → length (last n xs) ≡ n
  unfolding last
  length-last n xs h = omega (arith, length-drop (length xs - n) xs)

  pub length-drop_last : (n : ℕ) (xs : List A) → length (drop_last n xs) ≡ length xs - n
  unfolding drop_last
  length-drop_last n xs = omega (arith, length-take (length xs - n) xs)
