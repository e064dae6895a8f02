-- ===== src/Common/Slices.antt =====
-- A store and a read of another range, or of the same.
use Prim.Native.Nat.{ℕ, zero, suc, ◌+◌, ◌≤◌}
use mathlib.Core.Path.{◌≡◌, refl, ap}
use mathlib.Core.List.{List, [], ◌∷◌}
use native.Mathlib.Omega.{arith}
use libant.Common.Lists.{length, take, drop}
use libant.Common.Memory.{store_at, slice}

module _ {ℓ} {A : Type ℓ} where
  pub take-store_at : (n i : ℕ) (mem bs : List A) → n ≤ i → take n (store_at mem i bs) ≡ take n mem
  take-store_at zero i mem bs h = refl
  take-store_at (suc n) i [] bs h = refl
  take-store_at (suc n) zero (x ∷ mem) bs h = absurd (omega arith)
  take-store_at (suc n) (suc i) (x ∷ mem) bs h = ap (◌∷◌ x) (take-store_at n i mem bs (omega arith))

  pub slice-store_at_before :
      (j n i : ℕ) (mem bs : List A) → j + n ≤ i → slice (store_at mem i bs) j n ≡ slice mem j n
  slice-store_at_before zero n i mem bs h = take-store_at n i mem bs (omega arith)
  slice-store_at_before (suc j) n i [] bs h = refl
  slice-store_at_before (suc j) n zero (x ∷ mem) bs h = absurd (omega arith)
  slice-store_at_before (suc j) n (suc i) (x ∷ mem) bs h =
      slice-store_at_before j n i mem bs (omega arith)

  drop-store_at :
      (j i : ℕ) (mem bs : List A) → i + length bs ≤ j → drop j (store_at mem i bs) ≡ drop j mem
  drop-store_at j i [] bs h = refl
  drop-store_at zero zero (x ∷ mem) [] h = refl
  drop-store_at zero zero (x ∷ mem) (b ∷ bs) h = absurd (omega arith)
  drop-store_at zero (suc i) (x ∷ mem) bs h = absurd (omega arith)
  drop-store_at (suc j) zero (x ∷ mem) [] h = refl
  drop-store_at (suc j) zero (x ∷ mem) (b ∷ bs) h = drop-store_at j zero mem bs (omega arith)
  drop-store_at (suc j) (suc i) (x ∷ mem) bs h = drop-store_at j i mem bs (omega arith)

  pub slice-store_at_after :
      (j n i : ℕ) (mem bs : List A)
      → i + length bs ≤ j
      → slice (store_at mem i bs) j n ≡ slice mem j n
  slice-store_at_after j n i mem bs h = ap (take n) (drop-store_at j i mem bs h)

  pub slice-store_at :
      (i : ℕ) (mem bs : List A)
      → i + length bs ≤ length mem
      → slice (store_at mem i bs) i (length bs) ≡ bs
  slice-store_at zero [] [] h = refl
  slice-store_at zero [] (b ∷ bs) h = absurd (omega arith)
  slice-store_at zero (x ∷ mem) [] h = refl
  slice-store_at zero (x ∷ mem) (b ∷ bs) h = ap (◌∷◌ b) (slice-store_at zero mem bs (omega arith))
  slice-store_at (suc i) [] bs h = absurd (omega arith)
  slice-store_at (suc i) (x ∷ mem) bs h = slice-store_at i mem bs (omega arith)
