-- ===== src/Bits/Value.antt =====
-- A number is an array of one element.
use native.Mathlib.Nat.{div-eq_of_lt, mod-eq_of_lt}
use mathlib.Core.Option as Option
use libant.Common.{ℕ, ◌-◌, ◌*◌, ◌/◌, ◌%◌, ◌<◌, ◌≡◌, refl, arith, ltb, leb, ◌&&◌}
use libant.Common.{Bool-cases, true, inl, inr, [], ◌∷◌, length}
use libant.Bits.{set_on, set_off, test, set_on_value, set_off_value, test_value}

module _ (w val pos : ℕ) (some_bits : 0 < w) where
  -- Both refuse the same bits.
  same_guard : (ltb 0 pos && leb pos (length (val ∷ []) * w)) ≡ (ltb 0 pos && leb pos w)
  same_guard = let one : length (val ∷ []) * w ≡ w = omega arith in rw one refl

  first_element : (ltb 0 pos && leb pos w) ≡ true → ((pos - 1) / w ≡ 0) × ((pos - 1) % w ≡ pos - 1)
  first_element inside =
      let low : pos - 1 < w = ground arith in (div-eq_of_lt low, mod-eq_of_lt low)

  -- SetOn, SetOff and Test on a number do what they do on an array of this number alone, for every
  -- bit, those out of range included.
  value-array :
      (set_on w (val ∷ []) pos ≡ Option.map (λ v. v ∷ []) (set_on_value w val pos))
      × (set_off w (val ∷ []) pos ≡ Option.map (λ v. v ∷ []) (set_off_value w val pos))
      × (test w (val ∷ []) pos ≡ test_value w val pos)
  unfolding set_on set_off test set_on_value set_off_value test_value
  value-array = elim (Bool-cases (ltb 0 pos && leb pos w)) [
    | inl inside ↦
        let (first, place) = first_element inside in
        rw (same_guard, inside, first, place) (refl, refl, refl)
    | inr outside ↦ rw (same_guard, outside) (refl, refl, refl)
  ]
