-- ===== src/Bits/Independent.antt =====
-- To change one bit of an array changes no other.
use native.Mathlib.Nat.{div-add-mod, div-lt_iff_lt-mul, mod-lt}
use libant.Common.{
  ℕ, zero, suc, ◌-◌, ◌*◌, ◌/◌, ◌%◌, ◌^◌, ◌≤◌, ◌<◌, ◌≡◌, ◌≢◌, refl, sym, ap, ◌∙◌, arith,
}
use libant.Common.{
  bit_and, bit_or, ltb, leb, ◌==◌, ◌&&◌, Bool, Bool-cases, true, false, if◌then◌else◌, inl, inr,
}
use libant.Common.{List, [], ◌∷◌, length, length-set, set, get_or, some}
use libant.Bits.{bit64_table, bit64_not_table, set_on, set_off, test}
use libant.Bits.Places.{on_self, on_ne, off_self, off_ne, tested}

get_or-set_self {ℓ} :
    {A : Type ℓ} (xs : List A) (i : ℕ) (v d : A) → i < length xs → get_or (set xs i v) i d ≡ v
get_or-set_self [] i v d lt = absurd (omega arith)
get_or-set_self (x ∷ xs) zero v d lt = refl
get_or-set_self (x ∷ xs) (suc i) v d lt = get_or-set_self xs i v d (omega arith)

get_or-set_ne {ℓ} :
    {A : Type ℓ} (xs : List A) (i j : ℕ) (v d : A) → i ≢ j → get_or (set xs i v) j d ≡ get_or xs j d
get_or-set_ne [] i j v d ne = refl
get_or-set_ne (x ∷ xs) zero zero v d ne = absurd (ne refl)
get_or-set_ne (x ∷ xs) zero (suc j) v d ne = refl
get_or-set_ne (x ∷ xs) (suc i) zero v d ne = refl
get_or-set_ne (x ∷ xs) (suc i) (suc j) v d ne = get_or-set_ne xs i j v d (λ e. ne (ap suc e))

module _ (w : ℕ) (some_bits : 0 < w) where
  test-place :
      (arr : List ℕ) (q : ℕ)
      → 1 ≤ q
      → q ≤ length arr * w
      → test w arr q ≡ some (get_or arr ((q - 1) / w) 0 / 2 ^ ((q - 1) % w) % 2 == 1)
  unfolding test bit64_table
  test-place arr q first last =
      let inside : (ltb 0 q && leb q (length arr * w)) ≡ true = ground arith in
      rw (inside, tested ((q - 1) % w) (get_or arr ((q - 1) / w) 0)) refl

  within : (arr : List ℕ) (q : ℕ) → 1 ≤ q → q ≤ length arr * w → (q - 1) / w < length arr
  within arr q first last = (div-lt_iff_lt-mul some_bits).1 (omega arith)

  -- A change of the element's digit for the bit `p`, to the digit for `b`.
  module _ (f : ℕ → ℕ → ℕ) (b : Bool) (self : (k x : ℕ) → k < w → (f k x / 2 ^ k % 2 == 1) ≡ b)
      (other : (k j x : ℕ) → k < w → j < w → k ≢ j → f k x / 2 ^ j % 2 ≡ x / 2 ^ j % 2)
      (arr : List ℕ) (p q : ℕ) (first_p : 1 ≤ p) (last_p : p ≤ length arr * w) (first_q : 1 ≤ q)
      (last_q : q ≤ length arr * w) where
    changed : List ℕ
    changed = set arr ((p - 1) / w) (f ((p - 1) % w) (get_or arr ((p - 1) / w) 0))

    at_p : get_or changed ((p - 1) / w) 0 ≡ f ((p - 1) % w) (get_or arr ((p - 1) / w) 0)
    unfolding changed
    at_p =
        get_or-set_self arr ((p - 1) / w) (f ((p - 1) % w) (get_or arr ((p - 1) / w) 0)) 0
          (within arr p first_p last_p)

    same_length : length changed ≡ length arr
    unfolding changed
    same_length = length-set arr ((p - 1) / w) (f ((p - 1) % w) (get_or arr ((p - 1) / w) 0))

    changed-hit : test w changed p ≡ some b
    changed-hit =
        test-place changed p first_p (omega (arith, last_p, ap (λ n. n * w) same_length))
        ∙ ap (λ v. some (v / 2 ^ ((p - 1) % w) % 2 == 1)) at_p
        ∙ ap some (self ((p - 1) % w) (get_or arr ((p - 1) / w) 0) (mod-lt (p - 1) some_bits))

    -- Two bits of one element.
    apart : (q - 1) / w ≡ (p - 1) / w → q ≢ p → (p - 1) % w ≢ (q - 1) % w
    apart same ne eq =
        let whole_p = div-add-mod (p - 1) w in
        let whole_q = div-add-mod (q - 1) w in
        let products = ap (λ n. w * n) same in ne (omega arith)

    changed-place :
        q ≢ p
        → get_or changed ((q - 1) / w) 0 / 2 ^ ((q - 1) % w) % 2
          ≡ get_or arr ((q - 1) / w) 0 / 2 ^ ((q - 1) % w) % 2
    unfolding changed
    changed-place ne =
        let j = (q - 1) % w in
        elim (Bool-cases ((q - 1) / w == (p - 1) / w)) [
          | inl same ↦
              let e : (q - 1) / w ≡ (p - 1) / w = ground arith in
              ap (λ i. get_or changed i 0 / 2 ^ j % 2) e
              ∙ ap (λ v. v / 2 ^ j % 2) at_p
              ∙ other ((p - 1) % w) j (get_or arr ((p - 1) / w) 0) (mod-lt (p - 1) some_bits)
                  (mod-lt (q - 1) some_bits) (apart e ne)
              ∙ ap (λ i. get_or arr i 0 / 2 ^ j % 2) (sym e)
          | inr differs ↦
              let e : (p - 1) / w ≢ (q - 1) / w = λ eq. ground arith in
              ap (λ v. v / 2 ^ j % 2)
                (get_or-set_ne arr ((p - 1) / w) ((q - 1) / w)
                  (f ((p - 1) % w) (get_or arr ((p - 1) / w) 0)) 0 e)
        ]

    changed-test : test w changed q ≡ (if q == p then some b else test w arr q)
    changed-test = elim (Bool-cases (q == p)) [
      | inl same ↦ let e : q ≡ p = ground arith in rw same (ap (test w changed) e ∙ changed-hit)
      | inr differs ↦
          let e : q ≢ p = λ eq. ground arith in
          rw differs (
            test-place changed q first_q (omega (arith, last_q, ap (λ n. n * w) same_length))
            ∙ ap (λ d. some (d == 1)) (changed-place e)
            ∙ sym (test-place arr q first_q last_q))
    ]

module _ (w : ℕ) (arr : List ℕ) (p q : ℕ) (some_bits : 0 < w) (few_bits : w ≤ 64) (first_p : 1 ≤ p)
    (last_p : p ≤ length arr * w) (first_q : 1 ≤ q) (last_q : q ≤ length arr * w) where
  -- For an array of elements with at most 64 bits, and two bits of it: SetOn succeeds, and behind it
  -- Test finds the bit on that was set, and every other bit as it was; SetOff does the same with the
  -- bit off.
  pub test-set :
      (on off : List ℕ) × (set_on w arr p ≡ some on)
      × (length on ≡ length arr)
      × (test w on q ≡ (if q == p then some true else test w arr q))
      × (set_off w arr p ≡ some off)
      × (length off ≡ length arr)
      × (test w off q ≡ (if q == p then some false else test w arr q))
  unfolding set_on set_off bit64_table bit64_not_table changed
  test-set =
      let inside : (ltb 0 p && leb p (length arr * w)) ≡ true = ground arith in
      (
        changed w some_bits on true on-self on-other arr p q first_p last_p first_q last_q,
        changed w some_bits off false off-self off-other arr p q first_p last_p first_q last_q,
        rw inside refl,
        same_length w some_bits on true on-self on-other arr p q first_p last_p first_q last_q,
        changed-test w some_bits on true on-self on-other arr p q first_p last_p first_q last_q,
        rw inside refl,
        same_length w some_bits off false off-self off-other arr p q first_p last_p first_q last_q,
        changed-test w some_bits off false off-self off-other arr p q first_p last_p first_q last_q,
      )
    where
      on : ℕ → ℕ → ℕ
      on k x = bit_or x (2 ^ k) % 2 ^ w

      off : ℕ → ℕ → ℕ
      off k x = bit_and x (2 ^ 64 - 1 - 2 ^ k) % 2 ^ w

      on-self : (k x : ℕ) → k < w → (on k x / 2 ^ k % 2 == 1) ≡ true
      on-self k x lt = let digit = on_self w k x lt in ground arith

      on-other : (k j x : ℕ) → k < w → j < w → k ≢ j → on k x / 2 ^ j % 2 ≡ x / 2 ^ j % 2
      on-other k j x lt ltj ne = on_ne w k j x ltj ne

      off-self : (k x : ℕ) → k < w → (off k x / 2 ^ k % 2 == 1) ≡ false
      off-self k x lt = let digit = off_self w k x few_bits lt in ground arith

      off-other : (k j x : ℕ) → k < w → j < w → k ≢ j → off k x / 2 ^ j % 2 ≡ x / 2 ^ j % 2
      off-other k j x lt ltj ne = off_ne w k j x few_bits lt ltj ne
