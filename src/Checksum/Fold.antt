-- ===== src/Checksum/Fold.antt =====
-- Folding keeps a sum modulo 2^w - 1 and ends within two rounds.
use libant.Common.{ℕ, suc, ◌+◌, ◌-◌, ◌/◌, ◌%◌, ◌^◌, ◌<◌, ◌≤◌, ◌≡◌, refl, ap, ◌∙◌, arith}
use libant.Common.{Bool-cases, ◌⊎◌, inl, inr, some, leb, and_low, true, false}
use mathlib.Core.Option
use libant.Checksum.{fold_loop, finish_checksum32, finish_checksum16}

-- The result of a fold of `sum`: the same modulo `base`, no larger, and zero only if the sum is.
abbrev pub IsFold : ℕ → ℕ → ℕ → Type 0
IsFold base sum r = (r % base ≡ sum % base) × (r ≤ sum) × (0 < sum → 0 < r)

fold_loop-done : (w fuel s : ℕ) → leb s (2 ^ w - 1) ≡ true → fold_loop w (suc fuel) s ≡ some s
unfolding fold_loop
fold_loop-done w fuel s h = rw h

fold_loop-round :
    (w fuel s next : ℕ)
    → leb s (2 ^ w - 1) ≡ false
    → (s / 2 ^ w + s % 2 ^ w) % 2 ^ 64 ≡ next
    → fold_loop w (suc fuel) s ≡ fold_loop w fuel next
unfolding fold_loop
fold_loop-round w fuel s next h e = rw (h, and_low w s, e)

-- A loop that is done after two rounds ends with its argument or the result of a round.
fold_loop-rounds :
    (w s s1 s2 : ℕ)
    → (s / 2 ^ w + s % 2 ^ w) % 2 ^ 64 ≡ s1
    → (s1 / 2 ^ w + s1 % 2 ^ w) % 2 ^ 64 ≡ s2
    → leb s2 (2 ^ w - 1) ≡ true
    → ((fold_loop w 3 s ≡ some s) × (leb s (2 ^ w - 1) ≡ true))
      ⊎ (((fold_loop w 3 s ≡ some s1) × (leb s1 (2 ^ w - 1) ≡ true)) ⊎ (fold_loop w 3 s ≡ some s2))
fold_loop-rounds w s s1 s2 e1 e2 last = elim (Bool-cases (leb s (2 ^ w - 1))) [
  | inl small ↦ inl (fold_loop-done w 2 s small, small)
  | inr large ↦ elim (Bool-cases (leb s1 (2 ^ w - 1))) [
    | inl small ↦ inr (inl (fold_loop-round w 2 s s1 large e1 ∙ fold_loop-done w 1 s1 small, small))
    | inr large1 ↦ inr (
        inr (
          fold_loop-round w 2 s s1 large e1
          ∙ fold_loop-round w 1 s1 s2 large1 e2
          ∙ fold_loop-done w 0 s2 last))
  ]
]

loop_32-IsFold :
    (s : ℕ)
    → s < 2 ^ 64
    → (r : ℕ) × (fold_loop 32 3 s ≡ some r)
      × (r < 2 ^ 32)
      × IsFold (2 ^ 32 - 1) s r
      × IsFold (2 ^ 16 - 1) s r
loop_32-IsFold s h =
    let s1 : ℕ = s / 2 ^ 32 + s % 2 ^ 32 in
    let s2 : ℕ = s1 / 2 ^ 32 + s1 % 2 ^ 32 in
    let small2 : s2 < 2 ^ 32 = omega arith in
    elim (fold_loop-rounds 32 s s1 s2 (omega arith) (omega arith) (ground arith)) [
      | inl (e, small) ↦
          (s, e, ground arith, (refl, omega arith, λ k. k), (refl, omega arith, λ k. k))
      | inr (inl (e, small)) ↦ (
        s1,
        e,
        ground arith,
        (omega arith, omega arith, λ k. omega arith),
        (omega arith, omega arith, λ k. omega arith),
      )
      | inr (inr e) ↦ (
        s2,
        e,
        small2,
        (omega arith, omega arith, λ k. omega arith),
        (omega arith, omega arith, λ k. omega arith),
      )
    ]

loop_16-IsFold :
    (s : ℕ)
    → s < 2 ^ 32
    → (r : ℕ) × (fold_loop 16 3 s ≡ some r) × (r < 2 ^ 16) × IsFold (2 ^ 16 - 1) s r
loop_16-IsFold s h =
    let s1 : ℕ = s / 2 ^ 16 + s % 2 ^ 16 in
    let s2 : ℕ = s1 / 2 ^ 16 + s1 % 2 ^ 16 in
    let small2 : s2 < 2 ^ 16 = omega arith in
    elim (fold_loop-rounds 16 s s1 s2 (omega arith) (omega arith) (ground arith)) [
      | inl (e, small) ↦ (s, e, ground arith, (refl, omega arith, λ k. k))
      | inr (inl (e, small)) ↦ (s1, e, ground arith, (omega arith, omega arith, λ k. omega arith))
      | inr (inr e) ↦ (s2, e, small2, (omega arith, omega arith, λ k. omega arith))
    ]

-- For a 64-bit sum `FinishChecksum32` ends, with a 32-bit result that is the sum modulo 2^32 - 1
-- and that is zero only if the sum is.
pub finish_checksum32-IsFold :
    (s : ℕ)
    → s < 2 ^ 64
    → (r : ℕ) × (finish_checksum32 s ≡ some r) × (r < 2 ^ 32) × IsFold (2 ^ 32 - 1) s r
unfolding finish_checksum32
finish_checksum32-IsFold s h =
    let (r, e, small, folded, _) = loop_32-IsFold s h in
    (r, ap (Option.map (λ t. t % 2 ^ 32)) e ∙ ap some (omega arith), small, folded)

-- For a 64-bit sum `FinishChecksum16` ends, with a 16-bit result that is the sum modulo 2^16 - 1
-- and that is zero only if the sum is.
pub finish_checksum16-IsFold :
    (s : ℕ)
    → s < 2 ^ 64
    → (r : ℕ) × (finish_checksum16 s ≡ some r) × (r < 2 ^ 16) × IsFold (2 ^ 16 - 1) s r
unfolding finish_checksum16 Option.bind
finish_checksum16-IsFold s h =
    let (r, e, small, _, folded) = loop_32-IsFold s h in
    let (t, f, tiny, folded1) = loop_16-IsFold r small in
    (
      t,
      ap (λ o. Option.map (λ t. t % 2 ^ 16) (Option.bind o (fold_loop 16 3))) e
          ∙ ap (Option.map (λ t. t % 2 ^ 16)) f
          ∙ ap some (omega arith),
      tiny,
      (folded1.0 ∙ folded.0, omega arith, λ k. folded1.2 (folded.2 k)),
    )
