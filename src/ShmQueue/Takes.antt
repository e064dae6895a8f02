-- ===== src/ShmQueue/Takes.antt =====
-- Each step of Pop keeps what its call relies on, and accounts for the messages.
use mathlib.Core.Path.{subst}
use libant.Common.{
  ℕ, ◌+◌, ◌-◌, ◌%◌, ◌^◌, ◌≤◌, ◌<◌, ◌≡◌, ◌≢◌, ◌⊎◌, inl, inr, refl, sym, ap, ◌∙◌, arith,
}
use libant.Common.{List, [], ◌∷◌, length, none, some, ltb, ◌==◌, ◌||◌, true, false, Bool-cases}
use libant.Endian.{Endian}
use libant.ShmQueue.{Queue, Consumer, resting, aligning, at_pad, turning, checking, reading}
use libant.ShmQueue.{advancing, returning, head_size, len_at, pop_step}
use libant.ShmQueue.Valid.{IsValid, IsPad, IsFront, IsComing}
use libant.ShmQueue.Heads.{Stepped, stays-Moves, Straight-IsFront, Straight-empty, head-cases}
use libant.ShmQueue.Heads.{IsFront-sound, IsFront-Taken}

module _ (e : Endian) (q : Queue) (ms : List (List ℕ)) (v : IsValid e q ms) where
  -- Head and tail are the same exactly when there is no message and no pad to go round at.
  same-empty : q.head ≡ q.tail → ms ≡ []
  same-empty same = elim v.layout [
    | inl straight ↦ Straight-empty e q ms straight same
    | inr (first, second, p, behind, _, _, _, _, _) ↦ absurd (omega arith)
  ]

  below-IsFront : q.head ≢ q.tail → (q.head ≡ 80) ⊎ (q.head < q.tail) → IsFront e q ms
  below-IsFront ne where_it_is = elim v.layout [
    | inl straight ↦ Straight-IsFront e q ms straight ne
    | inr (first, second, p, behind, _, _, _, _, _) ↦
        let low = v.sized.tail_low in absurd (ground arith)
  ]

  resting-Stepped : Stepped e q resting [] ms (pop_step e resting q)
  unfolding pop_step
  resting-Stepped = elim (Bool-cases (q.head == q.tail)) [
    | inl same ↦ (
      resting,
      q.head,
      some none,
      [],
      ms,
      rw same refl,
      v,
      refl,
      stays-Moves e q v.sized,
      (refl, same-empty (ground arith), refl, same-empty (ground arith)),
    )
    | inr busy ↦ (
      aligning,
      q.head,
      none,
      [],
      ms,
      rw busy refl,
      v,
      (refl, ground arith),
      stays-Moves e q v.sized,
      (refl, omega arith),
    )
  ]

  aligning-Stepped : q.head ≢ q.tail → Stepped e q aligning [] ms (pop_step e aligning q)
  unfolding pop_step
  aligning-Stepped ne = elim (Bool-cases (ltb q.head q.tail)) [
    | inl ahead ↦ (
      checking,
      q.head,
      none,
      [],
      ms,
      rw ahead refl,
      v,
      (refl, inr (below-IsFront ne (inr (ground arith)))),
      stays-Moves e q v.sized,
      (refl, omega arith),
    )
    | inr behind ↦ (
      at_pad,
      q.head,
      none,
      [],
      ms,
      rw behind refl,
      v,
      (refl, ground arith),
      stays-Moves e q v.sized,
      (refl, omega arith),
    )
  ]

  at_pad-Stepped : q.tail < q.head → Stepped e q at_pad [] ms (pop_step e at_pad q)
  unfolding pop_step
  at_pad-Stepped behind = elim (head-cases e q ms v behind) [
    | inl (pad, good) ↦ (
      turning,
      q.head,
      none,
      [],
      ms,
      rw (found pad) refl,
      v,
      (refl, behind, pad),
      stays-Moves e q v.sized,
      (refl, omega arith),
    )
    | inr front ↦ (
      checking,
      q.head,
      none,
      [],
      ms,
      rw ((IsFront-sound e q ms v.sized front).0) refl,
      v,
      (refl, inr front),
      stays-Moves e q v.sized,
      (refl, omega arith),
    )
  ]
    where
      found :
          IsPad e q q.head
          → (ltb (q.shm_size - q.head) 4 || (len_at e q.mem q.head == 0xFFFFFFFF)) ≡ true
      found pad = ground arith

  turning-Stepped :
      q.tail < q.head → IsPad e q q.head → Stepped e q turning [] ms (pop_step e turning q)
  unfolding pop_step
  turning-Stepped behind pad = elim (head-cases e q ms v behind) [
    | inl (_, good) ↦ (
      checking,
      head_size,
      none,
      [],
      ms,
      refl,
      good,
      (refl, inl refl),
      (omega arith, inr (behind, inr v.sized.tail_low)),
      (refl, omega arith),
    )
    | inr front ↦ absurd (no_pad (IsFront-sound e q ms v.sized front).0 pad)
  ]
    where
      no_pad :
          (ltb (q.shm_size - q.head) 4 || (len_at e q.mem q.head == 0xFFFFFFFF)) ≡ false
          → IsPad e q q.head
          → ⊥
      no_pad sound pad = ground arith

  checking-Stepped :
      (q.head ≡ head_size) ⊎ IsFront e q ms → Stepped e q checking [] ms (pop_step e checking q)
  unfolding pop_step
  checking-Stepped known = elim (Bool-cases (q.head == q.tail)) [
    | inl same ↦ (
      resting,
      q.head,
      some none,
      [],
      ms,
      rw same refl,
      v,
      refl,
      stays-Moves e q v.sized,
      (refl, same-empty (ground arith), refl, same-empty (ground arith)),
    )
    | inr busy ↦ (
      reading,
      q.head,
      none,
      [],
      ms,
      rw busy refl,
      v,
      (
        refl,
        elim known [ inl start ↦ below-IsFront (ground arith) (inl start) | inr front ↦ front ],
      ),
      stays-Moves e q v.sized,
      (refl, omega arith),
    )
  ]

  reading-Stepped : IsFront e q ms → Stepped e q reading [] ms (pop_step e reading q)
  unfolding pop_step
  reading-Stepped front = (
    advancing,
    q.head,
    none,
    [],
    ms,
    rw ((IsFront-sound e q ms v.sized front).1) refl,
    v,
    (refl, front),
    stays-Moves e q v.sized,
    (refl, omega arith),
  )

  advancing-Stepped : IsFront e q ms → Stepped e q advancing [] ms (pop_step e advancing q)
  unfolding pop_step
  advancing-Stepped front =
      let (m, rest, next, eq, moved, blocks, good, moves) = IsFront-Taken e q ms v front in
      (
        returning q.head,
        next,
        none,
        m ∷ [],
        rest,
        rw moved refl,
        good,
        (m, refl, (v.sized.head_low, blocks)),
        moves,
        (eq, omega arith),
      )

  returning_step :
      (i : ℕ)
      → pop_step e (returning i) q
        ≡ some (resting, q, some (some (i + 4, (len_at e q.mem i + 2 ^ 32 - 4) % 2 ^ 32)))
  unfolding pop_step
  returning_step i = refl

  -- A step of `Pop`, wherever the call stands.
  pub pop_step-Stepped :
      (c : Consumer) (taken : List (List ℕ))
      → IsComing e q c taken ms
      → Stepped e q c taken ms (pop_step e c q)
  pop_step-Stepped resting taken eq =
      subst (λ t. Stepped e q resting t ms (pop_step e resting q)) (sym eq) resting-Stepped
  pop_step-Stepped aligning taken (eq, ne) =
      subst (λ t. Stepped e q aligning t ms (pop_step e aligning q)) (sym eq) (aligning-Stepped ne)
  pop_step-Stepped at_pad taken (eq, behind) =
      subst (λ t. Stepped e q at_pad t ms (pop_step e at_pad q)) (sym eq) (at_pad-Stepped behind)
  pop_step-Stepped turning taken (eq, behind, pad) =
      subst (λ t. Stepped e q turning t ms (pop_step e turning q)) (sym eq)
        (turning-Stepped behind pad)
  pop_step-Stepped checking taken (eq, known) =
      subst (λ t. Stepped e q checking t ms (pop_step e checking q)) (sym eq)
        (checking-Stepped known)
  pop_step-Stepped reading taken (eq, front) =
      subst (λ t. Stepped e q reading t ms (pop_step e reading q)) (sym eq) (reading-Stepped front)
  pop_step-Stepped advancing taken (eq, front) =
      subst (λ t. Stepped e q advancing t ms (pop_step e advancing q)) (sym eq)
        (advancing-Stepped front)
  pop_step-Stepped (returning i) taken (m, eq, (low, (block, next, step, ends))) =
      let fits : length m + 4 ≤ q.elem_max_size = block.3 in
      (
        resting,
        q.head,
        some (some (i + 4, (len_at e q.mem i + 2 ^ 32 - 4) % 2 ^ 32)),
        [],
        ms,
        returning_step i,
        v,
        refl,
        stays-Moves e q v.sized,
        (
          m,
          eq,
          refl,
          refl,
          ap (λ n. (n + 2 ^ 32 - 4) % 2 ^ 32) block.0
              ∙ omega (arith, v.sized.small, v.sized.elem_small),
          (i, refl, (low, (block, next, step, ends))),
        ),
      )
