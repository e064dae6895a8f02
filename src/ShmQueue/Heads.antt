-- ===== src/ShmQueue/Heads.antt =====
-- A step of Pop on a valid queue: no assert fails, and the oldest message is handed out.
use mathlib.Core.Path.{subst}
use libant.Common.{
  ℕ, ◌+◌, ◌-◌, ◌%◌, ◌^◌, ◌≤◌, ◌<◌, ◌≡◌, ◌≢◌, ◌⊎◌, inl, inr, refl, sym, ap, ◌∙◌, arith,
}
use libant.Common.{
  List, [], ◌∷◌, ◌++◌, length, Option, none, some, ltb, leb, ◌==◌, ◌||◌, true, false,
}
use libant.Endian.{Endian}
use libant.ShmQueue.{Queue, Consumer, resting, aligning, at_pad, turning, checking, reading}
use libant.ShmQueue.{advancing, returning, head_size, len_at}
use libant.ShmQueue.Blocks.{Block, Blocks, Blocks-le}
use libant.ShmQueue.Valid.{IsSized, IsValid, Straight, IsPad, IsHeld, IsFront}
use libant.ShmQueue.Valid.{IsComing}
use libant.ShmQueue.Pops.{at, moved-IsSized}

-- A bound for the steps that a call of `Pop` still takes behind the next one.
abbrev pub pops_left : Consumer → ℕ
pops_left resting = 7
pops_left aligning = 6
pops_left at_pad = 5
pops_left turning = 4
pops_left checking = 3
pops_left reading = 2
pops_left advancing = 1
pops_left (returning i) = 0

-- The head stays where it is or goes on, up to the tail, or goes round to the start.
abbrev pub Moves : Queue → ℕ → Type 0
Moves q h =
    (head_size ≤ h)
    × (((q.head ≤ q.tail) × (q.head ≤ h) × (h ≤ q.tail))
        ⊎ ((q.tail < q.head) × ((q.head ≤ h) ⊎ (h ≤ q.tail))))

module _ (e : Endian) where
  -- How the result of a step accounts for the messages: `taken` is what the call was about to return,
  -- `ms` what was in the queue, with a prime behind the step.
  abbrev pub Accounts :
      Queue
      → Consumer
      → Consumer
      → List (List ℕ)
      → List (List ℕ)
      → List (List ℕ)
      → List (List ℕ)
      → Option (Option (ℕ × ℕ))
      → Type 0
  Accounts q c c' taken ms taken' ms' none =
      (taken ++ ms ≡ taken' ++ ms') × (pops_left c' < pops_left c)
  Accounts q c c' taken ms taken' ms' (some none) =
      (taken ≡ []) × (ms ≡ []) × (taken' ≡ []) × (ms' ≡ [])
  Accounts q c c' taken ms taken' ms' (some (some (pos, len))) =
      (m : List ℕ) × (taken ≡ m ∷ [])
      × (taken' ≡ [])
      × (ms' ≡ ms)
      × (len ≡ length m)
      × IsHeld e q (some (pos, m))

  abbrev pub Stepped :
      Queue
      → Consumer
      → List (List ℕ)
      → List (List ℕ)
      → Option (Consumer × Queue × Option (Option (ℕ × ℕ)))
      → Type 0
  Stepped q c taken ms result =
      (c' : Consumer) × (h : ℕ) × (o : Option (Option (ℕ × ℕ))) × (taken' : List (List ℕ))
      × (ms' : List (List ℕ)) × (result ≡ some (c', at e q h, o))
      × IsValid e (at e q h) ms'
      × IsComing e (at e q h) c' taken' ms'
      × Moves q h
      × Accounts (at e q h) c c' taken ms taken' ms' o

  pub stays-Moves : (q : Queue) → IsSized q → Moves q q.head
  stays-Moves q s = (s.head_low, ground arith)

  pub Straight-IsFront :
      (q : Queue) (ms : List (List ℕ)) → Straight e q ms → q.head ≢ q.tail → IsFront e q ms
  Straight-IsFront q [] same ne = absurd (ne same)
  Straight-IsFront q (m ∷ rest) (block, next, eq, blocks) ne = (
    m,
    rest,
    next,
    refl,
    (block, next, eq, refl),
    inl (Blocks-le e q.elem_max_size q.mem next q.tail rest blocks),
  )

  pub Straight-empty :
      (q : Queue) (ms : List (List ℕ)) → Straight e q ms → q.head ≡ q.tail → ms ≡ []
  Straight-empty q [] same eq = refl
  Straight-empty q (m ∷ rest) (block, next, eq', blocks) eq =
      absurd (omega (arith, Blocks-le e q.elem_max_size q.mem next q.tail rest blocks))

  -- The head behind the tail is at the end of the first part, or at a block.
  pub head-cases :
      (q : Queue) (ms : List (List ℕ))
      → IsValid e q ms
      → q.tail < q.head
      → (IsPad e q q.head × IsValid e (at e q head_size) ms) ⊎ IsFront e q ms
  head-cases q ms v behind = elim v.layout [
    | inl straight ↦
        absurd (omega (arith, Blocks-le e q.elem_max_size q.mem q.head q.tail ms straight))
    | inr ([], second, p, _, eq, blocks, inside, pad, rest) ↦ inl (
      subst (IsPad e q) (sym blocks) pad,
      record {
        sized =
            moved-IsSized e q head_size v.sized (omega arith)
              (omega (arith, v.sized.head_low, v.sized.head_high));
        layout = inl (subst (λ l. Blocks e q.elem_max_size q.mem head_size l q.tail) (sym eq) rest);
      },
    )
    | inr (m ∷ first, second, p, _, eq, (block, next, step, blocks), inside, pad, rest) ↦ inr (
      m,
      first ++ second,
      next,
      eq,
      (block, next, step, refl),
      inr (behind, omega (arith, Blocks-le e q.elem_max_size q.mem next p first blocks)),
    )
  ]

  -- A block at the head is no pad.
  pub IsFront-sound :
      (q : Queue) (ms : List (List ℕ))
      → IsSized q
      → IsFront e q ms
      → ((ltb (q.shm_size - q.head) 4 || (len_at e q.mem q.head == 0xFFFFFFFF)) ≡ false)
        × (leb (len_at e q.mem q.head) q.elem_max_size ≡ true)
  IsFront-sound q ms s (m, rest, end, eq, (block, next, step, ends), place) =
      let fits : length m + 4 ≤ q.elem_max_size = block.3 in
      let inside : end ≤ q.shm_size = elim place [
        | inl below ↦ omega (arith, s.tail_high)
        | inr above ↦ above.1
      ] in
      let small : length m + 4 < 0xFFFFFFFF = omega (arith, s.small, s.elem_small) in
      (rw block.0 (ground arith), rw block.0 (ground arith))

  -- The block at the head is taken.
  abbrev pub Taken : Queue → List (List ℕ) → Type 0
  Taken q ms =
      (m : List ℕ) × (rest : List (List ℕ)) × (next : ℕ) × (ms ≡ m ∷ rest)
      × ((q.head + len_at e q.mem q.head) % 2 ^ 32 ≡ next)
      × Blocks e q.elem_max_size q.mem q.head (m ∷ []) next
      × IsValid e (at e q next) rest
      × Moves q next

  take-Block :
      (q : Queue) (m : List ℕ) (next : ℕ)
      → IsSized q
      → Block e q.elem_max_size q.mem q.head m
      → next ≡ q.head + length m + 4
      → next ≤ q.shm_size
      → (q.head + len_at e q.mem q.head) % 2 ^ 32 ≡ next
  take-Block q m next s block eq inside =
      ap (λ n. (q.head + n) % 2 ^ 32) block.0 ∙ omega (arith, s.small)

  Straight-Taken :
      (q : Queue) (ms : List (List ℕ)) → IsSized q → Straight e q ms → IsFront e q ms → Taken q ms
  Straight-Taken q [] s same (m, rest, end, eq, blocks, place) = absurd (cc)
  Straight-Taken q (m ∷ rest) s (block, next, eq, blocks) front =
      let le : next ≤ q.tail = Blocks-le e q.elem_max_size q.mem next q.tail rest blocks in
      let inside : next ≤ q.shm_size = omega (arith, s.tail_high) in
      (
        m,
        rest,
        next,
        refl,
        take-Block q m next s block eq inside,
        (block, next, eq, refl),
        record {
          sized = moved-IsSized e q next s (omega (arith, s.head_low)) inside;
          layout = inl blocks;
        },
        (omega (arith, s.head_low), inl (omega arith, omega arith, le)),
      )

  pub IsFront-Taken :
      (q : Queue) (ms : List (List ℕ)) → IsValid e q ms → IsFront e q ms → Taken q ms
  IsFront-Taken q ms v front = elim v.layout [
    | inl straight ↦ Straight-Taken q ms v.sized straight front
    | inr ([], second, p, behind, eq, blocks, inside, pad, rest) ↦
        absurd (no_pad (IsFront-sound q ms v.sized front).0 (subst (IsPad e q) (sym blocks) pad))
    | inr (m ∷ first, second, p, behind, eq, (block, next, step, blocks), inside, pad, rest) ↦
        let le : next ≤ p = Blocks-le e q.elem_max_size q.mem next p first blocks in
        (
          m,
          first ++ second,
          next,
          eq,
          take-Block q m next v.sized block step (omega arith),
          (block, next, step, refl),
          record {
            sized = moved-IsSized e q next v.sized (omega (arith, v.sized.head_low)) (omega arith);
            layout = inr (first, second, p, omega arith, refl, blocks, inside, pad, rest);
          },
          (omega (arith, v.sized.head_low), inr (behind, inl (omega arith))),
        )
  ]
    where
      no_pad :
          (ltb (q.shm_size - q.head) 4 || (len_at e q.mem q.head == 0xFFFFFFFF)) ≡ false
          → IsPad e q q.head
          → ⊥
      no_pad sound pad = ground arith
