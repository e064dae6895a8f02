-- ===== src/ShmQueue/Aligns.antt =====
-- Going round to the start of the segment keeps the queue valid.
use libant.Common.{ℕ, ◌+◌, ◌-◌, ◌≤◌, ◌<◌, ◌≡◌, ◌⊎◌, inl, inr, refl, sym, ap, ◌∙◌, arith}
use mathlib.Core.Path.{subst}
use libant.Common.{List, [], length, slice, store_at, length-store_at, slice-store_at}
use libant.Common.{append-nil}
use libant.Common.{Bool-cases, leb, true}
use libant.Endian.{Endian, stored, loaded}
use libant.Endian.Order.{loaded-stored, length-stored}
use libant.ShmQueue.{Queue, head_size, len_at, align_tail, write_pad, turn_tail, can_align}
use libant.ShmQueue.Blocks.{Blocks, Blocks-store_at}
use libant.ShmQueue.Valid.{IsSized, IsValid, Straight, Wrapped}

module _ (e : Endian) where
  -- The pad at the end of the segment, and the tail back at its start.
  padded : Queue → List ℕ → Queue
  padded q mem = record q { mem = mem; tail = head_size }

  align_tail_lem :
      (q : Queue)
      → q.tail ≤ q.shm_size
      → ((q.tail + 4 ≤ q.shm_size)
          × (align_tail e q ≡ padded q (store_at q.mem q.tail (stored e 4 0xFFFFFFFF))))
        ⊎ ((q.shm_size < q.tail + 4) × (align_tail e q ≡ padded q q.mem))
  unfolding align_tail write_pad turn_tail padded
  align_tail_lem q high = elim (Bool-cases (leb 4 (q.shm_size - q.tail))) [
    | inl room ↦ inl (ground arith, rw room refl)
    | inr edge ↦ inr (ground arith, rw edge refl)
  ]

  padded-IsValid :
      (q : Queue) (mem : List ℕ) (ms : List (List ℕ))
      → IsSized q
      → head_size < q.head
      → length mem ≡ length q.mem
      → Blocks e q.elem_max_size mem q.head ms q.tail
      → (q.shm_size < q.tail + 4) ⊎ (len_at e mem q.tail ≡ 0xFFFFFFFF)
      → IsValid e (padded q mem) ms
  unfolding padded
  padded-IsValid q mem ms s above same blocks pad = record {
    sized = record {
      head_low = s.head_low;
      tail_low = omega arith;
      head_high = s.head_high;
      tail_high = omega (arith, s.head_low, s.head_high);
      whole = same ∙ s.whole;
      small = s.small;
      elem_small = s.elem_small;
      elem_some = s.elem_some;
    };
    layout = inr (ms, [], q.tail, above, sym (append-nil ms), blocks, s.tail_high, pad, refl);
  }

  -- The conclusion on the queue behind `align_tail`: it is valid and ready for any message.
  abbrev pub Aligned : Queue → List (List ℕ) → Queue → Type 0
  Aligned q ms q' =
      IsValid e q' ms
      × (q'.head ≡ q.head)
      × (q'.tail ≡ head_size)
      × (q'.shm_size ≡ q.shm_size)
      × (q'.elem_max_size ≡ q.elem_max_size)

  pub align_tail-Aligned :
      (q : Queue) (ms : List (List ℕ))
      → IsValid e q ms
      → can_align q ≡ true
      → Aligned q ms (align_tail e q)
  unfolding padded
  align_tail-Aligned q ms v can =
      let s : IsSized q = v.sized in
      let above : head_size < q.head = ground arith in
      let below : q.head ≤ q.tail = ground arith in
      let pad : List ℕ = stored e 4 0xFFFFFFFF in
      let four : length pad ≡ 4 = length-stored e 4 0xFFFFFFFF in
      let blocks : Straight e q ms = straight v.layout below in
      elim (align_tail_lem q s.tail_high) [
        | inl (room, eq) ↦ subst (Aligned q ms) (sym eq) (
          padded-IsValid q (store_at q.mem q.tail pad) ms s above (length-store_at q.mem q.tail pad)
              (Blocks-store_at e q.elem_max_size q.mem pad q.tail q.head q.tail ms
                (inl (omega arith)) blocks)
              (inr (
                ap (loaded e) (
                  ap (slice (store_at q.mem q.tail pad) q.tail) (sym four)
                  ∙ slice-store_at q.tail q.mem pad (omega (arith, s.whole)))
                ∙ loaded-stored e 4 0xFFFFFFFF (omega arith))),
          refl,
          refl,
          refl,
          refl,
        )
        | inr (edge, eq) ↦
            subst (Aligned q ms) (sym eq)
              (padded-IsValid q q.mem ms s above refl blocks (inl edge), refl, refl, refl, refl)
      ]
    where
      straight : Straight e q ms ⊎ Wrapped e q ms → q.head ≤ q.tail → Straight e q ms
      straight (inl blocks) below = blocks
      straight (inr (first, second, p, behind, _, _, _, _, _)) below = absurd (omega arith)
