-- ===== src/BufferPool/Invariant.antt =====
-- How the steps of a pool of buffers and its users keep the sizes and the owners of the buffers.
use mathlib.Core.Path.{subst}
use mathlib.Core.List.{Perm, perm_middle, perm_append_comm, map-append}
use mathlib.Core.List.Perm
use libant.Common.{ℕ, zero, suc, ◌+◌, ◌-◌, ◌%◌, ◌^◌, ◌≤◌, ◌<◌, ◌≡◌, refl, sym, ap, ◌∙◌, arith, leb}
use libant.Common.{
  Bool-cases, inl, inr, List, [], ◌∷◌, ◌++◌, append_assoc, nested-Perm, Option, none, some,
}
use libant.BufferPool.{Buffer, Pool, get_buffer, free_buffer, give_back, destroy}
use libant.BufferPool.Steps.{System, ids, pooled, allocated, after_get, after_give}

-- The capacities of buffers, added up.
unfoldable pub total : List Buffer → ℕ
total [] = 0
total (b ∷ bs) = b.capacity + total bs

-- The numbers below `n`.
unfoldable pub iota : ℕ → List ℕ
iota zero = []
iota (suc n) = n ∷ iota n

unfoldable pub AllBelow : ℕ → List Buffer → Type 0
AllBelow limit [] = Unit
AllBelow limit (b ∷ bs) = (b.capacity < limit) × AllBelow limit bs

AllBelow_at :
    (limit : ℕ) (us vs : List Buffer) (b : Buffer)
    → AllBelow limit (us ++ (b ∷ vs))
    → (b.capacity < limit) × AllBelow limit (us ++ vs)
unfolding AllBelow
AllBelow_at limit [] vs b h = h
AllBelow_at limit (u ∷ us) vs b (hu, h) =
    let (hb, rest) = AllBelow_at limit us vs b h in (hb, (hu, rest))

AllBelow_put :
    (limit : ℕ) (us vs : List Buffer) (b : Buffer)
    → b.capacity < limit
    → AllBelow limit (us ++ vs)
    → AllBelow limit (us ++ (b ∷ vs))
unfolding AllBelow
AllBelow_put limit [] vs b hb h = (hb, h)
AllBelow_put limit (u ∷ us) vs b hb (hu, h) = (hu, AllBelow_put limit us vs b hb h)

-- `curPooledSize_` is the size of what is in the pool, and within the limit.
unfoldable pub IsSized : ℕ → Option Pool → Type 0
IsSized max none = Unit
IsSized max (some p) =
    (p.max_pooled_size ≡ max)
    × (p.cur_pooled_size ≡ total p.pooled_buffers)
    × (p.cur_pooled_size ≤ max)

pub record IsGood (max limit : ℕ) (s : System) : Type 0 where
  pub sized : IsSized max s.pool
  pub kept : AllBelow limit (pooled s.pool)
  pub small : AllBelow limit s.in_use
  pub share : Perm (iota s.count) (s.deleted ++ (ids (pooled s.pool) ++ ids s.in_use))

ids_append : (us vs : List Buffer) → ids (us ++ vs) ≡ ids us ++ ids vs
ids_append us vs = map-append (λ (b : Buffer). b.id) us vs

module _ (max limit : ℕ) (room : max + limit ≤ 2 ^ 64) where
  pub gets-IsGood :
      (s : System) (p : Pool) (capacity : ℕ)
      → capacity < limit
      → s.pool ≡ some p
      → IsGood max limit s
      → IsGood max limit (
          after_get s
            (allocated p s.count)
            (get_buffer (record { id = s.count; capacity = capacity }) p))
  unfolding get_buffer IsSized AllBelow total iota
  gets-IsGood s p capacity low eq g = got p.pooled_buffers refl
    where
      sized : IsSized max (some p)
      sized = subst (IsSized max) eq g.sized

      share : Perm (iota s.count) (s.deleted ++ (ids p.pooled_buffers ++ ids s.in_use))
      share =
          subst (λ q. Perm (iota s.count) (s.deleted ++ (ids (pooled q) ++ ids s.in_use))) eq
            g.share

      kept : AllBelow limit p.pooled_buffers
      kept = subst (λ q. AllBelow limit (pooled q)) eq g.kept

      got :
          (l : List Buffer)
          → p.pooled_buffers ≡ l
          → IsGood max limit (
              after_get s
                (elim l [ [] ↦ suc s.count | b ∷ bs ↦ s.count ])
                (elim l as (λ _. Buffer × Pool) [
                  | [] ↦ (record { id = s.count; capacity = capacity }, p)
                  | b ∷ bs ↦ (
                    b,
                    record p {
                      cur_pooled_size = (p.cur_pooled_size + 2 ^ 64 - b.capacity) % 2 ^ 64;
                      pooled_buffers = bs;
                    },
                  )
                ]))
      got [] same = record {
        sized = sized;
        kept = kept;
        small = (low, g.small);
        share =
            subst
              (λ l.
                Perm (s.count ∷ iota s.count) (s.deleted ++ (ids l ++ (s.count ∷ ids s.in_use))))
              (sym same)
              (Perm.trans
                (Perm.cons s.count (
                  subst (λ l. Perm (iota s.count) (s.deleted ++ (ids l ++ ids s.in_use))) same
                    share))
                (Perm.symm (perm_middle s.deleted (ids s.in_use))));
      }
      got (b ∷ bs) same =
          let held : AllBelow limit (b ∷ bs) = subst (AllBelow limit) same kept in
          let size : total p.pooled_buffers ≡ b.capacity + total bs = ap total same in
          record {
            sized = (sized.0, omega (arith, sized.1, sized.2), omega (arith, sized.1, sized.2));
            kept = held.1;
            small = (held.0, g.small);
            share =
                Perm.trans
                  (subst (λ l. Perm (iota s.count) (s.deleted ++ (ids l ++ ids s.in_use))) same
                    share)
                  (Perm.append_left s.deleted (Perm.symm (perm_middle (ids bs) (ids s.in_use))));
          }

  pub uses-IsGood :
      (s : System) (us vs : List Buffer) (b : Buffer) (capacity : ℕ)
      → capacity < limit
      → s.in_use ≡ us ++ (b ∷ vs)
      → IsGood max limit s
      → IsGood max limit (record s { in_use = us ++ (record b { capacity = capacity } ∷ vs) })
  uses-IsGood s us vs b capacity low eq g = record {
    sized = g.sized;
    kept = g.kept;
    small =
        AllBelow_put limit us vs (record b { capacity = capacity }) low
          (AllBelow_at limit us vs b (subst (AllBelow limit) eq g.small)).1;
    share =
        subst (λ l. Perm (iota s.count) (s.deleted ++ (ids (pooled s.pool) ++ l)))
          (ap ids eq
            ∙ ids_append us (b ∷ vs)
            ∙ sym (ids_append us (record b { capacity = capacity } ∷ vs)))
          g.share;
  }

  -- A buffer from the middle of those in use goes to the front of all.
  given-Perm :
      (s : System) (us vs : List Buffer) (b : Buffer) (d p : List ℕ)
      → s.in_use ≡ us ++ (b ∷ vs)
      → Perm (iota s.count) (d ++ (p ++ ids s.in_use))
      → Perm (iota s.count) (d ++ (b.id ∷ (p ++ ids (us ++ vs))))
  given-Perm s us vs b d p eq h =
      Perm.trans
        (subst (λ l. Perm (iota s.count) (d ++ (p ++ l))) (ap ids eq ∙ ids_append us (b ∷ vs)) h)
        (subst (λ l. Perm (d ++ (p ++ (ids us ++ (b.id ∷ ids vs)))) (d ++ (b.id ∷ (p ++ l))))
          (sym (ids_append us vs)) (Perm.append_left d (nested-Perm b.id p (ids us) (ids vs))))

  pub gives-IsGood :
      (s : System) (us vs : List Buffer) (b : Buffer)
      → s.in_use ≡ us ++ (b ∷ vs)
      → IsGood max limit s
      → IsGood max limit (after_give s us vs (give_back b s.pool))
  unfolding give_back free_buffer IsSized AllBelow total
  gives-IsGood s us vs b eq g = given s.pool refl
    where
      small : (b.capacity < limit) × AllBelow limit (us ++ vs)
      small = AllBelow_at limit us vs b (subst (AllBelow limit) eq g.small)

      deleted-Perm :
          (l : List ℕ)
          → Perm (iota s.count) (s.deleted ++ (l ++ ids s.in_use))
          → Perm (iota s.count) ((b.id ∷ s.deleted) ++ (l ++ ids (us ++ vs)))
      deleted-Perm l h =
          Perm.trans (given-Perm s us vs b s.deleted l eq h)
            (perm_middle s.deleted (l ++ ids (us ++ vs)))

      given : (o : Option Pool) → s.pool ≡ o → IsGood max limit (after_give s us vs (give_back b o))
      given none same = record {
        sized = tt;
        kept = tt;
        small = small.1;
        share = deleted-Perm [] (
            subst (λ q. Perm (iota s.count) (s.deleted ++ (ids (pooled q) ++ ids s.in_use))) same
              g.share);
      }
      given (some p) same =
          let sized : IsSized max (some p) = subst (IsSized max) same g.sized in
          let kept : AllBelow limit p.pooled_buffers =
            subst (λ q. AllBelow limit (pooled q)) same g.kept in
          let share : Perm (iota s.count) (s.deleted ++ (ids p.pooled_buffers ++ ids s.in_use)) =
            subst (λ q. Perm (iota s.count) (s.deleted ++ (ids (pooled q) ++ ids s.in_use))) same
              g.share in
          let whole : (p.cur_pooled_size + b.capacity) % 2 ^ 64 ≡ p.cur_pooled_size + b.capacity =
            omega (arith, sized.2, small.0, room) in
          elim (Bool-cases (leb ((p.cur_pooled_size + b.capacity) % 2 ^ 64) p.max_pooled_size)) [
            | inl fits ↦ rw fits (record {
              sized = (sized.0, omega (arith, sized.1), ground (arith, sized.0, fits));
              kept = (small.0, kept);
              small = small.1;
              share = given-Perm s us vs b s.deleted (ids p.pooled_buffers) eq share;
            })
            | inr full ↦ rw full (record {
              sized = sized;
              kept = kept;
              small = small.1;
              share = deleted-Perm (ids p.pooled_buffers) share;
            })
          ]

  pub destroys-IsGood :
      (s : System)
      → IsGood max limit s
      → IsGood max limit (after_give s [] s.in_use (destroy s.pool))
  unfolding destroy IsSized AllBelow
  destroys-IsGood s g = gone s.pool refl
    where
      gone :
          (o : Option Pool) → s.pool ≡ o → IsGood max limit (after_give s [] s.in_use (destroy o))
      gone none same = record {
        sized = tt;
        kept = tt;
        small = g.small;
        share =
            subst (λ q. Perm (iota s.count) (s.deleted ++ (ids (pooled q) ++ ids s.in_use))) same
              g.share;
      }
      gone (some p) same =
          let l = ids p.pooled_buffers in
          record {
            sized = tt;
            kept = tt;
            small = g.small;
            share =
                Perm.trans
                  (subst (λ q. Perm (iota s.count) (s.deleted ++ (ids (pooled q) ++ ids s.in_use)))
                    same g.share)
                  (subst (λ m. Perm m ((l ++ s.deleted) ++ ids s.in_use))
                    (append_assoc s.deleted l (ids s.in_use))
                    (Perm.append_right (ids s.in_use) (perm_append_comm s.deleted l)));
          }
