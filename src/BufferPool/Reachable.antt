-- ===== src/BufferPool/Reachable.antt =====
-- What holds in every reachable state of a pool of buffers.
use mathlib.Core.Path.{subst}
use mathlib.Core.List.{Perm}
use mathlib.Core.List.Perm
use libant.Common.{ℕ, ◌+◌, ◌^◌, ◌≤◌, ◌≡◌, refl, sym, arith}
use libant.Common.{[], ◌++◌, some}
use libant.BufferPool.{Pool}
use libant.BufferPool.Steps.{System, Step, Reach, ids, pooled, fresh}
use libant.BufferPool.Invariant.{
  total, iota, AllBelow, IsSized, IsGood, gets-IsGood, uses-IsGood, gives-IsGood, destroys-IsGood,
}

module _ (max limit : ℕ) (room : max + limit ≤ 2 ^ 64) where
  Step-IsGood : (s t : System) → Step limit s t → IsGood max limit s → IsGood max limit t
  Step-IsGood s t (Step.gets p capacity low eq same) g =
      subst (IsGood max limit) (sym same) (gets-IsGood max limit room s p capacity low eq g)
  Step-IsGood s t (Step.uses us vs b capacity low eq same) g =
      subst (IsGood max limit) (sym same) (uses-IsGood max limit room s us vs b capacity low eq g)
  Step-IsGood s t (Step.gives us vs b eq same) g =
      subst (IsGood max limit) (sym same) (gives-IsGood max limit room s us vs b eq g)
  Step-IsGood s t (Step.destroys same) g =
      subst (IsGood max limit) (sym same) (destroys-IsGood max limit room s g)

  Reach-IsGood : (s : System) → Reach limit (fresh max) s → IsGood max limit s
  unfolding IsSized AllBelow total iota
  Reach-IsGood s Reach.here = record {
    sized = (refl, refl, omega arith);
    kept = tt;
    small = tt;
    share = Perm.refl [];
  }
  Reach-IsGood s (Reach.next {t = t} r st) = Step-IsGood t s st (Reach-IsGood t r)

  -- In every state that a pool and its users can reach, the destruction of the pool included, if no
  -- buffer grows to a size at which the sum with the pool's limit needs more than 64 bits: the buffers
  -- allocated so far are, each exactly once, those deleted, those in the pool and those in use. So
  -- no buffer is handed out to two users, deleted twice or lost.
  pub Reach-owned :
      (s : System)
      → Reach limit (fresh max) s
      → Perm (iota s.count) (s.deleted ++ (ids (pooled s.pool) ++ ids s.in_use))
  Reach-owned s reach = let g = Reach-IsGood s reach in g.share

  -- In every state that a pool and its users can reach while the pool exists, if no buffer grows to a
  -- size at which the sum with the pool's limit needs more than 64 bits: the pool's size in bytes is
  -- the sum of the capacities of its buffers, and is not over its limit, which does not change.
  pub Reach-IsSized :
      (s : System) (p : Pool)
      → Reach limit (fresh max) s
      → s.pool ≡ some p
      → (p.max_pooled_size ≡ max)
        × (p.cur_pooled_size ≡ total p.pooled_buffers)
        × (p.cur_pooled_size ≤ max)
  unfolding IsSized
  Reach-IsSized s p reach eq = let g = Reach-IsGood s reach in subst (IsSized max) eq g.sized
