-- ===== src/BufferPool/Tests.antt =====
-- The witnesses of the properties of the pool of buffers.
use mathlib.Core.List.{Perm}
use libant.Common.{◌≤◌, ◌≡◌, refl, arith, [], ◌∷◌, ◌++◌, some}
use libant.BufferPool.{Buffer, Pool, create_buffer_pool, get_buffer, free_buffer, give_back}
use libant.BufferPool.Steps.{System, Step, Reach, ids, pooled, fresh, after_get, after_give}
use libant.BufferPool.Invariant.{iota, total}
use libant.BufferPool.Reachable.{Reach-owned, Reach-IsSized}

abbrev buffer : Buffer
buffer = record { id = 0; capacity = 15 }

-- A buffer is handed out, and comes back to the pool.
abbrev got : System
got = after_get (fresh 100) 1 (get_buffer buffer (create_buffer_pool 100))

abbrev given : System
given = after_give got [] [] (give_back buffer got.pool)

abbrev held : Pool
held = record { max_pooled_size = 100; cur_pooled_size = 15; pooled_buffers = buffer ∷ [] }

given-Reach : Reach 1000 (fresh 100) given
unfolding get_buffer
given-Reach =
    Reach.next
      (Reach.next Reach.here (Step.gets (create_buffer_pool 100) 15 (omega arith) refl refl))
      (Step.gives [] [] buffer refl refl)

given_held : given.pool ≡ some held
unfolding get_buffer give_back free_buffer
given_held = refl

Reach-owned_example :
    Perm (iota given.count) (given.deleted ++ (ids (pooled given.pool) ++ ids given.in_use))
Reach-owned_example = Reach-owned 100 1000 (omega arith) given given-Reach

Reach-IsSized_example :
    (held.max_pooled_size ≡ 100)
    × (held.cur_pooled_size ≡ total held.pooled_buffers)
    × (held.cur_pooled_size ≤ 100)
Reach-IsSized_example = Reach-IsSized 100 1000 (omega arith) given held given-Reach given_held
