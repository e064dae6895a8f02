-- ===== src/BufferPool/Steps.antt =====
-- A pool and its users.
use libant.Common.{ℕ, suc, ◌<◌, ◌≡◌, List, [], ◌∷◌, ◌++◌, map, Option, none, some}
use libant.BufferPool.{Buffer, Pool, create_buffer_pool, get_buffer, give_back, destroy}

-- The pool as long as it exists, the buffers handed out, the numbers of those deleted, and how many
-- there were ever.
pub record System : Type 0 where
  pub pool : Option Pool
  pub in_use : List Buffer
  pub deleted : List ℕ
  pub count : ℕ

abbrev pub ids : List Buffer → List ℕ
ids bs = map (λ (b : Buffer). b.id) bs

abbrev pub pooled : Option Pool → List Buffer
pooled none = []
pooled (some p) = p.pooled_buffers

-- How many buffers there were after `GetBuffer`, which allocates one if the pool is empty.
abbrev pub allocated : Pool → ℕ → ℕ
allocated p n = elim p.pooled_buffers [ [] ↦ suc n | b ∷ bs ↦ n ]

abbrev pub fresh : ℕ → System
fresh max = record { pool = some (create_buffer_pool max); in_use = []; deleted = []; count = 0 }

abbrev pub after_get : System → ℕ → Buffer × Pool → System
after_get s n (b, q) = record s { pool = some q; in_use = b ∷ s.in_use; count = n }

abbrev pub after_give : System → List Buffer → List Buffer → Option Pool × List Buffer → System
after_give s us vs (q, gone) = record s {
  pool = q;
  in_use = us ++ vs;
  deleted = ids gone ++ s.deleted;
}

-- No buffer grows beyond `limit`.
pub data Step (limit : ℕ) (s t : System) : Type 0 where
  gets :
      (p : Pool) (capacity : ℕ)
      → capacity < limit
      → s.pool ≡ some p
      → t
        ≡ after_get s
            (allocated p s.count)
            (get_buffer (record { id = s.count; capacity = capacity }) p)
      → Step limit s t
  uses :
      (us vs : List Buffer) (b : Buffer) (capacity : ℕ)
      → capacity < limit
      → s.in_use ≡ us ++ (b ∷ vs)
      → t ≡ record s { in_use = us ++ (record b { capacity = capacity } ∷ vs) }
      → Step limit s t
  gives :
      (us vs : List Buffer) (b : Buffer)
      → s.in_use ≡ us ++ (b ∷ vs)
      → t ≡ after_give s us vs (give_back b s.pool)
      → Step limit s t
  destroys : t ≡ after_give s [] s.in_use (destroy s.pool) → Step limit s t

pub data Reach (limit : ℕ) (s : System) : System → Type 0 where
  here : Reach limit s s
  next : {t u : System} → Reach limit s t → Step limit t u → Reach limit s u
