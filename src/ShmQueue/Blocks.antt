-- ===== src/ShmQueue/Blocks.antt =====
-- A run of blocks in the segment, one behind the other, and what a store elsewhere does to it.
use libant.Common.{ℕ, ◌+◌, ◌≤◌, ◌<◌, ◌≡◌, ◌⊎◌, inl, inr, refl, sym, ap, ◌∙◌, arith}
use mathlib.Core.Path.{subst}
use libant.Common.{
  List, [], ◌∷◌, ◌++◌, length, slice, store_at, slice-store_at_before, slice-store_at_after,
}
use libant.Endian.{Endian, loaded}
use libant.ShmQueue.{len_at}

module _ (e : Endian) (max : ℕ) where
  -- The block of the message `m` is at `a`.
  abbrev pub Block : List ℕ → ℕ → List ℕ → Type 0
  Block mem a m =
      (len_at e mem a ≡ length m + 4)
      × (slice mem (a + 4) (length m) ≡ m)
      × (0 < length m)
      × (length m + 4 ≤ max)

  -- The messages' blocks reach from `a` to `b`.
  abbrev pub Blocks : List ℕ → ℕ → List (List ℕ) → ℕ → Type 0
  Blocks mem a [] b = a ≡ b
  Blocks mem a (m ∷ ms) b =
      Block mem a m × (next : ℕ) × (next ≡ a + length m + 4) × Blocks mem next ms b

  pub Blocks-le : (mem : List ℕ) (a b : ℕ) (ms : List (List ℕ)) → Blocks mem a ms b → a ≤ b
  Blocks-le mem a b [] h = omega arith
  Blocks-le mem a b (m ∷ ms) (block, next, eq, rest) = omega (arith, Blocks-le mem next b ms rest)

  -- A store behind the run or before it changes nothing in it.
  pub Blocks-store_at :
      (mem bs : List ℕ) (i a b : ℕ) (ms : List (List ℕ))
      → (b ≤ i) ⊎ (i + length bs ≤ a)
      → Blocks mem a ms b
      → Blocks (store_at mem i bs) a ms b
  Blocks-store_at mem bs i a b [] apart h = h
  Blocks-store_at mem bs i a b (m ∷ ms) (inl behind)
        ((len, text, some_text, fits), next, eq, rest) =
      (
        (
          ap (loaded e)
                (slice-store_at_before a 4 i mem bs (omega (arith, Blocks-le mem next b ms rest)))
              ∙ len,
          slice-store_at_before (a + 4) (length m) i mem bs
                (omega (arith, Blocks-le mem next b ms rest))
              ∙ text,
          some_text,
          fits,
        ),
        next,
        eq,
        Blocks-store_at mem bs i next b ms (inl behind) rest,
      )
  Blocks-store_at mem bs i a b (m ∷ ms) (inr before)
        ((len, text, some_text, fits), next, eq, rest) =
      (
        (
          ap (loaded e) (slice-store_at_after a 4 i mem bs before) ∙ len,
          slice-store_at_after (a + 4) (length m) i mem bs (omega arith) ∙ text,
          some_text,
          fits,
        ),
        next,
        eq,
        Blocks-store_at mem bs i next b ms (inr (omega arith)) rest,
      )

  pub Blocks-snoc :
      (mem m : List ℕ) (a b c : ℕ) (ms : List (List ℕ))
      → Blocks mem a ms b
      → Block mem b m
      → c ≡ b + length m + 4
      → Blocks mem a (ms ++ (m ∷ [])) c
  Blocks-snoc mem m a b c [] h block eq =
      (subst (λ n. Block mem n m) (sym h) block, c, omega arith, refl)
  Blocks-snoc mem m a b c (x ∷ ms) (first, next, eq, rest) block eq' =
      (first, next, eq, Blocks-snoc mem m next b c ms rest block eq')
