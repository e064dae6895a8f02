-- ===== src/Crypto/Xxtea/Round.antt =====
-- One round as a sequence of steps, each of which changes one word by its two neighbours, and so
-- can be undone.
use libant.Common.{ℕ, zero, suc, ◌^◌, ◌<◌, ◌≡◌, ◌≢◌}
use libant.Common.{refl, ap, ◌∙◌, arith}
use libant.Common.{List, [], ◌∷◌, length, get_or, set, length-set, xor-lt, if◌then◌else◌, ◌==◌}
use libant.Crypto.Xxtea.{mx, key_shift, add_mx, sub_mx, add32, sub32}

module _ {ℓ} {A : Type ℓ} where
  pub get_or-set_self :
      (xs : List A) (i : ℕ) (v d : A) → i < length xs → get_or (set xs i v) i d ≡ v
  get_or-set_self [] i v d h = absurd (omega arith)
  get_or-set_self (x ∷ xs) zero v d h = refl
  get_or-set_self (x ∷ xs) (suc i) v d h = get_or-set_self xs i v d (omega arith)

  pub get_or-set_ne :
      (xs : List A) (i j : ℕ) (v d : A) → i ≢ j → get_or (set xs i v) j d ≡ get_or xs j d
  get_or-set_ne [] i j v d h = refl
  get_or-set_ne (x ∷ xs) zero zero v d h = absurd (h refl)
  get_or-set_ne (x ∷ xs) zero (suc j) v d h = refl
  get_or-set_ne (x ∷ xs) (suc i) zero v d h = refl
  get_or-set_ne (x ∷ xs) (suc i) (suc j) v d h = get_or-set_ne xs i j v d (λ e. h (ap suc e))

  pub set-set : (xs : List A) (i : ℕ) (v w : A) → set (set xs i v) i w ≡ set xs i w
  set-set [] i v w = refl
  set-set (x ∷ xs) zero v w = refl
  set-set (x ∷ xs) (suc i) v w = ap (◌∷◌ x) (set-set xs i v w)

  pub set-get_or : (xs : List A) (i : ℕ) (d : A) → set xs i (get_or xs i d) ≡ xs
  set-get_or [] i d = refl
  set-get_or (x ∷ xs) zero d = refl
  set-get_or (x ∷ xs) (suc i) d = ap (◌∷◌ x) (set-get_or xs i d)

-- The neighbours of a place in a ring of `n + 1` words.
abbrev pub before : ℕ → ℕ → ℕ
before n zero = n
before n (suc p) = p

abbrev pub after : ℕ → ℕ → ℕ
after n p = if p == n then 0 else suc p

-- Every word has 32 bits.
abbrev pub AreWords : List ℕ → Type 0
AreWords [] = Unit
AreWords (w ∷ ws) = (w < 2 ^ 32) × AreWords ws

pub get_or-lt : (d : List ℕ) (i : ℕ) → AreWords d → get_or d i 0 < 2 ^ 32
get_or-lt [] i h = omega arith
get_or-lt (w ∷ d) zero h = h.0
get_or-lt (w ∷ d) (suc i) h = get_or-lt d i h.1

pub set-AreWords : (d : List ℕ) (i v : ℕ) → v < 2 ^ 32 → AreWords d → AreWords (set d i v)
set-AreWords [] i v hv h = tt
set-AreWords (w ∷ d) zero v hv h = (hv, h.1)
set-AreWords (w ∷ d) (suc i) v hv h = (h.0, set-AreWords d i v hv h.1)

mx-lt : (key : List ℕ) (sum e p y z : ℕ) → mx key sum e p y z < 2 ^ 32
unfolding mx
mx-lt key sum e p y z = xor-lt 32 _ _ (omega arith) (omega arith)

cancel : (w m : ℕ) → w < 2 ^ 32 → m < 2 ^ 32 → sub32 (add32 w m) m ≡ w
cancel w m hw hm = omega arith

module _ (key : List ℕ) (sum n : ℕ) where
  -- The step at `p`, with `next` for the place behind it.
  unfoldable pub mix : ℕ → ℕ → List ℕ → List ℕ
  mix next p d = set d p (add_mx key sum p (get_or d next 0) (get_or d (before n p) 0) d)

  unfoldable pub unmix : ℕ → ℕ → List ℕ → List ℕ
  unmix next p d = set d p (sub_mx key sum p (get_or d next 0) (get_or d (before n p) 0) d)

  length-mix : (next p : ℕ) (d : List ℕ) → length (mix next p d) ≡ length d
  unfolding mix
  length-mix next p d = length-set d p _

  mix-AreWords : (next p : ℕ) (d : List ℕ) → AreWords d → AreWords (mix next p d)
  unfolding mix add_mx
  mix-AreWords next p d h = set-AreWords d p _ (omega arith) h

  before_ne : (p : ℕ) → 0 < n → p ≢ before n p
  before_ne zero h = omega arith
  before_ne (suc p) h = omega arith

  unmix-mix :
      (next p : ℕ) (d : List ℕ)
      → 0 < n
      → p ≢ next
      → p < length d
      → AreWords d
      → unmix next p (mix next p d) ≡ d
  unfolding mix unmix add_mx sub_mx
  unmix-mix next p d pos ne inside h =
      rw
        (
          get_or-set_ne d p next v 0 ne,
          get_or-set_ne d p (before n p) v 0 (before_ne p pos),
          get_or-set_self d p v 0 inside,
          set-set d p v,
        )
        (ap (set d p) (cancel (get_or d p 0) m (get_or-lt d p h) (mx-lt key sum _ p _ _))
          ∙ set-get_or d p 0)
    where
      m : ℕ
      m = mx key sum (key_shift sum) p (get_or d next 0) (get_or d (before n p) 0)

      v : ℕ
      v = add_mx key sum p (get_or d next 0) (get_or d (before n p) 0) d

  -- The steps at 0, …, p in this order, and undone in the opposite order.
  unfoldable pub mix_to : ℕ → List ℕ → List ℕ
  mix_to zero d = mix (after n 0) 0 d
  mix_to (suc p) d = mix (after n (suc p)) (suc p) (mix_to p d)

  unfoldable pub unmix_down : ℕ → List ℕ → List ℕ
  unmix_down zero d = unmix (after n 0) 0 d
  unmix_down (suc p) d = unmix_down p (unmix (after n (suc p)) (suc p) d)

  pub length-mix_to : (p : ℕ) (d : List ℕ) → length (mix_to p d) ≡ length d
  unfolding mix_to
  length-mix_to zero d = length-mix (after n 0) 0 d
  length-mix_to (suc p) d = length-mix (after n (suc p)) (suc p) (mix_to p d) ∙ length-mix_to p d

  pub length-unmix_down : (p : ℕ) (d : List ℕ) → length (unmix_down p d) ≡ length d
  unfolding unmix_down unmix
  length-unmix_down zero d = length-set d 0 _
  length-unmix_down (suc p) d = length-unmix_down p _ ∙ length-set d (suc p) _

  pub mix_to-AreWords : (p : ℕ) (d : List ℕ) → AreWords d → AreWords (mix_to p d)
  unfolding mix_to
  mix_to-AreWords zero d h = mix-AreWords (after n 0) 0 d h
  mix_to-AreWords (suc p) d h =
      mix-AreWords (after n (suc p)) (suc p) (mix_to p d) (mix_to-AreWords p d h)

  after_ne : (p : ℕ) → 0 < n → p ≢ after n p
  after_ne p pos = ground arith

  pub unmix_down-mix_to :
      (p : ℕ) (d : List ℕ) → 0 < n → p < length d → AreWords d → unmix_down p (mix_to p d) ≡ d
  unfolding mix_to unmix_down
  unmix_down-mix_to zero d pos inside h = unmix-mix (after n 0) 0 d pos (after_ne 0 pos) inside h
  unmix_down-mix_to (suc p) d pos inside h =
      rw
        (unmix-mix (after n (suc p)) (suc p) (mix_to p d) pos (after_ne (suc p) pos)
          (omega (arith, length-mix_to p d)) (mix_to-AreWords p d h))
        (unmix_down-mix_to p d pos (omega arith) h)
