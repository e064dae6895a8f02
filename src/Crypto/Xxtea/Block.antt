-- ===== src/Crypto/Xxtea/Block.antt =====
-- The inner loops of xxtea.cpp are those rounds.
use libant.Common.{ℕ, zero, suc, ◌+◌, ◌<◌, ◌≤◌, ◌≡◌}
use libant.Common.{refl, sym, ap, ◌∙◌, arith}
use libant.Common.{List, length, get_or, set, length-set}
use libant.Crypto.Xxtea.{add_mx, sub_mx, encrypt_pass, decrypt_pass}
use libant.Crypto.Xxtea.Round.{before, after, mix, unmix, mix_to, unmix_down}
use libant.Crypto.Xxtea.Round.{get_or-set_self}

module _ (key : List ℕ) (sum n : ℕ) where
  -- The steps from `p` on, `left` of them before the last.
  unfoldable pub mix_from : ℕ → ℕ → List ℕ → List ℕ
  mix_from zero p d = mix key sum n (after n p) p d
  mix_from (suc left) p d = mix_from left (suc p) (mix key sum n (after n p) p d)

  pub mix_from-mix_to :
      (left p : ℕ) (d : List ℕ)
      → mix_from left (suc p) (mix_to key sum n p d) ≡ mix_to key sum n (suc (p + left)) d
  unfolding mix_from mix_to
  mix_from-mix_to zero p d = ap (λ k. mix_to key sum n (suc k) d) (omega arith)
  mix_from-mix_to (suc left) p d =
      mix_from-mix_to left (suc p) d ∙ ap (λ k. mix_to key sum n (suc k) d) (omega arith)

  written :
      (p next y z : ℕ) (d : List ℕ)
      → next ≡ after n p
      → y ≡ get_or d next 0
      → z ≡ get_or d (before n p) 0
      → set d p (add_mx key sum p y z d) ≡ mix key sum n (after n p) p d
  unfolding mix
  written p next y z d hn hy hz =
      λ i. set d p (add_mx key sum p ((hy ∙ ap (λ k. get_or d k 0) hn) i) (hz i) d)

  unwritten :
      (p next y z : ℕ) (d : List ℕ)
      → next ≡ after n p
      → y ≡ get_or d next 0
      → z ≡ get_or d (before n p) 0
      → set d p (sub_mx key sum p y z d) ≡ unmix key sum n (after n p) p d
  unfolding unmix
  unwritten p next y z d hn hy hz =
      λ i. set d p (sub_mx key sum p ((hy ∙ ap (λ k. get_or d k 0) hn) i) (hz i) d)

  after_last : (p : ℕ) → p ≡ n → 0 ≡ after n p
  after_last p e = ground arith

  after_inner : (p : ℕ) → p < n → suc p ≡ after n p
  after_inner p e = ground arith

  pub encrypt_pass-mix_from :
      (left p z : ℕ) (d : List ℕ)
      → p + left ≡ n
      → n < length d
      → z ≡ get_or d (before n p) 0
      → encrypt_pass key sum left p z d ≡ (mix_from left p d, get_or (mix_from left p d) n 0)
  unfolding encrypt_pass mix_from
  encrypt_pass-mix_from zero p z d e inside hz = λ i. (w i, last i)
    where
      v : ℕ
      v = add_mx key sum p (get_or d 0 0) z d

      at_end : p ≡ n
      at_end = omega arith

      w : set d p v ≡ mix key sum n (after n p) p d
      w = written p 0 (get_or d 0 0) z d (after_last p at_end) refl hz

      last : v ≡ get_or (mix key sum n (after n p) p d) n 0
      last =
          sym (get_or-set_self d p v 0 (omega arith))
          ∙ ap (λ (t : List ℕ). get_or t p 0) w
          ∙ ap (λ k. get_or (mix key sum n (after n p) p d) k 0) at_end
  encrypt_pass-mix_from (suc left) p z d e inside hz =
      encrypt_pass-mix_from left (suc p) v (set d p v) (omega arith)
        (omega (arith, length-set d p v)) (sym (get_or-set_self d p v 0 (omega arith)))
      ∙ ap (λ (t : List ℕ). (mix_from left (suc p) t, get_or (mix_from left (suc p) t) n 0)) w
    where
      v : ℕ
      v = add_mx key sum p (get_or d (suc p) 0) z d

      w : set d p v ≡ mix key sum n (after n p) p d
      w = written p (suc p) (get_or d (suc p) 0) z d (after_inner p (omega arith)) refl hz

  pub decrypt_pass-unmix_down :
      (p y : ℕ) (d : List ℕ)
      → p ≤ n
      → n < length d
      → y ≡ get_or d (after n p) 0
      → decrypt_pass key sum n p y d
        ≡ (unmix_down key sum n p d, get_or (unmix_down key sum n p d) 0 0)
  unfolding decrypt_pass unmix_down
  decrypt_pass-unmix_down zero y d below inside hy = λ i. (w i, first i)
    where
      v : ℕ
      v = sub_mx key sum 0 y (get_or d n 0) d

      w : set d 0 v ≡ unmix key sum n (after n 0) 0 d
      w = unwritten 0 (after n 0) y (get_or d n 0) d refl hy refl

      first : v ≡ get_or (unmix key sum n (after n 0) 0 d) 0 0
      first = sym (get_or-set_self d 0 v 0 (omega arith)) ∙ ap (λ (t : List ℕ). get_or t 0 0) w
  decrypt_pass-unmix_down (suc p) y d below inside hy =
      decrypt_pass-unmix_down p v (set d (suc p) v) (omega arith)
        (omega (arith, length-set d (suc p) v))
        (sym (get_or-set_self d (suc p) v 0 (omega arith))
          ∙ ap (λ k. get_or (set d (suc p) v) k 0) (after_inner p (omega arith)))
      ∙ ap (λ (t : List ℕ). (unmix_down key sum n p t, get_or (unmix_down key sum n p t) 0 0)) w
    where
      v : ℕ
      v = sub_mx key sum (suc p) y (get_or d p 0) d

      w : set d (suc p) v ≡ unmix key sum n (after n (suc p)) (suc p) d
      w = unwritten (suc p) (after n (suc p)) y (get_or d p 0) d refl hy refl
