-- ===== src/Common/Perms.antt =====
-- Permutations of a list of lists joined together.
use mathlib.Core.List.{List, ◌∷◌, ◌++◌, Perm, perm_middle}
use mathlib.Core.List.Perm

-- An element in the last of three lists comes to the front.
pub nested-Perm {ℓ} :
    {A : Type ℓ} (x : A) (f a b : List A) → Perm (f ++ (a ++ (x ∷ b))) (x ∷ (f ++ (a ++ b)))
nested-Perm x f a b = Perm.trans (Perm.append_left f (perm_middle a b)) (perm_middle f (a ++ b))
