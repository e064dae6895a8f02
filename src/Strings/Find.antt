-- ===== src/Strings/Find.antt =====
-- What the searches for a separator find.
use mathlib.Core.Path.{subst}
use mathlib.Core.Option as Option
use mathlib.Core.Option.{some-injective}
use libant.Common.{ℕ, suc, ◌≡◌, refl, sym, ap, ◌∙◌, arith, Bool-cases, ◌==◌}
use libant.Common.{true, false, inl, inr, List, [], ◌∷◌, ◌++◌, length, Option, none, some}
use libant.Strings.{c_str, find_first_of, starts_with, strstr}

-- The place of the first separator: what is before it, where nothing is found, and what is behind.
unfoldable pub Found : (List ℕ → Option ℕ) → List ℕ → List ℕ → ℕ → Type 0
Found find sep s k = (a rest : List ℕ) × (s ≡ a ++ (sep ++ rest)) × (length a ≡ k) × (find a ≡ none)

unfoldable pub Finds : (List ℕ → Option ℕ) → List ℕ → Type 0
Finds find sep = (s : List ℕ) (k : ℕ) → find s ≡ some k → Found find sep s k

-- A search that goes on behind the first character.
later : (r : Option ℕ) (k : ℕ) → Option.map suc r ≡ some k → (j : ℕ) × (r ≡ some j) × (k ≡ suc j)
later none k eq = absurd (nothing eq)
  where
    nothing : ◌≡◌ {A = Option ℕ} none (some k) → ⊥
    nothing e = ground arith
later (some j) k eq = (j, refl, sym (some-injective _ _ eq))

pub find_first_of-Finds : (c : ℕ) → Finds (find_first_of c) (c ∷ [])
unfolding Finds Found find_first_of
find_first_of-Finds c [] k eq = absurd (nothing eq)
  where
    nothing : ◌≡◌ {A = Option ℕ} none (some k) → ⊥
    nothing e = ground arith
find_first_of-Finds c (x ∷ xs) k eq = elim (Bool-cases (x == c)) [
  | inl same ↦
      let zero_k : 0 ≡ k = some-injective _ _ (rw same at eq) in
      let eqc : x ≡ c = ground arith in ([], xs, ap (λ y. y ∷ xs) eqc, zero_k, refl)
  | inr other ↦
      let (j, found, suc_j) = later (find_first_of c xs) k (rw other at eq) in
      let (a, rest, split, len, clear) = find_first_of-Finds c xs j found in
      (x ∷ a, rest, ap (λ l. x ∷ l) split, ap suc len ∙ sym suc_j, rw (other, clear) refl)
]

starts_with-split : (t s : List ℕ) → starts_with t s ≡ true → (rest : List ℕ) × (s ≡ t ++ rest)
unfolding starts_with
starts_with-split [] s eq = (s, refl)
starts_with-split (t ∷ ts) [] eq = ground arith
starts_with-split (t ∷ ts) (x ∷ xs) eq = elim (Bool-cases (t == x)) [
  | inl same ↦
      let (rest, split) = starts_with-split ts xs (rw same at eq) in
      let eqx : x ≡ t = ground arith in (rest, ap (λ y. y ∷ xs) eqx ∙ ap (λ l. t ∷ l) split)
  | inr other ↦ absurd (nothing (rw other at eq))
]
  where
    nothing : false ≡ true → ⊥
    nothing e = ground arith

-- What a longer string does not start with, a shorter one does not.
starts_with-append : (t a b : List ℕ) → starts_with t (a ++ b) ≡ false → starts_with t a ≡ false
unfolding starts_with
starts_with-append [] a b eq = eq
starts_with-append (t ∷ ts) [] b eq = refl
starts_with-append (t ∷ ts) (x ∷ a) b eq = elim (Bool-cases (t == x)) [
  | inl same ↦ rw same (starts_with-append ts a b (rw same at eq))
  | inr other ↦ rw other refl
]

strstr-nil : (t : ℕ) (ts : List ℕ) → strstr (t ∷ ts) [] ≡ none
unfolding strstr starts_with
strstr-nil t ts = refl

pub strstr-Finds : (t : ℕ) (ts : List ℕ) → Finds (strstr (t ∷ ts)) (t ∷ ts)
unfolding Finds Found strstr
strstr-Finds t ts [] k eq = absurd (nothing (sym (strstr-nil t ts) ∙ eq))
  where
    nothing : ◌≡◌ {A = Option ℕ} none (some k) → ⊥
    nothing e = ground arith
strstr-Finds t ts (x ∷ xs) k eq = elim (Bool-cases (starts_with (t ∷ ts) (x ∷ xs))) [
  | inl same ↦
      let zero_k : 0 ≡ k = some-injective _ _ (rw same at eq) in
      let (rest, split) = starts_with-split (t ∷ ts) (x ∷ xs) same in
      ([], rest, split, zero_k, strstr-nil t ts)
  | inr other ↦
      let (j, found, suc_j) = later (strstr (t ∷ ts) xs) k (rw other at eq) in
      let (a, rest, split, len, clear) = strstr-Finds t ts xs j found in
      let passed =
        starts_with-append (t ∷ ts) (x ∷ a) ((t ∷ ts) ++ rest)
          (subst (λ l. starts_with (t ∷ ts) (x ∷ l) ≡ false) split other) in
      (x ∷ a, rest, ap (λ l. x ∷ l) split, ap suc len ∙ sym suc_j, rw (passed, clear) refl)
]

none_later : (r : Option ℕ) → Option.map suc r ≡ none → r ≡ none
none_later none e = refl
none_later (some k) e = ground arith

pub find_first_of-append :
    (c : ℕ) (p s : List ℕ)
    → find_first_of c p ≡ none
    → find_first_of c (p ++ (c ∷ s)) ≡ some (length p)
unfolding find_first_of
find_first_of-append c [] s clear = let same : (c == c) ≡ true = ground arith in rw same refl
find_first_of-append c (x ∷ p) s clear = elim (Bool-cases (x == c)) [
  | inl same ↦ absurd (nothing (rw same at clear))
  | inr other ↦
      rw (other, find_first_of-append c p s (none_later (find_first_of c p) (rw other at clear)))
        refl
]
  where
    nothing : ◌≡◌ {A = Option ℕ} (some 0) none → ⊥
    nothing e = ground arith

pub strstr-empty : (s : List ℕ) → strstr [] s ≡ some 0
unfolding strstr starts_with
strstr-empty [] = refl
strstr-empty (x ∷ xs) = refl

-- A string without a NUL is what `c_str` shows.
pub find_first_of-c_str : (s : List ℕ) → find_first_of 0 s ≡ none → c_str s ≡ s
unfolding find_first_of c_str
find_first_of-c_str [] clear = refl
find_first_of-c_str (x ∷ xs) clear = elim (Bool-cases (x == 0)) [
  | inl same ↦ absurd (nothing (rw same at clear))
  | inr other ↦ rw other (
      ap (λ l. x ∷ l)
        (find_first_of-c_str xs (none_later (find_first_of 0 xs) (rw other at clear))))
]
  where
    nothing : ◌≡◌ {A = Option ℕ} (some 0) none → ⊥
    nothing e = ground arith
