-- ===== src/Strings/Split.antt =====
-- Splitting a string and joining the pieces.
use mathlib.Core.Path.{subst}
use mathlib.Core.Option as Option
use libant.Common.{ℕ, zero, suc, ◌+◌, ◌≤◌, ◌<◌, ◌≡◌, refl, sym, ap, ◌∙◌, arith, leb}
use libant.Common.{true, List, [], ◌∷◌, ◌++◌, length, length-append, take, drop}
use libant.Common.{append_assoc, Option, none, some}
use libant.Strings.{
  c_str, find_first_of, strstr, split_loop, split_c_string, split_string, split_string_at,
}
use libant.Strings.Find.{
  Found, Finds, strstr-Finds, strstr-empty, find_first_of-append, find_first_of-c_str,
}

-- The pieces with the separator between them.
unfoldable pub join : List ℕ → List (List ℕ) → List ℕ
join sep [] = []
join sep (p ∷ []) = p
join sep (p ∷ q ∷ ps) = p ++ (sep ++ join sep (q ∷ ps))

-- No piece contains what a search finds.
unfoldable pub AllClear : (List ℕ → Option ℕ) → List (List ℕ) → Type 0
AllClear find [] = Unit
AllClear find (p ∷ ps) = (find p ≡ none) × AllClear find ps

take-append : (a b : List ℕ) (n : ℕ) → length a ≡ n → take n (a ++ b) ≡ a
take-append [] b zero len = refl
take-append [] b (suc n) len = absurd (omega arith)
take-append (x ∷ a) b zero len = absurd (omega arith)
take-append (x ∷ a) b (suc n) len = ap (λ l. x ∷ l) (take-append a b n (omega arith))

drop-append : (a b : List ℕ) (n : ℕ) → length a ≡ n → drop n (a ++ b) ≡ b
drop-append [] b zero len = refl
drop-append [] b (suc n) len = absurd (omega arith)
drop-append (x ∷ a) b zero len = absurd (omega arith)
drop-append (x ∷ a) b (suc n) len = drop-append a b n (omega arith)

module _ (find : List ℕ → Option ℕ) (sep : List ℕ) where
  split_loop-last :
      (n : ℕ) (s : List ℕ) → find s ≡ none → split_loop find (length sep) (suc n) s ≡ some (s ∷ [])
  unfolding split_loop
  split_loop-last n s clear = rw (split_loop, clear) refl

  -- One round of the loop, at a separator behind `a`.
  split_loop-step :
      (n : ℕ) (a rest : List ℕ)
      → find (a ++ (sep ++ rest)) ≡ some (length a)
      → split_loop find (length sep) (suc n) (a ++ (sep ++ rest))
        ≡ Option.map (λ ps. a ∷ ps) (split_loop find (length sep) n rest)
  unfolding split_loop
  split_loop-step n a rest found =
      let all = length-append a (sep ++ rest) in
      let behind = length-append sep rest in
      let both = length-append a sep in
      let inside : leb (length a + length sep) (length (a ++ (sep ++ rest))) ≡ true =
        ground arith in
      let dropped : drop (length a + length sep) (a ++ (sep ++ rest)) ≡ rest =
        ap (drop (length a + length sep)) (sym (append_assoc a sep rest))
        ∙ drop-append (a ++ sep) rest (length a + length sep) both in
      rw (split_loop, found, inside, dropped, take-append a (sep ++ rest) (length a) refl) refl

  Splits : List ℕ → Option (List (List ℕ)) → Type 0
  Splits s r =
      (p : List ℕ) × (ps : List (List ℕ)) × (r ≡ some (p ∷ ps))
      × (join sep (p ∷ ps) ≡ s)
      × AllClear find (p ∷ ps)

  split_loop_lem :
      (n : ℕ) (s : List ℕ)
      → Finds find sep
      → 1 ≤ length sep
      → length s < n
      → Splits s (split_loop find (length sep) n s)
  unfolding Splits Finds Found join AllClear
  split_loop_lem zero s law some_sep enough = absurd (omega arith)
  split_loop_lem (suc n) s law some_sep enough =
      go (λ rest short. split_loop_lem n rest law some_sep short) (find s) refl
    where
      piece :
          ((l : List ℕ) → length l < n → Splits l (split_loop find (length sep) n l))
          → (a rest : List ℕ) → find a ≡ none
          → find (a ++ (sep ++ rest)) ≡ some (length a)
          → length s ≡ length (a ++ (sep ++ rest))
          → Splits (a ++ (sep ++ rest)) (split_loop find (length sep) (suc n) (a ++ (sep ++ rest)))
      piece ih a rest clear found len =
          let all_len = length-append a (sep ++ rest) in
          let behind = length-append sep rest in
          let (p, ps, eq, joined, all) = ih rest (omega arith) in
          (
            a,
            p ∷ ps,
            split_loop-step n a rest found ∙ ap (Option.map (λ ps. a ∷ ps)) eq,
            ap (λ l. a ++ (sep ++ l)) joined,
            (clear, all),
          )

      go :
          ((l : List ℕ) → length l < n → Splits l (split_loop find (length sep) n l))
          → (r : Option ℕ) → find s ≡ r
          → Splits s (split_loop find (length sep) (suc n) s)
      go ih none clear = (s, [], split_loop-last n s clear, refl, (clear, tt))
      go ih (some k) found =
          let (a, rest, split, len, clear) = law s k found in
          subst (λ l. Splits l (split_loop find (length sep) (suc n) l)) (sym split)
            (piece ih a rest clear (subst (λ l. find l ≡ some k) split found ∙ ap some (sym len))
              (ap length split))

split_c_string-join :
    (fuel : ℕ) (src : List ℕ) (t : ℕ) (ts : List ℕ)
    → length src < fuel
    → (p : List ℕ) × (ps : List (List ℕ)) × (split_c_string fuel src (t ∷ ts) (length (t ∷ ts))
        ≡ some (p ∷ ps))
      × (join (t ∷ ts) (p ∷ ps) ≡ src)
      × AllClear (strstr (t ∷ ts)) (p ∷ ps)
unfolding Splits
split_c_string-join fuel src t ts enough =
    split_loop_lem (strstr (t ∷ ts)) (t ∷ ts) fuel src (strstr-Finds t ts) (omega arith) enough

-- For a separator that is not empty, and no NUL in the separator or in the string: SplitString on
-- strings returns, and the pieces, with the separator between them, are the string; no piece contains
-- the separator. Fuel of one more than the length of the string is enough.
pub split_string-join :
    (fuel : ℕ) (src : List ℕ) (t : ℕ) (ts : List ℕ)
    → find_first_of 0 src ≡ none
    → find_first_of 0 (t ∷ ts) ≡ none
    → length src < fuel
    → (p : List ℕ) × (ps : List (List ℕ)) × (split_string fuel src (t ∷ ts) ≡ some (p ∷ ps))
      × (join (t ∷ ts) (p ∷ ps) ≡ src)
      × AllClear (strstr (t ∷ ts)) (p ∷ ps)
split_string-join fuel src t ts no_nul no_nul_sep enough =
    let (p, ps, eq, joined, clear) = split_c_string-join fuel src t ts enough in
    (
      p,
      ps,
      ap (λ s. split_c_string fuel s (c_str (t ∷ ts)) (length (t ∷ ts)))
            (find_first_of-c_str src no_nul)
          ∙ ap (λ s. split_c_string fuel src s (length (t ∷ ts)))
              (find_first_of-c_str (t ∷ ts) no_nul_sep)
          ∙ eq,
      joined,
      clear,
    )

-- Joined with a character that none of them contains, strings are given back by SplitString at that
-- character, if there is at least one of them. Fuel of one more than the length of the joined string
-- is enough.
pub split_string_at-join :
    (fuel c : ℕ) (p : List ℕ) (ps : List (List ℕ))
    → AllClear (find_first_of c) (p ∷ ps)
    → length (join (c ∷ []) (p ∷ ps)) < fuel
    → split_string_at fuel (join (c ∷ []) (p ∷ ps)) c ≡ some (p ∷ ps)
unfolding join AllClear
split_string_at-join zero c p ps clear enough = absurd (omega arith)
split_string_at-join (suc n) c p [] (clear, rest) enough =
    split_loop-last (find_first_of c) (c ∷ []) n p clear
split_string_at-join (suc n) c p (q ∷ ps) (clear, rest) enough =
    let len = length-append p (c ∷ join (c ∷ []) (q ∷ ps)) in
    split_loop-step (find_first_of c) (c ∷ []) n p (join (c ∷ []) (q ∷ ps))
      (find_first_of-append c p (join (c ∷ []) (q ∷ ps)) clear)
    ∙ ap (Option.map (λ qs. p ∷ qs)) (split_string_at-join n c q ps rest (omega arith))

-- With an empty separator no fuel is enough: SplitString finds it at its own position again and again.
pub split_c_string-empty : (fuel : ℕ) (src : List ℕ) → split_c_string fuel src [] 0 ≡ none
unfolding split_loop
split_c_string-empty zero src = refl
split_c_string-empty (suc n) src =
    let inside : leb 0 (length src) ≡ true = ground arith in
    rw (split_loop, strstr-empty src, inside, split_c_string-empty n src) refl
