-- ===== src/Net/Field.antt =====
-- Setting a checksum field in a block of bytes.
use libant.Common.{
  ℕ, zero, suc, ◌+◌, ◌-◌, ◌*◌, ◌^◌, ◌≤◌, ◌<◌, ◌≡◌, refl, sym, ap, ◌∙◌, arith, List, [], ◌∷◌, ◌++◌,
}
use libant.Common.{
  length, take, drop, length-take, length-drop, length-append, take-append-drop, store_at,
  store_at-append, length-store_at, some, true,
}
use libant.Endian.{Endian, stored, Platform}
use libant.Endian.Bytes.{IsBytes, take-IsBytes, drop-IsBytes}
use libant.Checksum.{add_checksum, finish_checksum16}
use libant.Checksum.Verify.{finish-stored, bytes_of}
use libant.Net.{complement, store16, set_sum}
use mathlib.Core.Option

drop-nil : (n : ℕ) → drop {A = ℕ} n [] ≡ []
drop-nil zero = refl
drop-nil (suc n) = refl

pub drop-add : (i j : ℕ) (xs : List ℕ) → drop i (drop j xs) ≡ drop (j + i) xs
drop-add i zero xs = ap (λ n. drop n xs) (omega arith)
drop-add i (suc j) [] = drop-nil i ∙ sym (drop-nil (suc j + i))
drop-add i (suc j) (x ∷ xs) =
    drop-add i j xs ∙ ap (λ n. drop n (x ∷ xs)) (let e : suc (j + i) ≡ suc j + i = omega arith in e)

-- A store of two bytes, as a cut of the block.
pub store_two :
    (i a b : ℕ) (mem : List ℕ)
    → i + 2 ≤ length mem
    → store_at mem i (a ∷ b ∷ []) ≡ take i mem ++ (a ∷ b ∷ drop (i + 2) mem)
store_two i a b mem h =
    ap (λ (m : List ℕ). store_at m i (a ∷ b ∷ []))
      (sym (
        ap (λ (r : List ℕ). take i mem ++ r) (take-append-drop 2 (drop i mem))
        ∙ take-append-drop i mem))
    ∙ store_at-append (take i mem) (take 2 (drop i mem)) (a ∷ b ∷ []) (drop 2 (drop i mem)) i
        (length-take i mem ∙ omega arith)
        (length-take 2 (drop i mem) ∙ omega (arith, length-drop i mem))
    ∙ ap (λ (r : List ℕ). take i mem ++ (a ∷ b ∷ r)) (drop-add 2 i mem)

pub store16_lem :
    (e : Endian) (i v : ℕ) (mem : List ℕ)
    → i + 2 ≤ length mem
    → store16 e i v mem ≡ take i mem ++ (stored e 2 v ++ drop (i + 2) mem)
store16_lem e i v mem h = let (a, b, eq, _) = bytes_of e v in rw (eq) (store_two i a b mem h)

stored_zero : (e : Endian) → stored e 2 0 ≡ 0 ∷ 0 ∷ []
stored_zero Endian.little_endian = refl
stored_zero Endian.big_endian = refl

take-all : (n : ℕ) (xs : List ℕ) → length xs ≡ n → take n xs ≡ xs
take-all zero [] h = refl
take-all zero (x ∷ xs) h = absurd (omega arith)
take-all (suc n) [] h = absurd (omega arith)
take-all (suc n) (x ∷ xs) h = ap (◌∷◌ x) (take-all n xs (omega arith))

-- The block with other bytes in the field.
abbrev pub patched : ℕ → List ℕ → List ℕ → List ℕ
patched i field mem = take i mem ++ (field ++ drop (i + 2) mem)

pub length-patched :
    (e : Endian) (i v : ℕ) (mem : List ℕ)
    → i + 2 ≤ length mem
    → length (patched i (stored e 2 v) mem) ≡ length mem
length-patched e i v mem h =
    length-append (take i mem) (stored e 2 v ++ drop (i + 2) mem)
    ∙ ap (λ n. length (take i mem) + n) (length-append (stored e 2 v) (drop (i + 2) mem))
    ∙ omega (arith, length-take i mem, length-drop (i + 2) mem, two)
  where
    two : length (stored e 2 v) ≡ 2
    two = let (a, b, eq, _) = bytes_of e v in ap length eq

pub zeroed_lem :
    (e : Endian) (i : ℕ) (mem : List ℕ)
    → i + 2 ≤ length mem
    → store16 e i 0 mem ≡ patched i (0 ∷ 0 ∷ []) mem
zeroed_lem e i mem h =
    store16_lem e i 0 mem h ∙ ap (λ (f : List ℕ). patched i f mem) (stored_zero e)

pub filled_lem :
    (e : Endian) (i v : ℕ) (mem : List ℕ)
    → i + 2 ≤ length mem
    → store16 e i v (store16 e i 0 mem) ≡ patched i (stored e 2 v) mem
filled_lem e i v mem h =
    ap (store16 e i v) (zeroed_lem e i mem h)
    ∙ store_at-append (take i mem) (0 ∷ 0 ∷ []) (stored e 2 v) (drop (i + 2) mem) i
        (length-take i mem ∙ omega arith) (sym (let (a, b, eq, _) = bytes_of e v in ap length eq))

-- The field at the even index `i` is set so that the whole block sums to all ones.
abbrev pub HasSum : Endian → ℕ → ℕ → List ℕ → List ℕ → Type 0
HasSum e sum i mem out =
    (c : ℕ) × (out ≡ patched i (stored e 2 (complement c)) mem)
    × (length out ≡ length mem)
    × (finish_checksum16 (add_checksum e sum out) ≡ some (2 ^ 16 - 1))

pub set_sum-HasSum :
    (p : Platform) (sum i k len : ℕ) (mem : List ℕ)
    → i ≡ 2 * k
    → i + 2 ≤ len
    → length mem ≡ len
    → IsBytes mem
    → sum + 2 ^ 32 * len < 2 ^ 64
    → (out : List ℕ) × (set_sum p sum i len mem ≡ some (true, out))
      × HasSum p.system_endian sum i mem out
unfolding set_sum
set_sum-HasSum p sum i k len mem even inside whole bytes room =
    let e : Endian = p.system_endian in
    let zeroed : List ℕ = store16 e i 0 mem in
    let (c, eq, narrow, full) =
      finish-stored e sum k (take i mem) (drop (i + 2) mem) (length-take i mem ∙ omega arith)
        (take-IsBytes i mem bytes) (drop-IsBytes (i + 2) mem bytes)
        (omega (arith, length-take i mem, length-drop (i + 2) mem)) in
    let taken : take len zeroed ≡ patched i (0 ∷ 0 ∷ []) mem =
      take-all len zeroed (length-store_at mem i (stored e 2 0) ∙ whole)
      ∙ zeroed_lem e i mem (omega arith) in
    (
      patched i (stored e 2 (complement c)) mem,
      ap
            (λ (t : List ℕ).
              Option.map (λ d. (true, store16 e i (complement d) zeroed))
                (finish_checksum16 (add_checksum e sum t)))
            taken
          ∙ ap (Option.map (λ d. (true, store16 e i (complement d) zeroed))) eq
          ∙ ap (λ (m : List ℕ). some (true, m)) (filled_lem e i (complement c) mem (omega arith)),
      (c, refl, length-patched e i (complement c) mem (omega arith), full),
    )
