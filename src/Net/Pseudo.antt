-- ===== src/Net/Pseudo.antt =====
-- The pseudo-headers of TCP and UDP as bytes, and the sums that stand for them in
-- src/net/checksum4.cpp and src/net/checksum6.cpp.
use libant.Common.{ℕ, zero, suc, ◌+◌, ◌-◌, ◌%◌, ◌^◌, ◌≤◌, ◌<◌, ◌≡◌, refl, sym, ap, ◌∙◌, arith}
use libant.Common.{
  List, [], ◌∷◌, ◌++◌, some, append_assoc, length, take, drop, slice, length-take, length-drop,
}
use libant.Endian.{Endian, stored, loaded, Platform, IsPlatform, IntType}
use libant.Endian.Bytes.{be_bytes, length-be_bytes, be_bytes-IsBytes}
use libant.Endian.Order.{stored-loaded, host_to_big_endian_lem}
use libant.Checksum.{add_checksum, finish_checksum16, checksum16}
use libant.Net.{complement, load32, pseudo_sum4, pseudo_sum6}
use libant.Net.Field.{drop-add, patched, HasSum}

-- Source address, destination address, zero, protocol 6 and the low 16 bits of the TCP length.
abbrev pub pseudo4 : List ℕ → ℕ → List ℕ
pseudo4 ip len = slice ip 12 4 ++ (slice ip 16 4 ++ (0 ∷ 6 ∷ be_bytes 2 (len % 2 ^ 16)))

-- Source address, destination address, length in four bytes, three zeros and the next header.
abbrev pub pseudo6 : ℕ → List ℕ → ℕ → List ℕ
pseudo6 proto ip len =
    slice ip 8 16 ++ (slice ip 24 16 ++ (be_bytes 4 len ++ (0 ∷ 0 ∷ 0 ∷ proto ∷ [])))

-- Four bytes in front of the data are one word of the sum.
add_checksum-word :
    (e : Endian) (s : ℕ) (word rest : List ℕ)
    → length word ≡ 4
    → add_checksum e (s % 2 ^ 64) (word ++ rest)
      ≡ add_checksum e ((s + loaded e word) % 2 ^ 64) rest
unfolding add_checksum
add_checksum-word e s [] rest h = absurd (omega arith)
add_checksum-word e s (a ∷ []) rest h = absurd (omega arith)
add_checksum-word e s (a ∷ b ∷ []) rest h = absurd (omega arith)
add_checksum-word e s (a ∷ b ∷ c ∷ []) rest h = absurd (omega arith)
add_checksum-word e s (a ∷ b ∷ c ∷ d ∷ []) rest h = ap (λ t. add_checksum e t rest) (omega arith)
add_checksum-word e s (a ∷ b ∷ c ∷ d ∷ x ∷ xs) rest h = absurd (omega arith)

slice-length : (ip : List ℕ) (i : ℕ) → i + 4 ≤ length ip → length (slice ip i 4) ≡ 4
slice-length ip i h = omega (arith, length-take 4 (drop i ip), length-drop i ip)

take-nil : (n : ℕ) → take {A = ℕ} n [] ≡ []
take-nil zero = refl
take-nil (suc n) = refl

take-add : (m n : ℕ) (xs : List ℕ) → take (m + n) xs ≡ take m xs ++ take n (drop m xs)
take-add zero n xs = ap (λ k. take k xs) (omega arith)
take-add (suc m) n [] = take-nil (suc m + n) ∙ sym (take-nil n)
take-add (suc m) n (x ∷ xs) =
    ap (λ k. take k (x ∷ xs)) (let e : suc m + n ≡ suc (m + n) = omega arith in e)
    ∙ ap (◌∷◌ x) (take-add m n xs)

-- The first four bytes of a part of the header.
peel :
    (ip rest : List ℕ) (i j k n : ℕ)
    → k ≡ 4 + n
    → j ≡ i + 4
    → slice ip i k ++ rest ≡ slice ip i 4 ++ (slice ip j n ++ rest)
peel ip rest i j k n hk hj =
    ap (λ m. slice ip i m ++ rest) hk
    ∙ ap (λ (b : List ℕ). b ++ rest) (take-add 4 n (drop i ip))
    ∙ append_assoc (slice ip i 4) (take n (drop 4 (drop i ip))) rest
    ∙ ap (λ (r : List ℕ). slice ip i 4 ++ (take n r ++ rest))
        (drop-add 4 i ip ∙ ap (λ m. drop m ip) (sym hj))

-- An address of 16 bytes is four words.
add_checksum-address :
    (e : Endian) (s i : ℕ) (ip rest : List ℕ)
    → i + 16 ≤ length ip
    → add_checksum e (s % 2 ^ 64) (slice ip i 16 ++ rest)
      ≡ add_checksum e
          ((s + load32 e i ip + load32 e (i + 4) ip + load32 e (i + 8) ip + load32 e (i + 12) ip)
            % 2 ^ 64)
          rest
add_checksum-address e s i ip rest h =
    ap (λ (b : List ℕ). add_checksum e (s % 2 ^ 64) b) words
    ∙ add_checksum-word e s (slice ip i 4) _ (slice-length ip i (omega arith))
    ∙ add_checksum-word e _ (slice ip (i + 4) 4) _ (slice-length ip (i + 4) (omega arith))
    ∙ add_checksum-word e _ (slice ip (i + 8) 4) _ (slice-length ip (i + 8) (omega arith))
    ∙ add_checksum-word e _ (slice ip (i + 12) 4) rest (slice-length ip (i + 12) (omega arith))
  where
    words :
        slice ip i 16 ++ rest
        ≡ slice ip i 4
          ++ (slice ip (i + 4) 4 ++ (slice ip (i + 8) 4 ++ (slice ip (i + 12) 4 ++ rest)))
    words =
        peel ip rest i (i + 4) 16 12 (omega arith) refl
        ∙ ap (λ (b : List ℕ). slice ip i 4 ++ b)
            (peel ip rest (i + 4) (i + 8) 12 8 (omega arith) (omega arith)
              ∙ ap (λ (b : List ℕ). slice ip (i + 4) 4 ++ b)
                  (peel ip rest (i + 8) (i + 12) 8 4 (omega arith) (omega arith)))

module _ (p : Platform) (q : IsPlatform p) where
  htons_bytes : (v : ℕ) → v < 2 ^ 16 → stored p.system_endian 2 (p.htons v) ≡ be_bytes 2 v
  htons_bytes v h =
      ap (stored p.system_endian 2) (q.htons_lem v h)
      ∙ stored-loaded p.system_endian 2 (be_bytes 2 v) (length-be_bytes 2 v) (be_bytes-IsBytes 2 v)

  pub pseudo_sum4_lem :
      (ip out : List ℕ) (len : ℕ)
      → 20 ≤ length ip
      → add_checksum p.system_endian 0 (pseudo4 ip len ++ out)
        ≡ add_checksum p.system_endian (pseudo_sum4 p ip len) out
  unfolding pseudo_sum4
  pseudo_sum4_lem ip out len h =
      let e : Endian = p.system_endian in
      let last : List ℕ = 0 ∷ 6 ∷ be_bytes 2 (len % 2 ^ 16) in
      ap (add_checksum e 0) (
        append_assoc (slice ip 12 4) (slice ip 16 4 ++ last) out
        ∙ ap (λ (b : List ℕ). slice ip 12 4 ++ b) (append_assoc (slice ip 16 4) last out))
      ∙ add_checksum-word e 0 (slice ip 12 4) _ (slice-length ip 12 (omega arith))
      ∙ add_checksum-word e _ (slice ip 16 4) _ (slice-length ip 16 (omega arith))
      ∙ add_checksum-word e _ last out (omega (arith, length-be_bytes 2 (len % 2 ^ 16)))
      ∙ ap (λ s. add_checksum e (s % 2 ^ 64) out)
          (omega (
            arith,
            ap (λ (b : List ℕ). loaded e (0 ∷ 6 ∷ b)) (htons_bytes (len % 2 ^ 16) (omega arith)),
          ))

  pub pseudo_sum6_lem :
      (proto : ℕ) (ip out : List ℕ) (len : ℕ)
      → 40 ≤ length ip
      → len < 2 ^ 32
      → proto < 2 ^ 32
      → be_bytes 4 proto ≡ 0 ∷ 0 ∷ 0 ∷ proto ∷ []
      → add_checksum p.system_endian 0 (pseudo6 proto ip len ++ out)
        ≡ add_checksum p.system_endian (pseudo_sum6 p proto ip len) out
  unfolding pseudo_sum6
  pseudo_sum6_lem proto ip out len h small tiny bytes =
      let e : Endian = p.system_endian in
      let next : List ℕ = 0 ∷ 0 ∷ 0 ∷ proto ∷ [] in
      ap (add_checksum e 0) (
        append_assoc (slice ip 8 16) (slice ip 24 16 ++ (be_bytes 4 len ++ next)) out
        ∙ ap (λ (b : List ℕ). slice ip 8 16 ++ b)
            (append_assoc (slice ip 24 16) (be_bytes 4 len ++ next) out
              ∙ ap (λ (b : List ℕ). slice ip 24 16 ++ b) (append_assoc (be_bytes 4 len) next out)))
      ∙ add_checksum-address e 0 8 ip _ (omega arith)
      ∙ add_checksum-address e _ 24 ip _ (omega arith)
      ∙ add_checksum-word e _ (be_bytes 4 len) _ (length-be_bytes 4 len)
      ∙ add_checksum-word e _ next out refl
      ∙ ap (λ s. add_checksum e (s % 2 ^ 64) out)
          (omega (
            arith,
            host_to_big_endian_lem p q len IntType.uint32 small,
            host_to_big_endian_lem p q proto IntType.uint32 tiny ∙ ap (loaded e) bytes,
          ))

-- The packet `out` is `mem` with other bytes in the field at `i`, and behind its pseudo-header it
-- has the checksum 0xFFFF.
abbrev pub IsSealed : Endian → List ℕ → ℕ → List ℕ → List ℕ → Type 0
IsSealed e pseudo i mem out =
    (c : ℕ) × (out ≡ patched i (stored e 2 (complement c)) mem)
    × (length out ≡ length mem)
    × (checksum16 e (pseudo ++ out) ≡ some (2 ^ 16 - 1))

pub HasSum-IsSealed :
    (e : Endian) (sum i : ℕ) (pseudo mem out : List ℕ)
    → add_checksum e 0 (pseudo ++ out) ≡ add_checksum e sum out
    → HasSum e sum i mem out
    → IsSealed e pseudo i mem out
unfolding checksum16
HasSum-IsSealed e sum i pseudo mem out same (c, eq, l, full) =
    (c, eq, l, ap finish_checksum16 same ∙ full)
