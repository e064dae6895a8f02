-- ===== src/Checksum/Verify.antt =====
-- The complement of the checksum, stored in a field that was zero, makes the checksum all ones.
use libant.Common.{ℕ, ◌+◌, ◌-◌, ◌*◌, ◌/◌, ◌%◌, ◌^◌, ◌<◌, ◌≤◌, ◌≡◌, refl, sym, ap, ◌∙◌, arith}
use libant.Common.{length-append, List, [], ◌∷◌, ◌++◌, length, some}
use libant.Endian.{Endian, loaded, stored}
use libant.Endian.Bytes.{IsBytes, le_bytes-IsBytes, be_bytes-IsBytes}
use libant.Endian.Order.{loaded-stored}
use libant.Checksum.{add_checksum, finish_checksum16, checksum16}
use libant.Checksum.Fold.{finish_checksum16-IsFold}
use libant.Checksum.Sum.{sum16, sum16-append, add_checksum-IsAdded}

pub append-IsBytes : (xs ys : List ℕ) → IsBytes xs → IsBytes ys → IsBytes (xs ++ ys)
append-IsBytes [] ys h k = k
append-IsBytes (x ∷ xs) ys h k = (h.0, append-IsBytes xs ys h.1 k)

-- The folded checksum of data after a start value, which stands for the sum of the words.
pub finish-add :
    (e : Endian) (start : ℕ) (bytes : List ℕ)
    → IsBytes bytes
    → start + 2 ^ 32 * length bytes < 2 ^ 64
    → (r : ℕ) × (finish_checksum16 (add_checksum e start bytes) ≡ some r)
      × (r < 2 ^ 16)
      × (r % (2 ^ 16 - 1) ≡ (start + sum16 e bytes) % (2 ^ 16 - 1))
      × (r ≤ 2 ^ 16 * (start + sum16 e bytes))
      × (0 < start + sum16 e bytes → 0 < r)
finish-add e start bytes h room =
    let (small, same, low, high) =
      add_checksum-IsAdded e bytes start start h (omega arith, refl, omega arith, omega arith)
        room in
    let (r, eq, narrow, (same1, le, positive)) =
      finish_checksum16-IsFold (add_checksum e start bytes) small in
    (r, eq, narrow, same1 ∙ same, omega arith, λ k. positive (omega arith))

-- A 16-bit field after an even number of bytes.
field_sum :
    (e : Endian) (k : ℕ) (front back : List ℕ) (a b : ℕ)
    → length front ≡ 2 * k
    → sum16 e (front ++ (a ∷ b ∷ back)) ≡ sum16 e front + sum16 e back + loaded e (a ∷ b ∷ [])
field_sum e k front back a b l = omega (arith, sum16-append e k front (a ∷ b ∷ back) l)

zero_field : (e : Endian) → loaded e (0 ∷ 0 ∷ []) ≡ 0
zero_field Endian.little_endian = refl
zero_field Endian.big_endian = refl

pub bytes_of :
    (e : Endian) (v : ℕ) → (a : ℕ) × (b : ℕ) × (stored e 2 v ≡ a ∷ b ∷ []) × IsBytes (a ∷ b ∷ [])
bytes_of Endian.little_endian v = (v % 256, v / 256 % 256, refl, le_bytes-IsBytes 2 v)
bytes_of Endian.big_endian v = (v / 256 % 256, v % 256, refl, be_bytes-IsBytes 2 v)

all_ones :
    (c words r : ℕ)
    → c < 2 ^ 16
    → c % (2 ^ 16 - 1) ≡ words % (2 ^ 16 - 1)
    → c ≤ 2 ^ 16 * words
    → r < 2 ^ 16
    → r % (2 ^ 16 - 1) ≡ (words + (2 ^ 16 - 1 - c)) % (2 ^ 16 - 1)
    → (0 < words + (2 ^ 16 - 1 - c) → 0 < r)
    → r ≡ 2 ^ 16 - 1
all_ones c words r narrow same le narrow1 same1 positive = omega (arith, positive (omega arith))

pub finish-stored :
    (e : Endian) (start k : ℕ) (front back : List ℕ)
    → length front ≡ 2 * k
    → IsBytes front
    → IsBytes back
    → start + 2 ^ 32 * (length front + length back + 2) < 2 ^ 64
    → (c : ℕ) × (finish_checksum16 (add_checksum e start (front ++ (0 ∷ 0 ∷ back))) ≡ some c)
      × (c < 2 ^ 16)
      × (finish_checksum16 (add_checksum e start (front ++ (stored e 2 (2 ^ 16 - 1 - c) ++ back)))
          ≡ some (2 ^ 16 - 1))
finish-stored e start k front back l hf hb room =
    let zeros : List ℕ = 0 ∷ 0 ∷ back in
    let (c, eq, narrow, same, le, positive) =
      finish-add e start (front ++ zeros)
        (append-IsBytes front zeros hf (omega arith, (omega arith, hb)))
        (omega (arith, length-append front zeros)) in
    (c, eq, narrow, full e c narrow same le)
  where
    full :
        (e : Endian) (c : ℕ)
        → c < 2 ^ 16
        → c % (2 ^ 16 - 1) ≡ (start + sum16 e (front ++ (0 ∷ 0 ∷ back))) % (2 ^ 16 - 1)
        → c ≤ 2 ^ 16 * (start + sum16 e (front ++ (0 ∷ 0 ∷ back)))
        → finish_checksum16 (add_checksum e start (front ++ (stored e 2 (2 ^ 16 - 1 - c) ++ back)))
          ≡ some (2 ^ 16 - 1)
    full e c narrow same le =
        let (a, b, field, small) = bytes_of e (2 ^ 16 - 1 - c) in
        let value : loaded e (a ∷ b ∷ []) ≡ 2 ^ 16 - 1 - c =
          ap (loaded e) (sym field) ∙ loaded-stored e 2 (2 ^ 16 - 1 - c) (omega arith) in
        let new : List ℕ = a ∷ b ∷ back in
        let patched : start + sum16 e (front ++ new)
            ≡ start + sum16 e front + sum16 e back + (2 ^ 16 - 1 - c) =
          omega (arith, field_sum e k front back a b l, value) in
        let whole : start + sum16 e (front ++ (0 ∷ 0 ∷ back))
            ≡ start + sum16 e front + sum16 e back =
          omega (arith, field_sum e k front back 0 0 l, zero_field e) in
        let (r, eq, narrow1, same1, le1, positive1) =
          finish-add e start (front ++ new) (append-IsBytes front new hf (small.0, (small.1.0, hb)))
            (omega (arith, length-append front new)) in
        ap (λ f. finish_checksum16 (add_checksum e start (front ++ (f ++ back)))) field
        ∙ eq
        ∙ ap some (
            all_ones c (start + sum16 e front + sum16 e back) r narrow
              (same ∙ ap (λ t. t % (2 ^ 16 - 1)) whole) (omega (arith, whole, le)) narrow1
              (same1 ∙ ap (λ t. t % (2 ^ 16 - 1)) patched)
              (λ h. positive1 (omega (arith, patched))))

-- For data of at most 2^31 bytes with a zero 16-bit field after an even number of bytes: Checksum16
-- has a result, and when its complement is stored in the field, Checksum16 of the data is 0xFFFF.
pub checksum16-stored :
    (e : Endian) (k : ℕ) (front back : List ℕ)
    → length front ≡ 2 * k
    → IsBytes front
    → IsBytes back
    → length front + length back + 2 ≤ 2 ^ 31
    → (c : ℕ) × (checksum16 e (front ++ (0 ∷ 0 ∷ back)) ≡ some c)
      × (checksum16 e (front ++ (stored e 2 (2 ^ 16 - 1 - c) ++ back)) ≡ some (2 ^ 16 - 1))
unfolding checksum16
checksum16-stored e k front back l hf hb room =
    let (c, eq, _, full) = finish-stored e 0 k front back l hf hb (omega arith) in (c, eq, full)
