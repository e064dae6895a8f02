-- ===== src/Hex/Read.antt =====
-- The loop that reads hex digits, and the round trip.
use libant.Common.{
  ℕ, zero, suc, ◌+◌, ◌*◌, ◌/◌, ◌%◌, ◌≤◌, ◌<◌, ◌≡◌, refl, sym, ap, ◌∙◌, arith, List, [], ◌∷◌, ◌++◌,
}
use libant.Common.{length, take, drop, replicate, length-take, take-append-drop, length-replicate}
use libant.Common.{length-append, store_at-append, append_assoc, append-nil, get_or, some}
use libant.Endian.Bytes.{IsBytes}
use libant.Hex.{Chars, AreChars, hex_map, hex_map_lower, hex_chars_to_byte}
use libant.Hex.{read_hex, hex_string_into, hex_string_to_binary, to_hex_string}
use libant.Hex.Digits.{hex_chars_to_byte-upper, hex_chars_to_byte-lower}
use libant.Hex.Write.{hex_of, length-hex_of, to_hex_string_lem}

-- The bytes that pairs of characters stand for.
abbrev pub binary_of : Chars → List ℕ → List ℕ
binary_of l [] = []
binary_of l (a ∷ []) = []
binary_of l (a ∷ b ∷ s) = hex_chars_to_byte l a b ∷ binary_of l s

read_hex_lem :
    (l : Chars) (i k n : ℕ) (src front old back : List ℕ)
    → i ≡ k * 2
    → length front ≡ k
    → length src ≡ n * 2
    → length old ≡ n
    → read_hex l i src (front ++ (old ++ back)) ≡ front ++ (binary_of l src ++ back)
unfolding read_hex
read_hex_lem l i k n [] front [] back hi hf hs ho = refl
read_hex_lem l i k n [] front (x ∷ old) back hi hf hs ho = absurd (omega arith)
read_hex_lem l i k n (a ∷ []) front old back hi hf hs ho = absurd (omega arith)
read_hex_lem l i k n (a ∷ b ∷ src) front [] back hi hf hs ho = absurd (omega arith)
read_hex_lem l i k zero (a ∷ b ∷ src) front (x ∷ old) back hi hf hs ho = absurd (omega arith)
read_hex_lem l i k (suc n) (a ∷ b ∷ src) front (x ∷ old) back hi hf hs ho =
    let one : List ℕ = hex_chars_to_byte l a b ∷ [] in
    ap (read_hex l (i + 2) src) (
      store_at-append front (x ∷ []) one (old ++ back) (i / 2) (omega arith) refl
      ∙ sym (append_assoc front one (old ++ back)))
    ∙ read_hex_lem l (i + 2) (k + 1) n src (front ++ one) old back (omega arith)
        (length-append front one ∙ omega arith) (omega arith) (omega arith)
    ∙ append_assoc front one (binary_of l src ++ back)

hex_string_into-even :
    (l : Chars) (n : ℕ) (src old back : List ℕ)
    → length src ≡ n * 2
    → length old ≡ n
    → hex_string_into l src (old ++ back) ≡ some (binary_of l src ++ back)
unfolding hex_string_into
hex_string_into-even l n src old back hs ho =
    rw (let even : length src % 2 ≡ 0 = omega arith in even)
      (ap some (read_hex_lem l 0 0 n src [] old back refl refl hs ho))

pub hex_string_to_binary_lem :
    (l : Chars) (n : ℕ) (src : List ℕ)
    → length src ≡ n * 2
    → hex_string_to_binary l src ≡ some (binary_of l src)
unfolding hex_string_to_binary
hex_string_to_binary_lem l n src hs =
    let zeros : List ℕ = replicate (length src / 2) 0 in
    ap (hex_string_into l src) (sym (append-nil zeros))
    ∙ hex_string_into-even l n src zeros [] hs
        (length-replicate {A = ℕ} (length src / 2) 0 ∙ omega arith)
    ∙ ap some (append-nil (binary_of l src))

binary_of-hex_of :
    (l : Chars) (digits bs : List ℕ)
    → IsBytes bs
    → ((v : ℕ)
        → v < 256
        → hex_chars_to_byte l (get_or digits (v / 16) 0) (get_or digits (v % 16) 0) ≡ v)
    → binary_of l (hex_of digits bs) ≡ bs
binary_of-hex_of l digits [] h inverse = refl
binary_of-hex_of l digits (b ∷ bs) h inverse =
    rw (inverse b h.0) (ap (◌∷◌ b) (binary_of-hex_of l digits bs h.1 inverse))

round_trip :
    (l : Chars) (digits bs : List ℕ)
    → IsBytes bs
    → ((v : ℕ)
        → v < 256
        → hex_chars_to_byte l (get_or digits (v / 16) 0) (get_or digits (v % 16) 0) ≡ v)
    → hex_string_to_binary l (to_hex_string digits bs) ≡ some bs
round_trip l digits bs h inverse =
    ap (hex_string_to_binary l) (to_hex_string_lem digits bs)
    ∙ hex_string_to_binary_lem l (length bs) (hex_of digits bs) (length-hex_of digits bs)
    ∙ ap some (binary_of-hex_of l digits bs h inverse)

-- Any bytes come back from their hex string in upper case and from the one in lower case, whether
-- `char` is signed or not.
pub hex_string_to_binary-to_hex_string :
    (l : Chars) (bs : List ℕ)
    → AreChars l
    → IsBytes bs
    → (hex_string_to_binary l (to_hex_string hex_map bs) ≡ some bs)
      × (hex_string_to_binary l (to_hex_string hex_map_lower bs) ≡ some bs)
hex_string_to_binary-to_hex_string l bs k h = (
  round_trip l hex_map bs h (hex_chars_to_byte-upper k),
  round_trip l hex_map_lower bs h (hex_chars_to_byte-lower k),
)

-- Into memory of at least half as many bytes, HexStringToBinary of a string of even length writes
-- the bytes that the other overload returns, and nothing else.
hex_string_into_lem :
    (l : Chars) (n : ℕ) (src dst : List ℕ)
    → length src ≡ n * 2
    → n ≤ length dst
    → (out : List ℕ) × (hex_string_to_binary l src ≡ some out)
      × (length out ≡ n)
      × (hex_string_into l src dst ≡ some (out ++ drop n dst))
hex_string_into_lem l n src dst hs hd = (
  binary_of l src,
  hex_string_to_binary_lem l n src hs,
  length-binary_of n src hs,
  ap (hex_string_into l src) (sym (take-append-drop n dst))
      ∙ hex_string_into-even l n src (take n dst) (drop n dst) hs (length-take n dst ∙ omega arith),
)
  where
    length-binary_of : (n : ℕ) (src : List ℕ) → length src ≡ n * 2 → length (binary_of l src) ≡ n
    length-binary_of zero [] h = refl
    length-binary_of (suc n) [] h = absurd (omega arith)
    length-binary_of n (a ∷ []) h = absurd (omega arith)
    length-binary_of zero (a ∷ b ∷ src) h = absurd (omega arith)
    length-binary_of (suc n) (a ∷ b ∷ src) h = ap suc (length-binary_of n src (omega arith))
