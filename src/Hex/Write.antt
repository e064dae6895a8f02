-- ===== src/Hex/Write.antt =====
-- The loop that writes hex digits fills the memory with the digits of every byte.
use libant.Common.{
  ℕ, zero, suc, ◌+◌, ◌*◌, ◌≤◌, ◌<◌, ◌≡◌, refl, sym, ap, ◌∙◌, arith, List, [], ◌∷◌, ◌++◌,
}
use libant.Common.{length, take, drop, replicate, length-take, take-append-drop, length-replicate}
use libant.Common.{length-append, store_at, store_at-append, append_assoc, append-nil}
use libant.Hex.{byte_to_hex_string, write_hex, to_hex_string, to_hex_into}

-- The digits of all bytes one after another.
abbrev pub hex_of : List ℕ → List ℕ → List ℕ
hex_of digits [] = []
hex_of digits (b ∷ bs) = byte_to_hex_string digits b ++ hex_of digits bs

pub length-hex_of : (digits bs : List ℕ) → length (hex_of digits bs) ≡ length bs * 2
length-hex_of digits [] = refl
length-hex_of digits (b ∷ bs) = omega (arith, length-hex_of digits bs)

pub write_hex_lem :
    (digits : List ℕ) (i : ℕ) (bs front old back : List ℕ)
    → length front ≡ i * 2
    → length old ≡ length bs * 2
    → write_hex digits i bs (front ++ (old ++ back)) ≡ front ++ (hex_of digits bs ++ back)
unfolding write_hex
write_hex_lem digits i [] front [] back lf lo = refl
write_hex_lem digits i [] front (x ∷ old) back lf lo = absurd (omega arith)
write_hex_lem digits i (b ∷ bs) front [] back lf lo = absurd (omega arith)
write_hex_lem digits i (b ∷ bs) front (x ∷ []) back lf lo = absurd (omega arith)
write_hex_lem digits i (b ∷ bs) front (x ∷ y ∷ old) back lf lo =
    let two : List ℕ = byte_to_hex_string digits b in
    ap (write_hex digits (i + 1) bs) (
      store_at-append front (x ∷ y ∷ []) two (old ++ back) (i * 2) lf refl
      ∙ sym (append_assoc front two (old ++ back)))
    ∙ write_hex_lem digits (i + 1) bs (front ++ two) old back
        (length-append front two ∙ omega arith) (omega arith)
    ∙ append_assoc front two (hex_of digits bs ++ back)

drop-cons : (n : ℕ) (xs : List ℕ) → n < length xs → (x : ℕ) × (drop n xs ≡ x ∷ drop (suc n) xs)
drop-cons n [] h = absurd (omega arith)
drop-cons zero (x ∷ xs) h = (x, refl)
drop-cons (suc n) (x ∷ xs) h = drop-cons n xs (omega arith)

pub to_hex_string_lem : (digits bs : List ℕ) → to_hex_string digits bs ≡ hex_of digits bs
unfolding to_hex_string
to_hex_string_lem digits bs =
    let zeros : List ℕ = replicate (length bs * 2) 0 in
    ap (write_hex digits 0 bs) (sym (append-nil zeros))
    ∙ write_hex_lem digits 0 bs [] zeros [] refl (length-replicate {A = ℕ} (length bs * 2) 0)
    ∙ append-nil (hex_of digits bs)

-- For both letter cases: into memory of at least twice as many bytes as the data and one more, the
-- conversion writes the hex string that the other overload returns and a zero, and nothing else.
to_hex_into_lem :
    (digits bs dst : List ℕ)
    → length bs * 2 + 1 ≤ length dst
    → to_hex_into digits bs dst ≡ to_hex_string digits bs ++ (0 ∷ drop (length bs * 2 + 1) dst)
unfolding to_hex_into
to_hex_into_lem digits bs dst h =
    let n : ℕ = length bs * 2 in
    let text : List ℕ = take n dst in
    let rest : List ℕ = drop n dst in
    let (x, eq) = drop-cons n dst (omega arith) in
    let hex : List ℕ = hex_of digits bs in
    ap (λ (m : List ℕ). store_at m n (0 ∷ []))
      (ap (write_hex digits 0 bs) (sym (take-append-drop n dst))
        ∙ write_hex_lem digits 0 bs [] text rest refl (length-take n dst ∙ omega arith)
        ∙ ap (λ (r : List ℕ). hex ++ r)
            (eq ∙ ap (λ m. x ∷ drop m dst) (let next : suc n ≡ n + 1 = omega arith in next)))
    ∙ store_at-append hex (x ∷ []) (0 ∷ []) (drop (n + 1) dst) n (length-hex_of digits bs) refl
    ∙ ap (λ (t : List ℕ). t ++ (0 ∷ drop (n + 1) dst)) (sym (to_hex_string_lem digits bs))
