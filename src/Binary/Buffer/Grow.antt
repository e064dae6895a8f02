-- ===== src/Binary/Buffer/Grow.antt =====
-- Appending to a buffer, which moves to a larger block when the room at the end does not suffice.
use libant.Common.{ℕ, ◌+◌, ◌-◌, ◌*◌, ◌/◌, ◌%◌, ◌^◌, ◌≤◌, ◌≡◌, refl, sym, ap, ◌∙◌, arith}
use libant.Common.{List, ◌++◌, length, length-append, append_assoc, some}
use libant.Common.{store_at, slice, store_at-append, take, drop, take-append-drop}
use libant.Common.{length-store_at}
use libant.Common.{length-take, length-drop, leb, true}
use native.Mathlib.Decide.{dec_le}
use libant.Binary.Buffer.{Buffer, size, contents, reallocate, grow}
use libant.Binary.Buffer.{put_tail, append_bytes}
use libant.Binary.Buffer.Holds.{Holds, Gives, size_lem, contents_lem, block_lem}

-- Writing into the room at the end adds the bytes behind the others.
put_tail-Holds :
    (bs : List ℕ) {b : Buffer} {s : List ℕ}
    → Holds b s
    → length bs ≤ b.tail_cap
    → Holds (put_tail bs b) (s ++ bs)
unfolding put_tail
put_tail-Holds bs {b} {s} h fits = record {
  front = h.front;
  back = drop (length bs) h.back;
  layout = stored;
  at_head = h.at_head;
  room_head = h.room_head;
  at_tail = omega (arith, h.at_tail, length-append s bs);
  room_tail = omega (arith, h.room_tail, length-drop (length bs) h.back, h.block);
  prependable = h.prependable;
  room_kept = h.room_kept;
  prepended = omega (arith, h.prepended, length-append s bs);
  block = omega (arith, h.block, h.room_tail, length-append s bs, length-drop (length bs) h.back);
}
  where
    free : List ℕ
    free = take (length bs) h.back

    rest : List ℕ
    rest = drop (length bs) h.back

    split : b.mem ≡ (h.front ++ s) ++ (free ++ rest)
    split =
        h.layout
        ∙ sym (append_assoc h.front s h.back)
        ∙ ap (λ (t : List ℕ). (h.front ++ s) ++ t) (sym (take-append-drop (length bs) h.back))

    stored : store_at b.mem b.tail bs ≡ h.front ++ (s ++ bs ++ rest)
    stored =
        ap (λ (m : List ℕ). store_at m b.tail bs) split
        ∙ store_at-append (h.front ++ s) free bs rest b.tail
            (omega (arith, h.at_tail, length-append h.front s))
            (omega (arith, h.room_tail, length-take (length bs) h.back))
        ∙ append_assoc h.front s (bs ++ rest)
        ∙ ap (λ (m : List ℕ). h.front ++ m) (sym (append_assoc s bs rest))

put_head : (bs : List ℕ) (b : Buffer) → (put_tail bs b).head_cap ≡ b.head_cap
unfolding put_tail
put_head bs b = refl

put_block : (bs : List ℕ) (b : Buffer) → length (put_tail bs b).mem ≡ length b.mem
unfolding put_tail
put_block bs b = length-store_at b.mem b.tail bs

module _ (fresh : ℕ → List ℕ) (sized : (n : ℕ) → length (fresh n) ≡ n) where
  reallocate-Holds :
      (cur new : ℕ) {b : Buffer} {s : List ℕ}
      → Holds b s
      → cur ≡ b.head_cap + length s + b.tail_cap
      → cur ≤ new
      → new ≤ 0xFFFFFFFF
      → (b' : Buffer) × (reallocate fresh cur new b ≡ some b')
        × Holds b' s
        × (b'.head_cap ≡ b.head_cap)
        × (b'.tail_cap ≡ b.tail_cap + (new - cur))
  unfolding reallocate contents
  reallocate-Holds cur new {b} {s} h is_cur more fits = (
    moved,
    rw (let e : leb new 0xFFFFFFFF ≡ true = ground arith in e),
    holds,
    refl,
    omega (arith, size_lem h),
  )
    where
      moved : Buffer
      moved = record b {
        mem = store_at (fresh new) b.head_cap (slice b.mem b.head (size b));
        head = b.head_cap;
        tail = b.head_cap + size b;
        tail_cap = (b.tail_cap + (new - cur)) % 2 ^ 32;
      }

      room : ℕ
      room = b.head_cap

      f : List ℕ
      f = take room (fresh new)

      m : List ℕ
      m = take (length s) (drop room (fresh new))

      r : List ℕ
      r = drop (length s) (drop room (fresh new))

      lengths : (length f ≡ room) × (length m ≡ length s) × (length r ≡ new - room - length s)
      lengths = omega (
        arith,
        sized new,
        is_cur,
        length-take room (fresh new),
        length-drop room (fresh new),
        length-take (length s) (drop room (fresh new)),
        length-drop (length s) (drop room (fresh new)),
      )

      split : fresh new ≡ f ++ (m ++ r)
      split =
          sym (take-append-drop room (fresh new))
          ∙ ap (λ (t : List ℕ). f ++ t) (sym (take-append-drop (length s) (drop room (fresh new))))

      copied : moved.mem ≡ f ++ (s ++ r)
      copied =
          ap (store_at (fresh new) room) (contents_lem h)
          ∙ ap (λ (t : List ℕ). store_at t room s) split
          ∙ store_at-append f m s r room lengths.0 lengths.1

      holds : Holds moved s
      holds = record {
        front = f;
        back = r;
        layout = copied;
        at_head = omega (arith, lengths);
        room_head = omega (arith, lengths);
        at_tail = omega (arith, lengths, size_lem h);
        room_tail = omega (arith, lengths, size_lem h, is_cur);
        prependable = h.prependable;
        room_kept = h.room_kept;
        prepended = omega (arith, lengths, h.prepended, h.room_head);
        block = omega (arith, lengths, is_cur);
      }

  -- The size of the new block: more than is asked for, by less than 1 KB and a byte.
  grow-Holds :
      (n : ℕ) {b : Buffer} {s : List ℕ}
      → Holds b s
      → b.head_cap + length s + b.tail_cap + n + 1024 ≤ 0xFFFFFFFF
      → (b' : Buffer) × (grow fresh n b ≡ some b')
        × Holds b' s
        × (b'.head_cap ≡ b.head_cap)
        × (n ≤ b'.tail_cap)
        × (length b'.mem ≤ length b.mem + n + 1024)
  unfolding grow
  grow-Holds n {b} {s} h limit = elim (dec_le n b.tail_cap) [
    | yes enough ↦ (b, ground arith, h, refl, enough, omega arith)
    | no short ↦
        let (b', eq, holds, head, tail) =
          reallocate-Holds (b.head_cap + size b + b.tail_cap)
            (((b.head_cap + size b + b.tail_cap + n) / 1024 + 1) * 1024) h
            (omega (arith, size_lem h)) (omega arith) (omega (arith, size_lem h)) in
        (
          b',
          ground arith,
          holds,
          head,
          omega (arith, tail),
          omega (arith, tail, head, size_lem h, block_lem h, block_lem holds),
        )
  ]

  -- Appending adds the bytes at the end and keeps the room to prepend, as long as the grown block
  -- is sure to stay below 4 GB; the block grows by at most the size of the bytes and 1 KB.
  pub append_bytes-Gives :
      (bs : List ℕ) {b : Buffer} {s : List ℕ}
      → Holds b s
      → length b.mem + length bs + 1024 ≤ 0xFFFFFFFF
      → Gives (append_bytes fresh bs b) b.head_cap (length b.mem + length bs + 1024) (s ++ bs)
  unfolding append_bytes
  append_bytes-Gives bs {b} {s} h limit =
      let (b', eq, holds, head, room, block) =
        grow-Holds (length bs) h (omega (arith, block_lem h)) in
      let whole : length bs % 2 ^ 32 ≡ length bs = omega arith in
      rw (whole, eq)
        (put_head bs b' ∙ head, omega (arith, put_block bs b', block), put_tail-Holds bs holds room)
