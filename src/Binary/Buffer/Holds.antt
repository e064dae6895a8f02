-- ===== src/Binary/Buffer/Holds.antt =====
-- What a buffer holds: the encoded bytes stand between the room to prepend and the room to append.
use libant.Common.{ℕ, ◌+◌, ◌-◌, ◌<◌, ◌≤◌, ◌≡◌, refl, sym, ap, ◌∙◌, arith}
use libant.Common.{List, [], ◌++◌, length, length-append, append_assoc, Option, some, none}
use libant.Common.{
  store_at, slice-append, store_at-append, length-store_at, take, drop, take-append-drop,
}
use libant.Common.{last, drop_last, drop_last-append-last, length-last, length-drop_last}
use libant.Common.{length-take, length-drop, ltb, leb, true}
use libant.Binary.Buffer.{Buffer, size, contents, clear, prepend_bytes, create}

pub record Holds (b : Buffer) (s : List ℕ) : Type 0 where
  pub front : List ℕ
  pub back : List ℕ
  pub layout : b.mem ≡ front ++ (s ++ back)
  pub at_head : b.head ≡ length front
  pub room_head : b.head_cap ≡ length front
  pub at_tail : b.tail ≡ length front + length s
  pub room_tail : b.tail_cap ≡ length back
  pub prependable : b.prependable_bytes ≤ 200
  pub room_kept : b.head_cap ≤ b.prependable_bytes
  pub prepended : b.prependable_bytes ≤ length front + length s
  pub block : length front + length s + length back ≤ 0xFFFFFFFF

pub size_lem : {b : Buffer} {s : List ℕ} → Holds b s → size b ≡ length s
unfolding size
size_lem h = omega arith

-- `Data` and `Size` show exactly the bytes that the buffer holds.
pub contents_lem : {b : Buffer} {s : List ℕ} → Holds b s → contents b ≡ s
unfolding contents
contents_lem {b} {s} h =
    rw (size_lem h, h.layout, h.at_head)
      (slice-append h.front s h.back (length h.front) (length s) refl refl)

-- The two rooms and the bytes make up the block.
pub block_lem :
    {b : Buffer} {s : List ℕ} → Holds b s → length b.mem ≡ b.head_cap + length s + b.tail_cap
block_lem {b} {s} h = rw h.layout (
    omega (
      arith,
      h.room_head,
      h.room_tail,
      length-append h.front (s ++ h.back),
      length-append s h.back,
    ))

-- An operation has succeeded, and left the bytes `s`, so much room to prepend, and a block of at
-- most so many bytes.
abbrev pub Gives : Option Buffer → ℕ → ℕ → List ℕ → Type 0
Gives none room block s = ⊥
Gives (some b) room block s = (b.head_cap ≡ room) × (length b.mem ≤ block) × Holds b s

module _ (fresh : ℕ → List ℕ) (sized : (n : ℕ) → length (fresh n) ≡ n) where
  -- The constructor accepts the sizes that its asserts allow, and makes an empty buffer.
  pub create-Gives :
      (reserved prependable : ℕ)
      → prependable ≤ 200
      → 0 < reserved
      → prependable + reserved ≤ 0xFFFFFFFF
      → Gives (create fresh reserved prependable) prependable (prependable + reserved) []
  unfolding create
  create-Gives reserved prependable small some_room fits =
      rw
        (
          let e : leb prependable 200 ≡ true = ground arith in e,
          let e : ltb 0 reserved ≡ true = ground arith in e,
          let e : leb (prependable + reserved) 0xFFFFFFFF ≡ true = ground arith in e,
        )
        (
          refl,
          omega (arith, sized (prependable + reserved)),
          record {
            front = take prependable block;
            back = drop prependable block;
            layout = sym (take-append-drop prependable block);
            at_head = omega (arith, lengths);
            room_head = omega (arith, lengths);
            at_tail = omega (arith, lengths);
            room_tail = omega (arith, lengths);
            prependable = small;
            room_kept = omega arith;
            prepended = omega (arith, lengths);
            block = omega (arith, lengths);
          },
        )
    where
      block : List ℕ
      block = fresh (prependable + reserved)

      lengths :
          (length (take prependable block) ≡ prependable)
          × (length (drop prependable block) ≡ reserved)
      lengths = omega (
        arith,
        sized (prependable + reserved),
        length-take prependable block,
        length-drop prependable block,
      )

-- Prepending puts the bytes in front, if there is room for them.
pub prepend_bytes-Gives :
    (bs : List ℕ) {b : Buffer} {s : List ℕ}
    → Holds b s
    → length bs ≤ b.head_cap
    → Gives (prepend_bytes bs b) (b.head_cap - length bs) (length b.mem) (bs ++ s)
unfolding prepend_bytes
prepend_bytes-Gives bs {b} {s} h fits =
    rw (let e : leb (length bs) b.head_cap ≡ true = ground arith in e) (
      omega (arith, h.prependable, h.room_kept),
      omega (arith, length-store_at b.mem (b.head - length bs) bs),
      record {
        front = kept;
        back = h.back;
        layout = stored;
        at_head = omega (arith, lengths, h.at_head);
        room_head = omega (arith, lengths, h.room_head, h.prependable, h.room_kept);
        at_tail = omega (arith, lengths, h.at_tail, length-append bs s);
        room_tail = h.room_tail;
        prependable = h.prependable;
        room_kept = omega (arith, h.room_kept, h.prependable);
        prepended = omega (arith, lengths, h.prepended, length-append bs s);
        block = omega (arith, lengths, h.block, length-append bs s);
      },
    )
  where
    kept : List ℕ
    kept = drop_last (length bs) h.front

    lengths :
        (length kept ≡ length h.front - length bs)
        × (length (last (length bs) h.front) ≡ length bs)
        × (length bs ≤ length h.front)
    lengths =
        omega (
          arith,
          h.room_head,
          length-drop_last (length bs) h.front,
          length-last (length bs) h.front,
        )

    split : b.mem ≡ kept ++ (last (length bs) h.front ++ (s ++ h.back))
    split =
        h.layout
        ∙ ap (λ (f : List ℕ). f ++ (s ++ h.back)) (sym (drop_last-append-last (length bs) h.front))
        ∙ append_assoc kept (last (length bs) h.front) (s ++ h.back)

    stored : store_at b.mem (b.head - length bs) bs ≡ kept ++ (bs ++ s ++ h.back)
    stored =
        ap (λ (m : List ℕ). store_at m (b.head - length bs) bs) split
        ∙ store_at-append kept (last (length bs) h.front) bs (s ++ h.back) (b.head - length bs)
            (omega (arith, lengths, h.at_head)) lengths.1
        ∙ ap (λ (m : List ℕ). kept ++ m) (sym (append_assoc bs s h.back))

pub prepend_bytes-none :
    (bs : List ℕ) (b : Buffer) → b.head_cap < length bs → prepend_bytes bs b ≡ none
unfolding prepend_bytes
prepend_bytes-none bs b h = ground arith

-- `Clear` drops the bytes and gives the room to prepend back.
pub clear-Holds :
    {b : Buffer} {s : List ℕ}
    → Holds b s
    → Holds (clear b) [] × ((clear b).head_cap ≡ b.prependable_bytes) × ((clear b).mem ≡ b.mem)
unfolding clear
clear-Holds {b} {s} h = (
  record {
    front = take b.prependable_bytes b.mem;
    back = drop b.prependable_bytes b.mem;
    layout = sym (take-append-drop b.prependable_bytes b.mem);
    at_head = omega (arith, lengths, h.at_head, h.room_head, h.room_kept, h.prependable);
    room_head = omega (arith, lengths);
    at_tail = omega (arith, lengths, h.at_head, h.room_head, h.room_kept, h.prependable);
    room_tail =
        omega (
          arith,
          lengths,
          size_lem h,
          h.block,
          h.prepended,
          h.prependable,
          h.room_head,
          h.room_tail,
        );
    prependable = h.prependable;
    room_kept = omega arith;
    prepended = omega (arith, lengths);
    block = omega (arith, lengths, h.block);
  },
  refl,
  refl,
)
  where
    whole : length b.mem ≡ length h.front + (length s + length h.back)
    whole = rw h.layout (omega (arith, length-append h.front (s ++ h.back), length-append s h.back))

    lengths :
        (length (take b.prependable_bytes b.mem) ≡ b.prependable_bytes)
        × (length (drop b.prependable_bytes b.mem)
            ≡ length h.front + length s + length h.back - b.prependable_bytes)
    lengths = omega (
      arith,
      whole,
      h.prepended,
      length-take b.prependable_bytes b.mem,
      length-drop b.prependable_bytes b.mem,
    )
