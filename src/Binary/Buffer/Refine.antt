-- ===== src/Binary/Buffer/Refine.antt =====
-- A buffer against its specification: a string of bytes that grows at both ends.
use libant.Common.{ℕ, ◌+◌, ◌-◌, ◌%◌, ◌<◌, ◌≤◌, ◌≡◌, refl, sym, ◌∙◌, arith}
use libant.Common.{List, [], ◌∷◌, ◌++◌, length, Option, some, none}
use mathlib.Core.Option
use mathlib.Core.Path.{subst}
use libant.Endian.{Endian, IntType, size_of, modulus, stored, Platform, IsPlatform}
use libant.Endian.Order.{length-stored}
use libant.Binary.Integer.{encoded, encoded_lem}
use libant.Binary.Buffer.{Buffer, contents, create, prepend_bytes, append_bytes}
use libant.Binary.Buffer.{prepend_integer, prepend_sized_string}
use libant.Binary.Buffer.{append_integer, append_sized_string}
use libant.Binary.Buffer.Holds.{Holds, Gives, contents_lem, create-Gives, prepend_bytes-Gives}
use libant.Binary.Buffer.Grow.{append_bytes-Gives}

-- The calls of a client.
pub data Op : Type 0 where
  front_integer back_integer : IntType → ℕ → Op
  front_string back_string : List ℕ → Op
  front_sized back_sized : IntType → List ℕ → Op

-- The specification: integers in the byte order of the stream, a length in front of its string.
module _ (e : Endian) where
  abbrev pub number : IntType → ℕ → List ℕ
  number t v = stored e (size_of t) v

  abbrev pub spec : Op → List ℕ → List ℕ
  spec (front_integer t v) s = number t v ++ s
  spec (back_integer t v) s = s ++ number t v
  spec (front_string x) s = x ++ s
  spec (back_string x) s = s ++ x
  spec (front_sized t x) s = number t (length x % modulus t) ++ (x ++ s)
  spec (back_sized t x) s = (s ++ number t (length x % modulus t)) ++ x

  abbrev pub spec_all : List Op → List ℕ → List ℕ
  spec_all [] s = s
  spec_all (op ∷ ops) s = spec_all ops (spec op s)

-- How many bytes a call prepends, and by how many at most the block grows.
abbrev pub front_cost : Op → ℕ
front_cost (front_integer t v) = size_of t
front_cost (front_string x) = length x
front_cost (front_sized t x) = size_of t + length x
front_cost _ = 0

abbrev pub back_cost : Op → ℕ
back_cost (back_integer t v) = size_of t + 1024
back_cost (back_string x) = length x + 1024
back_cost (back_sized t x) = size_of t + length x + 2048
back_cost _ = 0

abbrev pub IsOp : Op → Type 0
IsOp (front_integer t v) = v < modulus t
IsOp (back_integer t v) = v < modulus t
IsOp _ = Unit

-- The calls fit in `room` bytes to prepend and a block that starts with `block` bytes. Growing rounds
-- up to 1024 bytes, which is charged to every append.
abbrev pub Fits : List Op → ℕ → ℕ → Type 0
Fits [] room block = Unit
Fits (op ∷ ops) room block =
    IsOp op
    × (front_cost op ≤ room)
    × (block + back_cost op ≤ 0xFFFFFFFF)
    × Fits ops (room - front_cost op) (block + back_cost op)

module _ (p : Platform) (e : Endian) (fresh : ℕ → List ℕ) where
  pub step : Op → Buffer → Option Buffer
  step (front_integer t v) b = prepend_integer p e t v b
  step (back_integer t v) b = append_integer p e fresh t v b
  step (front_string x) b = prepend_bytes x b
  step (back_string x) b = append_bytes fresh x b
  step (front_sized t x) b = prepend_sized_string p e t x b
  step (back_sized t x) b = append_sized_string p e fresh t x b

  pub run : List Op → Buffer → Option Buffer
  run [] b = some b
  run (op ∷ ops) b = Option.bind (step op b) (run ops)

mod_modulus : (t : IntType) (n : ℕ) → n % modulus t < modulus t
mod_modulus IntType.int8 n = omega arith
mod_modulus IntType.uint8 n = omega arith
mod_modulus IntType.int16 n = omega arith
mod_modulus IntType.uint16 n = omega arith
mod_modulus IntType.int32 n = omega arith
mod_modulus IntType.uint32 n = omega arith
mod_modulus IntType.int64 n = omega arith
mod_modulus IntType.uint64 n = omega arith

bind-Gives :
    (o : Option Buffer) (f : Buffer → Option Buffer) (room block room' block' : ℕ) (s s' : List ℕ)
    → Gives o room block s
    → ((b : Buffer)
        → b.head_cap ≡ room
        → length b.mem ≤ block
        → Holds b s
        → Gives (f b) room' block' s')
    → Gives (Option.bind o f) room' block' s'
unfolding Option.bind
bind-Gives none f room block room' block' s s' g k = absurd g
bind-Gives (some b) f room block room' block' s s' (head, small, holds) k = k b head small holds

-- The calls have succeeded, and the buffer shows the bytes.
abbrev pub Shows : Option Buffer → List ℕ → Type 0
Shows none s = ⊥
Shows (some b) s = (contents b ≡ s) × Holds b s

bind-Shows :
    (o : Option Buffer) (f : Buffer → Option Buffer) (room block : ℕ) (s s' : List ℕ)
    → Gives o room block s
    → ((b : Buffer) → b.head_cap ≡ room → length b.mem ≤ block → Holds b s → Shows (f b) s')
    → Shows (Option.bind o f) s'
unfolding Option.bind
bind-Shows none f room block s s' g k = absurd g
bind-Shows (some b) f room block s s' (head, small, holds) k = k b head small holds

weaken :
    (o : Option Buffer) (room block room' block' : ℕ) (s : List ℕ)
    → room ≡ room'
    → block ≤ block'
    → Gives o room block s
    → Gives o room' block' s
weaken none room block room' block' s e h g = g
weaken (some b) room block room' block' s e h (head, small, holds) = (head ∙ e, omega arith, holds)

module _ (p : Platform) (q : IsPlatform p) (e : Endian) (fresh : ℕ → List ℕ)
    (sized : (n : ℕ) → length (fresh n) ≡ n) where
  front-Gives :
      (t : IntType) (v : ℕ) {b : Buffer} {s : List ℕ}
      → v < modulus t
      → Holds b s
      → size_of t ≤ b.head_cap
      → Gives
          (prepend_bytes (encoded p e t v) b)
          (b.head_cap - size_of t)
          (length b.mem)
          (number e t v ++ s)
  front-Gives t v {b} {s} h holds fits = rw (encoded_lem p q e t v h) (
      weaken (prepend_bytes bs b) _ _ _ _ (bs ++ s) (omega (arith, l)) (omega arith)
        (prepend_bytes-Gives bs holds (omega (arith, l))))
    where
      bs : List ℕ
      bs = number e t v

      l : length bs ≡ size_of t
      l = length-stored e (size_of t) v

  back-Gives :
      (t : IntType) (v : ℕ) {b : Buffer} {s : List ℕ}
      → v < modulus t
      → Holds b s
      → length b.mem + size_of t + 1024 ≤ 0xFFFFFFFF
      → Gives
          (append_bytes fresh (encoded p e t v) b)
          b.head_cap
          (length b.mem + size_of t + 1024)
          (s ++ number e t v)
  back-Gives t v {b} {s} h holds fits = rw (encoded_lem p q e t v h) (
      weaken (append_bytes fresh bs b) _ _ _ _ (s ++ bs) refl (omega (arith, l))
        (append_bytes-Gives fresh sized bs holds (omega (arith, l))))
    where
      bs : List ℕ
      bs = number e t v

      l : length bs ≡ size_of t
      l = length-stored e (size_of t) v

  step-Gives :
      (op : Op) (block : ℕ) {b : Buffer} {s : List ℕ}
      → IsOp op
      → Holds b s
      → length b.mem ≤ block
      → front_cost op ≤ b.head_cap
      → block + back_cost op ≤ 0xFFFFFFFF
      → Gives
          (step p e fresh op b)
          (b.head_cap - front_cost op)
          (block + back_cost op)
          (spec e op s)
  unfolding step prepend_integer append_integer prepend_sized_string append_sized_string
  step-Gives (front_integer t v) block {b} {s} h holds small room fits =
      weaken (prepend_bytes (encoded p e t v) b) _ _ _ _ (number e t v ++ s) refl (omega arith)
        (front-Gives t v h holds room)
  step-Gives (back_integer t v) block {b} {s} h holds small room fits =
      weaken (append_bytes fresh (encoded p e t v) b) _ _ _ _ (s ++ number e t v) (omega arith)
        (omega arith) (back-Gives t v h holds (omega arith))
  step-Gives (front_string x) block {b} {s} h holds small room fits =
      weaken (prepend_bytes x b) _ _ _ _ (x ++ s) refl (omega arith)
        (prepend_bytes-Gives x holds room)
  step-Gives (back_string x) block {b} {s} h holds small room fits =
      weaken (append_bytes fresh x b) _ _ _ _ (s ++ x) (omega arith) (omega arith)
        (append_bytes-Gives fresh sized x holds (omega arith))
  step-Gives (front_sized t x) block {b} {s} h holds small room fits =
      let n = length x % modulus t in
      bind-Gives (prepend_bytes x b) (λ b'. prepend_bytes (encoded p e t n) b')
        (b.head_cap - length x) (length b.mem) _ _ (x ++ s) _
        (prepend_bytes-Gives x holds (omega arith))
        λ b' head block' holds'.
          weaken (prepend_bytes (encoded p e t n) b') _ _ _ _ (number e t n ++ (x ++ s))
            (omega arith) (omega arith)
            (front-Gives t n (mod_modulus t (length x)) holds' (omega arith))
  step-Gives (back_sized t x) block {b} {s} h holds small room fits =
      let n = length x % modulus t in
      bind-Gives (append_bytes fresh (encoded p e t n) b) (λ b'. append_bytes fresh x b') b.head_cap
        (length b.mem + size_of t + 1024) _ _ (s ++ number e t n) _
        (back-Gives t n (mod_modulus t (length x)) holds (omega arith))
        λ b' head block' holds'.
          weaken (append_bytes fresh x b') _ _ _ _ ((s ++ number e t n) ++ x) (omega arith)
            (omega arith) (append_bytes-Gives fresh sized x holds' (omega arith))

  run-Shows :
      (ops : List Op) (block : ℕ) {b : Buffer} {s : List ℕ}
      → Holds b s
      → length b.mem ≤ block
      → Fits ops b.head_cap block
      → Shows (run p e fresh ops b) (spec_all e ops s)
  unfolding run
  run-Shows [] block holds small fits = (contents_lem holds, holds)
  run-Shows (op ∷ ops) block {b} {s} holds small (good, room, limit, fits) =
      bind-Shows (step p e fresh op b) (run p e fresh ops) _ _ (spec e op s) _
        (step-Gives op block good holds small room limit)
        λ b' head small' holds'.
          run-Shows ops (block + back_cost op) holds' small' (rw (← head) at fits)

  -- A new buffer, and then any sequence of `Prepend…` and `Append…` calls, provided that what is
  -- prepended fits in the room to prepend, and that the first block, with the bytes appended and
  -- another 1024 for every append (2048 for a string with its length), stays below 4 GB in
  -- total: no assert fails, and `Data` and `Size` show exactly the
  -- bytes of the specification, whatever the system and whatever new memory contains.
  pub create-run-Shows :
      (reserved prependable : ℕ) (ops : List Op)
      → prependable ≤ 200
      → 0 < reserved
      → prependable + reserved ≤ 0xFFFFFFFF
      → Fits ops prependable (prependable + reserved)
      → Shows
          (Option.bind (create fresh reserved prependable) (run p e fresh ops))
          (spec_all e ops [])
  create-run-Shows reserved prependable ops few some_room small fits =
      bind-Shows (create fresh reserved prependable) (run p e fresh ops) _ _ [] _
        (create-Gives fresh sized reserved prependable few some_room small)
        λ b head block holds.
          run-Shows ops (prependable + reserved) holds block
            (subst (λ r. Fits ops r (prependable + reserved)) (sym head) fits)
