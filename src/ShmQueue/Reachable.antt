-- ===== src/ShmQueue/Reachable.antt =====
-- What holds in every reachable state of a producer and a consumer on a queue from Create.
use mathlib.Core.Path.{subst}
use libant.Common.{ℕ, ◌+◌, ◌-◌, ◌%◌, ◌^◌, ◌≤◌, ◌<◌, ◌≡◌, inl, inr, refl, sym, ap, ◌∙◌, arith}
use libant.Common.{List, [], ◌∷◌, ◌++◌, length, slice, Option, none, some}
use mathlib.Core.Option.{some-injective}
use libant.Common.{Bool-cases, ltb, leb, ◌&&◌}
use libant.Endian.{Endian}
use libant.ShmQueue.{Queue, Producer, Consumer, resting, aligning, at_pad, turning, checking}
use libant.ShmQueue.{reading, advancing, returning, head_size, create, pop_step}
use libant.ShmQueue.Heads.{Accounts, pops_left}
use libant.ShmQueue.Takes.{pop_step-Stepped}
use libant.ShmQueue.{start_push}
use libant.ShmQueue.Valid.{IsSized, IsReady, IsHeld, IsMessage}
use libant.ShmQueue.Pops.{at}
use libant.ShmQueue.System.{System, Step, Reach, IsGood, fresh, pops-IsGood, pushes-IsGood}

start_push-IsReady :
    (e : Endian) (bs : List ℕ) (q : Queue) (p : Producer)
    → IsSized q
    → start_push bs q ≡ some p
    → IsReady e q p
unfolding start_push
start_push-IsReady e bs q p s eq =
    elim (Bool-cases
      (ltb 0 (length bs) && leb (length bs) ((q.elem_max_size + 2 ^ 32 - 4) % 2 ^ 32))) [
        | inr refused ↦ absurd (no_start (rw refused at eq))
        | inl accepted ↦
            let limit : (q.elem_max_size + 2 ^ 32 - 4) % 2 ^ 32 ≡ q.elem_max_size - 4 =
              omega (arith, s.small, s.elem_small, s.elem_some) in
            let msg : IsMessage q bs = ground (arith, s.elem_some) in
            elim (Bool-cases (leb (length bs + 4) (q.shm_size - q.tail))) [
              | inl room ↦
                  subst (IsReady e q) (some-injective _ _ (rw (accepted, room) at eq))
                    (msg, ground (arith, s.tail_high))
              | inr edge ↦ subst (IsReady e q) (some-injective _ _ (rw (accepted, edge) at eq)) msg
            ]
      ]
  where
    no_start : ◌≡◌ {A = Option Producer} none (some p) → ⊥
    no_start none_some = ground arith

module _ (e : Endian) where
  -- What is good for some messages.
  abbrev pub Good : System → Type 0
  Good s = (taken : List (List ℕ)) × (ms : List (List ℕ)) × IsGood e s taken ms

  Step-IsGood :
      (s t : System) (taken ms : List (List ℕ)) → Step e s t → IsGood e s taken ms → Good t
  Step-IsGood s t taken ms (Step.calls bs p quiet starts eq) g = (
    taken,
    ms,
    subst (λ u. IsGood e u taken ms) (sym eq)
        (record {
          valid = g.valid;
          ready = start_push-IsReady e bs s.queue p g.valid.sized starts;
          coming = g.coming;
          kept = g.kept;
          order = g.order;
        }),
  )
  Step-IsGood s t taken ms (Step.pushes eq) g =
      let (ms', good) = pushes-IsGood e s s.producer taken ms refl g in
      subst Good (sym eq) (taken, ms', good)
  Step-IsGood s t taken ms (Step.pops c q r popped eq) g =
      subst Good (sym eq) (pops-IsGood e s c q r taken ms g popped)

  Reach-IsGood : (s t : System) → IsGood e s [] [] → Reach e s t → Good t
  Reach-IsGood s t g Reach.here = ([], [], g)
  Reach-IsGood s t g (Reach.next {t = u} r st) =
      let (taken, ms, good) = Reach-IsGood s u g r in Step-IsGood u t taken ms st good

  pub create-IsGood :
      (mapped : ℕ → Option (List ℕ)) (name : List ℕ) (cq_size data_max_sz : ℕ) (q : Queue)
      → ((size : ℕ) (mem : List ℕ) → mapped size ≡ some mem → length mem ≡ size)
      → create mapped name cq_size data_max_sz ≡ some (some q)
      → IsGood e (fresh q) [] []
  unfolding create
  create-IsGood mapped name cq_size data_max_sz q law made =
      elim (Bool-cases (ltb cq_size 2000000000 && leb (data_max_sz + 4) cq_size)) [
        | inr refused ↦ absurd (refuses (rw refused at made))
        | inl sized ↦ elim (Bool-cases (leb 64 (length name))) [
          | inl long ↦ absurd (fails (rw (sized, long) at made))
          | inr short ↦
              opened (ground arith) (ground arith) (mapped ((cq_size + 80) % 2 ^ 32)) refl
                (some-injective _ _ (rw (sized, short) at made))
        ]
      ]
    where
      refuses : ◌≡◌ {A = Option (Option Queue)} none (some (some q)) → ⊥
      refuses eq = ground arith

      fails : ◌≡◌ {A = Option (Option Queue)} (some none) (some (some q)) → ⊥
      fails eq = ground arith

      opened :
          cq_size < 2000000000
          → data_max_sz + 4 ≤ cq_size
          → (m : Option (List ℕ)) → mapped ((cq_size + 80) % 2 ^ 32) ≡ m
          → (elim m [
            | none ↦ none
            | some mem ↦ some (record {
              head = head_size;
              tail = head_size;
              shm_size = (cq_size + 80) % 2 ^ 32;
              elem_max_size = (data_max_sz + 4) % 2 ^ 32;
              name = name;
              mem = mem;
            })
          ])
            ≡ some q
          → IsGood e (fresh q) [] []
      opened small fits none eq made = absurd (none_made made)
        where
          none_made : ◌≡◌ {A = Option Queue} none (some q) → ⊥
          none_made eq = ground arith
      opened small fits (some mem) eq made =
          subst (λ r. IsGood e (fresh r) [] []) (some-injective _ _ made)
            (record {
              valid = record {
                sized = record {
                  head_low = omega arith;
                  tail_low = omega arith;
                  head_high = omega arith;
                  tail_high = omega arith;
                  whole = law ((cq_size + 80) % 2 ^ 32) mem eq;
                  small = omega arith;
                  elem_small = omega arith;
                  elem_some = omega arith;
                };
                layout = inl refl;
              };
              ready = tt;
              coming = refl;
              kept = tt;
              order = refl;
            })

-- A result of the next step of `Pop`: the call goes on, with fewer steps to go; or it returns 0 and
-- there is nothing more to pop; or it returns the place of the next message.
abbrev pub Next : Queue → Consumer → Consumer → List (List ℕ) → Option (Option (ℕ × ℕ)) → Type 0
Next q c c' waiting none = pops_left c' < pops_left c
Next q c c' waiting (some none) = waiting ≡ []
Next q c c' waiting (some (some (pos, len))) =
    (m : List ℕ) × (rest : List (List ℕ)) × (waiting ≡ m ∷ rest)
    × (len ≡ length m)
    × (slice q.mem pos (length m) ≡ m)

Accounts-Next :
    (e : Endian) (q q' : Queue) (c c' : Consumer) (taken ms taken' ms' : List (List ℕ))
    (o : Option (Option (ℕ × ℕ)))
    → q'.mem ≡ q.mem
    → Accounts e q' c c' taken ms taken' ms' o
    → Next q c c' (taken ++ ms) o
Accounts-Next e q q' c c' taken ms taken' ms' none same (order, fewer) = fewer
Accounts-Next e q q' c c' taken ms taken' ms' (some none) same (et, em, et', em') = rw (et, em) refl
Accounts-Next e q q' c c' taken ms taken' ms' (some (some (pos, len))) same
      (m, et, et', em', el, (i, ei, (low, (block, end, step, ends)))) =
    (
      m,
      ms,
      ap (λ (l : List (List ℕ)). l ++ ms) et,
      el,
      ap (λ (b : List ℕ). slice b pos (length m)) (sym same)
          ∙ ap (λ n. slice q'.mem n (length m)) ei
          ∙ block.1,
    )

pops_left-le : (c : Consumer) → pops_left c ≤ 7
pops_left-le resting = omega arith
pops_left-le aligning = omega arith
pops_left-le at_pad = omega arith
pops_left-le turning = omega arith
pops_left-le checking = omega arith
pops_left-le reading = omega arith
pops_left-le advancing = omega arith
pops_left-le (returning i) = omega arith

-- For a queue from `Create`, given that the system maps a segment of the size asked for, and every
-- interleaving of the steps of one producer and one consumer, each step one look at the other's
-- offset, one read of a length or one store: the messages popped are the first of the messages
-- pushed, in order. The next step of `Pop` then never fails its assert: it brings the call nearer
-- to its end, a call taking 8 steps at most; or it ends it with 0, and there is no other message; or
-- it ends it with the place and the length of the next message, which is there.
pub Reach-pop :
    (e : Endian) (mapped : ℕ → Option (List ℕ)) (name : List ℕ) (cq_size data_max_sz : ℕ)
    (q : Queue) (s : System)
    → ((size : ℕ) (mem : List ℕ) → mapped size ≡ some mem → length mem ≡ size)
    → create mapped name cq_size data_max_sz ≡ some (some q)
    → Reach e (fresh q) s
    → (waiting : List (List ℕ)) × (c : Consumer) × (h : ℕ) × (o : Option (Option (ℕ × ℕ)))
      × (s.pushed ≡ s.popped ++ waiting)
      × (pop_step e s.consumer s.queue ≡ some (c, at e s.queue h, o))
      × Next s.queue s.consumer c waiting o
      × (pops_left s.consumer ≤ 7)
Reach-pop e mapped name cq_size data_max_sz q s law made reach =
    let (taken, ms, g) =
      Reach-IsGood e (fresh q) s (create-IsGood e mapped name cq_size data_max_sz q law made)
        reach in
    let (c, h, o, taken', ms', step, v, coming, moves, counts) =
      pop_step-Stepped e s.queue ms g.valid s.consumer taken g.coming in
    (
      taken ++ ms,
      c,
      h,
      o,
      g.order,
      step,
      Accounts-Next e s.queue (at e s.queue h) s.consumer c taken ms taken' ms' o refl counts,
      pops_left-le s.consumer,
    )

-- For a queue from `Create`, given that the system maps a segment of the size asked for, and every
-- interleaving of the steps of one producer and one consumer, each step one look at the other's
-- offset, one read of a length or one store: the data that the last `Pop` returned stay as they were,
-- whatever the producer does, until `Pop` is called again; they lie in the segment behind its head.
pub Reach-held :
    (e : Endian) (mapped : ℕ → Option (List ℕ)) (name : List ℕ) (cq_size data_max_sz : ℕ)
    (q : Queue) (s : System) (pos : ℕ) (m : List ℕ)
    → ((size : ℕ) (mem : List ℕ) → mapped size ≡ some mem → length mem ≡ size)
    → create mapped name cq_size data_max_sz ≡ some (some q)
    → Reach e (fresh q) s
    → s.held ≡ some (pos, m)
    → (slice s.queue.mem pos (length m) ≡ m)
      × (head_size ≤ pos)
      × (pos + length m ≤ length s.queue.mem)
Reach-held e mapped name cq_size data_max_sz q s pos m law made reach eq =
    let (taken, ms, g) =
      Reach-IsGood e (fresh q) s (create-IsGood e mapped name cq_size data_max_sz q law made)
        reach in
    let (i, ei, (low, (block, end, step, ends))) = subst (IsHeld e s.queue) eq g.kept in
    (
      ap (λ n. slice s.queue.mem n (length m)) ei ∙ block.1,
      omega arith,
      omega (arith, g.valid.sized.head_high, g.valid.sized.whole),
    )
