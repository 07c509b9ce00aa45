-- ===== src/Ioqueue/Refine.antt =====
-- device/ioqueue.c: the ring is a queue of at most 2047 characters.
use the_one_os.Common.{
  ℕ, suc, ◌-◌, ◌≡◌, refl, ◌≢◌, ◌⊎◌, inl, inr, Option, some, [], ◌∷◌, ◌++◌, get_or, set, length,
  arith, ap, length-set, if◌then◌else◌, true, ◌∙◌, ◌==◌, ◌>>=◌, Bool-cases, sym,
}
use the_one_os.Interrupt.{intr_off}
use the_one_os.Thread.{Kernel, is_parked}
use the_one_os.Thread.Queue.{IsQueued, unblocked, unblock_lem}
use the_one_os.Ioqueue.{
  Ioqueue, bufsize, next_pos, ioq_full, ioq_empty, take_char, gets, must_wait, ioq_getchar, wakeup,
  ioq_putchar,
}
use the_one_os.Ioqueue.Contents.{
  IsRing, count, contents, chars, length-chars, chars-set, chars-pos, tests_lem,
}

-- Taking a character from a queue that holds one returns the oldest, and leaves the others.
pub take_char_lem :
    (q : Ioqueue)
    → IsRing q
    → contents q ≢ []
    → (contents q ≡ (take_char q).0 ∷ contents (take_char q).1) × IsRing (take_char q).1
unfolding take_char
take_char_lem q v some_left = (
  chars-pos q.buf q.tail (count q) held
      ∙ ap (λ n. get_or q.buf q.tail 0 ∷ chars q.buf (next_pos q.tail) n) (omega (arith, held)),
  record { storage = v.storage; head_in = v.head_in; tail_in = omega arith },
)
  where
    held : count q ≢ 0
    held e = some_left (ap (chars q.buf q.tail) e)

-- ioq_getchar, with interrupts off, returns the oldest character, or is to wait when there is none.
pub getchar_lem :
    (k : Kernel) (q : Ioqueue)
    → k.intr ≡ intr_off
    → IsRing q
    → ((contents q ≡ []) × (ioq_getchar k q ≡ some must_wait))
      ⊎ ((byte : ℕ) × (q' : Ioqueue) × (ioq_getchar k q ≡ some (gets byte q'))
          × (contents q ≡ byte ∷ contents q')
          × IsRing q')
getchar_lem k q off v = elim (Bool-cases (ioq_empty q)) [
  | inl e ↦ inl (ap (chars q.buf q.tail) (empty e), unfold ioq_getchar in rw (off, e) refl)
  | inr e ↦
      let (front, ring) = take_char_lem q v (λ z. cc (sym e ∙ full z)) in
      inr ((take_char q).0, (take_char q).1, unfold ioq_getchar in rw (off, e) refl, front, ring)
]
  where
    empty : ioq_empty q ≡ true → count q ≡ 0
    empty e = ground (arith, tests_lem q v, length-chars q.buf q.tail (count q))

    full : contents q ≡ [] → ioq_empty q ≡ true
    full z = (tests_lem q v).0.1 (ap length z)

-- A waiting consumer is parked, so that it can be woken.
abbrev pub CanWake : Kernel → ℕ → Type 0
CanWake k t = (t ≢ 0) × IsQueued k × (is_parked (k.task t).status ≡ true)

-- A full queue drops the character.
pub putchar_full :
    (k : Kernel) (q : Ioqueue) (byte : ℕ)
    → k.intr ≡ intr_off
    → IsRing q
    → length (contents q) ≡ bufsize - 1
    → ioq_putchar k q byte ≡ some (k, q)
unfolding ioq_putchar
putchar_full k q byte off v full = rw (off, (tests_lem q v).1.1 full) refl

-- The queue with a character more.
abbrev pub put : Ioqueue → ℕ → Ioqueue
put q byte = record q { buf = set q.buf q.head byte; head = next_pos q.head }

pub put-contents :
    (q : Ioqueue) (byte : ℕ)
    → IsRing q
    → length (contents q) ≢ bufsize - 1
    → (contents (put q byte) ≡ contents q ++ byte ∷ []) × IsRing (put q byte)
put-contents q byte v room = (
  ap (chars (set q.buf q.head byte) q.tail) more
      ∙ chars-set q.buf byte (count q) q.tail q.head v.storage v.tail_in (omega arith)
          (omega arith),
  record {
    storage = length-set q.buf q.head byte ∙ v.storage;
    head_in = omega arith;
    tail_in = v.tail_in;
  },
)
  where
    short : count q ≢ bufsize - 1
    short e = room (length-chars q.buf q.tail (count q) ∙ e)

    more : count (put q byte) ≡ suc (count q)
    more = omega (arith, short)

-- The end of ioq_putchar, by the consumer.
abbrev deliver : Kernel → Ioqueue → ℕ → ℕ → Option (Kernel × Ioqueue)
deliver k q byte c =
    if c == 0
    then some (k, put q byte)
    else (wakeup k c >>= λ (k', c'). some (k', record (put q byte) { consumer = c' }))

putchar-eq :
    (k : Kernel) (q : Ioqueue) (byte : ℕ)
    → k.intr ≡ intr_off
    → IsRing q
    → length (contents q) ≢ bufsize - 1
    → ioq_putchar k q byte ≡ deliver k q byte q.consumer
putchar-eq k q byte off v room = elim (Bool-cases (ioq_full q)) [
  | inl full ↦ absurd (room ((tests_lem q v).1.0 full))
  | inr more ↦ unfold ioq_putchar in rw (off, more) refl
]

-- With interrupts off and room in the queue, ioq_putchar adds the character behind the others; a waiting
-- consumer is made ready, first in line, and waits no longer.
pub putchar_lem :
    (k : Kernel) (q : Ioqueue) (byte : ℕ)
    → k.intr ≡ intr_off
    → IsRing q
    → length (contents q) ≢ bufsize - 1
    → ((q.consumer ≡ 0) ⊎ CanWake k q.consumer)
    → (k' : Kernel) × (q' : Ioqueue) × (ioq_putchar k q byte ≡ some (k', q'))
      × (contents q' ≡ contents q ++ byte ∷ [])
      × IsRing q'
      × (q'.consumer ≡ 0)
      × (k' ≡ (if q.consumer == 0 then k else unblocked k q.consumer))
putchar_lem k q byte off v room (inl idle) =
    let (added, ring) = put-contents q byte v room in
    (
      k,
      put q byte,
      putchar-eq k q byte off v room ∙ ap (deliver k q byte) idle,
      added,
      ring,
      idle,
      ground (arith, idle),
    )
putchar_lem k q byte off v room (inr (there, queued, parked)) =
    let (added, ring) = put-contents q byte v room in
    (
      unblocked k q.consumer,
      record (put q byte) { consumer = 0 },
      putchar-eq k q byte off v room ∙ wakes,
      added,
      record { storage = ring.storage; head_in = ring.head_in; tail_in = ring.tail_in },
      refl,
      ground (arith, there),
    )
  where
    wakes :
        deliver k q byte q.consumer
        ≡ some (unblocked k q.consumer, record (put q byte) { consumer = 0 })
    wakes = unfold wakeup in ground (arith, there, unblock_lem q.consumer queued parked)
