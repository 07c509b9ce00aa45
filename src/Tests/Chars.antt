-- ===== src/Tests/Chars.antt =====
-- device/ioqueue.c, device/keyboard.c: a queue whose characters go round the end of the buffer.
use the_one_os.Common.{
  ℕ, zero, suc, ◌-◌, ◌<◌, ◌≤◌, ◌≡◌, refl, ◌⊎◌, inr, ◌↔◌, true, some, List, [], ◌∷◌, ◌++◌, arith, ap,
  length,
}
use the_one_os.Thread.{Kernel}
use the_one_os.Thread.Queue.{unblocked}
use the_one_os.Sync.{lock_init}
use the_one_os.Ioqueue.{
  Ioqueue, bufsize, gets, must_wait, ioq_getchar, ioq_putchar, ioq_length, ioq_empty, ioq_full,
}
use the_one_os.Ioqueue.Contents.{IsRing, contents, tests_lem, ioq_length_lem}
use the_one_os.Ioqueue.Refine.{CanWake, getchar_lem, putchar_lem, putchar_full}
use the_one_os.Ioqueue.Keyboard.{keyboard_handler, handler-pressed, handler-ignored}
use the_one_os.Tests.Threads.{kernel, kernel-IsSound}

abbrev repeat : ℕ → List ℕ
repeat zero = []
repeat (suc n) = b'x' ∷ repeat n

length-repeat : (n : ℕ) → length (repeat n) ≡ n
length-repeat zero = refl
length-repeat (suc n) = ap suc (length-repeat n)

-- Two characters, at 2047 and 0; the thread at 0x5000 waits for them.
abbrev queue : Ioqueue
queue = record {
  lock = lock_init;
  producer = 0;
  consumer = 0x5000;
  buf = repeat 2048;
  head = 1;
  tail = 2047;
}

queue-IsRing : IsRing queue
queue-IsRing = record { storage = length-repeat 2048; head_in = omega arith; tail_in = omega arith }

-- The same with the buffer full.
abbrev full_queue : Ioqueue
full_queue = record queue { head = 2046 }

full_queue-IsRing : IsRing full_queue
full_queue-IsRing = record {
  storage = length-repeat 2048;
  head_in = omega arith;
  tail_in = omega arith;
}

can_wake : CanWake (kernel 3) 0x5000
can_wake = (omega arith, (kernel-IsSound 3).queued, refl)

getchar_example :
    ((contents queue ≡ []) × (ioq_getchar (kernel 3) queue ≡ some must_wait))
    ⊎ ((byte : ℕ) × (q' : Ioqueue) × (ioq_getchar (kernel 3) queue ≡ some (gets byte q'))
        × (contents queue ≡ byte ∷ contents q')
        × IsRing q')
getchar_example = getchar_lem (kernel 3) queue refl queue-IsRing

putchar_example :
    (k' : Kernel) × (q' : Ioqueue) × (ioq_putchar (kernel 3) queue b'y' ≡ some (k', q'))
    × (contents q' ≡ contents queue ++ b'y' ∷ [])
    × IsRing q'
    × (q'.consumer ≡ 0)
    × (k' ≡ unblocked (kernel 3) 0x5000)
putchar_example = putchar_lem (kernel 3) queue b'y' refl queue-IsRing (omega arith) (inr can_wake)

putchar_full_example : ioq_putchar (kernel 3) full_queue b'y' ≡ some (kernel 3, full_queue)
putchar_full_example = putchar_full (kernel 3) full_queue b'y' refl full_queue-IsRing refl

tests_example :
    ((ioq_empty queue ≡ true) ↔ (length (contents queue) ≡ 0))
    × ((ioq_full queue ≡ true) ↔ (length (contents queue) ≡ bufsize - 1))
    × (length (contents queue) < bufsize)
tests_example = tests_lem queue queue-IsRing

ioq_length_example :
    ((ioq_length queue ≡ length (contents queue)) ↔ (queue.tail < queue.head))
    × ((queue.tail < queue.head) ⊎ (bufsize ≤ ioq_length queue))
ioq_length_example = ioq_length_lem queue queue-IsRing

-- The key `q`.
handler-pressed_example :
    (k' : Kernel) × (q' : Ioqueue) × (keyboard_handler (kernel 3) queue 16 ≡ some (k', q'))
    × (contents q' ≡ contents queue ++ b'q' ∷ [])
    × IsRing q'
handler-pressed_example =
    handler-pressed (kernel 3) queue 16 refl queue-IsRing (omega arith) (inr can_wake) (omega arith)
      (omega arith)

handler-ignored_example : keyboard_handler (kernel 3) queue 0x90 ≡ some (kernel 3, queue)
handler-ignored_example = handler-ignored (kernel 3) queue 0x90 (inr (omega arith))
