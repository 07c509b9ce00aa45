-- ===== src/Ioqueue/Keyboard.antt =====
-- device/keyboard.c: the scan codes of the keys, and the handler that queues their characters.
use the_one_os.Common.{
  ℕ, ◌-◌, ◌<◌, ◌≡◌, ◌≢◌, ◌⊎◌, Option, some, List, [], ◌∷◌, ◌++◌, get_or, length, ◌≤◌, ltb, ◌==◌,
  if◌then◌else◌, arith, ◌&&◌,
}
use the_one_os.Interrupt.{intr_off}
use the_one_os.Thread.{Kernel}
use the_one_os.Ioqueue.{Ioqueue, ioq_putchar, bufsize}
use the_one_os.Ioqueue.Contents.{IsRing, contents}
use the_one_os.Ioqueue.Refine.{CanWake, putchar_lem}

-- Each row is the character of a key alone and with shift. Escape, backspace, tab and enter are 27, 8,
-- 9 and 10; a key with no character is 0.
abbrev pub keymap : List (ℕ × ℕ)
keymap =
    (0, 0)
    ∷ (27, 27)
    ∷ (b'1', b'!')
    ∷ (b'2', b'@')
    ∷ (b'3', b'#')
    ∷ (b'4', b'$')
    ∷ (b'5', b'%')
    ∷ (b'6', b'^')
    ∷ (b'7', b'&')
    ∷ (b'8', b'*')
    ∷ (b'9', b'(')
    ∷ (b'0', b')')
    ∷ (b'-', b'_')
    ∷ (b'=', b'+')
    ∷ (8, 8)
    ∷ (9, 9)
    ∷ (b'q', b'Q')
    ∷ (b'w', b'W')
    ∷ (b'e', b'E')
    ∷ (b'r', b'R')
    ∷ (b't', b'T')
    ∷ (b'y', b'Y')
    ∷ (b'u', b'U')
    ∷ (b'i', b'I')
    ∷ (b'o', b'O')
    ∷ (b'p', b'P')
    ∷ (b'[', b'{')
    ∷ (b']', b'}')
    ∷ (10, 10)
    ∷ (0, 0)
    ∷ (b'a', b'A')
    ∷ (b's', b'S')
    ∷ (b'd', b'D')
    ∷ (b'f', b'F')
    ∷ (b'g', b'G')
    ∷ (b'h', b'H')
    ∷ (b'j', b'J')
    ∷ (b'k', b'K')
    ∷ (b'l', b'L')
    ∷ (b';', b':')
    ∷ (39, b'"')
    ∷ (b'`', b'~')
    ∷ (0, 0)
    ∷ (92, b'|')
    ∷ (b'z', b'Z')
    ∷ (b'x', b'X')
    ∷ (b'c', b'C')
    ∷ (b'v', b'V')
    ∷ (b'b', b'B')
    ∷ (b'n', b'N')
    ∷ (b'm', b'M')
    ∷ (b',', b'<')
    ∷ (b'.', b'>')
    ∷ (b'/', b'?')
    ∷ (0, 0)
    ∷ (b'*', b'*')
    ∷ (0, 0)
    ∷ (b' ', b' ')
    ∷ (0, 0)
    ∷ []

-- The handler, given the byte that it reads from the keyboard's port.
pub keyboard_handler : Kernel → Ioqueue → ℕ → Option (Kernel × Ioqueue)
keyboard_handler k keyboard_ioq scancode =
    if scancode == 0xe0
    then some (k, keyboard_ioq)
    else if ltb 0 scancode && ltb scancode 0x3b
    then ioq_putchar k keyboard_ioq (get_or keymap scancode (0, 0)).0
    else some (k, keyboard_ioq)

-- A key of the table that is pressed adds its character to a queue with room.
pub handler-pressed :
    (k : Kernel) (q : Ioqueue) (scancode : ℕ)
    → k.intr ≡ intr_off
    → IsRing q
    → length (contents q) ≢ bufsize - 1
    → ((q.consumer ≡ 0) ⊎ CanWake k q.consumer)
    → 0 < scancode
    → scancode < length keymap
    → (k' : Kernel) × (q' : Ioqueue) × (keyboard_handler k q scancode ≡ some (k', q'))
      × (contents q' ≡ contents q ++ (get_or keymap scancode (0, 0)).0 ∷ [])
      × IsRing q'
unfolding keyboard_handler
handler-pressed k q scancode off v room wake lo hi =
    let (k', q', e, added, ring, idle, woken) =
      putchar_lem k q (get_or keymap scancode (0, 0)).0 off v room wake in
    (k', q', ground (arith, e), added, ring)

-- The codes of released keys, the prefix 0xe0 and all others outside the table change nothing.
pub handler-ignored :
    (k : Kernel) (q : Ioqueue) (scancode : ℕ)
    → ((scancode ≡ 0) ⊎ (length keymap ≤ scancode))
    → keyboard_handler k q scancode ≡ some (k, q)
unfolding keyboard_handler
handler-ignored k q scancode out = ground arith
