-- ===== src/Interrupt.antt =====
-- kernel/interrupt.c: the interrupt flag of the processor, and the descriptors of the IDT.
use the_one_os.Common.{◌≡◌, refl}

-- enum intr_status, by the flag that it stands for.
pub data IntrStatus : Type 0 where
  intr_off intr_on : IntrStatus

-- Each of these takes the status in force, and returns the old one and the one in force after it.
abbrev pub intr_enable : IntrStatus → IntrStatus × IntrStatus
intr_enable intr_on = (intr_on, intr_on)
intr_enable intr_off = (intr_off, intr_on)

abbrev pub intr_disable : IntrStatus → IntrStatus × IntrStatus
intr_disable intr_on = (intr_on, intr_off)
intr_disable intr_off = (intr_off, intr_off)

abbrev pub intr_set_status : IntrStatus → IntrStatus → IntrStatus × IntrStatus
intr_set_status intr_on s = intr_enable s
intr_set_status intr_off s = intr_disable s

-- A section between intr_disable and intr_set_status of the old status leaves the status as it was.
pub set_status-disable :
    (s : IntrStatus) → (intr_set_status (intr_disable s).0 (intr_disable s).1).1 ≡ s
set_status-disable intr_on = refl
set_status-disable intr_off = refl
