-- ===== src/DList.antt =====
-- lib/list.c: doubly linked lists threaded through the objects that they hold.
pub mod Chain
pub mod Ops
pub mod Walk
use the_one_os.Common.{
  ℕ, zero, suc, ◌+◌, Bool, true, false, Option, none, some, ◌==◌, if◌then◌else◌, update,
}
use the_one_os.Interrupt.{IntrStatus, intr_disable, intr_set_status}

-- The two pointers of the list_elem at each address, and the interrupt status.
pub record Links : Type 0 where
  pub prev : ℕ → ℕ
  pub next : ℕ → ℕ
  pub intr : IntrStatus

-- struct list, by the addresses of its two sentinels.
pub record DList : Type 0 where
  pub head : ℕ
  pub tail : ℕ

abbrev pub set_prev : Links → ℕ → ℕ → Links
set_prev h p v = record h { prev = update h.prev p v }

abbrev pub set_next : Links → ℕ → ℕ → Links
set_next h p v = record h { next = update h.next p v }

abbrev null : ℕ
null = 0

pub list_init : Links → DList → Links
list_init h list =
    let h1 = set_prev h list.head null in
    let h2 = set_next h1 list.head list.tail in
    let h3 = set_next h2 list.tail null in set_prev h3 list.tail list.head

pub list_insert_before : Links → ℕ → ℕ → Links
list_insert_before h before elem =
    let (old_status, off) = intr_disable h.intr in
    let h0 : Links = record h { intr = off } in
    let h1 = set_next h0 elem before in
    let h2 = set_prev h1 elem (h1.prev before) in
    let h3 = set_next h2 (h2.prev before) elem in
    let h4 = set_prev h3 before elem in record h4 { intr = (intr_set_status old_status off).1 }

pub list_push : Links → DList → ℕ → Links
list_push h plist elem = list_insert_before h (h.next plist.head) elem

pub list_append : Links → DList → ℕ → Links
list_append h plist elem = list_insert_before h plist.tail elem

pub list_remove : Links → ℕ → Links
list_remove h elem =
    let (old_status, off) = intr_disable h.intr in
    let h0 : Links = record h { intr = off } in
    let h1 = set_prev h0 (h0.next elem) (h0.prev elem) in
    let h2 = set_next h1 (h1.prev elem) (h1.next elem) in
    record h2 { intr = (intr_set_status old_status off).1 }

pub list_pop : Links → DList → ℕ × Links
list_pop h plist = let elem = h.next plist.head in (elem, list_remove h elem)

pub list_empty : Links → DList → Bool
list_empty h plist = h.next plist.head == plist.tail

-- The walks follow `next` until the tail: they take fuel, and `none` means that it ran out.
len_loop : ℕ → Links → DList → ℕ → ℕ → Option ℕ
len_loop zero h plist elem len = none
len_loop (suc fuel) h plist elem len =
    let rest = len_loop fuel h plist (h.next elem) (len + 1) in
    if elem == plist.tail then some len else rest

pub list_len : ℕ → Links → DList → Option ℕ
unfolding len_loop
list_len fuel h plist = len_loop fuel h plist (h.next plist.head) 0

-- The inner option is the pointer that is returned, `none` for NULL.
traversal_loop : ℕ → Links → DList → (ℕ → Bool) → ℕ → Option (Option ℕ)
traversal_loop zero h plist func elem = none
traversal_loop (suc fuel) h plist func elem =
    let rest = traversal_loop fuel h plist func (h.next elem) in
    if elem == plist.tail then some none else if func elem then some (some elem) else rest

pub list_traversal : ℕ → Links → DList → (ℕ → Bool) → Option (Option ℕ)
unfolding traversal_loop
list_traversal fuel h plist func =
    if list_empty h plist then some none else traversal_loop fuel h plist func (h.next plist.head)

find_loop : ℕ → Links → DList → ℕ → ℕ → Option Bool
find_loop zero h plist obj_elem elem = none
find_loop (suc fuel) h plist obj_elem elem =
    let rest = find_loop fuel h plist obj_elem (h.next elem) in
    if elem == plist.tail then some false else if elem == obj_elem then some true else rest

pub elem_find : ℕ → Links → DList → ℕ → Option Bool
unfolding find_loop
elem_find fuel h plist obj_elem = find_loop fuel h plist obj_elem (h.next plist.head)
