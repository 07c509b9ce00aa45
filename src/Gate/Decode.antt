-- ===== src/Gate/Decode.antt =====
-- kernel/tss.c and kernel/interrupt.c: what the processor reads out of a descriptor.
use the_one_os.Common.{
  ℕ, zero, suc, ◌+◌, ◌*◌, ◌/◌, ◌%◌, ◌^◌, ◌<◌, ◌≡◌, refl, ◌&&◌, arith, ◌==◌, ltb, leb, if◌then◌else◌,
  update, ◌∙◌, ==_ne, ℕ_discrete, le→leb, lt→ltb,
}
use the_one_os.Common.Masks.{bit_and-half, bit_and-nibble, bit_and-middle, bit_and-upper}
use the_one_os.Gate.{
  GdtDesc, make_gdt_desc, GateDesc, make_idt_desc, idt_desc_cnt, attr_dpl0, attr_dpl3, idt_loop,
  idt_desc_init,
}

-- The base and the limit of a segment, and the high half of its attributes.
abbrev pub base_of : GdtDesc → ℕ
base_of d = d.base_low_word + d.base_mid_byte * 2 ^ 16 + d.base_high_byte * 2 ^ 24

abbrev pub limit_of : GdtDesc → ℕ
limit_of d = d.limit_low_word + d.limit_high_attr_high % 16 * 2 ^ 16

abbrev pub attr_high_of : GdtDesc → ℕ
attr_high_of d = d.limit_high_attr_high / 16 * 16

-- The address that a gate leads to.
abbrev pub offset_of : GateDesc → ℕ
offset_of g = g.func_offset_low_word + g.func_offset_high_word * 2 ^ 16

-- A descriptor holds the base, the limit of 20 bits and the attributes that it was made from.
pub make_gdt_desc_lem :
    (base limit attr_low attr_high : ℕ)
    → base < 2 ^ 32
    → limit < 2 ^ 20
    → attr_high < 256
    → attr_high % 16 ≡ 0
    → (base_of (make_gdt_desc base limit attr_low attr_high) ≡ base)
      × (limit_of (make_gdt_desc base limit attr_low attr_high) ≡ limit)
      × (attr_high_of (make_gdt_desc base limit attr_low attr_high) ≡ attr_high)
unfolding make_gdt_desc
make_gdt_desc_lem base limit attr_low attr_high small short byte high =
    let b = bit_and-half base in
    let m = bit_and-middle base in
    let l = bit_and-half limit in
    let n = bit_and-nibble limit in
    (
      omega (arith, b, m, small),
      omega (arith, l, n, short, byte, high),
      omega (arith, n, short, byte, high),
    )

pub offset-make_idt_desc :
    (attr function : ℕ) → function < 2 ^ 32 → offset_of (make_idt_desc attr function) ≡ function
unfolding make_idt_desc
offset-make_idt_desc attr function small =
    omega (arith, bit_and-half function, bit_and-upper function small)

attribute_eq : (attr function : ℕ) → (make_idt_desc attr function).attribute ≡ attr
unfolding make_idt_desc
attribute_eq attr function = refl

idt_loop_lem :
    (t : ℕ → ℕ) (left i : ℕ) (idt : ℕ → GateDesc) (j : ℕ)
    → idt_loop t left i idt j
      ≡ (if leb i j && ltb j (i + left) then make_idt_desc attr_dpl0 (t j) else idt j)
unfolding idt_loop
idt_loop_lem t zero i idt j = ground arith
idt_loop_lem t (suc left) i idt j =
    idt_loop_lem t left (i + 1) (update idt i (make_idt_desc attr_dpl0 (t i))) j
    ∙ (elim (ℕ_discrete j i) [ yes e ↦ rw e (ground arith) | no ne ↦ ground (arith, ne) ])

in_table :
    (t : ℕ → ℕ) (idt : ℕ → GateDesc) (j : ℕ)
    → j < idt_desc_cnt
    → idt_loop t idt_desc_cnt 0 idt j ≡ make_idt_desc attr_dpl0 (t j)
in_table t idt j lt =
    idt_loop_lem t idt_desc_cnt 0 idt j ∙ rw (le→leb 0 j (omega arith), lt→ltb j (0 + 129) lt) refl

-- The gate of each vector leads to the handler of that vector, for the kernel only; the gate 0x80 leads to the
-- system call, for every process.
pub idt_desc_init_lem :
    (t : ℕ → ℕ) (syscall_handler : ℕ) (idt : ℕ → GateDesc) (j : ℕ)
    → j < idt_desc_cnt
    → t j < 2 ^ 32
    → syscall_handler < 2 ^ 32
    → (offset_of (idt_desc_init t syscall_handler idt j)
        ≡ (if j == 0x80 then syscall_handler else t j))
      × ((idt_desc_init t syscall_handler idt j).attribute
          ≡ (if j == 0x80 then attr_dpl3 else attr_dpl0))
unfolding idt_desc_init
idt_desc_init_lem t syscall_handler idt j lt small small' = elim (ℕ_discrete j 0x80) [
  | yes e ↦ rw e (
    offset-make_idt_desc attr_dpl3 syscall_handler small',
    attribute_eq attr_dpl3 syscall_handler,
  )
  | no ne ↦
      rw (==_ne j 0x80 ne, in_table t idt j lt)
        (offset-make_idt_desc attr_dpl0 (t j) small, attribute_eq attr_dpl0 (t j))
]
