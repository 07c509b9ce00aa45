-- ===== src/Tests/Gates.antt =====
-- kernel/tss.c, kernel/interrupt.c: the descriptor of a user segment, and the gate of the system call.
use the_one_os.Common.{ℕ, ◌+◌, ◌*◌, ◌≡◌, ◌==◌, if◌then◌else◌, arith}
use the_one_os.Gate.{GateDesc, make_gdt_desc, make_idt_desc, attr_dpl0, attr_dpl3, idt_desc_init}
use the_one_os.Gate.Decode.{
  base_of, limit_of, attr_high_of, make_gdt_desc_lem, offset_of, idt_desc_init_lem,
}

make_gdt_desc_example :
    (base_of (make_gdt_desc 0xc0012345 0xfffff 0xf2 0xc0) ≡ 0xc0012345)
    × (limit_of (make_gdt_desc 0xc0012345 0xfffff 0xf2 0xc0) ≡ 0xfffff)
    × (attr_high_of (make_gdt_desc 0xc0012345 0xfffff 0xf2 0xc0) ≡ 0xc0)
make_gdt_desc_example =
    make_gdt_desc_lem 0xc0012345 0xfffff 0xf2 0xc0 (omega arith) (omega arith) (omega arith)
      (omega arith)

abbrev entries : ℕ → ℕ
entries j = 0xc0001000 + j * 16

abbrev vector : ℕ
vector = 0x80

abbrev handler : ℕ
handler = 0xc0009000

abbrev empty_gate : ℕ → GateDesc
empty_gate j = make_idt_desc 0 0

idt_desc_init_example :
    (offset_of (idt_desc_init entries handler empty_gate vector)
      ≡ (if vector == 0x80 then handler else entries vector))
    × ((idt_desc_init entries handler empty_gate vector).attribute
        ≡ (if vector == 0x80 then attr_dpl3 else attr_dpl0))
idt_desc_init_example =
    idt_desc_init_lem entries handler empty_gate vector (omega arith) (omega arith) (omega arith)
