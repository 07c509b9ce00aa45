-- ===== src/Gate.antt =====
-- kernel/tss.c and kernel/interrupt.c: the descriptors of segments and of interrupt gates, and the tables
-- of handlers.
pub mod Decode
use the_one_os.Common.{
  ℕ, zero, suc, ◌+◌, ◌-◌, ◌*◌, ◌/◌, ◌%◌, ◌^◌, bit_and, List, [], ◌∷◌, ◌==◌, if◌then◌else◌, update,
}

pub record GdtDesc : Type 0 where
  pub limit_low_word : ℕ
  pub base_low_word : ℕ
  pub base_mid_byte : ℕ
  pub attr_low_byte : ℕ
  pub limit_high_attr_high : ℕ
  pub base_high_byte : ℕ

-- Each field is cut to its width. `attr_low` and `attr_high` are bytes.
pub make_gdt_desc : ℕ → ℕ → ℕ → ℕ → GdtDesc
make_gdt_desc desc_base limit attr_low attr_high = record {
  limit_low_word = bit_and limit 0xffff % 2 ^ 16;
  base_low_word = bit_and desc_base 0xffff % 2 ^ 16;
  base_mid_byte = bit_and desc_base 0xff0000 / 2 ^ 16 % 2 ^ 8;
  attr_low_byte = attr_low;
  limit_high_attr_high = (bit_and limit 0xf0000 / 2 ^ 16 + attr_high) % 2 ^ 8;
  base_high_byte = desc_base / 2 ^ 24 % 2 ^ 8;
}

-- The three descriptors that tss_init writes, from 0xc0000920 on; `tss` is the address of the structure.
pub tss_init_gdt : ℕ → List GdtDesc
tss_init_gdt tss =
    make_gdt_desc tss 103 0x89 0x80
    ∷ make_gdt_desc 0 0xfffff 0xf8 0xc0
    ∷ make_gdt_desc 0 0xfffff 0xf2 0xc0
    ∷ []

pub record GateDesc : Type 0 where
  pub func_offset_low_word : ℕ
  pub selector : ℕ
  pub dcount : ℕ
  pub attribute : ℕ
  pub func_offset_high_word : ℕ

pub make_idt_desc : ℕ → ℕ → GateDesc
make_idt_desc attr function = record {
  func_offset_low_word = bit_and function 0xffff % 2 ^ 16;
  selector = 8;
  dcount = 0;
  attribute = attr;
  func_offset_high_word = bit_and function 0xffff0000 / 2 ^ 16 % 2 ^ 16;
}

abbrev pub idt_desc_cnt : ℕ
idt_desc_cnt = 0x81

-- IDT_DESC_ATTR_DPL0 and IDT_DESC_ATTR_DPL3
abbrev pub attr_dpl0 : ℕ
attr_dpl0 = 0x8e

abbrev pub attr_dpl3 : ℕ
attr_dpl3 = 0xee

-- `left` rounds of the loop, at `i`.
pub idt_loop : (ℕ → ℕ) → ℕ → ℕ → (ℕ → GateDesc) → (ℕ → GateDesc)
idt_loop intr_entry_table zero i idt = idt
idt_loop intr_entry_table (suc left) i idt =
    idt_loop intr_entry_table left (i + 1)
      (update idt i (make_idt_desc attr_dpl0 (intr_entry_table i)))

-- `intr_entry_table` and `syscall_handler` are addresses in the assembly file.
pub idt_desc_init : (ℕ → ℕ) → ℕ → (ℕ → GateDesc) → (ℕ → GateDesc)
idt_desc_init intr_entry_table syscall_handler idt =
    update (idt_loop intr_entry_table idt_desc_cnt 0 idt) 0x80
      (make_idt_desc attr_dpl3 syscall_handler)
