-- ===== src/Files/Extend.antt =====
-- fs/file.c: a block of a file gets a sector.
use the_one_os.Common.{ℕ, ◌≤◌, ◌≡◌, ◌≢◌, arith, Memory, sym, ◌∙◌, update, ℕ_discrete, subst}
use the_one_os.Fs.Alloc.{Partition}
use the_one_os.Files.{Disk}
use the_one_os.Files.Blocks.{IsMounted, Blocks, IsTaken, IsOwned, indirect, taken-positive}
use the_one_os.Files.Allocate.{IsAllocated}

module _ {part : Partition} (mount : IsMounted part) {m m' : Memory} {disk disk' : Disk} {lba : ℕ}
    (got : IsAllocated part m m' disk disk' lba) {blocks : Blocks} (owned : IsOwned part m blocks)
    (idx : ℕ) where
  abbrev new : Blocks
  new = update blocks idx lba

  pub new_self : (k : ℕ) → k ≡ idx → new k ≡ lba
  new_self k e = ground arith

  pub new_other : (k : ℕ) → k ≢ idx → new k ≡ blocks k
  new_other k ne = ground arith

  free : (k : ℕ) → k ≤ indirect → blocks k ≢ lba
  free k le e =
      got.was_free (blocks k)
        (owned.taken k le (λ z. taken-positive part m' lba mount got.taken (sym e ∙ z))) e

  -- The file still owns its sectors, and the new one.
  pub update-IsOwned : IsOwned part m' new
  update-IsOwned = record {
    bytes = got.bytes;
    taken = λ k le has. elim (ℕ_discrete k idx) [
      | yes e ↦ subst (λ l. IsTaken part m' l) (sym (new_self k e)) got.taken
      | no ne ↦
          subst (λ l. IsTaken part m' l) (sym (new_other k ne))
            (got.kept (blocks k) (owned.taken k le (λ z. has (new_other k ne ∙ z))))
    ];
    apart = λ j k lj lk ne hj e. elim (ℕ_discrete j idx) [
      | yes ej ↦ free k lk (sym (new_other k (λ ek. ne (ej ∙ sym ek))) ∙ sym e ∙ new_self j ej)
      | no nj ↦ elim (ℕ_discrete k idx) [
        | yes ek ↦ free j lj (sym (new_other j nj) ∙ e ∙ new_self k ek)
        | no nk ↦
            owned.apart j k lj lk ne (λ z. hj (new_other j nj ∙ z))
              (sym (new_other j nj) ∙ e ∙ new_other k nk)
      ]
    ];
  }
