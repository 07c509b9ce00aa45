-- ===== src/Fs/Descriptors.antt =====
-- fs/file.c, fs/fs.c: the tables of open files.
use the_one_os.Common.{
  ℕ, zero, suc, ◌+◌, ◌-◌, ◌≤◌, ◌<◌, ◌≡◌, refl, ◌≢◌, ◌⊎◌, inl, inr, List, arith, ◌==◌, get_or, set,
  minus_one, ◌∙◌, Bool-cases, subst,
}
use the_one_os.Fs.{max_files_open_per_proc, install_loop, pcb_fd_install}

-- From `lo` to before `hi` no slot is free.
abbrev pub NoneFree : List ℕ → ℕ → ℕ → Type 0
NoneFree t lo hi = (i : ℕ) → lo ≤ i → i < hi → get_or t i 0 ≢ minus_one

-- What installing `g` into the slots from `lo` to before `hi` comes to: no slot is free, or the first
-- free one has it.
abbrev pub Installed : List ℕ → ℕ → ℕ → ℕ → ℕ × List ℕ → Type 0
Installed t g lo hi r =
    ((r ≡ (minus_one, t)) × NoneFree t lo hi)
    ⊎ ((fd : ℕ) × (r ≡ (fd, set t fd g))
        × (lo ≤ fd)
        × (fd < hi)
        × (get_or t fd 0 ≡ minus_one)
        × NoneFree t lo fd)

install_loop-here :
    (t : List ℕ) (g left lo : ℕ)
    → get_or t lo 0 ≡ minus_one
    → install_loop t g (suc left) lo ≡ (lo, set t lo g)
unfolding install_loop
install_loop-here t g left lo e = rw e refl

install_loop-on :
    (t : List ℕ) (g left lo : ℕ)
    → get_or t lo 0 ≢ minus_one
    → install_loop t g (suc left) lo ≡ install_loop t g left (lo + 1)
unfolding install_loop
install_loop-on t g left lo ne = ground (arith, ne)

install_loop_lem :
    (t : List ℕ) (g left lo hi : ℕ)
    → lo + left ≡ hi
    → Installed t g lo hi (install_loop t g left lo)
unfolding install_loop
install_loop_lem t g zero lo hi e = inl (refl, λ i le lt. absurd (omega arith))
install_loop_lem t g (suc left) lo hi e = elim (Bool-cases (get_or t lo 0 == minus_one)) [
  | inl free ↦
      let here : get_or t lo 0 ≡ minus_one = ground arith in
      inr (
        lo,
        install_loop-here t g left lo here,
        omega arith,
        omega arith,
        here,
        λ i le lt. absurd (omega arith),
      )
  | inr taken ↦
      let busy : get_or t lo 0 ≢ minus_one = ground arith in
      further busy (install_loop_lem t g left (lo + 1) hi (omega arith))
]
  where
    extend : (hi : ℕ) → get_or t lo 0 ≢ minus_one → NoneFree t (lo + 1) hi → NoneFree t lo hi
    extend hi busy rest i le lt = elim (Bool-cases (i == lo)) [
      | inl same ↦ subst (λ j. get_or t j 0 ≢ minus_one) (ground arith) busy
      | inr other ↦ rest i (ground arith) lt
    ]

    further :
        get_or t lo 0 ≢ minus_one
        → Installed t g (lo + 1) hi (install_loop t g left (lo + 1))
        → Installed t g lo hi (install_loop t g (suc left) lo)
    further busy (inl (r, none_free)) =
        inl (install_loop-on t g left lo busy ∙ r, extend hi busy none_free)
    further busy (inr (fd, r, le, lt, free, below)) =
        inr (fd, install_loop-on t g left lo busy ∙ r, omega arith, lt, free, extend fd busy below)

-- pcb_fd_install puts the index into the first free slot from 3 on and returns that, or returns -1
-- with the table as it was when no slot is free.
pub pcb_fd_install_lem :
    (t : List ℕ) (g : ℕ) → Installed t g 3 max_files_open_per_proc (pcb_fd_install t g)
unfolding pcb_fd_install
pcb_fd_install_lem t g =
    install_loop_lem t g (max_files_open_per_proc - 3) 3 max_files_open_per_proc refl
