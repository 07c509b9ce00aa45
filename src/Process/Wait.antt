-- ===== src/Process/Wait.antt =====
-- userprog/wait_exit.c: the rounds of sys_wait, and what one finds after sys_exit.
use the_one_os.Common.{
  ℕ, ◌≡◌, refl, ◌≢◌, ◌⊎◌, inl, inr, ◌%◌, ◌^◌, Bool, true, false, ◌&&◌, Option, some, [], ◌∷◌, arith,
  if◌then◌else◌, has, minus_one, ◌>>=◌, ap, ◌∙◌, sym, ==_iff, false≢true, Option-cases,
}
use the_one_os.Paging.{Mm}
use the_one_os.DList.Walk.{find_first}
use the_one_os.Thread.{
  TaskStatus, task_running, task_ready, task_blocked, task_waiting, task_hanging, task_died, Kernel,
  is_empty,
}
use the_one_os.Thread.Queue.{IsSound}
use the_one_os.Thread.Schedule.{IsHanded}
use the_one_os.Thread.Block.{halted, thread_block_lem}
use the_one_os.Process.{
  World, FileOps, Waited, child_ended, no_child, waits, set_kernel, find_hanging_child, find_child,
  is_hanging, pid_check, pid2thread, thread_exit, release_prog_resource, sys_wait_round, sys_exit,
}
use the_one_os.Process.Family.{find_first-some, find_first-none, find_first-has}
use the_one_os.Process.Exit.{orphaned, ended, sys_exit_lem}

-- `c` is a child of the current process.
pub record IsChild {F : Type 0} (w : World F) (c : ℕ) : Type 0 where
  pub there : has c w.all_list ≡ true
  pub of_cur : (w.proc c).parent_pid ≡ (w.proc w.kernel.cur).pid

-- The child `c` is removed, and its number and status are the answer.
abbrev pub reaped : {F : Type 0} → World F → ℕ → Option (Waited F)
reaped w c = thread_exit w c false >>= λ w'.
    some (child_ended ((w.proc c).pid % 2 ^ 16) (w.proc c).exit_status w')

-- What a round comes to: the end of a child that hangs, -1 when there is no child, or the wait when there
-- is one and none hangs.
pub Round : {F : Type 0} → World F → Option (Waited F) → Type 0
Round w r =
    ((c : ℕ) × IsChild w c × ((w.kernel.task c).status ≡ task_hanging) × (r ≡ reaped w c))
    ⊎ ((r ≡ some (no_child w)) × ((c : ℕ) → ¬ IsChild w c))
    ⊎ ((k : Kernel) × (r ≡ some (waits (set_kernel w k)))
        × ((c : ℕ) × IsChild w c)
        × ((c : ℕ) → IsChild w c → (w.kernel.task c).status ≢ task_hanging)
        × IsHanded (halted w.kernel task_waiting) k
            (if is_empty w.kernel.ready then w.kernel.idle_thread ∷ [] else w.kernel.ready))

hanging-eq : (s : TaskStatus) → is_hanging s ≡ true → s ≡ task_hanging
hanging-eq task_hanging h = refl
hanging-eq task_waiting h = absurd (false≢true h)
hanging-eq task_running h = absurd (false≢true h)
hanging-eq task_ready h = absurd (false≢true h)
hanging-eq task_blocked h = absurd (false≢true h)
hanging-eq task_died h = absurd (false≢true h)

both : (a b : Bool) → (a && b) ≡ true → (a ≡ true) × (b ≡ true)
both true b h = (refl, h)
both false b h = absurd (false≢true h)

module _ {F : Type 0} (w : World F) where
  abbrev pid : ℕ
  pid = (w.proc w.kernel.cur).pid

  child_test : (c : ℕ) → IsChild w c → find_child w pid c ≡ true
  child_test c h = (==_iff (w.proc c).parent_pid pid).1 h.of_cur

  hanging_test :
      (c : ℕ)
      → IsChild w c
      → (w.kernel.task c).status ≡ task_hanging
      → find_hanging_child w pid c ≡ true
  hanging_test c h s = rw (child_test c h, s) refl

  pub hanging_round :
      (c : ℕ)
      → find_first (find_hanging_child w pid) w.all_list ≡ some c
      → IsChild w c × ((w.kernel.task c).status ≡ task_hanging) × (sys_wait_round w ≡ reaped w c)
  unfolding sys_wait_round
  hanging_round c e =
      let (t, i) = find_first-some (find_hanging_child w pid) w.all_list c e in
      let (t', s) = both (find_child w pid c) (is_hanging (w.kernel.task c).status) t in
      (
        record { there = i; of_cur = (==_iff (w.proc c).parent_pid pid).0 t' },
        hanging-eq (w.kernel.task c).status s,
        rw e refl,
      )

  -- A round of sys_wait ends a child that hangs, when there is one; it answers -1 exactly when there is no
  -- child; and when there are children and none hangs, it waits and hands the processor on.
  pub sys_wait_lem : IsSound w.kernel → Round w (sys_wait_round w)
  unfolding sys_wait_round Round
  sys_wait_lem sound = elim (Option-cases (find_first (find_hanging_child w pid) w.all_list)) [
    | inr (c, e) ↦ let (h, s, eq) = hanging_round c e in inl (c, h, s, eq)
    | inl e ↦ elim (Option-cases (find_first (find_child w pid) w.all_list)) [
      | inl e' ↦ inr (
          inl (
            rw (e, e') refl,
            λ c h.
                false≢true (
                  sym (find_first-none (find_child w pid) w.all_list c e' h.there)
                  ∙ child_test c h),
          ))
      | inr (c, e') ↦
          let (k, blocked, h) = thread_block_lem w.kernel task_waiting sound refl in
          inr (
            inr (
              k,
              rw (e, e', blocked) refl,
              (
                c,
                let (t, i) = find_first-some (find_child w pid) w.all_list c e' in
                    record { there = i; of_cur = (==_iff (w.proc c).parent_pid pid).0 t },
              ),
              λ c h' s. false≢true (
                  sym (find_first-none (find_hanging_child w pid) w.all_list c e h'.there)
                  ∙ hanging_test c h' s),
              h,
            ))
    ]
  ]

-- When a process ends and its parent waits, the parent runs next, and its round of sys_wait finds a child
-- that hangs: it does not wait again, and it does not answer -1. When that child is the process itself,
-- the status is the one given to sys_exit.
pub exit_then_wait :
    {F : Type 0} (ops : FileOps F) (w : World F) (status : ℕ) (mm : Mm) (f : F) (p : ℕ)
    → IsSound w.kernel
    → (w.proc w.kernel.cur).parent_pid ≢ (w.proc w.kernel.cur).pid
    → (w.proc w.kernel.cur).parent_pid ≢ minus_one
    → release_prog_resource ops (orphaned w status) w.kernel.cur ≡ some (ended w status mm f)
    → pid2thread w (w.proc w.kernel.cur).parent_pid ≡ some p
    → p ≢ 0
    → p ≢ w.kernel.cur
    → has w.kernel.cur w.all_list ≡ true
    → (w.kernel.task p).status ≡ task_waiting
    → (w' : World F) × (sys_exit ops w status ≡ some w')
      × (w'.kernel.cur ≡ p)
      × ((c : ℕ) × IsChild w' c
          × ((w'.kernel.task c).status ≡ task_hanging)
          × (sys_wait_round w' ≡ reaped w' c)
          × (c ≡ w.kernel.cur → (w'.proc c).exit_status ≡ status))
unfolding pid2thread
exit_then_wait ops w status mm f p sound other a_parent released found there ne listed waiting =
    let cur = w.kernel.cur in
    let (w', e, h, next) =
      sys_exit_lem ops w status mm f p sound other a_parent released found there in
    let runs : w'.kernel.cur ≡ p = next waiting in
    let hangs : (w'.kernel.task cur).status ≡ task_hanging = h.hanging (λ z. ne (sym runs ∙ z)) in
    let (is_p, p_listed) =
      find_first-some (pid_check w (w.proc cur).parent_pid) w.all_list p found in
    let own : (w'.proc cur).parent_pid ≡ (w.proc cur).parent_pid =
      h.parents cur ∙ ground (arith, other) in
    let of_p : (w'.proc cur).parent_pid ≡ (w'.proc w'.kernel.cur).pid =
      own
      ∙ sym ((==_iff (w.proc p).pid (w.proc cur).parent_pid).0 is_p)
      ∙ sym (h.same_pid p)
      ∙ ap (λ z. (w'.proc z).pid) (sym runs) in
    let child : IsChild w' cur = record {
      there = ap (has cur) h.all_there ∙ listed;
      of_cur = of_p;
    } in
    let (c, e', t, i) =
      find_first-has (find_hanging_child w' (pid w')) w'.all_list cur child.there
        (hanging_test w' cur child hangs) in
    let (is_child, s, eq) = hanging_round w' c e' in
    (w', e, runs, (c, is_child, s, eq, λ z. ap (λ x. (w'.proc x).exit_status) z ∙ h.recorded))
