-- ===== src/Process/Exit.antt =====
-- userprog/wait_exit.c: what sys_exit leaves behind.
use the_one_os.Common.{
  ℕ, ◌≡◌, refl, ◌≢◌, Bool, true, false, not, ◌&&◌, Option, some, List, [], ◌∷◌, arith, get_or, ◌==◌,
  if◌then◌else◌, has, minus_one, ◌>>=◌, assert, ap, ◌∙◌, false≢true, sym, subst, ==_refl, ==_ne,
  Bool-cases, inl, inr,
}
use the_one_os.Paging.{Mm}
use the_one_os.DList.Walk.{find_first}
use the_one_os.Thread.{
  TaskStatus, task_running, task_ready, task_blocked, task_waiting, task_hanging, task_died, Kernel,
  is_parked, thread_block, thread_unblock, is_empty,
}
use the_one_os.Thread.Queue.{IsSound, unblocked, unblock_lem, unblocked-running}
use the_one_os.Thread.Schedule.{IsHanded}
use the_one_os.Thread.Block.{halted, thread_block_lem, block-status}
use the_one_os.Process.{
  World, FileOps, set_proc, set_kernel, pid_check, pid2thread, is_waiting, adopt,
  release_prog_resource, sys_exit, leave, wake_parent,
}
use the_one_os.Process.Family.{find_first-same, adopt-parent, adopt-IsRelated}

-- The world when the status is recorded and the children are adopted.
abbrev pub orphaned : {F : Type 0} → World F → ℕ → World F
orphaned w status =
    let w1 = set_proc w w.kernel.cur (record (w.proc w.kernel.cur) { exit_status = status }) in
    adopt w1 (w.proc w.kernel.cur).pid w.all_list

-- The same, with the pages and the files given back.
abbrev pub ended : {F : Type 0} → World F → ℕ → Mm → F → World F
ended w status mm f = record w { proc = (orphaned w status).proc; mm = mm; files = f }

-- The current process of `w` has ended in `w'`.
pub record IsEnded {F : Type 0} (w w' : World F) (status : ℕ) : Type 0 where
  pub sound : IsSound w'.kernel
  pub all_there : w'.all_list ≡ w.all_list
  pub same_pid : (t : ℕ) → (w'.proc t).pid ≡ (w.proc t).pid
  pub recorded : (w'.proc w.kernel.cur).exit_status ≡ status
  pub parents :
      (t : ℕ)
      → (w'.proc t).parent_pid ≡ (
          if has t w.all_list && ((w.proc t).parent_pid == (w.proc w.kernel.cur).pid)
          then 1
          else (w.proc t).parent_pid)
  pub hanging : w'.kernel.cur ≢ w.kernel.cur → (w'.kernel.task w.kernel.cur).status ≡ task_hanging

waiting-parked : (s : TaskStatus) → is_waiting s ≡ true → is_parked s ≡ true
waiting-parked task_waiting h = refl
waiting-parked task_running h = absurd (false≢true h)
waiting-parked task_ready h = absurd (false≢true h)
waiting-parked task_blocked h = absurd (false≢true h)
waiting-parked task_hanging h = absurd (false≢true h)
waiting-parked task_died h = absurd (false≢true h)

first_eq : {a b : ℕ} {xs ys : List ℕ} → a ∷ xs ≡ b ∷ ys → a ≡ b
first_eq {a = a} e = ap (λ l. get_or l 0 a) e

module _ {F : Type 0} (ops : FileOps F) (w : World F) (status : ℕ) (mm : Mm) (f : F) (p : ℕ)
    (sound : IsSound w.kernel)
    (other : (w.proc w.kernel.cur).parent_pid ≢ (w.proc w.kernel.cur).pid)
    (a_parent : (w.proc w.kernel.cur).parent_pid ≢ minus_one)
    (released : release_prog_resource ops (orphaned w status) w.kernel.cur
      ≡ some (ended w status mm f))
    (found : pid2thread w (w.proc w.kernel.cur).parent_pid ≡ some p) (there : p ≢ 0) where
  abbrev e : World F
  e = ended w status mm f

  abbrev cur : ℕ
  cur = w.kernel.cur

  related : (t : ℕ) → (e.proc t).pid ≡ (w.proc t).pid
  related t =
      let w1 = set_proc w cur (record (w.proc cur) { exit_status = status }) in
      let r = adopt-IsRelated w1 (w.proc cur).pid w.all_list in r.pid t ∙ ground arith

  recorded : (e.proc cur).exit_status ≡ status
  recorded =
      let w1 = set_proc w cur (record (w.proc cur) { exit_status = status }) in
      let r = adopt-IsRelated w1 (w.proc cur).pid w.all_list in r.exit_status cur ∙ rw ==_refl refl

  parents :
      (t : ℕ)
      → (e.proc t).parent_pid ≡ (
          if has t w.all_list && ((w.proc t).parent_pid == (w.proc cur).pid)
          then 1
          else (w.proc t).parent_pid)
  parents t =
      let w1 = set_proc w cur (record (w.proc cur) { exit_status = status }) in
      let same : (w1.proc t).parent_pid ≡ (w.proc t).parent_pid = ground arith in
      adopt-parent w1 (w.proc cur).pid w.all_list t ∙ rw same refl

  own_parent : (e.proc cur).parent_pid ≡ (w.proc cur).parent_pid
  own_parent = parents cur ∙ ground (arith, other)

  still_found : pid2thread e (e.proc cur).parent_pid ≡ some p
  unfolding pid2thread
  still_found =
      ap (λ pp. find_first (pid_check e pp) w.all_list) own_parent
      ∙ find_first-same (pid_check e (w.proc cur).parent_pid) (pid_check w (w.proc cur).parent_pid)
          w.all_list (λ t. ap (λ n. n == (w.proc cur).parent_pid) (related t))
      ∙ found

  begin-eq : sys_exit ops w status ≡ leave e
  unfolding sys_exit
  begin-eq =
      let w1 = set_proc w cur (record (w.proc cur) { exit_status = status }) in
      let pid_eq : (w1.proc cur).pid ≡ (w.proc cur).pid = rw ==_refl refl in
      let parent_eq : ((w1.proc cur).parent_pid == minus_one) ≡ false =
        rw ==_refl (==_ne _ _ a_parent) in
      let next : ℕ → Option (World F) =
        λ n. release_prog_resource ops (adopt w1 n w.all_list) cur >>= λ w2. leave w2 in
      ap (λ b. assert (not b) >>= λ _. next (w1.proc cur).pid) parent_eq
      ∙ ap next pid_eq
      ∙ ap (λ o. o >>= λ w2. leave w2) released

  abbrev wake : Option Kernel
  wake = if is_waiting (w.kernel.task p).status then thread_unblock w.kernel p else some w.kernel

  wake-eq :
      (b : Bool) (o : Option Kernel) (k : Kernel)
      → (if b then o else some w.kernel) ≡ some k
      → (if b then o >>= (λ k. some (set_kernel e k)) else some e) ≡ some (set_kernel e k)
  wake-eq true o k h = ap (λ z. z >>= λ k. some (set_kernel e k)) h
  wake-eq false o k h = ap (λ z. z >>= λ k. some (set_kernel e k)) h

  leave-eq :
      (k k' : Kernel)
      → wake ≡ some k
      → thread_block k task_hanging ≡ some k'
      → leave e ≡ some (set_kernel e k')
  unfolding leave
  leave-eq k k' woken blocked =
      let next : Option (World F) → Option (World F) =
        λ o. o >>= λ w'. (thread_block w'.kernel task_hanging >>= λ k. some (set_kernel w' k)) in
      ap (λ o. next (wake_parent e o)) still_found
      ∙ ap next (wake-eq (is_waiting (w.kernel.task p).status) (thread_unblock w.kernel p) k woken)
      ∙ ap (λ o. o >>= λ k. some (set_kernel e k)) blocked

  exit_by :
      (k k' : Kernel) (line : List ℕ)
      → wake ≡ some k
      → k.cur ≡ w.kernel.cur
      → thread_block k task_hanging ≡ some k'
      → IsHanded (halted k task_hanging) k' line
      → (sys_exit ops w status ≡ some (set_kernel e k')) × IsEnded w (set_kernel e k') status
  exit_by k k' line woken same blocked h = (
    begin-eq ∙ leave-eq k k' woken blocked,
    record {
      sound = h.sound;
      all_there = refl;
      same_pid = related;
      recorded = recorded;
      parents = parents;
      hanging = λ ne.
          subst (λ c. (k'.task c).status ≡ task_hanging) same
            (block-status k task_hanging k' line refl h (λ z. ne (z ∙ same)));
    },
  )

  -- sys_exit records the status, gives the children to init and hands the processor on; a parent that
  -- waits is the one that gets it.
  pub sys_exit_lem :
      (w' : World F) × (sys_exit ops w status ≡ some w')
      × IsEnded w w' status
      × ((w.kernel.task p).status ≡ task_waiting → w'.kernel.cur ≡ p)
  sys_exit_lem = elim (Bool-cases (is_waiting (w.kernel.task p).status)) [
    | inl waits ↦
        let parked : is_parked (w.kernel.task p).status ≡ true =
          waiting-parked (w.kernel.task p).status waits in
        let k = unblocked w.kernel p in
        let k_sound = unblocked-running p sound.queued parked sound.running there in
        let (k', blocked, h) = thread_block_lem k task_hanging k_sound refl in
        let (e', ended') =
          exit_by k k' (p ∷ w.kernel.ready) (rw waits (unblock_lem p sound.queued parked)) refl
            blocked h in
        (set_kernel e k', e', ended', λ s. first_eq h.order)
    | inr awake ↦
        let (k', blocked, h) = thread_block_lem w.kernel task_hanging sound refl in
        let line = if is_empty w.kernel.ready then w.kernel.idle_thread ∷ [] else w.kernel.ready in
        let (e', ended') = exit_by w.kernel k' line (rw awake refl) refl blocked h in
        (set_kernel e k', e', ended', λ s. absurd (false≢true (sym awake ∙ ap is_waiting s)))
  ]
