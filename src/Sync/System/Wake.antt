-- ===== src/Sync/System/Wake.antt =====
-- kernel/sync.c: the sema_up of lock_release, which may wake a thread, keeps the invariant.
use the_one_os.Common.{
  ℕ, ◌≡◌, refl, ◌≢◌, true, false, some, List, [], ◌∷◌, update, has, arith, ap, ◌∙◌, sym, subst,
}
use the_one_os.Interrupt.{intr_disable, set_status-disable}
use the_one_os.DList.Chain.{IsDistinct}
use the_one_os.Thread.{Kernel, task_blocked, thread_unblock, is_parked}
use the_one_os.Thread.Queue.{unblocked, unblock_lem, unblocked-running}
use the_one_os.Sync.{Semaphore, sema_up}
use the_one_os.Sync.System.{outside, trying, leaving, System, self, go, set_sema, run_up}
use the_one_os.Sync.Invariant.{IsExclusive, IsNoted, IsSafe, is_critical}
use the_one_os.Sync.System.Moves.{Makes, zero_value, alone, no_holder}
use the_one_os.Sync.System.Switch.{intr-IsSound}

module _ {s : System} (v : IsSafe s) where
  abbrev k0 : Kernel
  k0 = record (s.kernel) { intr = (intr_disable s.kernel.intr).1 }

  abbrev sema : Semaphore
  sema = s.lock.semaphore

  module _ (at_pc : s.pc (self s) ≡ leaving) where
    crit : is_critical (s.pc (self s)) ≡ true
    crit = ap is_critical at_pc

    none_left : (t : ℕ) → is_critical (update s.pc (self s) outside t) ≡ false
    none_left t = ground (arith, alone v crit t)

    -- The lock is free behind the move.
    freed-IsExclusive : IsExclusive 1 (update s.pc (self s) outside)
    freed-IsExclusive = record {
      value_le = omega arith;
      full = λ t h. cc (sym h ∙ none_left t);
      unique = λ t u h h'. cc (sym h ∙ none_left t);
    }

    freed-IsNoted :
        (sema' : Semaphore)
        → IsNoted (record (s.lock) { semaphore = sema' }) (update s.pc (self s) outside)
    freed-IsNoted sema' = record {
      holder_in = λ h. absurd (h (no_holder v crit (λ i. cc)));
      in_holder = λ t h. cc (sym (none_left t) ∙ ap is_critical h);
      free_count = v.noted.free_count;
      held_count = λ h. absurd (h (no_holder v crit (λ i. cc)));
    }

    up-eq :
        (k' : Kernel) (sema' : Semaphore)
        → sema_up s.kernel sema ≡ some (k', sema')
        → run_up s ≡ some (record (go (set_sema s sema') outside) { kernel = k' })
    unfolding run_up
    up-eq k' sema' e = rw e refl

    sema_up-nil :
        sema.waiters ≡ []
        → sema_up s.kernel sema ≡ some (s.kernel, record { value = 1; waiters = [] })
    unfolding sema_up
    sema_up-nil e = ground (arith, zero_value v crit)

    woken : ℕ → Kernel
    woken w = record (unblocked k0 w) { intr = s.kernel.intr }

    sema_up-cons :
        (w : ℕ) (ws : List ℕ)
        → sema.waiters ≡ w ∷ ws
        → thread_unblock k0 w ≡ some (unblocked k0 w)
        → sema_up s.kernel sema ≡ some (woken w, record { value = 1; waiters = ws })
    unfolding sema_up woken
    sema_up-cons w ws e u = ground (arith, zero_value v crit, u, set_status-disable s.kernel.intr)

    up-cases : (xs : List ℕ) → sema.waiters ≡ xs → Makes (run_up s)
    up-cases [] e = (
      _,
      up-eq s.kernel (record { value = 1; waiters = [] }) (sema_up-nil e),
      record {
        sound = v.sound;
        exclusive = freed-IsExclusive;
        noted = freed-IsNoted (record { value = 1; waiters = [] });
        waiting = record { distinct = tt; blocked = λ t h. cc; in_loop = λ t h. cc; there = refl };
        awake = λ h h'. absurd (h' refl);
        idle_out = ground (arith, v.idle_out);
      },
    )
    up-cases (w ∷ ws) e =
        let d = subst IsDistinct e v.waiting.distinct in
        let b = λ (t : ℕ).
          subst (λ xs. has t xs ≡ true → (s.kernel.task t).status ≡ task_blocked) e
            (v.waiting.blocked t) in
        let l =
          λ (t : ℕ). subst (λ xs. has t xs ≡ true → s.pc t ≡ trying) e (v.waiting.in_loop t) in
        let z = subst (λ xs. has 0 xs ≡ false) e v.waiting.there in
        let q = intr-IsSound (intr_disable s.kernel.intr).1 v.sound in
        let parked : is_parked (s.kernel.task w).status ≡ true =
          ap is_parked (b w (ground arith)) in
        let w_there : w ≢ 0 = ground arith in
        (
          _,
          up-eq (woken w) (record { value = 1; waiters = ws })
              (sema_up-cons w ws e (unblock_lem w q.queued parked)),
          record {
            sound =
                unfold woken in
                intr-IsSound s.kernel.intr (unblocked-running w q.queued parked q.running w_there);
            exclusive = freed-IsExclusive;
            noted = freed-IsNoted (record { value = 1; waiters = ws });
            waiting = record {
              distinct = d.1;
              blocked = λ t h. unfold woken in ground (arith, b t, d.0);
              in_loop = λ t h. ground (arith, l t);
              there = ground arith;
            };
            awake = λ h h'. (w, ground (arith, l w), d.0, unfold woken in ground arith);
            idle_out = unfold woken in ground (arith, v.idle_out);
          },
        )

    pub up-Makes : Makes (run_up s)
    up-Makes = up-cases sema.waiters refl
