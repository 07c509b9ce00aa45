-- ===== src/Sync/System/Switch.antt =====
-- kernel/sync.c: the moves that hand the processor on keep the invariant.
use the_one_os.Common.{
  ℕ, ◌-◌, ◌≡◌, refl, ◌≢◌, ◌⊎◌, inl, inr, true, false, some, List, [], ◌∷◌, ◌++◌, has, arith, ◌==◌,
  if◌then◌else◌, ◌>>=◌, ap, ◌∙◌, sym, ℕ_discrete,
}
use the_one_os.Interrupt.{IntrStatus, intr_off, intr_disable}
use the_one_os.DList.Chain.{has-append}
use the_one_os.Thread.{Kernel, task_blocked, thread_block, thread_yield, is_empty}
use the_one_os.Thread.Queue.{IsSound}
use the_one_os.Thread.Schedule.{IsHanded, snoc-IsDistinct}
use the_one_os.Thread.Block.{thread_block_lem, thread_yield_lem, halted}
use the_one_os.Sync.{Semaphore, sema_down_round, waits, takes}
use the_one_os.Sync.System.{trying, taken, System, self, go, set_sema, run_down, run_yield}
use the_one_os.Sync.Invariant.{IsSafe}
use the_one_os.Sync.System.Moves.{Makes, not_waiting}

-- The invariant of the scheduler does not speak of the interrupt status.
pub intr-IsSound : {k : Kernel} (i : IntrStatus) → IsSound k → IsSound (record k { intr = i })
intr-IsSound i q = record {
  queued = record {
    distinct = q.distinct;
    listed = q.listed;
    sole = q.sole;
    idle_alive = q.idle_alive;
    idle_there = q.idle_there;
    cur_there = q.cur_there;
    no_null = q.no_null;
  };
  running = q.running;
}

-- The next thread comes from the ready list, or is the idle thread.
next_from :
    (cur : ℕ) (rest ready : List ℕ) (idle : ℕ)
    → cur ∷ rest ≡ (if is_empty ready then idle ∷ [] else ready)
    → ((has cur ready ≡ true) ⊎ (cur ≡ idle))
next_from cur rest [] idle e = inr (cc)
next_from cur rest (t ∷ ts) idle e = inl (let h : cur ≡ t = cc in ground arith)

next_yield :
    (cur : ℕ) (rest ready : List ℕ) (old : ℕ)
    → cur ∷ rest ≡ ready ++ old ∷ []
    → ((has cur ready ≡ true) ⊎ (cur ≡ old))
next_yield cur rest [] old e = inr (cc)
next_yield cur rest (t ∷ ts) old e = inl (let h : cur ≡ t = cc in ground arith)

module _ {s : System} (v : IsSafe s) where
  abbrev k0 : Kernel
  k0 = record (s.kernel) { intr = (intr_disable s.kernel.intr).1 }

  abbrev sema : Semaphore
  sema = s.lock.semaphore

  -- No thread that waits is ready, and the idle thread does not wait.
  waiter_not_ready : (t : ℕ) → has t sema.waiters ≡ true → has t s.kernel.ready ≡ false
  waiter_not_ready t h = ground (arith, v.waiting.blocked t h, v.sound.listed t)

  waiter_not_idle : (t : ℕ) → has t sema.waiters ≡ true → t ≢ s.kernel.idle_thread
  waiter_not_idle t h e = cc (sym (v.waiting.in_loop t h) ∙ ap s.pc e ∙ v.idle_out)

  module _ (at_pc : s.pc (self s) ≡ trying) where
    takes-Makes : sema.value ≢ 0 → Makes (run_down s)
    unfolding run_down sema_down_round
    takes-Makes free = (
      go (set_sema s (record sema { value = sema.value - 1 })) taken,
      ground arith,
      record {
        sound = v.sound;
        exclusive = record {
          value_le = omega (arith, v.exclusive.value_le);
          full = λ t h. omega (arith, v.exclusive.value_le);
          unique = λ t u h h'. ground (arith, v.exclusive.full t, v.exclusive.full u);
        };
        noted = record {
          holder_in = λ h. ground (arith, v.noted.holder_in h);
          in_holder = λ t h. v.noted.in_holder t (ground arith);
          free_count = v.noted.free_count;
          held_count = v.noted.held_count;
        };
        waiting = record {
          distinct = v.waiting.distinct;
          blocked = v.waiting.blocked;
          in_loop = λ t h. ground (arith, v.waiting.in_loop t h, not_waiting v);
          there = v.waiting.there;
        };
        awake = λ h h'. absurd (h (omega (arith, v.exclusive.value_le)));
        idle_out = ground (arith, v.idle_out);
      },
    )

    blocks :
        (k' : Kernel)
        → IsHanded
            (halted k0 task_blocked)
            k'
            (if is_empty s.kernel.ready then s.kernel.idle_thread ∷ [] else s.kernel.ready)
        → (t : ℕ) → has t (sema.waiters ++ self s ∷ []) ≡ true
        → (t ≢ k'.cur) × ((k'.task t).status ≡ task_blocked)
    blocks k' h t w = (apart, ground (arith, h.kept t apart, who))
      where
        who : (has t sema.waiters ≡ true) × ((s.kernel.task t).status ≡ task_blocked) ⊎ (t ≡ self s)
        who = ground (arith, v.waiting.blocked t, has-append t sema.waiters (self s ∷ []))

        away : (has t s.kernel.ready ≡ false) × (t ≢ s.kernel.idle_thread)
        away = elim who [
          | inl (w, b) ↦ (waiter_not_ready t w, waiter_not_idle t w)
          | inr e ↦ (
            ground (arith, v.sound.listed (self s), v.sound.running),
            λ i. cc (sym at_pc ∙ ap s.pc (sym e ∙ i) ∙ v.idle_out),
          )
        ]

        apart : t ≢ k'.cur
        apart e = elim (next_from k'.cur k'.ready s.kernel.ready s.kernel.idle_thread h.order) [
          | inl m ↦ cc (sym away.0 ∙ ap (λ u. has u s.kernel.ready) e ∙ m)
          | inr i ↦ away.1 (e ∙ i)
        ]

    round-waits :
        (k' : Kernel)
        → sema.value ≡ 0
        → thread_block k0 task_blocked ≡ some k'
        → sema_down_round s.kernel sema
          ≡ some (waits k' (record sema { waiters = sema.waiters ++ self s ∷ [] }))
    unfolding sema_down_round
    round-waits k' full e =
        ap
          (λ n.
            if n == 0
            then (thread_block k0 task_blocked >>= λ k. some (waits k sema'))
            else some (takes (record sema { value = sema.value - 1 })))
          full
        ∙ ap (λ o. o >>= λ k. some (waits k sema')) e
      where
        sema' : Semaphore
        sema' = record sema { waiters = sema.waiters ++ self s ∷ [] }

    down-eq :
        (k' : Kernel) (sema' : Semaphore)
        → sema_down_round s.kernel sema ≡ some (waits k' sema')
        → run_down s ≡ some (record (set_sema s sema') { kernel = k' })
    unfolding run_down
    down-eq k' sema' e = rw e refl

    waits-Makes : sema.value ≡ 0 → Makes (run_down s)
    waits-Makes full =
        let (k', e, h) = thread_block_lem k0 task_blocked (intr-IsSound _ v.sound) refl in
        let sema' : Semaphore = record sema { waiters = sema.waiters ++ self s ∷ [] } in
        (
          record (set_sema s sema') { kernel = k' },
          down-eq k' sema' (round-waits k' full e),
          record {
            sound = h.sound;
            exclusive = v.exclusive;
            noted = record {
              holder_in = v.noted.holder_in;
              in_holder = v.noted.in_holder;
              free_count = v.noted.free_count;
              held_count = v.noted.held_count;
            };
            waiting = record {
              distinct = snoc-IsDistinct sema.waiters (self s) v.waiting.distinct (not_waiting v);
              blocked = λ t w. (blocks k' h t w).1;
              in_loop = λ t w.
                  ground (arith, v.waiting.in_loop t, has-append t sema.waiters (self s ∷ []));
              there = ground (
                arith,
                v.waiting.there,
                v.sound.cur_there,
                has-append 0 sema.waiters (self s ∷ []),
              );
            };
            awake = λ h h'. absurd (h full);
            idle_out = ap s.pc h.idle ∙ v.idle_out;
          },
        )

    pub down-Makes : Makes (run_down s)
    down-Makes = elim (ℕ_discrete sema.value 0) [
      | yes full ↦ waits-Makes full
      | no free ↦ takes-Makes free
    ]

  pub yield-Makes : Makes (run_yield s)
  yield-Makes =
      let (k', e, h) = thread_yield_lem s.kernel v.sound in
      (
        record s { kernel = k' },
        yield-eq k' e,
        record {
          sound = h.sound;
          exclusive = v.exclusive;
          noted = v.noted;
          waiting = record {
            distinct = v.waiting.distinct;
            blocked = λ t w.
                ground (arith, h.kept t (stays k' h t w), v.waiting.blocked t w, not_waiting v);
            in_loop = v.waiting.in_loop;
            there = v.waiting.there;
          };
          awake = λ nz busy.
              let (t, p, n, r) = v.awake nz busy in
              (
                t,
                p,
                n,
                ap (has t) h.order ∙ has-append t s.kernel.ready (self s ∷ []) ∙ ground (arith, r),
              );
          idle_out = ap s.pc h.idle ∙ v.idle_out;
        },
      )
    where
      yield-eq :
          (k' : Kernel)
          → thread_yield s.kernel ≡ some k'
          → run_yield s ≡ some (record s { kernel = k' })
      yield-eq k' e = unfold run_yield in ap (λ o. o >>= λ k. some (record s { kernel = k })) e

      stays :
          (k' : Kernel)
          → IsHanded (record (s.kernel) { intr = intr_off }) k' (s.kernel.ready ++ self s ∷ [])
          → (t : ℕ) → has t sema.waiters ≡ true
          → t ≢ k'.cur
      stays k' h t w e = elim (next_yield k'.cur k'.ready s.kernel.ready (self s) h.order) [
        | inl m ↦ cc (sym (waiter_not_ready t w) ∙ ap (λ u. has u s.kernel.ready) e ∙ m)
        | inr i ↦ cc (sym w ∙ ap (λ u. has u sema.waiters) (e ∙ i) ∙ not_waiting v)
      ]
