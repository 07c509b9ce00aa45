-- ===== src/Sync/System/Moves.antt =====
-- kernel/sync.c: each move of a thread fails no assertion, and keeps the invariant.
use the_one_os.Common.{
  ℕ, ◌+◌, ◌<◌, ◌≡◌, refl, ◌≢◌, Bool, true, false, Option, some, update, has, arith, word_size, ◌==◌,
  ◌>>=◌, assert, ap, ◌∙◌, sym, subst, add32, sub32, ℕ_discrete, dec_lt,
}
use the_one_os.Sync.{Lock, lock_acquire, lock_acquired, lock_release}
use the_one_os.Sync.System.{
  Pc, outside, trying, taken, inside, leaving, System, self, go, run_acquire, run_taken,
  run_release,
}
use the_one_os.Sync.Invariant.{IsExclusive, IsWaiting, IsSafe, is_critical}

-- The move is made, and ends in a safe state.
abbrev pub Makes : Option System → Type 0
Makes r = (t : System) × (r ≡ some t) × IsSafe t

acquired-eq :
    (t : ℕ) (l : Lock)
    → l.holder_repeat_nr ≡ 0
    → lock_acquired t l ≡ some (record l { holder = t; holder_repeat_nr = 1 })
unfolding lock_acquired
acquired-eq t l e =
    ap (λ n. assert (n == 0) >>= λ _. some (record l { holder = t; holder_repeat_nr = 1 })) e

module _ {s : System} (v : IsSafe s) where
  pub not_waiting : has (self s) s.lock.semaphore.waiters ≡ false
  not_waiting = ground (arith, v.waiting.blocked (self s), v.sound.running)

  -- The thread at hand is critical: the semaphore is at 0.
  module _ (crit : is_critical (s.pc (self s)) ≡ true) where
    pub zero_value : s.lock.semaphore.value ≡ 0
    zero_value = v.exclusive.full (self s) crit

    pub alone : (t : ℕ) → is_critical (s.pc t) ≡ true → t ≡ self s
    alone t h = v.exclusive.unique t (self s) h crit

    pub no_holder : s.pc (self s) ≢ inside → s.lock.holder ≡ 0
    no_holder ne = elim (ℕ_discrete s.lock.holder 0) [
      | yes free ↦ free
      | no held ↦
          let at_holder = v.noted.holder_in held in
          let e = alone s.lock.holder (ap is_critical at_holder) in
          absurd (ne (subst (λ t. s.pc t ≡ inside) e at_holder))
    ]

    -- A critical thread moves on to another critical place.
    stays-IsExclusive :
        (p : Pc)
        → is_critical p ≡ true
        → IsExclusive s.lock.semaphore.value (update s.pc (self s) p)
    stays-IsExclusive p h = record {
      value_le = v.exclusive.value_le;
      full = λ t h. zero_value;
      unique = λ t u ht hu. ground (arith, alone t, alone u);
    }

  -- Who waits still does, when a thread that is not in the loop moves on.
  moved-IsWaiting :
      (p : Pc)
      → s.pc (self s) ≢ trying
      → IsWaiting s.kernel s.lock.semaphore.waiters (update s.pc (self s) p)
  moved-IsWaiting p ne = record {
    distinct = v.waiting.distinct;
    blocked = v.waiting.blocked;
    in_loop = λ t h. ground (arith, v.waiting.in_loop t, ne);
    there = v.waiting.there;
  }

  pub taken-Makes : s.pc (self s) ≡ taken → Makes (run_taken s)
  unfolding run_taken
  taken-Makes at_pc = (
    record (go s inside) { lock = record (s.lock) { holder = self s; holder_repeat_nr = 1 } },
    ap (λ o. o >>= λ l. some (go (record s { lock = l }) inside))
        (acquired-eq (self s) s.lock (v.noted.free_count (no_holder crit (λ h. cc)))),
    record {
      sound = v.sound;
      exclusive = stays-IsExclusive crit inside refl;
      noted = record {
        holder_in = λ h. ground arith;
        in_holder = λ t h. ground (arith, alone crit t);
        free_count = λ h. absurd (v.sound.cur_there h);
        held_count = λ h. omega arith;
      };
      waiting = moved-IsWaiting inside (λ h. cc);
      awake = λ h h'. absurd (h (zero_value crit));
      idle_out = ground (arith, v.idle_out);
    },
  )
    where
      crit : is_critical (s.pc (self s)) ≡ true
      crit = rw at_pc refl

  not_holder : s.pc (self s) ≡ outside → s.lock.holder ≢ self s
  not_holder at_pc e =
      let h = v.noted.holder_in (λ z. v.sound.cur_there (sym e ∙ z)) in
      cc (subst (λ t. s.pc t ≡ inside) e h)

  acquire-outside : s.pc (self s) ≡ outside → run_acquire s ≡ go s trying
  unfolding run_acquire lock_acquire
  acquire-outside at_pc = ground (arith, not_holder at_pc)

  pub acquire-IsSafe :
      s.pc (self s) ≡ outside → self s ≢ s.kernel.idle_thread → IsSafe (run_acquire s)
  acquire-IsSafe at_pc busy = rw (acquire-outside at_pc) (record {
    sound = v.sound;
    exclusive = record {
      value_le = v.exclusive.value_le;
      full = λ t h. v.exclusive.full t (ground arith);
      unique = λ t u h h'. v.exclusive.unique t u (ground arith) (ground arith);
    };
    noted = record {
      holder_in = λ h. ground (arith, v.noted.holder_in h);
      in_holder = λ t h. v.noted.in_holder t (ground arith);
      free_count = v.noted.free_count;
      held_count = v.noted.held_count;
    };
    waiting = moved-IsWaiting trying (λ h. cc);
    awake = λ h h'. (self s, ground arith, not_waiting, ground arith);
    idle_out = ground (arith, v.idle_out);
  })

  acquire-inside :
      s.pc (self s) ≡ inside
      → run_acquire s
        ≡ record s { lock = record (s.lock) { holder_repeat_nr = add32 s.lock.holder_repeat_nr 1 } }
  unfolding run_acquire lock_acquire
  acquire-inside at_pc = ground (arith, v.noted.in_holder (self s) at_pc)

  pub reacquire-IsSafe :
      s.pc (self s) ≡ inside → s.lock.holder_repeat_nr + 1 < word_size → IsSafe (run_acquire s)
  reacquire-IsSafe at_pc few = rw (acquire-inside at_pc) (record {
    sound = v.sound;
    exclusive = v.exclusive;
    noted = record {
      holder_in = v.noted.holder_in;
      in_holder = v.noted.in_holder;
      free_count = λ h. absurd (v.sound.cur_there (sym (v.noted.in_holder (self s) at_pc) ∙ h));
      held_count = λ h. omega (arith, v.noted.held_count h);
    };
    waiting = v.waiting;
    awake = v.awake;
    idle_out = v.idle_out;
  })

  -- lock_release, while calls are still open and at the last of them.
  module _ (at_pc : s.pc (self s) ≡ inside) where
    mine : s.lock.holder ≡ self s
    mine = v.noted.in_holder (self s) at_pc

    held : (0 < s.lock.holder_repeat_nr) × (s.lock.holder_repeat_nr < word_size)
    held = v.noted.held_count (λ z. v.sound.cur_there (sym mine ∙ z))

    inside_crit : is_critical (s.pc (self s)) ≡ true
    inside_crit = ap is_critical at_pc

    release_eq :
        (l : Lock) (up : Bool)
        → lock_release (self s) s.lock ≡ some (up, l)
        → run_release s
          ≡ some (elim up [
            | true ↦ go (record s { lock = l }) leaving
            | false ↦ record s { lock = l }
          ])
    unfolding run_release
    release_eq l up e = rw e refl

    pub release-Makes : Makes (run_release s)
    release-Makes = elim (dec_lt 1 s.lock.holder_repeat_nr) [
      | yes more ↦ (
        record s { lock = record (s.lock) { holder_repeat_nr = sub32 s.lock.holder_repeat_nr 1 } },
        release_eq _ false (unfold lock_release in ground (arith, mine, held)),
        record {
          sound = v.sound;
          exclusive = v.exclusive;
          noted = record {
            holder_in = v.noted.holder_in;
            in_holder = v.noted.in_holder;
            free_count = λ h. absurd (v.sound.cur_there (sym mine ∙ h));
            held_count = λ h. omega (arith, held);
          };
          waiting = v.waiting;
          awake = v.awake;
          idle_out = v.idle_out;
        },
      )
      | no last ↦ (
        record (go s leaving) { lock = record (s.lock) { holder = 0; holder_repeat_nr = 0 } },
        release_eq _ true (unfold lock_release in ground (arith, mine, held)),
        record {
          sound = v.sound;
          exclusive = stays-IsExclusive inside_crit leaving refl;
          noted = record {
            holder_in = λ h. absurd (h refl);
            in_holder = λ t h. ground (arith, alone inside_crit t);
            free_count = λ h. refl;
            held_count = λ h. absurd (h refl);
          };
          waiting = moved-IsWaiting leaving (λ h. cc);
          awake = λ h h'. absurd (h (zero_value inside_crit));
          idle_out = ground (arith, v.idle_out);
        },
      )
    ]
