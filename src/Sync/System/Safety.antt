-- ===== src/Sync/System/Safety.antt =====
-- kernel/sync.c: what holds in every state that threads sharing one lock can reach.
use the_one_os.Common.{
  ℕ, ◌≡◌, refl, ◌≢◌, ◌⊎◌, inl, inr, true, false, Option, none, some, List, [], has, subst, sym, ap,
  ℕ_discrete, ◌∷◌,
}
use the_one_os.Thread.{Kernel}
use the_one_os.Thread.Queue.{IsSound}
use the_one_os.Sync.System.{
  Pc, outside, trying, taken, inside, leaving, System, self, Step, acquire, reacquire, down, note,
  release, up, yield, Reach, start, later, run_yield, next_move,
}
use the_one_os.Sync.Invariant.{IsSafe, is_critical, start-IsSafe}
use the_one_os.Sync.System.Moves.{
  Makes, acquire-IsSafe, reacquire-IsSafe, taken-Makes, release-Makes,
}
use the_one_os.Sync.System.Switch.{down-Makes, yield-Makes}
use the_one_os.Sync.System.Wake.{up-Makes}

made : {r : Option System} {t : System} → Makes r → r ≡ some t → IsSafe t
made (t', e, safe) e' = subst IsSafe (cc) safe

Step-IsSafe : {s t : System} → Step s t → IsSafe s → IsSafe t
Step-IsSafe (acquire p busy) v = acquire-IsSafe v p busy
Step-IsSafe (reacquire p few) v = reacquire-IsSafe v p few
Step-IsSafe (down p e) v = made (down-Makes v p) e
Step-IsSafe (note p e) v = made (taken-Makes v p) e
Step-IsSafe (release p e) v = made (release-Makes v p) e
Step-IsSafe (up p e) v = made (up-Makes v p) e
Step-IsSafe (yield e) v = made (yield-Makes v) e

Reach-IsSafe : {k : Kernel} {s : System} → IsSound k → Reach k s → IsSafe s
Reach-IsSafe q start = start-IsSafe q
Reach-IsSafe q (later r st) = Step-IsSafe st (Reach-IsSafe q r)

-- Two threads are never between lock_acquire and lock_release at once, whatever the interleaving; the
-- lock names the one that is.
pub mutual_exclusion :
    {k : Kernel} {s : System}
    → IsSound k
    → Reach k s
    → (i j : ℕ) → s.pc i ≡ inside
    → s.pc j ≡ inside
    → (i ≡ j) × (s.lock.holder ≡ i)
mutual_exclusion q r i j hi hj =
    let v = Reach-IsSafe q r in
    (v.exclusive.unique i j (ap is_critical hi) (ap is_critical hj), v.noted.in_holder i hi)

next_move-Makes :
    {s : System} (p : Pc) → IsSafe s → s.pc (self s) ≡ p → (p ≡ outside) ⊎ Makes (next_move s p)
unfolding next_move
next_move-Makes outside v e = inl refl
next_move-Makes trying v e = inr (down-Makes v e)
next_move-Makes taken v e = inr (taken-Makes v e)
next_move-Makes inside v e = inr (release-Makes v e)
next_move-Makes leaving v e = inr (up-Makes v e)

gets_through : {r : Option System} → Makes r → r ≢ none
gets_through (t, e, safe) e' = cc

-- No assertion of sync.c or of the scheduler fails: what the current thread does next with the lock
-- gets through, and so does its yielding.
pub never_panics :
    {k : Kernel} {s : System}
    → IsSound k
    → Reach k s
    → (next_move s (s.pc (self s)) ≢ none) × (run_yield s ≢ none)
unfolding next_move
never_panics {k} {s} q r =
    let v = Reach-IsSafe q r in
    (through (next_move-Makes (s.pc (self s)) v refl), gets_through (yield-Makes v))
  where
    out_moves : {p : Pc} → p ≡ outside → next_move s p ≢ none
    out_moves e = subst (λ p. next_move s p ≢ none) (sym e) (λ e'. cc)

    through : {p : Pc} → (p ≡ outside) ⊎ Makes (next_move s p) → next_move s p ≢ none
    through (inl e) = out_moves e
    through (inr m) = gets_through m

-- No wake-up is lost: the semaphore is taken, or no thread waits on it, or there is a thread in the
-- loop of sema_down that does not wait for a sema_up and is running or in the ready list.
pub no_lost_wakeup :
    {k : Kernel} {s : System}
    → IsSound k
    → Reach k s
    → (s.lock.semaphore.value ≡ 0)
      ⊎ (s.lock.semaphore.waiters ≡ [])
      ⊎ ((t : ℕ) × (s.pc t ≡ trying)
          × (has t s.lock.semaphore.waiters ≡ false)
          × (has t (s.kernel.cur ∷ s.kernel.ready) ≡ true))
no_lost_wakeup {k} {s} q r =
    cases (ℕ_discrete s.lock.semaphore.value 0) (empty_or_not s.lock.semaphore.waiters)
      (Reach-IsSafe q r).awake
  where
    empty_or_not : (xs : List ℕ) → (xs ≡ []) ⊎ (xs ≢ [])
    empty_or_not [] = inl refl
    empty_or_not (x ∷ xs) = inr (λ e. cc)

    cases :
        {v : ℕ} {w : List ℕ} {T : Type 0}
        → Dec (v ≡ 0)
        → (w ≡ []) ⊎ (w ≢ [])
        → (v ≢ 0 → w ≢ [] → T)
        → (v ≡ 0) ⊎ (w ≡ []) ⊎ T
    cases (yes e) d f = inl e
    cases (no ne) (inl e) f = inr (inl e)
    cases (no ne) (inr ne') f = inr (inr (f ne ne'))
