-- ===== src/Pid/Unique.antt =====
-- thread/thread.c: a process number is given to one process at a time.
use the_one_os.Common.{
  ℕ, ◌+◌, ◌-◌, ◌*◌, ◌^◌, ◌≤◌, ◌<◌, ◌≡◌, refl, inl, inr, Bool, true, false, some, arith, ◌==◌,
  if◌then◌else◌, Memory, IsBytes, add32, sub32, ap, ◌∙◌, subst, ◌>>=◌,
}
use the_one_os.Bitmap.{bitmap_scan, bitmap_scan_test, bitmap_set}
use the_one_os.Bitmap.Bits.{
  IsPlaced, written, bitmap_set-one, bitmap_set-zero, written-IsBytes, test-written,
}
use the_one_os.Bitmap.Scan.{bitmap_scan-Scanned}
use the_one_os.Pid.{PidPool, allocate_pid, release_pid}

-- The pool numbers its bits from 1, and has them in the address space.
pub record IsPidPool (p : PidPool) : Type 0 where
  pub placed : IsPlaced p.pid_bitmap
  pub from_one : p.pid_start ≡ 1
  pub few : p.pid_bitmap.btmap_bytes_len * 8 < 2 ^ 31

-- The process number `pid` is in use.
abbrev pub taken : Memory → PidPool → ℕ → Bool
taken m p pid = bitmap_scan_test m p.pid_bitmap (pid - 1)

-- A process number that the pool can give.
abbrev pub Possible : PidPool → ℕ → Type 0
Possible p pid = (0 < pid) × (pid ≤ p.pid_bitmap.btmap_bytes_len * 8)

-- `pid` was the least number that was free, and is in use now; the other numbers are as they were.
pub record IsGiven (m m' : Memory) (p : PidPool) (pid : ℕ) : Type 0 where
  pub possible : Possible p pid
  pub was_free : taken m p pid ≡ false
  pub least : (q : ℕ) → 0 < q → q < pid → taken m p q ≡ true
  pub now : (q : ℕ) → Possible p q → taken m' p q ≡ (if q == pid then true else taken m p q)
  pub still_bytes : IsBytes m'

allocate-at :
    (m : Memory) (p : PidPool) (i : ℕ)
    → bitmap_scan m p.pid_bitmap 1 ≡ i
    → allocate_pid m p ≡ some (add32 i p.pid_start, written m p.pid_bitmap i true)
unfolding allocate_pid
allocate-at m p i e =
    ap (λ j. bitmap_set m p.pid_bitmap j 1 >>= λ m'. some (add32 j p.pid_start, m')) e
    ∙ ap (λ o. o >>= λ m'. some (add32 i p.pid_start, m')) (bitmap_set-one m p.pid_bitmap i)

-- While a number is free, allocate_pid gives the least one.
pub allocate_pid_lem :
    (m : Memory) (p : PidPool) (free : ℕ)
    → IsPidPool p
    → IsBytes m
    → Possible p free
    → taken m p free ≡ false
    → (pid : ℕ) × (m' : Memory) × (allocate_pid m p ≡ some (pid, m')) × IsGiven m m' p pid
allocate_pid_lem m p free h bytes there is_free =
    elim (bitmap_scan-Scanned m p.pid_bitmap 1 (omega arith) h.few) [
      | inl (e, blocked) ↦
          let (j, le, lt, set) = blocked (free - 1) (omega arith) in
          absurd (
            clash (subst (λ x. bitmap_scan_test m p.pid_bitmap x ≡ true) (omega arith) set) is_free)
      | inr (lt, run) ↦
          let i = bitmap_scan m p.pid_bitmap 1 in
          (
            i + 1,
            written m p.pid_bitmap i true,
            allocate-at m p i refl
                ∙ ap (λ n. some (n, written m p.pid_bitmap i true))
                    (omega (arith, h.from_one, h.few)),
            record {
              possible = (omega arith, omega arith);
              was_free =
                  subst (λ x. bitmap_scan_test m p.pid_bitmap x ≡ false) (omega arith)
                    (run.clear i (omega arith) (omega arith));
              least = λ q pos below.
                  let (j, le, lt', set) = run.first (q - 1) (omega arith) in
                  subst (λ x. bitmap_scan_test m p.pid_bitmap x ≡ true) (omega arith) set;
              now = λ q poss.
                  test-written p.pid_bitmap i true bytes (q - 1) h.placed lt (omega arith)
                  ∙ same_bit i (taken m p q) q poss.0;
              still_bytes = written-IsBytes p.pid_bitmap i true bytes;
            },
          )
    ]
  where
    clash : {b : Bool} → b ≡ true → b ≡ false → ⊥
    clash e e' = cc

    same_bit :
        (i : ℕ) (b : Bool) (q : ℕ)
        → 0 < q
        → (if q - 1 == i then true else b) ≡ (if q == i + 1 then true else b)
    same_bit i b q pos = ground arith

-- release_pid makes the number free again, and leaves the others as they were.
pub release_pid_lem :
    (m : Memory) (p : PidPool) (pid : ℕ)
    → IsPidPool p
    → IsBytes m
    → Possible p pid
    → (m' : Memory) × (release_pid m p pid ≡ some m')
      × IsBytes m'
      × ((q : ℕ) → Possible p q → taken m' p q ≡ (if q == pid then false else taken m p q))
unfolding release_pid
release_pid_lem m p pid h bytes poss = (
  written m p.pid_bitmap (pid - 1) false,
  ap (λ i. bitmap_set m p.pid_bitmap i 0) place ∙ bitmap_set-zero m p.pid_bitmap (pid - 1),
  written-IsBytes p.pid_bitmap (pid - 1) false bytes,
  λ q poss'.
      test-written p.pid_bitmap (pid - 1) false bytes (q - 1) h.placed (omega arith) (omega arith)
      ∙ same_bit (taken m p q) q poss'.0,
)
  where
    place : sub32 pid p.pid_start ≡ pid - 1
    place = omega (arith, h.from_one, h.few)

    same_bit :
        (b : Bool) (q : ℕ)
        → 0 < q
        → (if q - 1 == pid - 1 then false else b) ≡ (if q == pid then false else b)
    same_bit b q pos = ground arith
