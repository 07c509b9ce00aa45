-- ===== src/Paging/Vaddr.antt =====
-- kernel/memory.c: vaddr_get and vaddr_remove reserve virtual pages and give them back.
use the_one_os.Common.{
  ℕ, zero, suc, ◌+◌, ◌*◌, ◌/◌, ◌^◌, ◌≤◌, ◌<◌, ◌≡◌, refl, ◌≢◌, ◌⊎◌, inl, inr, Bool, true, false,
  ◌&&◌, Option, some, arith, ltb, leb, if◌then◌else◌, Memory, IsBytes, word_size, wrap32, add32,
  sub32, minus_one, ap, ◌∙◌, same_result, ◌>>=◌, subst,
}
use the_one_os.Bitmap.{Bitmap, bitmap_scan, bitmap_scan_test, bitmap_set}
use the_one_os.Bitmap.Bits.{
  IsPlaced, written, bitmap_set-one, bitmap_set-zero, written-IsBytes, test-written,
}
use the_one_os.Bitmap.Scan.{IsBlocked, bit_len, IsFirstRun, bitmap_scan-Scanned}
use the_one_os.Paging.{page_size, VirtualAddr, vaddr_get, vaddr_remove, take_loop, drop_loop}

-- The bit `j` is one of the `cnt` from `s` on.
abbrev pub within_run : ℕ → ℕ → ℕ → Bool
within_run s cnt j = leb s j && ltb j (s + cnt)

-- The bits of `b` in `m'` are those of `m`, with the `cnt` from `s` on set to `v`.
pub record IsFilled (m m' : Memory) (b : Bitmap) (s cnt : ℕ) (v : Bool) : Type 0 where
  pub still_bytes : IsBytes m'
  pub bit_at :
      (j : ℕ)
      → j < bit_len m b
      → bitmap_scan_test m' b j ≡ (if within_run s cnt j then v else bitmap_scan_test m b j)

take_loop_lem :
    (m : Memory) (b : Bitmap) (s n : ℕ)
    → IsBytes m
    → IsPlaced b
    → s + n ≤ bit_len m b
    → (m' : Memory) × (take_loop m b s n ≡ some m') × IsFilled m m' b s n true
unfolding take_loop
take_loop_lem m b s zero bytes h le =
    (m, refl, record { still_bytes = bytes; bit_at = λ j lt. ground arith })
take_loop_lem m b s (suc n) bytes h le =
    let m1 = written m b (s + n) true in
    let (m', e, fill) =
      take_loop_lem m1 b s n (written-IsBytes b (s + n) true bytes) h (omega arith) in
    let place : add32 s n ≡ s + n = omega (arith, h.countable) in
    (
      m',
      ap (λ i. bitmap_set m b i 1 >>= λ m'. take_loop m' b s n) place
          ∙ ap (λ o. o >>= λ m'. take_loop m' b s n) (bitmap_set-one m b (s + n))
          ∙ e,
      record {
        still_bytes = fill.still_bytes;
        bit_at = λ j lt.
            fill.bit_at j lt
            ∙ ground (arith, test-written b (s + n) true bytes j h (omega arith) lt);
      },
    )

drop_loop_lem :
    (m : Memory) (b : Bitmap) (s i n : ℕ)
    → IsBytes m
    → IsPlaced b
    → s + i + n ≤ bit_len m b
    → (m' : Memory) × (drop_loop m b s i n ≡ some m') × IsFilled m m' b (s + i) n false
unfolding drop_loop
drop_loop_lem m b s i zero bytes h le =
    (m, refl, record { still_bytes = bytes; bit_at = λ j lt. ground arith })
drop_loop_lem m b s i (suc n) bytes h le =
    let m1 = written m b (s + i) false in
    let (m', e, fill) =
      drop_loop_lem m1 b s (i + 1) n (written-IsBytes b (s + i) false bytes) h (omega arith) in
    let place : add32 s i ≡ s + i = omega (arith, h.countable) in
    (
      m',
      ap (λ x. bitmap_set m b x 0 >>= λ m'. drop_loop m' b s (i + 1) n) place
          ∙ ap (λ o. o >>= λ m'. drop_loop m' b s (i + 1) n) (bitmap_set-zero m b (s + i))
          ∙ e,
      record {
        still_bytes = fill.still_bytes;
        bit_at = λ j lt.
            fill.bit_at j lt
            ∙ ground (arith, test-written b (s + i) false bytes j h (omega arith) lt);
      },
    )

-- The virtual pages of the pool have addresses, none of them 0.
pub record IsVirtual (v : VirtualAddr) : Type 0 where
  pub placed : IsPlaced v.vaddr_bitmap
  pub few : v.vaddr_bitmap.btmap_bytes_len * 8 < 2 ^ 31
  pub there : 0 < v.vaddr_start
  pub top : v.vaddr_start + v.vaddr_bitmap.btmap_bytes_len * 8 * page_size ≤ word_size

-- What vaddr_get comes to: no run of that many free pages, or the first one, reserved.
abbrev pub Reserved : Memory → VirtualAddr → ℕ → Option (ℕ × Memory) → Type 0
Reserved m v cnt r =
    ((r ≡ some (0, m))
      × ((s : ℕ) → s + cnt ≤ bit_len m v.vaddr_bitmap → IsBlocked m v.vaddr_bitmap s cnt))
    ⊎ ((m' : Memory) × (s : ℕ) × (r ≡ some (v.vaddr_start + s * page_size, m'))
        × IsFirstRun m v.vaddr_bitmap cnt s
        × IsFilled m m' v.vaddr_bitmap s cnt true)

get-fails :
    (m : Memory) (v : VirtualAddr) (cnt : ℕ)
    → bitmap_scan m v.vaddr_bitmap cnt ≡ minus_one
    → vaddr_get m v cnt ≡ some (0, m)
unfolding vaddr_get
get-fails m v cnt e = rw e refl

get-takes :
    (m m' : Memory) (v : VirtualAddr) (cnt s : ℕ)
    → bitmap_scan m v.vaddr_bitmap cnt ≡ s
    → s < minus_one
    → take_loop m v.vaddr_bitmap s cnt ≡ some m'
    → vaddr_get m v cnt ≡ some (add32 v.vaddr_start (wrap32 (s * page_size)), m')
unfolding vaddr_get
get-takes m m' v cnt s e small e' = rw e (ground (arith, e'))

-- vaddr_get reserves the first run of `cnt` free virtual pages, or says 0 when there is none.
pub vaddr_get_lem :
    (m : Memory) (v : VirtualAddr) (cnt : ℕ)
    → IsBytes m
    → IsVirtual v
    → 0 < cnt
    → Reserved m v cnt (vaddr_get m v cnt)
vaddr_get_lem m v cnt bytes h pos = elim (bitmap_scan-Scanned m v.vaddr_bitmap cnt pos h.few) [
  | inl (e, blocked) ↦ inl (get-fails m v cnt e, blocked)
  | inr (lt, run) ↦
      let s = bitmap_scan m v.vaddr_bitmap cnt in
      let (m', e, fill) = take_loop_lem m v.vaddr_bitmap s cnt bytes h.placed run.within in
      let address : add32 v.vaddr_start (wrap32 (s * page_size)) ≡ v.vaddr_start + s * page_size =
        omega (arith, h.top, h.few) in
      inr (
        m',
        s,
        get-takes m m' v cnt s refl (omega (arith, h.few)) e ∙ ap (λ a. some (a, m')) address,
        run,
        fill,
      )
]

-- vaddr_remove gives back the `cnt` virtual pages from page `s` on, and no other.
pub vaddr_remove_lem :
    (m : Memory) (v : VirtualAddr) (s cnt : ℕ)
    → IsBytes m
    → IsVirtual v
    → s + cnt ≤ bit_len m v.vaddr_bitmap
    → s < bit_len m v.vaddr_bitmap
    → (m' : Memory) × (vaddr_remove m v (v.vaddr_start + s * page_size) cnt ≡ some m')
      × IsFilled m m' v.vaddr_bitmap s cnt false
unfolding vaddr_remove
vaddr_remove_lem m v s cnt bytes h le lt =
    let (m', e, fill) = drop_loop_lem m v.vaddr_bitmap s 0 cnt bytes h.placed (omega arith) in
    let page : sub32 (v.vaddr_start + s * page_size) v.vaddr_start / page_size ≡ s =
      omega (arith, h.top) in
    (
      m',
      ap (λ i. drop_loop m v.vaddr_bitmap i 0 cnt) page ∙ e,
      subst (λ i. IsFilled m m' v.vaddr_bitmap i cnt false) (omega arith) fill,
    )

-- Virtual pages that are reserved and given back are as free as they were.
pub vaddr_remove-get :
    (m m' : Memory) (v : VirtualAddr) (cnt vaddr : ℕ)
    → IsBytes m
    → IsVirtual v
    → 0 < cnt
    → vaddr_get m v cnt ≡ some (vaddr, m')
    → vaddr ≢ 0
    → (m'' : Memory) × (vaddr_remove m' v vaddr cnt ≡ some m'')
      × ((j : ℕ)
          → j < bit_len m v.vaddr_bitmap
          → bitmap_scan_test m'' v.vaddr_bitmap j ≡ bitmap_scan_test m v.vaddr_bitmap j)
vaddr_remove-get m m' v cnt vaddr bytes h pos e ne = elim (vaddr_get_lem m v cnt bytes h pos) [
  | inl (e', blocked) ↦ absurd (ne (same_result e e').0)
  | inr (m1, s, e', run, fill) ↦
      let (m'', gone, emptied) =
        vaddr_remove_lem m1 v s cnt fill.still_bytes h run.within (omega (arith, run.within)) in
      let (same_addr, same_mem) = same_result e e' in
      (
        m'',
        ap (λ n. vaddr_remove n v vaddr cnt) same_mem
            ∙ ap (λ a. vaddr_remove m1 v a cnt) same_addr
            ∙ gone,
        λ j lt. ground (arith, emptied.bit_at j lt, fill.bit_at j lt, run.clear j),
      )
]
