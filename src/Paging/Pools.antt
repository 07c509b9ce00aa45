-- ===== src/Paging/Pools.antt =====
-- kernel/memory.c: palloc and pfree hand physical pages out and take them back.
use the_one_os.Common.{
  ℕ, zero, suc, ◌+◌, ◌*◌, ◌/◌, ◌%◌, ◌^◌, ◌≤◌, ◌<◌, ◌≡◌, refl, ◌≢◌, ◌⊎◌, inl, inr, Bool, true, false,
  Option, some, arith, ◌==◌, ltb, if◌then◌else◌, Memory, store, IsBytes, word_size, wrap32, add32,
  sub32, minus_one, ap, ◌∙◌, sym, subst, same_result, ℕ_discrete,
}
use the_one_os.Bitmap.{Bitmap, byte_addr, bitmap_scan, bitmap_scan_test, bitmap_set}
use the_one_os.Bitmap.Bits.{
  IsPlaced, new_byte, written, bitmap_set-one, bitmap_set-zero, written-IsBytes, test-written,
}
use the_one_os.Bitmap.Scan.{IsBlocked, bitmap_scan-Scanned}
use the_one_os.Paging.{page_size, Pool, palloc, pfree}

-- The number of pages that the bitmap of a pool tells apart, and the address of page `i`.
abbrev pub pages : Pool → ℕ
pages p = p.pool_bitmap.btmap_bytes_len * 8

abbrev pub page_addr : Pool → ℕ → ℕ
page_addr p i = p.phy_addr_start + i * page_size

-- Page `i` of the pool is in use.
abbrev pub in_use : Memory → Pool → ℕ → Bool
in_use m p i = bitmap_scan_test m p.pool_bitmap i

-- The pages of the pool have addresses, none of them 0, and their bits are in the address space.
pub record IsPool (p : Pool) : Type 0 where
  pub placed : IsPlaced p.pool_bitmap
  pub there : 0 < p.phy_addr_start
  pub top : page_addr p (pages p) ≤ word_size

-- The user pool follows the kernel pool, and so do their bitmaps.
pub record IsJoined (k u : Pool) : Type 0 where
  pub kernel : IsPool k
  pub user : IsPool u
  pub bits_next : u.pool_bitmap.bits ≡ k.pool_bitmap.bits + k.pool_bitmap.btmap_bytes_len
  pub pages_next : u.phy_addr_start ≡ page_addr k (pages k)

-- The page `i` is handed out: it was the first free one, and nothing else changes.
pub record IsTaken (m m' : Memory) (p : Pool) (page i : ℕ) : Type 0 where
  pub bound : i < pages p
  pub free : in_use m p i ≡ false
  pub first : (j : ℕ) → j < i → in_use m p j ≡ true
  pub address : page ≡ page_addr p i
  pub after : m' ≡ written m p.pool_bitmap i true

abbrev pub Palloced : Memory → Pool → Option (ℕ × Memory) → Type 0
Palloced m p r =
    ((r ≡ some (0, m)) × ((j : ℕ) → j < pages p → in_use m p j ≡ true))
    ⊎ ((page : ℕ) × (m' : Memory) × (i : ℕ) × (r ≡ some (page, m')) × IsTaken m m' p page i)

blocked_one : (m : Memory) (b : Bitmap) (s : ℕ) → IsBlocked m b s 1 → bitmap_scan_test m b s ≡ true
blocked_one m b s (j, le, lt, h) = subst (λ x. bitmap_scan_test m b x ≡ true) (omega arith) h

palloc-none :
    (m : Memory) (p : Pool) → bitmap_scan m p.pool_bitmap 1 ≡ minus_one → palloc m p ≡ some (0, m)
unfolding palloc
palloc-none m p e = rw e refl

palloc-some :
    (m : Memory) (p : Pool) (i : ℕ)
    → bitmap_scan m p.pool_bitmap 1 ≡ i
    → i < minus_one
    → palloc m p
      ≡ some (add32 p.phy_addr_start (wrap32 (i * page_size)), written m p.pool_bitmap i true)
unfolding palloc
palloc-some m p i e small = rw e (ground (arith, bitmap_set-one m p.pool_bitmap i))

-- palloc takes the first free page of the pool, and says 0 when every page is in use.
pub palloc_lem : (m : Memory) (p : Pool) → IsPool p → pages p < 2 ^ 31 → Palloced m p (palloc m p)
palloc_lem m p h small = elim (bitmap_scan-Scanned m p.pool_bitmap 1 (omega arith) small) [
  | inl (e, blocked) ↦
      inl (palloc-none m p e, λ j lt. blocked_one m p.pool_bitmap j (blocked j (omega arith)))
  | inr (lt, run) ↦
      let i = bitmap_scan m p.pool_bitmap 1 in
      inr (
        add32 p.phy_addr_start (wrap32 (i * page_size)),
        written m p.pool_bitmap i true,
        i,
        palloc-some m p i refl (omega arith),
        record {
          bound = lt;
          free = run.clear i (omega arith) (omega arith);
          first = λ j lt'. blocked_one m p.pool_bitmap j (run.first j lt');
          address = omega (arith, h.top);
          after = refl;
        },
      )
]

pfree-at :
    (m : Memory) (k u : Pool) (page : ℕ) (high : Bool)
    → ltb u.phy_addr_start page ≡ high
    → (i : ℕ) → sub32 page (if high then u else k).phy_addr_start / page_size ≡ i
    → pfree m k u page ≡ some (written m (if high then u else k).pool_bitmap i false)
unfolding pfree
pfree-at m k u page high e i e' =
    ap
      (λ h.
        bitmap_set m (if h then u else k).pool_bitmap
          (sub32 page (if h then u else k).phy_addr_start / page_size) 0)
      e
    ∙ ap (λ j. bitmap_set m (if high then u else k).pool_bitmap j 0) e'
    ∙ bitmap_set-zero m (if high then u else k).pool_bitmap i

module _ (m : Memory) {k u : Pool} (joined : IsJoined k u) where
  -- The bit behind those of the kernel pool is the first one of the user pool.
  written-next :
      0 < pages u → written m k.pool_bitmap (pages k) false ≡ written m u.pool_bitmap 0 false
  written-next some_page =
      ap
        (λ b.
          store m (byte_addr k.pool_bitmap (pages k))
            (new_byte (m (byte_addr k.pool_bitmap (pages k))) b false))
        bit
      ∙ ap (λ a. store m a (new_byte (m a) 0 false)) place
    where
      bit : pages k % 8 ≡ 0
      bit = omega arith

      place : byte_addr k.pool_bitmap (pages k) ≡ byte_addr u.pool_bitmap 0
      place = omega (arith, joined.bits_next, joined.user.placed.fits)

  pfree-kernel :
      (i : ℕ) → i < pages k → pfree m k u (page_addr k i) ≡ some (written m k.pool_bitmap i false)
  pfree-kernel i lt =
      pfree-at m k u (page_addr k i) false (ground (arith, joined.pages_next)) i
        (omega (arith, joined.pages_next, joined.kernel.top))

  pfree-user :
      (i : ℕ) → i < pages u → pfree m k u (page_addr u i) ≡ some (written m u.pool_bitmap i false)
  pfree-user zero lt =
      pfree-at m k u (page_addr u 0) false (ground arith) (pages k)
        (omega (arith, joined.pages_next, joined.user.top))
      ∙ ap some (written-next lt)
  pfree-user (suc i) lt =
      pfree-at m k u (page_addr u (suc i)) true (ground arith) (suc i)
        (omega (arith, joined.user.top))

-- One of the two pools, and the page that is given back to it.
abbrev pub pool_for : Bool → Pool → Pool → Pool
pool_for for_user k u = if for_user then u else k

pub pfree_lem :
    (m : Memory) {k u : Pool} (for_user : Bool) (i : ℕ)
    → IsJoined k u
    → i < pages (pool_for for_user k u)
    → pfree m k u (page_addr (pool_for for_user k u) i)
      ≡ some (written m (pool_for for_user k u).pool_bitmap i false)
pfree_lem m true i joined lt = pfree-user m joined i lt
pfree_lem m false i joined lt = pfree-kernel m joined i lt

pool-IsPool : {k u : Pool} (for_user : Bool) → IsJoined k u → IsPool (pool_for for_user k u)
pool-IsPool true joined = joined.user
pool-IsPool false joined = joined.kernel

restored :
    (m : Memory) (p : Pool) (i j : ℕ)
    → IsBytes m
    → IsPool p
    → i < pages p
    → j < pages p
    → in_use m p i ≡ false
    → in_use (written (written m p.pool_bitmap i true) p.pool_bitmap i false) p j ≡ in_use m p j
restored m p i j bytes h lt lt' free =
    test-written p.pool_bitmap i false (written-IsBytes p.pool_bitmap i true bytes) j h.placed lt
      lt'
    ∙ ap (λ b. if j == i then false else b)
        (test-written p.pool_bitmap i true bytes j h.placed lt lt')
    ∙ back (ℕ_discrete j i)
  where
    back :
        Dec (j ≡ i)
        → (if j == i then false else (if j == i then true else in_use m p j)) ≡ in_use m p j
    back (yes e) = ground (arith, subst (λ x. in_use m p x ≡ false) (sym e) free)
    back (no ne) = ground arith

-- A page that palloc gives and pfree takes back is free again, and every other page of the pool is as
-- it was before, although pfree sends the first page of the user pool to the kernel pool's bitmap.
pub pfree-palloc :
    (m m' : Memory) {k u : Pool} (for_user : Bool) (page : ℕ)
    → IsBytes m
    → IsJoined k u
    → pages (pool_for for_user k u) < 2 ^ 31
    → palloc m (pool_for for_user k u) ≡ some (page, m')
    → page ≢ 0
    → (m'' : Memory) × (pfree m' k u page ≡ some m'')
      × ((j : ℕ)
          → j < pages (pool_for for_user k u)
          → in_use m'' (pool_for for_user k u) j ≡ in_use m (pool_for for_user k u) j)
pfree-palloc m m' {k} {u} for_user page bytes joined small e ne =
    elim (palloc_lem m (pool_for for_user k u) (pool-IsPool for_user joined) small) [
      | inl (e', full) ↦ absurd (ne (same_result e e').0)
      | inr (page', m1, i, e', taken) ↦
          let p = pool_for for_user k u in
          let b = p.pool_bitmap in
          let (same_page, same_mem) = same_result e e' in
          (
            written (written m b i true) b i false,
            ap (λ n. pfree n k u page) (same_mem ∙ taken.after)
                ∙ ap (λ a. pfree (written m b i true) k u a) (same_page ∙ taken.address)
                ∙ pfree_lem (written m b i true) for_user i joined taken.bound,
            λ j lt. restored m p i j bytes (pool-IsPool for_user joined) taken.bound lt taken.free,
          )
    ]
