-- ===== src/Files/Step.antt =====
-- fs/file.c: one sector of a write.
use the_one_os.Common.{
  ℕ, ◌+◌, ◌-◌, ◌*◌, ◌/◌, ◌%◌, ◌<◌, ◌≤◌, ◌≡◌, ◌≢◌, ◌⊎◌, inl, inr, arith, some, ltb, leb, ◌&&◌,
  if◌then◌else◌, ap, sym, ◌∙◌, refl, ℕ_discrete, dec_lt, dec_le, subst,
}
use the_one_os.Fs.Alloc.{Partition}
use the_one_os.Files.{Disk, Buffer, Work, disk_write, copy_in, write_block}
use the_one_os.Files.Sectors.{disk_write-same, disk_write-sector, copy_in-at}
use the_one_os.Files.Blocks.{
  IsMounted, Blocks, IsListed, IsListed-still, Tracks, content, content-at, mapped_content,
  indirect,
}
use the_one_os.Files.Allocate.{room}
use the_one_os.Files.Load.{IsLoaded, load_or_alloc_lem}

-- The byte at position `i` after the bytes from `pos` on have been overwritten by `size` bytes of `src`.
abbrev pub overwrite : (ℕ → ℕ) → ℕ → Buffer → ℕ → ℕ → ℕ
overwrite old pos src size i = if leb pos i && ltb i (pos + size) then src (i - pos) else old i

-- `size` bytes of `src` have been written at `pos`, and the blocks from `lo` to before `hi` have a sector.
pub record IsWritten (part : Partition) (limit pos size : ℕ) (src : Buffer) (lo hi : ℕ)
    (blocks blocks' : Blocks) (w w' : Work) : Type 0 where
  pub tracks : Tracks part limit blocks' w'
  pub kept : (k : ℕ) → k ≤ indirect → blocks k ≢ 0 → blocks' k ≡ blocks k
  pub outside : (k : ℕ) → k ≤ indirect → (k < lo) ⊎ (hi ≤ k) → blocks' k ≡ blocks k
  pub mapped : (k : ℕ) → lo ≤ k → k < hi → blocks' k ≢ 0
  pub bytes :
      (i : ℕ)
      → i < indirect * 512
      → content blocks' w'.disk i ≡ overwrite (content blocks w.disk) pos src size i
  pub listed : IsListed blocks w.disk → IsListed blocks' w'.disk
  pub lists : (k : ℕ) → lo ≤ k → k < hi → 12 ≤ k → blocks k ≡ 0 → IsListed blocks' w'.disk
  pub room_left : room part w.memory + lo ≤ room part w'.memory + hi

module _ {part : Partition} (mount : IsMounted part) {limit idx : ℕ} {blocks blocks' : Blocks}
    {w w1 : Work} (below : idx < limit) (off size : ℕ) (fits : off + size ≤ 512) (src : Buffer)
    (loaded : IsLoaded part limit idx blocks blocks' w w1) where
  abbrev buf : Buffer
  buf = copy_in w1.io_buf off src size

  abbrev disk' : Disk
  disk' = disk_write w1.disk (blocks' idx) buf 1

  small : idx < indirect
  small = ground (arith, loaded.tracks.rooted)

  other :
      (k a : ℕ)
      → k ≤ indirect
      → k ≢ idx
      → blocks' k ≢ 0
      → a < 512
      → disk' (blocks' k * 512 + a) ≡ w1.disk (blocks' k * 512 + a)
  other k a le ne has la =
      disk_write-sector w1.disk (blocks' idx) buf (blocks' k) a
        (loaded.tracks.owned.apart k idx le (omega (arith, small)) ne has) la

  step-same :
      (a : ℕ)
      → a < 512
      → content blocks' disk' (idx * 512 + a)
        ≡ overwrite (content blocks w.disk) (idx * 512 + off) src size (idx * 512 + a)
  step-same a la =
      mapped_content blocks' disk' idx a la loaded.mapped
      ∙ disk_write-same w1.disk (blocks' idx) buf 1 a (omega arith)
      ∙ copy_in-at w1.io_buf off src size a
      ∙ ground (arith, loaded.buffer a la, ap src back)
    where
      back : idx * 512 + a - (idx * 512 + off) ≡ a - off
      back = omega arith

  step-other :
      (k a : ℕ)
      → k < indirect
      → k ≢ idx
      → a < 512
      → content blocks' disk' (k * 512 + a) ≡ content blocks w.disk (k * 512 + a)
  step-other k a lk ne la = content-at blocks' disk' k a la ∙ elim (ℕ_discrete (blocks k) 0) [
    | yes z ↦ ground (arith, content-at blocks w.disk k a la, loaded.kept k (omega arith) (inr ne))
    | no has ↦
        let same = loaded.kept k (omega arith) (inr ne) in
        sym (content-at blocks' disk' k a la)
        ∙ mapped_content blocks' disk' k a la (λ z. has (sym same ∙ z))
        ∙ other k a (omega arith) ne (λ z. has (sym same ∙ z)) la
        ∙ ap (λ l. w1.disk (l * 512 + a)) same
        ∙ loaded.still k a lk has la
        ∙ sym (mapped_content blocks w.disk k a la has)
  ]

  step-bytes :
      (i : ℕ)
      → i < indirect * 512
      → content blocks' disk' i ≡ overwrite (content blocks w.disk) (idx * 512 + off) src size i
  step-bytes i lt = elim (ℕ_discrete (i / 512) idx) [
    | yes e ↦ subst at_i (place e) (step-same (i % 512) (omega arith))
    | no ne ↦
        ap (content blocks' disk') split
        ∙ step-other (i / 512) (i % 512) (omega arith) ne (omega arith)
        ∙ ap (content blocks w.disk) (sym split)
        ∙ ground arith
  ]
    where
      at_i : ℕ → Type 0
      at_i j =
          content blocks' disk' j ≡ overwrite (content blocks w.disk) (idx * 512 + off) src size j

      place : i / 512 ≡ idx → idx * 512 + i % 512 ≡ i
      place e = omega arith

      split : i ≡ i / 512 * 512 + i % 512
      split = omega arith

  stored :
      IsWritten part limit
        (idx * 512 + off)
        size
        src
        idx
        (idx + 1)
        blocks
        blocks'
        w
        (record w1 { disk = disk'; io_buf = buf })
  stored =
      let t = loaded.tracks in
      record {
        tracks = record {
          owned = t.owned;
          listed = t.listed;
          direct = t.direct;
          last = t.last;
          rooted = t.rooted;
        };
        kept = λ k le has. loaded.kept k le (inl has);
        outside = λ k le out. loaded.kept k le (inr (λ e. ground (arith, out)));
        mapped = λ k lo hi z. loaded.mapped (ap blocks' (omega arith) ∙ z);
        bytes = step-bytes;
        listed = λ l. still_listed (loaded.listed (inl l));
        lists = λ k lo hi le z.
            still_listed (loaded.listed (inr (omega arith, ap blocks (omega arith) ∙ z)));
        room_left = omega (arith, loaded.room_left);
      }
    where
      still_listed : IsListed blocks' w1.disk → IsListed blocks' disk'
      still_listed =
          IsListed-still blocks' w1.disk disk'
            (λ has a la. other indirect a (omega arith) (λ e. absurd (omega (arith, small))) has la)

-- One sector is written, whether it had one before or not.
pub write_block_lem :
    {part : Partition} (mount : IsMounted part) {limit : ℕ} {blocks : Blocks} {w : Work}
    → Tracks part limit blocks w
    → (idx off size : ℕ) (src : Buffer) → idx < limit
    → off + size ≤ 512
    → 0 < room part w.memory
    → (blocks' : Blocks) × (w' : Work) × (write_block part idx off src size w ≡ some w')
      × IsWritten part limit (idx * 512 + off) size src idx (idx + 1) blocks blocks' w w'
unfolding write_block
write_block_lem {part} mount {limit} {blocks} {w} t idx off size src below fits enough =
    let (blocks', w1, e, loaded) = load_or_alloc_lem part mount limit idx blocks w t below enough in
    (
      blocks',
      record w1 {
        disk = disk' mount below off size fits src loaded;
        io_buf = buf mount below off size fits src loaded;
      },
      rw e (rw (loaded.tracks.listed idx below) refl),
      stored mount below off size fits src loaded,
    )

overwrite-append :
    (pos m n : ℕ) (src old old1 : Buffer) (i : ℕ)
    → old1 i ≡ overwrite old pos src m i
    → overwrite old1 (pos + m) (λ a. src (m + a)) n i ≡ overwrite old pos src (m + n) i
overwrite-append pos m n src old old1 i e = elim (dec_le (pos + m) i) [
  | yes ge ↦ ground (arith, e, ap src (shift ge))
  | no lt ↦ ground (arith, e)
]
  where
    shift : pos + m ≤ i → m + (i - (pos + m)) ≡ i - pos
    shift ge = omega arith

-- Two writes behind each other.
pub then-IsWritten :
    {part : Partition} {limit pos m n lo mid hi : ℕ} {src : Buffer}
    {blocks blocks1 blocks2 : Blocks} {w w1 w2 : Work}
    → lo ≤ mid
    → mid ≤ hi
    → hi ≤ indirect
    → IsWritten part limit pos m src lo mid blocks blocks1 w w1
    → IsWritten part limit (pos + m) n (λ a. src (m + a)) mid hi blocks1 blocks2 w1 w2
    → IsWritten part limit pos (m + n) src lo hi blocks blocks2 w w2
then-IsWritten {pos = pos} {m = m} {n = n} {mid = mid} {src = src} {blocks = blocks}
      {blocks1 = blocks1} {w = w} {w1 = w1} le le' bound f s =
    record {
      tracks = s.tracks;
      kept = λ k lk has. s.kept k lk (λ z. has (sym (f.kept k lk has) ∙ z)) ∙ f.kept k lk has;
      outside =
          λ k lk out. s.outside k lk (ground (arith, out)) ∙ f.outside k lk (ground (arith, out));
      mapped = λ k lo hi. elim (dec_lt k mid) [
        | yes lt ↦ λ z. f.mapped k lo lt (sym (s.kept k (omega arith) (f.mapped k lo lt)) ∙ z)
        | no ge ↦ s.mapped k (omega arith) hi
      ];
      bytes = λ i lt.
          s.bytes i lt
          ∙ overwrite-append pos m n src (content blocks w.disk) (content blocks1 w1.disk) i
              (f.bytes i lt);
      listed = λ l. s.listed (f.listed l);
      lists = λ k lo hi le z. elim (dec_lt k mid) [
        | yes lt ↦ s.listed (f.lists k lo lt le z)
        | no ge ↦ s.lists k (omega arith) hi le (f.outside k (omega arith) (inr (omega arith)) ∙ z)
      ];
      room_left = omega (arith, f.room_left, s.room_left);
    }
