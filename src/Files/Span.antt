-- ===== src/Files/Span.antt =====
-- fs/file.c: the sectors of a write, one behind the other.
use the_one_os.Common.{
  ℕ, zero, suc, ◌+◌, ◌-◌, ◌*◌, ◌/◌, ◌%◌, ◌<◌, ◌≤◌, ◌≡◌, some, ◌==◌, arith, add32, ap, ◌∙◌, refl,
  transport, true, ℕ_discrete, ==_ne,
}
use the_one_os.Fs.Alloc.{Partition}
use the_one_os.Files.{Buffer, Work}
use the_one_os.Files.Blocks.{IsMounted, Blocks, Tracks, indirect}
use the_one_os.Files.Allocate.{room}
use the_one_os.Files.Step.{IsWritten, write_block_lem, then-IsWritten}
use the_one_os.Files.Write.{write_blocks, write_sectors}

cast :
    {part : Partition} {limit pos pos' size size' lo hi hi' : ℕ} {src src' : Buffer}
    {blocks blocks' : Blocks} {w w' : Work}
    → pos ≡ pos'
    → size ≡ size'
    → ((a : ℕ) → src a ≡ src' a)
    → hi ≡ hi'
    → IsWritten part limit pos size src lo hi blocks blocks' w w'
    → IsWritten part limit pos' size' src' lo hi' blocks blocks' w w'
cast {part} {limit} {lo = lo} {blocks = blocks} {blocks' = blocks'} {w = w} {w' = w'} p q r s x =
    transport (λ i. IsWritten part limit (p i) (q i) (λ a. r a i) lo (s i) blocks blocks' w w') x

none-IsWritten :
    {part : Partition} {limit : ℕ} {blocks : Blocks} {w : Work}
    → Tracks part limit blocks w
    → (pos idx : ℕ) (src : Buffer) → IsWritten part limit pos 0 src idx idx blocks blocks w w
none-IsWritten t pos idx src = record {
  tracks = t;
  kept = λ k le has. refl;
  outside = λ k le out. refl;
  mapped = λ k lo hi. absurd (omega arith);
  bytes = λ i lt. ground arith;
  listed = λ l. l;
  lists = λ k lo hi le z. absurd (omega arith);
  room_left = omega arith;
}

module _ {part : Partition} (mount : IsMounted part) {limit : ℕ} (buf : Buffer) where
  small : {blocks : Blocks} {w : Work} → Tracks part limit blocks w → limit ≤ indirect
  small t = ground (arith, t.rooted)

  -- The loop ends and writes whole sectors.
  write_blocks_lem :
      (rounds idx done : ℕ) {blocks : Blocks} {w : Work}
      → Tracks part limit blocks w
      → idx + rounds ≤ limit
      → rounds ≤ room part w.memory
      → (blocks' : Blocks) × (w' : Work) × (write_blocks part buf rounds idx done w
          ≡ some (done + rounds * 512, w'))
        × IsWritten part limit
            (idx * 512)
            (rounds * 512)
            (λ a. buf (done + a))
            idx
            (idx + rounds)
            blocks
            blocks'
            w
            w'
  unfolding write_blocks
  write_blocks_lem zero idx done {blocks} {w} t below enough = (
    blocks,
    w,
    ap (λ n. some (n, w)) (omega arith),
    cast refl (omega arith) (λ a. refl) (omega arith)
        (none-IsWritten t (idx * 512) idx (λ a. buf (done + a))),
  )
  write_blocks_lem (suc rounds) idx done {blocks} {w} t below enough =
      let (blocks1, w1, e, first) =
        write_block_lem mount t idx 0 512 (λ a. buf (done + a)) (omega arith) (omega arith)
          (omega arith) in
      let (blocks2, w2, e', rest) =
        write_blocks_lem rounds (idx + 1) (done + 512) first.tracks (omega arith)
          (omega (arith, first.room_left)) in
      (
        blocks2,
        w2,
        rw e (e' ∙ ap (λ n. some (n, w2)) (omega arith)),
        cast (omega arith) (omega arith) (λ a. refl) (omega arith)
            (then-IsWritten {n = rounds * 512} {hi = idx + 1 + rounds} {src = λ a. buf (done + a)}
              (omega arith) (omega arith) (omega (arith, small t)) first
              (cast (omega arith) refl (λ a. ap buf (omega arith)) refl rest)),
      )

  module _ {blocks : Blocks} {w : Work} (t : Tracks part limit blocks w) (fd_pos count : ℕ)
      (below : (fd_pos + count) / 512 < limit)
      (enough : (fd_pos + count) / 512 < fd_pos / 512 + room part w.memory) where
    abbrev pub SectorsWritten : Type 0
    SectorsWritten =
        (blocks' : Blocks) × (w' : Work) × (write_sectors part fd_pos buf count w
          ≡ some (count, w'))
        × IsWritten part limit fd_pos count buf (fd_pos / 512) ((fd_pos + count) / 512 + 1) blocks
            blocks' w w'

    bound : (fd_pos + count) / 512 < indirect
    bound = omega (arith, small t)

    no_wrap : add32 fd_pos count ≡ fd_pos + count
    no_wrap = omega (arith, bound)

    one_sector : fd_pos / 512 ≡ (fd_pos + count) / 512 → SectorsWritten
    unfolding write_sectors
    one_sector same =
        let (blocks', w', e, one) =
          write_block_lem mount t (fd_pos / 512) (fd_pos % 512) count buf (omega arith)
            (omega arith) (omega arith) in
        (
          blocks',
          w',
          rw (no_wrap, test_true (fd_pos / 512) ((fd_pos + count) / 512) same, e) refl,
          cast (omega arith) refl (λ a. refl) (omega arith) one,
        )
      where
        test_true : (a b : ℕ) → a ≡ b → (a == b) ≡ true
        test_true a b e = ground arith

    -- The first sector, the whole ones and the last make up the write.
    three :
        {blocks1 blocks2 blocks3 : Blocks} {w1 w2 w3 : Work}
        → let start = fd_pos / 512 in
          let end = (fd_pos + count) / 512 in
          let rounds = end - (start + 1) in
          let head = 512 - fd_pos % 512 in
          start < end
          → IsWritten part limit
              (start * 512 + fd_pos % 512)
              head
              buf
              start
              (start + 1)
              blocks
              blocks1
              w
              w1
          → IsWritten part limit
              ((start + 1) * 512)
              (rounds * 512)
              (λ a. buf (head + a))
              (start + 1)
              (start + 1 + rounds)
              blocks1
              blocks2
              w1
              w2
          → IsWritten part limit
              (end * 512 + 0)
              ((fd_pos + count) % 512)
              (λ a. buf (head + rounds * 512 + a))
              end
              (end + 1)
              blocks2
              blocks3
              w2
              w3
          → IsWritten part limit fd_pos count buf start (end + 1) blocks blocks3 w w3
    three more first middle last =
        let rounds = (fd_pos + count) / 512 - (fd_pos / 512 + 1) in
        cast refl (omega arith) (λ a. refl) refl
          (then-IsWritten {mid = (fd_pos + count) / 512} (omega arith) (omega arith)
            (omega (arith, bound))
            (cast refl refl (λ a. refl) (omega arith)
              (then-IsWritten {n = rounds * 512} (omega arith) (omega arith) (omega (arith, bound))
                (cast (omega arith) refl (λ a. refl) refl first)
                (cast (omega arith) refl (λ a. refl) refl middle)))
            (cast (omega arith) refl (λ a. refl) refl last))

    many_sectors : fd_pos / 512 < (fd_pos + count) / 512 → SectorsWritten
    unfolding write_sectors
    many_sectors more =
        let start = fd_pos / 512 in
        let end = (fd_pos + count) / 512 in
        let rounds = end - (start + 1) in
        let head = 512 - fd_pos % 512 in
        let (blocks1, w1, e1, first) =
          write_block_lem mount t start (fd_pos % 512) head buf (omega arith) (omega arith)
            (omega arith) in
        let (blocks2, w2, e2, middle) =
          write_blocks_lem rounds (start + 1) head first.tracks (omega arith)
            (omega (arith, first.room_left)) in
        let (blocks3, w3, e3, last) =
          write_block_lem mount middle.tracks end 0 ((fd_pos + count) % 512)
            (λ a. buf (head + rounds * 512 + a)) (omega arith) (omega arith)
            (omega (arith, first.room_left, middle.room_left)) in
        (
          blocks3,
          w3,
          rw (no_wrap, ==_ne start end (λ e. absurd (omega (arith, e))), e1, e2, e3)
              (ap (λ n. some (n, w3)) (omega arith)),
          three more first middle last,
        )

    -- write_sectors writes `count` bytes of `buf` at `fd_pos`.
    pub write_sectors_lem : SectorsWritten
    write_sectors_lem = elim (ℕ_discrete (fd_pos / 512) ((fd_pos + count) / 512)) [
      | yes same ↦ one_sector same
      | no more ↦ many_sectors (omega (arith, more))
    ]
