-- ===== src/Dir/Search.antt =====
-- fs/dir.c: search_dir_entry finds the first entry with a name.
use the_one_os.Common.{
  ℕ, ◌+◌, ◌*◌, ◌<◌, ◌≤◌, ◌≡◌, ◌≢◌, ◌⊎◌, Bool, true, false, Option, none, some, List, IsBytes,
  length,
}
use the_one_os.CString.{IsStr}
use the_one_os.Files.{Disk, Buffer, disk_read, copy_in}
use the_one_os.Dir.{
  dir_entry_size, dir_entrys_per_sec, zeros, dir_blocks, search_entries, search_blocks,
}

-- Entry `i` of a sector has the name `s`.
abbrev pub IsNamed : Buffer → ℕ → List ℕ → Type 0
IsNamed buf i s = IsStr buf (dir_entry_size * i) s

-- Block `k` has an entry with the name.
abbrev pub HasEntry : List ℕ → Disk → (ℕ → ℕ) → ℕ → Type 0
HasEntry s disk blocks k =
    (blocks k ≢ 0)
    × ((j : ℕ) × (j < dir_entrys_per_sec) × IsNamed (disk_read disk (blocks k) zeros 1) j s)

module _ (fuel : ℕ) (name : Buffer) (s : List ℕ) (named : IsStr name 0 s) (short : length s ≤ 16)
    (bytes : IsBytes name) (enough : length s < fuel) where
  -- What the loop over the entries of a sector finds from entry `i` on.
  abbrev FoundEntry : Buffer → ℕ → ℕ → Type 0
  FoundEntry buf i rounds =
      ((search_entries fuel buf name rounds i ≡ some none)
        × ((j : ℕ) → i ≤ j → j < i + rounds → IsNamed buf j s → ⊥))
      ⊎ ((e : ℕ) × (search_entries fuel buf name rounds i ≡ some (some e))
          × (i ≤ e)
          × (e < i + rounds)
          × IsNamed buf e s
          × ((j : ℕ) → i ≤ j → j < e → IsNamed buf j s → ⊥))

  module _ (disk : Disk) (ok : IsBytes disk) (blocks : ℕ → ℕ) where
    abbrev sector : ℕ → Buffer
    sector k = disk_read disk (blocks k) zeros 1

    abbrev HasName : ℕ → Type 0
    HasName k = HasEntry s disk blocks k

    abbrev FoundBlock : ℕ → ℕ → Type 0
    FoundBlock k rounds =
        ((search_blocks fuel disk blocks name rounds k ≡ some none)
          × ((l : ℕ) → k ≤ l → l < k + rounds → HasName l → ⊥))
        ⊎ ((l : ℕ) × (e : ℕ) × (search_blocks fuel disk blocks name rounds k
              ≡ some (some (sector l, e)))
            × (k ≤ l)
            × (l < k + rounds)
            × (blocks l ≢ 0)
            × (e < dir_entrys_per_sec)
            × IsNamed (sector l) e s
            × ((j : ℕ) → j < e → IsNamed (sector l) j s → ⊥)
            × ((l' : ℕ) → k ≤ l' → l' < l → HasName l' → ⊥))

-- The outcome of search_dir_entry for the name `s`: no entry of the directory has it, or the first one
-- that has, in the order of the blocks and then of the entries, is copied to the caller's.
abbrev pub Searched : List ℕ → Disk → (ℕ → ℕ) → Buffer → Option (Bool × Buffer) → Type 0
Searched s disk i_sectors dir_e result =
    let blocks = dir_blocks disk i_sectors in
    ((result ≡ some (false, dir_e)) × ((l : ℕ) → l < 140 → HasEntry s disk blocks l → ⊥))
    ⊎ ((l : ℕ) × (e : ℕ) × (result
          ≡ some (
            true,
            copy_in dir_e 0 (λ a. disk_read disk (blocks l) zeros 1 (dir_entry_size * e + a))
                dir_entry_size,
          ))
        × (l < 140)
        × (blocks l ≢ 0)
        × (e < dir_entrys_per_sec)
        × IsNamed (disk_read disk (blocks l) zeros 1) e s
        × ((j : ℕ) → j < e → IsNamed (disk_read disk (blocks l) zeros 1) j s → ⊥)
        × ((l' : ℕ) → l' < l → HasEntry s disk blocks l' → ⊥))
