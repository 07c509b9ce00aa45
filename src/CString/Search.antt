-- ===== src/CString/Search.antt =====
-- lib/string.c: strchr, strrchr and strchrs find the first, the last and the number of a character.
use the_one_os.Common.{
  ℕ, zero, suc, ◌+◌, ◌≡◌, ◌<◌, Option, none, some, List, [], ◌∷◌, if◌then◌else◌, Memory, arith,
  length, ap, ◌∙◌,
}
use the_one_os.CString.{char_eq, strchr, strrchr_loop, strrchr, strchrs_loop, strchrs, IsStr}

module _ (ch : ℕ) where
  -- The address of the first character that matches, in a string that begins at `p`.
  abbrev pub first_at : ℕ → List ℕ → Option ℕ
  first_at p [] = none
  first_at p (c ∷ cs) = if char_eq c ch then some p else first_at (p + 1) cs

  -- The address of the last one, or `d` if none matches.
  abbrev pub last_at : ℕ → List ℕ → Option ℕ → Option ℕ
  last_at p [] d = d
  last_at p (c ∷ cs) d = last_at (p + 1) cs (if char_eq c ch then some p else d)

  abbrev pub count_char : List ℕ → ℕ
  count_char [] = 0
  count_char (c ∷ cs) = (if char_eq c ch then 1 else 0) + count_char cs

  -- strchr ends, and returns the address of the first match, or NULL.
  pub strchr_lem :
      (fuel : ℕ) (m : Memory) (p : ℕ) (s : List ℕ)
      → IsStr m p s
      → length s < fuel
      → strchr fuel m p ch ≡ some (first_at p s)
  unfolding strchr
  strchr_lem zero m p s h lt = absurd (omega arith)
  strchr_lem (suc fuel) m p [] h lt = ground arith
  strchr_lem (suc fuel) m p (c ∷ cs) h lt =
      let t = h.2 in ground (arith, strchr_lem fuel m (p + 1) cs t)

  strrchr_loop_lem :
      (fuel : ℕ) (m : Memory) (p : ℕ) (s : List ℕ) (d : Option ℕ)
      → IsStr m p s
      → length s < fuel
      → strrchr_loop fuel m p ch d ≡ some (last_at p s d)
  unfolding strrchr_loop
  strrchr_loop_lem zero m p s d h lt = absurd (omega arith)
  strrchr_loop_lem (suc fuel) m p [] d h lt = ground arith
  strrchr_loop_lem (suc fuel) m p (c ∷ cs) d h lt =
      let t = h.2 in
      let ih =
        strrchr_loop_lem fuel m (p + 1) cs (if char_eq c ch then some p else d) t (omega arith) in
      rw (h.0) (ground (arith, ih))

  -- strrchr ends, and returns the address of the last match, or NULL.
  pub strrchr_lem :
      (fuel : ℕ) (m : Memory) (p : ℕ) (s : List ℕ)
      → IsStr m p s
      → length s < fuel
      → strrchr fuel m p ch ≡ some (last_at p s none)
  unfolding strrchr
  strrchr_lem fuel m p s h lt = strrchr_loop_lem fuel m p s none h lt

  strchrs_loop_lem :
      (fuel : ℕ) (m : Memory) (p : ℕ) (s : List ℕ) (n : ℕ)
      → IsStr m p s
      → length s < fuel
      → strchrs_loop fuel m p ch n ≡ some (n + count_char s)
  unfolding strchrs_loop
  strchrs_loop_lem zero m p s n h lt = absurd (omega arith)
  strchrs_loop_lem (suc fuel) m p [] n h lt = ground arith
  strchrs_loop_lem (suc fuel) m p (c ∷ cs) n h lt =
      let t = h.2 in
      let ih =
        strchrs_loop_lem fuel m (p + 1) cs (if char_eq c ch then n + 1 else n) t (omega arith) in
      rw (h.0) (ground (arith, ih))

  -- strchrs ends, and counts the matches.
  pub strchrs_lem :
      (fuel : ℕ) (m : Memory) (p : ℕ) (s : List ℕ)
      → IsStr m p s
      → length s < fuel
      → strchrs fuel m p ch ≡ some (count_char s)
  unfolding strchrs
  strchrs_lem fuel m p s h lt = strchrs_loop_lem fuel m p s 0 h lt ∙ ap some (omega arith)
