-- ===== src/PathName/Fits.antt =====
-- fs/fs.c: the paths whose components fit the buffers of 16 bytes.
use the_one_os.Common.{
  ℕ, zero, suc, ◌+◌, ◌≤◌, ◌<◌, ◌≡◌, refl, true, ◌&&◌, List, [], ◌∷◌, ◌++◌, ◌==◌, ltb, Memory,
  length, arith, Bool-cases, inl, inr,
}
use the_one_os.CString.{IsStr}
use the_one_os.PathName.{slash, names_fit, ends_within}
use the_one_os.PathName.Parse.{behind_slashes, first_name, behind_name}

pub fit-behind_slashes : (s : List ℕ) → names_fit 0 (behind_slashes s) ≡ names_fit 0 s
fit-behind_slashes [] = refl
fit-behind_slashes (c ∷ cs) = elim (Bool-cases (c == slash)) [
  | inl e ↦ rw e (fit-behind_slashes cs)
  | inr e ↦ rw (e, e) refl
]

-- The first component has at most 15 characters, and the components behind it fit too.
pub fit-first :
    (n : ℕ) (t : List ℕ) → names_fit n t ≡ true → n ≤ 15 → n + length (first_name t) ≤ 15
fit-first n [] h le = omega arith
fit-first n (c ∷ cs) h le = elim (Bool-cases (c == slash)) [
  | inl e ↦ rw e (omega arith)
  | inr e ↦
      let (lt, fits) = room (rw e at h) in
      rw e (omega (arith, fit-first (n + 1) cs fits (omega (arith, lt))))
]
  where
    room : (ltb n 15 && names_fit (n + 1) cs) ≡ true → (n < 15) × (names_fit (n + 1) cs ≡ true)
    room h = ground arith

pub fit-behind : (n : ℕ) (t : List ℕ) → names_fit n t ≡ true → names_fit 0 (behind_name t) ≡ true
fit-behind n [] h = refl
fit-behind n (c ∷ cs) h = elim (Bool-cases (c == slash)) [
  | inl e ↦ rw (e, e) (rw e at h)
  | inr e ↦ rw e (fit-behind (n + 1) cs (inside (rw e at h)))
]
  where
    inside : (ltb n 15 && names_fit (n + 1) cs) ≡ true → names_fit (n + 1) cs ≡ true
    inside h = ground arith

pub fit-name : (n : ℕ) (t : List ℕ) → names_fit n t ≡ true → names_fit n (first_name t) ≡ true
fit-name n [] h = refl
fit-name n (c ∷ cs) h = elim (Bool-cases (c == slash)) [
  | inl e ↦ rw e refl
  | inr e ↦
      let h' : (ltb n 15 && names_fit (n + 1) cs) ≡ true = rw e at h in
      rw (e, e) (ground (arith, h', fit-name (n + 1) cs))
]

pub fit-append :
    (n : ℕ) (xs ys : List ℕ) → names_fit n (xs ++ slash ∷ ys) ≡ (names_fit n xs && names_fit 0 ys)
fit-append n [] ys = refl
fit-append n (x ∷ xs) ys = ground (arith, fit-append 0 xs ys, fit-append (n + 1) xs ys)

-- A string that is shorter than a buffer ends in it.
pub ends_within-IsStr :
    (n : ℕ) (m : Memory) (a : ℕ) (s : List ℕ)
    → IsStr m a s
    → length s < n
    → ends_within n m a ≡ true
unfolding ends_within
ends_within-IsStr zero m a s h lt = absurd (omega arith)
ends_within-IsStr (suc n) m a [] h lt = ground (arith, h)
ends_within-IsStr (suc n) m a (c ∷ cs) h lt =
    ground (arith, h.0, h.1, ends_within-IsStr n m (a + 1) cs h.2 (omega arith))
