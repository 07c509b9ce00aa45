-- ===== src/CString/Copy.antt =====
-- lib/string.c: memcpy, strcpy and strcat, where the two regions do not overlap.
use the_one_os.Common.{
  ℕ, zero, suc, ◌+◌, ◌-◌, ◌≡◌, ◌≢◌, ◌<◌, ◌≤◌, ◌⊎◌, ◌∙◌, ◌&&◌, Option, some, List, [], ◌∷◌, ◌++◌,
  ltb, leb, if◌then◌else◌, Memory, store, arith, length, dec_le,
}
use the_one_os.CString.{memcpy, strcpy, strcat, IsStr, SameBut}
use the_one_os.CString.Length.{after_zero_lem}

-- A copy of bytes to a region that does not reach the source's later bytes: each target byte gets its
-- source byte, and no other address changes.
pub memcpy-at :
    (m : Memory) (dst src size a : ℕ)
    → ((dst ≤ src) ⊎ (src + size ≤ dst))
    → memcpy m dst src size a
      ≡ (if leb dst a && ltb a (dst + size) then m (src + (a - dst)) else m a)
unfolding memcpy
memcpy-at m dst src zero a apart = ground arith
memcpy-at m dst src (suc size) a apart = elim (dec_le (dst + 1) a) [
  | yes above ↦
      memcpy-at (store m dst (m src)) (dst + 1) (src + 1) size a (ground arith)
      ∙ ground (arith, eq above)
  | no below ↦
      memcpy-at (store m dst (m src)) (dst + 1) (src + 1) size a (ground arith)
      ∙ ground (arith, eq')
]
  where
    eq : dst + 1 ≤ a → src + 1 + (a - (dst + 1)) ≡ src + (a - dst)
    eq h = omega arith

    eq' : src + 0 ≡ src
    eq' = omega arith

-- A string keeps standing where it is while only other addresses change.
pub IsStr-frame :
    (m m' : Memory) (lo hi p : ℕ) (s : List ℕ)
    → IsStr m p s
    → SameBut m m' lo hi
    → ((p + length s < lo) ⊎ (hi < p))
    → IsStr m' p s
IsStr-frame m m' lo hi p [] h same out = ground (arith, same p)
IsStr-frame m m' lo hi p (c ∷ cs) h same out =
    (ground (arith, same p), h.1, IsStr-frame m m' lo hi (p + 1) cs h.2 same (ground arith))

-- What a copy of the string `s` to `dst` has done.
abbrev pub Copied : Memory → Option Memory → ℕ → List ℕ → Type 0
Copied m r dst s =
    (m' : Memory) × (r ≡ some m') × IsStr m' dst s × SameBut m m' dst (dst + length s)

strcpy_cons :
    (fuel : ℕ) (m : Memory) (dst src c : ℕ) (cs : List ℕ)
    → m src ≡ c
    → c ≢ 0
    → Copied
        (store m dst (m src))
        (strcpy fuel (store m dst (m src)) (dst + 1) (src + 1))
        (dst + 1)
        cs
    → Copied m (strcpy (suc fuel) m dst src) dst (c ∷ cs)
unfolding strcpy
strcpy_cons fuel m dst src c cs h ne (m', e, str, same) =
    (m', ground arith, (ground (arith, same dst), ne, str), λ a. ground (arith, same a))

-- strcpy ends, puts the string at the target, and changes no address but those of the copy.
pub strcpy_lem :
    (fuel : ℕ) (m : Memory) (dst src : ℕ) (s : List ℕ)
    → IsStr m src s
    → ((dst + length s < src) ⊎ (src + length s < dst))
    → length s < fuel
    → Copied m (strcpy fuel m dst src) dst s
strcpy_lem zero m dst src s h apart lt = absurd (omega arith)
strcpy_lem (suc fuel) m dst src [] h apart lt =
    unfold strcpy in (store m dst (m src), ground arith, ground arith, λ a. ground arith)
strcpy_lem (suc fuel) m dst src (c ∷ cs) h apart lt = strcpy_cons fuel m dst src c cs h.0 h.1 (
    strcpy_lem fuel (store m dst (m src)) (dst + 1) (src + 1) cs
      (IsStr-frame m (store m dst (m src)) dst dst (src + 1) cs h.2 (λ a. ground arith)
        (ground arith))
      (ground arith) (omega arith))

IsStr-prefix :
    (m m' : Memory) (p : ℕ) (s t : List ℕ)
    → IsStr m p s
    → ((a : ℕ) → a < p + length s → m' a ≡ m a)
    → IsStr m' (p + length s) t
    → IsStr m' p (s ++ t)
IsStr-prefix m m' p [] t h same ht = let e : p + 0 ≡ p = omega arith in rw e at ht
IsStr-prefix m m' p (c ∷ cs) t h same ht = (
  ground (arith, same p),
  h.1,
  IsStr-prefix m m' (p + 1) cs t h.2 (λ a lt. same a (omega arith))
      (let e : p + suc (length cs) ≡ p + 1 + length cs = omega arith in rw e at ht),
)

-- strcat ends, leaves the second string behind the first, and changes no address but those from the
-- first string's zero to the new one.
pub strcat_lem :
    (fuel : ℕ) (m : Memory) (dst src : ℕ) (s t : List ℕ)
    → IsStr m dst s
    → IsStr m src t
    → ((dst + length s + length t < src) ⊎ (src + length t < dst + length s))
    → length s < fuel
    → length t < fuel
    → (m' : Memory) × (strcat fuel m dst src ≡ some m')
      × IsStr m' dst (s ++ t)
      × SameBut m m' (dst + length s) (dst + length s + length t)
unfolding strcat
strcat_lem fuel m dst src s t hs ht apart lt lt' =
    finish (strcpy_lem fuel m (dst + length s) src t ht apart lt')
  where
    finish :
        Copied m (strcpy fuel m (dst + length s) src) (dst + length s) t
        → (m' : Memory) × (strcat fuel m dst src ≡ some m')
          × IsStr m' dst (s ++ t)
          × SameBut m m' (dst + length s) (dst + length s + length t)
    finish (m', e, str, same) = (
      m',
      let e' : dst + length s + 1 - 1 ≡ dst + length s = omega arith in
          rw (after_zero_lem fuel m dst s hs lt, e') e,
      IsStr-prefix m m' dst s t hs (λ a h. (same a).0 h) str,
      same,
    )
