-- ===== src/CString/Length.antt =====
-- lib/string.c: strlen and strcmp, against lists of bytes.
use the_one_os.Common.{
  ℕ, zero, suc, ◌+◌, ◌≡◌, refl, ◌<◌, ◌↔◌, ◌&&◌, some, List, [], ◌∷◌, ltb, ◌==◌, if◌then◌else◌,
  Memory, arith, length, leb, IsBytes, ℕ_discrete, ◌≤◌, ap, ◌∙◌,
}
use the_one_os.CString.{memset, after_zero, strlen, char_lt, strcmp, IsStr}

pub memset-at :
    (m : Memory) (dst value size a : ℕ)
    → memset m dst value size a ≡ (if leb dst a && ltb a (dst + size) then value else m a)
unfolding memset
memset-at m dst value zero a = ground arith
memset-at m dst value (suc size) a =
    ground (arith, memset-at (λ b. if b == dst then value else m b) (dst + 1) value size a)

pub after_zero_lem :
    (fuel : ℕ) (m : Memory) (p : ℕ) (s : List ℕ)
    → IsStr m p s
    → length s < fuel
    → after_zero fuel m p ≡ some (p + length s + 1)
unfolding after_zero
after_zero_lem zero m p s h lt = absurd (omega arith)
after_zero_lem (suc fuel) m p [] h lt = ground arith
after_zero_lem (suc fuel) m p (c ∷ cs) h lt =
    let t = h.2 in ground (arith, after_zero_lem fuel m (p + 1) cs t)

-- strlen ends within one more round than there are characters, and counts them.
pub strlen_lem :
    (fuel : ℕ) (m : Memory) (p : ℕ) (s : List ℕ)
    → IsStr m p s
    → length s < fuel
    → strlen fuel m p ≡ some (length s)
unfolding strlen
strlen_lem fuel m p s h lt = ground (arith, after_zero_lem fuel m p s h lt)

-- The order of strings by signed characters, as strcmp reports it.
abbrev pub compare_strings : List ℕ → List ℕ → ℕ
compare_strings [] [] = 0
compare_strings [] (d ∷ ds) = if char_lt 0 d then 255 else 1
compare_strings (c ∷ cs) [] = if char_lt c 0 then 255 else 1
compare_strings (c ∷ cs) (d ∷ ds) =
    if c == d then compare_strings cs ds else if char_lt c d then 255 else 1

abbrev pub AllBytes : List ℕ → Type 0
AllBytes [] = Unit {0}
AllBytes (c ∷ cs) = (c < 256) × AllBytes cs

-- strcmp ends within one more round than the first string has characters, and compares them.
pub strcmp_lem :
    (fuel : ℕ) (m : Memory) (a b : ℕ) (s t : List ℕ)
    → IsStr m a s
    → IsStr m b t
    → AllBytes s
    → AllBytes t
    → length s < fuel
    → strcmp fuel m a b ≡ some (compare_strings s t)
unfolding strcmp
strcmp_lem zero m a b s t hs ht bs bt lt = absurd (omega arith)
strcmp_lem (suc fuel) m a b [] [] hs ht bs bt lt = ground arith
strcmp_lem (suc fuel) m a b [] (d ∷ ds) hs ht bs bt lt = ground arith
strcmp_lem (suc fuel) m a b (c ∷ cs) [] hs ht bs bt lt = ground arith
strcmp_lem (suc fuel) m a b (c ∷ cs) (d ∷ ds) hs ht bs bt lt =
    ground (arith, strcmp_lem fuel m (a + 1) (b + 1) cs ds hs.2 ht.2 bs.1 bt.1)

compare_strings-eq : (s t : List ℕ) → (compare_strings s t ≡ 0) ↔ (s ≡ t)
compare_strings-eq [] [] = (λ _. refl, λ _. refl)
compare_strings-eq [] (d ∷ ds) = ground arith
compare_strings-eq (c ∷ cs) [] = ground arith
compare_strings-eq (c ∷ cs) (d ∷ ds) = ground (arith, compare_strings-eq cs ds)

-- strcmp returns 0 exactly for equal strings: that is what `!strcmp(a, b)` tests.
pub strcmp-zero :
    (fuel : ℕ) (m : Memory) (a b : ℕ) (s t : List ℕ)
    → IsStr m a s
    → IsStr m b t
    → AllBytes s
    → AllBytes t
    → length s < fuel
    → (r : ℕ) × (strcmp fuel m a b ≡ some r) × ((r ≡ 0) ↔ (s ≡ t))
strcmp-zero fuel m a b s t hs ht bs bt lt =
    (compare_strings s t, strcmp_lem fuel m a b s t hs ht bs bt lt, compare_strings-eq s t)

-- strcmp with a string `t` ends, whatever stands at `a`, and returns 0 exactly when `t` does.
pub strcmp-IsStr :
    (fuel : ℕ) (m : Memory) (a b : ℕ) (t : List ℕ)
    → IsBytes m
    → IsStr m b t
    → length t < fuel
    → (r : ℕ) × (strcmp fuel m a b ≡ some r) × ((r ≡ 0) ↔ IsStr m a t)
unfolding strcmp
strcmp-IsStr zero m a b t bytes ht lt = absurd (omega arith)
strcmp-IsStr (suc fuel) m a b [] bytes ht lt = elim (ℕ_discrete (m a) 0) [
  | yes e ↦ (0, ground (arith, e), (λ _. e, λ _. refl))
  | no ne ↦ (
    if char_lt (m a) (m b) then 255 else if char_lt (m b) (m a) then 1 else 0,
    ground (arith, ne),
    (λ z. absurd (ground (arith, z, ne, bytes a)), λ e. absurd (ne e)),
  )
]
strcmp-IsStr (suc fuel) m a b (c ∷ cs) bytes ht lt = elim (ℕ_discrete (m a) c) [
  | yes e ↦
      let (r, er, iff) = strcmp-IsStr fuel m (a + 1) (b + 1) cs bytes ht.2 (omega arith) in
      (r, ground (arith, e, er), (λ z. (e, ht.1, iff.0 z), λ h. iff.1 h.2))
  | no ne ↦ (
    if char_lt (m a) (m b) then 255 else if char_lt (m b) (m a) then 1 else 0,
    ground (arith, ne),
    (λ z. absurd (ground (arith, z, ne, bytes a, bytes b)), λ h. absurd (ne h.0)),
  )
]

-- A string stands where the same bytes do.
pub IsStr-same :
    (m m' : Memory) (p q : ℕ) (s : List ℕ)
    → ((j : ℕ) → j ≤ length s → m' (q + j) ≡ m (p + j))
    → IsStr m p s
    → IsStr m' q s
IsStr-same m m' p q [] same h = at_zero ∙ same 0 (omega arith) ∙ ap m p_zero ∙ h
  where
    at_zero : m' q ≡ m' (q + 0)
    at_zero = ap m' (omega arith)

    p_zero : p + 0 ≡ p
    p_zero = omega arith
IsStr-same m m' p q (c ∷ cs) same h = (
  at_zero ∙ same 0 (omega arith) ∙ ap m p_zero ∙ h.0,
  h.1,
  IsStr-same m m' (p + 1) (q + 1) cs
      (λ j le. ap m' (q_next j) ∙ same (1 + j) (omega arith) ∙ ap m (p_next j)) h.2,
)
  where
    at_zero : m' q ≡ m' (q + 0)
    at_zero = ap m' (omega arith)

    p_zero : p + 0 ≡ p
    p_zero = omega arith

    q_next : (j : ℕ) → q + 1 + j ≡ q + (1 + j)
    q_next j = omega arith

    p_next : (j : ℕ) → p + (1 + j) ≡ p + 1 + j
    p_next j = omega arith
