-- ===== src/Shell/Line.antt =====
-- shell/shell.c: what readline stores.
use the_one_os.Common.{
  ℕ, ◌+◌, ◌-◌, ◌<◌, ◌≤◌, ◌≡◌, ◌≢◌, ◌⊎◌, List, [], ◌∷◌, ◌++◌, ◌==◌, if◌then◌else◌, arith, Memory,
  length, refl,
}
use the_one_os.CString.{IsStr}
use the_one_os.CString.Length.{IsStr-same}
use the_one_os.Shell.{readline_loop, readline}

readline_loop-bound :
    (buf count : ℕ) (input : List ℕ) (m : Memory) (pos a : ℕ)
    → buf ≤ pos
    → pos ≤ buf + count
    → (a < buf) ⊎ (buf + count < a)
    → readline_loop buf count m pos input a ≡ m a
unfolding readline_loop
readline_loop-bound buf count [] m pos a lo hi out = refl
readline_loop-bound buf count (c ∷ input) m pos a lo hi out =
    let m1 : Memory = λ x. if x == pos then c else m x in
    ground (
      arith,
      readline_loop-bound buf count input m1 (pos + 1) a,
      readline_loop-bound buf count input m1 pos a,
      readline_loop-bound buf count input (λ x. if x == pos then 0 else m1 x) (pos - 1) a,
    )

-- Characters that are stored as they are.
abbrev pub ArePlain : List ℕ → Type 0
ArePlain [] = Unit {0}
ArePlain (c ∷ cs) = (c ≢ 0) × (c ≢ 8) × (c ≢ 10) × (c ≢ 13) × ArePlain cs

readline_loop-plain :
    (buf count : ℕ) (s rest : List ℕ) (m : Memory) (pos : ℕ)
    → ArePlain s
    → buf ≤ pos
    → pos + length s < buf + count
    → IsStr (readline_loop buf count m pos (s ++ (10 ∷ rest))) pos s
      × ((a : ℕ)
          → (a < pos) ⊎ (pos + length s < a)
          → readline_loop buf count m pos (s ++ (10 ∷ rest)) a ≡ m a)
unfolding readline_loop
readline_loop-plain buf count [] rest m pos plain lo hi =
    (ground arith, λ a out. ground (arith, out))
readline_loop-plain buf count (c ∷ cs) rest m pos plain lo hi =
    let m1 : Memory = λ x. if x == pos then c else m x in
    let (str, frame) =
      readline_loop-plain buf count cs rest m1 (pos + 1) plain.4 (omega arith) (omega arith) in
    (
      (
        ground (arith, plain, frame pos),
        plain.0,
        IsStr-same (readline_loop buf count m1 (pos + 1) (cs ++ (10 ∷ rest)))
            (readline_loop buf count m pos (c ∷ (cs ++ (10 ∷ rest)))) (pos + 1) (pos + 1) cs
            (λ j le. ground (arith, plain)) str,
      ),
      λ a out. ground (arith, plain, frame a, out),
    )

-- readline changes no address but those of the buffer and the one behind it, whatever is typed.
pub readline-bound :
    (buf count : ℕ) (m : Memory) (input : List ℕ) (a : ℕ)
    → (a < buf) ⊎ (buf + count < a)
    → readline m buf count input a ≡ m a
unfolding readline
readline-bound buf count m input a out =
    readline_loop-bound buf count input m buf a (omega arith) (omega arith) out

-- A line of characters that are not erased, shorter than the buffer, is stored as a string, and no other
-- address changes.
pub readline_lem :
    (buf count : ℕ) (m : Memory) (s rest : List ℕ)
    → ArePlain s
    → length s < count
    → IsStr (readline m buf count (s ++ (10 ∷ rest))) buf s
      × ((a : ℕ)
          → (a < buf) ⊎ (buf + length s < a)
          → readline m buf count (s ++ (10 ∷ rest)) a ≡ m a)
unfolding readline
readline_lem buf count m s rest plain lt =
    readline_loop-plain buf count s rest m buf plain (omega arith) (omega arith)
