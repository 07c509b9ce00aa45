-- ===== src/Tests/Commands.antt =====
-- shell/shell.c: the command `ls`.
use the_one_os.Common.{ℕ, ◌+◌, ◌<◌, ◌≡◌, ◌⊎◌, [], ◌∷◌, arith, Memory}
use the_one_os.CString.{IsStr}
use the_one_os.Shell.{readline}
use the_one_os.Shell.Line.{ArePlain, readline_lem}

abbrev zeros : Memory
zeros a = 0

ls-ArePlain : ArePlain (108 ∷ 115 ∷ [])
ls-ArePlain = (
  λ e. absurd (omega (arith, e)),
  λ e. absurd (omega (arith, e)),
  λ e. absurd (omega (arith, e)),
  λ e. absurd (omega (arith, e)),
  (
    λ e. absurd (omega (arith, e)),
    λ e. absurd (omega (arith, e)),
    λ e. absurd (omega (arith, e)),
    λ e. absurd (omega (arith, e)),
    tt,
  ),
)

readline_example :
    IsStr (readline zeros 0x1000 512 (108 ∷ 115 ∷ 10 ∷ [])) 0x1000 (108 ∷ 115 ∷ [])
    × ((a : ℕ)
        → (a < 0x1000) ⊎ (0x1000 + 2 < a)
        → readline zeros 0x1000 512 (108 ∷ 115 ∷ 10 ∷ []) a ≡ zeros a)
readline_example = readline_lem 0x1000 512 zeros (108 ∷ 115 ∷ []) [] ls-ArePlain (omega arith)
