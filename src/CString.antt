-- ===== src/CString.antt =====
-- lib/string.c over the memory. A pointer is an address; the loops that stop at a zero byte take fuel,
-- and `none` means that it ran out. `char` is signed.
pub mod Copy
pub mod Length
pub mod Search
use the_one_os.Common.{
  ℕ, zero, suc, ◌+◌, ◌-◌, ◌%◌, ◌≡◌, ◌≢◌, ◌<◌, ◌≤◌, Bool, true, false, ◌&&◌, Option, none, some,
  List, [], ◌∷◌, ltb, ◌==◌, if◌then◌else◌, Memory, store, sub32, wrap32, minus_one, ◌>>=◌,
}

-- `while (size-- > 0) *dst++ = value;`
unfoldable pub memset : Memory → ℕ → ℕ → ℕ → Memory
memset m dst value zero = m
memset m dst value (suc size) = memset (store m dst value) (dst + 1) value size

pub memcpy : Memory → ℕ → ℕ → ℕ → Memory
memcpy m dst src zero = m
memcpy m dst src (suc size) = memcpy (store m dst (m src)) (dst + 1) (src + 1) size

-- The bytes are unsigned here. The result is an int32_t.
pub memcmp : Memory → ℕ → ℕ → ℕ → ℕ
memcmp m a b zero = 0
memcmp m a b (suc size) =
    let rest = memcmp m (a + 1) (b + 1) size in
    if m a == m b then rest else if ltb (m b) (m a) then 1 else minus_one

-- The memory after the copy; the pointer that is returned is `dst`.
pub strcpy : ℕ → Memory → ℕ → ℕ → Option Memory
strcpy zero m dst src = none
strcpy (suc fuel) m dst src =
    let m1 = store m dst (m src) in
    let rest = strcpy fuel m1 (dst + 1) (src + 1) in if m1 dst == 0 then some m1 else rest

-- `while (*str++);`: the address behind the zero byte.
pub after_zero : ℕ → Memory → ℕ → Option ℕ
after_zero zero m str = none
after_zero (suc fuel) m str =
    let rest = after_zero fuel m (str + 1) in if m str == 0 then some (str + 1) else rest

pub strlen : ℕ → Memory → ℕ → Option ℕ
unfolding after_zero
strlen fuel m str = do str' ← after_zero fuel m str; some (str' - str - 1)

-- a < b as signed chars, on their bit patterns.
abbrev pub char_lt : ℕ → ℕ → Bool
char_lt a b = ltb ((a + 128) % 256) ((b + 128) % 256)

-- The result is an int8_t, by its bit pattern.
pub strcmp : ℕ → Memory → ℕ → ℕ → Option ℕ
strcmp zero m a b = none
strcmp (suc fuel) m a b =
    let rest = strcmp fuel m (a + 1) (b + 1) in
    let result = some (if char_lt (m a) (m b) then 255 else if char_lt (m b) (m a) then 1 else 0) in
    if m a == 0 then result else if m a == m b then rest else result

-- A char against a uint8_t, both promoted to int: a char from 128 on is negative.
abbrev pub char_eq : ℕ → ℕ → Bool
char_eq c ch = (c == ch) && ltb c 128

-- The inner option is the pointer that is returned, `none` for NULL.
pub strchr : ℕ → Memory → ℕ → ℕ → Option (Option ℕ)
strchr zero m str ch = none
strchr (suc fuel) m str ch =
    let rest = strchr fuel m (str + 1) ch in
    if m str == 0 then some none else if char_eq (m str) ch then some (some str) else rest

strrchr_loop : ℕ → Memory → ℕ → ℕ → Option ℕ → Option (Option ℕ)
strrchr_loop zero m str ch last_char = none
strrchr_loop (suc fuel) m str ch last_char =
    let rest =
      strrchr_loop fuel m (str + 1) ch (if char_eq (m str) ch then some str else last_char) in
    if m str == 0 then some last_char else rest

pub strrchr : ℕ → Memory → ℕ → ℕ → Option (Option ℕ)
unfolding strrchr_loop
strrchr fuel m str ch = strrchr_loop fuel m str ch none

pub strcat : ℕ → Memory → ℕ → ℕ → Option Memory
unfolding after_zero
strcat fuel m dst src = do str ← after_zero fuel m dst; strcpy fuel m (str - 1) src

strchrs_loop : ℕ → Memory → ℕ → ℕ → ℕ → Option ℕ
strchrs_loop zero m p ch cnt = none
strchrs_loop (suc fuel) m p ch cnt =
    let rest = strchrs_loop fuel m (p + 1) ch (if char_eq (m p) ch then cnt + 1 else cnt) in
    if m p == 0 then some cnt else rest

pub strchrs : ℕ → Memory → ℕ → ℕ → Option ℕ
unfolding strchrs_loop
strchrs fuel m str ch = strchrs_loop fuel m str ch 0

-- The bytes `s`, none of them zero, stand at `p` with a zero behind them.
abbrev pub IsStr : Memory → ℕ → List ℕ → Type 0
IsStr m p [] = m p ≡ 0
IsStr m p (c ∷ cs) = (m p ≡ c) × (c ≢ 0) × IsStr m (p + 1) cs

-- `m'` differs from `m` at most at the addresses from `lo` to `hi`, the last one included.
abbrev pub SameBut : Memory → Memory → ℕ → ℕ → Type 0
SameBut m m' lo hi = (a : ℕ) → ((a < lo → m' a ≡ m a) × (hi < a → m' a ≡ m a))
