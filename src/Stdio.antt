-- ===== src/Stdio.antt =====
-- lib/stdio.c: numbers as text, and the format of vsprintf.
pub mod Digits
use the_one_os.Common.{
  ℕ, zero, suc, ◌+◌, ◌-◌, ◌/◌, ◌%◌, ◌^◌, Bool, true, false, Option, none, some, List, [], ◌∷◌, ◌==◌,
  ltb, leb, if◌then◌else◌, Memory, store, sub32, ◌>>=◌, ◌>>◌,
}
use the_one_os.CString.{strcpy, strlen}

-- m < 10? m + '0': m - 10 + 'a'
abbrev pub digit_char : ℕ → ℕ
digit_char m = if ltb m 10 then m + b'0' else m - 10 + b'a'

-- The recursion takes fuel. The result is the memory and the moved pointer.
pub itoa : ℕ → Memory → ℕ → ℕ → ℕ → Option (Memory × ℕ)
itoa zero m value buf base = none
itoa (suc fuel) m value buf base =
    let higher = itoa fuel m (value / base) buf base in
    (if value / base == 0 then some (m, buf) else higher) >>= λ (m', buf').
    some (store m' buf' (digit_char (value % base)), buf' + 1)

-- `*buf_ptr++ = ch;`
abbrev put_char : Memory → ℕ → ℕ → Memory × ℕ
put_char m buf ch = (store m buf (ch % 256), buf + 1)

-- `case 'd'`: a negative argument is written with its sign.
abbrev put_int : ℕ → Memory → ℕ → ℕ → Option (Memory × ℕ)
put_int fuel m buf arg =
    if leb (2 ^ 31) arg
    then itoa fuel (store m buf b'-') (sub32 0 arg) (buf + 1) 10
    else itoa fuel m arg buf 10

abbrev put_str : ℕ → Memory → ℕ → ℕ → Option (Memory × ℕ)
put_str fuel m buf s = do m' ← strcpy fuel m buf s; len ← strlen fuel m' s; some (m', buf + len)

-- The next argument, and what is left. A format that asks for more than was passed is undefined.
abbrev va_arg : List ℕ → Option (ℕ × List ℕ)
va_arg [] = none
va_arg (a ∷ arg) = some (a, arg)

-- What the letter behind a percent sign writes, with the arguments that are left. Another letter
-- writes nothing.
put_arg : ℕ → Memory → ℕ → ℕ → List ℕ → Option ((Memory × ℕ) × List ℕ)
put_arg fuel m buf ch arg =
    if ch == b'%'
    then some (put_char m buf ch, arg)
    else if ch == b'c'
    then (va_arg arg >>= λ (a, rest). some (put_char m buf a, rest))
    else if ch == b's'
    then (va_arg arg >>= λ (a, rest). (put_str fuel m buf a >>= λ r. some (r, rest)))
    else if ch == b'd'
    then (va_arg arg >>= λ (a, rest). (put_int fuel m buf a >>= λ r. some (r, rest)))
    else if ch == b'x'
    then (va_arg arg >>= λ (a, rest). (itoa fuel m a buf 16 >>= λ r. some (r, rest)))
    else some ((m, buf), arg)

format_loop : ℕ → Memory → ℕ → ℕ → List ℕ → Option (Memory × ℕ)
unfolding put_arg
format_loop zero m buf format arg = none
format_loop (suc fuel) m buf format arg =
    let spec = put_arg (suc fuel) m buf (m (format + 1)) arg >>= λ (r, rest).
    format_loop fuel r.0 r.1 (format + 2) rest in
    let plain = format_loop fuel (store m buf (m format)) (buf + 1) (format + 1) arg in
    if m format == 0 then some (m, buf) else if m format == b'%' then spec else plain

pub vsprintf : ℕ → Memory → ℕ → ℕ → List ℕ → Option (ℕ × Memory)
unfolding format_loop
vsprintf fuel m buf format arg = do
  (m', buf_ptr) ← format_loop fuel m buf format arg
  let ended = store m' buf_ptr 0
  len ← strlen fuel ended buf
  some (len, ended)
