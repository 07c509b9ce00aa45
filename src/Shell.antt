-- ===== src/Shell.antt =====
-- shell/shell.c: the command line.
pub mod Line
use the_one_os.Common.{
  ℕ, zero, suc, ◌+◌, ◌-◌, Bool, true, false, not, ◌&&◌, ◌||◌, Option, none, some, List, [], ◌∷◌,
  ◌==◌, ltb, if◌then◌else◌, Memory, store, update, minus_one, ◌>>=◌,
}

-- The loop of readline at `pos`. `input` has the characters that read gives, and read fails behind
-- them. A character is stored before the length is tested. `a` is the address that is looked at.
unfoldable pub readline_loop : ℕ → ℕ → Memory → ℕ → List ℕ → Memory
readline_loop buf count m pos [] a = m a
readline_loop buf count m pos (c ∷ input) a =
    let m1 = store m pos c in
    let erased = readline_loop buf count (store m1 pos 0) (pos - 1) input a in
    let at_start = readline_loop buf count m1 pos input a in
    let next = readline_loop buf count m1 (pos + 1) input a in
    if not (ltb (pos - buf) count)
    then m1 a
    else if (c == 10) || (c == 13)
    then store m1 pos 0 a
    else if c == 8
    then (if ltb buf pos then erased else at_start)
    else next

unfoldable pub readline : Memory → ℕ → ℕ → List ℕ → Memory
readline m buf count input = readline_loop buf count m buf input

-- `while(*next == token) next++;` and `while(*next && *next != token) next++;`, on fuel.
skip_token : ℕ → Memory → ℕ → ℕ → Option ℕ
skip_token zero m token next = none
skip_token (suc fuel) m token next =
    let rest = skip_token fuel m token (next + 1) in if m next == token then rest else some next

skip_word : ℕ → Memory → ℕ → ℕ → Option ℕ
skip_word zero m token next = none
skip_word (suc fuel) m token next =
    let rest = skip_word fuel m token (next + 1) in
    if (m next == 0) || (m next == token) then some next else rest

-- The loop of cmd_parse: the number of words or -1, the memory, and argv. An entry of argv behind its
-- end is one of the function.
parse_loop : ℕ → ℕ → Memory → ℕ → ℕ → (ℕ → ℕ) → Option (ℕ × Memory × (ℕ → ℕ))
unfolding skip_token skip_word
parse_loop zero token m next argc argv = none
parse_loop (suc fuel) token m next argc argv =
    let words = skip_token fuel m token next >>= λ word.
    let argv' = update argv argc word in
    let after = skip_word fuel m token word >>= λ behind.
    let m' = if m behind == 0 then m else store m behind 0 in
    let next' = if m behind == 0 then behind else behind + 1 in
    let rest = parse_loop fuel token m' next' (argc + 1) argv' in
    if ltb 16 argc then some (minus_one, m', argv') else rest in
    if m word == 0 then some (argc, m, argv) else after in
    if m next == 0 then some (argc, m, argv) else words

pub cmd_parse : ℕ → Memory → ℕ → (ℕ → ℕ) → ℕ → Option (ℕ × Memory × (ℕ → ℕ))
unfolding parse_loop
cmd_parse fuel m cmd_str argv token = parse_loop fuel token m cmd_str 0 argv
