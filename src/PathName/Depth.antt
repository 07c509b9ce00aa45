-- ===== src/PathName/Depth.antt =====
-- fs/fs.c: path_depth_cnt counts the components of a path.
use the_one_os.Common.{
  ℕ, zero, suc, ◌+◌, ◌≤◌, ◌<◌, ◌≡◌, refl, ◌≢◌, ◌⊎◌, inl, inr, Bool, true, false, Option, some, List,
  [], ◌∷◌, ◌==◌, if◌then◌else◌, Memory, length, arith, ap, ◌∙◌, sym, ◌>>=◌, Bool-cases, subst,
}
use the_one_os.CString.{IsStr}
use the_one_os.PathName.{
  slash, max_file_name_len, names_fit, ends_within, parse_name, depth_loop, path_depth_cnt,
}
use the_one_os.PathName.Fits.{fit-behind_slashes, fit-first, fit-behind, ends_within-IsStr}
use the_one_os.PathName.Parse.{
  behind_slashes, first_name, behind_name, length-behind_slashes, length-first_name, Apart,
  Apart-start, Parsed, path_parse_lem,
}

-- The components of a path: the places where a character other than a slash follows a slash or nothing.
abbrev pub depth_of : Bool → List ℕ → ℕ
depth_of at_start [] = 0
depth_of at_start (c ∷ cs) =
    if c == slash then depth_of true cs else (if at_start then 1 else 0) + depth_of false cs

pub depth-behind_slashes : (s : List ℕ) → depth_of true (behind_slashes s) ≡ depth_of true s
depth-behind_slashes [] = refl
depth-behind_slashes (c ∷ cs) = ground (arith, depth-behind_slashes cs)

pub depth-behind_name : (s : List ℕ) → depth_of true (behind_name s) ≡ depth_of false s
depth-behind_name [] = refl
depth-behind_name (c ∷ cs) = ground (arith, depth-behind_name cs)

pub slashes-cases :
    (s : List ℕ)
    → (behind_slashes s ≡ [])
      ⊎ ((c : ℕ) × (cs : List ℕ) × (behind_slashes s ≡ c ∷ cs) × ((c == slash) ≡ false))
slashes-cases [] = inl refl
slashes-cases (c ∷ cs) = elim (Bool-cases (c == slash)) [
  | inl e ↦ rw e (slashes-cases cs)
  | inr e ↦ inr (c, cs, rw e refl, e)
]

-- path_parse into the buffer of 16 bytes.
parse_name_lem :
    (fuel : ℕ) (m : Memory) (p buffer : ℕ) (s : List ℕ)
    → IsStr m p s
    → Apart p (length s) 15 buffer
    → names_fit 0 s ≡ true
    → length s < fuel
    → Parsed m
        (parse_name fuel m p buffer)
        buffer
        (first_name (behind_slashes s))
        (behind_name (behind_slashes s))
        (p + length s)
unfolding parse_name
parse_name_lem fuel m p buffer s h apart fits lt =
    let few : length (first_name (behind_slashes s)) ≤ 15 =
      omega (arith, fit-first 0 (behind_slashes s) (fit-behind_slashes s ∙ fits) (omega arith)) in
    let (p', m', e, left, copy, same, len) = path_parse_lem fuel m p buffer 15 s h apart few lt in
    let ends : ends_within max_file_name_len m' buffer ≡ true =
      ends_within-IsStr 16 m' buffer (first_name (behind_slashes s)) copy (omega (arith, few)) in
    (p', m', rw (e, ends) refl, left, copy, same, len)

-- The rest of the count, from the call of path_parse on.
count_from : ℕ → ℕ → Memory → ℕ → ℕ → ℕ → Option (ℕ × Memory)
count_from inner fuel m p buffer depth =
    parse_name inner m p buffer >>= λ (p', m'). depth_loop inner fuel m' p' buffer depth

abbrev pub Counts : Option (ℕ × Memory) → ℕ → Type 0
Counts r depth = (m : Memory) × (r ≡ some (depth, m))

after-parse :
    (inner fuel : ℕ) (m : Memory) (p buffer depth p' : ℕ) (m' : Memory)
    → parse_name inner m p buffer ≡ some (p', m')
    → count_from inner fuel m p buffer depth ≡ depth_loop inner fuel m' p' buffer depth
unfolding count_from
after-parse inner fuel m p buffer depth p' m' e =
    ap (λ o. o >>= λ (p', m'). depth_loop inner fuel m' p' buffer depth) e

loop-stops :
    (inner fuel : ℕ) (m : Memory) (p buffer depth : ℕ)
    → m buffer ≡ 0
    → depth_loop inner (suc fuel) m p buffer depth ≡ some (depth, m)
unfolding depth_loop
loop-stops inner fuel m p buffer depth e = ground (arith, e)

loop-goes :
    (inner fuel : ℕ) (m : Memory) (p buffer depth : ℕ)
    → m buffer ≢ 0
    → depth_loop inner (suc fuel) m p buffer depth ≡ count_from inner fuel m p buffer (depth + 1)
unfolding depth_loop count_from
loop-goes inner fuel m p buffer depth ne = ground (arith, ne)

one-char : (m : Memory) (a c : ℕ) (cs : List ℕ) → IsStr m a (c ∷ cs) → m a ≢ 0
one-char m a c cs (e, ne, rest) h = ne (sym e ∙ h)

sum_step :
    (s : List ℕ) (c : ℕ) (cs : List ℕ) (depth : ℕ)
    → behind_slashes s ≡ c ∷ cs
    → (c == slash) ≡ false
    → depth + 1 + depth_of true (behind_name cs) ≡ depth + depth_of true s
sum_step s c cs depth eq plain =
    omega (arith, depth-behind_name cs, sym (depth-behind_slashes s) ∙ ap (depth_of true) eq ∙ head)
  where
    head : depth_of true (c ∷ cs) ≡ 1 + depth_of false cs
    head = rw plain refl

count_from_lem :
    (fuel inner : ℕ) (m : Memory) (p buffer depth : ℕ) (s : List ℕ)
    → IsStr m p s
    → Apart p (length s) 15 buffer
    → names_fit 0 s ≡ true
    → length s < inner
    → length s < fuel
    → Counts (count_from inner fuel m p buffer depth) (depth + depth_of true s)
count_from_lem zero inner m p buffer depth s h apart fits lt lt' = absurd (omega arith)
count_from_lem (suc fuel) inner m p buffer depth s h apart fits lt lt' =
    let (p', m', e, left, copy, same, len) = parse_name_lem inner m p buffer s h apart fits lt in
    elim (slashes-cases s) [
      | inl empty ↦
          let none_left : depth_of true s ≡ 0 =
            sym (depth-behind_slashes s) ∙ ap (depth_of true) empty in
          let zero_first : m' buffer ≡ 0 = subst (λ t. IsStr m' buffer (first_name t)) empty copy in
          (
            m',
            after-parse inner (suc fuel) m p buffer depth p' m' e
                ∙ loop-stops inner fuel m' p' buffer depth zero_first
                ∙ ap (λ d. some (d, m')) (omega (arith, none_left)),
          )
      | inr (c, cs, eq, plain) ↦
          let name_eq : first_name (behind_slashes s) ≡ c ∷ first_name cs =
            ap first_name eq ∙ rw plain refl in
          let rest_eq : behind_name (behind_slashes s) ≡ behind_name cs =
            ap behind_name eq ∙ rw plain refl in
          let one_less : length (behind_name cs) < length s =
            omega (arith, length-behind_slashes s, ap length eq, length-first_name cs) in
          let left' : IsStr m' p' (behind_name cs) = subst (λ t. IsStr m' p' t) rest_eq left in
          let copy' : IsStr m' buffer (c ∷ first_name cs) =
            subst (λ t. IsStr m' buffer t) name_eq copy in
          let len' : p' + length (behind_name cs) ≡ p + length s =
            subst (λ t. p' + length t ≡ p + length s) rest_eq len in
          let fits_on : names_fit 0 (behind_name cs) ≡ true =
            subst (λ t. names_fit 0 t ≡ true) rest_eq
              (fit-behind 0 (behind_slashes s) (fit-behind_slashes s ∙ fits)) in
          let (m'', r) =
            count_from_lem fuel inner m' p' buffer (depth + 1) (behind_name cs) left'
              (Apart-start p p' (length s) (length (behind_name cs)) 15 buffer apart (sym len')
                (omega (arith, one_less)))
              fits_on (omega (arith, one_less)) (omega (arith, one_less)) in
          (
            m'',
            after-parse inner (suc fuel) m p buffer depth p' m' e
                ∙ loop-goes inner fuel m' p' buffer depth
                    (one-char m' buffer c (first_name cs) copy')
                ∙ r
                ∙ ap (λ d. some (d, m'')) (sum_step s c cs depth eq plain),
          )
    ]

-- path_depth_cnt ends, with the number of components: the places of the path where a character other
-- than a slash follows a slash or nothing. No component has more than 15 characters, so that it fits the
-- buffer of 16 bytes, which lies apart from the path.
pub path_depth_cnt_lem :
    (fuel : ℕ) (m : Memory) (p name : ℕ) (s : List ℕ)
    → p ≢ 0
    → IsStr m p s
    → Apart p (length s) 15 name
    → names_fit 0 s ≡ true
    → length s < fuel
    → Counts (path_depth_cnt fuel m p name) (depth_of true s)
unfolding path_depth_cnt count_from
path_depth_cnt_lem fuel m p name s ne h apart fits lt =
    let (m', r) = count_from_lem fuel fuel m p name 0 s h apart fits lt lt in
    (m', ground (arith, ne) ∙ r ∙ ap (λ d. some (d, m')) (omega arith))
