-- ===== src/PathName/Parse.antt =====
-- fs/fs.c: path_parse splits off the first component.
use the_one_os.Common.{
  ℕ, zero, suc, ◌+◌, ◌-◌, ◌<◌, ◌≤◌, ◌≡◌, refl, ◌≢◌, ◌⊎◌, inl, inr, true, false, ◌||◌, Option, some,
  List, [], ◌∷◌, ◌==◌, if◌then◌else◌, Memory, store, length, arith, ap, ◌>>=◌, Bool-cases,
}
use the_one_os.CString.{IsStr, SameBut}
use the_one_os.CString.Copy.{IsStr-frame}
use the_one_os.PathName.{slash, skip_loop, name_loop, path_parse}

-- The path behind its leading slashes; its first component; what stands behind that.
abbrev pub behind_slashes : List ℕ → List ℕ
behind_slashes [] = []
behind_slashes (c ∷ cs) = if c == slash then behind_slashes cs else c ∷ cs

abbrev pub first_name : List ℕ → List ℕ
first_name [] = []
first_name (c ∷ cs) = if c == slash then [] else c ∷ first_name cs

abbrev pub behind_name : List ℕ → List ℕ
behind_name [] = []
behind_name (c ∷ cs) = if c == slash then c ∷ cs else behind_name cs

pub length-behind_slashes : (s : List ℕ) → length (behind_slashes s) ≤ length s
length-behind_slashes [] = omega arith
length-behind_slashes (c ∷ cs) = ground (arith, length-behind_slashes cs)

pub length-first_name : (s : List ℕ) → length (first_name s) + length (behind_name s) ≡ length s
length-first_name [] = refl
length-first_name (c ∷ cs) = ground (arith, length-first_name cs)

-- A string that begins with a slash, from its second character on.
skip_loop_lem :
    (fuel : ℕ) (m : Memory) (p : ℕ) (s : List ℕ)
    → IsStr m (p + 1) s
    → length s < fuel
    → (q : ℕ) × (skip_loop fuel m p ≡ some q)
      × IsStr m q (behind_slashes s)
      × (p + 1 + length s ≡ q + length (behind_slashes s))
unfolding skip_loop
skip_loop_lem zero m p s h lt = absurd (omega arith)
skip_loop_lem (suc fuel) m p [] h lt = (p + 1, ground arith, h, omega arith)
skip_loop_lem (suc fuel) m p (c ∷ cs) h lt = elim (Bool-cases (c == slash)) [
  | inl e ↦
      let (q, r, str, len) = skip_loop_lem fuel m (p + 1) cs h.2 (omega arith) in
      (q, rw (h.0, e) r, rw e str, rw e (omega arith))
  | inr e ↦ (p + 1, rw (h.0, e) refl, rw e h, rw e refl)
]

-- The copy of the component `name` of the path at `p` has been made: the path's rest is left to read.
abbrev pub Parsed : Memory → Option (ℕ × Memory) → ℕ → List ℕ → List ℕ → ℕ → Type 0
Parsed m r buffer name rest end =
    (p' : ℕ) × (m' : Memory) × (r ≡ some (p', m'))
    × IsStr m' p' rest
    × IsStr m' buffer name
    × SameBut m m' buffer (buffer + length name)
    × (p' + length rest ≡ end)

-- A buffer of `w` bytes and a zero that does not overlap a path of `len` characters.
abbrev pub Apart : ℕ → ℕ → ℕ → ℕ → Type 0
Apart p len w buffer = (buffer + w < p) ⊎ (p + len < buffer)

name_cons :
    (fuel : ℕ) (m : Memory) (p buffer c : ℕ) (name rest : List ℕ) (end : ℕ)
    → m p ≡ c
    → c ≢ 0
    → (c == slash) ≡ false
    → Parsed
        (store m buffer (m p))
        (name_loop fuel (store m buffer (m p)) (p + 1) (buffer + 1))
        (buffer + 1)
        name
        rest
        end
    → Parsed m (name_loop (suc fuel) m p buffer) buffer (c ∷ name) rest end
unfolding name_loop
name_cons fuel m p buffer c name rest end h ne plain (p', m', e, left, copy, same, len) = (
  p',
  m',
  ground (arith, h),
  left,
  (ground (arith, same buffer), ne, copy),
  λ a. ground (arith, same a),
  len,
)

name_stop :
    (fuel : ℕ) (m : Memory) (p buffer w : ℕ) (s : List ℕ)
    → IsStr m p s
    → ((m p == slash) || (m p == 0)) ≡ true
    → Apart p (length s) w buffer
    → Parsed m (name_loop (suc fuel) m p buffer) buffer [] s (p + length s)
unfolding name_loop
name_stop fuel m p buffer w s h stop apart = (
  p,
  store m buffer 0,
  rw stop refl,
  IsStr-frame m (store m buffer 0) buffer buffer p s h (λ a. ground arith) (ground arith),
  ground arith,
  λ a. ground arith,
  refl,
)

name_loop_lem :
    (fuel : ℕ) (m : Memory) (p buffer w : ℕ) (s : List ℕ)
    → IsStr m p s
    → Apart p (length s) w buffer
    → length (first_name s) ≤ w
    → length s < fuel
    → Parsed m (name_loop fuel m p buffer) buffer (first_name s) (behind_name s) (p + length s)
name_loop_lem zero m p buffer w s h apart fits lt = absurd (omega arith)
name_loop_lem (suc fuel) m p buffer w [] h apart fits lt =
    name_stop fuel m p buffer w [] h (ground arith) apart
name_loop_lem (suc fuel) m p buffer w (c ∷ cs) h apart fits lt = elim (Bool-cases (c == slash)) [
  | inl e ↦ rw e (name_stop fuel m p buffer w (c ∷ cs) h (rw (h.0, e) refl) apart)
  | inr e ↦
      let fits' : suc (length (first_name cs)) ≤ w = rw e at fits in
      let end : p + 1 + length cs ≡ p + suc (length cs) = omega arith in
      rw e (
        name_cons fuel m p buffer c (first_name cs) (behind_name cs) (p + suc (length cs)) h.0 h.1 e
          (rw end at (
            name_loop_lem fuel (store m buffer (m p)) (p + 1) (buffer + 1) (w - 1) cs
              (IsStr-frame m (store m buffer (m p)) buffer buffer (p + 1) cs h.2 (λ a. ground arith)
                (ground arith))
              (ground (arith, apart, fits')) (omega (arith, fits')) (omega arith))))
]

parse-start :
    (fuel : ℕ) (m : Memory) (p buffer q : ℕ)
    → (if m p == slash then skip_loop fuel m p else some p) ≡ some q
    → path_parse fuel m p buffer ≡ name_loop fuel m q buffer
unfolding path_parse
parse-start fuel m p buffer q e = ap (λ o. o >>= λ start. name_loop fuel m start buffer) e

-- Where path_parse begins to copy.
start_lem :
    (fuel : ℕ) (m : Memory) (p : ℕ) (s : List ℕ)
    → IsStr m p s
    → length s < fuel
    → (q : ℕ) × ((if m p == slash then skip_loop fuel m p else some p) ≡ some q)
      × IsStr m q (behind_slashes s)
      × (p + length s ≡ q + length (behind_slashes s))
start_lem fuel m p [] h lt = (p, ground arith, h, refl)
start_lem fuel m p (c ∷ cs) h lt = elim (Bool-cases (c == slash)) [
  | inl e ↦
      let (q, r, str, len) = skip_loop_lem fuel m p cs h.2 (omega arith) in
      (q, rw (h.0, e) r, rw e str, rw e (omega arith))
  | inr e ↦ (p, rw (h.0, e) refl, rw e h, rw e refl)
]

pub Apart-start :
    (p q len len' w buffer : ℕ)
    → Apart p len w buffer
    → p + len ≡ q + len'
    → len' ≤ len
    → Apart q len' w buffer
Apart-start p q len len' w buffer (inl lt) e le = inl (omega arith)
Apart-start p q len len' w buffer (inr lt) e le = inr (omega arith)

pub path_parse_lem :
    (fuel : ℕ) (m : Memory) (p buffer w : ℕ) (s : List ℕ)
    → IsStr m p s
    → Apart p (length s) w buffer
    → length (first_name (behind_slashes s)) ≤ w
    → length s < fuel
    → Parsed m
        (path_parse fuel m p buffer)
        buffer
        (first_name (behind_slashes s))
        (behind_name (behind_slashes s))
        (p + length s)
path_parse_lem fuel m p buffer w s h apart fits lt =
    let (q, e, str, len) = start_lem fuel m p s h lt in
    rw (parse-start fuel m p buffer q e, len)
      (name_loop_lem fuel m q buffer w (behind_slashes s) str
        (Apart-start p q (length s) (length (behind_slashes s)) w buffer apart len
          (length-behind_slashes s))
        fits (omega (arith, length-behind_slashes s)))
