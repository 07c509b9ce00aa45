-- ===== src/Lookup/Path.antt =====
-- fs/fs.c: the components of a path.
use the_one_os.Common.{
  ℕ, zero, suc, ◌+◌, ◌<◌, ◌≤◌, ◌≡◌, refl, Bool, true, false, List, [], ◌∷◌, ◌++◌, ◌==◌,
  if◌then◌else◌, length, arith, ap, ◌∙◌, sym, subst, false≢true, Bool-cases, inl, inr, ◌⊎◌,
}
use the_one_os.PathName.{slash}
use the_one_os.PathName.Parse.{
  behind_slashes, first_name, behind_name, length-behind_slashes, length-first_name,
}
use the_one_os.PathName.Depth.{depth_of, depth-behind_slashes, depth-behind_name, slashes-cases}
use the_one_os.Lookup.{next_name, next_path, is_empty}

-- The names of a path, in order.
abbrev pub names_of : ℕ → List ℕ → List (List ℕ)
names_of zero s = []
names_of (suc fuel) s =
    let rest = names_of fuel (next_path s) in
    if is_empty (next_name s) then [] else next_name s ∷ rest

depth-first_name : (s : List ℕ) → depth_of false (first_name s) ≡ 0
depth-first_name [] = refl
depth-first_name (c ∷ cs) = ground (arith, depth-first_name cs)

pub depth-append :
    (b : Bool) (xs ys : List ℕ) → depth_of b (xs ++ slash ∷ ys) ≡ depth_of b xs + depth_of true ys
depth-append b [] ys = omega arith
depth-append b (x ∷ xs) ys = ground (arith, depth-append true xs ys, depth-append false xs ys)

-- What holds of a path behind its leading slashes when there is something.
abbrev Starts : List ℕ → Type 0
Starts t =
    (depth_of true (first_name t) ≡ 1)
    × (depth_of true t ≡ 1 + depth_of true (behind_name t))
    × (is_empty (first_name t) ≡ false)

cons-Starts : (c : ℕ) (cs : List ℕ) → (c == slash) ≡ false → Starts (c ∷ cs)
cons-Starts c cs ne = (
  ground (arith, ne, depth-first_name cs),
  rw ne (ground (arith, depth-behind_name cs)),
  rw ne refl,
)

-- A path that has a name has one more component than what stands behind it.
pub depth-next :
    (s : List ℕ)
    → is_empty (next_name s) ≡ false
    → (depth_of true (next_name s) ≡ 1)
      × (depth_of true s ≡ 1 + depth_of true (next_path s))
      × (length (next_name s) + length (next_path s) ≡ length (behind_slashes s))
depth-next s h = elim (slashes-cases s) [
  | inl e ↦ absurd (false≢true (sym h ∙ ap (λ t. is_empty (first_name t)) e))
  | inr (c, cs, e, ne) ↦
      let (one, more, some_name) = subst Starts (sym e) (cons-Starts c cs ne) in
      (one, sym (depth-behind_slashes s) ∙ more, length-first_name (behind_slashes s))
]

pub depth-none :
    (s : List ℕ) → is_empty (next_name s) ≡ true → (behind_slashes s ≡ []) × (depth_of true s ≡ 0)
depth-none s h = elim (slashes-cases s) [
  | inl e ↦ (e, sym (depth-behind_slashes s) ∙ ap (depth_of true) e)
  | inr (c, cs, e, ne) ↦
      let (one, more, some_name) = subst Starts (sym e) (cons-Starts c cs ne) in
      absurd (false≢true (sym some_name ∙ h))
]

-- Behind a name there is nothing, or a slash.
behind-shorter :
    (t : List ℕ)
    → (behind_name t ≡ []) ⊎ (length (behind_slashes (behind_name t)) + 1 ≤ length (behind_name t))
behind-shorter [] = inl refl
behind-shorter (c ∷ cs) = elim (Bool-cases (c == slash)) [
  | inl e ↦ inr (rw (e, e) (ground (arith, length-behind_slashes cs)))
  | inr e ↦ rw e (behind-shorter cs)
]

-- A path that has another name is shorter without its slashes.
pub next-shorter :
    (s : List ℕ)
    → is_empty (next_name (next_path s)) ≡ false
    → length (behind_slashes (next_path s)) + 1 ≤ length (next_path s)
next-shorter s h = elim (behind-shorter (behind_slashes s)) [
  | inl e ↦ absurd (false≢true (sym h ∙ ap (λ t. is_empty (next_name t)) e))
  | inr le ↦ le
]

pub name-positive : (t : List ℕ) → is_empty t ≡ false → 0 < length t
name-positive [] h = absurd (false≢true (sym h))
name-positive (c ∷ cs) h = omega arith

pub behind-behind : (s : List ℕ) → behind_slashes (behind_slashes s) ≡ behind_slashes s
behind-behind [] = refl
behind-behind (c ∷ cs) = elim (Bool-cases (c == slash)) [
  | inl e ↦ rw e (behind-behind cs)
  | inr e ↦ rw (e, e) refl
]

pub names-behind : (fuel : ℕ) (s : List ℕ) → names_of fuel (behind_slashes s) ≡ names_of fuel s
names-behind zero s = refl
names-behind (suc fuel) s =
    ap (λ t. if is_empty (first_name t) then [] else first_name t ∷ names_of fuel (behind_name t))
      (behind-behind s)

pub names-nil : (fuel : ℕ) (s : List ℕ) → behind_slashes s ≡ [] → names_of fuel s ≡ []
names-nil zero s e = refl
names-nil (suc fuel) s e =
    ap (λ t. if is_empty (first_name t) then [] else first_name t ∷ names_of fuel (behind_name t)) e
