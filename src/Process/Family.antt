-- ===== src/Process/Family.antt =====
-- userprog/wait_exit.c: the searches among all threads, and the children that init adopts.
use mathlib.Core.Option.{some-injective, some-ne-none}
use the_one_os.Common.{
  ℕ, ◌≡◌, refl, Bool, true, false, ◌&&◌, ◌||◌, inl, inr, Option-cases, none, some, List, [], ◌∷◌,
  arith, ◌==◌, if◌then◌else◌, has, ap, ◌∙◌, sym, false≢true, ==_refl, ==_ne, ℕ_discrete, Bool-cases,
}
use the_one_os.DList.Walk.{find_first}
use the_one_os.Process.{World, Proc, adopt, set_proc}

pub find_first-some :
    (p : ℕ → Bool) (xs : List ℕ) (x : ℕ)
    → find_first p xs ≡ some x
    → (p x ≡ true) × (has x xs ≡ true)
find_first-some p [] x e = absurd (some-ne-none x (sym e))
find_first-some p (y ∷ ys) x e = elim (Bool-cases (p y)) [
  | inl t ↦
      let same : y ≡ x = some-injective y x (sym (rw t refl) ∙ e) in
      (ap p (sym same) ∙ t, ground (arith, same))
  | inr f ↦ let (h, i) = find_first-some p ys x (sym (rw f refl) ∙ e) in (h, ground (arith, i))
]

pub find_first-none :
    (p : ℕ → Bool) (xs : List ℕ) (x : ℕ) → find_first p xs ≡ none → has x xs ≡ true → p x ≡ false
find_first-none p [] x e i = absurd (false≢true i)
find_first-none p (y ∷ ys) x e i = elim (Bool-cases (p y)) [
  | inl t ↦ absurd (some-ne-none y (sym (rw t refl) ∙ e))
  | inr f ↦ elim (ℕ_discrete x y) [
    | yes same ↦ ap p same ∙ f
    | no ne ↦ find_first-none p ys x (sym (rw f refl) ∙ e) (sym (rw (==_ne x y ne) refl) ∙ i)
  ]
]

-- A search that has something to find finds something.
pub find_first-has :
    (p : ℕ → Bool) (xs : List ℕ) (x : ℕ)
    → has x xs ≡ true
    → p x ≡ true
    → (y : ℕ) × (find_first p xs ≡ some y) × (p y ≡ true) × (has y xs ≡ true)
find_first-has p xs x i t = elim (Option-cases (find_first p xs)) [
  | inl e ↦ absurd (false≢true (sym (find_first-none p xs x e i) ∙ t))
  | inr (y, e) ↦ let (t', i') = find_first-some p xs y e in (y, e, t', i')
]

pub find_first-same :
    (p q : ℕ → Bool) (xs : List ℕ) → ((x : ℕ) → p x ≡ q x) → find_first p xs ≡ find_first q xs
find_first-same p q [] same = refl
find_first-same p q (x ∷ xs) same = rw (same x, find_first-same p q xs same) refl

merged :
    (pp q p r : ℕ) (i h : Bool)
    → p ≡ (if i && (q == pp) then 1 else q)
    → r ≡ (if h && (p == pp) then 1 else p)
    → r ≡ (if (i || h) && (q == pp) then 1 else q)
merged pp q p r true true e e' = ground arith
merged pp q p r true false e e' = ground arith
merged pp q p r false true e e' = ground arith
merged pp q p r false false e e' = ground arith

abbrev pub with_proc : {F : Type 0} → World F → (ℕ → Proc) → World F
with_proc w f = record w { proc = f }

-- What init_adopt_a_child leaves as it is.
pub record IsRelated {F : Type 0} (w w' : World F) : Type 0 where
  pub rest : w' ≡ with_proc w w'.proc
  pub pid : (t : ℕ) → (w'.proc t).pid ≡ (w.proc t).pid
  pub exit_status : (t : ℕ) → (w'.proc t).exit_status ≡ (w.proc t).exit_status

module _ {F : Type 0} where
  abbrev adopted_one : World F → ℕ → ℕ → World F
  adopted_one w ppid x =
      if (w.proc x).parent_pid == ppid
      then set_proc w x (record (w.proc x) { parent_pid = 1 })
      else w

  adopted_one-parent :
      (w : World F) (ppid x t : ℕ)
      → ((adopted_one w ppid x).proc t).parent_pid
        ≡ (if (t == x) && ((w.proc t).parent_pid == ppid) then 1 else (w.proc t).parent_pid)
  adopted_one-parent w ppid x t = elim (ℕ_discrete t x) [
    | yes e ↦ rw e (ground arith)
    | no ne ↦ ground (arith, ne)
  ]

  -- The parent of a thread after the children of `ppid` have been given to init.
  pub adopt-parent :
      (w : World F) (ppid : ℕ) (xs : List ℕ) (t : ℕ)
      → ((adopt w ppid xs).proc t).parent_pid
        ≡ (if has t xs && ((w.proc t).parent_pid == ppid) then 1 else (w.proc t).parent_pid)
  unfolding adopt
  adopt-parent w ppid [] t = refl
  adopt-parent w ppid (x ∷ xs) t =
      merged ppid (w.proc t).parent_pid ((adopted_one w ppid x).proc t).parent_pid
        ((adopt (adopted_one w ppid x) ppid xs).proc t).parent_pid (t == x) (has t xs)
        (adopted_one-parent w ppid x t) (adopt-parent (adopted_one w ppid x) ppid xs t)

  adopted_one-IsRelated : (w : World F) (ppid x : ℕ) → IsRelated w (adopted_one w ppid x)
  adopted_one-IsRelated w ppid x = elim (ℕ_discrete (w.proc x).parent_pid ppid) [
    | yes e ↦ record {
      rest = rw (e, ==_refl) refl;
      pid = λ t. ground arith;
      exit_status = λ t. ground arith;
    }
    | no ne ↦ record {
      rest = rw (==_ne _ _ ne) refl;
      pid = λ t. ground arith;
      exit_status = λ t. ground arith;
    }
  ]

  pub adopt-IsRelated : (w : World F) (ppid : ℕ) (xs : List ℕ) → IsRelated w (adopt w ppid xs)
  unfolding adopt
  adopt-IsRelated w ppid [] = record { rest = refl; pid = λ t. refl; exit_status = λ t. refl }
  adopt-IsRelated w ppid (x ∷ xs) =
      let one = adopted_one-IsRelated w ppid x in
      let all = adopt-IsRelated (adopted_one w ppid x) ppid xs in
      record {
        rest =
            all.rest ∙ ap (λ z. with_proc z (adopt (adopted_one w ppid x) ppid xs).proc) one.rest;
        pid = λ t. all.pid t ∙ one.pid t;
        exit_status = λ t. all.exit_status t ∙ one.exit_status t;
      }
