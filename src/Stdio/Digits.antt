-- ===== src/Stdio/Digits.antt =====
-- lib/stdio.c: itoa writes the digits of a number.
use the_one_os.Common.{
  ℕ, zero, suc, ◌+◌, ◌*◌, ◌/◌, ◌%◌, ◌<◌, ◌≤◌, ◌≡◌, refl, ◌≢◌, ◌⊎◌, inl, inr, Option, some, List, [],
  ◌∷◌, ◌++◌, Memory, store, arith, ap, ◌∙◌, sym, subst, length, ℕ_discrete,
}
use the_one_os.Stdio.{digit_char, itoa}

-- The number that the digits stand for, behind those that make up `high`.
abbrev pub number : ℕ → ℕ → List ℕ → ℕ
number base high [] = high
number base high (d ∷ ds) = number base (high * base + d) ds

abbrev pub AreDigits : ℕ → List ℕ → Type 0
AreDigits base [] = Unit {0}
AreDigits base (d ∷ ds) = (d < base) × AreDigits base ds

-- The characters of the digits stand at `p`.
abbrev pub Shows : Memory → ℕ → List ℕ → Type 0
Shows m p [] = Unit {0}
Shows m p (d ∷ ds) = (m p ≡ digit_char d) × Shows m (p + 1) ds

abbrev pub first_digit : List ℕ → ℕ
first_digit [] = 0
first_digit (d ∷ ds) = d

number-snoc :
    (base high : ℕ) (ds : List ℕ) (d : ℕ)
    → number base high (ds ++ d ∷ []) ≡ number base high ds * base + d
number-snoc base high [] d = refl
number-snoc base high (e ∷ ds) d = number-snoc base (high * base + e) ds d

AreDigits-snoc :
    (base : ℕ) (ds : List ℕ) (d : ℕ) → AreDigits base ds → d < base → AreDigits base (ds ++ d ∷ [])
AreDigits-snoc base [] d h lt = (lt, tt)
AreDigits-snoc base (e ∷ ds) d h lt = (h.0, AreDigits-snoc base ds d h.1 lt)

Shows-snoc :
    (m : Memory) (p : ℕ) (ds : List ℕ) (d : ℕ)
    → Shows m p ds
    → Shows (store m (p + length ds) (digit_char d)) p (ds ++ d ∷ [])
Shows-snoc m p [] d h = (ground arith, tt)
Shows-snoc m p (e ∷ ds) d h = (
  ground arith,
  subst (λ a. Shows (store m a (digit_char d)) (p + 1) (ds ++ d ∷ [])) (omega arith)
      (Shows-snoc m (p + 1) ds d h.1),
)

length-snoc : (ds : List ℕ) (d : ℕ) → length (ds ++ d ∷ []) ≡ length ds + 1
length-snoc [] d = refl
length-snoc (e ∷ ds) d = omega (arith, length-snoc ds d)

-- What the code divides by.
abbrev pub Base : ℕ → Type 0
Base base = (base ≡ 10) ⊎ (base ≡ 16)

-- The text of `value` has been written from `buf` to before `end`.
pub record IsWritten (m m' : Memory) (base value buf end : ℕ) (ds : List ℕ) : Type 0 where
  pub digits : AreDigits base ds
  pub value_of : number base 0 ds ≡ value
  pub shown : Shows m' buf ds
  pub end_at : end ≡ buf + length ds
  pub no_zero : (first_digit ds ≢ 0) ⊎ (ds ≡ value ∷ [])
  pub kept : (a : ℕ) → (a < buf) ⊎ (end ≤ a) → m' a ≡ m a

abbrev pub Written : Memory → ℕ → ℕ → ℕ → Option (Memory × ℕ) → Type 0
Written m base value buf r =
    (m' : Memory) × (end : ℕ) × (ds : List ℕ) × (r ≡ some (m', end))
    × IsWritten m m' base value buf end ds

itoa-last :
    (fuel : ℕ) (m : Memory) (value buf base : ℕ)
    → value / base ≡ 0
    → itoa (suc fuel) m value buf base ≡ some (store m buf (digit_char (value % base)), buf + 1)
unfolding itoa
itoa-last fuel m value buf base e = rw e refl

itoa-more :
    (fuel : ℕ) (m m' : Memory) (value buf base end : ℕ)
    → value / base ≢ 0
    → itoa fuel m (value / base) buf base ≡ some (m', end)
    → itoa (suc fuel) m value buf base ≡ some (store m' end (digit_char (value % base)), end + 1)
unfolding itoa
itoa-more fuel m m' value buf base end ne e = ground (arith, ne, e)

first-snoc : (ds : List ℕ) (d : ℕ) → first_digit ds ≢ 0 → first_digit (ds ++ d ∷ []) ≢ 0
first-snoc [] d h = absurd (h refl)
first-snoc (e ∷ ds) d h = h

no_zero_first :
    (ds : List ℕ) (v : ℕ) → v ≢ 0 → ((first_digit ds ≢ 0) ⊎ (ds ≡ v ∷ [])) → first_digit ds ≢ 0
no_zero_first ds v ne (inl h) = h
no_zero_first ds v ne (inr e) = λ h. ne (ap first_digit (sym e) ∙ h)

-- Division with remainder.
record IsDivided (n base : ℕ) : Type 0 where
  split : n / base * base + n % base ≡ n
  small : n % base < base
  shrinks : n / base ≢ 0 → n / base < n

divided : (n base : ℕ) → Base base → IsDivided n base
divided n base (inl e) =
    subst (IsDivided n) (sym e)
      (record { split = omega arith; small = omega arith; shrinks = λ ne. omega arith })
divided n base (inr e) =
    subst (IsDivided n) (sym e)
      (record { split = omega arith; small = omega arith; shrinks = λ ne. omega arith })

-- itoa ends within one more call than the value, in base 10 and 16. It writes the digits of the value,
-- without leading zeros, moves the pointer behind them, and changes no other address.
pub itoa_lem :
    (fuel : ℕ) (m : Memory) (value buf base : ℕ)
    → Base base
    → value < fuel
    → Written m base value buf (itoa fuel m value buf base)
itoa_lem zero m value buf base b lt = absurd (omega arith)
itoa_lem (suc fuel) m value buf base b lt =
    let d = divided value base b in
    elim (ℕ_discrete (value / base) 0) [
      | yes e ↦
          let one : value % base ≡ value = omega (arith, ap (λ v. v * base) e, d.split) in
          (
            store m buf (digit_char (value % base)),
            buf + 1,
            value ∷ [],
            itoa-last fuel m value buf base e,
            record {
              digits = (omega (arith, one, d.small), tt);
              value_of = omega arith;
              shown = (ground (arith, one), tt);
              end_at = refl;
              no_zero = inr refl;
              kept = λ a out. ground arith;
            },
          )
      | no ne ↦
          let (m', end, ds, r, w) =
            itoa_lem fuel m (value / base) buf base b (omega (arith, d.shrinks ne)) in
          (
            store m' end (digit_char (value % base)),
            end + 1,
            ds ++ value % base ∷ [],
            itoa-more fuel m m' value buf base end ne r,
            record {
              digits = AreDigits-snoc base ds (value % base) w.digits d.small;
              value_of =
                  number-snoc base 0 ds (value % base)
                  ∙ ap (λ v. v * base + value % base) w.value_of
                  ∙ d.split;
              shown =
                  subst
                    (λ a.
                      Shows (store m' a (digit_char (value % base))) buf (ds ++ value % base ∷ []))
                    (sym w.end_at) (Shows-snoc m' buf ds (value % base) w.shown);
              end_at = omega (arith, w.end_at, length-snoc ds (value % base));
              no_zero =
                  inl (first-snoc ds (value % base) (no_zero_first ds (value / base) ne w.no_zero));
              kept = λ a out. ground (arith, w.kept a, w.end_at);
            },
          )
    ]
