-- ===== src/DList/Chain.antt =====
-- lib/list.c: what it means that the pointers form a list, and how a change of two pointers keeps it.
use the_one_os.Common.{
  ℕ, ◌≡◌, refl, true, false, ◌||◌, List, [], ◌∷◌, ◌++◌, arith, ◌==◌, if◌then◌else◌, has,
  append_assoc,
}
use the_one_os.DList.{Links, DList}

-- From `a` the `next` pointers lead through `xs` to `b`, and the `prev` pointers lead back.
abbrev pub Chain : Links → ℕ → List ℕ → ℕ → Type 0
Chain h a [] b = (h.next a ≡ b) × (h.prev b ≡ a)
Chain h a (x ∷ xs) b = (h.next a ≡ x) × (h.prev x ≡ a) × Chain h x xs b

abbrev pub IsDistinct : List ℕ → Type 0
IsDistinct [] = Unit {0}
IsDistinct (x ∷ xs) = (has x xs ≡ false) × IsDistinct xs

-- The list that begins after the head and ends before the tail holds the elements `xs`, in order.
pub record IsDList (h : Links) (l : DList) (xs : List ℕ) : Type 0 where
  pub chain : Chain h l.head xs l.tail
  pub distinct : IsDistinct (l.head ∷ (xs ++ l.tail ∷ []))

-- The first of `ys`, or the end `b` of the list.
abbrev pub first_or : List ℕ → ℕ → ℕ
first_or [] b = b
first_or (y ∷ ys) b = y

pub has-append : (a : ℕ) (xs ys : List ℕ) → has a (xs ++ ys) ≡ (has a xs || has a ys)
has-append a [] ys = refl
has-append a (x ∷ xs) ys = ground (arith, has-append a xs ys)

pub has-first_or : (xs ys : List ℕ) (b : ℕ) → has (first_or ys b) ((xs ++ ys) ++ b ∷ []) ≡ true
has-first_or [] [] b = ground arith
has-first_or [] (y ∷ ys) b = ground arith
has-first_or (x ∷ xs) ys b = ground (arith, has-first_or xs ys b)

-- A change that spares the pointers of a chain keeps it.
pub frame :
    (h h' : Links) (a : ℕ) (xs : List ℕ) (b : ℕ)
    → Chain h a xs b
    → ((p : ℕ) → has p (a ∷ xs) ≡ true → h'.next p ≡ h.next p)
    → ((p : ℕ) → has p (xs ++ b ∷ []) ≡ true → h'.prev p ≡ h.prev p)
    → Chain h' a xs b
frame h h' a [] b c n p = ground (arith, n a, p b)
frame h h' a (x ∷ xs) b c n p = (
  ground (arith, n a),
  ground (arith, p x),
  frame h h' x xs b c.2 (λ q i. n q (ground arith)) (λ q i. p q (ground arith)),
)

pub next-mem : (h : Links) (a : ℕ) (xs : List ℕ) (b : ℕ) → Chain h a xs b → h.next a ≡ first_or xs b
next-mem h a [] b c = c.0
next-mem h a (x ∷ xs) b c = c.0

-- The element before the first of `ys` is `a` or among `xs`.
pub prev-mem :
    (h : Links) (a : ℕ) (xs ys : List ℕ) (b : ℕ)
    → Chain h a (xs ++ ys) b
    → has (h.prev (first_or ys b)) (a ∷ xs) ≡ true
prev-mem h a [] [] b c = ground arith
prev-mem h a [] (y ∷ ys) b c = ground arith
prev-mem h a (x ∷ xs) ys b c = ground (arith, prev-mem h x xs ys b c.2)

-- The element after `e` is the first of those behind it.
pub next-of :
    (h : Links) (a : ℕ) (xs : List ℕ) (e : ℕ) (ys : List ℕ) (b : ℕ)
    → Chain h a (xs ++ e ∷ ys) b
    → h.next e ≡ first_or ys b
next-of h a [] e ys b c = next-mem h e ys b c.2
next-of h a (x ∷ xs) e ys b c = next-of h x xs e ys b c.2

-- Two pointers redirected so that `e` stands before `c`.
module _ (h h' : Links) (c e : ℕ) where
  module _
      (next' : (p : ℕ) → h'.next p ≡ (if p == h.prev c then e else if p == e then c else h.next p))
      (prev' : (p : ℕ)
        → h'.prev p ≡ (if p == c then e else if p == e then h.prev c else h.prev p)) where
    insert_here :
        (a : ℕ) (zs : List ℕ) (b : ℕ)
        → c ≡ first_or zs b
        → Chain h a zs b
        → IsDistinct (a ∷ (zs ++ b ∷ []))
        → has e (a ∷ (zs ++ b ∷ [])) ≡ false
        → Chain h' a (e ∷ zs) b
    insert_here a [] b eq ch d out = ground (arith, next' a, prev' e, next' e, prev' c)
    insert_here a (z ∷ zs) b eq ch d out = (
      ground (arith, next' a),
      ground (arith, prev' e),
      (
        ground (arith, next' e),
        ground (arith, prev' z),
        frame h h' z zs b ch.2 (λ p i. ground (arith, next' p, has-append p zs (b ∷ [])))
            (λ p i. ground (arith, prev' p)),
      ),
    )

    pub insert-Chain :
        (a : ℕ) (xs ys : List ℕ) (b : ℕ)
        → c ≡ first_or ys b
        → Chain h a (xs ++ ys) b
        → IsDistinct (a ∷ ((xs ++ ys) ++ b ∷ []))
        → has e (a ∷ ((xs ++ ys) ++ b ∷ [])) ≡ false
        → Chain h' a (xs ++ e ∷ ys) b
    insert-Chain a [] ys b eq ch d out = insert_here a ys b eq ch d out
    insert-Chain a (x ∷ xs) ys b eq ch d out = (
      ground (
        arith,
        next' a,
        prev-mem h x xs ys b ch.2,
        has-append (h.prev c) (xs ++ ys) (b ∷ []),
        has-append (h.prev c) xs ys,
      ),
      ground (arith, prev' x, has-first_or xs ys b),
      insert-Chain x xs ys b eq ch.2 d.1 (ground arith),
    )

-- Two pointers redirected so that `e` is passed over.
module _ (h h' : Links) (e : ℕ) where
  module _ (next' : (p : ℕ) → h'.next p ≡ (if p == h.prev e then h.next e else h.next p))
      (prev' : (p : ℕ) → h'.prev p ≡ (if p == h.next e then h.prev e else h.prev p)) where
    remove_here :
        (a : ℕ) (zs : List ℕ) (b : ℕ)
        → Chain h a (e ∷ zs) b
        → IsDistinct (a ∷ e ∷ (zs ++ b ∷ []))
        → Chain h' a zs b
    remove_here a [] b ch d = ground (arith, next' a, prev' b)
    remove_here a (z ∷ zs) b ch d = (
      ground (arith, next' a),
      ground (arith, prev' z),
      frame h h' z zs b ch.2.2 (λ p i. ground (arith, next' p, has-append p zs (b ∷ [])))
          (λ p i. ground (arith, prev' p)),
    )

    pub remove-Chain :
        (a : ℕ) (xs ys : List ℕ) (b : ℕ)
        → Chain h a (xs ++ e ∷ ys) b
        → IsDistinct (a ∷ ((xs ++ e ∷ ys) ++ b ∷ []))
        → Chain h' a (xs ++ ys) b
    remove-Chain a [] ys b ch d = remove_here a ys b ch d
    remove-Chain a (x ∷ xs) ys b ch d = (
      ground (
        arith,
        next' a,
        prev-mem h x xs (e ∷ ys) b ch.2,
        has-append (h.prev e) (xs ++ e ∷ ys) (b ∷ []),
        has-append (h.prev e) xs (e ∷ ys),
      ),
      ground (
        arith,
        prev' x,
        next-of h x xs e ys b ch.2,
        has-append (h.next e) (xs ++ e ∷ ys) (b ∷ []),
        has-first_or (xs ++ e ∷ []) ys b,
        append_assoc xs (e ∷ []) ys,
      ),
      remove-Chain x xs ys b ch.2 d.1,
    )
