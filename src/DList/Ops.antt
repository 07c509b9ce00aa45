-- ===== src/DList/Ops.antt =====
-- lib/list.c: insertion and removal do to the pointers what their names say of the list.
use the_one_os.Common.{
  ℕ, ◌≡◌, refl, ◌≢◌, true, false, List, [], ◌∷◌, ◌++◌, append-nil, append_assoc, arith, has,
}
use the_one_os.Interrupt.{set_status-disable}
use the_one_os.DList.{
  Links, DList, list_init, list_insert_before, list_push, list_append, list_remove, list_pop,
  list_empty,
}
use the_one_os.DList.Chain.{
  IsDistinct, IsDList, first_or, has-append, has-first_or, next-mem, frame, insert-Chain,
  remove-Chain,
}

insert-IsDistinct :
    (xs : List ℕ) (e : ℕ) (ys : List ℕ)
    → IsDistinct (xs ++ ys)
    → has e (xs ++ ys) ≡ false
    → IsDistinct (xs ++ e ∷ ys)
insert-IsDistinct [] e ys d out = (out, d)
insert-IsDistinct (x ∷ xs) e ys d out = (
  ground (arith, has-append x xs ys, has-append x xs (e ∷ ys)),
  insert-IsDistinct xs e ys d.1 (ground arith),
)

remove-IsDistinct :
    (xs : List ℕ) (e : ℕ) (ys : List ℕ) → IsDistinct (xs ++ e ∷ ys) → IsDistinct (xs ++ ys)
remove-IsDistinct [] e ys d = d.1
remove-IsDistinct (x ∷ xs) e ys d =
    (ground (arith, has-append x xs ys, has-append x xs (e ∷ ys)), remove-IsDistinct xs e ys d.1)

-- The list after list_init is empty.
pub list_init-IsDList : (h : Links) (l : DList) → l.head ≢ l.tail → IsDList (list_init h l) l []
unfolding list_init
list_init-IsDList h l ne = record { chain = ground arith; distinct = ground arith }

module _ {h : Links} {l : DList} (xs : List ℕ) (e : ℕ) (ys : List ℕ) where
  -- list_insert_before puts a new element before the first element of `ys`, or last if there is none.
  pub insert_before-IsDList :
      IsDList h l (xs ++ ys)
      → has e (l.head ∷ ((xs ++ ys) ++ l.tail ∷ [])) ≡ false
      → IsDList (list_insert_before h (first_or ys l.tail) e) l (xs ++ e ∷ ys)
  unfolding list_insert_before
  insert_before-IsDList v out = record {
    chain =
        insert-Chain h (list_insert_before h (first_or ys l.tail) e) (first_or ys l.tail) e
          (λ p. ground (arith, has-first_or xs ys l.tail)) (λ p. ground arith) l.head xs ys l.tail
          refl v.chain v.distinct out;
    distinct = rw (append_assoc xs (e ∷ ys) (l.tail ∷ [])) (
        insert-IsDistinct (l.head ∷ xs) e (ys ++ l.tail ∷ []) (rw append_assoc at (v.distinct))
          (rw append_assoc at out));
  }

  -- list_remove takes out the element that it is given, wherever it stands.
  pub remove-IsDList : IsDList h l (xs ++ e ∷ ys) → IsDList (list_remove h e) l (xs ++ ys)
  unfolding list_remove
  remove-IsDList v = record {
    chain =
        remove-Chain h (list_remove h e) e (λ p. ground arith) (λ p. ground arith) l.head xs ys
          l.tail v.chain v.distinct;
    distinct =
        rw (append_assoc xs ys (l.tail ∷ []))
          (remove-IsDistinct (l.head ∷ xs) e (ys ++ l.tail ∷ []) (rw append_assoc at (v.distinct)));
  }

module _ {h : Links} {l : DList} where
  -- list_push puts a new element first.
  pub push-IsDList :
      (e : ℕ) (xs : List ℕ)
      → IsDList h l xs
      → has e (l.head ∷ (xs ++ l.tail ∷ [])) ≡ false
      → IsDList (list_push h l e) l (e ∷ xs)
  unfolding list_push
  push-IsDList e xs v out =
      rw (next-mem h l.head xs l.tail v.chain) (insert_before-IsDList [] e xs v out)

  -- list_append puts a new element last.
  pub append-IsDList :
      (e : ℕ) (xs : List ℕ)
      → IsDList h l xs
      → has e (l.head ∷ (xs ++ l.tail ∷ [])) ≡ false
      → IsDList (list_append h l e) l (xs ++ e ∷ [])
  unfolding list_append
  append-IsDList e xs v out = insert_before-IsDList xs e [] (rw append-nil v) (rw append-nil out)

  -- list_pop returns the first element of a list that is not empty, and leaves the rest.
  pub pop-IsDList :
      (x : ℕ) (xs : List ℕ)
      → IsDList h l (x ∷ xs)
      → ((list_pop h l).0 ≡ x) × IsDList (list_pop h l).1 l xs
  unfolding list_pop
  pop-IsDList x xs v = (v.chain.0, rw (v.chain.0) (remove-IsDList [] x xs v))

  -- list_empty tells the empty list from the others.
  pub list_empty_lem :
      (xs : List ℕ) → IsDList h l xs → list_empty h l ≡ (elim xs [ [] ↦ true | y ∷ ys ↦ false ])
  unfolding list_empty
  list_empty_lem [] v = ground arith
  list_empty_lem (x ∷ xs) v =
      let c = v.chain in let d = v.distinct in ground (arith, has-append x xs (l.tail ∷ []))

  -- A list whose elements and sentinels an insertion does not touch is the same list after it.
  pub insert_before-other :
      (before e : ℕ) (xs : List ℕ)
      → IsDList h l xs
      → has e (l.head ∷ (xs ++ l.tail ∷ [])) ≡ false
      → has before (l.head ∷ (xs ++ l.tail ∷ [])) ≡ false
      → has (h.prev before) (l.head ∷ (xs ++ l.tail ∷ [])) ≡ false
      → IsDList (list_insert_before h before e) l xs
  unfolding list_insert_before
  insert_before-other before e xs v oe ob op = record {
    chain =
        frame h (list_insert_before h before e) l.head xs l.tail v.chain
          (λ p i. ground (arith, has-append p xs (l.tail ∷ []))) (λ p i. ground arith);
    distinct = v.distinct;
  }

  -- The same for a removal.
  pub remove-other :
      (e : ℕ) (xs : List ℕ)
      → IsDList h l xs
      → has (h.next e) (l.head ∷ (xs ++ l.tail ∷ [])) ≡ false
      → has (h.prev e) (l.head ∷ (xs ++ l.tail ∷ [])) ≡ false
      → IsDList (list_remove h e) l xs
  unfolding list_remove
  remove-other e xs v on op = record {
    chain =
        frame h (list_remove h e) l.head xs l.tail v.chain
          (λ p i. ground (arith, has-append p xs (l.tail ∷ []))) (λ p i. ground arith);
    distinct = v.distinct;
  }

-- Both leave the interrupt status as they found it.
pub insert_before-intr : (h : Links) (before e : ℕ) → (list_insert_before h before e).intr ≡ h.intr
unfolding list_insert_before
insert_before-intr h before e = set_status-disable h.intr

pub remove-intr : (h : Links) (e : ℕ) → (list_remove h e).intr ≡ h.intr
unfolding list_remove
remove-intr h e = set_status-disable h.intr
