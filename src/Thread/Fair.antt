-- ===== src/Thread/Fair.antt =====
-- thread/thread.c: round robin. A ready thread gets the processor when those before it have had theirs.
use the_one_os.Common.{
  ℕ, zero, suc, ◌≡◌, Option, some, List, [], ◌∷◌, ◌++◌, ◌>>=◌, ap, ◌∙◌, append_assoc, length,
}
use the_one_os.Thread.{Kernel, thread_yield}
use the_one_os.Thread.Queue.{IsSound}
use the_one_os.Thread.Block.{thread_yield_lem}

-- `n` times over, whatever thread has the processor yields it.
pub yields : ℕ → Kernel → Option Kernel
yields zero k = some k
yields (suc n) k = thread_yield k >>= yields n

head_of : {A : Type 0} {x y : A} {xs ys : List A} → x ∷ xs ≡ y ∷ ys → (x ≡ y) × (xs ≡ ys)
head_of e = (cc, cc)

-- A thread with `xs` before it in the ready list runs after one yield more than `xs` has threads.
pub yields-fair :
    (k : Kernel) (xs : List ℕ) (t : ℕ) (ys : List ℕ)
    → IsSound k
    → k.ready ≡ xs ++ t ∷ ys
    → (k' : Kernel) × (yields (suc (length xs)) k ≡ some k') × IsSound k' × (k'.cur ≡ t)
unfolding yields
yields-fair k [] t ys q e =
    let (k', y, h) = thread_yield_lem k q in
    (k', ap (λ o. o >>= yields 0) y, h.sound, (head_of (h.order ∙ ap (λ r. r ++ k.cur ∷ []) e)).0)
yields-fair k (x ∷ xs) t ys q e =
    let (k', y, h) = thread_yield_lem k q in
    let order = (head_of (h.order ∙ ap (λ r. r ++ k.cur ∷ []) e)).1 in
    let (k'', y', sound, cur) =
      yields-fair k' xs t (ys ++ k.cur ∷ []) h.sound
        (order ∙ append_assoc xs (t ∷ ys) (k.cur ∷ [])) in
    (k'', ap (λ o. o >>= yields (suc (length xs))) y ∙ y', sound, cur)
