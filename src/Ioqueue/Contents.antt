-- ===== src/Ioqueue/Contents.antt =====
-- device/ioqueue.c: the characters that a queue holds.
use the_one_os.Common.{
  ℕ, zero, suc, ◌+◌, ◌-◌, ◌%◌, ◌<◌, ◌≤◌, ◌≡◌, refl, ◌≢◌, ◌↔◌, ◌⊎◌, List, [], ◌∷◌, ◌++◌, get_or, set,
  length, arith, ap, ap₂, get_or-set_self, get_or-set_ne, true,
}
use the_one_os.Ioqueue.{Ioqueue, bufsize, next_pos, ioq_full, ioq_empty, ioq_length}

pub record IsRing (q : Ioqueue) : Type 0 where
  pub storage : length q.buf ≡ bufsize
  pub head_in : q.head < bufsize
  pub tail_in : q.tail < bufsize

abbrev pub count : Ioqueue → ℕ
count q = (q.head + bufsize - q.tail) % bufsize

-- The `n` characters from `pos` on, round the end of the buffer.
abbrev pub chars : List ℕ → ℕ → ℕ → List ℕ
chars buf pos zero = []
chars buf pos (suc n) = get_or buf pos 0 ∷ chars buf (next_pos pos) n

-- What the queue holds, oldest first.
abbrev pub contents : Ioqueue → List ℕ
contents q = chars q.buf q.tail (count q)

pub length-chars : (buf : List ℕ) (pos n : ℕ) → length (chars buf pos n) ≡ n
length-chars buf pos zero = refl
length-chars buf pos (suc n) = ap suc (length-chars buf (next_pos pos) n)

-- A write behind the last character adds it.
pub chars-set :
    (buf : List ℕ) (x n pos i : ℕ)
    → length buf ≡ bufsize
    → pos < bufsize
    → n < bufsize
    → i ≡ (pos + n) % bufsize
    → chars (set buf i x) pos (suc n) ≡ chars buf pos n ++ x ∷ []
chars-set buf x zero pos i len p lt e =
    let e' : i ≡ pos = omega arith in
    rw e' (ap (λ c. c ∷ []) (get_or-set_self buf pos x 0 (omega arith)))
chars-set buf x (suc n) pos i len p lt e =
    ap₂ ◌∷◌ (get_or-set_ne buf x 0 (omega arith))
      (chars-set buf x n (next_pos pos) i len (omega arith) (omega arith) (omega arith))

pub chars-pos :
    (buf : List ℕ) (pos n : ℕ)
    → n ≢ 0
    → chars buf pos n ≡ get_or buf pos 0 ∷ chars buf (next_pos pos) (n - 1)
chars-pos buf pos zero h = absurd (h refl)
chars-pos buf pos (suc n) h = ap (λ k. get_or buf pos 0 ∷ chars buf (next_pos pos) k) (omega arith)

-- The queue is empty or full as its tests say, and holds at most 2047 characters.
pub tests_lem :
    (q : Ioqueue)
    → IsRing q
    → ((ioq_empty q ≡ true) ↔ (length (contents q) ≡ 0))
      × ((ioq_full q ≡ true) ↔ (length (contents q) ≡ bufsize - 1))
      × (length (contents q) < bufsize)
unfolding ioq_empty ioq_full
tests_lem q v = ground (arith, length-chars q.buf q.tail (count q))

-- ioq_length counts the characters exactly when the head is above the tail; else it reports at least
-- the size of the buffer, more than the queue can hold.
pub ioq_length_lem :
    (q : Ioqueue)
    → IsRing q
    → ((ioq_length q ≡ length (contents q)) ↔ (q.tail < q.head))
      × ((q.tail < q.head) ⊎ (bufsize ≤ ioq_length q))
unfolding ioq_length
ioq_length_lem q v = ground (arith, length-chars q.buf q.tail (count q))
