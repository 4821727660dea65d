-- ===== src/Tlb/Replacement/Policy.antt =====
-- The two replacement policies on a plain list of pages, the oldest first, and what a `Queue`
-- operation must do to implement one.
use simulating_the_functioni.Base.{
  ℕ, ◌+◌, ◌≡◌, ◌≢◌, refl, true, false, ◌||◌, Option, some, List, [], ◌∷◌, ◌++◌, ◌==◌, if◌then◌else◌,
  length, arith,
}
use simulating_the_functioni.Base.Keys.{contains, distinct}
use simulating_the_functioni.Tlb.Queue.{Queue, dequeue, dequeue_rear}
use simulating_the_functioni.Tlb.Queue.Valid.{IsValid, contents}
use simulating_the_functioni.Tlb.Queue.Ends.{pop_front, pop_back}
use simulating_the_functioni.Tlb.Queue.Refine.{
  dequeue-IsValid, dequeue_refines, dequeue_rear-IsValid, dequeue_rear_refines,
}

-- A buffer of at most `k` pages as a list, with the hits so far.
pub record Cache : Type 0 where
  pub pages : List ℕ
  pub hits : ℕ

module _ (pop : List ℕ → Option ℕ × List ℕ) (k : ℕ) where
  -- A page that is present is a hit. Any other is put last, in place of the one that `pop` takes if
  -- `k` pages are present.
  unfoldable pub access : Cache → ℕ → Cache
  access c page = if contains page c.pages then record c { hits = c.hits + 1 } else record c {
    pages = (if length c.pages == k then (pop c.pages).1 else c.pages) ++ page ∷ [];
  }

  unfoldable pub accesses : Cache → List ℕ → Cache
  accesses c [] = c
  accesses c (page ∷ rest) = accesses (access c page) rest

-- What taking one page out does to the pages.
pub record Takes (xs : List ℕ) (o : Option ℕ) (ys : List ℕ) : Type 0 where
  pub page : ℕ
  pub taken : o ≡ some page
  pub others : (j : ℕ) → contains j xs ≡ ((j == page) || contains j ys)
  pub gone : contains page ys ≡ false
  pub still_distinct : distinct ys ≡ true
  pub one_less : length ys + 1 ≡ length xs

pub pop_front-Takes :
    (xs : List ℕ) → distinct xs ≡ true → xs ≢ [] → Takes xs (pop_front xs).0 (pop_front xs).1
unfolding pop_front contains distinct
pop_front-Takes [] d ne = absurd (ne refl)
pop_front-Takes (x ∷ xs) d ne = record {
  page = x;
  taken = refl;
  others = λ j. refl;
  gone = ground arith;
  still_distinct = ground arith;
  one_less = omega arith;
}

pub pop_back-Takes :
    (xs : List ℕ) → distinct xs ≡ true → xs ≢ [] → Takes xs (pop_back xs).0 (pop_back xs).1
unfolding pop_back contains distinct
pop_back-Takes [] d ne = absurd (ne refl)
pop_back-Takes (x ∷ []) d ne = record {
  page = x;
  taken = refl;
  others = λ j. refl;
  gone = refl;
  still_distinct = refl;
  one_less = refl;
}
pop_back-Takes (x ∷ y ∷ xs) d ne = keep (pop_back-Takes (y ∷ xs) (ground arith) (λ e. cc))
  where
    ys : List ℕ
    ys = (pop_back (y ∷ xs)).1

    keep :
        Takes (y ∷ xs) (pop_back (y ∷ xs)).0 ys → Takes (x ∷ y ∷ xs) (pop_back (y ∷ xs)).0 (x ∷ ys)
    keep t = record {
      page = t.page;
      taken = t.taken;
      others = λ j. ground (arith, t.others j);
      gone = ground (arith, t.others x, t.gone);
      still_distinct = ground (arith, t.others x, t.still_distinct);
      one_less = omega (arith, t.one_less);
    }

-- An operation of `Queue` that takes a page as `pop` does.
pub record Removes (take : Queue → Option ℕ × Queue) (pop : List ℕ → Option ℕ × List ℕ)
    : Type 0 where
  pub keeps : (q : Queue) → IsValid q → IsValid (take q).1
  pub same_capacity : (q : Queue) → (take q).1.capacity ≡ q.capacity
  pub refines : (q : Queue) → IsValid q → ((take q).0, contents (take q).1) ≡ pop (contents q)
  pub takes : (xs : List ℕ) → distinct xs ≡ true → xs ≢ [] → Takes xs (pop xs).0 (pop xs).1

dequeue-capacity : (q : Queue) → (dequeue q).1.capacity ≡ q.capacity
unfolding dequeue
dequeue-capacity q = ground arith

dequeue_rear-capacity : (q : Queue) → (dequeue_rear q).1.capacity ≡ q.capacity
unfolding dequeue_rear
dequeue_rear-capacity q = ground arith

pub dequeue-Removes : Removes dequeue pop_front
dequeue-Removes = record {
  keeps = dequeue-IsValid;
  same_capacity = dequeue-capacity;
  refines = dequeue_refines;
  takes = pop_front-Takes;
}

pub dequeue_rear-Removes : Removes dequeue_rear pop_back
dequeue_rear-Removes = record {
  keeps = dequeue_rear-IsValid;
  same_capacity = dequeue_rear-capacity;
  refines = dequeue_rear_refines;
  takes = pop_back-Takes;
}
