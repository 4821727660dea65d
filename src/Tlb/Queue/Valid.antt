-- ===== src/Tlb/Queue/Valid.antt =====
-- The invariant of `class Queue`, and what `rear` is under it.
use native.Mathlib.Nat.{mod-add-mod, add-mod_right}
use simulating_the_functioni.Base.{
  ℕ, ◌+◌, ◌-◌, ◌%◌, ◌≤◌, ◌<◌, ◌≡◌, refl, ap, ◌∙◌, ◌⊎◌, inl, inr, List, length, length-replicate,
  arith,
}
use simulating_the_functioni.Base.Int.{pos, negsuc, ◌+ℤ◌, rem_ℤ, rem-succ}
use simulating_the_functioni.Base.Ring.{window, length-window}
use simulating_the_functioni.Tlb.Queue.{Queue, init}

-- `rear` is the cell before the next free one, or -1 as long as nothing was ever put in.
abbrev pub IsRear : Queue → Type 0
IsRear q =
    (q.rear ≡ pos ((q.front + q.size + (q.capacity - 1)) % q.capacity))
    ⊎ ((q.rear ≡ negsuc 0) × (q.front ≡ 0) × (q.size ≡ 0))

pub record IsValid (q : Queue) : Type 0 where
  pub some_room : 0 < q.capacity
  pub alloc : length q.array ≡ q.capacity
  pub front_lt : q.front < q.capacity
  pub size_le : q.size ≤ q.capacity
  pub at_rear : IsRear q

-- The pages in the queue, the oldest first.
abbrev pub contents : Queue → List ℕ
contents q = window q.capacity q.array q.front q.size

pub length-contents : (q : Queue) → length (contents q) ≡ q.size
length-contents q = length-window q.capacity q.array q.front q.size

pub init-IsValid : (k : ℕ) → 0 < k → IsValid (init k)
init-IsValid k h = record {
  some_room = h;
  alloc = length-replicate k 0;
  front_lt = h;
  size_le = omega arith;
  at_rear = inr (refl, refl, refl);
}

module _ (m : ℕ) (h : 0 < m) where
  -- A step on after a step back, round the capacity.
  mod-around : (a : ℕ) → ((a + (m - 1)) % m + 1) % m ≡ a % m
  mod-around a =
      mod-add-mod (a + (m - 1)) m 1 ∙ ap (λ k. k % m) {y = a + m} (omega arith) ∙ add-mod_right a m

  pub mod-back : (a : ℕ) → 0 < a → ((a + (m - 1)) % m + (m - 1)) % m ≡ (a - 1 + (m - 1)) % m
  mod-back a pos_a =
      mod-add-mod (a + (m - 1)) m (m - 1)
      ∙ ap (λ k. k % m) {y = a - 1 + (m - 1) + m} (omega arith)
      ∙ add-mod_right (a - 1 + (m - 1)) m

rem-start : (m : ℕ) → rem_ℤ (negsuc 0 +ℤ pos 1) m ≡ pos (0 % m)
unfolding rem_ℤ ◌+ℤ◌
rem-start m = refl

-- The next index to write is `size` places beyond `front`.
pub next_rear :
    (q : Queue)
    → IsValid q
    → rem_ℤ (q.rear +ℤ pos 1) q.capacity ≡ pos ((q.front + q.size) % q.capacity)
next_rear q v = go v.at_rear
  where
    go : IsRear q → rem_ℤ (q.rear +ℤ pos 1) q.capacity ≡ pos ((q.front + q.size) % q.capacity)
    go (inl e) = rw e (rem-succ _ q.capacity ∙ ap pos (mod-around q.capacity v.some_room _))
    go (inr (e, f, z)) = rw e (rem-start q.capacity ∙ ap (λ k. pos (k % q.capacity)) (omega arith))

-- With a page in the queue, `rear` is the cell of the newest.
pub rear-eq :
    (q : Queue)
    → IsValid q
    → 0 < q.size
    → q.rear ≡ pos ((q.front + q.size + (q.capacity - 1)) % q.capacity)
rear-eq q v h = go v.at_rear
  where
    go : IsRear q → q.rear ≡ pos ((q.front + q.size + (q.capacity - 1)) % q.capacity)
    go (inl e) = e
    go (inr (e, f, z)) = absurd (omega arith)
