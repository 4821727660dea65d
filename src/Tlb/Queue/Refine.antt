-- ===== src/Tlb/Queue/Refine.antt =====
-- `class Queue` behaves as a list with the oldest page first: what each operation does to the list.
use native.Mathlib.Nat.{mod-lt, mod-add-mod, add-mod_right}
use simulating_the_functioni.Base.{
  ℕ, suc, ◌+◌, ◌-◌, ◌%◌, ◌<◌, ◌≡◌, ◌≢◌, refl, sym, ap, ◌∙◌, inl, false, none, some, [], ◌∷◌, ◌++◌,
  ◌==◌, ==_iff, length, length-set, set, get_or, arith, if◌then◌else◌, ℕ_discrete, fun_ext,
}
use simulating_the_functioni.Base.Int.{pos, rem-pred}
use simulating_the_functioni.Base.Ring.{window, window-set, window-pop, window-pop_back}
use simulating_the_functioni.Tlb.Queue.{Queue, enqueue, dequeue, dequeue_rear}
use simulating_the_functioni.Tlb.Queue.Valid.{
  IsValid, contents, length-contents, next_rear, rear-eq, mod-back,
}
use simulating_the_functioni.Tlb.Queue.Ends.{pop_front, pop_back, pop_back-snoc}

module _ (q : Queue) (v : IsValid q) where
  tail : ℕ
  tail = (q.front + q.size) % q.capacity

  pub enqueue-full : q.size ≡ q.capacity → ◌≡◌ {A = ℕ → Queue} (enqueue q) (λ x. q)
  unfolding enqueue
  enqueue-full e = fun_ext (λ x. ground arith)

  -- Below its capacity the queue writes one cell and steps `rear` on.
  enqueue-room :
      (x : ℕ)
      → q.size ≢ q.capacity
      → enqueue q x ≡ record q { rear = pos tail; array = set q.array tail x; size = q.size + 1 }
  unfolding enqueue tail
  enqueue-room x ne = ground (arith, next_rear q v)

  pub enqueue-IsValid : (x : ℕ) → IsValid (enqueue q x)
  unfolding tail
  enqueue-IsValid x = elim (ℕ_discrete q.size q.capacity) [
    | yes e ↦ rw (enqueue-full e) v
    | no ne ↦ rw (enqueue-room x ne) (record {
      some_room = v.some_room;
      alloc = length-set q.array tail x ∙ v.alloc;
      front_lt = v.front_lt;
      size_le = omega (arith, v);
      at_rear = inl (
          ap pos (
            sym (
              ap (λ k. k % q.capacity) {y = q.front + q.size + q.capacity} (omega (arith, v))
              ∙ add-mod_right (q.front + q.size) q.capacity)));
    })
  ]

  pub contents-enqueue :
      (x : ℕ) → q.size ≢ q.capacity → contents (enqueue q x) ≡ contents q ++ x ∷ []
  unfolding tail
  contents-enqueue x ne = rw (enqueue-room x ne) (
      ap (window q.capacity (set q.array tail x) q.front) {y = suc q.size} (omega arith)
      ∙ window-set q.capacity q.array q.front q.size x (omega (arith, v)) (omega (arith, v)))

  dequeue-empty : q.size ≡ 0 → dequeue q ≡ (none, q)
  unfolding dequeue
  dequeue-empty e = ground arith

  dequeue-some :
      q.size ≢ 0
      → dequeue q ≡ (
        some (get_or q.array q.front 0),
        record q { front = (q.front + 1) % q.capacity; size = q.size - 1 },
      )
  unfolding dequeue
  dequeue-some ne = ground arith

  dequeue_rear-empty : q.size ≡ 0 → dequeue_rear q ≡ (none, q)
  unfolding dequeue_rear
  dequeue_rear-empty e = ground arith

  newest : ℕ
  newest = (q.front + q.size + (q.capacity - 1)) % q.capacity

  dequeue_rear-some :
      q.size ≢ 0
      → dequeue_rear q ≡ (
        some (get_or q.array newest 0),
        record q { rear = pos ((newest + (q.capacity - 1)) % q.capacity); size = q.size - 1 },
      )
  unfolding dequeue_rear newest
  dequeue_rear-some ne =
      ground (arith, rear-eq q v (omega arith), rem-pred newest q.capacity v.some_room)

  empty_contents : q.size ≡ 0 → contents q ≡ []
  empty_contents e = ap (window q.capacity q.array q.front) e

  -- Taking from the front leaves the place of the newest page.
  front_moves :
      0 < q.size
      → (q.front + q.size + (q.capacity - 1)) % q.capacity
        ≡ ((q.front + 1) % q.capacity + (q.size - 1) + (q.capacity - 1)) % q.capacity
  front_moves h =
      ap (λ k. k % q.capacity) {y = q.front + 1 + (q.size - 1 + (q.capacity - 1))} (omega arith)
      ∙ sym (mod-add-mod (q.front + 1) q.capacity (q.size - 1 + (q.capacity - 1)))
      ∙ ap (λ k. k % q.capacity) (omega arith)

  pub dequeue-IsValid : IsValid (dequeue q).1
  dequeue-IsValid = elim (ℕ_discrete q.size 0) [
    | yes e ↦ rw (dequeue-empty e) v
    | no ne ↦ rw (dequeue-some ne) (record {
      some_room = v.some_room;
      alloc = v.alloc;
      front_lt = mod-lt (q.front + 1) v.some_room;
      size_le = omega (arith, v);
      at_rear = inl (rear-eq q v (omega arith) ∙ ap pos (front_moves (omega arith)));
    })
  ]

  pub dequeue_rear-IsValid : IsValid (dequeue_rear q).1
  unfolding newest
  dequeue_rear-IsValid = elim (ℕ_discrete q.size 0) [
    | yes e ↦ rw (dequeue_rear-empty e) v
    | no ne ↦ rw (dequeue_rear-some ne) (record {
      some_room = v.some_room;
      alloc = v.alloc;
      front_lt = v.front_lt;
      size_le = omega (arith, v);
      at_rear = inl (
          ap pos (
            mod-back q.capacity v.some_room (q.front + q.size) (omega arith)
            ∙ ap (λ k. k % q.capacity) {y = q.front + (q.size - 1) + (q.capacity - 1)}
                (omega arith)));
    })
  ]

  -- `dequeue` takes the oldest page, `dequeueRear` the newest, and each leaves the others in order.
  pub dequeue_refines : let (o, r) = dequeue q in (o, contents r) ≡ pop_front (contents q)
  unfolding pop_front
  dequeue_refines = elim (ℕ_discrete q.size 0) [
    | yes e ↦ rw (dequeue-empty e) (rw (empty_contents e) refl)
    | no ne ↦
        rw (dequeue-some ne) (
          sym
            (ap pop_front (window-pop q.capacity q.array q.front q.size v.front_lt (omega arith))))
  ]

  pub dequeue_rear_refines : let (o, r) = dequeue_rear q in (o, contents r) ≡ pop_back (contents q)
  unfolding newest
  dequeue_rear_refines = elim (ℕ_discrete q.size 0) [
    | yes e ↦ rw (dequeue_rear-empty e) (unfold pop_back in rw (empty_contents e) refl)
    | no ne ↦ rw (dequeue_rear-some ne) (
        sym (
          ap pop_back (window-pop_back q.capacity q.array q.front q.size v.some_room (omega arith))
          ∙ pop_back-snoc _ _))
  ]

-- On a valid queue `enqueue` appends the page if there is room and does nothing otherwise, and the
-- queue stays valid.
pub enqueue_refines :
    (q : Queue)
    → IsValid q
    → (x : ℕ)
    → IsValid (enqueue q x)
      × (contents (enqueue q x)
          ≡ (if length (contents q) == q.capacity then contents q else contents q ++ x ∷ []))
enqueue_refines q v x = (
  enqueue-IsValid q v x,
  rw (length-contents q) (elim (ℕ_discrete q.size q.capacity) [
    | yes e ↦ rw ((==_iff q.size q.capacity).1 e) (ap (λ f. contents (f x)) (enqueue-full q v e))
    | no ne ↦ rw (differs ne) (contents-enqueue q v x ne)
  ]),
)
  where
    differs : q.size ≢ q.capacity → (q.size == q.capacity) ≡ false
    differs ne = ground arith

-- On a valid queue `dequeue` takes the oldest page and `dequeueRear` the newest (none from an empty
-- queue), each leaves the other pages in order, and the queue stays valid.
pub removal_refines :
    (q : Queue)
    → IsValid q
    → (let (o, r) = dequeue q in IsValid r × ((o, contents r) ≡ pop_front (contents q)))
      × (let (o, r) = dequeue_rear q in IsValid r × ((o, contents r) ≡ pop_back (contents q)))
removal_refines q v = (
  (dequeue-IsValid q v, dequeue_refines q v),
  (dequeue_rear-IsValid q v, dequeue_rear_refines q v),
)
