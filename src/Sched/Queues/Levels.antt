-- ===== src/Sched/Queues/Levels.antt =====
-- The three queues: what each operation does to them as lists.
use simulating_the_functioni.Base.{
  ℕ, suc, ◌+◌, ◌≤◌, ◌<◌, ◌≡◌, refl, sym, ap, ◌∙◌, true, false, some, List, [], ◌∷◌, ◌++◌, map,
  append_assoc, append-nil, ltb, length, length-append, arith,
}
use simulating_the_functioni.Base.Shift.{shift, drop_last, shift_removes}
use simulating_the_functioni.Sched.Queues.{
  Prioritized, Queues, max_queue_size, behind_first, pop_from_queue, is_empty, all_empty,
  add_to_queue, boost_popped, boost_from, boost_queues,
}

module _ {P : Type 0} where
  abbrev pub size : Queues P → ℕ
  size qs = length qs.queue0 + length qs.queue1 + length qs.queue2

  abbrev pub queues : List P → List P → List P → Queues P
  queues a b c = record { queue0 = a; queue1 = b; queue2 = c }

  pub behind_first_lem : (p : P) (q : List P) → behind_first (p ∷ q) ≡ q
  behind_first_lem p q =
      ap (λ n. drop_last (shift n (p ∷ q) 0)) (omega arith) ∙ shift_removes (p ∷ q) 0 (omega arith)

  pub all_empty-true : (qs : Queues P) → size qs ≡ 0 → all_empty qs ≡ true
  unfolding all_empty is_empty
  all_empty-true qs h = ground arith

  pub all_empty-false : (qs : Queues P) → all_empty qs ≡ false → 0 < size qs
  unfolding all_empty is_empty
  all_empty-false qs h = ground arith

  pub all_empty-size : (qs : Queues P) → all_empty qs ≡ true → size qs ≡ 0
  unfolding all_empty is_empty
  all_empty-size qs h = ground arith

  module _ (p : P) (a b c : List P) where
    pub pop-0 : pop_from_queue 0 (queues (p ∷ a) b c) ≡ (some p, queues a b c)
    unfolding pop_from_queue
    pop-0 = rw nonempty_0 (ap (λ l. (some p, queues l b c)) (behind_first_lem p a))
      where
        nonempty_0 : ltb 0 (length (p ∷ a)) ≡ true
        nonempty_0 = ground arith

    pub pop-1 : pop_from_queue 1 (queues a (p ∷ b) c) ≡ (some p, queues a b c)
    unfolding pop_from_queue
    pop-1 = rw nonempty_1 (ap (λ l. (some p, queues a l c)) (behind_first_lem p b))
      where
        nonempty_1 : ltb 0 (length (p ∷ b)) ≡ true
        nonempty_1 = ground arith

    pub pop-2 : pop_from_queue 2 (queues a b (p ∷ c)) ≡ (some p, queues a b c)
    unfolding pop_from_queue
    pop-2 = rw nonempty_2 (ap (λ l. (some p, queues a b l)) (behind_first_lem p c))
      where
        nonempty_2 : ltb 0 (length (p ∷ c)) ≡ true
        nonempty_2 = ground arith

module _ {P : Type 0} (l : Prioritized P) where
  abbrev pub at_top : P → P
  at_top p = l.with_priority p 0

  add_top :
      (p : P) (a b c : List P)
      → length a < max_queue_size
      → add_to_queue l (at_top p) (queues a b c) ≡ queues (a ++ at_top p ∷ []) b c
  unfolding add_to_queue
  add_top p a b c h = ground (arith, l.priority_law p 0)

  boost_one :
      (a b c : List P)
      → length a + length b ≤ max_queue_size
      → boost_from l (length b) 1 (queues a b c) ≡ queues (a ++ map at_top b) [] c
  unfolding boost_from
  boost_one a [] c h = ap (λ q. queues q [] c) (sym (append-nil a))
  boost_one a (p ∷ b) c h =
      ap (boost_popped l (boost_from l (length b) 1) (queues a (p ∷ b) c)) (pop-1 p a b c)
      ∙ (ap (boost_from l (length b) 1) (add_top p a b c (omega arith))
          ∙ boost_one (a ++ at_top p ∷ []) b c (omega (arith, length-append {0} a (at_top p ∷ [])))
          ∙ ap (λ q. queues q [] c) (append_assoc a (at_top p ∷ []) (map at_top b)))

  boost_two :
      (a c : List P)
      → length a + length c ≤ max_queue_size
      → boost_from l (length c) 2 (queues a [] c) ≡ queues (a ++ map at_top c) [] []
  unfolding boost_from
  boost_two a [] h = ap (λ q. queues q [] []) (sym (append-nil a))
  boost_two a (p ∷ c) h =
      ap (boost_popped l (boost_from l (length c) 2) (queues a [] (p ∷ c))) (pop-2 p a [] c)
      ∙ (ap (boost_from l (length c) 2) (add_top p a [] c (omega arith))
          ∙ boost_two (a ++ at_top p ∷ []) c (omega (arith, length-append {0} a (at_top p ∷ [])))
          ∙ ap (λ q. queues q [] []) (append_assoc a (at_top p ∷ []) (map at_top c)))

  pub length-at_top : (q : List P) → length (map at_top q) ≡ length q
  length-at_top [] = refl
  length-at_top (p ∷ q) = ap suc (length-at_top q)

  pub boosted :
      (qs : Queues P)
      → size qs ≤ max_queue_size
      → boost_queues l qs ≡ queues (qs.queue0 ++ map at_top qs.queue1 ++ map at_top qs.queue2) [] []
  unfolding boost_queues
  boosted qs h = rw (boost_one qs.queue0 qs.queue1 qs.queue2 (omega arith)) (
      boost_two (qs.queue0 ++ map at_top qs.queue1) qs.queue2 (
        omega (arith, length-append {0} qs.queue0 (map at_top qs.queue1), length-at_top qs.queue1)))
