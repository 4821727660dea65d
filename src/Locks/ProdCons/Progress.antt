-- ===== src/Locks/ProdCons/Progress.antt =====
-- The threads of prod-cons.c never block each other for ever.
use simulating_the_functioni.Base.{
  ℕ, ◌≡◌, refl, ◌⊎◌, inl, inr, true, ◌&&◌, ◌==◌, Bool-cases, List, [], ◌∷◌, arith, ℕ_discrete,
}
use simulating_the_functioni.Locks.ProdCons.{
  Producer, scanning, full_test, full_wait, full_woken, storing, end_locking, ending,
  end_signalling, end_unlocking, Consumer, empty_test, empty_wait, empty_woken, retesting, taking,
  logging, exiting, System, buffer_size, ProducerStep, ConsumerStep, Reach,
}
use simulating_the_functioni.Locks.ProdCons.Invariant.{
  Inv, Reach-Inv, producer_holds, consumer_holds,
}

-- A thread can make a step that is no spurious wake-up.
abbrev ProducerMoves : System → Type 0
ProducerMoves s = (t : System) × ProducerStep s t

abbrev ConsumerMoves : System → Type 0
ConsumerMoves s = (t : System) × ConsumerStep s t

module _ (s : System) (v : Inv s) (free : s.mutex ≡ true → producer_holds s.prod ≡ 1) where
  producer_moves :
      (p : Producer)
      → s.prod ≡ p
      → ProducerMoves s ⊎ (s.prod ≡ Producer.finished) ⊎ ((x : ℕ) × (s.prod ≡ full_wait x))
  producer_moves scanning e = scans s.input refl
    where
      scans :
          (l : List ℕ)
          → s.input ≡ l
          → ProducerMoves s ⊎ (s.prod ≡ Producer.finished) ⊎ ((x : ℕ) × (s.prod ≡ full_wait x))
      scans [] q = inl (_, ProducerStep.scan_eof e q)
      scans (x ∷ rest) q = inl (_, ProducerStep.scan x rest e q)
  producer_moves (Producer.locking x) e = inl (_, ProducerStep.lock x e (ground arith))
  producer_moves (Producer.testing x) e = elim (ℕ_discrete x 0) [
    | yes z ↦ inl (_, ProducerStep.stop x e z)
    | no z ↦ inl (_, ProducerStep.go_on x e z)
  ]
  producer_moves (full_test x) e = elim (ℕ_discrete s.count buffer_size) [
    | yes z ↦ inl (_, ProducerStep.sleep x e z)
    | no z ↦ inl (_, ProducerStep.has_room x e z)
  ]
  producer_moves (full_wait x) e = inr (inr (x, e))
  producer_moves (full_woken x) e = inl (_, ProducerStep.relock x e (ground arith))
  producer_moves (storing x) e = inl (_, ProducerStep.store x e)
  producer_moves Producer.signalling e = inl (_, ProducerStep.signal e)
  producer_moves Producer.unlocking e = inl (_, ProducerStep.unlock e)
  producer_moves end_locking e = inl (_, ProducerStep.end_lock e (ground arith))
  producer_moves ending e = inl (_, ProducerStep.end_loop e)
  producer_moves end_signalling e = inl (_, ProducerStep.end_signal e)
  producer_moves end_unlocking e = inl (_, ProducerStep.end_unlock e)
  producer_moves Producer.finished e = inr (inl e)

module _ (s : System) (v : Inv s) (free : s.mutex ≡ true → consumer_holds s.cons ≡ 1) where
  consumer_moves :
      (c : Consumer)
      → s.cons ≡ c
      → ConsumerMoves s ⊎ (s.cons ≡ Consumer.finished) ⊎ (s.cons ≡ empty_wait)
  consumer_moves Consumer.locking e = inl (_, ConsumerStep.lock e (ground arith))
  consumer_moves Consumer.testing e = elim (Bool-cases ((s.count == 0) && s.terminate)) [
    | inl z ↦ inl (_, ConsumerStep.leave e (ground arith) (ground arith))
    | inr z ↦ inl (_, ConsumerStep.go_on e z)
  ]
  consumer_moves empty_test e = elim (ℕ_discrete s.count 0) [
    | yes z ↦ inl (_, ConsumerStep.sleep e z)
    | no z ↦ inl (_, ConsumerStep.has_item e z)
  ]
  consumer_moves empty_wait e = inr (inr e)
  consumer_moves empty_woken e = inl (_, ConsumerStep.relock e (ground arith))
  consumer_moves retesting e = elim (Bool-cases ((s.count == 0) && s.terminate)) [
    | inl z ↦ inl (_, ConsumerStep.leave_woken e (ground arith) (ground arith))
    | inr z ↦ inl (_, ConsumerStep.retest e z)
  ]
  consumer_moves taking e = inl (_, ConsumerStep.take e)
  consumer_moves (logging x) e = inl (_, ConsumerStep.log x e)
  consumer_moves Consumer.signalling e = inl (_, ConsumerStep.signal e)
  consumer_moves Consumer.unlocking e = inl (_, ConsumerStep.unlock e)
  consumer_moves exiting e = inl (_, ConsumerStep.exit e)
  consumer_moves Consumer.finished e = inr (inl e)

-- With both threads at rest, both have returned: neither sleeps through the last signal.
at_rest :
    (s : System)
    → Inv s
    → (s.prod ≡ Producer.finished) ⊎ ((x : ℕ) × (s.prod ≡ full_wait x))
    → (s.cons ≡ Consumer.finished) ⊎ (s.cons ≡ empty_wait)
    → (s.prod ≡ Producer.finished) × (s.cons ≡ Consumer.finished)
at_rest s v (inl p) (inl c) = (p, c)
at_rest s v (inl p) (inr c) = absurd (ground (arith, v))
at_rest s v (inr (x, p)) (inl c) = absurd (ground (arith, v))
at_rest s v (inr (x, p)) (inr c) = absurd (ground (arith, v))

-- No lost wake-up and no deadlock: in every reachable state either both threads have returned, or
-- one of them can make a step with no spurious wake-up.
pub no_deadlock :
    {input : List ℕ} {s : System}
    → Reach input s
    → ((s.prod ≡ Producer.finished) × (s.cons ≡ Consumer.finished))
      ⊎ ((t : System) × ProducerStep s t)
      ⊎ ((t : System) × ConsumerStep s t)
no_deadlock {s} r = elim (ℕ_discrete (producer_holds s.prod) 1) [
  | yes holds ↦ elim (producer_moves s v (λ _. holds) s.prod refl) [
    | inl m ↦ inr (inl m)
    | inr rest ↦ absurd (ground (arith, v))
  ]
  | no idle ↦ elim (consumer_moves s v (λ m. ground (arith, v)) s.cons refl) [
    | inl m ↦ inr (inr m)
    | inr c ↦ elim (producer_moves s v (λ m. ground (arith, v)) s.prod refl) [
      | inl m ↦ inr (inl m)
      | inr p ↦ inl (at_rest s v p c)
    ]
  ]
]
  where
    v : Inv s
    v = Reach-Inv r
