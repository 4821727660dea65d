-- ===== src/Tlb/Replacement/Sound.antt =====
-- `FIFO` and `LIFO` count the hits of their policies: the map and the queue hold the same pages, and
-- the queue's list is that of the policy.
use simulating_the_functioni.Base.{
  ℕ, ◌+◌, ◌<◌, ◌≡◌, ◌≢◌, refl, sym, ap, ◌∙◌, true, false, ◌||◌, Bool-cases, inl, inr, Option, some,
  List, [], ◌∷◌, ◌++◌, map, ◌==◌, ==_iff, if◌then◌else◌, length, arith, ℕ_discrete,
}
use simulating_the_functioni.Base.Keys.{
  distinct-snoc, contains, insert, erase, distinct, contains-insert, contains-erase,
  contains-append,
}
use simulating_the_functioni.Tlb.Queue.{Queue, is_full, enqueue, dequeue, dequeue_rear}
use simulating_the_functioni.Tlb.Queue.Valid.{IsValid, contents, length-contents, init-IsValid}
use simulating_the_functioni.Tlb.Queue.Refine.{enqueue-IsValid, contents-enqueue}
use simulating_the_functioni.Tlb.Queue.Ends.{pop_front, pop_back}
use simulating_the_functioni.Tlb.Replacement.{
  Tlb, page_number, erase_page, start, fifo_step, fifo_loop, fifo, lifo_step, lifo_loop, lifo,
}
use simulating_the_functioni.Tlb.Replacement.Policy.{
  Cache, access, accesses, Takes, Removes, dequeue-Removes, dequeue_rear-Removes,
}

enqueue-capacity : (q : Queue) (x : ℕ) → (enqueue q x).capacity ≡ q.capacity
unfolding enqueue
enqueue-capacity q x = ground arith

contains-put :
    (j page : ℕ) (m xs : List ℕ)
    → contains j m ≡ contains j xs
    → contains j (insert page m) ≡ contains j (xs ++ page ∷ [])
unfolding contains
contains-put j page m xs e =
    ground (arith, contains-insert j page m, contains-append j xs (page ∷ []))

contains-take :
    (j page : ℕ) (m xs ys : List ℕ)
    → contains j m ≡ contains j xs
    → contains j xs ≡ ((j == page) || contains j ys)
    → contains page ys ≡ false
    → contains j (erase page m) ≡ contains j ys
contains-take j page m xs ys e o gone = ground (arith, contains-erase j page m, ==_iff j page)

module _ (take : Queue → Option ℕ × Queue) (pop : List ℕ → Option ℕ × List ℕ)
    (removes : Removes take pop) (k : ℕ) (some_room : 0 < k) where
  -- The queue holds the pages `xs` and the map holds the same.
  record Holds (q : Queue) (m xs : List ℕ) : Type 0 where
    valid : IsValid q
    room : q.capacity ≡ k
    pages : contents q ≡ xs
    keys : (j : ℕ) → contains j m ≡ contains j xs
    no_twice : distinct xs ≡ true

  Holds-put :
      (q : Queue) (m xs : List ℕ) (page : ℕ)
      → Holds q m xs
      → length xs ≢ k
      → contains page xs ≡ false
      → Holds (enqueue q page) (insert page m) (xs ++ page ∷ [])
  Holds-put q m xs page h ne new = record {
    valid = enqueue-IsValid q h.valid page;
    room = enqueue-capacity q page ∙ h.room;
    pages =
        contents-enqueue q h.valid page
          (λ e. ne (sym (ap length h.pages) ∙ length-contents q ∙ e ∙ h.room))
        ∙ ap (λ ys. ys ++ page ∷ []) h.pages;
    keys = λ j. contains-put j page m xs (h.keys j);
    no_twice = distinct-snoc xs page h.no_twice new;
  }

  Holds-take :
      (q : Queue) (m xs : List ℕ)
      → Holds q m xs
      → xs ≢ []
      → Holds (take q).1 (erase_page (take q).0 m) (pop xs).1
  Holds-take q m xs h ne = record {
    valid = removes.keeps q h.valid;
    room = removes.same_capacity q ∙ h.room;
    pages =
        ap (λ (p : Option ℕ × List ℕ). p.1) (removes.refines q h.valid)
        ∙ ap (λ ys. (pop ys).1) h.pages;
    keys = λ j. rw (old) (contains-take j t.page m xs (pop xs).1 (h.keys j) (t.others j) t.gone);
    no_twice = t.still_distinct;
  }
    where
      t : Takes xs (pop xs).0 (pop xs).1
      t = removes.takes xs h.no_twice ne

      old : (take q).0 ≡ some t.page
      old =
          ap (λ (p : Option ℕ × List ℕ). p.0) (removes.refines q h.valid)
          ∙ ap (λ ys. (pop ys).0) h.pages
          ∙ t.taken

  record Sim (t : Tlb) (c : Cache) : Type 0 where
    holds : Holds t.queue t.map c.pages
    same_hits : t.hits ≡ c.hits

  -- A round of the loop, on a page.
  replace : Tlb → ℕ → Tlb
  replace t page =
      if contains page t.map
      then record t { hits = t.hits + 1 }
      else let (old, rest) = take t.queue in
        let full = is_full t.queue in
        let queue = if full then rest else t.queue in
        let map = if full then erase_page old t.map else t.map in
        record t { queue = enqueue queue page; map = insert page map }

  replace-Sim :
      (t : Tlb) (c : Cache) (page : ℕ) → Sim t c → Sim (replace t page) (access pop k c page)
  unfolding replace access
  replace-Sim t c page s = elim (Bool-cases (contains page c.pages)) [
    | inl hit ↦
        rw (s.holds.keys page, hit) (record { holds = s.holds; same_hits = ap suc_ s.same_hits })
    | inr miss ↦ elim (ℕ_discrete (length c.pages) k) [
      | yes full ↦
          rw (s.holds.keys page, miss, at_full full, (==_iff (length c.pages) k).1 full)
            (record {
              holds =
                  Holds-put _ _ _ page (Holds-take _ _ _ s.holds (not_empty full)) (below full)
                    (unseen full miss);
              same_hits = s.same_hits;
            })
      | no part ↦
          rw (s.holds.keys page, miss, not_full part, ne_false part)
            (record { holds = Holds-put _ _ _ page s.holds part miss; same_hits = s.same_hits })
    ]
  ]
    where
      suc_ : ℕ → ℕ
      suc_ n = n + 1

      same_size : t.queue.size ≡ length c.pages
      same_size = sym (length-contents t.queue) ∙ ap length s.holds.pages

      at_full : length c.pages ≡ k → is_full t.queue ≡ true
      at_full e = (==_iff t.queue.size t.queue.capacity).1 (same_size ∙ e ∙ sym s.holds.room)

      not_full : length c.pages ≢ k → is_full t.queue ≡ false
      not_full ne = ground (arith, same_size, s.holds.room)

      ne_false : length c.pages ≢ k → (length c.pages == k) ≡ false
      ne_false ne = ground arith

      not_empty : length c.pages ≡ k → c.pages ≢ []
      not_empty e z = omega (arith, ap length z)

      gives : length c.pages ≡ k → Takes c.pages (pop c.pages).0 (pop c.pages).1
      gives e = removes.takes c.pages s.holds.no_twice (not_empty e)

      below : length c.pages ≡ k → length (pop c.pages).1 ≢ k
      below e z = omega (arith, (gives e).one_less)

      unseen :
          length c.pages ≡ k → contains page c.pages ≡ false → contains page (pop c.pages).1 ≡ false
      unseen e miss = ground (arith, (gives e).others page)

  start-Sim : Sim (start k) (record { pages = []; hits = 0 })
  start-Sim = record {
    holds = record {
      valid = init-IsValid k some_room;
      room = refl;
      pages = refl;
      keys = λ j. refl;
      no_twice = unfold distinct in refl;
    };
    same_hits = refl;
  }

abbrev pub nothing : Cache
nothing = record { pages = []; hits = 0 }

module _ (p k : ℕ) (some_room : 0 < k) where
  abbrev FifoSim : Tlb → Cache → Type 0
  FifoSim = Sim dequeue pop_front dequeue-Removes k some_room

  abbrev LifoSim : Tlb → Cache → Type 0
  LifoSim = Sim dequeue_rear pop_back dequeue_rear-Removes k some_room

  fifo_step-Sim :
      (t : Tlb) (c : Cache) (a : ℕ)
      → FifoSim t c
      → FifoSim (fifo_step p t a) (access pop_front k c (page_number p a))
  unfolding fifo_step replace
  fifo_step-Sim t c a s =
      replace-Sim dequeue pop_front dequeue-Removes k some_room t c (page_number p a) s

  lifo_step-Sim :
      (t : Tlb) (c : Cache) (a : ℕ)
      → LifoSim t c
      → LifoSim (lifo_step p t a) (access pop_back k c (page_number p a))
  unfolding lifo_step replace
  lifo_step-Sim t c a s =
      replace-Sim dequeue_rear pop_back dequeue_rear-Removes k some_room t c (page_number p a) s

  fifo_loop-hits :
      (addrs : List ℕ) (t : Tlb) (c : Cache)
      → FifoSim t c
      → (fifo_loop p t addrs).hits ≡ (accesses pop_front k c (map (page_number p) addrs)).hits
  unfolding fifo_loop accesses
  fifo_loop-hits [] t c s = s.same_hits
  fifo_loop-hits (a ∷ addrs) t c s = fifo_loop-hits addrs _ _ (fifo_step-Sim t c a s)

  lifo_loop-hits :
      (addrs : List ℕ) (t : Tlb) (c : Cache)
      → LifoSim t c
      → (lifo_loop p t addrs).hits ≡ (accesses pop_back k c (map (page_number p) addrs)).hits
  unfolding lifo_loop accesses
  lifo_loop-hits [] t c s = s.same_hits
  lifo_loop-hits (a ∷ addrs) t c s = lifo_loop-hits addrs _ _ (lifo_step-Sim t c a s)

  -- With room for at least one page, `FIFO` counts the hits of a list of at most `k` pages in which
  -- a page that is not present replaces the oldest.
  pub fifo_refines :
      (addresses : List ℕ)
      → fifo p k addresses ≡ (accesses pop_front k nothing (map (page_number p) addresses)).hits
  unfolding fifo
  fifo_refines addresses =
      fifo_loop-hits addresses _ _ (start-Sim dequeue pop_front dequeue-Removes k some_room)

  -- With room for at least one page, `LIFO` counts the hits of a list of at most `k` pages in which
  -- a page that is not present replaces the newest.
  pub lifo_refines :
      (addresses : List ℕ)
      → lifo p k addresses ≡ (accesses pop_back k nothing (map (page_number p) addresses)).hits
  unfolding lifo
  lifo_refines addresses =
      lifo_loop-hits addresses _ _
        (start-Sim dequeue_rear pop_back dequeue_rear-Removes k some_room)
