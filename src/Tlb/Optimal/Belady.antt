-- ===== src/Tlb/Optimal/Belady.antt =====
-- `Optimal` against the policy that always replaces a page whose next use is the farthest.
use mathlib.Core.List.{Memᴰ}
use mathlib.Core.List.Memᴰ
use simulating_the_functioni.Base.{
  ℕ, suc, ◌+◌, ◌<◌, ◌≡◌, ◌≢◌, ◌↔◌, refl, ap, subst, sym, ◌∙◌, true, false, Option, none, some, List,
  [], ◌∷◌, ◌++◌, map, ◌==◌, ==_iff, length, arith, ℕ_discrete,
}
use simulating_the_functioni.Base.Keys.{contains, erase, contains-erase}
use simulating_the_functioni.Tlb.Replacement.{page_number}
use simulating_the_functioni.Tlb.Replacement.Policy.{Cache}
use simulating_the_functioni.Tlb.Optimal.{
  IntMap, lookup, put, erase_key, use_at, farthest, State, optimal_page, optimal_loop, optimal,
  fill_next_use,
}
use simulating_the_functioni.Tlb.Optimal.Uses.{first_from, nexts, fill_next_use_lem}
use simulating_the_functioni.Tlb.Optimal.Farthest.{NotAfter, Agree, farthest_lem}
use simulating_the_functioni.Tlb.Optimal.Entries.{
  keys, keys-update, keys-append, keys-erase, length-keys, lookup-none, lookup-some, mem_contains,
  contains_mem, erase_mem, put-some, put-absent, some_entry, update-Agree, append-Agree,
}

-- What `page` may be replaced for: it is present, and no page is used after it from index `i` on.
abbrev pub IsFarthest : ℕ → List ℕ → ℕ → List ℕ → Type 0
IsFarthest page pages i future =
    (contains page pages ≡ true)
    × ((q : ℕ)
        → contains q pages ≡ true
        → NotAfter (first_from q i future) (first_from page i future))

-- The runs of the policy on the pages from index `i` on, with `k` places, from a buffer to the hits
-- at the end.
pub data Belady (k : ℕ) : ℕ → List ℕ → Cache → ℕ → Type 0 where
  done : {i : ℕ} {c : Cache} → Belady k i [] c c.hits
  hit :
      {i page hits : ℕ} {rest : List ℕ} {c : Cache}
      → contains page c.pages ≡ true
      → Belady k (suc i) rest (record c { hits = c.hits + 1 }) hits
      → Belady k i (page ∷ rest) c hits
  room :
      {i page hits : ℕ} {rest : List ℕ} {c : Cache}
      → contains page c.pages ≡ false
      → length c.pages ≢ k
      → Belady k (suc i) rest (record c { pages = c.pages ++ page ∷ [] }) hits
      → Belady k i (page ∷ rest) c hits
  replace :
      {i page hits : ℕ} {rest : List ℕ} {c : Cache} (victim : ℕ)
      → contains page c.pages ≡ false
      → length c.pages ≡ k
      → IsFarthest victim c.pages (suc i) rest
      → Belady k (suc i) rest (record c { pages = erase victim c.pages ++ page ∷ [] }) hits
      → Belady k i (page ∷ rest) c hits

first_from-ne :
    (q i page : ℕ) (rest : List ℕ)
    → q ≢ page
    → first_from q i (page ∷ rest) ≡ first_from q (suc i) rest
unfolding first_from
first_from-ne q i page rest ne = ground (arith, ==_iff q page)

-- A map goes through each of its entries and nothing else.
abbrev pub IsIteration : (IntMap → IntMap) → Type 0
IsIteration order = (m : IntMap) (e : ℕ × ℕ) → Memᴰ e (order m) ↔ Memᴰ e m

module _ (order : IntMap → IntMap) (visits : IsIteration order) (p k : ℕ) (some_room : 0 < k) where
  -- From index `i` on, the table is that of the pages to come.
  abbrev IsTable : List (Option ℕ) → ℕ → List ℕ → Type 0
  IsTable next_use i future = (j : ℕ) → use_at next_use (i + j) ≡ use_at (nexts i future) j

  module _ (next_use : List (Option ℕ)) (i page : ℕ) (future : List ℕ) (s : State) where
    abbrev use_now : ℕ → Option ℕ
    use_now q = first_from q i (page ∷ future)

    abbrev use_later : ℕ → Option ℕ
    use_later q = first_from q (suc i) future

    same : (q : ℕ) → q ≢ page → use_now q ≡ use_later q
    same q = first_from-ne q i page future

    -- The loop replaces what the policy may.
    choice :
        Agree next_use use_now s.map
        → contains page (keys s.map) ≡ false
        → length s.map ≡ k
        → (victim : ℕ) × (farthest next_use (order s.map) none none ≡ some victim)
          × IsFarthest victim (keys s.map) (suc i) future
    choice agree absent full =
        let (victim, found, (v, there), last) =
          farthest_lem next_use use_now (order s.map) not_empty
            (λ q v mem. agree q v ((visits s.map (q, v)).0 mem)) in
        let here = mem_contains victim v s.map ((visits s.map (victim, v)).0 there) in
        (
          victim,
          found,
          (
            here,
            λ q h.
                let (w, mem) = contains_mem q s.map h in
                subst (λ x. NotAfter x (use_later victim)) (same q (other q h))
                  (subst (λ x. NotAfter (use_now q) x) (same victim (other victim here))
                    (last q w ((visits s.map (q, w)).1 mem))),
          ),
        )
      where
        not_empty : order s.map ≢ []
        not_empty z =
            let (e, mem) = some_entry s.map (omega arith) in
            Memᴰ.not-nil (subst (λ m. Memᴰ e m) z ((visits s.map e).1 mem))

        other : (q : ℕ) → contains q (keys s.map) ≡ true → q ≢ page
        other q h e = cc (sym absent ∙ ap (λ x. contains x (keys s.map)) (sym e) ∙ h)

    module _ (hits_from : State → ℕ) (here : use_at next_use i ≡ use_later page)
        (agree : Agree next_use use_now s.map)
        (later : (t : State)
          → Agree next_use use_later t.map
          → Belady k
              (suc i)
              future
              (record { pages = keys t.map; hits = t.hits })
              (hits_from t)) where
      -- A page that is not present is put into what is left of the map.
      insert-Belady :
          (m : IntMap)
          → contains page (keys m) ≡ false
          → Agree next_use use_now m
          → Belady k
              (suc i)
              future
              (record { pages = keys m ++ page ∷ []; hits = s.hits })
              (hits_from (record s { map = put page i m }))
      insert-Belady m absent a =
          subst
            (λ l.
              Belady k (suc i) future (record { pages = l; hits = s.hits })
                (hits_from (record s { map = put page i m })))
            (ap keys (put-absent page i m absent) ∙ keys-append m page i)
            (later (record s { map = put page i m })
              (subst (Agree next_use use_later) (sym (put-absent page i m absent))
                (append-Agree next_use use_now use_later page i same here m absent a)))

      round-Belady :
          (o : Option ℕ)
          → lookup page s.map ≡ o
          → Belady k i
              (page ∷ future)
              (record { pages = keys s.map; hits = s.hits })
              (hits_from (optimal_page order p k next_use i page s o))
      unfolding optimal_page
      round-Belady (some old) e = hit (lookup-some page old s.map e) (
          subst
            (λ l.
              Belady k (suc i) future (record { pages = l; hits = s.hits + 1 })
                (hits_from (record { map = put page i s.map; hits = s.hits + 1 })))
            (ap keys (put-some page i old s.map e) ∙ keys-update page i s.map)
            (later (record { map = put page i s.map; hits = s.hits + 1 })
              (subst (Agree next_use use_later) (sym (put-some page i old s.map e))
                (update-Agree next_use use_now use_later page i same here s.map agree))))
      round-Belady none e = elim (ℕ_discrete (length s.map) k) [
        | no part ↦ rw (ne_false part) (
            room (lookup-none page s.map e) (λ z. part (sym (length-keys s.map) ∙ z))
              (insert-Belady s.map (lookup-none page s.map e) agree))
        | yes full ↦
            let (victim, found, far) = choice agree (lookup-none page s.map e) full in
            rw (found, (==_iff (length s.map) k).1 full)
              (replace victim (lookup-none page s.map e) (length-keys s.map ∙ full) far (
                subst
                  (λ l.
                    Belady k (suc i) future (record { pages = l ++ page ∷ []; hits = s.hits })
                      (hits_from (record s { map = put page i (erase_key victim s.map) })))
                  (keys-erase victim s.map)
                  (insert-Belady (erase_key victim s.map) (still victim)
                    (λ q v mem. agree q v (erase_mem victim (q, v) s.map mem)))))
      ]
        where
          ne_false : length s.map ≢ k → (length s.map == k) ≡ false
          ne_false ne = ground arith

          still : (victim : ℕ) → contains page (keys (erase_key victim s.map)) ≡ false
          still victim =
              rw (keys-erase victim s.map)
                (ground (arith, contains-erase page victim (keys s.map), lookup-none page s.map e))

  loop-Belady :
      (next_use : List (Option ℕ)) (i : ℕ) (addresses : List ℕ) (s : State)
      → IsTable next_use i (map (page_number p) addresses)
      → Agree next_use (λ q. first_from q i (map (page_number p) addresses)) s.map
      → Belady k i
          (map (page_number p) addresses)
          (record { pages = keys s.map; hits = s.hits })
          (optimal_loop order p k next_use i s addresses).hits
  unfolding optimal_loop nexts
  loop-Belady next_use i [] s table agree = done
  loop-Belady next_use i (a ∷ rest) s table agree =
      round-Belady next_use i (page_number p a) (map (page_number p) rest) s
        (λ t. (optimal_loop order p k next_use (suc i) t rest).hits)
        (sym (ap (use_at next_use) (omega arith)) ∙ table 0) agree
        (λ t.
          loop-Belady next_use (suc i) rest t
            (λ j. ap (use_at next_use) (omega arith) ∙ table (suc j)))
        (lookup (page_number p a) s.map) refl

  -- With room for at least one page, and in whatever order the map is gone through, `Optimal` counts
  -- the hits of a run of the policy that puts a page which is not present in the place of one, if `k`
  -- pages are present, such that no page that is present is next used after it.
  pub optimal_refines :
      (addresses : List ℕ)
      → Belady k 0
          (map (page_number p) addresses)
          (record { pages = []; hits = 0 })
          (optimal order p k addresses)
  unfolding optimal
  optimal_refines addresses =
      loop-Belady (fill_next_use p 0 addresses).0 0 addresses (record { map = []; hits = 0 })
        (λ j.
          ap (use_at (fill_next_use p 0 addresses).0) (omega arith)
          ∙ ap (λ t. use_at t j) (fill_next_use_lem p 0 addresses).0)
        (λ q v mem. absurd (Memᴰ.not-nil mem))
