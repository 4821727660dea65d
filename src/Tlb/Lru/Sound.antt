-- ===== src/Tlb/Lru/Sound.antt =====
-- `LRU` counts the hits of its policy and frees every node that it made.
use simulating_the_functioni.Base.{
  ℕ, ◌+◌, ◌<◌, ◌≡◌, ◌≢◌, refl, sym, ap, ap₂, subst, ◌∙◌, true, false, Option, none, some, List, [],
  ◌∷◌, ◌++◌, map, ◌==◌, ==_iff, if_true, if_false, length, arith, ℕ_discrete,
}
use simulating_the_functioni.Base.Keys.{contains, erase, distinct}
use simulating_the_functioni.Tlb.Queue.Ends.{pop_back, pop_back-snoc}
use simulating_the_functioni.Tlb.Replacement.{page_number}
use simulating_the_functioni.Tlb.Replacement.Policy.{Cache}
use simulating_the_functioni.Tlb.Replacement.Sound.{nothing}
use simulating_the_functioni.Tlb.Optimal.{IntMap, lookup}
use simulating_the_functioni.Tlb.Optimal.Entries.{
  keys, keys-append, length-keys, lookup-none, lookup-some,
}
use simulating_the_functioni.Tlb.Lru.{
  Store, Lru, start, promote, drop_tail, clean_up, add_page, lru_page, lru_loop, lru,
}
use simulating_the_functioni.Tlb.Lru.Recent.{touch, touches}
use simulating_the_functioni.Tlb.Lru.Entries.{keys-app, lookup-erase, lookup-split, erase-once}
use simulating_the_functioni.Tlb.Lru.Holds.{Holds, cut_out, in_front, promote-Holds}
use simulating_the_functioni.Tlb.Lru.Cleanup.{clean_up_lem}
use simulating_the_functioni.Tlb.Lru.Miss.{Gives, drop_tail-Holds, add_page-Holds}

-- The pages of the list of nodes are those of the policy.
record Sim (s : Lru) (c : Cache) : Type 0 where
  entries : IntMap
  holds : Holds s entries
  pages : keys entries ≡ c.pages
  same_hits : s.hits ≡ c.hits

with_hits : (s : Lru) (xs : IntMap) (n : ℕ) → Holds s xs → Holds (record s { hits = n }) xs
with_hits s xs n t = record {
  linked = t.linked;
  no_shared = t.no_shared;
  no_twice = t.no_twice;
  at_head = t.at_head;
  at_tail = t.at_tail;
  allocated = t.allocated;
  mapped = t.mapped;
  unique = t.unique;
  size = t.size;
}

promote-hits : (s : Lru) (node : ℕ) → (promote s node).hits ≡ s.hits
unfolding promote
promote-hits s node = ground arith

snoc_view : (x : ℕ × ℕ) (xs : IntMap) → (ys : IntMap) × (y : ℕ × ℕ) × (x ∷ xs ≡ ys ++ y ∷ [])
snoc_view x [] = ([], x, refl)
snoc_view x (z ∷ xs) = let (ys, y, e) = snoc_view z xs in (x ∷ ys, y, ap (λ l. x ∷ l) e)

-- A full list loses its last page, in the policy as in the list of nodes.
drop_Sim :
    (s : Lru) (c : Cache)
    → Sim s c
    → length c.pages ≢ 0
    → Sim (drop_tail s) (record c { pages = (pop_back c.pages).1 })
unfolding drop_tail
drop_Sim s c t ne = go t.entries t.holds t.pages
  where
    go :
        (xs : IntMap)
        → Holds s xs
        → keys xs ≡ c.pages
        → Sim (drop_tail s) (record c { pages = (pop_back c.pages).1 })
    go [] h e = absurd (ne (sym (ap length e)))
    go (x ∷ xs) h e =
        let (ys, y, v) = snoc_view x xs in
        record {
          entries = ys;
          holds = drop_tail-Holds s ys y (subst (Holds s) v h);
          pages = sym (
              ap (λ l. (pop_back l).1) (sym e ∙ ap keys v ∙ keys-append ys y.0 y.1)
              ∙ ap (λ (r : Option ℕ × List ℕ). r.1) (pop_back-snoc (keys ys) y.0));
          same_hits = t.same_hits;
        }

-- The page that a drop takes away is another.
drop_absent : (s : Lru) (page : ℕ) → lookup page s.map ≡ none → lookup page (drop_tail s).map ≡ none
unfolding drop_tail
drop_absent s page e = lookup-erase page (s.store s.tail).page_number s.map ∙ ground (arith, e)

end_lem : (s : Lru) (c : Cache) → Sim s c → clean_up (length s.map) s.store s.head s.live ≡ some []
end_lem s c t =
    ap (λ n. clean_up n s.store s.head s.live) t.holds.size
    ∙ clean_up_lem s.store 0 s.head t.entries s.live t.holds.linked t.holds.no_shared
        t.holds.at_head t.holds.allocated

module _ (k : ℕ) (c : Cache) (page : ℕ) where
  touch_hit :
      contains page c.pages ≡ true
      → touch k c page ≡ record { pages = page ∷ erase page c.pages; hits = c.hits + 1 }
  unfolding touch
  touch_hit e = if_true _ _ e

  touch_full :
      contains page c.pages ≡ false
      → length c.pages ≡ k
      → touch k c page ≡ record c { pages = page ∷ (pop_back c.pages).1 }
  unfolding touch
  touch_full e full =
      if_false _ _ e
      ∙ ap (λ (l : List ℕ). record c { pages = page ∷ l })
          (if_true _ _ ((==_iff (length c.pages) k).1 full))

  touch_room :
      contains page c.pages ≡ false
      → length c.pages ≢ k
      → touch k c page ≡ record c { pages = page ∷ c.pages }
  unfolding touch
  touch_room e part =
      if_false _ _ e
      ∙ ap (λ (l : List ℕ). record c { pages = page ∷ l })
          (if_false {b = length c.pages == k} _ _ (ground arith))

module _ (new : List ℕ → ℕ) (gives : Gives new) (p k : ℕ) (some_room : 0 < k) where
  hit_Sim :
      (s : Lru) (c : Cache) (page node : ℕ)
      → Sim s c
      → lookup page s.map ≡ some node
      → Sim (lru_page new p k s page (some node)) (touch k c page)
  unfolding lru_page
  hit_Sim s c page node t e =
      let there = sym (t.holds.mapped page) ∙ e in
      let (xs, ys, split) = lookup-split page node t.entries there in
      let cut = cut_out keys keys-app page (page, node) (λ l. refl) xs ys in
      subst (Sim (promote (record s { hits = s.hits + 1 }) node))
        (sym (
          touch_hit k c page
            (sym (ap (contains page) t.pages) ∙ lookup-some page node t.entries there)))
        (record {
          entries = (page, node) ∷ xs ++ ys;
          holds =
              promote-Holds (record s { hits = s.hits + 1 }) xs (page, node) ys
                (with_hits s (xs ++ (page, node) ∷ ys) (s.hits + 1)
                  (subst (Holds s) split t.holds));
          pages =
              in_front keys keys-app page (page, node) (λ l. refl) xs ys
              ∙ ap (λ l. page ∷ l)
                  (sym (
                    ap (erase page) (sym t.pages ∙ ap keys split ∙ cut)
                    ∙ erase-once (keys xs) page (keys ys)
                        (sym (ap distinct (ap keys split ∙ cut)) ∙ t.holds.no_twice)));
          same_hits =
              promote-hits (record s { hits = s.hits + 1 }) node ∙ ap (λ n. n + 1) t.same_hits;
        })

  add_Sim :
      (s : Lru) (c : Cache) (page : ℕ)
      → Sim s c
      → lookup page s.map ≡ none
      → Sim (add_page new s page) (record c { pages = page ∷ c.pages })
  unfolding add_page
  add_Sim s c page t e = record {
    entries = (page, new s.live) ∷ t.entries;
    holds = add_page-Holds new gives s t.entries page t.holds e;
    pages = ap (λ l. page ∷ l) t.pages;
    same_hits = t.same_hits;
  }

  miss_Sim :
      (s : Lru) (c : Cache) (page : ℕ)
      → Sim s c
      → lookup page s.map ≡ none
      → Sim (lru_page new p k s page none) (touch k c page)
  unfolding lru_page
  miss_Sim s c page t e = elim (ℕ_discrete (length c.pages) k) [
    | yes full ↦
        subst (Sim (lru_page new p k s page none)) (sym (touch_full k c page missing full)) (
          subst (λ z. Sim (add_page new z page) (record c { pages = page ∷ (pop_back c.pages).1 }))
            (sym (if_true _ _ ((==_iff (length s.map) k).1 (same_size ∙ full))))
            (add_Sim (drop_tail s) _ page (drop_Sim s c t (λ z. omega (arith, z, full)))
              (drop_absent s page e)))
    | no part ↦
        subst (Sim (lru_page new p k s page none)) (sym (touch_room k c page missing part)) (
          subst (λ z. Sim (add_page new z page) (record c { pages = page ∷ c.pages }))
            (sym (if_false {b = length s.map == k} _ _ (ground (arith, same_size, part))))
            (add_Sim s c page t e))
  ]
    where
      missing : contains page c.pages ≡ false
      missing =
          sym (ap (contains page) t.pages)
          ∙ lookup-none page t.entries (sym (t.holds.mapped page) ∙ e)

      same_size : length s.map ≡ length c.pages
      same_size = t.holds.size ∙ sym (length-keys t.entries) ∙ ap length t.pages

  page_Sim :
      (s : Lru) (c : Cache) (page : ℕ) (o : Option ℕ)
      → Sim s c
      → lookup page s.map ≡ o
      → Sim (lru_page new p k s page o) (touch k c page)
  page_Sim s c page none t e = miss_Sim s c page t e
  page_Sim s c page (some node) t e = hit_Sim s c page node t e

  loop_Sim :
      (addresses : List ℕ) (s : Lru) (c : Cache)
      → Sim s c
      → Sim (lru_loop new p k s addresses) (touches k c (map (page_number p) addresses))
  unfolding lru_loop touches
  loop_Sim [] s c t = t
  loop_Sim (a ∷ rest) s c t =
      loop_Sim rest _ _ (page_Sim s c (page_number p a) (lookup (page_number p a) s.map) t refl)

  start_Sim : (h : Store) → Sim (start h) nothing
  unfolding distinct
  start_Sim h = record {
    entries = [];
    holds = record {
      linked = tt;
      no_shared = refl;
      no_twice = refl;
      at_head = refl;
      at_tail = refl;
      allocated = λ a. refl;
      mapped = λ j. refl;
      unique = refl;
      size = refl;
    };
    pages = refl;
    same_hits = refl;
  }

  -- With room for at least one page, and with a `new` that never gives 0 or an address that is live,
  -- `LRU` counts the hits of a list of at most `k` pages in which a page that is used moves to the
  -- front and one that is not present replaces the last. Its last loop ends and leaves no node live.
  pub lru_refines :
      (h : Store) (addresses : List ℕ)
      → lru new p k h addresses
        ≡ ((touches k nothing (map (page_number p) addresses)).hits, some [])
  unfolding lru
  lru_refines h addresses =
      let t = loop_Sim addresses _ _ (start_Sim h) in
      ap₂ (λ n l. (n, l)) t.same_hits (end_lem _ _ t)
