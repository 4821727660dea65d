-- ===== src/Tlb/Lru/Miss.antt =====
-- What a miss keeps: the last node is dropped, and a new one is put in front.
use simulating_the_functioni.Base.{
  ℕ, ◌≡◌, ◌≢◌, refl, sym, ap, ap₂, subst, ◌∙◌, true, false, not, ◌&&◌, ◌||◌, none, some, List, [],
  ◌∷◌, ◌++◌, append-nil, ◌==◌, ==_iff, if◌then◌else◌, if_true, if_false, length, length-append,
  arith,
}
use simulating_the_functioni.Base.Keys.{
  distinct-erase, contains, erase, distinct, contains-insert, contains-erase, contains-ne,
  distinct-snoc, distinct-head, distinct-tail,
}
use simulating_the_functioni.Base.Dll
use simulating_the_functioni.Tlb.Optimal.{IntMap, lookup, put, erase_key}
use simulating_the_functioni.Tlb.Optimal.Entries.{
  keys, keys-erase, keys-append, lookup-none, lookup-some, put-absent,
}
use simulating_the_functioni.Tlb.Lru.{
  Node, Lru, write, set_next_of, link_front, drop_tail, add_page,
}
use simulating_the_functioni.Tlb.Lru.Entries.{
  keys-app, lookup-erase, lookup-cut, length-erase, lookup-snoc, lookup-absent,
}
use simulating_the_functioni.Tlb.Lru.Links.{
  nodes, addrs, Seg, link_front-Seg, page_is, prev_is, drop_last-Seg,
}
use simulating_the_functioni.Tlb.Lru.Holds.{Holds, front-distinct, front-contains}

module _ (s : Lru) (xs : IntMap) (b : ℕ × ℕ) (t : Holds s (xs ++ b ∷ [])) where
  tail_is : s.tail ≡ b.1
  tail_is = t.at_tail ∙ Dll.last-append nodes 0 xs b []

  page : (s.store s.tail).page_number ≡ b.0
  page = ap (λ a. (s.store a).page_number) tail_is ∙ page_is s.store xs b [] t.linked t.no_shared

  before : (s.store s.tail).prev ≡ Dll.last nodes 0 xs
  before = ap (λ a. (s.store a).prev) tail_is ∙ prev_is s.store xs b [] t.linked t.no_shared

  addrs-front : distinct (b.1 ∷ addrs xs) ≡ true
  addrs-front =
      sym (ap (λ l. distinct (b.1 ∷ addrs l)) (append-nil xs))
      ∙ front-distinct addrs (Dll.addrs-append nodes) b.1 b (λ l. refl) xs [] t.no_shared

  keys-front : distinct (b.0 ∷ keys xs) ≡ true
  keys-front =
      sym (ap (λ l. distinct (b.0 ∷ keys l)) (append-nil xs))
      ∙ front-distinct keys keys-app b.0 b (λ l. refl) xs [] t.no_twice

  in_map : (k : ℕ) → lookup k s.map ≡ (if k == b.0 then some b.1 else lookup k xs)
  in_map k =
      t.mapped k
      ∙ lookup-cut k xs b.0 b.1 [] t.no_twice
      ∙ ap (λ l. if k == b.0 then some b.1 else lookup k l) (append-nil xs)

  abbrev dropped : ℕ
  dropped = (s.store s.tail).page_number

  head_at :
      (ws : IntMap)
      → Seg s.store 0 ws b.1
      → s.head ≡ Dll.first nodes (ws ++ b ∷ []) 0
      → (s.store s.tail).prev ≡ Dll.last nodes 0 ws
      → (if (s.store s.tail).prev == 0 then 0 else s.head) ≡ Dll.first nodes ws 0
  head_at [] seg h e = if_true _ _ ((==_iff (s.store s.tail).prev 0).1 e)
  head_at (w ∷ ws) seg h e =
      if_false {b = (s.store s.tail).prev == 0} _ _
        (ground (arith, e, Dll.last_nonzero nodes s.store 0 b.1 w ws seg))
      ∙ h

  in_list : (a : ℕ) → contains a s.live ≡ ((a == b.1) || contains a (addrs xs))
  unfolding contains
  in_list a =
      t.allocated a
      ∙ front-contains addrs (Dll.addrs-append nodes) b.1 b (λ l. refl) xs [] a
      ∙ ap (λ l. (a == b.1) || contains a (addrs l)) (append-nil xs)

  still_live : (a : ℕ) → contains a (erase s.tail s.live) ≡ contains a (addrs xs)
  still_live a =
      contains-erase a s.tail s.live
      ∙ ap₂ (λ z c. not (a == z) && c) tail_is (in_list a)
      ∙ ground (arith, ==_iff a b.1, distinct-head b.1 (addrs xs) addrs-front)

  still_mapped : (k : ℕ) → lookup k (erase_key dropped s.map) ≡ lookup k xs
  still_mapped k =
      lookup-erase k dropped s.map
      ∙ ground (
        arith,
        page,
        in_map k,
        ==_iff k b.0,
        lookup-absent k xs,
        distinct-head b.0 (keys xs) keys-front,
      )

  is_mapped : contains dropped (keys s.map) ≡ true
  is_mapped =
      lookup-some dropped b.1 s.map (in_map dropped ∙ if_true _ _ ((==_iff dropped b.0).1 page))

  -- The page that was used last of all goes from the list, the map and the store.
  pub drop_tail-Holds : Holds (drop_tail s) xs
  unfolding drop_tail
  drop_tail-Holds = record {
    linked =
        subst (λ a. Seg (set_next_of s.store (s.store a).prev 0) 0 xs 0) (sym tail_is)
          (drop_last-Seg s.store xs b t.linked t.no_shared);
    no_shared = distinct-tail b.1 (addrs xs) addrs-front;
    no_twice = distinct-tail b.0 (keys xs) keys-front;
    at_head = head_at xs (Dll.Seg-front nodes s.store 0 0 xs (b ∷ []) t.linked) t.at_head before;
    at_tail = before;
    allocated = still_live;
    mapped = still_mapped;
    unique = ap distinct (keys-erase dropped s.map) ∙ distinct-erase dropped (keys s.map) t.unique;
    size =
        omega
          (arith, length-erase dropped s.map t.unique is_mapped, t.size, length-append xs (b ∷ []));
  }

-- Where `new` puts a node, nothing is yet.
abbrev pub Gives : (List ℕ → ℕ) → Type 0
Gives new = (live : List ℕ) → (new live ≢ 0) × (contains (new live) live ≡ false)

module _ (new : List ℕ → ℕ) (gives : Gives new) (s : Lru) (xs : IntMap) (page : ℕ) (t : Holds s xs)
    (missing : lookup page s.map ≡ none) where
  abbrev b : ℕ × ℕ
  b = (page, new s.live)

  abbrev c : Node
  c = record { page_number = page; prev = 0; next = 0 }

  not_in : contains b.1 (addrs xs) ≡ false
  not_in = sym (t.allocated b.1) ∙ (gives s.live).1

  all_apart : distinct (addrs (b ∷ xs)) ≡ true
  unfolding distinct
  all_apart = ground (arith, not_in, t.no_shared)

  unmapped : contains page (keys s.map) ≡ false
  unmapped = lookup-none page s.map missing

  not_present : contains page (keys xs) ≡ false
  not_present = lookup-none page xs (sym (t.mapped page) ∙ missing)

  put_is : put page b.1 s.map ≡ s.map ++ b ∷ []
  put_is = put-absent page b.1 s.map unmapped

  written : Seg (write s.store b.1 c) 0 xs 0
  written =
      Dll.Seg-same nodes s.store (write s.store b.1 c) 0 0 xs
        (λ a i. if_false _ _ (contains-ne a b.1 (addrs xs) not_in i)) t.linked

  tail_at :
      (ws : IntMap)
      → Seg s.store 0 ws 0
      → s.tail ≡ Dll.last nodes 0 ws
      → (if s.tail == 0 then b.1 else s.tail) ≡ Dll.last nodes b.1 ws
  tail_at [] seg e = if_true _ _ ((==_iff s.tail 0).1 e)
  tail_at (w ∷ ws) seg e =
      if_false {b = s.tail == 0} _ _
        (ground (arith, e, Dll.last_nonzero nodes s.store 0 0 w ws seg))
      ∙ e

  pub add_page-Holds : Holds (add_page new s page) (b ∷ xs)
  unfolding add_page contains distinct lookup
  add_page-Holds = record {
    linked =
        subst (λ z. Seg (link_front (write s.store b.1 c) z b.1) 0 (b ∷ xs) 0) (sym t.at_head)
          (link_front-Seg (write s.store b.1 c) b xs written all_apart (gives s.live).0
            (ap (λ (z : Node). z.page_number) (if_true _ _ ((==_iff b.1 b.1).1 refl))));
    no_shared = all_apart;
    no_twice = ground (arith, not_present, t.no_twice);
    at_head = refl;
    at_tail = tail_at xs t.linked t.at_tail;
    allocated = λ a. contains-insert a b.1 s.live ∙ ap (λ c. (a == b.1) || c) (t.allocated a);
    mapped = λ k.
        ap (lookup k) put_is
        ∙ lookup-snoc k s.map page b.1 unmapped
        ∙ ap (λ o. if k == page then some b.1 else o) (t.mapped k);
    unique =
        ap (λ m. distinct (keys m)) put_is
        ∙ ap distinct (keys-append s.map page b.1)
        ∙ distinct-snoc (keys s.map) page t.unique unmapped;
    size = ap length put_is ∙ omega (arith, length-append s.map (b ∷ []), t.size);
  }
