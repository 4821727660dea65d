-- ===== src/Tlb/Lru/Cleanup.antt =====
-- The loop of `LRU` that deletes the nodes at the end.
use simulating_the_functioni.Base.{
  ℕ, ◌≡◌, refl, ap, ◌∙◌, true, false, some, List, [], ◌∷◌, ◌==◌, ==_iff, if_true, if_false, length,
  arith,
}
use simulating_the_functioni.Base.Keys.{
  contains, erase, distinct, contains-head, contains-erase, distinct-head, distinct-tail,
}
use simulating_the_functioni.Base.Dll
use simulating_the_functioni.Tlb.Optimal.{IntMap}
use simulating_the_functioni.Tlb.Lru.{Node, Store, clean_up}
use simulating_the_functioni.Tlb.Lru.Links.{nodes, addrs, Seg}

-- A list with nothing in it.
nothing_in : (live : List ℕ) → ((a : ℕ) → contains a live ≡ false) → live ≡ []
unfolding contains
nothing_in [] out = refl
nothing_in (x ∷ live) out = absurd (cc (out x, contains-head x live))

pub clean_up_lem :
    (h : Store) (prev head : ℕ) (xs : IntMap) (live : List ℕ)
    → Seg h prev xs 0
    → distinct (addrs xs) ≡ true
    → head ≡ Dll.first nodes xs 0
    → ((a : ℕ) → contains a live ≡ contains a (addrs xs))
    → clean_up (length xs) h head live ≡ some []
unfolding clean_up contains
clean_up_lem h prev head [] live s d e same =
    if_true _ _ ((==_iff head 0).1 e) ∙ ap some (nothing_in live same)
clean_up_lem h prev head (b ∷ xs) live s d e same =
    if_false {b = head == 0} _ _ (ground (arith, e, s.1))
    ∙ clean_up_lem h b.1 (h head).next xs (erase head live) s.2 (distinct-tail b.1 (addrs xs) d)
        (ap (λ a. (h a).next) e ∙ ap (λ (c : Node). c.next) s.0)
        (λ a.
          contains-erase a head live
          ∙ ground (arith, e, same a, ==_iff a b.1, distinct-head b.1 (addrs xs) d))
