-- ===== src/Tlb/Lru/Holds.antt =====
-- What holds between two addresses: the nodes are those of the pages that are present, each in the
-- list once and in the map, and none else is live.
use simulating_the_functioni.Base.{
  ℕ, ◌≡◌, ◌≢◌, refl, sym, ap, subst, ◌∙◌, true, false, List, [], ◌∷◌, ◌++◌, append-nil, ◌==◌,
  ==_iff, if◌then◌else◌, if_true, if_false, length, arith,
}
use simulating_the_functioni.Base.Keys.{contains, distinct, contains-head}
use simulating_the_functioni.Base.Dll
use simulating_the_functioni.Base.Dll.Spots
use simulating_the_functioni.Tlb.Optimal.{IntMap, lookup}
use simulating_the_functioni.Tlb.Optimal.Entries.{keys}
use simulating_the_functioni.Tlb.Lru.{Lru, unlink, link_front, promote}
use simulating_the_functioni.Tlb.Lru.Entries.{
  keys-app, lookup-cut, contains-cut, length-cut, distinct-front,
}
use simulating_the_functioni.Tlb.Lru.Links.{
  nodes, addrs, Seg, link_front-Seg, unlink-Seg, unlink_page, unlink_prev, node_nonzero,
}

pub record Holds (s : Lru) (xs : IntMap) : Type 0 where
  pub linked : Seg s.store 0 xs 0
  pub no_shared : distinct (addrs xs) ≡ true
  pub no_twice : distinct (keys xs) ≡ true
  pub at_head : s.head ≡ Dll.first nodes xs 0
  pub at_tail : s.tail ≡ Dll.last nodes 0 xs
  pub allocated : (a : ℕ) → contains a s.live ≡ contains a (addrs xs)
  pub mapped : (k : ℕ) → lookup k s.map ≡ lookup k xs
  pub unique : distinct (keys s.map) ≡ true
  pub size : length s.map ≡ length xs

-- A list of keys or of addresses with one in the middle, and with it in front.
module _ (f : IntMap → List ℕ) (f-app : (xs ys : IntMap) → f (xs ++ ys) ≡ f xs ++ f ys) (q : ℕ)
    (b : ℕ × ℕ) (f-cons : (ys : IntMap) → f (b ∷ ys) ≡ q ∷ f ys) (xs ys : IntMap) where
  pub cut_out : f (xs ++ b ∷ ys) ≡ f xs ++ q ∷ f ys
  cut_out = f-app xs (b ∷ ys) ∙ ap (λ l. f xs ++ l) (f-cons ys)

  pub in_front : f (b ∷ xs ++ ys) ≡ q ∷ f xs ++ f ys
  in_front = f-cons (xs ++ ys) ∙ ap (λ l. q ∷ l) (f-app xs ys)

  pub front-distinct : distinct (f (xs ++ b ∷ ys)) ≡ true → distinct (f (b ∷ xs ++ ys)) ≡ true
  front-distinct d =
      ap distinct in_front ∙ distinct-front (f xs) q (f ys) (sym (ap distinct cut_out) ∙ d)

  pub front-contains : (a : ℕ) → contains a (f (xs ++ b ∷ ys)) ≡ contains a (f (b ∷ xs ++ ys))
  front-contains a =
      ap (contains a) cut_out ∙ contains-cut a (f xs) q (f ys) ∙ sym (ap (contains a) in_front)

-- The tail when a node has moved to the front.
abbrev tail_after : (node prev tail : ℕ) → ℕ
tail_after node prev tail =
    let t = if node == tail then prev else tail in if t == 0 then node else t

tail_moves : (node prev tail : ℕ) → node ≡ tail → prev ≢ 0 → tail_after node prev tail ≡ prev
tail_moves node prev tail e nz = ground arith

tail_stays : (node prev tail : ℕ) → node ≢ tail → tail ≢ 0 → tail_after node prev tail ≡ tail
tail_stays node prev tail ne nz = ground arith

-- A hit.
module _ (s : Lru) (x : ℕ × ℕ) (zs : IntMap) (b : ℕ × ℕ) (ys : IntMap)
    (t : Holds s (x ∷ zs ++ b ∷ ys)) where
  abbrev xs : IntMap
  xs = x ∷ zs

  spot : Spots.Spot nodes s.store xs b ys
  spot = Spots.spot nodes s.store xs b ys t.linked t.no_shared

  pub not_head : (b.1 == s.head) ≡ false
  not_head = ground (arith, spot.left_ne x.1 (contains-head x.1 (addrs zs)), t.at_head)

  abbrev moved : Lru
  moved =
      let h = unlink s.store b.1 in
      let tail = if b.1 == s.tail then (h b.1).prev else s.tail in
      record s {
        store = link_front h s.head b.1;
        head = b.1;
        tail = if tail == 0 then b.1 else tail;
      }

  shared : distinct (addrs (b ∷ xs ++ ys)) ≡ true
  shared = front-distinct addrs (Dll.addrs-append nodes) b.1 b (λ l. refl) xs ys t.no_shared

  tail_at :
      (ws : IntMap)
      → contains b.1 (addrs ws) ≡ false
      → Seg s.store b.1 ws 0
      → s.tail ≡ Dll.last nodes b.1 ws
      → moved.tail ≡ Dll.last nodes x.1 (zs ++ ws)
  tail_at [] out seg e =
      tail_moves b.1 (unlink s.store b.1 b.1).prev s.tail (sym e)
        (λ z. Dll.last_nonzero nodes s.store 0 b.1 x zs spot.left (sym before ∙ z))
      ∙ before
      ∙ sym (ap (Dll.last nodes x.1) (append-nil zs))
    where
      before : (unlink s.store b.1 b.1).prev ≡ Dll.last nodes x.1 zs
      before = unlink_prev s.store xs b ys t.linked t.no_shared
  tail_at (w ∷ ws) out seg e =
      tail_stays b.1 (unlink s.store b.1 b.1).prev s.tail
        (λ z. cc (out, Dll.last_among nodes w ws, z ∙ e))
        (λ z. Dll.last_nonzero nodes s.store b.1 0 w ws seg (sym e ∙ z))
      ∙ e
      ∙ sym (Dll.last-append nodes x.1 zs w ws)

  pub moved-Holds : Holds moved (b ∷ xs ++ ys)
  moved-Holds = record {
    linked =
        subst (λ z. Seg (link_front (unlink s.store b.1) z b.1) 0 (b ∷ xs ++ ys) 0) (sym t.at_head)
          (link_front-Seg (unlink s.store b.1) b (xs ++ ys)
            (unlink-Seg s.store xs b ys t.linked t.no_shared) shared
            (node_nonzero s.store xs b ys t.linked t.no_shared)
            (unlink_page s.store xs b ys t.linked t.no_shared));
    no_shared = shared;
    no_twice = front-distinct keys keys-app b.0 b (λ l. refl) xs ys t.no_twice;
    at_head = refl;
    at_tail = tail_at ys spot.right_out spot.right (t.at_tail ∙ Dll.last-append nodes 0 xs b ys);
    allocated = λ a.
        t.allocated a ∙ front-contains addrs (Dll.addrs-append nodes) b.1 b (λ l. refl) xs ys a;
    mapped = λ k. t.mapped k ∙ lookup-cut k xs b.0 b.1 ys t.no_twice ∙ unfold lookup in refl;
    unique = t.unique;
    size = t.size ∙ length-cut xs b ys;
  }

-- A node that is in front stays there.
promote_head : (s : Lru) (node : ℕ) → s.head ≡ node → promote s node ≡ s
unfolding promote
promote_head s node e = if_true _ _ ((==_iff node s.head).1 (sym e))

pub promote-Holds :
    (s : Lru) (xs : IntMap) (b : ℕ × ℕ) (ys : IntMap)
    → Holds s (xs ++ b ∷ ys)
    → Holds (promote s b.1) (b ∷ xs ++ ys)
unfolding promote
promote-Holds s [] b ys t = subst (λ z. Holds z (b ∷ ys)) (sym (promote_head s b.1 t.at_head)) t
promote-Holds s (x ∷ zs) b ys t =
    subst (λ z. Holds z (b ∷ x ∷ zs ++ ys)) (sym (if_false _ _ (not_head s x zs b ys t)))
      (moved-Holds s x zs b ys t)
