-- ===== src/Alloc/Free/Settle.antt =====
-- `my_free` behind its mark: the block before takes the freed one in if it is free.
use simulating_the_functioni.Base.{
  ℕ, ◌≡◌, ◌⊎◌, inl, inr, refl, sym, ap, subst, ◌∙◌, Bool, true, false, Bool-cases, not, ◌&&◌, List,
  [], ◌∷◌, ◌++◌, append_assoc, ◌==◌, if◌then◌else◌, if_true, arith,
}
use simulating_the_functioni.Alloc.{
  Header, Heap, Memory, set_free, merge_free_blocks, join_next, release, prev_is_free,
}
use simulating_the_functioni.Alloc.Chain.{Block, block, first, last}
use simulating_the_functioni.Alloc.Mark.{mark-Seg, mark-distinct}
use simulating_the_functioni.Alloc.Chain.{Spot}
use simulating_the_functioni.Alloc.Join.{joined, join-Seg, join-distinct}
use simulating_the_functioni.Alloc.Spec.{IsList}
use simulating_the_functioni.Base.Dll.Spots
use simulating_the_functioni.Alloc.Chain.{blocks}
use simulating_the_functioni.Alloc.Free.Promise.{Freed, before, settled, free_list, Holds}
use simulating_the_functioni.Alloc.Free.Release.{release-Holds}

snoc_cases : (xs : List Block) → (xs ≡ []) ⊎ ((zs : List Block) × (p : Block) × (xs ≡ zs ++ p ∷ []))
snoc_cases [] = inl refl
snoc_cases (x ∷ xs) = elim (snoc_cases xs) [
  | inl e ↦ inr ([], x, ap (λ l. x ∷ l) e)
  | inr (zs, p, e) ↦ inr (x ∷ zs, p, ap (λ l. x ∷ l) e)
]

abbrev freed : Block → Block
freed b = block b.addr true b.size

-- The two outcomes behind a block.
abbrev behind : Bool → (zs : List Block) (p b : Block) (ys : List Block) → Freed
behind c zs p b ys =
    if c
    then before zs (settled (joined p (freed b)) ys)
    else before (zs ++ p ∷ []) (settled (freed b) ys)

cons_behind :
    (c : Bool) (z : Block) (zs : List Block) (p b : Block) (ys : List Block)
    → before (z ∷ []) (behind c zs p b ys) ≡ behind c (z ∷ zs) p b ys
cons_behind true z zs p b ys = refl
cons_behind false z zs p b ys = refl

free_list-snoc :
    (zs : List Block) (p b : Block) (ys : List Block)
    → free_list (zs ++ p ∷ []) b ys ≡ behind p.is_free zs p b ys
free_list-snoc [] p b ys = refl
free_list-snoc (z ∷ []) p b ys = cons_behind p.is_free z [] p b ys
free_list-snoc (z ∷ w ∷ zs) p b ys =
    ap (before (z ∷ [])) (free_list-snoc (w ∷ zs) p b ys) ∙ cons_behind p.is_free z (w ∷ zs) p b ys

module _ (m : Memory) (b : Block) (ys : List Block) where
  abbrev pub h : Heap
  h = set_free m.heap b.addr true

  abbrev pub marked : Memory
  marked = record m { heap = h }

  marked-IsList : (xs : List Block) → IsList m (xs ++ b ∷ ys) → IsList marked (xs ++ freed b ∷ ys)
  marked-IsList xs l = record {
    base = l.base ∙ same_first xs;
    chain = mark-Seg m.heap xs b ys true l.chain l.once;
    once = mark-distinct m.heap xs b ys true l.chain l.once;
  }
    where
      same_first : (zs : List Block) → first (zs ++ b ∷ ys) 0 ≡ first (zs ++ freed b ∷ ys) 0
      same_first [] = refl
      same_first (z ∷ zs) = refl

  -- `my_free` behind the mark.
  abbrev pub settle : Memory
  settle =
      if prev_is_free h b.addr
      then release (record m { heap = merge_free_blocks h (h b.addr).prev }) (h b.addr).prev
      else release marked b.addr

  settle_first : IsList m (b ∷ ys) → Holds m settle (free_list [] b ys)
  settle_first l =
      let k = marked-IsList [] l in
      let t = Spots.spot blocks h [] (freed b) ys k.chain k.once in
      let alone : prev_is_free h b.addr ≡ false = ground (arith, t.here) in
      rw alone (
        let r = release-Holds marked (freed b) [] ys k in record { list = r.list; calls = r.calls })

  last-snoc : (start : ℕ) (zs : List Block) (p : Block) → last start (zs ++ p ∷ []) ≡ p.addr
  last-snoc start [] p = refl
  last-snoc start (z ∷ zs) p = last-snoc z.addr zs p

  module _ (zs : List Block) (p : Block) (l : IsList m ((zs ++ p ∷ []) ++ b ∷ ys)) where
    abbrev rest : List Block
    rest = freed b ∷ ys

    k : IsList marked ((zs ++ p ∷ []) ++ rest)
    k = marked-IsList (zs ++ p ∷ []) l

    k' : IsList marked (zs ++ p ∷ rest)
    k' = subst (IsList marked) (append_assoc zs (p ∷ []) rest) k

    t : Spot h (zs ++ p ∷ []) (freed b) ys
    t = Spots.spot blocks h (zs ++ p ∷ []) (freed b) ys k.chain k.once

    u : Spot h zs p rest
    u = Spots.spot blocks h zs p rest k'.chain k'.once

    at_prev : (h b.addr).prev ≡ p.addr
    at_prev = ap (λ (c : Header). c.prev) t.here ∙ last-snoc 0 zs p

    test : prev_is_free h b.addr ≡ p.is_free
    test =
        ap (λ q. not (q == 0) && (h q).is_free) at_prev
        ∙ ap (λ (c : Header). not (p.addr == 0) && c.is_free) u.here
        ∙ ground (arith, u.nonzero)

    -- The block before takes this one in, which is free by now.
    merges : merge_free_blocks h p.addr ≡ join_next h p.addr
    unfolding merge_free_blocks
    merges =
        ap
          (λ (c : Header).
            if not (c.next == 0) && (h c.next).is_free then join_next h p.addr else h)
          u.here
        ∙ ap (λ (c : Header). if not (b.addr == 0) && c.is_free then join_next h p.addr else h)
            t.here
        ∙ if_true {b = not (b.addr == 0) && true} _ _ (ground (arith, t.nonzero))

    same_first :
        (xs : List Block) → first (xs ++ p ∷ rest) 0 ≡ first (xs ++ joined p (freed b) ∷ ys) 0
    same_first [] = refl
    same_first (x ∷ xs) = refl

    joined_list : IsList (record m { heap = join_next h p.addr }) (zs ++ joined p (freed b) ∷ ys)
    joined_list = record {
      base = k'.base ∙ same_first zs;
      chain = join-Seg h zs p (freed b) ys k'.chain k'.once;
      once = join-distinct h zs p (freed b) ys k'.chain k'.once;
    }

    -- What is released, given the heap and the place.
    abbrev Releases : Heap → ℕ → Freed → Type 0
    Releases g q f = Holds m (release (record m { heap = g }) q) f

    with_free :
        Releases
          (merge_free_blocks h (h b.addr).prev)
          (h b.addr).prev
          (before zs (settled (joined p (freed b)) ys))
    with_free =
        let r =
          release-Holds (record m { heap = join_next h p.addr }) (joined p (freed b)) zs ys
            joined_list in
        subst
          (λ q. Releases (merge_free_blocks h q) q (before zs (settled (joined p (freed b)) ys)))
          (sym at_prev)
          (subst (λ g. Releases g p.addr (before zs (settled (joined p (freed b)) ys))) (sym merges)
            (record { list = r.list; calls = r.calls }))

    with_used : Releases h b.addr (before (zs ++ p ∷ []) (settled (freed b) ys))
    with_used =
        let r = release-Holds marked (freed b) (zs ++ p ∷ []) ys k in
        record { list = r.list; calls = r.calls }

    settle_behind : Holds m settle (behind p.is_free zs p b ys)
    settle_behind = elim (Bool-cases p.is_free) [
      | inl e ↦ subst (λ c. Holds m settle (behind c zs p b ys)) (sym e) (rw (test ∙ e) with_free)
      | inr e ↦ subst (λ c. Holds m settle (behind c zs p b ys)) (sym e) (rw (test ∙ e) with_used)
    ]

  -- A block that is marked free settles, wherever it is in the list.
  pub settle_any : (xs : List Block) → IsList m (xs ++ b ∷ ys) → Holds m settle (free_list xs b ys)
  settle_any xs l = elim (snoc_cases xs) [
    | inl e ↦
        subst (λ cs. Holds m settle (free_list cs b ys)) (sym e)
          (settle_first (subst (λ cs. IsList m (cs ++ b ∷ ys)) e l))
    | inr (zs, p, e) ↦
        subst (λ cs. Holds m settle (free_list cs b ys)) (sym e)
          (subst (Holds m settle) (sym (free_list-snoc zs p b ys))
            (settle_behind zs p (subst (λ cs. IsList m (cs ++ b ∷ ys)) e l)))
  ]
