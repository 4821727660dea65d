-- ===== src/Alloc/Free/Release.antt =====
-- `release`, the end of `my_free`: a free block takes in the next one, or is given to `munmap`.
use simulating_the_functioni.Base.{
  ℕ, ◌+◌, ◌≡◌, ◌≢◌, inl, inr, refl, sym, ap, subst, ◌∙◌, Bool, true, false, Bool-cases, List, [],
  ◌∷◌, ◌++◌, append-nil, ◌==◌, ==_iff, if◌then◌else◌, arith,
}
use simulating_the_functioni.Base.Words.{u64}
use simulating_the_functioni.Base.Keys.{distinct}
use simulating_the_functioni.Alloc.{
  Header, Memory, header_size, set_next, merge_free_blocks, join_next, release,
}
use simulating_the_functioni.Alloc.Chain.{Block, addrs, first, last, Seg}
use simulating_the_functioni.Alloc.Chain.{Spot}
use simulating_the_functioni.Alloc.Join.{joined, join-Seg, join-distinct}
use simulating_the_functioni.Alloc.Spec.{IsList}
use simulating_the_functioni.Base.Dll
use simulating_the_functioni.Base.Dll.Spots
use simulating_the_functioni.Alloc.Chain.{blocks}
use simulating_the_functioni.Alloc.Free.Promise.{before, settled, Holds}

module _ (m : Memory) (b : Block) where
  release_last :
      (xs : List Block)
      → IsList m (xs ++ b ∷ [])
      → Holds m (release m b.addr) (before xs (settled b []))
  unfolding release
  release_last [] l =
      let t = Spots.spot blocks m.heap [] b [] l.chain l.once in
      let next_0 : ((m.heap b.addr).next == 0) ≡ true = ground (arith, t.here) in
      let prev_0 : ((m.heap b.addr).prev == 0) ≡ true = ground (arith, t.here) in
      let size_b : (m.heap b.addr).size ≡ b.size = ap (λ (c : Header). c.size) t.here in
      rw (next_0, prev_0)
        (record {
          list = record { base = refl; chain = tt; once = unfold distinct in refl };
          calls = ap (λ z. (b.addr, u64 (header_size + z)) ∷ m.unmapped) size_b;
        })
  release_last (x ∷ xs) l =
      let t = Spots.spot blocks m.heap (x ∷ xs) b [] l.chain l.once in
      let next_0 : ((m.heap b.addr).next == 0) ≡ true = ground (arith, t.here) in
      let at_prev : (m.heap b.addr).prev ≡ last x.addr xs = ap (λ (c : Header). c.prev) t.here in
      let prev_ne : ((m.heap b.addr).prev == 0) ≡ false =
        ground (arith, at_prev, last_ne 0 x xs t.left) in
      let size_b : (m.heap b.addr).size ≡ b.size = ap (λ (c : Header). c.size) t.here in
      rw (next_0, prev_ne)
        (record {
          list = record {
            base = l.base ∙ ap (λ (cs : List Block). first cs 0) (sym (append-nil (x ∷ xs)));
            chain =
                subst (λ cs. Seg (set_next m.heap (m.heap b.addr).prev 0) 0 cs 0)
                  (sym (append-nil (x ∷ xs)))
                  (Dll.Seg-relink blocks m.heap (set_next m.heap (m.heap b.addr).prev 0) 0 b.addr 0
                    x xs t.left_distinct
                    (λ a i. here_or_not a (m.heap b.addr).prev (last x.addr xs) at_prev) t.left);
            once = ap (λ cs. distinct (addrs cs)) (append-nil (x ∷ xs)) ∙ t.left_distinct;
          };
          calls = ap (λ z. (b.addr, u64 (header_size + z)) ∷ m.unmapped) size_b;
        })
    where
      last_ne :
          (prev : ℕ) (c : Block) (cs : List Block)
          → Seg m.heap prev (c ∷ cs) b.addr
          → last c.addr cs ≢ 0
      last_ne prev c [] s = s.1
      last_ne prev c (e ∷ cs) s = last_ne c.addr e cs s.2

      here_or_not :
          (a p q : ℕ)
          → p ≡ q
          → set_next m.heap p 0 a ≡ (if a == q then record (m.heap a) { next = 0 } else m.heap a)
      here_or_not a p q e = ground (arith, ==_iff a q)

  release_next :
      (xs : List Block) (y : Block) (ys : List Block)
      → IsList m (xs ++ b ∷ y ∷ ys)
      → Holds m (release m b.addr) (before xs (settled b (y ∷ ys)))
  unfolding release merge_free_blocks
  release_next xs y ys l = elim (Bool-cases y.is_free) [
    | inl free ↦
        rw (next_there, y_free free)
          (record {
            list =
                subst
                  (λ c.
                    IsList (record m { heap = join_next m.heap b.addr })
                      (xs ++ (if c then joined b y ∷ ys else b ∷ y ∷ ys)))
                  (sym free)
                  (record {
                    base = l.base ∙ same_first xs;
                    chain = join-Seg m.heap xs b y ys l.chain l.once;
                    once = join-distinct m.heap xs b y ys l.chain l.once;
                  });
            calls = refl;
          })
    | inr used ↦
        rw (next_there, y_free used)
          (record {
            list =
                subst (λ c. IsList m (xs ++ (if c then joined b y ∷ ys else b ∷ y ∷ ys))) (sym used)
                  l;
            calls = refl;
          })
  ]
    where
      t : Spot m.heap xs b (y ∷ ys)
      t = Spots.spot blocks m.heap xs b (y ∷ ys) l.chain l.once

      next_there : ((m.heap b.addr).next == 0) ≡ false
      next_there = ground (arith, t.here, t.right.1)

      y_free : {c : Bool} → y.is_free ≡ c → (m.heap (m.heap b.addr).next).is_free ≡ c
      y_free e =
          ap (λ (c : Header). (m.heap c.next).is_free) t.here
          ∙ ap (λ (c : Header). c.is_free) t.right.0
          ∙ e

      same_first : (zs : List Block) → first (zs ++ b ∷ y ∷ ys) 0 ≡ first (zs ++ joined b y ∷ ys) 0
      same_first [] = refl
      same_first (z ∷ zs) = refl

  -- A block in a list takes in the next one or is given back.
  pub release-Holds :
      (xs ys : List Block)
      → IsList m (xs ++ b ∷ ys)
      → Holds m (release m b.addr) (before xs (settled b ys))
  release-Holds xs [] l = release_last xs l
  release-Holds xs (y ∷ ys) l = release_next xs y ys l
