-- ===== src/Alloc/Join.antt =====
-- `merge_free_blocks`: what the writes come to, and the list behind them.
use simulating_the_functioni.Base.{
  ℕ, ◌+◌, ◌≡◌, ◌≢◌, sym, ap, subst, ◌∙◌, true, false, ◌&&◌, not, List, [], ◌∷◌, ◌++◌, append_assoc,
  ◌==◌, if◌then◌else◌, if_false, arith,
}
use simulating_the_functioni.Base.Words.{u64}
use simulating_the_functioni.Base.Keys.{contains, distinct, contains-ne, distinct-remove}
use simulating_the_functioni.Alloc.{
  Header, Heap, header_size, set_size, set_next, set_prev_of, join_next,
}
use simulating_the_functioni.Alloc.Chain.{Block, block, addrs, first, Seg}
use simulating_the_functioni.Alloc.Chain.{Spot}
use simulating_the_functioni.Base.Dll
use simulating_the_functioni.Base.Dll.Spots
use simulating_the_functioni.Alloc.Chain.{blocks}

-- A block that takes in the next one.
abbrev pub joined : Block → Block → Block
joined b y = block b.addr b.is_free (u64 (b.size + (header_size + y.size)))

-- The writes of `join_next`, with the new size `v`.
abbrev join : Heap → (p v : ℕ) → Heap
join h p v =
    let h1 = set_size h p v in
    let h2 = set_next h1 p (h1 (h1 p).next).next in set_prev_of h2 (h2 p).next p

abbrev join_at : Heap → (p v : ℕ) → Heap
join_at h p v a =
    if a == p
    then record (h p) { size = v; next = (h (h p).next).next }
    else if not ((h (h p).next).next == 0) && (a == (h (h p).next).next)
    then record (h a) { prev = p }
    else h a

join-join_at :
    (h : Heap) (p v : ℕ)
    → (h p).next ≢ p
    → (h (h p).next).next ≢ p
    → (a : ℕ) → join h p v a ≡ join_at h p v a
join-join_at h p v n1 n2 a = ground arith

module _ (h : Heap) (xs : List Block) (b y : Block) (ys : List Block)
    (s : Seg h 0 (xs ++ b ∷ y ∷ ys) 0) (d : distinct (addrs (xs ++ b ∷ y ∷ ys)) ≡ true) where
  t : Spot h xs b (y ∷ ys)
  t = Spots.spot blocks h xs b (y ∷ ys) s d

  abbrev v : ℕ
  v = u64 (b.size + (header_size + y.size))

  abbrev g : Heap
  g = join_next h b.addr

  -- The blocks behind the two, as a segment behind the second.
  rest_out : contains b.addr (addrs ys) ≡ false
  unfolding contains
  rest_out = ground (arith, t.right_out)

  rest_ne : first ys 0 ≢ b.addr
  rest_ne = Dll.first_ne blocks b.addr ys t.nonzero rest_out

  y_ne : y.addr ≢ b.addr
  y_ne = Spots.next_ne blocks t

  next_at : (h (h b.addr).next).next ≡ first ys 0
  next_at = ap (λ (c : Header). (h c.next).next) t.here ∙ ap (λ (c : Header). c.next) t.right.0

  g_at : (a : ℕ) → g a ≡ join_at h b.addr v a
  unfolding join_next
  g_at a =
      ap (λ z. join h b.addr z a) sizes
      ∙ join-join_at h b.addr v (λ e. y_ne (sym (ap (λ (c : Header). c.next) t.here) ∙ e))
          (λ e. rest_ne (sym next_at ∙ e)) a
    where
      sizes : u64 ((h b.addr).size + (header_size + (h (h b.addr).next).size)) ≡ v
      sizes =
          ap (λ (c : Header). u64 (c.size + (header_size + (h c.next).size))) t.here
          ∙ ap (λ (c : Header). u64 (b.size + (header_size + c.size))) t.right.0

  at_other :
      (a : ℕ) → (a == b.addr) ≡ false → (first ys 0 ≢ 0 → (a == first ys 0) ≡ false) → g a ≡ h a
  at_other a nb nn =
      g_at a
      ∙ if_false _ _ nb
      ∙ if_false {b = not ((h (h b.addr).next).next == 0) && (a == (h (h b.addr).next).next)} _ _
          (ground (arith, next_at, nn))

  t_rest : Spot h (xs ++ b ∷ []) y ys
  t_rest =
      Spots.spot blocks h (xs ++ b ∷ []) y ys (subst (λ bs. Seg h 0 bs 0) split s)
        (sym (ap (λ bs. distinct (addrs bs)) split) ∙ d)
    where
      split : xs ++ b ∷ y ∷ ys ≡ (xs ++ b ∷ []) ++ y ∷ ys
      split = sym (append_assoc xs (b ∷ []) (y ∷ ys))

  in_left : (a : ℕ) → contains a (addrs xs) ≡ true → contains a (addrs ys) ≡ false
  unfolding contains
  in_left a i = ground (arith, t.left_out a i)

  at_right :
      (a : ℕ)
      → contains a (addrs ys) ≡ true
      → g a ≡ (if a == first ys 0 then record (h a) { prev = b.addr } else h a)
  at_right a i =
      g_at a
      ∙ if_false _ _ (contains-ne a b.addr (addrs ys) rest_out i)
      ∙ ap (λ c. if c then record (h a) { prev = b.addr } else h a)
          (ground (arith, next_at, Spots.next_nonzero blocks t_rest a i))

  pub join-Seg : Seg g 0 (xs ++ joined b y ∷ ys) 0
  join-Seg =
      Dll.Seg-append blocks g 0 0 xs (joined b y ∷ ys)
        (Dll.Seg-same blocks h g 0 b.addr xs
          (λ a i. at_other a (t.left_ne a i) (Spots.next_out blocks t_rest a (in_left a i))) t.left)
        (
          ground (arith, g_at b.addr, next_at, t.here),
          t.nonzero,
          Dll.Seg-restart blocks h g y.addr 0 b.addr ys t_rest.right_distinct at_right t_rest.right,
        )

  pub join-distinct : distinct (addrs (xs ++ joined b y ∷ ys)) ≡ true
  join-distinct =
      ap distinct (
        Dll.addrs-append blocks xs (joined b y ∷ ys)
        ∙ sym (append_assoc (addrs xs) (b.addr ∷ []) (addrs ys)))
      ∙ distinct-remove (addrs xs ++ b.addr ∷ []) y.addr (addrs ys) (
          sym (
            ap distinct (
              Dll.addrs-append blocks xs (b ∷ y ∷ ys)
              ∙ sym (append_assoc (addrs xs) (b.addr ∷ []) (y.addr ∷ addrs ys))))
          ∙ d)
