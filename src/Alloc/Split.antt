-- ===== src/Alloc/Split.antt =====
-- `split_block`: what the writes come to, and the list behind them.
use simulating_the_functioni.Base.{
  ℕ, ◌≡◌, ◌≢◌, sym, ap, ◌∙◌, true, false, ◌&&◌, not, List, [], ◌∷◌, ◌++◌, ◌==◌, if◌then◌else◌,
  if_false, arith,
}
use simulating_the_functioni.Base.Keys.{
  contains, distinct, contains-append, contains-head, contains-ne, distinct-insert,
}
use simulating_the_functioni.Alloc.{
  Header, Heap, set_size, set_free, set_next, set_prev, set_prev_of,
}
use simulating_the_functioni.Alloc.Chain.{Spot}
use simulating_the_functioni.Alloc.Chain.{Block, block, addrs, first, Seg}
use simulating_the_functioni.Base.Dll
use simulating_the_functioni.Base.Dll.Spots
use simulating_the_functioni.Alloc.Chain.{blocks}

-- The writes of `cut_block`, with the new block at `q` and the sizes `v` and `w`.
abbrev pub cut : Heap → (p q v w : ℕ) → Heap
cut h p q v w =
    let h1 = set_size h q v in
    let h2 = set_size h1 p w in
    let h3 = set_next h2 q (h2 p).next in
    let h4 = set_next h3 p q in
    let h5 = set_prev h4 q p in let h6 = set_prev_of h5 (h5 q).next q in set_free h6 q true

abbrev pub cut_at : Heap → (p q v w : ℕ) → Heap
cut_at h p q v w a =
    if a == q
    then record { is_free = true; size = v; next = (h p).next; prev = p }
    else if a == p
    then record (h p) { size = w; next = q }
    else if not ((h p).next == 0) && (a == (h p).next)
    then record (h a) { prev = q }
    else h a

pub cut-cut_at :
    (h : Heap) (p q v w : ℕ)
    → p ≢ q
    → (h p).next ≢ q
    → (h p).next ≢ p
    → (a : ℕ) → cut h p q v w a ≡ cut_at h p q v w a
cut-cut_at h p q v w pq nq np a = ground arith

-- Cutting a block in two puts a free block behind it.
module _ (h : Heap) (xs : List Block) (b : Block) (ys : List Block) (q v w : ℕ)
    (s : Seg h 0 (xs ++ b ∷ ys) 0) (d : distinct (addrs (xs ++ b ∷ ys)) ≡ true) (ne : q ≢ 0)
    (out : contains q (addrs (xs ++ b ∷ ys)) ≡ false) where
  t : Spot h xs b ys
  t = Spots.spot blocks h xs b ys s d

  abbrev pub g : Heap
  g = cut h b.addr q v w

  q_parts :
      (contains q (addrs xs) ≡ false) × ((q == b.addr) ≡ false) × (contains q (addrs ys) ≡ false)
  unfolding contains
  q_parts =
      ground
        (arith, Dll.addrs-append blocks xs (b ∷ ys), contains-append q (addrs xs) (addrs (b ∷ ys)))

  abbrev next : ℕ
  next = first ys 0

  at_b : (h b.addr).next ≡ next
  at_b = ap (λ (c : Header). c.next) (t.here)

  q_ne_next : next ≢ q
  q_ne_next e = go ys q_parts.2 e
    where
      go : (zs : List Block) → contains q (addrs zs) ≡ false → first zs 0 ≢ q
      go [] o e = ne (sym e)
      go (z ∷ zs) o e = cc (o, contains-head z.addr (addrs zs), e)

  g_at : (a : ℕ) → g a ≡ cut_at h b.addr q v w a
  g_at =
      cut-cut_at h b.addr q v w (λ e. ground (arith, q_parts.1)) (λ e. q_ne_next (sym at_b ∙ e))
        (λ e. Spots.next_ne blocks t (sym at_b ∙ e))

  at_left :
      (a : ℕ)
      → (a == q) ≡ false
      → (a == b.addr) ≡ false
      → (first ys 0 ≢ 0 → (a == first ys 0) ≡ false)
      → g a ≡ h a
  at_left a nq nb nn =
      g_at a
      ∙ if_false _ _ nq
      ∙ if_false _ _ nb
      ∙ if_false {b = not ((h b.addr).next == 0) && (a == (h b.addr).next)} _ _
          (ground (arith, at_b, nn))

  at_right :
      (a : ℕ)
      → contains a (addrs ys) ≡ true
      → g a ≡ (if a == first ys 0 then record (h a) { prev = q } else h a)
  at_right a i =
      g_at a
      ∙ if_false _ _ (contains-ne a q (addrs ys) q_parts.2 i)
      ∙ if_false _ _ (contains-ne a b.addr (addrs ys) t.right_out i)
      ∙ ap (λ c. if c then record (h a) { prev = q } else h a)
          (ground (arith, at_b, Spots.next_nonzero blocks t a i))

  pub cut-Seg : Seg g 0 (xs ++ block b.addr b.is_free w ∷ block q true v ∷ ys) 0
  cut-Seg =
      Dll.Seg-append blocks g 0 0 xs (block b.addr b.is_free w ∷ block q true v ∷ ys)
        (Dll.Seg-same blocks h g 0 b.addr xs
          (λ a i.
            at_left a (contains-ne a q (addrs xs) q_parts.0 i) (t.left_ne a i)
              (Spots.next_out blocks t a (t.left_out a i)))
          t.left)
        (
          ground (arith, g_at b.addr, q_parts.1, t.here),
          t.nonzero,
          (
            ground (arith, g_at q, t.here),
            ne,
            Dll.Seg-restart blocks h g b.addr 0 q ys t.right_distinct at_right t.right,
          ),
        )

  pub cut-distinct : distinct (addrs (xs ++ block b.addr b.is_free w ∷ block q true v ∷ ys)) ≡ true
  cut-distinct =
      ap distinct (Dll.addrs-append blocks xs (block b.addr b.is_free w ∷ block q true v ∷ ys))
      ∙ distinct-insert (addrs xs) b.addr q (addrs ys)
          (ap distinct (sym (Dll.addrs-append blocks xs (b ∷ ys))) ∙ d)
          (ap (contains q) (sym (Dll.addrs-append blocks xs (b ∷ ys))) ∙ out)
