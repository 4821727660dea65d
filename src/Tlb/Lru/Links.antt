-- ===== src/Tlb/Lru/Links.antt =====
-- The list of nodes that `LRU` keeps, as a list of pages with the addresses of their nodes, and what
-- the writes do to it.
use simulating_the_functioni.Base.{
  ℕ, ◌≡◌, ◌≢◌, refl, sym, ap, subst, ◌∙◌, true, false, ◌&&◌, not, List, [], ◌∷◌, ◌++◌, ◌==◌, ==_iff,
  if◌then◌else◌, if_false, arith, append-nil,
}
use simulating_the_functioni.Base.Keys.{
  contains, distinct, contains-ne, distinct-head, distinct-tail,
}
use simulating_the_functioni.Base.Dll
use simulating_the_functioni.Base.Dll.Spots
use simulating_the_functioni.Base.Dll.{Nodes}
use simulating_the_functioni.Tlb.Optimal.{IntMap}
use simulating_the_functioni.Tlb.Lru.{Node, Store, set_next_of, unlink, link_front}

-- A page and the address of its node.
abbrev pub nodes : Nodes (ℕ × ℕ) Node
nodes = record {
  addr = λ b. b.1;
  cell = λ b next prev. record { page_number = b.0; prev = prev; next = next };
  with_next = λ c m. record c { next = m };
  with_prev = λ c m. record c { prev = m };
  next_law = λ b i p m. refl;
  prev_law = λ b i p m. refl;
}

abbrev pub addrs : IntMap → List ℕ
addrs = Dll.addrs nodes

abbrev pub Seg : Store → (prev : ℕ) → IntMap → (end : ℕ) → Type 0
Seg = Dll.Seg nodes

abbrev link_at : Store → (head node : ℕ) → Store
link_at h head node a =
    if a == node
    then record (h node) { prev = 0; next = head }
    else if not (head == 0) && (a == head)
    then record (h a) { prev = node }
    else h a

link_front-link_at :
    (h : Store) (head node : ℕ)
    → head ≢ node
    → (a : ℕ) → link_front h head node a ≡ link_at h head node a
unfolding link_front
link_front-link_at h head node ne a = ground arith

-- A node that is not in the list is put in front.
pub link_front-Seg :
    (h : Store) (b : ℕ × ℕ) (xs : IntMap)
    → Seg h 0 xs 0
    → distinct (addrs (b ∷ xs)) ≡ true
    → b.1 ≢ 0
    → (h b.1).page_number ≡ b.0
    → Seg (link_front h (Dll.first nodes xs 0) b.1) 0 (b ∷ xs) 0
link_front-Seg h b xs s d nz page = (
  at b.1 ∙ ground (arith, page),
  nz,
  Dll.Seg-restart nodes h g 0 0 b.1 xs (distinct-tail b.1 (addrs xs) d) at_rest s,
)
  where
    g : Store
    g = link_front h (Dll.first nodes xs 0) b.1

    out : contains b.1 (addrs xs) ≡ false
    out = distinct-head b.1 (addrs xs) d

    at : (a : ℕ) → g a ≡ link_at h (Dll.first nodes xs 0) b.1 a
    at = link_front-link_at h (Dll.first nodes xs 0) b.1 (Dll.first_ne nodes b.1 xs nz out)

    at_rest :
        (a : ℕ)
        → contains a (addrs xs) ≡ true
        → g a ≡ (if a == Dll.first nodes xs 0 then record (h a) { prev = b.1 } else h a)
    at_rest a i =
        at a
        ∙ if_false _ _ (contains-ne a b.1 (addrs xs) out i)
        ∙ ap (λ c. if c then record (h a) { prev = b.1 } else h a)
            (ground (arith, Dll.first_nonzero nodes h 0 xs a s i))

abbrev unlink_at : Store → (node : ℕ) → Store
unlink_at h node a =
    if not ((h node).prev == 0) && (a == (h node).prev)
    then record (h a) { next = (h node).next }
    else if not ((h node).next == 0) && (a == (h node).next)
    then record (h a) { prev = (h node).prev }
    else h a

unlink-unlink_at :
    (h : Store) (node : ℕ)
    → (h node).prev ≢ node
    → (h node).next ≢ node
    → ((h node).prev ≢ 0 → (h node).prev ≢ (h node).next)
    → (a : ℕ) → unlink h node a ≡ unlink_at h node a
unfolding unlink
unlink-unlink_at h node pn nn apart a = ground arith

-- A node is taken out.
module _ (h : Store) (xs : IntMap) (b : ℕ × ℕ) (ys : IntMap) (s : Seg h 0 (xs ++ b ∷ ys) 0)
    (d : distinct (addrs (xs ++ b ∷ ys)) ≡ true) where
  t : Spots.Spot nodes h xs b ys
  t = Spots.spot nodes h xs b ys s d

  pub prev_is : (h b.1).prev ≡ Dll.last nodes 0 xs
  prev_is = ap (λ (c : Node). c.prev) t.here

  pub page_is : (h b.1).page_number ≡ b.0
  page_is = ap (λ (c : Node). c.page_number) t.here

  next_is : (h b.1).next ≡ Dll.first nodes ys 0
  next_is = ap (λ (c : Node). c.next) t.here

  pub node_nonzero : b.1 ≢ 0
  node_nonzero = t.nonzero

  left_out : contains b.1 (addrs xs) ≡ false
  left_out = ground (arith, t.left_ne b.1, ==_iff b.1 b.1)

  right_in : (a : ℕ) → contains a (addrs ys) ≡ true → contains a (addrs xs) ≡ false
  right_in a i = ground (arith, t.left_out a)

  apart : Dll.last nodes 0 xs ≢ 0 → Dll.last nodes 0 xs ≢ Dll.first nodes ys 0
  apart = go xs t.left_out
    where
      go :
          (zs : IntMap)
          → ((a : ℕ) → contains a (addrs zs) ≡ true → contains a (addrs ys) ≡ false)
          → Dll.last nodes 0 zs ≢ 0
          → Dll.last nodes 0 zs ≢ Dll.first nodes ys 0
      go [] out nz e = nz refl
      go (z ∷ zs) out nz e =
          Dll.first_ne nodes (Dll.last nodes z.1 zs) ys nz
            (out (Dll.last nodes z.1 zs) (Dll.last_among nodes z zs)) (sym e)

  abbrev g : Store
  g = unlink h b.1

  at :
      (a : ℕ)
      → g a ≡ (
          if not (Dll.last nodes 0 xs == 0) && (a == Dll.last nodes 0 xs)
          then record (h a) { next = Dll.first nodes ys 0 }
          else if not (Dll.first nodes ys 0 == 0) && (a == Dll.first nodes ys 0)
          then record (h a) { prev = Dll.last nodes 0 xs }
          else h a)
  at a =
      unlink-unlink_at h b.1 (λ e. Dll.last_ne nodes b.1 xs t.nonzero left_out (sym prev_is ∙ e))
        (λ e. Spots.next_ne nodes t (sym next_is ∙ e))
        (λ nz e. apart (λ z. nz (prev_is ∙ z)) (sym prev_is ∙ e ∙ next_is)) a
      ∙ rw (prev_is, next_is) refl

  pub unlink_here : g b.1 ≡ h b.1
  unlink_here =
      at b.1 ∙ ground (arith, Dll.last_ne nodes b.1 xs t.nonzero left_out, Spots.next_ne nodes t)

  pub unlink_prev : (g b.1).prev ≡ Dll.last nodes 0 xs
  unlink_prev = ap (λ (c : Node). c.prev) unlink_here ∙ prev_is

  pub unlink_page : (g b.1).page_number ≡ b.0
  unlink_page = ap (λ (c : Node). c.page_number) (unlink_here ∙ t.here)

  at_left :
      (a : ℕ)
      → contains a (addrs xs) ≡ true
      → g a
        ≡ (if a == Dll.last nodes 0 xs then record (h a) { next = Dll.first nodes ys 0 } else h a)
  at_left a i =
      at a
      ∙ ground (
        arith,
        Dll.last_nonzero_in nodes h b.1 xs a t.left i,
        Spots.next_out nodes t a (t.left_out a i),
      )

  at_right :
      (a : ℕ)
      → contains a (addrs ys) ≡ true
      → g a
        ≡ (if a == Dll.first nodes ys 0 then record (h a) { prev = Dll.last nodes 0 xs } else h a)
  at_right a i =
      at a ∙ ground (arith, Spots.next_nonzero nodes t a i, Dll.last_out nodes a xs (right_in a i))

  pub unlink-Seg : Seg g 0 (xs ++ ys) 0
  unlink-Seg =
      Dll.Seg-append nodes g 0 0 xs ys (left_part xs at_left t.left t.left_distinct)
        (Dll.Seg-restart nodes h g b.1 0 (Dll.last nodes 0 xs) ys t.right_distinct at_right t.right)
    where
      left_part :
          (ws : IntMap)
          → ((a : ℕ)
              → contains a (addrs ws) ≡ true
              → g a ≡ (
                  if a == Dll.last nodes 0 ws
                  then record (h a) { next = Dll.first nodes ys 0 }
                  else h a))
          → Seg h 0 ws b.1
          → distinct (addrs ws) ≡ true
          → Seg g 0 ws (Dll.first nodes ys 0)
      left_part [] same s d = tt
      left_part (x ∷ zs) same s d =
          Dll.Seg-relink nodes h g 0 b.1 (Dll.first nodes ys 0) x zs d same s

-- The last node is taken out.
pub drop_last-Seg :
    (h : Store) (xs : IntMap) (b : ℕ × ℕ)
    → Seg h 0 (xs ++ b ∷ []) 0
    → distinct (addrs (xs ++ b ∷ [])) ≡ true
    → Seg (set_next_of h (h b.1).prev 0) 0 xs 0
drop_last-Seg h xs b s d =
    Dll.Seg-same nodes (unlink h b.1) (set_next_of h (h b.1).prev 0) 0 0 xs (λ a i. same a)
      (subst (λ ws. Seg (unlink h b.1) 0 ws 0) (append-nil xs) (unlink-Seg h xs b [] s d))
  where
    same : (a : ℕ) → set_next_of h (h b.1).prev 0 a ≡ unlink h b.1 a
    same a = ground (arith, prev_is h xs b [] s d, at h xs b [] s d a)
