-- ===== src/Base/Dll.antt =====
-- Doubly linked lists in a store: nodes at addresses, with the addresses of the next and of the
-- previous node, as a list of what they hold.
pub mod Spots
use Prim.Native.Nat.{ℕ}
use mathlib.Core.Path.{◌≡◌, refl, sym, ap, subst, ◌∙◌}
use mathlib.Core.Logic.{◌≢◌}
use mathlib.Core.Bool.{true, false}
use mathlib.Core.List.{List, [], ◌∷◌, ◌++◌}
use native.Mathlib.Omega.{arith}
use simulating_the_functioni.Base.Tests.{◌==◌, ==_iff, if◌then◌else◌, if_true, if_false}
use simulating_the_functioni.Base.Keys.{
  contains, distinct, distinct-head, distinct-tail, contains-head, contains-tail, contains-ne,
  distinct-append,
}

-- What a node holds, with its address, and the node itself.
pub record Nodes (B H : Type 0) : Type 0 where
  pub addr : B → ℕ
  pub cell : B → (next prev : ℕ) → H
  pub with_next : H → ℕ → H
  pub with_prev : H → ℕ → H
  pub next_law : (b : B) (i p m : ℕ) → with_next (cell b i p) m ≡ cell b m p
  pub prev_law : (b : B) (i p m : ℕ) → with_prev (cell b i p) m ≡ cell b i m

module _ {B H : Type 0} (n : Nodes B H) where
  abbrev pub addrs : List B → List ℕ
  addrs [] = []
  addrs (b ∷ bs) = (n.addr b) ∷ addrs bs

  -- The address of the first item, or `end`.
  abbrev pub first : List B → ℕ → ℕ
  first [] end = end
  first (b ∷ bs) end = (n.addr b)

  -- The address of the last item, or `start`.
  abbrev pub last : ℕ → List B → ℕ
  last start [] = start
  last start (b ∷ bs) = last (n.addr b) bs

  -- The nodes at the items' addresses are linked both ways, from `prev` on and up to `end`.
  abbrev pub Seg : (ℕ → H) → (prev : ℕ) → List B → (end : ℕ) → Type 0
  Seg h prev [] end = Unit {0}
  Seg h prev (b ∷ bs) end =
      (h (n.addr b) ≡ n.cell b (first bs end) prev) × (n.addr b ≢ 0) × Seg h (n.addr b) bs end

  -- Nothing but the items' own addresses matters.
  pub Seg-same :
      (h g : ℕ → H) (prev end : ℕ) (bs : List B)
      → ((a : ℕ) → contains a (addrs bs) ≡ true → g a ≡ h a)
      → Seg h prev bs end
      → Seg g prev bs end
  unfolding contains
  Seg-same h g prev end [] same s = tt
  Seg-same h g prev end (b ∷ bs) same s = (
    same (n.addr b) (ground arith) ∙ s.0,
    s.1,
    Seg-same h g (n.addr b) end bs (λ a i. same a (ground arith)) s.2,
  )

  module _ (h : ℕ → H) where
    pub Seg-append :
        (prev end : ℕ) (xs ys : List B)
        → Seg h prev xs (first ys end)
        → Seg h (last prev xs) ys end
        → Seg h prev (xs ++ ys) end
    Seg-append prev end [] ys s t = t
    Seg-append prev end (x ∷ []) ys s t = (s.0, s.1, t)
    Seg-append prev end (x ∷ y ∷ xs) ys s t =
        (s.0, s.1, Seg-append (n.addr x) end (y ∷ xs) ys s.2 t)

    pub Seg-front :
        (prev end : ℕ) (xs ys : List B) → Seg h prev (xs ++ ys) end → Seg h prev xs (first ys end)
    Seg-front prev end [] ys s = tt
    Seg-front prev end (x ∷ []) ys s = (s.0, s.1, tt)
    Seg-front prev end (x ∷ y ∷ xs) ys s = (s.0, s.1, Seg-front (n.addr x) end (y ∷ xs) ys s.2)

    pub Seg-back :
        (prev end : ℕ) (xs ys : List B) → Seg h prev (xs ++ ys) end → Seg h (last prev xs) ys end
    Seg-back prev end [] ys s = s
    Seg-back prev end (x ∷ xs) ys s = Seg-back (n.addr x) end xs ys s.2

  pub addrs-append : (xs ys : List B) → addrs (xs ++ ys) ≡ addrs xs ++ addrs ys
  addrs-append [] ys = refl
  addrs-append (x ∷ xs) ys = ap (λ l. (n.addr x) ∷ l) (addrs-append xs ys)

  pub last_among : (x : B) (xs : List B) → contains (last (n.addr x) xs) (addrs (x ∷ xs)) ≡ true
  unfolding contains
  last_among x [] = ground arith
  last_among x (y ∷ xs) = ground (arith, last_among y xs)

  -- What is not an item's address is neither the first nor the last.
  pub first_ne : (a : ℕ) (bs : List B) → a ≢ 0 → contains a (addrs bs) ≡ false → first bs 0 ≢ a
  first_ne a [] nz out e = nz (sym e)
  first_ne a (b ∷ bs) nz out e = cc (out, contains-head (n.addr b) (addrs bs), e)

  pub last_ne : (a : ℕ) (bs : List B) → a ≢ 0 → contains a (addrs bs) ≡ false → last 0 bs ≢ a
  last_ne a [] nz out e = nz (sym e)
  last_ne a (b ∷ bs) nz out e = cc (out, last_among b bs, e)

  pub first_nonzero :
      (h : ℕ → H) (prev : ℕ) (bs : List B) (a : ℕ)
      → Seg h prev bs 0
      → contains a (addrs bs) ≡ true
      → first bs 0 ≢ 0
  unfolding contains
  first_nonzero h prev [] a s i = absurd (cc i)
  first_nonzero h prev (b ∷ bs) a s i = s.1

  pub last_nonzero :
      (h : ℕ → H) (prev end : ℕ) (b : B) (bs : List B)
      → Seg h prev (b ∷ bs) end
      → last (n.addr b) bs ≢ 0
  last_nonzero h prev end b [] s = s.1
  last_nonzero h prev end b (c ∷ bs) s = last_nonzero h (n.addr b) end c bs s.2

  pub last_out :
      (a : ℕ) (bs : List B)
      → contains a (addrs bs) ≡ false
      → last 0 bs ≢ 0
      → (a == last 0 bs) ≡ false
  last_out a [] out nz = absurd (nz refl)
  last_out a (b ∷ bs) out nz =
      ground (arith, contains-ne (last (n.addr b) bs) a (addrs (b ∷ bs)) out (last_among b bs))

  pub last_nonzero_in :
      (h : ℕ → H) (end : ℕ) (bs : List B) (a : ℕ)
      → Seg h 0 bs end
      → contains a (addrs bs) ≡ true
      → last 0 bs ≢ 0
  unfolding contains
  last_nonzero_in h end [] a s i = absurd (cc i)
  last_nonzero_in h end (b ∷ bs) a s i = last_nonzero h 0 end b bs s

  pub last-append :
      (start : ℕ) (xs : List B) (b : B) (ys : List B)
      → last start (xs ++ b ∷ ys) ≡ last (n.addr b) ys
  last-append start [] b ys = refl
  last-append start (x ∷ xs) b ys = last-append (n.addr x) xs b ys

  -- The last item's `next` is the end, and another can be put there.
  pub Seg-relink :
      (h g : ℕ → H) (prev end m : ℕ) (x : B) (xs : List B)
      → distinct (addrs (x ∷ xs)) ≡ true
      → ((a : ℕ)
          → contains a (addrs (x ∷ xs)) ≡ true
          → g a ≡ (if a == last (n.addr x) xs then n.with_next (h a) m else h a))
      → Seg h prev (x ∷ xs) end
      → Seg g prev (x ∷ xs) m
  Seg-relink h g prev end m x [] d same s = (
    same (n.addr x) (contains-head (n.addr x) [])
        ∙ if_true _ _ ((==_iff (n.addr x) (n.addr x)).1 refl)
        ∙ ap (λ c. n.with_next c m) s.0
        ∙ n.next_law x end prev m,
    s.1,
    tt,
  )
  Seg-relink h g prev end m x (y ∷ xs) d same s = (
    same (n.addr x) (contains-head (n.addr x) _) ∙ if_false _ _ first_ne ∙ s.0,
    s.1,
    Seg-relink h g (n.addr x) end m y xs (distinct-tail (n.addr x) _ d)
        (λ a i. same a (contains-tail a (n.addr x) _ i)) s.2,
  )
    where
      first_ne : (n.addr x == last (n.addr y) xs) ≡ false
      first_ne = ground (
        arith,
        contains-ne (last (n.addr y) xs) (n.addr x) (addrs (y ∷ xs)) (distinct-head (n.addr x) _ d)
            (last_among y xs),
      )

  -- The first item's `prev` is where the segment starts from, and another can be put there.
  pub Seg-restart :
      (h g : ℕ → H) (prev end m : ℕ) (bs : List B)
      → distinct (addrs bs) ≡ true
      → ((a : ℕ)
          → contains a (addrs bs) ≡ true
          → g a ≡ (if a == first bs end then n.with_prev (h a) m else h a))
      → Seg h prev bs end
      → Seg g m bs end
  Seg-restart h g prev end m [] d same s = tt
  Seg-restart h g prev end m (b ∷ bs) d same s = (
    same (n.addr b) (contains-head (n.addr b) _)
        ∙ if_true _ _ ((==_iff (n.addr b) (n.addr b)).1 refl)
        ∙ ap (λ c. n.with_prev c m) s.0
        ∙ n.prev_law b (first bs end) prev m,
    s.1,
    Seg-same h g (n.addr b) end bs
        (λ a i.
          same a (contains-tail a (n.addr b) _ i)
          ∙ if_false _ _ (contains-ne a (n.addr b) _ (distinct-head (n.addr b) _ d) i))
        s.2,
  )
