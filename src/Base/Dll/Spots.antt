-- ===== src/Base/Dll/Spots.antt =====
-- A place in a doubly linked list: what is before it, what it holds and what is behind it.
use Prim.Native.Nat.{ℕ}
use mathlib.Core.Path.{◌≡◌, refl, sym, ap, subst, ◌∙◌}
use mathlib.Core.Logic.{◌≢◌}
use mathlib.Core.Bool.{true, false}
use mathlib.Core.List.{List, [], ◌∷◌, ◌++◌}
use native.Mathlib.Omega.{arith}
use simulating_the_functioni.Base.Tests.{◌==◌}
use simulating_the_functioni.Base.Keys.{
  contains, distinct, distinct-head, distinct-tail, contains-head, contains-ne, distinct-append,
}
use simulating_the_functioni.Base.Dll.{
  Nodes, Seg, Seg-append, Seg-back, Seg-front, Seg-same, addrs, addrs-append, first, first_ne,
  first_nonzero, last,
}

module _ {B H : Type 0} (n : Nodes B H) where
  pub record Spot (h : ℕ → H) (xs : List B) (b : B) (ys : List B) : Type 0 where
    pub here : h (n.addr b) ≡ n.cell b (first n ys 0) (last n 0 xs)
    pub nonzero : (n.addr b) ≢ 0
    pub left : Seg n h 0 xs (n.addr b)
    pub right : Seg n h (n.addr b) ys 0
    pub left_distinct : distinct (addrs n xs) ≡ true
    pub right_distinct : distinct (addrs n ys) ≡ true
    pub left_ne : (a : ℕ) → contains a (addrs n xs) ≡ true → (a == (n.addr b)) ≡ false
    pub left_out : (a : ℕ) → contains a (addrs n xs) ≡ true → contains a (addrs n ys) ≡ false
    pub right_out : contains (n.addr b) (addrs n ys) ≡ false

  pub spot :
      (h : ℕ → H) (xs : List B) (b : B) (ys : List B)
      → Seg n h 0 (xs ++ b ∷ ys) 0
      → distinct (addrs n (xs ++ b ∷ ys)) ≡ true
      → Spot h xs b ys
  unfolding contains
  spot h xs b ys s d =
      let (dx, dy, apart) =
        distinct-append (addrs n xs) (addrs n (b ∷ ys))
          (sym (ap distinct (addrs-append n xs (b ∷ ys))) ∙ d) in
      let back = Seg-back n h 0 0 xs (b ∷ ys) s in
      record {
        here = back.0;
        nonzero = back.1;
        left = Seg-front n h 0 0 xs (b ∷ ys) s;
        right = back.2;
        left_distinct = dx;
        right_distinct = distinct-tail (n.addr b) _ dy;
        left_ne = λ a i. ground (arith, apart a i);
        left_out = λ a i. ground (arith, apart a i);
        right_out = distinct-head (n.addr b) _ dy;
      }

  module _ {h : ℕ → H} {xs : List B} {b : B} {ys : List B} (t : Spot h xs b ys) where
    pub next_ne : first n ys 0 ≢ (n.addr b)
    next_ne = first_ne n (n.addr b) ys t.nonzero t.right_out

    pub next_nonzero : (a : ℕ) → contains a (addrs n ys) ≡ true → first n ys 0 ≢ 0
    next_nonzero a i = first_nonzero n h (n.addr b) ys a t.right i

    pub next_out :
        (a : ℕ) → contains a (addrs n ys) ≡ false → first n ys 0 ≢ 0 → (a == first n ys 0) ≡ false
    next_out a = go ys
      where
        go :
            (zs : List B)
            → contains a (addrs n zs) ≡ false
            → first n zs 0 ≢ 0
            → (a == first n zs 0) ≡ false
        go [] out ne = absurd (ne refl)
        go (z ∷ zs) out ne = ground (
          arith,
          contains-ne (n.addr z) a (addrs n (z ∷ zs)) out (contains-head (n.addr z) (addrs n zs)),
        )

  -- Another block at the same address.
  pub replace-Seg :
      (h g : ℕ → H) (xs : List B) (b c : B) (ys : List B)
      → Spot h xs b ys
      → (n.addr c) ≡ (n.addr b)
      → g (n.addr b) ≡ n.cell c (first n ys 0) (last n 0 xs)
      → ((a : ℕ) → (a == (n.addr b)) ≡ false → g a ≡ h a)
      → Seg n g 0 (xs ++ c ∷ ys) 0
  replace-Seg h g xs b c ys t e here others =
      Seg-append n g 0 0 xs (c ∷ ys)
        (Seg-same n h g 0 (n.addr c) xs (λ a i. others a (t.left_ne a i))
          (subst (Seg n h 0 xs) (sym e) t.left))
        (
          ap g e ∙ here,
          λ z. t.nonzero (sym e ∙ z),
          subst (λ p. Seg n g p ys 0) (sym e)
              (Seg-same n h g (n.addr b) 0 ys
                (λ a i. others a (contains-ne a (n.addr b) (addrs n ys) t.right_out i)) t.right),
        )

  pub replace-addrs :
      (xs : List B) (b c : B) (ys : List B)
      → (n.addr c) ≡ (n.addr b)
      → addrs n (xs ++ c ∷ ys) ≡ addrs n (xs ++ b ∷ ys)
  replace-addrs [] b c ys e = ap (λ a. a ∷ addrs n ys) e
  replace-addrs (x ∷ xs) b c ys e = ap (λ l. (n.addr x) ∷ l) (replace-addrs xs b c ys e)
