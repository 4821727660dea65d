-- ===== src/Alloc/Use.antt =====
-- Which block `my_malloc` chooses, and what using it does.
use simulating_the_functioni.Base.{
  ℕ, ◌+◌, ◌≡◌, ◌≢◌, ◌⊎◌, inl, inr, refl, ap, ◌∙◌, Bool, true, false, Bool-cases, ◌||◌, none, some,
  List, [], ◌∷◌, ◌++◌, leb, if◌then◌else◌, if_true, if_false, arith,
}
use simulating_the_functioni.Base.Words.{u64, sub_u64}
use simulating_the_functioni.Base.Keys.{contains, distinct, contains-append, contains-head}
use simulating_the_functioni.Alloc.{Header, Heap, header_size, set_free, cut_block, split_block}
use simulating_the_functioni.Alloc.Chain.{Block, block, addrs, last, Seg}
use simulating_the_functioni.Alloc.Mark.{mark-Seg, mark-distinct}
use simulating_the_functioni.Alloc.Split.{cut, cut-Seg, cut-distinct}
use simulating_the_functioni.Alloc.Find.{fits, first_fit}
use simulating_the_functioni.Alloc.Spec.{offset, pieces, place, CutsAreNew}
use simulating_the_functioni.Base.Dll
use simulating_the_functioni.Base.Dll.Spots
use simulating_the_functioni.Alloc.Chain.{blocks}

module _ (page_size size : ℕ) where
  pub record Fit (l : ℕ) (bs : List Block) : Type 0 where
    pub before : List Block
    pub chosen : Block
    pub behind : List Block
    pub parts : bs ≡ before ++ chosen ∷ behind
    pub placed :
        place page_size size bs
        ≡ some (chosen.addr, before ++ (pieces page_size size chosen ++ behind))
    pub found : (first_fit size l bs).0 ≡ chosen.addr

  pub record NoFit (l : ℕ) (bs : List Block) : Type 0 where
    pub placed : place page_size size bs ≡ none
    pub found : first_fit size l bs ≡ (0, last l bs)

  pub Fit-cases : (l : ℕ) (bs : List Block) → Fit l bs ⊎ NoFit l bs
  Fit-cases l [] = inr (record { placed = refl; found = refl })
  Fit-cases l (b ∷ bs) = elim (Bool-cases (fits size b)) [
    | inl yes_fits ↦ inl (record {
      before = [];
      chosen = b;
      behind = bs;
      parts = refl;
      placed = rw yes_fits refl;
      found = rw yes_fits refl;
    })
    | inr no_fit ↦ elim (Fit-cases b.addr bs) [
      | inl f ↦ inl (record {
        before = b ∷ f.before;
        chosen = f.chosen;
        behind = f.behind;
        parts = ap (λ l. b ∷ l) f.parts;
        placed = rw (no_fit, f.placed) refl;
        found = rw no_fit f.found;
      })
      | inr f ↦ inr (record { placed = rw (no_fit, f.placed) refl; found = rw no_fit f.found })
    ]
  ]

  -- Using a block: `split_block`, and the mark.
  module _ (h : Heap) (xs : List Block) (b : Block) (ys : List Block) (s : Seg h 0 (xs ++ b ∷ ys) 0)
      (d : distinct (addrs (xs ++ b ∷ ys)) ≡ true)
      (new : CutsAreNew (offset page_size size) (xs ++ b ∷ ys)) where
    abbrev r : ℕ
    r = offset page_size size

    abbrev q : ℕ
    q = u64 (b.addr + r)

    abbrev v : ℕ
    v = sub_u64 (sub_u64 b.size r) header_size

    abbrev w : ℕ
    w = sub_u64 r header_size

    size_at : (h b.addr).size ≡ b.size
    size_at = ap (λ (c : Header). c.size) (Spots.spot blocks h xs b ys s d).here

    split_at :
        split_block page_size h b.addr size
        ≡ (if leb header_size (sub_u64 b.size r) then cut h b.addr q v w else h)
    unfolding split_block cut_block
    split_at =
        ap
          (λ z.
            if leb header_size (sub_u64 z r)
            then cut h b.addr q (sub_u64 (sub_u64 z r) header_size) w
            else h)
          size_at

    is_new : (q ≢ 0) × (contains q (addrs (xs ++ b ∷ ys)) ≡ false)
    is_new = new b (
        ap (contains b.addr) (Dll.addrs-append blocks xs (b ∷ ys))
        ∙ contains-append b.addr (addrs xs) (addrs (b ∷ ys))
        ∙ ap (λ c. contains b.addr (addrs xs) || c) (contains-head b.addr (addrs ys))
        ∙ or_true (contains b.addr (addrs xs)))
      where
        or_true : (c : Bool) → (c || true) ≡ true
        or_true c = ground arith

    abbrev pub used : Heap
    used = set_free (split_block page_size h b.addr size) b.addr false

    pub use_block :
        Seg used 0 (xs ++ (pieces page_size size b ++ ys)) 0
        × (distinct (addrs (xs ++ (pieces page_size size b ++ ys))) ≡ true)
    use_block = elim (Bool-cases (leb header_size (sub_u64 b.size r))) [
      | inl cuts ↦
          let e : split_block page_size h b.addr size ≡ cut h b.addr q v w =
            split_at ∙ if_true _ _ cuts in
          rw (cuts, e)
            (
              mark-Seg (cut h b.addr q v w) xs (block b.addr b.is_free w) (block q true v ∷ ys)
                  false (cut-Seg h xs b ys q v w s d is_new.0 is_new.1)
                  (cut-distinct h xs b ys q v w s d is_new.0 is_new.1),
              mark-distinct (cut h b.addr q v w) xs (block b.addr b.is_free w) (block q true v ∷ ys)
                  false (cut-Seg h xs b ys q v w s d is_new.0 is_new.1)
                  (cut-distinct h xs b ys q v w s d is_new.0 is_new.1),
            )
      | inr whole ↦
          let e : split_block page_size h b.addr size ≡ h = split_at ∙ if_false _ _ whole in
          rw (whole, e) (mark-Seg h xs b ys false s d, mark-distinct h xs b ys false s d)
    ]
