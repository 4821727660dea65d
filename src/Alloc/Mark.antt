-- ===== src/Alloc/Mark.antt =====
-- Marking one block of the list.
use simulating_the_functioni.Base.{
  ◌≡◌, refl, ap, ◌∙◌, Bool, true, List, ◌∷◌, ◌++◌, ==_iff, if_true, if_false,
}
use simulating_the_functioni.Base.Keys.{distinct}
use simulating_the_functioni.Alloc.{Header, Heap, set_free}
use simulating_the_functioni.Alloc.Chain.{Block, block, addrs, Seg}
use simulating_the_functioni.Base.Dll.Spots
use simulating_the_functioni.Alloc.Chain.{blocks}

-- Marking a block.
module _ (h : Heap) (xs : List Block) (b : Block) (ys : List Block) (f : Bool)
    (s : Seg h 0 (xs ++ b ∷ ys) 0) (d : distinct (addrs (xs ++ b ∷ ys)) ≡ true) where
  pub mark-Seg : Seg (set_free h b.addr f) 0 (xs ++ block b.addr f b.size ∷ ys) 0
  mark-Seg =
      let t = Spots.spot blocks h xs b ys s d in
      Spots.replace-Seg blocks h (set_free h b.addr f) xs b (block b.addr f b.size) ys t refl
        (if_true _ _ ((==_iff b.addr b.addr).1 refl)
          ∙ ap (λ (c : Header). record c { is_free = f }) t.here)
        (λ a ne. if_false _ _ ne)

  pub mark-distinct : distinct (addrs (xs ++ block b.addr f b.size ∷ ys)) ≡ true
  mark-distinct = ap distinct (Spots.replace-addrs blocks xs b (block b.addr f b.size) ys refl) ∙ d
