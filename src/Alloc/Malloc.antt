-- ===== src/Alloc/Malloc.antt =====
-- `my_malloc` against a list of blocks.
use simulating_the_functioni.Base.{
  ℕ, ◌≡◌, ◌<◌, inl, inr, refl, sym, ap, subst, ◌∙◌, true, false, Bool-cases, Option, none, some,
  List, [], ◌∷◌, ◌++◌, leb, ◌==◌, if◌then◌else◌, length, arith,
}
use simulating_the_functioni.Base.Words.{sub_u64}
use simulating_the_functioni.Base.Keys.{distinct}
use simulating_the_functioni.Alloc.{
  Memory, header_size, set_free, initialize_page_size, split_block, extend_heap, extended, allocate,
  find_from, find_suitable_block, my_malloc,
}
use simulating_the_functioni.Alloc.Chain.{Block, block, addrs, first, last, Seg}
use simulating_the_functioni.Alloc.Find.{first_fit, find_from_lem}
use simulating_the_functioni.Alloc.Extend.{mapped_size, extend-Seg, extend-distinct}
use simulating_the_functioni.Alloc.Spec.{
  IsList, offset, pieces, place, malloc_list, CutsAreNew, IsNew,
}
use simulating_the_functioni.Alloc.Use.{Fit, Fit-cases, use_block}
use simulating_the_functioni.Base.Dll.Spots
use simulating_the_functioni.Alloc.Chain.{blocks}

pieces_first :
    (page_size size : ℕ) (b : Block) (ys : List Block)
    → first (pieces page_size size b ++ ys) 0 ≡ b.addr
pieces_first page_size size b ys =
    elim (Bool-cases (leb header_size (sub_u64 b.size (offset page_size size)))) [
      | inl e ↦ rw e refl
      | inr e ↦ rw e refl
    ]

-- The outcome of a call: an address, and a memory that holds the blocks.
abbrev pub Gives : Option (ℕ × Memory) → ℕ × List Block → Type 0
Gives o (a, bs) = (m : Memory) × (o ≡ some (a, m)) × IsList m bs

module _ (mmap : Option ℕ) (size : ℕ) (m : Memory) where
  -- A new block at the end, with the base that the caller sets.
  extended-Gives :
      (bs : List Block) (base : ℕ → ℕ)
      → place m.page_size size bs ≡ none
      → IsList m bs
      → IsNew mmap bs
      → ((p : ℕ) → base p ≡ first (bs ++ block p false (mapped_size m.page_size size) ∷ []) 0)
      → Gives
          (some (extended m (extend_heap mmap m.page_size m.heap (last 0 bs) size) base))
          (malloc_list mmap m.page_size size bs)
  unfolding extend_heap
  extended-Gives bs base none_fits l new b = go mmap new
    where
      go :
          (o : Option ℕ)
          → IsNew o bs
          → Gives
              (some (extended m (extend_heap o m.page_size m.heap (last 0 bs) size) base))
              (malloc_list o m.page_size size bs)
      go none new = rw (malloc_list, none_fits) (m, refl, l)
      go (some p) new =
          let (ne, out) = new p refl in
          let p_ne : (p == 0) ≡ false = ground arith in
          rw (malloc_list, none_fits, p_ne)
            (
              record m {
                base = base p;
                heap = (extend_heap (some p) m.page_size m.heap (last 0 bs) size).1;
              },
              refl,
              record {
                base = b p;
                chain = extend-Seg m.heap p m.page_size size ne bs l.chain l.once out;
                once = extend-distinct m.heap p m.page_size size ne bs l.once out;
              },
            )

  -- A call with the page size known.
  malloc_Gives :
      (n : ℕ) (bs : List Block)
      → IsList m bs
      → length bs < n
      → CutsAreNew (offset m.page_size size) bs
      → IsNew mmap bs
      → Gives
          (if m.base == 0
            then some (extended m (extend_heap mmap m.page_size m.heap 0 size) (λ p. p))
            else elim (find_suitable_block n m m.base size) [
              | none ↦ none
              | some found ↦ some (allocate mmap m size found)
            ])
          (malloc_list mmap m.page_size size bs)
  malloc_Gives n [] l enough cuts new =
      let z : (m.base == 0) ≡ true = ground (arith, l.base) in
      rw z (extended-Gives [] (λ p. p) refl l new (λ p. refl))
  malloc_Gives n (b ∷ bs) l enough cuts new =
      rw (base_ne, searched)
        (elim (Fit-cases m.page_size size m.base (b ∷ bs)) [
          | inl f ↦ used_fit f
          | inr f ↦ rw f.found (extended-Gives (b ∷ bs) (λ _. m.base) f.placed l new (λ p. l.base))
        ])
    where
      base_ne : (m.base == 0) ≡ false
      base_ne = ground (arith, l.base, l.chain.1)

      searched : find_suitable_block n m m.base size ≡ some (first_fit size m.base (b ∷ bs))
      searched =
          unfold find_suitable_block in
          (ap (λ p. find_from n m.heap m.base p size) l.base
            ∙ find_from_lem n m.heap 0 m.base size (b ∷ bs) l.chain enough)

      used_fit :
          Fit m.page_size size m.base (b ∷ bs)
          → Gives
              (some (allocate mmap m size (first_fit size m.base (b ∷ bs))))
              (malloc_list mmap m.page_size size (b ∷ bs))
      used_fit f =
          rw (malloc_list, f.placed, f.found, chosen_ne)
            (
              record m {
                heap =
                    set_free (split_block m.page_size m.heap f.chosen.addr size) f.chosen.addr
                      false;
              },
              refl,
              record {
                base = l.base ∙ ap (λ cs. first cs 0) f.parts ∙ same_first f.before;
                chain =
                    (use_block m.page_size size m.heap f.before f.chosen f.behind chain once
                      cuts').0;
                once =
                    (use_block m.page_size size m.heap f.before f.chosen f.behind chain once
                      cuts').1;
              },
            )
        where
          chain : Seg m.heap 0 (f.before ++ f.chosen ∷ f.behind) 0
          chain = subst (λ cs. Seg m.heap 0 cs 0) f.parts l.chain

          once : distinct (addrs (f.before ++ f.chosen ∷ f.behind)) ≡ true
          once = sym (ap (λ cs. distinct (addrs cs)) f.parts) ∙ l.once

          cuts' : CutsAreNew (offset m.page_size size) (f.before ++ f.chosen ∷ f.behind)
          cuts' = subst (CutsAreNew (offset m.page_size size)) f.parts cuts

          chosen_ne : (f.chosen.addr == 0) ≡ false
          chosen_ne =
              ground
                (arith, (Spots.spot blocks m.heap f.before f.chosen f.behind chain once).nonzero)

          same_first :
              (xs : List Block)
              → first (xs ++ f.chosen ∷ f.behind) 0
                ≡ first (xs ++ (pieces m.page_size size f.chosen ++ f.behind)) 0
          same_first [] = sym (pieces_first m.page_size size f.chosen f.behind)
          same_first (x ∷ xs) = refl

pub initialize-IsList :
    (sysconf : ℕ) (m : Memory) (bs : List Block)
    → IsList m bs
    → IsList (initialize_page_size sysconf m) bs
unfolding initialize_page_size
initialize-IsList sysconf m bs l = elim (Bool-cases (m.page_size == 0)) [
  | inl e ↦ rw e (record { base = l.base; chain = l.chain; once = l.once })
  | inr e ↦ rw e l
]

-- On the blocks of a memory, with more rounds for the search than there are blocks, `my_malloc`
-- ends. It gives the first free block that is large enough, cut in two where `split_block` cuts it,
-- or else the one that `mmap` gives, put at the end; if `mmap` gives none, it gives 0 and changes no
-- block. The blocks are linked both ways again. Here `mmap` gives no header's address and not 0,
-- and no header stands, nor is address 0, where a block would be cut.
pub my_malloc_refines :
    (n sysconf : ℕ) (mmap : Option ℕ) (size : ℕ) (m : Memory) (bs : List Block)
    → IsList m bs
    → length bs < n
    → CutsAreNew (offset (initialize_page_size sysconf m).page_size size) bs
    → IsNew mmap bs
    → Gives
        (my_malloc n sysconf mmap size m)
        (malloc_list mmap (initialize_page_size sysconf m).page_size size bs)
unfolding my_malloc
my_malloc_refines n sysconf mmap size m bs l enough cuts new =
    malloc_Gives mmap size (initialize_page_size sysconf m) n bs (initialize-IsList sysconf m bs l)
      enough cuts new
