-- ===== src/Alloc/Extend.antt =====
-- `extend_heap`: a new block at the end of the list.
use simulating_the_functioni.Base.{
  ℕ, ◌+◌, ◌≡◌, ◌≢◌, ap, ◌∙◌, true, false, some, List, [], ◌∷◌, ◌++◌, ◌==◌, ==_iff, if◌then◌else◌,
  Bool-cases, inl, inr, arith,
}
use simulating_the_functioni.Base.Words.{u64, sub_u64}
use simulating_the_functioni.Base.Keys.{distinct-snoc, contains, distinct, contains-ne}
use simulating_the_functioni.Alloc.{Header, Heap, header_size, round_to_page_size, extend_heap}
use simulating_the_functioni.Alloc.Chain.{Block, block, addrs, last, header, Seg}
use simulating_the_functioni.Base.Dll
use simulating_the_functioni.Alloc.Chain.{blocks}

-- What the user gets of a new mapping.
abbrev pub mapped_size : (page_size size : ℕ) → ℕ
mapped_size page_size size =
    sub_u64 (round_to_page_size page_size (u64 (header_size + size))) header_size

module _ (h : Heap) (p page_size size : ℕ) (ne : p ≢ 0) where
  abbrev new_header : ℕ → Header
  new_header l = header (block p false (mapped_size page_size size)) 0 l

  at_new : (l : ℕ) → (p == l) ≡ false → (extend_heap (some p) page_size h l size).1 p ≡ new_header l
  unfolding extend_heap
  at_new l o = elim (Bool-cases (l == 0)) [
    | inl z ↦ rw z (ground arith)
    | inr nz ↦ rw nz (ground (arith, o))
  ]

  at_old :
      (l a : ℕ)
      → l ≢ 0
      → (p == l) ≡ false
      → (a == p) ≡ false
      → (extend_heap (some p) page_size h l size).1 a
        ≡ (if a == l then record (h a) { next = p } else h a)
  unfolding extend_heap
  at_old l a nz o ap = rw (l_ne) (elim (Bool-cases (a == l)) [
    | inl e ↦ rw e (ground (arith, ==_iff a l))
    | inr ne ↦ rw ne (ground arith)
  ])
    where
      l_ne : (l == 0) ≡ false
      l_ne = ground arith

  pub extend-Seg :
      (bs : List Block)
      → Seg h 0 bs 0
      → distinct (addrs bs) ≡ true
      → contains p (addrs bs) ≡ false
      → Seg
          (extend_heap (some p) page_size h (last 0 bs) size).1
          0
          (bs ++ block p false (mapped_size page_size size) ∷ [])
          0
  extend-Seg [] s d out = (at_new 0 (ground arith), ne, tt)
  extend-Seg (b ∷ bs) s d out =
      Dll.Seg-append blocks (extend_heap (some p) page_size h (last b.addr bs) size).1 0 0 (b ∷ bs)
        (block p false (mapped_size page_size size) ∷ [])
        (Dll.Seg-relink blocks h (extend_heap (some p) page_size h (last b.addr bs) size).1 0 0 p b
          bs d (λ a i. at_old _ a last_ne p_ne (contains-ne a p (addrs (b ∷ bs)) out i)) s)
        (at_new (last b.addr bs) p_ne, ne, tt)
    where
      p_ne : (p == last b.addr bs) ≡ false
      p_ne =
          ground (
            arith,
            contains-ne (last b.addr bs) p (addrs (b ∷ bs)) out (Dll.last_among blocks b bs),
          )

      last_ne : last b.addr bs ≢ 0
      last_ne = Dll.last_nonzero blocks h 0 0 b bs s

  pub extend-distinct :
      (bs : List Block)
      → distinct (addrs bs) ≡ true
      → contains p (addrs bs) ≡ false
      → distinct (addrs (bs ++ block p false (mapped_size page_size size) ∷ [])) ≡ true
  extend-distinct bs d out =
      ap distinct (Dll.addrs-append blocks bs (block p false (mapped_size page_size size) ∷ []))
      ∙ distinct-snoc (addrs bs) p d out
