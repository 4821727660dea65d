-- ===== src/Alloc/Free/Promise.antt =====
-- What `my_free` leaves of a list of blocks.
use simulating_the_functioni.Base.{ℕ, ◌+◌, ◌≡◌, true, List, [], ◌∷◌, ◌++◌, if◌then◌else◌}
use simulating_the_functioni.Base.Words.{u64}
use simulating_the_functioni.Alloc.{Memory, header_size}
use simulating_the_functioni.Alloc.Chain.{Block, block}
use simulating_the_functioni.Alloc.Join.{joined}
use simulating_the_functioni.Alloc.Spec.{IsList}

-- The blocks that are left, and the calls of `munmap`, latest first.
abbrev pub Freed : Type 0
Freed = List Block × List (ℕ × ℕ)

abbrev pub before : List Block → Freed → Freed
before xs (bs, calls) = (xs ++ bs, calls)

-- A free block takes in the next one if that is free; the last one is given back.
abbrev pub settled : Block → List Block → Freed
settled b [] = ([], (b.addr, u64 (header_size + b.size)) ∷ [])
settled b (y ∷ ys) = (if y.is_free then joined b y ∷ ys else b ∷ y ∷ ys, [])

-- What `my_free` promises for a block with `xs` before it and `ys` behind: it becomes free, the one
-- before it takes it in if that is free, and what comes of it settles.
abbrev pub free_list : (xs : List Block) (b : Block) (ys : List Block) → Freed
free_list [] b ys = settled (block b.addr true b.size) ys
free_list (p ∷ []) b ys =
    if p.is_free
    then settled (joined p (block b.addr true b.size)) ys
    else before (p ∷ []) (settled (block b.addr true b.size) ys)
free_list (p ∷ q ∷ xs) b ys = before (p ∷ []) (free_list (q ∷ xs) b ys)

-- The memory holds what is left, and has made the calls.
pub record Holds (m m' : Memory) (f : Freed) : Type 0 where
  pub list : IsList m' f.0
  pub calls : m'.unmapped ≡ f.1 ++ m.unmapped
