-- ===== src/Alloc/Free.antt =====
-- `my_free` against a list of blocks.
pub mod Promise
mod Release
mod Settle
use simulating_the_functioni.Base.{
  ℕ, ◌+◌, ◌≡◌, ◌≢◌, ◌<◌, ◌^◌, ◌⊎◌, inl, inr, refl, sym, ap, subst, ◌∙◌, Bool, true, false,
  Bool-cases, not, ◌&&◌, List, [], ◌∷◌, ◌++◌, append_assoc, append-nil, ◌==◌, ==_iff, if◌then◌else◌,
  if_true, arith,
}
use simulating_the_functioni.Base.Words.{u64}
use simulating_the_functioni.Base.Keys.{distinct}
use simulating_the_functioni.Alloc.{
  Header, Heap, Memory, header_size, set_free, set_next, initialize_page_size, merge_free_blocks,
  join_next, release, prev_is_free, get_user_data, get_block_start, my_free,
}
use simulating_the_functioni.Alloc.Chain.{Block, block, addrs, first, last, Seg}
use simulating_the_functioni.Alloc.Mark.{mark-Seg, mark-distinct}
use simulating_the_functioni.Alloc.Chain.{Spot}
use simulating_the_functioni.Alloc.Join.{joined, join-Seg, join-distinct}
use simulating_the_functioni.Alloc.Spec.{IsList}
use simulating_the_functioni.Alloc.Malloc.{initialize-IsList}
use simulating_the_functioni.Base.Dll
use simulating_the_functioni.Alloc.Chain.{blocks}
use simulating_the_functioni.Alloc.Free.Promise.{Freed, before, settled, free_list, Holds}
use simulating_the_functioni.Alloc.Free.Settle.{settle_any}

initialize-unmapped :
    (sysconf : ℕ) (m : Memory) → (initialize_page_size sysconf m).unmapped ≡ m.unmapped
unfolding initialize_page_size
initialize-unmapped sysconf m = ground arith

-- `my_free` of the user's data of a block marks it free, joins it with the block before it if that is
-- free, and joins what comes of it with the next one if that is free. If there is no next one, it is
-- unlinked and given to `munmap` instead, with the size of its header and its data. The blocks that
-- are left are linked both ways, and no other call of `munmap` is made.
pub my_free_refines :
    (sysconf : ℕ) (m : Memory) (xs : List Block) (b : Block) (ys : List Block)
    → IsList m (xs ++ b ∷ ys)
    → b.addr + header_size < 2 ^ 64
    → Holds m (my_free sysconf (get_user_data b.addr) m) (free_list xs b ys)
unfolding my_free
my_free_refines sysconf m xs b ys l small = rw ptr_ne (
    subst (λ q. Holds m (freeing q) (free_list xs b ys)) (sym start)
      (let r = settle_any m1 b ys xs (initialize-IsList sysconf m (xs ++ b ∷ ys) l) in
        record {
          list = r.list;
          calls = r.calls ∙ ap (λ u. (free_list xs b ys).1 ++ u) (initialize-unmapped sysconf m);
        }))
  where
    ptr_ne : (get_user_data b.addr == 0) ≡ false
    ptr_ne = ground arith

    start : get_block_start (get_user_data b.addr) ≡ b.addr
    start = omega arith

    m1 : Memory
    m1 = initialize_page_size sysconf m

    freeing : ℕ → Memory
    freeing q =
        let h1 = set_free m1.heap q true in
        if prev_is_free h1 q
        then release (record m1 { heap = merge_free_blocks h1 (h1 q).prev }) (h1 q).prev
        else release (record m1 { heap = h1 }) q
