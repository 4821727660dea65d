-- ===== src/Tlb/Lru.antt =====
-- `LRU` of Assignment-03-memory/2021MT10904.cpp: a doubly linked list of nodes with the page that was
-- used last in front, and a map from pages to nodes. The store is a function from addresses to nodes,
-- and where `new` puts a node is an argument.
pub mod Entries
pub mod Recent
pub mod Links
pub mod Holds
pub mod Miss
pub mod Cleanup
pub mod Sound
use simulating_the_functioni.Base.{
  ℕ, zero, suc, ◌+◌, Option, none, some, List, [], ◌∷◌, ◌==◌, if◌then◌else◌, length,
}
use simulating_the_functioni.Base.Keys.{insert, erase}
use simulating_the_functioni.Tlb.Replacement.{page_number}
use simulating_the_functioni.Tlb.Optimal.{IntMap, lookup, put, erase_key}

pub record Node : Type 0 where
  pub page_number : ℕ
  pub prev : ℕ
  pub next : ℕ

abbrev pub Store : Type 0
Store = ℕ → Node

abbrev pub write : Store → ℕ → Node → Store
write h p c a = if a == p then c else h a

abbrev pub set_next : Store → ℕ → ℕ → Store
set_next h p v = write h p (record (h p) { next = v })

abbrev pub set_prev : Store → ℕ → ℕ → Store
set_prev h p v = write h p (record (h p) { prev = v })

-- `if (p) p->next = v;`
abbrev pub set_next_of : Store → ℕ → ℕ → Store
set_next_of h p v = if p == 0 then h else set_next h p v

-- `if (p) p->prev = v;`
abbrev pub set_prev_of : Store → ℕ → ℕ → Store
set_prev_of h p v = if p == 0 then h else set_prev h p v

-- The local variables, with the store and the addresses that `new` has given and `delete` has not
-- taken back.
pub record Lru : Type 0 where
  pub store : Store
  pub live : List ℕ
  pub map : IntMap  -- `tlbMap`
  pub head : ℕ
  pub tail : ℕ
  pub hits : ℕ  -- `tlbHits`

abbrev pub start : Store → Lru
start h = record { store = h; live = []; map = []; head = 0; tail = 0; hits = 0 }

-- Taking a node out of the list.
unfoldable pub unlink : Store → ℕ → Store
unlink h node =
    let h1 = set_next_of h (h node).prev (h node).next in
    set_prev_of h1 (h1 node).next (h1 node).prev

-- Putting a node in front of the list.
unfoldable pub link_front : Store → (head node : ℕ) → Store
link_front h head node =
    let h1 = set_next h node head in let h2 = set_prev h1 node 0 in set_prev_of h2 head node

-- What a hit does to the list.
unfoldable pub promote : Lru → ℕ → Lru
promote s node =
    if node == s.head
    then s
    else let h = unlink s.store node in
      let tail = if node == s.tail then (h node).prev else s.tail in
      record s {
        store = link_front h s.head node;
        head = node;
        tail = if tail == 0 then node else tail;
      }

-- A full buffer loses the page that was not used for the longest time.
unfoldable pub drop_tail : Lru → Lru
drop_tail s =
    let tail = (s.store s.tail).prev in
    record s {
      map = erase_key (s.store s.tail).page_number s.map;
      store = set_next_of s.store tail 0;
      head = if tail == 0 then 0 else s.head;
      tail = tail;
      live = erase s.tail s.live;
    }

-- The loop that deletes the nodes at the end, for at most so many nodes: the addresses that stay live,
-- if it ends.
unfoldable pub clean_up : ℕ → Store → (head : ℕ) → List ℕ → Option (List ℕ)
clean_up zero h head live = if head == 0 then some live else none
clean_up (suc n) h head live =
    let rest = clean_up n h (h head).next (erase head live) in if head == 0 then some live else rest

module _ (new : List ℕ → ℕ) where
  unfoldable pub add_page : Lru → ℕ → Lru
  add_page s page =
      let node = new s.live in
      let h = write s.store node (record { page_number = page; prev = 0; next = 0 }) in
      record s {
        store = link_front h s.head node;
        live = insert node s.live;
        head = node;
        tail = if s.tail == 0 then node else s.tail;
        map = put page node s.map;
      }

  module _ (p k : ℕ) where
    -- What a page does, with what the map has for it.
    unfoldable pub lru_page : Lru → ℕ → Option ℕ → Lru
    lru_page s page (some node) = promote (record s { hits = s.hits + 1 }) node
    lru_page s page none = add_page (if length s.map == k then drop_tail s else s) page

    unfoldable pub lru_loop : Lru → List ℕ → Lru
    lru_loop s [] = s
    lru_loop s (a ∷ rest) =
        let page = page_number p a in lru_loop (lru_page s page (lookup page s.map)) rest

    -- The hits, and the nodes that are left behind. The store is `h` at first, and the
    -- last loop has a round for each entry of the map.
    unfoldable pub lru : Store → List ℕ → ℕ × Option (List ℕ)
    lru h addresses =
        let s = lru_loop (start h) addresses in
        (s.hits, clean_up (length s.map) s.store s.head s.live)
