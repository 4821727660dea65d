-- ===== src/Alloc/Chain.antt =====
-- The doubly linked list of the allocator as a list of blocks.
use simulating_the_functioni.Base.{ℕ, refl, Bool, List}
use simulating_the_functioni.Base.Dll
use simulating_the_functioni.Base.Dll.Spots
use simulating_the_functioni.Base.Dll.{Nodes}
use simulating_the_functioni.Alloc.{Header, Heap}

pub record Block : Type 0 where
  pub addr : ℕ
  pub is_free : Bool
  pub size : ℕ

abbrev pub block : ℕ → Bool → ℕ → Block
block a f s = record { addr = a; is_free = f; size = s }

abbrev pub header : Block → (next prev : ℕ) → Header
header b n p = record { is_free = b.is_free; size = b.size; next = n; prev = p }

abbrev pub blocks : Nodes Block Header
blocks = record {
  addr = λ b. b.addr;
  cell = header;
  with_next = λ h m. record h { next = m };
  with_prev = λ h m. record h { prev = m };
  next_law = λ b i p m. refl;
  prev_law = λ b i p m. refl;
}

abbrev pub addrs : List Block → List ℕ
addrs = Dll.addrs blocks

-- The address of the first block, or `end`.
abbrev pub first : List Block → (end : ℕ) → ℕ
first = Dll.first blocks

-- The address of the last block, or `start`.
abbrev pub last : (start : ℕ) → List Block → ℕ
last = Dll.last blocks

-- The headers at the blocks' addresses are linked both ways, from `prev` on and up to `end`.
abbrev pub Seg : Heap → (prev : ℕ) → List Block → (end : ℕ) → Type 0
Seg = Dll.Seg blocks

-- One block, with those before and behind it.
abbrev pub Spot : Heap → List Block → Block → List Block → Type 0
Spot = Spots.Spot blocks
