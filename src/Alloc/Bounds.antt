-- ===== src/Alloc/Bounds.antt =====
-- What `round_to_page_size` and `split_block` compute, and where a cut falls.
use simulating_the_functioni.Base.{
  ℕ, ◌+◌, ◌-◌, ◌/◌, ◌%◌, ◌^◌, ◌≤◌, ◌<◌, ◌≡◌, ◌≢◌, refl, sym, ap, subst, ==_iff, ap₂, ◌⊎◌, inl, inr,
  ◌∙◌, Bool, true, false, leb, ◌==◌, if◌then◌else◌, if_true, if_false, arith,
}
use native.Mathlib.Nat.{mod-lt, mod-le, div-add-mod, mul-mod_right}
use native.Mathlib.Decide.{dec_le}
use Prim.Native.Nat.{bit_and}
use simulating_the_functioni.Base.Bits.{bit_and_mask, pow_pos}
use simulating_the_functioni.Base.Words.{u64, sub_u64, not_u64}
use simulating_the_functioni.Alloc.{Heap, header_size, round_to_page_size, cut_block, split_block}
use simulating_the_functioni.Alloc.Split.{cut, cut_at, cut-cut_at}
use simulating_the_functioni.Alloc.Extend.{mapped_size}
use simulating_the_functioni.Alloc.Spec.{offset}

module _ (k size : ℕ) (below : k < 64) (small : size + 2 ^ k ≤ 2 ^ 64) where
  abbrev n : ℕ
  n = size + 2 ^ k - 1

  page_pos : 0 < 2 ^ k
  page_pos = pow_pos k

  -- The mask clears what is left at division by the page size.
  rounded : round_to_page_size (2 ^ k) size ≡ n - n % 2 ^ k
  unfolding round_to_page_size
  rounded =
      ap (λ m. bit_and m (not_u64 (sub_u64 (2 ^ k) 1))) {y = n} (omega (arith, page_pos))
      ∙ ap (bit_and n) {y = 2 ^ (k + (64 - k)) - 2 ^ k} (omega (arith, page_pos, wide))
      ∙ bit_and_mask k (64 - k) n (omega (arith, page_pos, wide))
    where
      wide : 2 ^ (k + (64 - k)) ≡ 2 ^ 64
      wide = ap (λ w. 2 ^ w) {y = 64} (omega arith)

-- For a page size that is a power of two, and without overflow, the result of `round_to_page_size` is
-- the least multiple of the page size that is not below the size.
pub round_to_page_size_bounds :
    (k size : ℕ)
    → k < 64
    → size + 2 ^ k ≤ 2 ^ 64
    → (round_to_page_size (2 ^ k) size % 2 ^ k ≡ 0)
      × (size ≤ round_to_page_size (2 ^ k) size)
      × (round_to_page_size (2 ^ k) size < size + 2 ^ k)
round_to_page_size_bounds k size below small = rw (rounded k size below small) (
  multiple,
  omega (arith, mod-lt m {m = 2 ^ k} (pow_pos k), mod-le m (2 ^ k)),
  omega (arith, mod-lt m {m = 2 ^ k} (pow_pos k), pow_pos k),
)
  where
    m : ℕ
    m = size + 2 ^ k - 1

    multiple : (m - m % 2 ^ k) % 2 ^ k ≡ 0
    multiple =
        ap (λ z. z % 2 ^ k) (omega (arith, div-add-mod m (2 ^ k), mod-le m (2 ^ k)))
        ∙ mul-mod_right (2 ^ k) (m / 2 ^ k)

-- Two headers in the place of one: a lower part of the block and a free upper part at the offset `r`,
-- linked behind it.
abbrev pub IsCut : (h g : Heap) → (p r lower upper : ℕ) → Type 0
IsCut h g p r lower upper =
    (g p ≡ record (h p) { size = lower; next = p + r })
    × (g (p + r) ≡ record { is_free = true; size = upper; next = (h p).next; prev = p })
    × (header_size + lower ≡ r)

-- The two parts lie in the block, and its last 32 bytes belong to none.
abbrev pub CutInside : (h g : Heap) → (p r : ℕ) → Type 0
CutInside h g p r =
    (r + header_size ≤ (h p).size)
    × ((lower : ℕ) × (upper : ℕ) × IsCut h g p r lower upper
        × (r + header_size + upper ≡ (h p).size))

-- Nothing is written.
abbrev pub Uncut : (h g : Heap) → (p r : ℕ) → Type 0
Uncut h g p r = (r ≤ (h p).size) × ((h p).size < r + header_size) × (g ≡ h)

-- The upper part reaches 2 ^ 64 bytes beyond the size.
abbrev pub CutOutside : (h g : Heap) → (p r : ℕ) → Type 0
CutOutside h g p r =
    ((h p).size < r)
    × ((lower : ℕ) × (upper : ℕ) × IsCut h g p r lower upper
        × (r + header_size + upper ≡ 2 ^ 64 + (h p).size))

-- `split_block` with its offset `r`.
module _ (h : Heap) (p r : ℕ) (low : header_size ≤ p) (small_b : p + (h p).size < 2 ^ 64)
    (small_r : p + r < 2 ^ 64) (r32 : header_size ≤ r) (n1 : (h p).next ≢ p)
    (n2 : (h p).next ≢ p + r) where
  abbrev split : Heap
  split = if leb header_size (sub_u64 (h p).size r) then cut_block h p r else h

  split-IsCut :
      (upper : ℕ)
      → leb header_size (sub_u64 (h p).size r) ≡ true
      → sub_u64 (sub_u64 (h p).size r) header_size ≡ upper
      → IsCut h split p r (r - header_size) upper
  unfolding cut_block
  split-IsCut upper e u = (
    made p
        ∙ cuts p
        ∙ if_false _ _ p_ne
        ∙ if_true _ _ ((==_iff p p).1 refl)
        ∙ ap (λ w. record (h p) { size = w; next = p + r }) (omega arith),
    made (p + r) ∙ cuts (p + r) ∙ if_true _ _ ((==_iff (p + r) (p + r)).1 refl),
    omega arith,
  )
    where
      at_q : u64 (p + r) ≡ p + r
      at_q = omega arith

      p_ne : (p == p + r) ≡ false
      p_ne = ground arith

      made : (a : ℕ) → split a ≡ cut h p (p + r) upper (sub_u64 r header_size) a
      made a =
          ap (λ (c : Bool). (if c then cut_block h p r else h) a) e
          ∙ ap₂ (λ q v. cut h p q v (sub_u64 r header_size) a) at_q u

      cuts :
          (a : ℕ)
          → cut h p (p + r) upper (sub_u64 r header_size) a
            ≡ cut_at h p (p + r) upper (sub_u64 r header_size) a
      cuts = cut-cut_at h p (p + r) upper (sub_u64 r header_size) (omega arith) n2 n1

  split_outcomes : CutInside h split p r ⊎ (Uncut h split p r ⊎ CutOutside h split p r)
  split_outcomes = elim (dec_le (r + header_size) (h p).size) [
    | yes inside ↦ inl (
      inside,
      (
        r - header_size,
        (h p).size - r - header_size,
        split-IsCut ((h p).size - r - header_size) (le→leb (omega arith)) (omega arith),
        omega arith,
      ),
    )
    | no not_inside ↦ elim (dec_le r (h p).size) [
      | yes whole ↦
          let e : leb header_size (sub_u64 (h p).size r) ≡ false = lt→leb (omega arith) in
          inr (inl (whole, omega arith, if_false _ _ e))
      | no outside ↦ inr (
          inr (
            omega arith,
            (
              r - header_size,
              2 ^ 64 + (h p).size - r - header_size,
              split-IsCut (2 ^ 64 + (h p).size - r - header_size) (le→leb (omega arith))
                  (omega arith),
              omega arith,
            ),
          ))
    ]
  ]
    where
      le→leb : {i j : ℕ} → i ≤ j → leb i j ≡ true
      le→leb h = ground arith

      lt→leb : {i j : ℕ} → j < i → leb i j ≡ false
      lt→leb h = ground arith

-- `split_block` has one of three outcomes, by the size of the block against the offset `r`, which is
-- the request and a header rounded up to pages. From `r` + 32 on, the block is cut in two within its
-- bounds, 32 bytes short of its end. From `r` to there nothing is written. Below `r`, where a block
-- may be that is large enough for the request, the difference of the sizes wraps round, and a free
-- block of nearly 2 ^ 64 bytes is put behind it.
pub split_block_outcomes :
    (page_size size : ℕ) (h : Heap) (p : ℕ)
    → header_size ≤ p
    → p + (h p).size < 2 ^ 64
    → p + offset page_size size < 2 ^ 64
    → header_size ≤ offset page_size size
    → (h p).next ≢ p
    → (h p).next ≢ p + offset page_size size
    → CutInside h (split_block page_size h p size) p (offset page_size size)
      ⊎ (Uncut h (split_block page_size h p size) p (offset page_size size)
          ⊎ CutOutside h (split_block page_size h p size) p (offset page_size size))
unfolding split_block
split_block_outcomes page_size size h p low small_b small_r r32 n1 n2 =
    split_outcomes h p (offset page_size size) low small_b small_r r32 n1 n2

-- When a block whose data `extend_heap` made for a request is free and is used for the same request
-- again, `split_block` writes the header of a second free block right behind the block's data, with a
-- size of 2 ^ 64 - 64, and links it behind the block, which keeps its size. The page size is a power of
-- two.
pub reuse_overruns :
    (k size : ℕ) (h : Heap) (p : ℕ)
    → header_size ≤ p
    → k < 64
    → size + header_size + 2 ^ k ≤ 2 ^ 64
    → (h p).size ≡ mapped_size (2 ^ k) size
    → p + header_size + (h p).size < 2 ^ 64
    → (h p).next ≢ p
    → (h p).next ≢ p + header_size + (h p).size
    → (split_block (2 ^ k) h p size (p + header_size + (h p).size)
        ≡ record { is_free = true; size = 2 ^ 64 - 64; next = (h p).next; prev = p })
      × (split_block (2 ^ k) h p size p ≡ record (h p) { next = p + header_size + (h p).size })
unfolding split_block
reuse_overruns k size h p low_p below small made fits_in n1 n2 = (
  ap (split_block (2 ^ k) h p size) (omega (arith, sized)) ∙ parts.1,
  parts.0 ∙ ap₂ (λ z q. record (h p) { size = z; next = q }) same_size (omega (arith, sized)),
)
  where
    arg : u64 (size + header_size) ≡ size + header_size
    arg = omega (arith, pow_pos k)

    low : size + header_size ≤ offset (2 ^ k) size
    low =
        subst (λ z. size + header_size ≤ round_to_page_size (2 ^ k) z) (sym arg)
          (round_to_page_size_bounds k (size + header_size) below small).1

    high : offset (2 ^ k) size < 2 ^ 64
    high =
        subst (λ z. round_to_page_size (2 ^ k) z < 2 ^ 64) (sym arg)
          (omega (arith, (round_to_page_size_bounds k (size + header_size) below small).2))

    same_offset : round_to_page_size (2 ^ k) (u64 (header_size + size)) ≡ offset (2 ^ k) size
    same_offset = ap (λ z. round_to_page_size (2 ^ k) (u64 z)) (omega arith)

    sized : (h p).size + header_size ≡ offset (2 ^ k) size
    sized = omega (arith, made, ap (λ z. sub_u64 z header_size) same_offset, low, high)

    wraps : leb header_size (sub_u64 (h p).size (offset (2 ^ k) size)) ≡ true
    wraps =
        (let e : header_size ≤ sub_u64 (h p).size (offset (2 ^ k) size) =
            omega (arith, sized, high) in
          ground (arith, e))

    parts :
        IsCut h
          (split_block (2 ^ k) h p size)
          p
          (offset (2 ^ k) size)
          (offset (2 ^ k) size - header_size)
          (2 ^ 64 - 64)
    parts =
        split-IsCut h p (offset (2 ^ k) size) low_p (omega arith) (omega (arith, sized))
          (omega (arith, low)) n1 (λ e. n2 (e ∙ omega (arith, sized))) (2 ^ 64 - 64) wraps
          (omega (arith, sized, high))

    same_size : offset (2 ^ k) size - header_size ≡ (h p).size
    same_size = omega (arith, sized)
