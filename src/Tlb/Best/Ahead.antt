-- ===== src/Tlb/Best/Ahead.antt =====
-- A buffer that replaces the page whose next use is the farthest stays ahead of any other.
use simulating_the_functioni.Base.{
  ℕ, suc, ◌+◌, ◌-◌, ◌≤◌, ◌≡◌, ◌⊎◌, Bool, true, false, Bool-cases, inl, inr, List, [], ◌∷◌, ◌++◌,
  if◌then◌else◌, length, arith,
}
use simulating_the_functioni.Base.Counts.{tally, tally-append}
use simulating_the_functioni.Base.Keys.{contains, erase}
use simulating_the_functioni.Tlb.Replacement.Policy.{Cache}
use simulating_the_functioni.Tlb.Optimal.Belady.{IsFarthest}
use simulating_the_functioni.Tlb.Best.{Holds, Served}
use simulating_the_functioni.Tlb.Best.Soon.{
  soon, but, tally-or, tally-with, tally-but-le, tally-erase, tally_mono,
}
use simulating_the_functioni.Tlb.Best.Uses.{soon_first, first_soon, tally_all, tally-none}

-- Whatever comes next, all but `d` of the pages of `D` that are soon used have their like in `C`, and
-- `C` has these `d` hits more.
pub record Ahead (d : ℕ) (future : List ℕ) (C D : Cache) : Type 0 where
  pub covered : (t : ℕ) → tally (soon t future) D.pages ≤ tally (soon t future) C.pages + d
  pub hits : D.hits + d ≤ C.hits

abbrev pub one : Bool → ℕ
one b = if b then 1 else 0

module _ (k page : ℕ) (rest : List ℕ) (C D r : Cache) (holdsC : Holds k C) (holdsD : Holds k D)
    (served : Served k D page r) (d : ℕ) (ahead : Ahead d (page ∷ rest) C D) where
  -- Without the page that is used now.
  others : ℕ → Cache → ℕ
  others t c = tally (but page (soon t rest)) c.pages

  now_covered :
      (t : ℕ)
      → one (contains page D.pages) + others t D ≤ one (contains page C.pages) + others t C + d
  unfolding others
  now_covered t = omega (
    arith,
    ahead.covered (suc t),
    tally-or page (soon t rest) D.pages holdsD.no_twice,
    tally-or page (soon t rest) C.pages holdsC.no_twice,
  )

  after_served : (t : ℕ) → tally (soon t rest) r.pages ≡ one (soon t rest page) + others t r
  unfolding others
  after_served t =
      ground (arith, tally-with page (soon t rest) r.pages served.holds.no_twice, served.has)

  fewer : (t : ℕ) → others t r ≤ others t D
  unfolding others
  fewer t =
      tally_mono (but page (soon t rest)) r.pages D.pages served.holds.no_twice holdsD.no_twice
        (λ q i b. served.old q i (ground (arith, b)))

  below : (t : ℕ) → others t r + 1 ≤ k
  unfolding others
  below t =
      ground (arith, tally-but-le page (soon t rest) r.pages, served.has, served.holds.no_more)

  -- No hit of `D` is missed by `C` without one in reserve.
  reserve : one (contains page D.pages) ≤ one (contains page C.pages) + d
  unfolding others
  reserve = omega (
    arith,
    now_covered 0,
    tally-none (but page (soon 0 rest)) D.pages (λ q. ground arith),
    tally-none (but page (soon 0 rest)) C.pages (λ q. ground arith),
  )

  next_covered :
      (after : Cache) (e : ℕ)
      → e + one (contains page D.pages) ≡ d + one (contains page C.pages)
      → (t : ℕ) → (m : ℕ) → tally (soon t rest) after.pages ≡ one (soon t rest page) + m
      → (others t C ≤ m) ⊎ (k ≤ m + 1)
      → tally (soon t rest) r.pages ≤ tally (soon t rest) after.pages + e
  next_covered after e balance t m is (inl le) =
      omega (arith, now_covered t, after_served t, fewer t)
  next_covered after e balance t m is (inr le) = omega (arith, after_served t, below t)

  pub hit_Ahead :
      contains page C.pages ≡ true
      → Ahead (d + 1 - one (contains page D.pages)) rest (record C { hits = C.hits + 1 }) r
  unfolding others
  hit_Ahead i = record {
    covered = λ t.
        next_covered (record C { hits = C.hits + 1 }) (d + 1 - one (contains page D.pages))
          (ground (arith, i)) t (others t C)
          (ground (arith, i, tally-with page (soon t rest) C.pages holdsC.no_twice))
          (inl (omega arith));
    hits = ground (arith, served.counted, ahead.hits);
  }

  -- A miss of `C`, after which it has `page` behind some of its pages.
  module _ (missing : contains page C.pages ≡ false) (left : List ℕ) where
    abbrev after : Cache
    after = record C { pages = left ++ page ∷ [] }

    with_page :
        (t : ℕ)
        → tally (soon t rest) after.pages ≡ one (soon t rest page) + tally (soon t rest) left
    with_page t = omega (arith, tally-append (soon t rest) left (page ∷ []))

    all_others : (t : ℕ) → tally (soon t rest) C.pages ≡ others t C
    unfolding others
    all_others t = ground (arith, missing, tally-with page (soon t rest) C.pages holdsC.no_twice)

    miss_Ahead :
        ((t : ℕ) → (others t C ≤ tally (soon t rest) left) ⊎ (k ≤ tally (soon t rest) left + 1))
        → Ahead (d - one (contains page D.pages)) rest after r
    miss_Ahead is = record {
      covered = λ t.
          next_covered after (d - one (contains page D.pages)) (ground (arith, missing, reserve)) t
            (tally (soon t rest) left) (with_page t) (is t);
      hits = ground (arith, served.counted, ahead.hits, missing, reserve);
    }

  pub room_Ahead :
      contains page C.pages ≡ false
      → Ahead (d - one (contains page D.pages)) rest (record C { pages = C.pages ++ page ∷ [] }) r
  room_Ahead missing =
      miss_Ahead missing C.pages (λ t. inl (omega (arith, all_others missing C.pages t)))

  pub replace_Ahead :
      (i v : ℕ)
      → contains page C.pages ≡ false
      → length C.pages ≡ k
      → IsFarthest v C.pages (suc i) rest
      → Ahead
          (d - one (contains page D.pages))
          rest
          (record C { pages = erase v C.pages ++ page ∷ [] })
          r
  replace_Ahead i v missing full (there, last) = miss_Ahead missing (erase v C.pages) left
    where
      all_soon :
          (t : ℕ)
          → soon t rest v ≡ true
          → (q : ℕ) → contains q C.pages ≡ true
          → soon t rest q ≡ true
      all_soon t s q j =
          let (b, f, lt) = soon_first v (suc i) t rest s in
          let (a, g, le) = last q j b f in first_soon q (suc i) t a rest g (omega (arith, lt, le))

      left :
          (t : ℕ)
          → (others t C ≤ tally (soon t rest) (erase v C.pages))
            ⊎ (k ≤ tally (soon t rest) (erase v C.pages) + 1)
      left t = elim (Bool-cases (soon t rest v)) [
        | inl s ↦ inr (
            ground (
              arith,
              s,
              full,
              tally-erase (soon t rest) v C.pages holdsC.no_twice there,
              tally_all (soon t rest) C.pages (all_soon t s),
            ))
        | inr n ↦ inl (
            ground (
              arith,
              n,
              all_others missing (erase v C.pages) t,
              tally-erase (soon t rest) v C.pages holdsC.no_twice there,
            ))
      ]
