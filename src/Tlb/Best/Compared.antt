-- ===== src/Tlb/Best/Compared.antt =====
-- No policy has more hits than the one that replaces a page whose next use is the farthest.
use simulating_the_functioni.Base.{
  ℕ, ◌≤◌, ◌<◌, ◌≡◌, refl, ◌∙◌, true, false, List, [], ◌∷◌, ◌++◌, length, length-append, arith,
}
use simulating_the_functioni.Base.Keys.{
  contains, distinct, erase, contains-erase, distinct-erase, distinct-snoc,
}
use simulating_the_functioni.Tlb.Replacement.Policy.{Cache}
use simulating_the_functioni.Tlb.Optimal.Belady.{Belady, done, hit, room, replace}
use simulating_the_functioni.Tlb.Best.{Holds, IsPolicy, run}
use simulating_the_functioni.Tlb.Best.Uses.{length-erased}
use simulating_the_functioni.Tlb.Best.Ahead.{Ahead, hit_Ahead, room_Ahead, replace_Ahead}

-- `page` behind some of the pages, of which there are fewer than `k`.
put-Holds :
    (k page : ℕ) (c : Cache) (left : List ℕ)
    → distinct left ≡ true
    → contains page left ≡ false
    → length left < k
    → Holds k (record c { pages = left ++ page ∷ [] })
put-Holds k page c left d out less = record {
  no_twice = distinct-snoc left page d out;
  no_more = omega (arith, length-append {0} left (page ∷ []));
}

module _ (k : ℕ) (step : Cache → ℕ → Cache) (policy : IsPolicy k step) where
  ahead_lem :
      {i : ℕ} {future : List ℕ} {C : Cache} {hits : ℕ} (d : ℕ) (D : Cache)
      → Belady k i future C hits
      → Holds k C
      → Holds k D
      → Ahead d future C D
      → (run step D future).hits ≤ hits
  ahead_lem d D done holdsC holdsD ahead = omega (arith, ahead.hits)
  ahead_lem d D (hit {i = i} {page = page} {hits = hits} {rest = rest} {c = C} present more) holdsC
        holdsD ahead =
      let served = policy D page holdsD in
      ahead_lem _ (step D page) more
        (record { no_twice = holdsC.no_twice; no_more = holdsC.no_more }) served.holds
        (hit_Ahead k page rest C D (step D page) holdsC holdsD served d ahead present)
  ahead_lem d D (room {i = i} {page = page} {hits = hits} {rest = rest} {c = C} missing part more)
        holdsC holdsD ahead =
      let served = policy D page holdsD in
      ahead_lem _ (step D page) more
        (put-Holds k page C C.pages holdsC.no_twice missing (omega (arith, holdsC.no_more, part)))
        served.holds (room_Ahead k page rest C D (step D page) holdsC holdsD served d ahead missing)
  ahead_lem d D
        (replace {i = i} {page = page} {hits = hits} {rest = rest} {c = C} v missing full far more)
        holdsC holdsD ahead =
      let served = policy D page holdsD in
      ahead_lem _ (step D page) more
        (put-Holds k page C (erase v C.pages) (distinct-erase v C.pages holdsC.no_twice)
          (contains-erase page v C.pages ∙ ground (arith, missing))
          (omega (arith, full, length-erased v C.pages holdsC.no_twice far.0)))
        served.holds
        (replace_Ahead k page rest C D (step D page) holdsC holdsD served d ahead i v missing full
          far)

  -- From an empty buffer of at most `k` pages, a policy has no more hits than a run of the policy that
  -- replaces a page whose next use is the farthest.
  pub farthest_is_best :
      (future : List ℕ) (hits : ℕ)
      → Belady k 0 future (record { pages = []; hits = 0 }) hits
      → (run step (record { pages = []; hits = 0 }) future).hits ≤ hits
  unfolding distinct
  farthest_is_best future hits best =
      ahead_lem 0 (record { pages = []; hits = 0 }) best
        (record { no_twice = refl; no_more = omega arith })
        (record { no_twice = refl; no_more = omega arith })
        (record { covered = λ t. omega arith; hits = omega arith })
