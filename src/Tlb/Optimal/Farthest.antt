-- ===== src/Tlb/Optimal/Farthest.antt =====
-- The loop of `Optimal` that looks for the page to replace.
use simulating_the_functioni.Base.{
  ℕ, ◌≤◌, ◌≡◌, ◌≢◌, ◌⊎◌, inl, inr, refl, ap, subst, sym, ◌∙◌, true, false, Bool-cases, Option, none,
  some, List, [], ◌∷◌, ltb, arith,
}
use mathlib.Core.List.{Memᴰ}
use mathlib.Core.List.Memᴰ
use simulating_the_functioni.Tlb.Optimal.{IntMap, use_at, farthest}

-- A next use is not after another, where no use is after all.
abbrev pub NotAfter : Option ℕ → Option ℕ → Type 0
NotAfter x y = (b : ℕ) → y ≡ some b → (a : ℕ) × (x ≡ some a) × (a ≤ b)

option_cases : (o : Option ℕ) → (o ≡ none) ⊎ ((j : ℕ) × (o ≡ some j))
option_cases none = inl refl
option_cases (some j) = inr (j, refl)

some_injective : {a b : ℕ} → some a ≡ some b → a ≡ b
some_injective e = cc e

module _ (next_use : List (Option ℕ)) (f : ℕ → Option ℕ) where
  -- What the table has for the index of each entry is `f` of its page.
  abbrev pub Agree : IntMap → Type 0
  Agree m = (k v : ℕ) → Memᴰ (k, v) m → use_at next_use v ≡ f k

  -- What the loop finds in the entries, with `index` the farthest so far.
  record Found (m : IntMap) (best : ℕ → Type 0) (o : Option ℕ) : Type 0 where
    victim : ℕ
    found : o ≡ some victim
    from : best victim ⊎ ((v : ℕ) × Memᴰ (victim, v) m)
    last : (k v : ℕ) → Memᴰ (k, v) m → NotAfter (f k) (f victim)
    before : (k : ℕ) → best k → NotAfter (f k) (f victim)

  NotAfter-none : (x : Option ℕ) (k : ℕ) → f k ≡ none → NotAfter x (f k)
  NotAfter-none x k e b eb = absurd (cc e)

  NotAfter-le :
      (k j i : ℕ) (x y : Option ℕ)
      → x ≡ some j
      → y ≡ some i
      → i ≤ j
      → (z : Option ℕ) → NotAfter x z
      → NotAfter y z
  NotAfter-le k j i x y ex ey le z h b eb =
      let (a, ea, small) = h b eb in (i, ey, omega (arith, some_injective (sym ex ∙ ea)))

  -- An entry before the others.
  extend :
      (m : IntMap) (k v : ℕ) (best old : ℕ → Type 0) (o : Option ℕ)
      → (r : Found m old o) → (old r.victim → best r.victim ⊎ (r.victim ≡ k))
      → NotAfter (f k) (f r.victim)
      → ((x : ℕ) → best x → NotAfter (f x) (f r.victim))
      → Found ((k, v) ∷ m) best o
  extend m k v best old o r covers here before = record {
    victim = r.victim;
    found = r.found;
    from = elim r.from [
      | inl h ↦ elim (covers h) [
        | inl b ↦ inl b
        | inr e ↦ inr (v, Memᴰ.head (ap (λ (x : ℕ). (x, v)) e))
      ]
      | inr h ↦ inr (h.0, Memᴰ.tail h.1)
    ];
    last = λ x w mem. elim (Memᴰ.cases_cons mem) [
      | inl e ↦ subst (λ y. NotAfter (f y) (f r.victim)) (sym (ap (λ (q : ℕ × ℕ). q.0) e)) here
      | inr t ↦ r.last x w t
    ];
    before = before;
  }

  ends_here :
      (m : IntMap) (k v : ℕ) (best : ℕ → Type 0) → f k ≡ none → Found ((k, v) ∷ m) best (some k)
  ends_here m k v best e = record {
    victim = k;
    found = refl;
    from = inr (v, Memᴰ.head refl);
    last = λ x w mem. NotAfter-none (f x) k e;
    before = λ x b. NotAfter-none (f x) k e;
  }

  scan_some :
      (m : IntMap) (b i : ℕ)
      → Agree m
      → f b ≡ some i
      → Found m (λ k. k ≡ b) (farthest next_use m (some b) (some i))
  unfolding farthest
  scan_some [] b i agree e = record {
    victim = b;
    found = refl;
    from = inl refl;
    last = λ k v mem. absurd (Memᴰ.not-nil mem);
    before = λ k s c ec. (c, ap f s ∙ ec, omega arith);
  }
  scan_some ((k, v) ∷ m) b i agree e = elim (option_cases (use_at next_use v)) [
    | inl u ↦ rw (farthest, u) (ends_here m k v _ (sym (agree k v (Memᴰ.head refl)) ∙ u))
    | inr (j, u) ↦ elim (Bool-cases (ltb i j)) [
      | inl far ↦ rw (farthest, u, far) (taken j u far (scan_some m k j rest (sym at_k ∙ u)))
      | inr near ↦ rw (farthest, u, near) (skipped j u near (scan_some m b i rest e))
    ]
  ]
    where
      at_k : use_at next_use v ≡ f k
      at_k = agree k v (Memᴰ.head refl)

      rest : Agree m
      rest x w mem = agree x w (Memᴰ.tail mem)

      taken :
          (j : ℕ)
          → use_at next_use v ≡ some j
          → ltb i j ≡ true
          → Found m (λ x. x ≡ k) (farthest next_use m (some k) (some j))
          → Found ((k, v) ∷ m) (λ x. x ≡ b) (farthest next_use m (some k) (some j))
      taken j u far r =
          extend m k v (λ x. x ≡ b) (λ x. x ≡ k) _ r inr (r.before k refl)
            (λ x s.
              NotAfter-le k j i (f k) (f x) (sym at_k ∙ u) (ap f s ∙ e) (ground arith) (f r.victim)
                (r.before k refl))

      skipped :
          (j : ℕ)
          → use_at next_use v ≡ some j
          → ltb i j ≡ false
          → Found m (λ x. x ≡ b) (farthest next_use m (some b) (some i))
          → Found ((k, v) ∷ m) (λ x. x ≡ b) (farthest next_use m (some b) (some i))
      skipped j u near r =
          extend m k v (λ x. x ≡ b) (λ x. x ≡ b) _ r inl
            (NotAfter-le b i j (f b) (f k) e (sym at_k ∙ u) (ground arith) (f r.victim)
              (r.before b refl))
            r.before

  -- Of entries whose indices have in the table the next use of their page, the loop chooses, in
  -- whatever order it meets them, a page that is there and that none of the others is used after.
  pub farthest_lem :
      (m : IntMap)
      → m ≢ []
      → Agree m
      → (victim : ℕ) × (farthest next_use m none none ≡ some victim)
        × ((v : ℕ) × Memᴰ (victim, v) m)
        × ((k v : ℕ) → Memᴰ (k, v) m → NotAfter (f k) (f victim))
  unfolding farthest
  farthest_lem [] ne agree = absurd (ne refl)
  farthest_lem ((k, v) ∷ m) ne agree = (r.victim, r.found, there, r.last)
    where
      at_k : use_at next_use v ≡ f k
      at_k = agree k v (Memᴰ.head refl)

      rest : Agree m
      rest x w mem = agree x w (Memᴰ.tail mem)

      r : Found ((k, v) ∷ m) (λ x. ⊥) (farthest next_use ((k, v) ∷ m) none none)
      r = elim (option_cases (use_at next_use v)) [
        | inl u ↦ rw (farthest, u) (ends_here m k v _ (sym at_k ∙ u))
        | inr (j, u) ↦ rw (farthest, u) (go j (scan_some m k j rest (sym at_k ∙ u)))
      ]
        where
          go :
              (j : ℕ)
              → Found m (λ x. x ≡ k) (farthest next_use m (some k) (some j))
              → Found ((k, v) ∷ m) (λ x. ⊥) (farthest next_use m (some k) (some j))
          go j t = extend m k v (λ x. ⊥) (λ x. x ≡ k) _ t inr (t.before k refl) (λ x h. absurd h)

      there : (w : ℕ) × Memᴰ (r.victim, w) ((k, v) ∷ m)
      there = elim r.from [ inl h ↦ absurd h | inr h ↦ h ]
