-- ===== src/Base/Ring.antt =====
-- An array read and written round its end, index by index modulo its capacity.
use Prim.Native.Nat.{ℕ, zero, suc, ◌+◌, ◌-◌, ◌%◌, ◌≤◌, ◌<◌}
use mathlib.Core.Path.{◌≡◌, refl, sym, ap, ap₂, ◌∙◌}
use mathlib.Core.Logic.{◌≢◌}
use mathlib.Core.List.{List, [], ◌∷◌, ◌++◌}
use native.Mathlib.Nat.{mod-lt, mod-eq_of_lt, mod-add-mod, mod-eq-sub-mod, mod-mod, add-mod_right}
use native.Mathlib.Decide.{dec_lt}
use native.Mathlib.Omega.{arith}
use simulating_the_functioni.Base.Lists.{length, get_or, set, get_or-set_self, get_or-set_ne}

module _ (cap : ℕ) where
  -- The `n` cells from index `h` on: `array[(h + i) % cap]` for `i` below `n`.
  abbrev pub window : List ℕ → ℕ → ℕ → List ℕ
  window buf h zero = []
  window buf h (suc n) = get_or buf (h % cap) 0 ∷ window buf (suc h) n

  pub length-window : (buf : List ℕ) (h n : ℕ) → length (window buf h n) ≡ n
  length-window buf h zero = refl
  length-window buf h (suc n) = ap suc (length-window buf (suc h) n)

  pub window_of_pos :
      (buf : List ℕ) (h n : ℕ)
      → 0 < n
      → window buf h n ≡ get_or buf (h % cap) 0 ∷ window buf (suc h) (n - 1)
  window_of_pos buf h zero p = absurd (omega arith)
  window_of_pos buf h (suc n) p = ap (λ k. window buf h (suc k)) (omega arith)

  -- Only the residue of the start matters.
  pub window_congr :
      (buf : List ℕ) (g h n : ℕ) → g % cap ≡ h % cap → window buf g n ≡ window buf h n
  window_congr buf g h zero e = refl
  window_congr buf g h (suc n) e =
      ap₂ ◌∷◌ (ap (λ k. get_or buf k 0) e) (window_congr buf (suc g) (suc h) n step)
    where
      shifted : (k : ℕ) → suc k % cap ≡ (k % cap + 1) % cap
      shifted k = rw mod-add-mod (ap (λ m. m % cap) (omega arith))

      step : suc g % cap ≡ suc h % cap
      step = shifted g ∙ (ap (λ m. (m + 1) % cap) e ∙ sym (shifted h))

  pub window-snoc :
      (buf : List ℕ) (h n : ℕ)
      → window buf h (suc n) ≡ window buf h n ++ get_or buf ((h + n) % cap) 0 ∷ []
  window-snoc buf h zero = ap (λ k. get_or buf (k % cap) 0 ∷ []) (omega arith)
  window-snoc buf h (suc n) =
      ap (λ l. get_or buf (h % cap) 0 ∷ l) (window-snoc buf (suc h) n ∙ same)
    where
      same :
          window buf (suc h) n ++ get_or buf ((suc h + n) % cap) 0 ∷ []
          ≡ window buf (suc h) n ++ get_or buf ((h + suc n) % cap) 0 ∷ []
      same = ap (λ k. window buf (suc h) n ++ get_or buf (k % cap) 0 ∷ []) (omega arith)

  -- Two places less than a whole round apart are different cells.
  pub mod_ne : (h d : ℕ) → 0 < d → d < cap → h % cap ≢ (h + d) % cap
  mod_ne h d pos small = rw (← mod-add-mod h cap d) (apart (h % cap) (mod-lt h (omega arith)))
    where
      apart : (g : ℕ) → g < cap → g ≢ (g + d) % cap
      apart g lt = elim (dec_lt (g + d) cap) [
        | yes p ↦ omega (arith, mod-eq_of_lt p)
        | no p ↦ omega (
          arith,
          mod-eq-sub-mod {n = g + d} {m = cap} (omega arith),
          mod-eq_of_lt {n = g + d - cap} {m = cap} (omega arith),
        )
      ]

  -- A write into a cell outside the window leaves it as it was.
  pub window-set_ne :
      (buf : List ℕ) (h n i x : ℕ)
      → ((k : ℕ) → k < n → i ≢ (h + k) % cap)
      → window (set buf i x) h n ≡ window buf h n
  window-set_ne buf h zero i x out = refl
  window-set_ne buf h (suc n) i x out =
      ap₂ ◌∷◌ (get_or-set_ne buf i (h % cap) x 0 (rw (← here) (out 0 (omega arith))))
        (window-set_ne buf (suc h) n i x (λ k lt. rw (next k) (out (suc k) (omega arith))))
    where
      here : (h + 0) % cap ≡ h % cap
      here = ap (λ k. k % cap) (omega arith)

      next : (k : ℕ) → (suc h + k) % cap ≡ (h + suc k) % cap
      next k = ap (λ m. m % cap) (omega arith)

  -- A write just past a window that is not full appends to it.
  pub window-set :
      (buf : List ℕ) (h n x : ℕ)
      → n < cap
      → cap ≤ length buf
      → window (set buf ((h + n) % cap) x) h (suc n) ≡ window buf h n ++ x ∷ []
  window-set buf h n x room fits =
      window-snoc (set buf tail x) h n
      ∙ ap₂ (λ xs y. xs ++ y ∷ []) (window-set_ne buf h n tail x (λ k lt. away k lt))
          (get_or-set_self buf tail x 0 (omega (arith, mod-lt (h + n) {m = cap} (omega arith))))
    where
      tail : ℕ
      tail = (h + n) % cap

      away : (k : ℕ) → k < n → tail ≢ (h + k) % cap
      away k lt e = mod_ne (h + k) (n - k) (omega arith) (omega arith) (sym e ∙ sum)
        where
          sum : (h + n) % cap ≡ (h + k + (n - k)) % cap
          sum = ap (λ m. m % cap) (omega arith)

  -- A read at the start of a window takes its first cell off.
  pub window-pop :
      (buf : List ℕ) (h n : ℕ)
      → h < cap
      → 0 < n
      → window buf h n ≡ get_or buf h 0 ∷ window buf ((h + 1) % cap) (n - 1)
  window-pop buf h n lt pos =
      window_of_pos buf h n pos
      ∙ ap₂ (λ i xs. get_or buf i 0 ∷ xs) (mod-eq_of_lt lt)
          (window_congr buf (suc h) ((h + 1) % cap) (n - 1) round)
    where
      round : suc h % cap ≡ (h + 1) % cap % cap
      round = ap (λ k. k % cap) (omega arith) ∙ sym (mod-mod (h + 1) cap)

  -- A read at the end of a window takes its last cell off.
  pub window-pop_back :
      (buf : List ℕ) (h n : ℕ)
      → 0 < cap
      → 0 < n
      → window buf h n ≡ window buf h (n - 1) ++ get_or buf ((h + n + (cap - 1)) % cap) 0 ∷ []
  window-pop_back buf h n some_room pos =
      ap (window buf h) {y = suc (n - 1)} (omega arith)
      ∙ window-snoc buf h (n - 1)
      ∙ ap (λ i. window buf h (n - 1) ++ get_or buf i 0 ∷ []) last
    where
      last : (h + (n - 1)) % cap ≡ (h + n + (cap - 1)) % cap
      last =
          sym (add-mod_right (h + (n - 1)) cap)
          ∙ ap (λ k. k % cap) {y = h + n + (cap - 1)} (omega arith)
