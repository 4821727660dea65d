-- ===== src/Tlb/Optimal/Entries.antt =====
-- The entries of the map of `Optimal`: its keys, and what putting and erasing do to them.
use mathlib.Core.List.{Memᴰ}
use mathlib.Core.List.Memᴰ
use simulating_the_functioni.Base.{
  ℕ, suc, ◌<◌, ◌≡◌, ◌≢◌, inl, inr, refl, ap, subst, sym, ◌∙◌, Bool, true, false, Bool-cases, Option,
  none, some, List, [], ◌∷◌, ◌++◌, ◌==◌, ==_iff, if◌then◌else◌, length, arith, ℕ_discrete,
}
use simulating_the_functioni.Base.Keys.{contains, erase}
use simulating_the_functioni.Tlb.Optimal.{IntMap, lookup, update, put, or_append, erase_key, use_at}
use simulating_the_functioni.Tlb.Optimal.Farthest.{Agree}

abbrev pub keys : IntMap → List ℕ
keys [] = []
keys ((k, v) ∷ m) = k ∷ keys m

pub keys-update : (k v : ℕ) (m : IntMap) → keys (update k v m) ≡ keys m
unfolding update
keys-update k v [] = refl
keys-update k v ((j, w) ∷ m) = ap (λ l. j ∷ l) (keys-update k v m)

pub keys-append : (m : IntMap) (k v : ℕ) → keys (m ++ (k, v) ∷ []) ≡ keys m ++ k ∷ []
keys-append [] k v = refl
keys-append ((j, w) ∷ m) k v = ap (λ l. j ∷ l) (keys-append m k v)

pub keys-erase : (k : ℕ) (m : IntMap) → keys (erase_key k m) ≡ erase k (keys m)
unfolding erase_key erase
keys-erase k [] = refl
keys-erase k ((j, w) ∷ m) = ground (arith, keys-erase k m)

pub length-keys : (m : IntMap) → length (keys m) ≡ length m
length-keys [] = refl
length-keys ((j, w) ∷ m) = ap suc (length-keys m)

pub lookup-none : (k : ℕ) (m : IntMap) → lookup k m ≡ none → contains k (keys m) ≡ false
unfolding lookup contains
lookup-none k [] e = refl
lookup-none k ((j, w) ∷ m) e = ground (arith, lookup-none k m)

pub lookup-some : (k w : ℕ) (m : IntMap) → lookup k m ≡ some w → contains k (keys m) ≡ true
unfolding lookup contains
lookup-some k w [] e = absurd (cc e)
lookup-some k w ((j, u) ∷ m) e = ground (arith, lookup-some k w m)

pub mem_contains : (k v : ℕ) (m : IntMap) → Memᴰ (k, v) m → contains k (keys m) ≡ true
unfolding contains
mem_contains k v [] mem = absurd (Memᴰ.not-nil mem)
mem_contains k v ((j, w) ∷ m) mem = elim (Memᴰ.cases_cons mem) [
  | inl e ↦ ground (arith, ==_iff k j, ap (λ (q : ℕ × ℕ). q.0) e)
  | inr t ↦ ground (arith, mem_contains k v m t)
]

pub contains_mem : (k : ℕ) (m : IntMap) → contains k (keys m) ≡ true → (v : ℕ) × Memᴰ (k, v) m
unfolding contains
contains_mem k [] h = absurd (cc h)
contains_mem k ((j, w) ∷ m) h = elim (ℕ_discrete k j) [
  | yes e ↦ (w, Memᴰ.head (ap (λ (x : ℕ). (x, w)) e))
  | no ne ↦ let (v, mem) = contains_mem k m (ground (arith, ==_iff k j)) in (v, Memᴰ.tail mem)
]

pub erase_mem : (k : ℕ) (e : ℕ × ℕ) (m : IntMap) → Memᴰ e (erase_key k m) → Memᴰ e m
unfolding erase_key
erase_mem k e [] mem = mem
erase_mem k e ((j, w) ∷ m) mem = elim (Bool-cases (k == j)) [
  | inl same ↦ Memᴰ.tail (
      erase_mem k e m (
        subst (λ (b : Bool). Memᴰ e (if b then erase_key k m else (j, w) ∷ erase_key k m)) same
          mem))
  | inr other ↦
      elim (Memᴰ.cases_cons (
        subst (λ (b : Bool). Memᴰ e (if b then erase_key k m else (j, w) ∷ erase_key k m)) other
          mem)) [ inl h ↦ Memᴰ.head h | inr t ↦ Memᴰ.tail (erase_mem k e m t) ]
]

pub put-some : (k v w : ℕ) (m : IntMap) → lookup k m ≡ some w → put k v m ≡ update k v m
unfolding put
put-some k v w m e = ap (or_append k v m) e

pub put-absent : (k v : ℕ) (m : IntMap) → contains k (keys m) ≡ false → put k v m ≡ m ++ (k, v) ∷ []
unfolding put
put-absent k v m absent = go (lookup k m) refl
  where
    go : (o : Option ℕ) → lookup k m ≡ o → put k v m ≡ m ++ (k, v) ∷ []
    go none e = ap (or_append k v m) e
    go (some w) e = absurd (cc (sym absent ∙ lookup-some k w m e))

pub some_entry : (m : IntMap) → 0 < length m → (e : ℕ × ℕ) × Memᴰ e m
some_entry [] h = absurd (omega arith)
some_entry (e ∷ m) h = (e, Memᴰ.head refl)

module _ (next_use : List (Option ℕ)) (f g : ℕ → Option ℕ) (page i : ℕ)
    (same : (q : ℕ) → q ≢ page → f q ≡ g q) (here : use_at next_use i ≡ g page) where
  pub update-Agree : (m : IntMap) → Agree next_use f m → Agree next_use g (update page i m)
  unfolding update
  update-Agree [] a q v mem = absurd (Memᴰ.not-nil mem)
  update-Agree ((j, w) ∷ m) a q v mem = elim (Memᴰ.cases_cons mem) [
    | inl e ↦ at_head e
    | inr t ↦ update-Agree m (λ q v t. a q v (Memᴰ.tail t)) q v t
  ]
    where
      differ : j ≢ page → (page == j) ≡ false
      differ ne = ground (arith, ==_iff page j)

      at_head : ◌≡◌ {A = ℕ × ℕ} (q, v) (j, if page == j then i else w) → use_at next_use v ≡ g q
      at_head e = elim (ℕ_discrete j page) [
        | yes s ↦
            ap (use_at next_use) (
              ap (λ (x : ℕ × ℕ). x.1) e
              ∙ ap (λ (b : Bool). if b then i else w) ((==_iff page j).1 (sym s)))
            ∙ here
            ∙ ap g (sym (ap (λ (x : ℕ × ℕ). x.0) e ∙ s))
        | no ne ↦
            ap (use_at next_use)
              (ap (λ (x : ℕ × ℕ). x.1) e ∙ ap (λ (b : Bool). if b then i else w) (differ ne))
            ∙ a j w (Memᴰ.head refl)
            ∙ same j ne
            ∙ ap g (sym (ap (λ (x : ℕ × ℕ). x.0) e))
      ]

  pub append-Agree :
      (m : IntMap)
      → contains page (keys m) ≡ false
      → Agree next_use f m
      → Agree next_use g (m ++ (page, i) ∷ [])
  unfolding contains
  append-Agree [] absent a q v mem = elim (Memᴰ.cases_cons mem) [
    | inl e ↦
        ap (use_at next_use) (ap (λ (x : ℕ × ℕ). x.1) e)
        ∙ here
        ∙ ap g (sym (ap (λ (x : ℕ × ℕ). x.0) e))
    | inr t ↦ absurd (Memᴰ.not-nil t)
  ]
  append-Agree ((j, w) ∷ m) absent a q v mem = elim (Memᴰ.cases_cons mem) [
    | inl e ↦
        ap (use_at next_use) (ap (λ (x : ℕ × ℕ). x.1) e)
        ∙ a j w (Memᴰ.head refl)
        ∙ same j (ground (arith, ==_iff page j))
        ∙ ap g (sym (ap (λ (x : ℕ × ℕ). x.0) e))
    | inr t ↦ append-Agree m (ground arith) (λ q v t. a q v (Memᴰ.tail t)) q v t
  ]
