-- ===== src/Shell/Tokens.antt =====
-- `split_command` against an independent description of the tokens of a line.
use simulating_the_functioni.Base.{
  ℕ, zero, suc, ◌+◌, ◌≤◌, ◌<◌, ◌≡◌, refl, sym, ap, ◌∙◌, Bool, true, false, Bool-cases, inl, inr,
  not, Option, none, some, List, [], ◌∷◌, ◌++◌, append_assoc, append-nil, length, if◌then◌else◌,
  arith,
}
use simulating_the_functioni.Shell.{
  is_blank, count_tokens, store_tokens, Allocations, exits, words, split_command,
}
use simulating_the_functioni.Shell.Strings.{Text, skip, span, strtok}

-- Whether a text begins within a word.
abbrev pub in_word : Text → Bool
in_word [] = false
in_word (c ∷ s) = not (is_blank c)

-- A byte in front of the first word.
abbrev pub glue : ℕ → List Text → List Text
glue c [] = (c ∷ []) ∷ []
glue c (t ∷ ts) = (c ∷ t) ∷ ts

-- The words of a text, from its end: the longest runs of bytes that are not blank.
unfoldable pub tokens : Text → List Text
tokens [] = []
tokens (c ∷ s) =
    let rest = tokens s in
    if is_blank c then rest else if in_word s then glue c rest else (c ∷ []) ∷ rest

-- What a call of `strtok` leaves of the tokens.
abbrev cut_off : Option (Text × Text) → List Text
cut_off none = []
cut_off (some (t, rest)) = t ∷ tokens rest

tokens-span :
    (c : ℕ) (s : Text)
    → is_blank c ≡ false
    → tokens (c ∷ s) ≡ (c ∷ (span is_blank s).0) ∷ tokens (span is_blank s).1
unfolding tokens span
tokens-span c [] h = rw h refl
tokens-span c (d ∷ s) h = elim (Bool-cases (is_blank d)) [
  | inl blank ↦ rw (h, blank) refl
  | inr word ↦ rw (h, word) (ap (glue c) (sym (at_d word) ∙ tokens-span d s word))
]
  where
    at_d :
        is_blank d ≡ false
        → tokens (d ∷ s) ≡ (if in_word s then glue d (tokens s) else (d ∷ []) ∷ tokens s)
    at_d word = rw word refl

tokens-strtok : (s : Text) → tokens s ≡ cut_off (strtok is_blank s)
unfolding strtok skip
tokens-strtok [] = unfold tokens in refl
tokens-strtok (c ∷ s) = elim (Bool-cases (is_blank c)) [
  | inl blank ↦ rw blank (skip_blank blank ∙ tokens-strtok s)
  | inr word ↦ rw word (tokens-span c s word ∙ sym (at_c word))
]
  where
    skip_blank : is_blank c ≡ true → tokens (c ∷ s) ≡ tokens s
    skip_blank blank = unfold tokens in rw blank refl

    at_c :
        is_blank c ≡ false
        → (span is_blank (c ∷ s)).0 ∷ tokens (span is_blank (c ∷ s)).1
          ≡ (c ∷ (span is_blank s).0) ∷ tokens (span is_blank s).1
    at_c word = unfold span in rw word refl

-- A token leaves less of the text.
left_over : Option (Text × Text) → ℕ
left_over none = 0
left_over (some (t, rest)) = suc (length rest)

length-span : (s : Text) → length (span is_blank s).1 ≤ length s
unfolding span
length-span [] = omega arith
length-span (c ∷ s) = ground (arith, length-span s)

left_over-le : (s : Text) → left_over (strtok is_blank s) ≤ length s
unfolding left_over strtok skip
left_over-le [] = omega arith
left_over-le (c ∷ s) = elim (Bool-cases (is_blank c)) [
  | inl blank ↦ rw blank (omega (arith, left_over-le s))
  | inr word ↦ rw word (shorter word)
]
  where
    shorter : is_blank c ≡ false → suc (length (span is_blank (c ∷ s)).1) ≤ suc (length s)
    shorter word = unfold span in rw word (omega (arith, length-span s))

-- The loops get to the end of the text.
module _ (s : Text) where
  none_left : strtok is_blank s ≡ none → tokens s ≡ []
  none_left e = tokens-strtok s ∙ ap cut_off e

  one_less :
      (t rest : Text)
      → strtok is_blank s ≡ some (t, rest)
      → (tokens s ≡ t ∷ tokens rest) × (length rest < length s)
  unfolding left_over
  one_less t rest e =
      (tokens-strtok s ∙ ap cut_off e, omega (arith, left_over-le s, ap left_over e))

count_tokens_lem :
    (n : ℕ) (s : Text) (k : ℕ) → length s < n → count_tokens n s k ≡ k + length (tokens s)
unfolding count_tokens
count_tokens_lem zero s k lt = absurd (omega arith)
count_tokens_lem (suc n) s k lt =
    go (strtok is_blank s) refl (λ rest. count_tokens_lem n rest (suc k))
  where
    go :
        (o : Option (Text × Text))
        → strtok is_blank s ≡ o
        → ((rest : Text)
            → length rest < n
            → count_tokens n rest (suc k) ≡ suc k + length (tokens rest))
        → elim o [ none ↦ k | some (token, rest) ↦ count_tokens n rest (suc k) ]
          ≡ k + length (tokens s)
    go none e ih = omega (arith, ap length (none_left s e))
    go (some (t, rest)) e ih =
        let (same, shorter) = one_less s t rest e in
        omega (arith, ih rest (omega arith), ap length same)

store_tokens_lem :
    (n : ℕ) (ok : ℕ → Bool) (places : ℕ) (s : Text) (stored : List Text)
    → ((i : ℕ) → ok i ≡ true)
    → length s < n
    → store_tokens n ok places s stored ≡ words (stored ++ tokens s) places
unfolding store_tokens
store_tokens_lem zero ok places s stored good lt = absurd (omega arith)
store_tokens_lem (suc n) ok places s stored good lt =
    go (strtok is_blank s) refl
      (λ t rest. store_tokens_lem n ok places rest (stored ++ t ∷ []) good)
  where
    go :
        (o : Option (Text × Text))
        → strtok is_blank s ≡ o
        → ((t rest : Text)
            → length rest < n
            → store_tokens n ok places rest (stored ++ t ∷ [])
              ≡ words ((stored ++ t ∷ []) ++ tokens rest) places)
        → elim o [
          | none ↦ words stored places
          | some (token, rest) ↦ elim (ok (length stored)) [
            | true ↦ store_tokens n ok places rest (stored ++ token ∷ [])
            | false ↦ exits
          ]
        ]
          ≡ words (stored ++ tokens s) places
    go none e ih =
        ap (λ ts. words ts places)
          (sym (append-nil stored) ∙ ap (λ ts. stored ++ ts) (sym (none_left s e)))
    go (some (t, rest)) e ih =
        let (same, shorter) = one_less s t rest e in
        rw (good (length stored)) (
          ih t rest (omega arith)
          ∙ ap (λ ts. words ts places)
              (append_assoc stored (t ∷ []) (tokens rest) ∙ ap (λ ts. stored ++ ts) (sym same)))

-- All of its allocations succeed.
pub record Succeeds (a : Allocations) : Type 0 where
  pub first_copy : a.first_copy ≡ true
  pub array : a.array ≡ true
  pub second_copy : a.second_copy ≡ true
  pub token : (i : ℕ) → a.token i ≡ true

-- When its allocations succeed, `split_command` gives the longest runs of bytes other than blanks,
-- tabs and newlines, in order, in an array with one place more than there are of them.
pub split_command_lem :
    (a : Allocations) (s : Text)
    → Succeeds a
    → split_command a s ≡ words (tokens s) (suc (length (tokens s)))
unfolding split_command
split_command_lem a s good =
    rw (good.first_copy, good.array, good.second_copy)
      (store_tokens_lem (suc (length s)) a.token _ s [] good.token (omega arith)
        ∙ ap (λ n. words (tokens s) (suc n))
            (count_tokens_lem (suc (length s)) s 0 (omega arith) ∙ omega arith))

-- A text with no blank in it.
abbrev pub AllWord : Text → Type 0
AllWord [] = Unit {0}
AllWord (c ∷ s) = (is_blank c ≡ false) × AllWord s

abbrev pub IsWord : Text → Type 0
IsWord [] = ⊥
IsWord (c ∷ s) = AllWord (c ∷ s)

-- Words, each with the byte behind it.
abbrev pub line_of : List (Text × ℕ) → Text
line_of [] = []
line_of ((w, blank) ∷ parts) = w ++ blank ∷ line_of parts

abbrev pub words_of : List (Text × ℕ) → List Text
words_of [] = []
words_of ((w, blank) ∷ parts) = w ∷ words_of parts

abbrev pub AllSeparated : List (Text × ℕ) → Type 0
AllSeparated [] = Unit {0}
AllSeparated ((w, blank) ∷ parts) = IsWord w × (is_blank blank ≡ true) × AllSeparated parts

tokens-word :
    (w : Text) (blank : ℕ) (s : Text)
    → IsWord w
    → is_blank blank ≡ true
    → tokens (w ++ blank ∷ s) ≡ w ∷ tokens s
unfolding tokens
tokens-word [] blank s h b = absurd h
tokens-word (c ∷ []) blank s h b = rw (h.0, b) refl
tokens-word (c ∷ d ∷ w) blank s h b =
    rw (h.0) (rw (h.1.0) (ap (glue c) (in_tail ∙ tokens-word (d ∷ w) blank s h.1 b)))
  where
    in_tail :
        (if in_word (w ++ blank ∷ s)
          then glue d (tokens (w ++ blank ∷ s))
          else (d ∷ []) ∷ tokens (w ++ blank ∷ s))
        ≡ tokens (d ∷ w ++ blank ∷ s)
    in_tail = rw (h.1.0) refl

-- Words that are written in a line, each with a blank, a tab or a newline behind it,
-- be it the same one or not, are what `split_command` gives when its allocations succeed.
pub line_of-split_command :
    (a : Allocations) (parts : List (Text × ℕ))
    → Succeeds a
    → AllSeparated parts
    → split_command a (line_of parts) ≡ words (words_of parts) (suc (length (words_of parts)))
line_of-split_command a parts good h =
    split_command_lem a (line_of parts) good ∙ ap (λ ts. words ts (suc (length ts))) (back parts h)
  where
    back : (ps : List (Text × ℕ)) → AllSeparated ps → tokens (line_of ps) ≡ words_of ps
    back [] h = unfold tokens in refl
    back ((v, blank) ∷ ps) h =
        tokens-word v blank (line_of ps) h.0 h.1 ∙ ap (λ ts. v ∷ ts) (back ps h.2)
