-- ===== src/Sched/Sjf/Args.antt =====
-- The words of a command: those of at most nine words have room in `args`.
use Prim.Native.String.{String}
use simulating_the_functioni.Base.{
  ℕ, zero, suc, ◌+◌, ◌≤◌, ◌<◌, ◌≡◌, refl, sym, ◌∙◌, Bool, true, false, not, Bool-cases, inl, inr,
  Option, none, some, [], ◌∷◌, length, ltb, ◌&&◌, if◌then◌else◌, arith,
}
use simulating_the_functioni.Shell.Strings.{Text, skip, span, strtok}
use simulating_the_functioni.Sched.Sjf.{codes, args_size, is_space, store_args, args_fit}

abbrev pub in_word : Text → Bool
in_word [] = false
in_word (c ∷ s) = not (is_space c)

-- How many words a text has: the places where one ends.
abbrev pub words_in : Text → ℕ
words_in [] = 0
words_in (c ∷ s) =
    let rest = words_in s in if is_space c then rest else if in_word s then rest else suc rest

-- A command of at most nine words.
abbrev pub IsShort : String → Type 0
IsShort command = words_in (codes command) < args_size

-- What a call of `strtok` leaves of the words.
abbrev words_left : Option (Text × Text) → ℕ
words_left none = 0
words_left (some (t, rest)) = suc (words_in rest)

words_in-span :
    (c : ℕ) (s : Text) → is_space c ≡ false → words_in (c ∷ s) ≡ suc (words_in (span is_space s).1)
unfolding span
words_in-span c [] h = ground arith
words_in-span c (d ∷ s) h = elim (Bool-cases (is_space d)) [
  | inl space ↦ rw (h, space) refl
  | inr word ↦ rw (h, word) (omega (arith, words_in-span d s word, at_d word))
]
  where
    at_d :
        is_space d ≡ false → words_in (d ∷ s) ≡ (if in_word s then words_in s else suc (words_in s))
    at_d word = rw word refl

words_in-strtok : (s : Text) → words_in s ≡ words_left (strtok is_space s)
unfolding strtok skip
words_in-strtok [] = refl
words_in-strtok (c ∷ s) = elim (Bool-cases (is_space c)) [
  | inl space ↦ rw space (words_in-strtok s)
  | inr word ↦ words_in-span c s word ∙ sym (same_rest word) ∙ token_first word
]
  where
    same_rest :
        is_space c ≡ false
        → suc (words_in (span is_space (c ∷ s)).1) ≡ suc (words_in (span is_space s).1)
    same_rest word = unfold span in rw word refl

    token_first :
        is_space c ≡ false
        → suc (words_in (span is_space (c ∷ s)).1) ≡ words_left (strtok is_space (c ∷ s))
    token_first word = rw word refl

length-span : (s : Text) → length (span is_space s).1 ≤ length s
unfolding span
length-span [] = omega arith
length-span (c ∷ s) = ground (arith, length-span s)

abbrev text_left : Option (Text × Text) → ℕ
text_left none = 0
text_left (some (t, rest)) = suc (length rest)

text_left-le : (s : Text) → text_left (strtok is_space s) ≤ length s
unfolding strtok skip
text_left-le [] = omega arith
text_left-le (c ∷ s) = elim (Bool-cases (is_space c)) [
  | inl space ↦ rw space (omega (arith, text_left-le s))
  | inr word ↦ rw word (shorter word)
]
  where
    shorter : is_space c ≡ false → suc (length (span is_space (c ∷ s)).1) ≤ suc (length s)
    shorter word = unfold span in rw word (omega (arith, length-span s))

store_args_lem :
    (n : ℕ) (s : Text) (i : ℕ) → length s < n → i + words_in s < args_size → store_args n s i ≡ true
unfolding store_args
store_args_lem zero s i long few = absurd (omega arith)
store_args_lem (suc n) s i long few =
    go (strtok is_space s) (words_in-strtok s) (text_left-le s)
      (λ rest. store_args_lem n rest (suc i))
  where
    go :
        (o : Option (Text × Text))
        → words_in s ≡ words_left o
        → text_left o ≤ length s
        → ((rest : Text)
            → length rest < n
            → suc i + words_in rest < args_size
            → store_args n rest (suc i) ≡ true)
        → elim o as (λ _. Bool) [
          | none ↦ ltb i args_size
          | some (token, rest) ↦ ltb i args_size && store_args n rest (suc i)
        ]
          ≡ true
    go none w l later = ground arith
    go (some (t, rest)) w l later = ground (arith, later rest (omega arith) (omega arith))

pub IsShort-args_fit : (command : String) → IsShort command → args_fit command ≡ true
IsShort-args_fit command short =
    store_args_lem (suc (length (codes command))) (codes command) 0 (omega arith) (omega arith)
