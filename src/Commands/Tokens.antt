-- ===== src/Commands/Tokens.antt =====
-- The tokens of a line (source/kernel/core/cmd_executor.c) are its words.
use waffle_os.Common.{
  ℕ, zero, suc, ◌<◌, ◌≡◌, ◌≢◌, refl, false, List, [], ◌∷◌, ◌++◌, ◌==◌, take, replicate, arith, ap,
  sym, ◌∙◌, ◌⊎◌, inl, inr,
}
use waffle_os.Commands.{skip_spaces, first_word, past_word, tokenize}

abbrev pub NoSpace : List ℕ → Type 0
NoSpace [] = Unit
NoSpace (c ∷ s) = (c ≢ b' ') × NoSpace s

abbrev pub IsWord : List ℕ → Type 0
IsWord [] = ⊥
IsWord (c ∷ s) = NoSpace (c ∷ s)

-- A line: each word with the number of spaces before it, and the spaces at the end.
abbrev pub line_text : List (ℕ × List ℕ) → ℕ → List ℕ
line_text [] trailing = replicate trailing b' '
line_text ((spaces, word) ∷ words) trailing =
    replicate spaces b' ' ++ (word ++ line_text words trailing)

abbrev pub words_of : List (ℕ × List ℕ) → List (List ℕ)
words_of [] = []
words_of ((spaces, word) ∷ words) = word ∷ words_of words

abbrev pub HasGap : List (ℕ × List ℕ) → Type 0
HasGap [] = Unit
HasGap ((spaces, word) ∷ words) = 0 < spaces

-- Words between spaces.
abbrev pub IsLine : List (ℕ × List ℕ) → Type 0
IsLine [] = Unit
IsLine ((spaces, word) ∷ words) = IsWord word × (HasGap words × IsLine words)

-- A round of the loop behind the spaces.
found : ℕ → List ℕ → List (List ℕ)
found left [] = []
found left (d ∷ rest) = first_word (d ∷ rest) ∷ tokenize left (past_word (d ∷ rest))

tokenize-found : (left : ℕ) (t : List ℕ) → tokenize (suc left) t ≡ found left (skip_spaces t)
unfolding tokenize found skip_spaces
tokenize-found left [] = refl
tokenize-found left (c ∷ t) = elim (skip_spaces (c ∷ t)) [ [] ↦ refl | d ∷ rest ↦ refl ]

skip_spaces-replicate : (n : ℕ) (t : List ℕ) → skip_spaces (replicate n b' ' ++ t) ≡ skip_spaces t
unfolding skip_spaces
skip_spaces-replicate zero t = refl
skip_spaces-replicate (suc n) t = skip_spaces-replicate n t

skip_spaces_blank : (n : ℕ) → skip_spaces (replicate n b' ') ≡ []
unfolding skip_spaces
skip_spaces_blank zero = refl
skip_spaces_blank (suc n) = skip_spaces_blank n

tokenize-replicate :
    (left n : ℕ) (t : List ℕ) → tokenize left (replicate n b' ' ++ t) ≡ tokenize left t
unfolding tokenize
tokenize-replicate zero n t = refl
tokenize-replicate (suc left) n t =
    tokenize-found left (replicate n b' ' ++ t)
    ∙ ap (found left) (skip_spaces-replicate n t)
    ∙ sym (tokenize-found left t)

-- What follows a word: nothing, or a space.
abbrev Ends : List ℕ → Type 0
Ends t = (t ≡ []) ⊎ ((t' : List ℕ) × (t ≡ b' ' ∷ t'))

line_text-Ends :
    (words : List (ℕ × List ℕ)) (trailing : ℕ) → HasGap words → Ends (line_text words trailing)
line_text-Ends [] zero gap = inl refl
line_text-Ends [] (suc trailing) gap = inr (replicate trailing b' ', refl)
line_text-Ends ((zero, word) ∷ words) trailing gap = absurd (omega arith)
line_text-Ends ((suc n, word) ∷ words) trailing gap =
    inr (replicate n b' ' ++ (word ++ line_text words trailing), refl)

first_word-append : (word t : List ℕ) → NoSpace word → Ends t → first_word (word ++ t) ≡ word
unfolding first_word
first_word-append [] t p (inl e) = rw e refl
first_word-append [] t p (inr (t', e)) = rw e refl
first_word-append (c ∷ word) t p e = ground (arith, first_word-append word t p.1 e)

past_word-append :
    (left : ℕ) (word t : List ℕ)
    → NoSpace word
    → Ends t
    → tokenize left (past_word (word ++ t)) ≡ tokenize left t
unfolding past_word
past_word-append left [] t p (inl e) = rw e refl
past_word-append left [] t p (inr (t', e)) = rw e (sym (tokenize-replicate left 1 t'))
past_word-append left (c ∷ word) t p e =
    let other : (c == b' ') ≡ false = ground arith in rw other (past_word-append left word t p.1 e)

skip_spaces-word : (c : ℕ) (s t : List ℕ) → c ≢ b' ' → skip_spaces (c ∷ s ++ t) ≡ c ∷ s ++ t
unfolding skip_spaces
skip_spaces-word c s t p = ground arith

tokenize-word :
    (left : ℕ) (word t : List ℕ)
    → IsWord word
    → Ends t
    → tokenize (suc left) (word ++ t) ≡ word ∷ tokenize left t
unfolding found
tokenize-word left [] t p e = absurd p
tokenize-word left (c ∷ s) t p e =
    tokenize-found left (c ∷ s ++ t)
    ∙ ap (found left) (skip_spaces-word c s t p.0)
    ∙ rw (first_word-append (c ∷ s) t p e, past_word-append left (c ∷ s) t p e) refl

-- Of a line of words with spaces between them, and any spaces in front and behind, `tokenize` gives
-- the words in order, up to the greatest number of tokens.
pub tokenize-words_of :
    (left : ℕ) (words : List (ℕ × List ℕ)) (trailing : ℕ)
    → IsLine words
    → tokenize left (line_text words trailing) ≡ take left (words_of words)
unfolding tokenize found
tokenize-words_of zero words trailing p = refl
tokenize-words_of (suc left) [] trailing p =
    tokenize-found left (replicate trailing b' ') ∙ ap (found left) (skip_spaces_blank trailing)
tokenize-words_of (suc left) ((n, word) ∷ words) trailing (w, (gap, rest)) =
    tokenize-replicate (suc left) n (word ++ line_text words trailing)
    ∙ tokenize-word left word (line_text words trailing) w (line_text-Ends words trailing gap)
    ∙ ap (λ ts. word ∷ ts) (tokenize-words_of left words trailing rest)
