-- ===== src/Strings/Splitting.antt =====
-- `strsplit` of source/kernel/libs/string.c: the parts of a string between its delimiters.
use waffle_os.Common.{
  ℕ, ◌+◌, ◌≡◌, ◌∙◌, refl, ap, sym, Bool, true, false, List, [], ◌∷◌, ◌++◌, Option, none, some, ◌==◌,
  if◌then◌else◌, append_assoc, append-nil, ◌>>=◌, arith, Bool-cases, inl, inr,
}
use waffle_os.Strings.Scan.{Lacks}

-- `token_served` and `node_served` say whether the allocations for the i-th token are served. A token
-- whose node is not allocated is left out of the list, without a sign of it.
module _ (token_served node_served : ℕ → Bool) (delimiter : ℕ) where
  unfoldable pub append_token : ℕ → List ℕ → Option (List (List ℕ)) → Option (List (List ℕ))
  append_token i token rest =
      if token_served i
      then (rest >>= λ tokens. some (if node_served i then token ∷ tokens else tokens))
      else none

  -- The loop at `p`, with the characters from `token_start` on and the number of the token.
  unfoldable pub split_loop : ℕ → List ℕ → List ℕ → Option (List (List ℕ))
  unfolding append_token
  split_loop i token [] = append_token i token (some [])
  split_loop i token (c ∷ src) = elim (c == delimiter) [
    | true ↦ append_token i token (split_loop (i + 1) [] src)
    | false ↦ split_loop i (token ++ c ∷ []) src
  ]

-- `list_served` is the allocation of the list; `none` is NULL, also for a source that is NULL.
unfoldable pub strsplit :
    Bool → (ℕ → Bool) → (ℕ → Bool) → Option (List ℕ) → ℕ → Option (List (List ℕ))
unfolding split_loop
strsplit list_served token_served node_served none delimiter = none
strsplit list_served token_served node_served (some src) delimiter =
    if list_served then split_loop token_served node_served delimiter 0 [] src else none

-- The tokens with the delimiter between them.
abbrev pub joined : ℕ → List (List ℕ) → List ℕ
joined delimiter [] = []
joined delimiter (token ∷ []) = token
joined delimiter (token ∷ next ∷ tokens) = token ++ delimiter ∷ joined delimiter (next ∷ tokens)

abbrev pub AllLack : ℕ → List (List ℕ) → Type 0
AllLack delimiter [] = Unit
AllLack delimiter (token ∷ tokens) = Lacks delimiter token × AllLack delimiter tokens

Lacks-snoc :
    (d : ℕ) (token : List ℕ) (c : ℕ) → Lacks d token → (c == d) ≡ false → Lacks d (token ++ c ∷ [])
Lacks-snoc d [] c v e = (e, tt)
Lacks-snoc d (x ∷ xs) c (f, v) e = (f, Lacks-snoc d xs c v e)

module _ (token_served node_served : ℕ → Bool) (delimiter : ℕ)
    (tokens_served : (i : ℕ) → token_served i ≡ true)
    (nodes_served : (i : ℕ) → node_served i ≡ true) where
  append_token-some :
      (i : ℕ) (token : List ℕ) (tokens : List (List ℕ))
      → append_token token_served node_served delimiter i token (some tokens)
        ≡ some (token ∷ tokens)
  unfolding append_token
  append_token-some i token tokens = rw (tokens_served i, nodes_served i) refl

  -- A first token in front of the rest.
  split_loop-joined :
      (i : ℕ) (token src : List ℕ)
      → Lacks delimiter token
      → (first : List ℕ) × (tokens : List (List ℕ)) × (split_loop token_served node_served delimiter
            i token src
          ≡ some (first ∷ tokens))
        × (joined delimiter (first ∷ tokens) ≡ token ++ src)
        × AllLack delimiter (first ∷ tokens)
  unfolding split_loop
  split_loop-joined i token [] lacks =
      (token, [], append_token-some i token [], sym (append-nil token), (lacks, tt))
  split_loop-joined i token (c ∷ src) lacks =
      let choose : Bool → Option (List (List ℕ)) = λ b. elim b [
        | true ↦
            append_token token_served node_served delimiter i token
              (split_loop token_served node_served delimiter (i + 1) [] src)
        | false ↦ split_loop token_served node_served delimiter i (token ++ c ∷ []) src
      ] in
      elim (Bool-cases (c == delimiter)) [
        | inl ends ↦
            let (first, tokens, goes, join, lack) = split_loop-joined (i + 1) [] src tt in
            let same : delimiter ≡ c = ground arith in
            (
              token,
              first ∷ tokens,
              ap choose ends
                  ∙ ap (append_token token_served node_served delimiter i token) goes
                  ∙ append_token-some i token (first ∷ tokens),
              ap (λ l. token ++ delimiter ∷ l) join ∙ ap (λ d. token ++ d ∷ src) same,
              (lacks, lack),
            )
        | inr inside ↦
            let (first, tokens, goes, join, lack) =
              split_loop-joined i (token ++ c ∷ []) src
                (Lacks-snoc delimiter token c lacks inside) in
            (first, tokens, ap choose inside ∙ goes, join ∙ append_assoc token (c ∷ []) src, lack)
      ]

  -- When every allocation is served, strsplit returns the tokens of a string: joined again with the
  -- delimiter between them they are the string, and none of them contains the delimiter.
  pub strsplit-joined :
      (src : List ℕ)
      → (tokens : List (List ℕ)) × (strsplit true token_served node_served (some src) delimiter
          ≡ some tokens)
        × (joined delimiter tokens ≡ src)
        × AllLack delimiter tokens
  unfolding strsplit
  strsplit-joined src =
      let (first, tokens, goes, join, lack) = split_loop-joined 0 [] src tt in
      (first ∷ tokens, goes, join, lack)
