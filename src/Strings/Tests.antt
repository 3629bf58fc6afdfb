-- ===== src/Strings/Tests.antt =====
-- The string routines on small inputs.
use waffle_os.Common.{ℕ, ◌≡◌, refl, Bool, true, List, [], ◌∷◌, some, arith, pos}
use waffle_os.Strings.{int_to_str, strcmp}
use waffle_os.Strings.Decimal.{int_to_str-signed_chars}
use waffle_os.Strings.Splitting.{strsplit, joined, AllLack, strsplit-joined}
use waffle_os.Stdio.Format.{signed_chars}

abbrev ab : List ℕ
ab = b'a' ∷ b'b' ∷ []

-- A proper prefix comes first.
strcmp_prefix : strcmp ab (b'a' ∷ []) ≡ pos 98
unfolding strcmp
strcmp_prefix = refl

-- -42
int_to_str-signed_chars_example : int_to_str 4294967254 ≡ some (signed_chars 32 4294967254 10)
int_to_str-signed_chars_example =
    int_to_str-signed_chars 4294967254 (omega arith) (λ e. absurd (omega arith))

int_to_str_runs : int_to_str 4294967254 ≡ some (b'-' ∷ b'4' ∷ b'2' ∷ [])
unfolding int_to_str
int_to_str_runs = refl

abbrev always : ℕ → Bool
always i = true

split_empty_parts :
    strsplit true always always (some (b'a' ∷ b',' ∷ b',' ∷ [])) b','
    ≡ some ((b'a' ∷ []) ∷ [] ∷ [] ∷ [])
unfolding strsplit
split_empty_parts = refl

strsplit-joined_example :
    (tokens : List (List ℕ)) × (strsplit true always always (some (b'a' ∷ b',' ∷ b'b' ∷ [])) b','
      ≡ some tokens)
    × (joined b',' tokens ≡ b'a' ∷ b',' ∷ b'b' ∷ [])
    × AllLack b',' tokens
strsplit-joined_example =
    strsplit-joined always always b',' (λ i. refl) (λ i. refl) (b'a' ∷ b',' ∷ b'b' ∷ [])
