-- ===== src/Uri/Authority.antt =====
-- Two ways in which the authority is misread (source/kernel/utils/httpClient/uriparser.c).
use waffle_os.Common.{
  ℕ, ◌-◌, ◌≤◌, ◌<◌, ◌≡◌, refl, true, false, List, [], ◌∷◌, ◌++◌, none, some, length, take, arith,
  length-append, lt→ltb, ap, ◌∙◌,
}
use waffle_os.Strings.{strchr, strpbrk}
use waffle_os.Strings.Scan.{Lacks, LacksAll, strchr-append, strchr-none, strpbrk-none}
use waffle_os.Uri.{
  Uri, max_scheme_length, max_host_length, uri_init, is_scheme_char, scheme_end, scheme_at,
  parse_scheme, done, overflow, host_from, authority_from, after_authority, uri_parse, between,
}

abbrev pub AllScheme : List ℕ → Type 0
AllScheme [] = Unit
AllScheme (c ∷ s) = (is_scheme_char c ≡ true) × AllScheme s

take-append : (a b : List ℕ) → take (length a) (a ++ b) ≡ a
take-append [] b = refl
take-append (c ∷ a) b = ap (λ t. c ∷ t) (take-append a b)

pub between-append : (a b : List ℕ) → between (a ++ b) b ≡ a
between-append a b =
    let n : length (a ++ b) - length b ≡ length a = omega (arith, length-append a b) in
    rw n (take-append a b)

scheme_end-append :
    (scheme : List ℕ) (c : ℕ) (rest : List ℕ)
    → AllScheme scheme
    → is_scheme_char c ≡ false
    → scheme_end (scheme ++ c ∷ rest) ≡ c ∷ rest
unfolding scheme_end
scheme_end-append [] c rest h k = ground arith
scheme_end-append (d ∷ scheme) c rest h k = ground (arith, scheme_end-append scheme c rest h.1)

colon_no_scheme : is_scheme_char b':' ≡ false
unfolding is_scheme_char
colon_no_scheme = refl

-- A scheme of fewer than 32 scheme characters and a colon are taken off.
pub parse_scheme-append :
    (scheme rest : List ℕ)
    → AllScheme scheme
    → length scheme < max_scheme_length
    → parse_scheme (scheme ++ b':' ∷ rest) ≡ some (rest, scheme)
unfolding parse_scheme
parse_scheme-append scheme rest h k =
    rw
      (
        scheme_end-append scheme b':' rest h colon_no_scheme,
        scheme_at,
        between-append scheme (b':' ∷ rest),
      )
      (ground arith)

-- After the scheme and the slashes the authority decides.
pub uri_parse-append :
    (scheme start : List ℕ)
    → AllScheme scheme
    → length scheme < max_scheme_length
    → uri_parse (scheme ++ b':' ∷ b'/' ∷ b'/' ∷ start)
      ≡ after_authority (authority_from (record uri_init { scheme = scheme }) start)
unfolding uri_parse
uri_parse-append scheme start h k =
    rw (parse_scheme-append scheme (b'/' ∷ b'/' ∷ start) h k, uri_parse) refl

nothing_left :
    (scheme host : List ℕ)
    → after_authority (done ([], record uri_init { scheme = scheme; host = host }))
      ≡ done (
        true,
        record {
          scheme = scheme;
          user_info = [];
          host = host;
          port = [];
          path = [];
          query = [];
          fragment = [];
        },
      )
unfolding after_authority uri_init strpbrk
nothing_left scheme host = refl

-- The delimiters that end a host.
abbrev pub host_set : List ℕ
host_set = b':' ∷ b'/' ∷ []

pub authority_no_user :
    (u : Uri) (start : List ℕ)
    → strchr start b'@' ≡ none
    → authority_from u start ≡ host_from u start (strpbrk start host_set)
unfolding authority_from
authority_no_user u start e = rw (e, authority_from) refl

authority_no_end :
    (u : Uri) (start after : List ℕ) (c : ℕ)
    → strchr start b'@' ≡ some (c ∷ after)
    → strpbrk after host_set ≡ none
    → authority_from u start ≡ host_from u start none
unfolding authority_from
authority_no_end u start after c e k = rw (e, authority_from, k) refl

-- A host that nothing delimits and that does not fit its array is copied past the end of it: for
-- every scheme that is accepted and every text of 256 characters or more after the slashes that
-- has no `@`, `:` or `/`, `uri_parse` overflows the host.
uri_parse-overflow :
    (scheme host : List ℕ)
    → AllScheme scheme
    → length scheme < max_scheme_length
    → Lacks b'@' host
    → LacksAll host_set host
    → max_host_length ≤ length host
    → uri_parse (scheme ++ b':' ∷ b'/' ∷ b'/' ∷ host) ≡ overflow
unfolding host_from after_authority
uri_parse-overflow scheme host h k at delims long =
    uri_parse-append scheme host h k
    ∙ rw
        (
          authority_no_user (record uri_init { scheme = scheme }) host (strchr-none b'@' host at),
          strpbrk-none host_set host delims,
        )
        (ground arith)

-- The whole text after the slashes as the host.
abbrev pub only_host : List ℕ → List ℕ → Uri
only_host scheme host = record {
  scheme = scheme;
  user_info = [];
  host = host;
  port = [];
  path = [];
  query = [];
  fragment = [];
}

-- An `@` in the path is taken for the end of the user information: for a host without delimiters,
-- a path that holds an `@` with neither `:` nor `/` after it, and no `@` before it, `uri_parse`
-- stores the host, the slash and the path as the host and leaves the path empty, if all that is
-- shorter than 256 characters.
uri_parse-at_in_path :
    (scheme host front rest : List ℕ)
    → AllScheme scheme
    → length scheme < max_scheme_length
    → Lacks b'@' (host ++ b'/' ∷ front)
    → LacksAll host_set rest
    → length ((host ++ b'/' ∷ front) ++ b'@' ∷ rest) < max_host_length
    → uri_parse (scheme ++ b':' ∷ b'/' ∷ b'/' ∷ ((host ++ b'/' ∷ front) ++ b'@' ∷ rest))
      ≡ done (true, only_host scheme ((host ++ b'/' ∷ front) ++ b'@' ∷ rest))
unfolding host_from
uri_parse-at_in_path scheme host front rest h k at delims short =
    let whole = (host ++ b'/' ∷ front) ++ b'@' ∷ rest in
    uri_parse-append scheme whole h k
    ∙ rw
        (authority_no_end (record uri_init { scheme = scheme }) whole rest b'@'
          (strchr-append b'@' (host ++ b'/' ∷ front) rest at) (strpbrk-none host_set rest delims))
        (rw (lt→ltb (length whole) max_host_length short) (nothing_left scheme whole))
