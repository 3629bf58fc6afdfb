-- ===== src/Uri/Bounds.antt =====
-- No field of a parsed URI (source/kernel/utils/httpClient/uriparser.c) is longer than its array.
use waffle_os.Common.{
  ℕ, ◌<◌, ◌≡◌, Bool, ◌&&◌, List, [], ◌∷◌, Option, none, some, ltb, ◌==◌, length, arith,
  Option-cases, inl, inr, Bool-cases,
}
use waffle_os.Strings.{strchr}
use waffle_os.Uri.{
  Uri, max_scheme_length, max_userinfo_length, max_host_length, max_port_length, max_path_length,
  max_query_length, max_fragment_length, uri_init, scheme_end, scheme_at, parse_scheme, Outcome,
  done, overflow, authority_end, host_from, userinfo_from, authority_from, parse_path, parse_query,
  parse_fragment, tail_from, after_authority, after_scheme, uri_parse,
}

-- Every string and its NUL fit the array that holds them.
pub record Fits (u : Uri) : Type 0 where
  pub scheme : length u.scheme < max_scheme_length
  pub user_info : length u.user_info < max_userinfo_length
  pub host : length u.host < max_host_length
  pub port : length u.port < max_port_length
  pub path : length u.path < max_path_length
  pub query : length u.query < max_query_length
  pub fragment : length u.fragment < max_fragment_length

-- Of a parse that does not overflow.
abbrev pub FitsAt : Outcome (List ℕ × Uri) → Type 0
FitsAt (done (s, u)) = Fits u
FitsAt overflow = Unit

abbrev pub FitsAfter : Outcome (Bool × Uri) → Type 0
FitsAfter (done (r, u)) = Fits u
FitsAfter overflow = Unit

uri_init-Fits : Fits uri_init
unfolding uri_init
uri_init-Fits = ground arith

scheme-Fits :
    (scheme : List ℕ)
    → length scheme < max_scheme_length
    → Fits (record uri_init { scheme = scheme })
unfolding uri_init
scheme-Fits scheme h = ground arith

authority_end-Fits : (u : Uri) (host_end s : List ℕ) → Fits u → Fits (authority_end u host_end s).1
unfolding authority_end
authority_end-Fits u host_end [] f = f
authority_end-Fits u host_end (c ∷ s) f = ground arith

host_from-Fits :
    (u : Uri) (start : List ℕ) (host_end : Option (List ℕ))
    → Fits u
    → FitsAt (host_from u start host_end)
unfolding host_from
host_from-Fits u start none f = ground arith
host_from-Fits u start (some host_end) f = authority_end-Fits _ host_end host_end (ground arith)

userinfo_from-Fits :
    (u : Uri) (start at : List ℕ) (host_end : Option (List ℕ))
    → Fits u
    → FitsAt (userinfo_from u start at host_end)
unfolding userinfo_from
userinfo_from-Fits u start [] host_end f = host_from-Fits u start host_end f
userinfo_from-Fits u start (c ∷ after) none f = host_from-Fits u start none f
userinfo_from-Fits u start (c ∷ after) (some host_end) f =
    elim (Bool-cases (ltb (length host_end) (length (c ∷ after)))) [
      | inl early ↦ rw early (host_from-Fits _ after (some host_end) (ground arith))
      | inr late ↦ rw late (host_from-Fits u start (some host_end) f)
    ]

authority_from-Fits : (u : Uri) (start : List ℕ) → Fits u → FitsAt (authority_from u start)
unfolding authority_from
authority_from-Fits u start f = elim (Option-cases (strchr start b'@')) [
  | inl missing ↦ rw (missing, authority_from) (host_from-Fits u start _ f)
  | inr ([], found) ↦ rw (found, authority_from) (host_from-Fits u start _ f)
  | inr (c ∷ after, found) ↦ rw (found, authority_from) (userinfo_from-Fits u start (c ∷ after) _ f)
]

parse_path-Fits : (s : List ℕ) (u : Uri) → Fits u → Fits (parse_path (s, u)).1
unfolding parse_path
parse_path-Fits s u f = ground arith

parse_query-Fits : (s : List ℕ) (u : Uri) → Fits u → Fits (parse_query (s, u)).1
unfolding parse_query
parse_query-Fits [] u f = f
parse_query-Fits (c ∷ s) u f = ground arith

parse_fragment-Fits : (s : List ℕ) (u : Uri) → Fits u → Fits (parse_fragment (s, u))
unfolding parse_fragment
parse_fragment-Fits [] u f = f
parse_fragment-Fits (c ∷ s) u f = ground arith

tail_from-Fits : (s : List ℕ) (u : Uri) → Fits u → Fits (tail_from (s, u))
unfolding tail_from
tail_from-Fits s u f =
    parse_fragment-Fits (parse_query (parse_path (s, u))).0 (parse_query (parse_path (s, u))).1
      (parse_query-Fits (parse_path (s, u)).0 (parse_path (s, u)).1 (parse_path-Fits s u f))

after_authority-Fits : (o : Outcome (List ℕ × Uri)) → FitsAt o → FitsAfter (after_authority o)
unfolding after_authority
after_authority-Fits (done (s, u)) f = tail_from-Fits s u f
after_authority-Fits overflow f = tt

after_scheme-Fits : (u : Uri) (s : List ℕ) → Fits u → FitsAfter (after_scheme u s)
unfolding after_scheme
after_scheme-Fits u [] f = f
after_scheme-Fits u (a ∷ []) f = f
after_scheme-Fits u (a ∷ b ∷ s) f = elim (Bool-cases (a == b'/' && b == b'/')) [
  | inl slashes ↦ rw slashes (after_authority-Fits (authority_from u s) (authority_from-Fits u s f))
  | inr other ↦ rw other f
]

scheme_at-lt :
    (start s rest scheme : List ℕ)
    → scheme_at start s ≡ some (rest, scheme)
    → length scheme < max_scheme_length
unfolding scheme_at
scheme_at-lt start [] rest scheme e = absurd (cc e)
scheme_at-lt start (c ∷ s) rest scheme e = ground arith

-- Whatever the input, and whether the parser returns 1 or 0, every field with its NUL fits its
-- array, unless the parse ends in the unbounded `strcpy` of the host.
uri_parse-Fits : (s : List ℕ) → FitsAfter (uri_parse s)
unfolding uri_parse parse_scheme
uri_parse-Fits s = elim (Option-cases (parse_scheme s)) [
  | inl missing ↦ rw (missing, uri_parse) (tail_from-Fits s uri_init uri_init-Fits)
  | inr ((rest, scheme), found) ↦
      rw (found, uri_parse)
        (after_scheme-Fits _ rest
          (scheme-Fits scheme (scheme_at-lt s (scheme_end s) rest scheme found)))
]
