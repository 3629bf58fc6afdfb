-- ===== src/Uri/Grammar.antt =====
-- The parser of source/kernel/utils/httpClient/uriparser.c reads back the parts of a URI.
use waffle_os.Common.{
  ℕ, ◌<◌, ◌≡◌, refl, true, List, [], ◌∷◌, ◌++◌, some, length, arith, append-nil, lt→ltb, ap, ◌∙◌,
}
use waffle_os.Strings.{strchr, strpbrk, in_set}
use waffle_os.Strings.Scan.{
  Lacks, LacksAll, strchr-append, strchr-none, strpbrk-append, strpbrk-none,
}
use waffle_os.Uri.{
  Uri, max_scheme_length, max_host_length, max_path_length, max_query_length, max_fragment_length,
  uri_init, done, host_from, after_authority, tail_from, uri_parse, or_end, parse_path, parse_query,
  parse_fragment,
}
use waffle_os.Uri.Authority.{
  AllScheme, host_set, between-append, uri_parse-append, authority_no_user,
}

abbrev pub path_set : List ℕ
path_set = b'?' ∷ b'#' ∷ []

abbrev pub fragment_text : List ℕ → List ℕ
fragment_text [] = []
fragment_text (c ∷ s) = b'#' ∷ c ∷ s

abbrev pub query_text : List ℕ → List ℕ → List ℕ
query_text [] rest = rest
query_text (c ∷ s) rest = b'?' ∷ ((c ∷ s) ++ rest)

-- A text that is empty or begins with `?` or `#`.
abbrev Starts : List ℕ → Type 0
Starts [] = Unit
Starts (c ∷ s) = in_set c path_set ≡ true

query_text-Starts : (query fragment : List ℕ) → Starts (query_text query (fragment_text fragment))
unfolding in_set
query_text-Starts [] [] = tt
query_text-Starts [] (c ∷ s) = refl
query_text-Starts (c ∷ s) fragment = refl

path_end :
    (path rest : List ℕ)
    → LacksAll path_set path
    → Starts rest
    → or_end (strpbrk (path ++ rest) path_set) ≡ rest
path_end path [] lacks starts = rw (append-nil path, strpbrk-none path_set path lacks)
path_end path (c ∷ rest) lacks starts = rw (strpbrk-append path_set c path rest lacks starts)

query_end :
    (query fragment : List ℕ)
    → Lacks b'#' query
    → or_end (strchr (query ++ fragment_text fragment) b'#') ≡ fragment_text fragment
query_end query [] lacks = rw (append-nil query, strchr-none b'#' query lacks)
query_end query (c ∷ s) lacks = rw (strchr-append b'#' query (c ∷ s) lacks)

parse_path-append :
    (path rest : List ℕ) (u : Uri)
    → LacksAll path_set path
    → Starts rest
    → length path < max_path_length
    → parse_path (path ++ rest, u) ≡ (rest, record u { path = path })
unfolding parse_path
parse_path-append path rest u lacks starts short = rw (
  path_end path rest lacks starts,
  between-append path rest,
  lt→ltb (length path) max_path_length short,
)

parse_query-append :
    (query fragment : List ℕ) (u : Uri)
    → Lacks b'#' query
    → length query < max_query_length
    → u.query ≡ []
    → parse_query (query_text query (fragment_text fragment), u)
      ≡ (fragment_text fragment, record u { query = query })
unfolding parse_query
parse_query-append [] [] u lacks short e = ground arith
parse_query-append [] (c ∷ s) u lacks short e = ground arith
parse_query-append (c ∷ query) fragment u lacks short e =
    rw (query_end (c ∷ query) fragment lacks, between-append (c ∷ query) (fragment_text fragment))
      (ground arith)

parse_fragment_text :
    (fragment : List ℕ) (u : Uri)
    → length fragment < max_fragment_length
    → u.fragment ≡ []
    → parse_fragment (fragment_text fragment, u) ≡ record u { fragment = fragment }
unfolding parse_fragment
parse_fragment_text [] u short e = ground arith
parse_fragment_text (c ∷ s) u short e = ground arith

-- The parts of a URI with neither user information nor port, whose path begins with a slash.
pub record Parts : Type 0 where
  pub scheme : List ℕ
  pub host : List ℕ
  pub path : List ℕ
  pub query : List ℕ
  pub fragment : List ℕ

abbrev pub tail_text : Parts → List ℕ
tail_text p = query_text p.query (fragment_text p.fragment)

-- scheme://host/path?query#fragment
abbrev pub uri_text : Parts → List ℕ
uri_text p = p.scheme ++ b':' ∷ b'/' ∷ b'/' ∷ (p.host ++ ((b'/' ∷ p.path) ++ tail_text p))

-- The delimiters stand where they should, and every part fits its array.
pub record IsPlainUri (p : Parts) : Type 0 where
  pub scheme_chars : AllScheme p.scheme
  pub scheme_fits : length p.scheme < max_scheme_length
  pub host_lacks : LacksAll host_set p.host
  pub host_fits : length p.host < max_host_length
  pub no_at : Lacks b'@' (p.host ++ ((b'/' ∷ p.path) ++ tail_text p))
  pub path_lacks : LacksAll path_set (b'/' ∷ p.path)
  pub path_fits : length (b'/' ∷ p.path) < max_path_length
  pub query_lacks : Lacks b'#' p.query
  pub query_fits : length p.query < max_query_length
  pub fragment_fits : length p.fragment < max_fragment_length

abbrev pub parsed : Parts → Uri
parsed p = record {
  scheme = p.scheme;
  user_info = [];
  host = p.host;
  port = [];
  path = b'/' ∷ p.path;
  query = p.query;
  fragment = p.fragment;
}

slash_in_host_set : in_set b'/' host_set ≡ true
unfolding in_set
slash_in_host_set = refl

host_from_slash :
    (u : Uri) (host rest : List ℕ)
    → length host < max_host_length
    → host_from u (host ++ b'/' ∷ rest) (some (b'/' ∷ rest))
      ≡ done (b'/' ∷ rest, record u { host = host })
unfolding host_from
host_from_slash u host rest short =
    rw (between-append host (b'/' ∷ rest), lt→ltb (length host) max_host_length short)

tail_from_parts :
    (p : Parts) (u : Uri)
    → IsPlainUri p
    → u.query ≡ []
    → u.fragment ≡ []
    → tail_from ((b'/' ∷ p.path) ++ tail_text p, u)
      ≡ record u { path = b'/' ∷ p.path; query = p.query; fragment = p.fragment }
unfolding tail_from
tail_from_parts p u v eq ef =
    ap (λ at. parse_fragment (parse_query at))
      (parse_path-append (b'/' ∷ p.path) (tail_text p) u v.path_lacks
        (query_text-Starts p.query p.fragment) v.path_fits)
    ∙ ap parse_fragment (
        parse_query-append p.query p.fragment (record u { path = b'/' ∷ p.path }) v.query_lacks
          v.query_fits eq)
    ∙ parse_fragment_text p.fragment (record u { path = b'/' ∷ p.path; query = p.query })
        v.fragment_fits ef

-- `uri_parse` of scheme://host/path?query#fragment returns 1 and stores exactly these parts, for
-- all parts that fit their arrays and hold no character that delimits them (no `@` at all after
-- the scheme). An empty query or fragment stands without its mark.
pub uri_parse-uri_text : (p : Parts) → IsPlainUri p → uri_parse (uri_text p) ≡ done (true, parsed p)
unfolding after_authority uri_init
uri_parse-uri_text p v =
    let rest = p.path ++ tail_text p in
    let start = p.host ++ b'/' ∷ rest in
    let u : Uri = record uri_init { scheme = p.scheme } in
    uri_parse-append p.scheme start v.scheme_chars v.scheme_fits
    ∙ ap after_authority (
        authority_no_user u start (strchr-none b'@' start v.no_at)
        ∙ ap (host_from u start)
            (strpbrk-append host_set b'/' p.host rest v.host_lacks slash_in_host_set)
        ∙ host_from_slash u p.host rest v.host_fits)
    ∙ ap (λ w. done (true, w)) (tail_from_parts p (record u { host = p.host }) v refl refl)
