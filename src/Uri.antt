-- ===== src/Uri.antt =====
-- source/kernel/utils/httpClient/uriparser.c. A field of the struct is the C string that its array
-- holds, and the position in the input is what remains of it.
pub mod Grammar
pub mod Bounds
pub mod Authority
pub mod Printing
mod Tests
use waffle_os.Common.{
  ℕ, ◌+◌, ◌-◌, Bool, true, false, ◌&&◌, ◌||◌, List, [], ◌∷◌, Option, none, some, ltb, ◌==◌,
  if◌then◌else◌, length, take,
}
use waffle_os.Strings.{isalnum, strchr, strpbrk}

pub record Uri : Type 0 where
  pub scheme : List ℕ
  pub user_info : List ℕ
  pub host : List ℕ
  pub port : List ℕ
  pub path : List ℕ
  pub query : List ℕ
  pub fragment : List ℕ

abbrev pub max_scheme_length : ℕ
max_scheme_length = 32

abbrev pub max_userinfo_length : ℕ
max_userinfo_length = 256

abbrev pub max_host_length : ℕ
max_host_length = 256

abbrev pub max_port_length : ℕ
max_port_length = 6

abbrev pub max_path_length : ℕ
max_path_length = 2048

abbrev pub max_query_length : ℕ
max_query_length = 2048

abbrev pub max_fragment_length : ℕ
max_fragment_length = 256

-- `memset(uri, 0, sizeof(URI))`
unfoldable pub uri_init : Uri
uri_init = record {
  scheme = [];
  user_info = [];
  host = [];
  port = [];
  path = [];
  query = [];
  fragment = [];
}

unfoldable pub is_scheme_char : ℕ → Bool
unfolding isalnum
is_scheme_char c = isalnum c || (c == b'+' || (c == b'-' || c == b'.'))

-- `while (is_scheme_char(**uri_string)) (*uri_string)++;`
unfoldable pub scheme_end : List ℕ → List ℕ
scheme_end [] = []
scheme_end (c ∷ s) = if is_scheme_char c then scheme_end s else c ∷ s

-- The characters between two positions, `end` being the later one.
abbrev pub between : List ℕ → List ℕ → List ℕ
between start end = take (length start - length end) start

-- `strncpy(field, start, length); field[length] = '\0';` under its guard.
abbrev pub store : ℕ → List ℕ → List ℕ → List ℕ
store limit chars old = if ltb (length chars) limit then chars else old

-- The position after the scheme and the scheme; `none` is the result 0.
scheme_at : List ℕ → List ℕ → Option (List ℕ × List ℕ)
scheme_at start [] = none
scheme_at start (c ∷ rest) =
    if c == b':' && ltb (length (between start (c ∷ rest))) max_scheme_length
    then some (rest, between start (c ∷ rest))
    else none

unfoldable pub parse_scheme : List ℕ → Option (List ℕ × List ℕ)
unfolding scheme_at scheme_end
parse_scheme s = scheme_at s (scheme_end s)

-- `overflow`: a `strcpy` that writes behind the end of its array.
pub data Outcome (A : Type 0) : Type 0 where
  done : A → Outcome A
  overflow : Outcome A

abbrev pub or_end : Option (List ℕ) → List ℕ
or_end none = []
or_end (some s) = s

-- The port, and the position after the authority.
authority_end : Uri → List ℕ → List ℕ → List ℕ × Uri
authority_end uri host_end [] = (host_end, uri)
authority_end uri host_end (c ∷ port_start) =
    if c == b':'
    then (let port_end = or_end (strpbrk port_start (b'/' ∷ b'?' ∷ b'#' ∷ [])) in
        (
          port_end,
          record uri { port = store max_port_length (between port_start port_end) uri.port },
        ))
    else (host_end, uri)

-- From `if (host_end)` on.
pub host_from : Uri → List ℕ → Option (List ℕ) → Outcome (List ℕ × Uri)
unfolding authority_end
host_from uri authority_start (some host_end) =
    let host = store max_host_length (between authority_start host_end) uri.host in
    done (authority_end (record uri { host = host }) host_end host_end)
host_from uri authority_start none =
    if ltb (length authority_start) max_host_length
    then done ([], record uri { host = authority_start })
    else overflow

-- `if (userinfo_end && userinfo_end < host_end)`: an earlier position has more characters after it.
userinfo_from : Uri → List ℕ → List ℕ → Option (List ℕ) → Outcome (List ℕ × Uri)
unfolding host_from
userinfo_from uri start [] host_end = host_from uri start host_end
userinfo_from uri start (c ∷ after) none = host_from uri start none
userinfo_from uri start (c ∷ after) (some host_end) =
    if ltb (length host_end) (length (c ∷ after))
    then host_from
        (record uri {
          user_info = store max_userinfo_length (between start (c ∷ after)) uri.user_info;
        })
        after (some host_end)
    else host_from uri start (some host_end)

host_delims : List ℕ
host_delims = b':' ∷ b'/' ∷ []

-- After the two slashes.
unfoldable pub authority_from : Uri → List ℕ → Outcome (List ℕ × Uri)
unfolding userinfo_from host_from host_delims
authority_from uri start = elim (strchr start b'@') [
  | none ↦ host_from uri start (strpbrk start host_delims)
  | some [] ↦ host_from uri start (strpbrk start host_delims)
  | some (c ∷ after) ↦ userinfo_from uri start (c ∷ after) (strpbrk after host_delims)
]

unfoldable pub parse_path : List ℕ × Uri → List ℕ × Uri
parse_path (s, uri) =
    let end = or_end (strpbrk s (b'?' ∷ b'#' ∷ [])) in
    (end, record uri { path = store max_path_length (between s end) uri.path })

unfoldable pub parse_query : List ℕ × Uri → List ℕ × Uri
parse_query ([], uri) = ([], uri)
parse_query (c ∷ s, uri) =
    if c == b'?'
    then (let end = or_end (strchr s b'#') in
        (end, record uri { query = store max_query_length (between s end) uri.query }))
    else (c ∷ s, uri)

-- The position is not used afterwards.
unfoldable pub parse_fragment : List ℕ × Uri → Uri
parse_fragment ([], uri) = uri
parse_fragment (c ∷ s, uri) =
    if c == b'#' then record uri { fragment = store max_fragment_length s uri.fragment } else uri

-- The three last parts of a URI.
unfoldable pub tail_from : List ℕ × Uri → Uri
unfolding parse_path parse_query parse_fragment
tail_from at = parse_fragment (parse_query (parse_path at))

unfoldable pub after_authority : Outcome (List ℕ × Uri) → Outcome (Bool × Uri)
unfolding tail_from
after_authority (done at) = done (true, tail_from at)
after_authority overflow = overflow

-- `parse_authority`, and the result 0 where the two slashes are missing.
after_scheme : Uri → List ℕ → Outcome (Bool × Uri)
unfolding after_authority authority_from
after_scheme uri [] = done (false, uri)
after_scheme uri (a ∷ []) = done (false, uri)
after_scheme uri (a ∷ b ∷ s) =
    if a == b'/' && b == b'/' then after_authority (authority_from uri s) else done (false, uri)

-- The result, and the struct behind the pointer.
unfoldable pub uri_parse : List ℕ → Outcome (Bool × Uri)
unfolding parse_scheme after_scheme tail_from uri_init
uri_parse s = elim (parse_scheme s) [
  | none ↦ done (true, tail_from (s, uri_init))
  | some (rest, scheme) ↦ after_scheme (record uri_init { scheme = scheme }) rest
]

is_empty : List ℕ → Bool
is_empty [] = true
is_empty (c ∷ s) = false

-- 0 if there is a scheme and no host.
pub uri_validate : Uri → Bool
unfolding is_empty
uri_validate uri = if is_empty uri.scheme then true else if is_empty uri.host then false else true

pub uri_is_absolute : Uri → Bool
unfolding is_empty
uri_is_absolute uri = if is_empty uri.scheme then false else true

pub uri_is_relative : Uri → Bool
unfolding is_empty
uri_is_relative uri = is_empty uri.scheme
