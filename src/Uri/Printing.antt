-- ===== src/Uri/Printing.antt =====
-- `uri_to_string` of source/kernel/utils/httpClient/uriparser.c, over `snprintf`. The buffer behind
-- what is written so far gets the next part, so the text is the parts one after the other.
use waffle_os.Common.{
  ℕ, zero, suc, ◌-◌, ◌<◌, ◌≡◌, refl, Bool, true, false, List, [], ◌∷◌, ◌++◌, Option, some, ◌>>=◌,
  ltb, length, take, take-nil, arith, ap, sym, ◌∙◌, length-take, append-nil, append_assoc, lt→ltb,
  codes,
}
use waffle_os.Stdio.Format.{Arg, text}
use waffle_os.Stdio.Bounded.{conversion, snprintf}
use waffle_os.Stdio.Bounded.Cutting.{expansion, snprintf-take, take-append}
use waffle_os.Uri.{Uri}

-- `written += snprintf(buffer + written, buffer_size - written, fmt, ...)`
pub emit : ℕ → List ℕ → List Arg → List ℕ → Option (List ℕ)
emit buffer_size fmt args written = do
  chars ← snprintf (buffer_size - length written) fmt args
  some (written ++ chars)

-- `if (part[0])` round a part that is printed with itself as the argument.
pub emit_part : ℕ → List ℕ → List ℕ → List ℕ → Option (List ℕ)
unfolding emit
emit_part buffer_size fmt [] written = some written
emit_part buffer_size fmt (c ∷ part) written = emit buffer_size fmt (text (c ∷ part) ∷ []) written

pub emit_authority : ℕ → Uri → List ℕ → List ℕ → Option (List ℕ)
unfolding emit emit_part
emit_authority buffer_size uri [] written = some written
emit_authority buffer_size uri (c ∷ host) written = do
  w ← emit buffer_size (codes "//") [] written
  w' ← emit_part buffer_size (codes "%s@") uri.user_info w
  w'' ← emit buffer_size (codes "%s") (text (c ∷ host) ∷ []) w'
  emit_part buffer_size (codes ":%s") uri.port w''

-- The characters in the buffer, and whether the result is 1. A size of 0 has the result 0.
pub uri_to_string : ℕ → Uri → Option (List ℕ × Bool)
unfolding emit emit_part emit_authority
uri_to_string zero uri = some ([], false)
uri_to_string (suc room) uri = do
  w ← emit_part (suc room) (codes "%s:") uri.scheme []
  w ← emit_authority (suc room) uri uri.host w
  w ← emit (suc room) (codes "%s") (text uri.path ∷ []) w
  w ← emit_part (suc room) (codes "?%s") uri.query w
  w ← emit_part (suc room) (codes "#%s") uri.fragment w
  some (w, ltb (length w) (suc room))

-- A part between its marks, if it is not empty.
abbrev pub marked : List ℕ → List ℕ → List ℕ → List ℕ
marked front [] back = []
marked front (c ∷ part) back = front ++ ((c ∷ part) ++ back)

abbrev pub authority_text : Uri → List ℕ → List ℕ
authority_text uri [] = []
authority_text uri (c ∷ host) =
    codes "//"
    ++ (marked [] uri.user_info (codes "@") ++ ((c ∷ host) ++ marked (codes ":") uri.port []))

-- The whole text, of any length.
abbrev pub full_text : Uri → List ℕ
full_text uri =
    marked [] uri.scheme (codes ":")
    ++ (authority_text uri uri.host
        ++ (uri.path ++ (marked (codes "?") uri.query [] ++ marked (codes "#") uri.fragment [])))

emit-take :
    (room : ℕ) (fmt : List ℕ) (args : List Arg) (before full : List ℕ)
    → expansion fmt args ≡ some full
    → emit (suc room) fmt args (take room before) ≡ some (take room (before ++ full))
unfolding emit
emit-take room fmt args before full e =
    let left : suc room - length (take room before) - 1 ≡ room - length (take room before) =
      omega arith in
    rw (snprintf-take (suc room - length (take room before)) fmt args full e, left)
      (ap some (sym (take-append room before full)))

emit_part-take :
    (room : ℕ) (fmt part front back before : List ℕ)
    → ((p : List ℕ) → expansion fmt (text p ∷ []) ≡ some (front ++ (p ++ back)))
    → emit_part (suc room) fmt part (take room before)
      ≡ some (take room (before ++ marked front part back))
unfolding emit_part
emit_part-take room fmt [] front back before e =
    ap (λ t. some (take room t)) (sym (append-nil before))
emit_part-take room fmt (c ∷ part) front back before e =
    emit-take room fmt (text (c ∷ part) ∷ []) before (front ++ ((c ∷ part) ++ back)) (e (c ∷ part))

string_expansion : (p : List ℕ) → expansion (codes "%s") (text p ∷ []) ≡ some p
unfolding expansion conversion
string_expansion p = ap some (append-nil p)

scheme_expansion : (p : List ℕ) → expansion (codes "%s:") (text p ∷ []) ≡ some (p ++ codes ":")
unfolding expansion conversion
scheme_expansion p = refl

user_expansion : (p : List ℕ) → expansion (codes "%s@") (text p ∷ []) ≡ some (p ++ codes "@")
unfolding expansion conversion
user_expansion p = refl

port_expansion : (p : List ℕ) → expansion (codes ":%s") (text p ∷ []) ≡ some (b':' ∷ (p ++ []))
unfolding expansion conversion
port_expansion p = refl

query_expansion : (p : List ℕ) → expansion (codes "?%s") (text p ∷ []) ≡ some (b'?' ∷ (p ++ []))
unfolding expansion conversion
query_expansion p = refl

fragment_expansion : (p : List ℕ) → expansion (codes "#%s") (text p ∷ []) ≡ some (b'#' ∷ (p ++ []))
unfolding expansion conversion
fragment_expansion p = refl

slashes_expansion : expansion (codes "//") [] ≡ some (codes "//")
unfolding expansion
slashes_expansion = refl

emit_authority-take :
    (room : ℕ) (uri : Uri) (host before : List ℕ)
    → emit_authority (suc room) uri host (take room before)
      ≡ some (take room (before ++ authority_text uri host))
unfolding emit_authority
emit_authority-take room uri [] before = ap (λ t. some (take room t)) (sym (append-nil before))
emit_authority-take room uri (c ∷ host) before =
    let user = marked [] uri.user_info (codes "@") in
    let port = marked (codes ":") uri.port [] in
    let b1 = before ++ codes "//" in
    let b2 = b1 ++ user in
    let b3 = b2 ++ (c ∷ host) in
    let whole : b3 ++ port ≡ before ++ (codes "//" ++ (user ++ ((c ∷ host) ++ port))) =
      simp (append_assoc) in
    rw
      (
        emit-take room (codes "//") [] before (codes "//") slashes_expansion,
        emit_part-take room (codes "%s@") uri.user_info [] (codes "@") b1 user_expansion,
        emit-take room (codes "%s") (text (c ∷ host) ∷ []) b2 (c ∷ host)
            (string_expansion (c ∷ host)),
        emit_part-take room (codes ":%s") uri.port (codes ":") [] b3 port_expansion,
      )
      (ap (λ t. some (take room t)) whole)

-- For a buffer that is not empty, `uri_to_string` writes the URI with its delimiters, cut to one
-- character less than the size, and it returns 1 in every case: also where the text is cut.
pub uri_to_string-take :
    (buffer_size : ℕ) (uri : Uri)
    → 0 < buffer_size
    → uri_to_string buffer_size uri ≡ some (take (buffer_size - 1) (full_text uri), true)
unfolding uri_to_string
uri_to_string-take zero uri pos = absurd (omega arith)
uri_to_string-take (suc room) uri pos =
    let b1 = marked [] uri.scheme (codes ":") in
    let b2 = b1 ++ authority_text uri uri.host in
    let b3 = b2 ++ uri.path in
    let b4 = b3 ++ marked (codes "?") uri.query [] in
    let b5 = b4 ++ marked (codes "#") uri.fragment [] in
    let whole : b5 ≡ full_text uri = simp (append_assoc) in
    let same : room ≡ suc room - 1 = omega arith in
    let fits : ltb (length (take room b5)) (suc room) ≡ true =
      lt→ltb (length (take room b5)) (suc room) (omega (arith, length-take room b5)) in
    let start : take {A = ℕ} room [] ≡ [] = take-nil room in
    let first = emit_part-take room (codes "%s:") uri.scheme [] (codes ":") [] scheme_expansion in
    rw
      (
        rw start at first,
        emit_authority-take room uri uri.host b1,
        emit-take room (codes "%s") (text uri.path ∷ []) b2 uri.path (string_expansion uri.path),
        emit_part-take room (codes "?%s") uri.query (codes "?") [] b3 query_expansion,
        emit_part-take room (codes "#%s") uri.fragment (codes "#") [] b4 fragment_expansion,
        fits,
      )
      (ap (λ t. some (t, true)) (ap (take room) whole ∙ ap (λ n. take n (full_text uri)) same))
