-- ===== src/Uri/Tests.antt =====
-- The parser on concrete inputs.
use waffle_os.Common.{codes, ◌≡◌, refl, true, [], arith, some, take}
use waffle_os.Strings.{strchr, strpbrk, in_set}
use waffle_os.Uri.Printing.{uri_to_string, full_text, uri_to_string-take}
use waffle_os.Uri.{uri_parse, done, is_scheme_char}
use waffle_os.Uri.Grammar.{Parts, IsPlainUri, parsed, uri_parse-uri_text}
use waffle_os.Uri.Authority.{AllScheme, only_host}

-- User information, a port and every other part.
whole_uri :
    uri_parse (codes "ftp://me:pw@host:21/a/b?q#f")
    ≡ done (
      true,
      record {
        scheme = codes "ftp";
        user_info = codes "me:pw";
        host = codes "host";
        port = codes "21";
        path = codes "/a/b";
        query = codes "q";
        fragment = codes "f";
      },
    )
unfolding uri_parse strchr strpbrk is_scheme_char
whole_uri = refl

abbrev page : Parts
page = record {
  scheme = codes "http";
  host = codes "example.org";
  path = codes "docs/x.html";
  query = codes "v=2";
  fragment = [];
}

http_scheme : AllScheme (codes "http")
unfolding is_scheme_char
http_scheme = (refl, (refl, (refl, (refl, tt))))

page-IsPlainUri : IsPlainUri page
unfolding in_set
page-IsPlainUri = record {
  scheme_chars = http_scheme;
  scheme_fits = omega arith;
  host_lacks = ground arith;
  host_fits = omega arith;
  no_at = ground arith;
  path_lacks = ground arith;
  path_fits = omega arith;
  query_lacks = ground arith;
  query_fits = omega arith;
  fragment_fits = omega arith;
}

uri_parse-uri_text_example :
    uri_parse (codes "http://example.org/docs/x.html?v=2") ≡ done (true, parsed page)
uri_parse-uri_text_example = uri_parse-uri_text page page-IsPlainUri

-- Cut behind "http://".
uri_to_string-take_example :
    uri_to_string 8 (only_host (codes "http") (codes "host"))
    ≡ some (take 7 (full_text (only_host (codes "http") (codes "host"))), true)
uri_to_string-take_example =
    uri_to_string-take 8 (only_host (codes "http") (codes "host")) (omega arith)
