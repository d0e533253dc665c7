-- ===== src/HttpServer/Served.antt =====
-- What a server answers after it has read a file.
use Prim.Native.String.{◌++◌ as ◌+++◌}
use text.Mathlib.TextLemmas.{append-nil}
use openshift_acme.Common.{
  ℕ, suc, ◌+◌, ◌≡◌, ◌∙◌, refl, ap, String, true, false, Option, none, some, List, [], ◌∷◌, Dict,
  All, insert, arith, length,
}
use openshift_acme.Errors.{ok, err, cannot_parse_line}
use openshift_acme.Strings.{split}
use openshift_acme.Strings.Trim.{all_space, all_space-append}
use openshift_acme.Strings.Split.{Free, split_at, split_one}
use openshift_acme.HttpServer.{Server, malformed, entry, read_line, parse_lines, parse_data}
use openshift_acme.HttpServer.Lines.{
  newline, one-append, read_line-malformed, read_line-entry, read_line-blank, parse_lines-blank,
  parse_lines-malformed, parse_lines-entry,
}

-- A URI and its response that fit in a line.
pub record FitsLine (e : String × String) : Type 0 where
  pub visible : all_space e.0 ≡ false
  pub no_space : Free b' ' e.0
  pub one_line : Free b'\n' (e.0 +++ (" " +++ e.1))

abbrev pub line_of : String × String → String
line_of e = e.0 +++ (" " +++ e.1)

read_line-line_of : (e : String × String) → FitsLine e → read_line (line_of e) ≡ entry e.0 e.1
unfolding all_space
read_line-line_of (uri, response) f =
    read_line-entry (uri +++ (" " +++ response)) uri response
      (all_space-append uri (" " +++ response) f.visible) refl f.no_space

-- A line that is blank, or is a URI, which is the text before its first space and may be empty, and
-- a response.
pub data IsReadable (l : String) : Type 0 where
  is_blank : all_space l ≡ true → IsReadable l
  is_entry :
      (uri response : String)
      → all_space l ≡ false
      → l ≡ uri +++ (" " +++ response)
      → Free b' ' uri
      → IsReadable l

pub record IsReadableLine (l : String) : Type 0 where
  pub readable : IsReadable l
  pub one_line : Free b'\n' l

-- The table after a line.
abbrev pub store_line : {l : String} → IsReadable l → Dict String → Dict String
store_line (is_blank white) table = table
store_line (is_entry uri response visible parts no_space) table = insert uri response table

-- The table after the lines, one after the other.
abbrev pub store_lines : (ls : List String) → All IsReadableLine ls → Dict String → Dict String
store_lines [] h table = table
store_lines (l ∷ ls) h table = store_lines ls h.1 (store_line h.0.readable table)

-- Lines with their ends, and any text behind them.
abbrev pub lines_with : List String → String → String
lines_with [] rest = rest
lines_with (l ∷ ls) rest = l +++ ("\n" +++ lines_with ls rest)

-- The end of a file, or of a line with any text behind it.
abbrev pub ending : Option String → String
ending none = ""
ending (some rest) = "\n" +++ rest

parse_lines-readable :
    (n : ℕ) (l : String) (ls : List String) (table : Dict String) (h : IsReadable l)
    → parse_lines n (l ∷ ls) table ≡ parse_lines (suc n) ls (store_line h table)
parse_lines-readable n l ls table (is_blank white) =
    parse_lines-blank n l ls table (read_line-blank l white)
parse_lines-readable n l ls table (is_entry uri response visible parts no_space) =
    parse_lines-entry n l ls table uri response
      (read_line-entry l uri response visible parts no_space)

parse_lines-lines_with :
    (n : ℕ) (ls : List String) (rest : String) (table : Dict String) (h : All IsReadableLine ls)
    → parse_lines n (split b'\n' (lines_with ls rest)) table
      ≡ parse_lines (n + length ls) (split b'\n' rest) (store_lines ls h table)
parse_lines-lines_with n [] rest table h =
    ap (λ k. parse_lines k (split b'\n' rest) table) (omega arith)
parse_lines-lines_with n (l ∷ ls) rest table h =
    let stored = store_line h.0.readable table in
    rw
      (
        one-append newline (lines_with ls rest),
        split_at newline l (lines_with ls rest) h.0.one_line,
      )
      (parse_lines-readable n l _ table h.0.readable
        ∙ parse_lines-lines_with (suc n) ls rest stored h.1
        ∙ ap (λ k. parse_lines k (split b'\n' rest) (store_lines ls h.1 stored)) (omega arith))

parse_lines-stops :
    (n : ℕ) (l : String) (rest : Option String) (table : Dict String)
    → read_line l ≡ malformed
    → Free b'\n' l
    → parse_lines n (split b'\n' (l +++ ending rest)) table ≡ (table, err (cannot_parse_line n))
parse_lines-stops n l none table bad one_line =
    rw (append-nil l, split_one b'\n' l one_line) (parse_lines-malformed n l [] table bad)
parse_lines-stops n l (some rest) table bad one_line =
    rw (one-append newline rest, split_at newline l rest one_line)
      (parse_lines-malformed n l (split b'\n' rest) table bad)

-- The first line that is neither blank nor has a space stops the reading with an error of its number,
-- which is the number of all the lines before it, the blank ones included, whatever follows; the
-- entries of the lines before it stay stored, a later one for the same URI over an earlier one.
pub parse_data-malformed :
    (ls : List String) (l : String) (rest : Option String) (s : Server)
    → (h : All IsReadableLine ls) → all_space l ≡ false
    → Free b' ' l
    → Free b'\n' l
    → parse_data (lines_with ls (l +++ ending rest)) s ≡ (
      record s { uri_to_response = store_lines ls h s.uri_to_response },
      err (cannot_parse_line (length ls)),
    )
unfolding parse_data
parse_data-malformed ls l rest s h visible no_space one_line =
    let bad = read_line-malformed l visible no_space in
    rw
      (
        parse_lines-lines_with 0 ls (l +++ ending rest) s.uri_to_response h,
        parse_lines-stops (0 + length ls) l rest (store_lines ls h s.uri_to_response) bad one_line,
      )
      (ap
        (λ k. (
          record s { uri_to_response = store_lines ls h s.uri_to_response },
          err (cannot_parse_line k),
        ))
        (omega arith))

-- A file of one line without an end.
pub parse_data-line_of :
    (e : String × String) (s : Server)
    → FitsLine e
    → parse_data (line_of e) s
      ≡ (record s { uri_to_response = insert e.0 e.1 s.uri_to_response }, ok tt)
unfolding parse_data
parse_data-line_of e s f =
    rw
      (
        split_one b'\n' (line_of e) f.one_line,
        parse_lines-entry 0 (line_of e) [] s.uri_to_response e.0 e.1 (read_line-line_of e f),
      )
      (unfold parse_lines in refl)
