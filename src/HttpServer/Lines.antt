-- ===== src/HttpServer/Lines.antt =====
-- How a line of a server's file is read, and the reading of one line more.
use Prim.Native.Char.{Char}
use Prim.Native.String.{◌++◌ as ◌+++◌}
use text.Mathlib.TextLemmas.{cons-append, nil-append}
use openshift_acme.Common.{ℕ, suc, ◌≡◌, ◌∙◌, refl, ap, String, true, false, List, ◌∷◌, Dict, insert}
use openshift_acme.Errors.{err, cannot_parse_line}
use openshift_acme.Strings.Trim.{all_space, trim_space-empty}
use openshift_acme.Strings.Split.{Free, cut_absent, cut_at}
use openshift_acme.HttpServer.{blank, malformed, entry, read_line, parse_lines, line_of_parts}

pub one-append : (c : Char) (s : String) → String.◌∷◌ c "" +++ s ≡ String.◌∷◌ c s
one-append c s = cons-append c "" s ∙ ap (String.◌∷◌ c) (nil-append s)

abbrev pub space : Char
space = " "

abbrev pub newline : Char
newline = "\n"

pub read_line-malformed : (l : String) → all_space l ≡ false → Free b' ' l → read_line l ≡ malformed
unfolding read_line line_of_parts
read_line-malformed l visible no_space =
    rw (trim_space-empty l, visible, cut_absent b' ' l no_space) refl

pub read_line-entry :
    (l uri response : String)
    → all_space l ≡ false
    → l ≡ uri +++ (" " +++ response)
    → Free b' ' uri
    → read_line l ≡ entry uri response
unfolding read_line line_of_parts
read_line-entry l uri response visible parts no_space =
    rw
      (
        trim_space-empty l,
        visible,
        parts,
        one-append space response,
        cut_at space uri response no_space,
      )
      refl

pub read_line-blank : (l : String) → all_space l ≡ true → read_line l ≡ blank
unfolding read_line
read_line-blank l white = rw (trim_space-empty l, white) refl

module _ (n : ℕ) (l : String) (ls : List String) (table : Dict String) where
  pub parse_lines-blank :
      read_line l ≡ blank → parse_lines n (l ∷ ls) table ≡ parse_lines (suc n) ls table
  unfolding parse_lines
  parse_lines-blank e = rw (e, parse_lines) refl

  pub parse_lines-malformed :
      read_line l ≡ malformed → parse_lines n (l ∷ ls) table ≡ (table, err (cannot_parse_line n))
  unfolding parse_lines
  parse_lines-malformed e = rw (e, parse_lines) refl

  pub parse_lines-entry :
      (uri response : String)
      → read_line l ≡ entry uri response
      → parse_lines n (l ∷ ls) table ≡ parse_lines (suc n) ls (insert uri response table)
  unfolding parse_lines
  parse_lines-entry uri response e = rw (e, parse_lines) refl
