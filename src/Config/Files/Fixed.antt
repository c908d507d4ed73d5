-- ===== src/Config/Files/Fixed.antt =====
-- The lines of the configuration file that hold no peer.
use gorn.Common.{
  suc, length, ◌≡◌, refl, ap, ◌∙◌, Bool, false, Option, none, some, List, ◌∷◌, if◌then◌else◌,
}
use gorn.Text.{Bytes, codes}
use gorn.Text.Find.{npos, find_at, starts_with, contains}
use gorn.Text.Find.Quotes.{contains-at}
use gorn.Files.{read_loop}
use gorn.Text.Stream.{open_text, get_string, skip_space, take_word, span_word}
use gorn.Config.Files.{Parsing, url_tokens, add_peer, parse_line, parse_lines}

pub parse_lines-step :
    (s s' : Parsing) (line : Bytes) (lines : List Bytes)
    → parse_line s line ≡ some s'
    → parse_lines s (line ∷ lines) ≡ parse_lines s' lines
unfolding parse_lines
parse_lines-step s s' line lines e =
    let go : Option Parsing → Option Parsing =
      λ o. elim o [ none ↦ none | some t ↦ parse_lines t lines ] in
    ap go e

skip_line :
    (line word : Bytes) (s : Parsing)
    → (get_string s.token (open_text line)).0 ≡ word
    → contains word (codes "url") ≡ false
    → parse_line s line ≡ some (record s { token = word })
unfolding parse_line
skip_line line word s e f =
    let r = get_string s.token (open_text line) in
    let go : Bool → Option Parsing = λ b.
      if b
      then elim (url_tokens (record s { token = r.0 }) (read_loop (suc (length line)) r.0 r.1)) [
        | none ↦ none
        | some s' ↦ some (add_peer s')
      ]
      else some (record s { token = r.0 }) in
    let of : Bytes → Option Parsing = λ w. some (record s { token = w }) in
    ap go (ap (λ w. contains w (codes "url")) e ∙ f) ∙ ap of e

-- The fixed lines of the file hold no peer.
module _ (s : Parsing) where
  pub config_line : parse_line s (codes "<config>") ≡ some (record s { token = codes "<config>" })
  unfolding get_string take_word span_word skip_space find_at starts_with
  config_line =
      skip_line (codes "<config>") (codes "<config>") s refl
        (contains-at (codes "<config>") (codes "url") npos refl)

  pub node_line : parse_line s (codes "    <node>") ≡ some (record s { token = codes "<node>" })
  unfolding get_string take_word span_word skip_space find_at starts_with
  node_line =
      skip_line (codes "    <node>") (codes "<node>") s refl
        (contains-at (codes "<node>") (codes "url") npos refl)

  pub node_end_line :
      parse_line s (codes "    </node>") ≡ some (record s { token = codes "</node>" })
  unfolding get_string take_word span_word skip_space find_at starts_with
  node_end_line =
      skip_line (codes "    </node>") (codes "</node>") s refl
        (contains-at (codes "</node>") (codes "url") npos refl)

  pub links_line : parse_line s (codes "    <links>") ≡ some (record s { token = codes "<links>" })
  unfolding get_string take_word span_word skip_space find_at starts_with
  links_line =
      skip_line (codes "    <links>") (codes "<links>") s refl
        (contains-at (codes "<links>") (codes "url") npos refl)

  pub link_line : parse_line s (codes "        <link>") ≡ some (record s { token = codes "<link>" })
  unfolding get_string take_word span_word skip_space find_at starts_with
  link_line =
      skip_line (codes "        <link>") (codes "<link>") s refl
        (contains-at (codes "<link>") (codes "url") npos refl)

  pub link_end_line :
      parse_line s (codes "        </link>") ≡ some (record s { token = codes "</link>" })
  unfolding get_string take_word span_word skip_space find_at starts_with
  link_end_line =
      skip_line (codes "        </link>") (codes "</link>") s refl
        (contains-at (codes "</link>") (codes "url") npos refl)

  pub links_end_line :
      parse_line s (codes "    </links>") ≡ some (record s { token = codes "</links>" })
  unfolding get_string take_word span_word skip_space find_at starts_with
  links_end_line =
      skip_line (codes "    </links>") (codes "</links>") s refl
        (contains-at (codes "</links>") (codes "url") npos refl)

  pub config_end_line :
      parse_line s (codes "</config>") ≡ some (record s { token = codes "</config>" })
  unfolding get_string take_word span_word skip_space find_at starts_with
  config_end_line =
      skip_line (codes "</config>") (codes "</config>") s refl
        (contains-at (codes "</config>") (codes "url") npos refl)
