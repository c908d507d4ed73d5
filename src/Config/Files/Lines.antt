-- ===== src/Config/Files/Lines.antt =====
-- The lines of a configuration file, and what `parse_config_file` makes of each.
use gorn.Common.{
  ℕ, suc, ◌≤◌, ◌<◌, ◌≡◌, refl, ap, ◌∙◌, Bool, true, Option, none, some, List, [], ◌∷◌, ◌++◌,
  append_assoc, arith, if◌then◌else◌, length, All, All-append,
}
use gorn.Text.{Bytes, codes}
use gorn.Text.Find.{starts_with, find_at, contains}
use gorn.Text.Find.Quotes.{contains-at}
use gorn.Text.Stream.{Stream, open_text, get_string, skip_space, take_word, span_word}
use gorn.Text.Stream.Lines.{NotFeed, solid-NotFeed}
use gorn.Text.Stream.Decimal.{print}
use gorn.Text.Stream.Extract.{NotSpace, IsWord, print-IsWord}
use gorn.Files.{read_loop}
use gorn.Files.Split.{split, split-word, split-space, read_loop-split}
use gorn.Config.{Peer}
use gorn.Config.Files.{url_line, Parsing, url_tokens, add_peer, parse_line}
use gorn.Config.Files.Parsed.{host_token, port_token, IsPlain, url_read, url_tokens-url}

-- What stands behind `<url` in its line.
abbrev pub url_tail : Peer → Bytes
url_tail p = 32 ∷ (host_token p.host_name ++ 32 ∷ (port_token p.port_no ++ 32 ∷ codes "/>"))

abbrev pub line_of : Bytes → Peer → Bytes
line_of blanks p = blanks ++ (codes "<url" ++ url_tail p)

pub url_line-line_of :
    (blanks : Bytes) (p : Peer) (s : Bytes) → url_line blanks p ++ s ≡ line_of blanks p ++ 10 ∷ s
unfolding url_line
url_line-line_of blanks p s = simp append_assoc

host_token-IsWord : (p : Peer) → IsPlain p → IsWord (host_token p.host_name)
host_token-IsWord p h = record {
  nonempty = λ e. cc;
  solid = (
    refl,
    (
      refl,
      (refl, (refl, (refl, (refl, All-append NotSpace p.host_name (39 ∷ []) h.solid (refl, tt))))),
    ),
  );
}

port_token-IsWord : (n : ℕ) → IsWord (port_token n)
port_token-IsWord n = record {
  nonempty = λ e. cc;
  solid = (
    refl,
    (
      refl,
      (
        refl,
        (
          refl,
          (refl, (refl, All-append NotSpace (print n) (39 ∷ []) (print-IsWord n).solid (refl, tt))),
        ),
      ),
    ),
  );
}

split-slash : split [] (codes "/>") ≡ codes "/>" ∷ []
unfolding split
split-slash = refl

tail_words :
    (fuel : ℕ) (old : Bytes) (p : Peer)
    → IsPlain p
    → length (url_tail p) < fuel
    → read_loop fuel old (open_text (url_tail p))
      ≡ host_token p.host_name ∷ port_token p.port_no ∷ codes "/>" ∷ []
tail_words fuel old p h k =
    let host = host_token p.host_name in
    let port = port_token p.port_no in
    read_loop-split fuel old (url_tail p) k
    ∙ (split-space 32 (host ++ 32 ∷ (port ++ 32 ∷ codes "/>")) refl
        ∙ (split-word host (port ++ 32 ∷ codes "/>") (host_token-IsWord p h)
            ∙ ap (λ z. host ∷ z)
                (split-word port (codes "/>") (port_token-IsWord p.port_no)
                  ∙ ap (λ z. port ∷ z) split-slash)))

url_in_url : contains (codes "<url") (codes "url") ≡ true
unfolding find_at starts_with
url_in_url = contains-at (codes "<url") (codes "url") 1 refl

-- The parser takes the peer of a `url` line whose first token is read as `<url`.
parse_line-first :
    (s : Parsing) (line : Bytes) (p : Peer)
    → IsPlain p
    → get_string s.token (open_text line) ≡ (codes "<url", open_text (url_tail p))
    → length (url_tail p) ≤ length line
    → parse_line s line ≡ some (add_peer (url_read s p))
unfolding parse_line
parse_line-first s line p h first fits =
    let ended : Option Parsing → Option Parsing =
      λ o. elim o [ none ↦ none | some s' ↦ some (add_peer s') ] in
    let tokens : List Bytes → Option Parsing =
      λ ws. ended (url_tokens (record s { token = codes "<url" }) ws) in
    let branch : Bool → Option Parsing = λ b.
      if b
      then tokens (read_loop (suc (length line)) (codes "<url") (open_text (url_tail p)))
      else some (record s { token = codes "<url" }) in
    let go : Bytes × Stream → Option Parsing = λ r.
      if contains r.0 (codes "url")
      then ended (url_tokens (record s { token = r.0 }) (read_loop (suc (length line)) r.0 r.1))
      else some (record s { token = r.0 }) in
    ap go first
    ∙ (ap branch url_in_url
        ∙ (ap tokens (tail_words (suc (length line)) (codes "<url") p h (omega arith))
            ∙ ap ended (url_tokens-url (record s { token = codes "<url" }) p h)))

pub parse_line-host :
    (s : Parsing) (p : Peer)
    → IsPlain p
    → parse_line s (line_of (codes "        ") p) ≡ some (add_peer (url_read s p))
unfolding get_string skip_space take_word span_word
parse_line-host s p h = parse_line-first s (line_of (codes "        ") p) p h refl (omega arith)

pub parse_line-link :
    (s : Parsing) (p : Peer)
    → IsPlain p
    → parse_line s (line_of (codes "            ") p) ≡ some (add_peer (url_read s p))
unfolding get_string skip_space take_word span_word
parse_line-link s p h = parse_line-first s (line_of (codes "            ") p) p h refl (omega arith)

pub line_of-NotFeed :
    (blanks : Bytes) (p : Peer) → All NotFeed blanks → IsPlain p → All NotFeed (line_of blanks p)
line_of-NotFeed blanks p b h = All-append NotFeed blanks (codes "<url" ++ url_tail p) b (
  refl,
  (
    refl,
    (
      refl,
      (
        refl,
        (
          refl,
          All-append NotFeed (host_token p.host_name)
              (32 ∷ (port_token p.port_no ++ 32 ∷ codes "/>"))
              (solid-NotFeed (host_token p.host_name) (host_token-IsWord p h).solid)
              (
                refl,
                All-append NotFeed (port_token p.port_no) (32 ∷ codes "/>")
                    (solid-NotFeed (port_token p.port_no) (port_token-IsWord p.port_no).solid)
                    (refl, (refl, (refl, tt))),
              ),
        ),
      ),
    ),
  ),
)
