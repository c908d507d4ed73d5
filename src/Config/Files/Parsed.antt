-- ===== src/Config/Files/Parsed.antt =====
-- utils/info.h: `parse_config_file` on what `write_config_file` writes.
use gorn.Common.{
  ℕ, ◌+◌, ◌-◌, ◌%◌, ◌^◌, ◌<◌, ◌≡◌, refl, ap, ◌∙◌, Bool, true, false, Option, none, some, List, [],
  ◌∷◌, ◌++◌, arith, ◌==◌, if◌then◌else◌, length, All, All-append, All-imp,
}
use gorn.Text.{Bytes, codes}
use gorn.Text.Find.{npos, starts_with, find_at, find_text, contains, substr, atoi}
use gorn.Text.Find.Quotes.{
  Without, find_at-none, substr-part, find_text-next, find_text-zero, contains-at, atoi-print,
}
use gorn.Text.Stream.Decimal.{print, IsDigit, print-All, print-length}
use gorn.Text.Stream.Extract.{NotSpace}
use gorn.Config.{Peer}
use gorn.Config.Files.{Parsing, quoted, set_host, set_port, url_tokens}

-- The two tokens of a `url` line.
abbrev pub host_token : Bytes → Bytes
host_token name = codes "host='" ++ (name ++ 39 ∷ [])

abbrev pub port_token : ℕ → Bytes
port_token n = codes "port='" ++ (print n ++ 39 ∷ [])

-- A peer that the file can hold: a name with no white space and no quote, in which the parser finds
-- no port, and a port that fits an `int`.
pub record IsPlain (p : Peer) : Type 0 where
  pub solid : All NotSpace p.host_name
  pub no_quote : Without 39 p.host_name
  pub no_port : contains (host_token p.host_name) (codes "port") ≡ false
  pub short : length p.host_name < 2 ^ 64
  pub small : p.port_no < 2 ^ 31

part_size : (n : ℕ) → n < 2 ^ 64 → (6 + n + 2 ^ 64 - 5 + 2 ^ 64 - 1) % 2 ^ 64 ≡ n
part_size n h = omega arith

quoted-part :
    (token w : Bytes)
    → find_text token (39 ∷ []) 0 ≡ 5
    → length w < 2 ^ 64
    → substr token 6 (length w) ≡ some w
    → find_text token (39 ∷ []) 6 ≡ 6 + length w
    → quoted token ≡ some w
unfolding quoted
quoted-part token w start short part end =
    let at : ℕ → Option Bytes = λ s.
      substr token ((s + 1) % 2 ^ 64)
        ((find_text token (39 ∷ []) ((s + 1) % 2 ^ 64) + 2 ^ 64 - s + 2 ^ 64 - 1) % 2 ^ 64) in
    ap at start
    ∙ (ap (λ z. substr token 6 ((z + 2 ^ 64 - 5 + 2 ^ 64 - 1) % 2 ^ 64)) end
        ∙ (ap (λ k. substr token 6 k) (part_size (length w) short) ∙ part))

quoted-host_token :
    (name : Bytes) → Without 39 name → length name < 2 ^ 64 → quoted (host_token name) ≡ some name
unfolding find_at starts_with
quoted-host_token name h short =
    quoted-part (host_token name) name (find_text-zero (host_token name) (39 ∷ [])) short
      (substr-part 39 6 (length name) (host_token name) name refl (omega arith) refl)
      (find_text-next 39 6 (host_token name) name refl (omega arith) h)

print-short : (n : ℕ) → n < 2 ^ 31 → length (print n) < 2 ^ 64
print-short n h = omega (arith, print-length n)

quoted-port_token : (n : ℕ) → length (print n) < 2 ^ 64 → quoted (port_token n) ≡ some (print n)
unfolding find_at starts_with
quoted-port_token n short =
    quoted-part (port_token n) (print n) (find_text-zero (port_token n) (39 ∷ [])) short
      (substr-part 39 6 (length (print n)) (port_token n) (print n) refl (omega arith) refl)
      (find_text-next 39 6 (port_token n) (print n) refl (omega arith)
        (All-imp IsDigit (λ c. (c == 39) ≡ false) no_quote_digit (print n) (print-All n)))
  where
    no_quote_digit : (c : ℕ) → IsDigit c → (c == 39) ≡ false
    no_quote_digit c h = ground arith

host_in_host : (name : Bytes) → contains (host_token name) (codes "host") ≡ true
unfolding find_at starts_with
host_in_host name = contains-at (host_token name) (codes "host") 0 refl

port_in_port : (n : ℕ) → contains (port_token n) (codes "port") ≡ true
unfolding find_at starts_with
port_in_port n = contains-at (port_token n) (codes "port") 0 refl

host_in_port : (n : ℕ) → contains (port_token n) (codes "host") ≡ false
unfolding find_at starts_with
host_in_port n = contains-at (port_token n) (codes "host") npos (
    find_at-none b'h' (codes "ost") (print n ++ 39 ∷ []) 6 (
      All-append (λ c. (c == b'h') ≡ false) (print n) (39 ∷ [])
        (All-imp IsDigit (λ c. (c == b'h') ≡ false) no_h_digit (print n) (print-All n)) (refl, tt)))
  where
    no_h_digit : (c : ℕ) → IsDigit c → (c == b'h') ≡ false
    no_h_digit c h = ground arith

set_host-yes :
    (s : Parsing) (token name : Bytes)
    → contains token (codes "host") ≡ true
    → quoted token ≡ some name
    → set_host s token ≡ some (record s { host_name = name })
unfolding set_host
set_host-yes s token name e q =
    let of : Option Bytes → Option Parsing =
      λ o. elim o [ none ↦ none | some n ↦ some (record s { host_name = n }) ] in
    let go : Bool → Option Parsing = λ b. if b then of (quoted token) else some s in
    ap go e ∙ ap of q

set_host-no :
    (s : Parsing) (token : Bytes)
    → contains token (codes "host") ≡ false
    → set_host s token ≡ some s
unfolding set_host
set_host-no s token e =
    let of : Option Bytes → Option Parsing =
      λ o. elim o [ none ↦ none | some n ↦ some (record s { host_name = n }) ] in
    let go : Bool → Option Parsing = λ b. if b then of (quoted token) else some s in ap go e

set_port-yes :
    (s : Parsing) (token text : Bytes) (n : ℕ)
    → contains token (codes "port") ≡ true
    → quoted token ≡ some text
    → atoi text ≡ some n
    → set_port s token ≡ some (record s { port_no = n })
unfolding set_port
set_port-yes s token text n e q a =
    let number : Option ℕ → Option Parsing =
      λ o. elim o [ none ↦ none | some n' ↦ some (record s { port_no = n' }) ] in
    let of : Option Bytes → Option Parsing =
      λ o. elim o [ none ↦ none | some t ↦ number (atoi t) ] in
    let go : Bool → Option Parsing = λ b. if b then of (quoted token) else some s in
    ap go e ∙ (ap of q ∙ ap number a)

set_port-no :
    (s : Parsing) (token : Bytes)
    → contains token (codes "port") ≡ false
    → set_port s token ≡ some s
unfolding set_port
set_port-no s token e =
    let number : Option ℕ → Option Parsing =
      λ o. elim o [ none ↦ none | some n' ↦ some (record s { port_no = n' }) ] in
    let of : Option Bytes → Option Parsing =
      λ o. elim o [ none ↦ none | some t ↦ number (atoi t) ] in
    let go : Bool → Option Parsing = λ b. if b then of (quoted token) else some s in ap go e

url_tokens-step :
    (s s' s'' : Parsing) (token : Bytes) (tokens : List Bytes)
    → set_host (record s { token = token }) token ≡ some s'
    → set_port s' token ≡ some s''
    → url_tokens s (token ∷ tokens) ≡ url_tokens s'' tokens
unfolding url_tokens
url_tokens-step s s' s'' token tokens e f =
    let second : Option Parsing → Option Parsing =
      λ o. elim o [ none ↦ none | some t ↦ url_tokens t tokens ] in
    let first : Option Parsing → Option Parsing =
      λ o. elim o [ none ↦ none | some t ↦ second (set_port t token) ] in
    ap first e ∙ ap second f

url_tokens-end : (s : Parsing) → url_tokens s [] ≡ some s
unfolding url_tokens
url_tokens-end s = refl

slash_plain : (t : Bytes) → find_at t (codes "/>") 0 ≡ npos → contains (codes "/>") t ≡ false
slash_plain t e = contains-at (codes "/>") t npos e

slash_no_host : contains (codes "/>") (codes "host") ≡ false
unfolding find_at starts_with
slash_no_host = slash_plain (codes "host") refl

slash_no_port : contains (codes "/>") (codes "port") ≡ false
unfolding find_at starts_with
slash_no_port = slash_plain (codes "port") refl

-- What the tokens of a `url` line leave.
abbrev pub url_read : Parsing → Peer → Parsing
url_read s p = record s { token = codes "/>"; host_name = p.host_name; port_no = p.port_no }

pub url_tokens-url :
    (s : Parsing) (p : Peer)
    → IsPlain p
    → url_tokens s (host_token p.host_name ∷ port_token p.port_no ∷ codes "/>" ∷ [])
      ≡ some (url_read s p)
url_tokens-url s p h =
    let host = host_token p.host_name in
    let port = port_token p.port_no in
    let s₁ : Parsing = record s { token = host; host_name = p.host_name } in
    let s₂ : Parsing = record s₁ { token = port; port_no = p.port_no } in
    url_tokens-step s s₁ s₁ host (port ∷ codes "/>" ∷ [])
      (set_host-yes (record s { token = host }) host p.host_name (host_in_host p.host_name)
        (quoted-host_token p.host_name h.no_quote h.short))
      (set_port-no s₁ host h.no_port)
    ∙ (url_tokens-step s₁ (record s₁ { token = port }) s₂ port (codes "/>" ∷ [])
          (set_host-no (record s₁ { token = port }) port (host_in_port p.port_no))
          (set_port-yes (record s₁ { token = port }) port (print p.port_no) p.port_no
            (port_in_port p.port_no) (quoted-port_token p.port_no (print-short p.port_no h.small))
            (atoi-print p.port_no h.small))
        ∙ (url_tokens-step s₂ (url_read s p) (url_read s p) (codes "/>") []
              (set_host-no (url_read s p) (codes "/>") slash_no_host)
              (set_port-no (url_read s p) (codes "/>") slash_no_port)
            ∙ url_tokens-end (url_read s p)))
