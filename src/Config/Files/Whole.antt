-- ===== src/Config/Files/Whole.antt =====
-- The configuration file that a node is given says what the generator wrote into it.
use gorn.Common.{
  subst, ◌≡◌, refl, sym, ap, ◌∙◌, true, false, Option, none, some, List, [], ◌∷◌, ◌++◌,
  append_assoc, append-nil, arith, All,
}
use gorn.Text.{Bytes, codes}
use gorn.Text.Stream.Lines.{NotFeed}
use gorn.QueueFile.{entries_of_file}
use gorn.QueueFile.Loops.{lines_text, identity, entries_of_file-identity}
use gorn.Config.{Peer}
use gorn.Config.Files.{
  url_line, link_lines, config_text, Parsing, add_peer, parse_lines, parse_start, parse_config,
}
use gorn.Config.Files.Parsed.{IsPlain, url_read}
use gorn.Config.Files.Lines.{
  line_of, url_line-line_of, parse_line-host, parse_line-link, line_of-NotFeed,
}
use gorn.Config.Files.Fixed.{
  parse_lines-step, config_line, node_line, node_end_line, links_line, link_line, link_end_line,
  links_end_line, config_end_line,
}

abbrev link_rows : List Peer → List Bytes
link_rows [] = []
link_rows (p ∷ ps) = line_of (codes "            ") p ∷ link_rows ps

abbrev closing_rows : List Bytes
closing_rows = codes "        </link>" ∷ codes "    </links>" ∷ codes "</config>" ∷ []

abbrev last_rows : List Peer → List Bytes
last_rows connections = link_rows connections ++ closing_rows

abbrev links_rows : List Peer → List Bytes
links_rows connections = codes "    <links>" ∷ codes "        <link>" ∷ last_rows connections

abbrev host_rows : Peer → List Peer → List Bytes
host_rows host connections =
    line_of (codes "        ") host ∷ codes "    </node>" ∷ links_rows connections

abbrev config_rows : Peer → List Peer → List Bytes
config_rows host connections = codes "<config>" ∷ codes "    <node>" ∷ host_rows host connections

link_lines-rows :
    (ps : List Peer) (rows : List Bytes)
    → link_lines ps ++ lines_text identity rows ≡ lines_text identity (link_rows ps ++ rows)
unfolding link_lines
link_lines-rows [] rows = refl
link_lines-rows (p ∷ ps) rows =
    append_assoc (url_line (codes "            ") p) (link_lines ps) (lines_text identity rows)
    ∙ (url_line-line_of (codes "            ") p (link_lines ps ++ lines_text identity rows)
        ∙ ap (λ z. line_of (codes "            ") p ++ 10 ∷ z) (link_lines-rows ps rows))

config_text-rows :
    (host : Peer) (ps : List Peer) → config_text host ps ≡ lines_text identity (config_rows host ps)
unfolding config_text
config_text-rows host ps =
    let front = λ (z : Bytes). codes "<config>\n    <node>\n" ++ z in
    let middle = λ (z : Bytes). codes "    </node>\n    <links>\n        <link>\n" ++ z in
    ap front (
      ap (λ z. url_line (codes "        ") host ++ middle z) (link_lines-rows ps closing_rows)
      ∙ url_line-line_of (codes "        ") host (middle (lines_text identity (last_rows ps))))

link_rows-NotFeed : (ps : List Peer) → All IsPlain ps → All (All NotFeed) (last_rows ps)
link_rows-NotFeed [] h = ground arith
link_rows-NotFeed (p ∷ ps) (q, h) =
    (line_of-NotFeed (codes "            ") p (ground arith) q, link_rows-NotFeed ps h)

-- What parsing came to: the host is set, and the connections.
pub record Holds (host : Peer) (connections : List Peer) (s : Parsing) : Type 0 where
  pub set : s.get_host ≡ true
  pub same_host : s.host ≡ host
  pub links : s.connections ≡ connections

add_peer-Holds :
    (host p : Peer) (cs : List Peer) (s : Parsing)
    → Holds host cs s
    → Holds host (cs ++ p ∷ []) (add_peer (url_read s p))
unfolding add_peer
add_peer-Holds host p cs s h =
    rw (h.set)
      (record { set = refl; same_host = h.same_host; links = ap (λ z. z ++ p ∷ []) h.links })

add_peer-first :
    (host : Peer) (s : Parsing)
    → s.get_host ≡ false
    → Holds host s.connections (add_peer (url_read s host))
unfolding add_peer
add_peer-first host s e = rw e (record { set = refl; same_host = refl; links = refl })

abbrev Comes : Peer → List Peer → Option Parsing → Type 0
Comes host connections o = (s : Parsing) × (o ≡ some s) × Holds host connections s

closing-Comes :
    (host : Peer) (cs : List Peer) (s : Parsing)
    → Holds host cs s
    → Comes host cs (parse_lines s closing_rows)
unfolding parse_lines
closing-Comes host cs s h =
    let s₁ : Parsing = record s { token = codes "</link>" } in
    let s₂ : Parsing = record s { token = codes "</links>" } in
    let s₃ : Parsing = record s { token = codes "</config>" } in
    (
      s₃,
      parse_lines-step s s₁ (codes "        </link>")
            (codes "    </links>" ∷ codes "</config>" ∷ []) (link_end_line s)
          ∙ (parse_lines-step s₁ s₂ (codes "    </links>") (codes "</config>" ∷ [])
                (links_end_line s₁)
              ∙ parse_lines-step s₂ s₃ (codes "</config>") [] (config_end_line s₂)),
      record { set = h.set; same_host = h.same_host; links = h.links },
    )

links-Comes :
    (host : Peer) (ps cs : List Peer) (s : Parsing)
    → All IsPlain ps
    → Holds host cs s
    → Comes host (cs ++ ps) (parse_lines s (last_rows ps))
links-Comes host [] cs s plain h =
    subst (λ z. Comes host z (parse_lines s closing_rows)) (sym (append-nil cs))
      (closing-Comes host cs s h)
links-Comes host (p ∷ ps) cs s (q, plain) h =
    let s₁ = add_peer (url_read s p) in
    let (s₂, parsed, held) =
      links-Comes host ps (cs ++ p ∷ []) s₁ plain (add_peer-Holds host p cs s h) in
    (
      s₂,
      parse_lines-step s s₁ (line_of (codes "            ") p) (last_rows ps)
            (parse_line-link s p q)
          ∙ parsed,
      subst (λ z. Holds host z s₂) (append_assoc cs (p ∷ []) ps) held,
    )

rows-Comes :
    (host : Peer) (ps cs : List Peer) (s : Parsing)
    → IsPlain host
    → All IsPlain ps
    → s.get_host ≡ false
    → s.connections ≡ cs
    → Comes host (cs ++ ps) (parse_lines s (config_rows host ps))
rows-Comes host ps cs s plain all unset links =
    let s₁ : Parsing = record s { token = codes "<config>" } in
    let s₂ : Parsing = record s { token = codes "<node>" } in
    let s₃ = add_peer (url_read s₂ host) in
    let s₄ : Parsing = record s₃ { token = codes "</node>" } in
    let s₅ : Parsing = record s₃ { token = codes "<links>" } in
    let s₆ : Parsing = record s₃ { token = codes "<link>" } in
    let first = add_peer-first host s₂ unset in
    let (s₇, parsed, held) =
      links-Comes host ps cs s₆ all
        (record { set = first.set; same_host = first.same_host; links = first.links ∙ links }) in
    (
      s₇,
      parse_lines-step s s₁ (codes "<config>") (codes "    <node>" ∷ host_rows host ps)
            (config_line s)
          ∙ (parse_lines-step s₁ s₂ (codes "    <node>") (host_rows host ps) (node_line s₁)
              ∙ (parse_lines-step s₂ s₃ (line_of (codes "        ") host)
                    (codes "    </node>" ∷ links_rows ps) (parse_line-host s₂ host plain)
                  ∙ (parse_lines-step s₃ s₄ (codes "    </node>") (links_rows ps) (node_end_line s₃)
                      ∙ (parse_lines-step s₄ s₅ (codes "    <links>")
                            (codes "        <link>" ∷ last_rows ps) (links_line s₄)
                          ∙ (parse_lines-step s₅ s₆ (codes "        <link>") (last_rows ps)
                                (link_line s₅)
                              ∙ parsed))))),
      held,
    )

-- `parse_config_file` on a file that `write_config_file` wrote reads back the host, and the
-- connections in order behind those that the vector held, if each name has no white space, no quote
-- and nothing that the parser takes for a port, and each port fits an `int`.
pub parse_config-config_text :
    (old host : Peer) (cs ps : List Peer)
    → IsPlain host
    → All IsPlain ps
    → (s : Parsing) × (parse_config old cs (config_text host ps) ≡ some s)
      × (s.host ≡ host)
      × (s.connections ≡ cs ++ ps)
unfolding parse_config
parse_config-config_text old host cs ps plain all =
    let rows = config_rows host ps in
    let (s, parsed, held) = rows-Comes host ps cs (parse_start old cs) plain all refl refl in
    let clean : All (All NotFeed) rows = (
      ground arith,
      (
        ground arith,
        (
          line_of-NotFeed (codes "        ") host (ground arith) plain,
          (ground arith, (ground arith, (ground arith, link_rows-NotFeed ps all))),
        ),
      ),
    ) in
    let lines : Option (List Bytes) → Option Parsing =
      λ o. elim o [ none ↦ none | some ls ↦ parse_lines (parse_start old cs) ls ] in
    (
      s,
      ap (λ t. lines (entries_of_file identity t)) (config_text-rows host ps)
          ∙ (ap lines (entries_of_file-identity rows clean) ∙ parsed),
      held.same_host,
      held.links,
    )
