-- ===== src/Config/Files.antt =====
-- ConfigGenerator/GenerateClusterConfigs.cpp and utils/info.h: the configuration file of a node, as it
-- is written and as it is parsed.
pub mod Lines
pub mod Parsed
pub mod Fixed
pub mod Whole
use gorn.Common.{
  ℕ, zero, suc, ◌+◌, ◌-◌, ◌%◌, ◌^◌, Bool, true, false, Option, none, some, List, [], ◌∷◌, ◌++◌,
  if◌then◌else◌, length,
}
use gorn.Text.{Bytes, codes}
use gorn.Text.Find.{find_text, contains, substr, atoi}
use gorn.Text.Stream.{open_text, get_string}
use gorn.Text.Stream.Decimal.{print}
use gorn.Files.{Disk, lookup, store_at, read_loop}
use gorn.QueueFile.{entries_of_file}
use gorn.Config.{Peer, unset_peer}

-- `<url host='...' port='...' />` behind blanks, and a line feed.
unfoldable pub url_line : Bytes → Peer → Bytes
url_line blanks p =
    blanks
    ++ (codes "<url host='"
        ++ (p.host_name ++ (codes "' port='" ++ (print p.port_no ++ codes "' />\n"))))

unfoldable pub link_lines : List Peer → Bytes
link_lines [] = []
link_lines (p ∷ connections) = url_line (codes "            ") p ++ link_lines connections

-- What `write_config_file` puts into its file.
unfoldable pub config_text : Peer → List Peer → Bytes
config_text host connections =
    codes "<config>\n    <node>\n"
    ++ (url_line (codes "        ") host
        ++ (codes "    </node>\n    <links>\n        <link>\n"
            ++ (link_lines connections ++ codes "        </link>\n    </links>\n</config>\n")))

-- `write_config_file`: a file that cannot be opened is not written.
unfoldable pub write_config_file : Disk → Bytes → Peer → List Peer → Disk
write_config_file d file_name host connections =
    if d.can_open file_name
    then record d { files = store_at file_name (config_text host connections) d.files }
    else d

-- The variables of `parse_config_file`.
pub record Parsing : Type 0 where
  pub token : Bytes
  pub host_name : Bytes
  pub port_no : ℕ
  pub get_host : Bool
  pub host : Peer
  pub connections : List Peer

-- What stands between the first quote of a token and the next.
unfoldable pub quoted : Bytes → Option Bytes
quoted token =
    let start_id = find_text token (39 ∷ []) 0 in
    let behind = (start_id + 1) % 2 ^ 64 in
    let end_id = find_text token (39 ∷ []) behind in
    substr token behind ((end_id + 2 ^ 64 - start_id + 2 ^ 64 - 1) % 2 ^ 64)

-- The two tests on a token of a `url` line.
unfoldable pub set_host : Parsing → Bytes → Option Parsing
set_host s token =
    if contains token (codes "host")
    then elim (quoted token) [ none ↦ none | some name ↦ some (record s { host_name = name }) ]
    else some s

unfoldable pub set_port : Parsing → Bytes → Option Parsing
set_port s token =
    if contains token (codes "port")
    then elim (quoted token) [
      | none ↦ none
      | some text ↦ elim (atoi text) [ none ↦ none | some n ↦ some (record s { port_no = n }) ]
    ]
    else some s

-- `while ( ss >> token )` over the words that are left of the line.
unfoldable pub url_tokens : Parsing → List Bytes → Option Parsing
url_tokens s [] = some s
url_tokens s (token ∷ tokens) = elim (set_host (record s { token = token }) token) [
  | none ↦ none
  | some s' ↦ elim (set_port s' token) [ none ↦ none | some s'' ↦ url_tokens s'' tokens ]
]

-- The end of a `url` line: the first peer is the host.
unfoldable pub add_peer : Parsing → Parsing
add_peer s =
    let p : Peer = record { host_name = s.host_name; port_no = s.port_no } in
    if s.get_host
    then record s { connections = s.connections ++ p ∷ [] }
    else record s { get_host = true; host = p }

unfoldable pub parse_line : Parsing → Bytes → Option Parsing
parse_line s line =
    let (token, ss) = get_string s.token (open_text line) in
    if contains token (codes "url")
    then elim (url_tokens (record s { token = token }) (read_loop (suc (length line)) token ss)) [
      | none ↦ none
      | some s' ↦ some (add_peer s')
    ]
    else some (record s { token = token })

unfoldable pub parse_lines : Parsing → List Bytes → Option Parsing
parse_lines s [] = some s
parse_lines s (line ∷ lines) = elim (parse_line s line) [
  | none ↦ none
  | some s' ↦ parse_lines s' lines
]

abbrev pub parse_start : Peer → List Peer → Parsing
parse_start host connections = record {
  token = [];
  host_name = [];
  port_no = 2 ^ 64 - 1;
  get_host = false;
  host = host;
  connections = connections;
}

-- `parse_config_file` on a file that is there; `none` where it throws or its `atoi` is undefined.
unfoldable pub parse_config : Peer → List Peer → Bytes → Option Parsing
parse_config host connections s = elim (entries_of_file (λ line. line) s) [
  | none ↦ none
  | some lines ↦ parse_lines (parse_start host connections) lines
]

-- `parse_config_file`: without the file an error is printed, and nothing is set.
unfoldable pub parse_config_file : Disk → Bytes → Peer → List Peer → Option (Peer × List Peer)
unfolding lookup
parse_config_file d file_name host connections = elim (lookup file_name d.files) [
  | none ↦ some (host, connections)
  | some s ↦ elim (parse_config host connections s) [
    | none ↦ none
    | some r ↦ some (r.host, r.connections)
  ]
]
