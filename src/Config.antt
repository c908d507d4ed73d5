-- ===== src/Config.antt =====
-- utils/info.h: `host_info` and `connection_info`, two structs with the same fields, and the links
-- that ConfigGenerator/GenerateClusterConfigs.cpp gives each node of a cluster.
pub mod Files
pub mod Generate
use gorn.Common.{ℕ, zero, suc, ◌+◌, ◌-◌, ◌*◌, ◌%◌, ◌^◌, List, [], ◌∷◌, ltb, if◌then◌else◌}
use gorn.Text.{Bytes, codes}

-- A host and its port; the constructors with arguments are the record itself.
pub record Peer : Type 0 where
  pub host_name : Bytes
  pub port_no : ℕ

-- The constructors without arguments: no name, and the port -1 as a `std::size_t`.
abbrev pub unset_peer : Peer
unset_peer = record { host_name = []; port_no = 2 ^ 64 - 1 }

abbrev pub localhost : Bytes
localhost = codes "localhost"

-- `for ( offset(1) ; offset < num_nodes ; offset *= 2 )`, with fuel.
unfoldable pub links_loop : ℕ → ℕ → ℕ → ℕ → ℕ → List Peer
links_loop zero offset num_nodes port_root k = []
links_loop (suc fuel) offset num_nodes port_root k =
    let rest = links_loop fuel (offset * 2 % 2 ^ 64) num_nodes port_root k in
    let port = (port_root + (k + offset) % 2 ^ 64 % num_nodes) % 2 ^ 64 in
    if ltb offset num_nodes then record { host_name = localhost; port_no = port } ∷ rest else []

-- The connections of node `k`: with at most 2 ^ 63 nodes 64 rounds reach the end of the loop.
unfoldable pub connections_of : ℕ → ℕ → ℕ → List Peer
unfolding links_loop
connections_of num_nodes port_root k = links_loop 64 1 num_nodes port_root k

-- The host of node `k`.
abbrev pub host_of : ℕ → ℕ → Peer
host_of port_root k = record { host_name = localhost; port_no = (port_root + k) % 2 ^ 64 }
