-- ===== src/Daemon.antt =====
-- HashTableDaemon/HashTableDaemon.cpp: the node of the cluster.
pub mod Route
pub mod Consume
use gorn.Common.{
  ℕ, zero, suc, ◌+◌, ◌-◌, ◌*◌, ◌%◌, ◌^◌, Option, none, some, List, [], ◌∷◌, ltb, if◌then◌else◌,
}
use gorn.Config.{Peer}

-- `a - b` on `std::size_t`, then `+ 32` and `% 4`.
abbrev pub gap : ℕ → ℕ → ℕ
gap a b = ((a + 2 ^ 64 - b) % 2 ^ 64 + 32) % 2 ^ 64 % 4

-- The loop of `find_chord_connection` from connection `k` on.
chord_loop : ℕ → ℕ → List Peer → ℕ → Option ℕ
chord_loop host_port index [] k = none
chord_loop host_port index (c ∷ cs) k =
    if ltb (gap index host_port) (2 * gap c.port_no host_port)
    then some k
    else chord_loop host_port index cs (k + 1)

-- `find_chord_connection`, where `none` stands for the -1 that it returns if no connection fits.
unfoldable pub find_chord_connection : ℕ → List Peer → ℕ → Option ℕ
unfolding chord_loop
find_chord_connection host_port connections index = chord_loop host_port index connections 0

-- `node_index = host . port_no % 10`
abbrev pub node_index : ℕ → ℕ
node_index host_port = host_port % 10
