-- ===== src/Config/Generate.antt =====
-- ConfigGenerator/GenerateClusterConfigs.cpp: `main` writes a configuration file for each node.
pub mod Parsed
use gorn.Common.{
  ℕ, zero, suc, ◌+◌, ◌^◌, Option, none, some, List, [], ◌∷◌, ◌++◌, ltb, if◌then◌else◌, ◌==◌, length,
}
use gorn.Text.{Bytes, codes}
use gorn.Text.Find.{atoi}
use gorn.Text.Stream.Decimal.{print}
use gorn.Files.{Disk}
use gorn.Config.{connections_of, host_of}
use gorn.Config.Files.{write_config_file}

abbrev pub node_file : ℕ → Bytes
node_file k = codes "node" ++ (print k ++ codes ".xml")

-- `for ( k(0) ; k < num_nodes ; ++k )`, with fuel.
unfoldable pub write_nodes : ℕ → ℕ → ℕ → ℕ → Disk → Disk
write_nodes zero k num_nodes port_root d = d
write_nodes (suc fuel) k num_nodes port_root d =
    let d' =
      write_config_file d (node_file k) (host_of port_root k)
        (connections_of num_nodes port_root k) in
    let rest = write_nodes fuel (k + 1) num_nodes port_root d' in
    if ltb k num_nodes then rest else d

-- Past 2 ^ 63 nodes, a negative argument, the loop over the links never ends.
unfoldable pub generate : ℕ → ℕ → Disk → Option (ℕ × Disk)
generate num_nodes port_root d =
    let d' = write_nodes num_nodes 0 num_nodes port_root d in
    if ltb (2 ^ 63) num_nodes then none else some (0, d')

-- `main`: the value it returns and the files; `none` where `atoi` is undefined or a loop never ends.
unfoldable pub main : Disk → List Bytes → Option (ℕ × Disk)
main d (program ∷ num_nodes ∷ port_root ∷ []) = elim (atoi num_nodes) [
  | none ↦ none
  | some n ↦ elim (atoi port_root) [ none ↦ none | some r ↦ generate n r d ]
]
main d argv = some (1, d)
