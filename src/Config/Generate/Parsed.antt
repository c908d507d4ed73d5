-- ===== src/Config/Generate/Parsed.antt =====
-- Each file that the generator writes gives its node its host and its links.
use gorn.Common.{
  ℕ, zero, suc, ◌+◌, ◌*◌, ◌%◌, ◌^◌, ◌≤◌, ◌<◌, ◌≡◌, refl, sym, ap, subst, ◌∙◌, inl, inr, Bool, true,
  false, Option, none, some, List, [], ◌∷◌, ◌++◌, arith, ltb, ◌==◌, if◌then◌else◌, All, Bool-cases,
}
use gorn.Text.{Bytes, codes}
use gorn.Text.Order.{eq_text, eq_text_iff, eq_text_refl}
use gorn.Text.Find.{npos, find_at, starts_with, atoi}
use gorn.Text.Find.Quotes.{contains-at, atoi-print}
use gorn.Text.Stream.{span_digits}
use gorn.Text.Stream.Decimal.{print}
use gorn.Text.Stream.Extract.{span_digits-print_dot}
use gorn.Files.{Disk, lookup}
use gorn.Files.ReadWrite.{lookup-store_at}
use gorn.Config.{Peer, localhost, links_loop, connections_of, host_of}
use gorn.Config.Files.{config_text, write_config_file, Parsing, parse_config, parse_config_file}
use gorn.Config.Files.Parsed.{IsPlain, host_token}
use gorn.Config.Files.Whole.{parse_config-config_text}
use gorn.Config.Generate.{node_file, write_nodes, generate, main}

-- Two nodes have two files.
abbrev digits_of : Bytes → ℕ
digits_of (a ∷ b ∷ c ∷ d ∷ s) = (span_digits s 0).0
digits_of s = 0

node_file-injective : (j k : ℕ) → node_file j ≡ node_file k → j ≡ k
node_file-injective j k e =
    sym (span_digits-print_dot j (codes "xml"))
    ∙ (ap digits_of e ∙ span_digits-print_dot k (codes "xml"))

node_file-differ : (j k : ℕ) → j < k → eq_text (node_file j) (node_file k) ≡ false
node_file-differ j k h =
    ground (arith, eq_text_iff (node_file j) (node_file k), node_file-injective j k)

-- The peers of the generator can be held by the file.
local-IsPlain : (n : ℕ) → n < 2 ^ 31 → IsPlain (record { host_name = localhost; port_no = n })
unfolding find_at starts_with
local-IsPlain n h = record {
  solid = (refl, (refl, (refl, (refl, (refl, (refl, (refl, (refl, (refl, tt)))))))));
  no_quote = (refl, (refl, (refl, (refl, (refl, (refl, (refl, (refl, (refl, tt)))))))));
  no_port = contains-at (host_token localhost) (codes "port") npos refl;
  short = omega arith;
  small = h;
}

port_small : (n r x : ℕ) → 0 < n → n + r ≤ 2 ^ 31 → (r + x % n) % 2 ^ 64 < 2 ^ 31
port_small n r x p h = omega (arith)

links_loop-IsPlain :
    (fuel offset n r k : ℕ) → 0 < n → n + r ≤ 2 ^ 31 → All IsPlain (links_loop fuel offset n r k)
unfolding links_loop
links_loop-IsPlain zero offset n r k p h = tt
links_loop-IsPlain (suc fuel) offset n r k p h =
    let rest = links_loop-IsPlain fuel (offset * 2 % 2 ^ 64) n r k p h in
    let first =
      local-IsPlain ((r + (k + offset) % 2 ^ 64 % n) % 2 ^ 64)
        (port_small n r ((k + offset) % 2 ^ 64) p h) in
    elim (Bool-cases (ltb offset n)) [ inl e ↦ rw e (first, rest) | inr e ↦ rw e tt ]

connections_of-IsPlain : (n r k : ℕ) → 0 < n → n + r ≤ 2 ^ 31 → All IsPlain (connections_of n r k)
unfolding connections_of
connections_of-IsPlain n r k p h = links_loop-IsPlain 64 1 n r k p h

module _ (d : Disk) (p : Bytes) (host : Peer) (cs : List Peer) (can : d.can_open p ≡ true) where
  write_config_file-opens : (write_config_file d p host cs).can_open ≡ d.can_open
  unfolding write_config_file
  write_config_file-opens = rw can

  lookup-write_config_file :
      (q : Bytes)
      → lookup q (write_config_file d p host cs).files
        ≡ (if eq_text q p then some (config_text host cs) else lookup q d.files)
  unfolding write_config_file
  lookup-write_config_file q = rw can (lookup-store_at p q (config_text host cs) d.files)

-- Every file of a node can be opened.
abbrev Opens : (Bytes → Bool) → Type 0
Opens can_open = (k : ℕ) → can_open (node_file k) ≡ true

module _ (n r : ℕ) where
  -- The disk behind the first of the nodes.
  abbrev after_node : Disk → ℕ → Disk
  after_node d k = write_config_file d (node_file k) (host_of r k) (connections_of n r k)

  after_node-Opens : (d : Disk) (k : ℕ) → Opens d.can_open → Opens (after_node d k).can_open
  after_node-Opens d k h j =
      ap (λ (c : Bytes → Bool). c (node_file j))
        (write_config_file-opens d (node_file k) (host_of r k) (connections_of n r k) (h k))
      ∙ h j

  lookup-after_node :
      (d : Disk) (k j : ℕ)
      → Opens d.can_open
      → lookup (node_file j) (after_node d k).files ≡ (
          if eq_text (node_file j) (node_file k)
          then some (config_text (host_of r k) (connections_of n r k))
          else lookup (node_file j) d.files)
  lookup-after_node d k j h =
      lookup-write_config_file d (node_file k) (host_of r k) (connections_of n r k) (h k)
        (node_file j)

  lookup-after_node_same :
      (d : Disk) (k : ℕ)
      → Opens d.can_open
      → lookup (node_file k) (after_node d k).files
        ≡ some (config_text (host_of r k) (connections_of n r k))
  lookup-after_node_same d k h = lookup-after_node d k k h ∙ rw (eq_text_refl (node_file k))

  -- The loop from node `k` on leaves the files of the nodes before it.
  lookup-write_nodes_before :
      (fuel k j : ℕ) (d : Disk)
      → Opens d.can_open
      → j < k
      → lookup (node_file j) (write_nodes fuel k n r d).files ≡ lookup (node_file j) d.files
  unfolding write_nodes
  lookup-write_nodes_before zero k j d h e = refl
  lookup-write_nodes_before (suc fuel) k j d h e = elim (Bool-cases (ltb k n)) [
    | inl c ↦ rw c (
        lookup-write_nodes_before fuel (k + 1) j (after_node d k) (after_node-Opens d k h)
          (omega arith)
        ∙ (lookup-after_node d k j h ∙ rw (node_file-differ j k e)))
    | inr c ↦ rw c
  ]

  lookup-write_nodes :
      (fuel k j : ℕ) (d : Disk)
      → Opens d.can_open
      → k ≤ j
      → j < n
      → n ≤ k + fuel
      → lookup (node_file j) (write_nodes fuel k n r d).files
        ≡ some (config_text (host_of r j) (connections_of n r j))
  unfolding write_nodes
  lookup-write_nodes zero k j d h e below enough = absurd (omega arith)
  lookup-write_nodes (suc fuel) k j d h e below enough =
      let c : ltb k n ≡ true = ground arith in
      let opens = after_node-Opens d k h in
      elim (Bool-cases (k == j)) [
        | inl same ↦
            let e' : k ≡ j = ground arith in
            rw c (
              lookup-write_nodes_before fuel (k + 1) j (after_node d k) opens (omega arith)
              ∙ subst
                  (λ z.
                    lookup (node_file z) (after_node d k).files
                    ≡ some (config_text (host_of r z) (connections_of n r z)))
                  e' (lookup-after_node_same d k h))
        | inr other ↦
            let later : k + 1 ≤ j = ground arith in
            rw c
              (lookup-write_nodes fuel (k + 1) j (after_node d k) opens later below (omega arith))
      ]

parse_config_file-there :
    (d : Disk) (p : Bytes) (old host : Peer) (cs ps : List Peer)
    → lookup p d.files ≡ some (config_text host ps)
    → IsPlain host
    → All IsPlain ps
    → parse_config_file d p old cs ≡ some (host, cs ++ ps)
unfolding parse_config_file
parse_config_file-there d p old host cs ps there plain all =
    let (s, parsed, same_host, links) = parse_config-config_text old host cs ps plain all in
    let of : Option Parsing → Option (Peer × List Peer) =
      λ o. elim o [ none ↦ none | some t ↦ some (t.host, t.connections) ] in
    let found : Option Bytes → Option (Peer × List Peer) =
      λ o. elim o [ none ↦ some (old, cs) | some t ↦ of (parse_config old cs t) ] in
    ap found there ∙ (ap of parsed ∙ (λ i. some (same_host i, links i)))

-- On the numbers `n` and `r` with `n` below and `n + r` at most 2 ^ 31, and on a disk that lets each file of a node
-- be opened, `main` of the generator returns 0, and `parse_config_file` on the file of each node
-- below `n` reads the node's host, and behind the connections that the vector held the node's links.
pub main-parsed :
    (d : Disk) (program : Bytes) (n r k : ℕ) (old : Peer) (cs : List Peer)
    → n + r ≤ 2 ^ 31
    → n < 2 ^ 31
    → k < n
    → Opens d.can_open
    → (d' : Disk) × (main d (program ∷ print n ∷ print r ∷ []) ≡ some (0, d'))
      × (parse_config_file d' (node_file k) old cs ≡ some (host_of r k, cs ++ connections_of n r k))
unfolding main generate
main-parsed d program n r k old cs h hn below opens =
    let hr : r < 2 ^ 31 = omega arith in
    let d' = write_nodes n 0 n r d in
    let fits : ltb (2 ^ 63) n ≡ false = ground arith in
    let port : (r + k) % 2 ^ 64 < 2 ^ 31 = omega arith in
    let run : Option ℕ → Option (ℕ × Disk) = λ o. elim o [
      | none ↦ none
      | some a ↦ elim (atoi (print r)) [ none ↦ none | some b ↦ generate a b d ]
    ] in
    let second : Option ℕ → Option (ℕ × Disk) =
      λ o. elim o [ none ↦ none | some b ↦ generate n b d ] in
    let made : Bool → Option (ℕ × Disk) = λ b. if b then none else some (0, d') in
    (
      d',
      ap run (atoi-print n hn) ∙ (ap second (atoi-print r hr) ∙ ap made fits),
      parse_config_file-there d' (node_file k) old (host_of r k) cs (connections_of n r k)
          (lookup-write_nodes n r n 0 k d opens (omega arith) below (omega arith))
          (local-IsPlain ((r + k) % 2 ^ 64) port) (connections_of-IsPlain n r k (omega arith) h),
    )
