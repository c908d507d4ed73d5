-- ===== src/Examples/Configs.antt =====
-- The generator writes the files of three nodes, and node 1 parses its own.
use gorn.Common.{◌≡◌, refl, true, some, [], ◌∷◌, arith}
use gorn.Text.{codes}
use gorn.Text.Find.{find_text, find_at, starts_with, substr, atoi}
use gorn.Text.Stream.{skip_space, span_digits}
use gorn.Text.Stream.Decimal.{print}
use gorn.Files.{Disk}
use gorn.Config.{unset_peer, links_loop, connections_of, host_of}
use gorn.Config.Files.{quoted, parse_config_file}
use gorn.Config.Generate.{node_file, main}
use gorn.Config.Generate.Parsed.{main-parsed}

abbrev no_files : Disk
no_files = record { files = []; can_open = λ p. true }

main-parsed_example :
    (d' : Disk) × (main no_files (codes "generate" ∷ print 3 ∷ print 34000 ∷ []) ≡ some (0, d'))
    × (parse_config_file d' (node_file 1) unset_peer []
        ≡ some (host_of 34000 1, connections_of 3 34000 1))
main-parsed_example =
    main-parsed no_files (codes "generate") 3 34000 1 unset_peer [] (omega arith) (omega arith)
      (omega arith) (λ j. refl)

-- Node 1 of three has links to the nodes 2 and 0.
links_of_node :
    connections_of 3 34000 1
    ≡ record { host_name = codes "localhost"; port_no = 34002 }
      ∷ record { host_name = codes "localhost"; port_no = 34000 }
      ∷ []
unfolding connections_of links_loop
links_of_node = refl

-- A port of -1 is read as 2 ^ 64 - 1, and a token without quotes gives its whole text.
negative_port : atoi (codes "-1") ≡ some 18446744073709551615
unfolding atoi skip_space span_digits
negative_port = refl

no_quotes : quoted (codes "host=a") ≡ some (codes "host=a")
unfolding quoted find_text find_at starts_with substr
no_quotes = refl
