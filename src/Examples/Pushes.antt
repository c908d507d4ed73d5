-- ===== src/Examples/Pushes.antt =====
-- The client pushes a file of two lines.
use gorn.Common.{◌+◌, ◌≡◌, ◌≢◌, refl, true, some, List, [], ◌∷◌, ◌++◌, map, length, All}
use gorn.Text.{Bytes, codes}
use gorn.Text.Order.{eq_text}
use gorn.Text.Stream.{open_text, get_string, take_word, span_word, skip_space}
use gorn.Text.Stream.Extract.{IsWord}
use gorn.Status.Files.Lines.{is_solid-All}
use gorn.Config.{Peer}
use gorn.QueueFile.Loops.{lines_text, identity}
use gorn.Text.Stream.Decimal.{print}
use gorn.Status.Request.{requested_by}
use gorn.Message.{store, find, get_type, extract_type, get_system_status_type}
use gorn.Files.{Disk, lookup, words, delimited}
use gorn.Batches.Sent.{read_text}
use gorn.Client.{read_tokens, push_data_thread, push_loop, take_batch, ping_thread}
use gorn.Client.Prompt.{send, loaded, load, push, on_command, obey, do_line, prompt}
use gorn.Client.Prompt.Commands.{line_of, command_words, do_line-commands}
use gorn.Client.Prompt.AtEnd.{replicate, prompt-repeats}
use gorn.Client.Push.{IsBatched}

abbrev page_disk : Disk
page_disk = record { files = (codes "page", codes "a bb\n\n c\n") ∷ []; can_open = λ p. true }

page_there : lookup (codes "page") page_disk.files ≡ some (codes "a bb\n\n c\n")
unfolding lookup eq_text
page_there = refl

abbrev host : Peer
host = record { host_name = codes "localhost"; port_no = 34000 }

page-IsWord : IsWord (codes "page")
page-IsWord = record { nonempty = λ e. cc; solid = is_solid-All (codes "page") refl }

host-IsWord : IsWord (codes "localhost")
host-IsWord = record { nonempty = λ e. cc; solid = is_solid-All (codes "localhost") refl }

do_line-commands_example :
    ((text : Bytes) × (do_line page_disk host (line_of (codes "find") (codes "page"))
        ≡ some (send (codes "page" ∷ text ∷ []) ∷ []))
      × (extract_type 7 text ≡ get_type find)
      × (read_text 7 find text ≡ codes "page" ∷ []))
    × (do_line page_disk host (line_of (codes "load") (codes "page"))
        ≡ some (loaded (delimited 32 (words (codes "a bb\n\n c\n"))) ∷ []))
    × ((texts : List Bytes) × (do_line page_disk host (line_of (codes "push") (codes "page"))
          ≡ some (send texts ∷ []))
        × IsBatched (words (codes "a bb\n\n c\n")) (map (read_text 7 store) texts))
    × ((text : Bytes) × (do_line page_disk host (line_of (codes "status") (codes "page"))
          ≡ some (send (text ∷ []) ∷ []))
        × (extract_type 7 text ≡ get_system_status_type)
        × (requested_by text ≡ (codes "localhost", print 34000)))
    × ((c : Bytes)
        → IsWord c
        → All (λ w. c ≢ w) command_words
        → do_line page_disk host (line_of c (codes "page")) ≡ some [])
do_line-commands_example =
    do_line-commands 7 page_disk host (codes "page") (codes "a bb\n\n c\n") host-IsWord page-IsWord
      page_there

ping_line : do_line page_disk host (codes "ping") ≡ some (send (ping_thread ∷ []) ∷ [])
unfolding do_line get_string take_word span_word skip_space obey on_command load push read_tokens
    eq_text lookup push_data_thread push_loop take_batch
ping_line = refl

empty_line : do_line page_disk host [] ≡ some []
unfolding do_line get_string take_word span_word skip_space obey on_command load push read_tokens
    eq_text lookup push_data_thread push_loop take_batch
empty_line = refl

-- A last line with no line feed is obeyed again and again, here three times.
prompt-repeats_example :
    prompt page_disk host
      (length {A = Bytes} ([] ∷ []) + 3)
      []
      (open_text (lines_text identity ([] ∷ []) ++ codes "ping"))
    ≡ some (([] ∷ []) ++ replicate 3 (send (ping_thread ∷ []) ∷ []))
prompt-repeats_example =
    prompt-repeats page_disk host ([] ∷ []) (codes "ping") [] ([] ∷ [])
      (send (ping_thread ∷ []) ∷ []) 2 (tt, tt) (refl, (refl, (refl, (refl, tt)))) (empty_line, tt)
      ping_line
