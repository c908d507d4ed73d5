-- ===== src/Client/Prompt/Commands.antt =====
-- What the prompt does with a line.
use gorn.Common.{
  ℕ, ◌≡◌, ◌≢◌, refl, ap, ◌∙◌, true, false, Option, some, List, [], ◌∷◌, ◌++◌, map, All, arith,
}
use gorn.Text.{Bytes, codes}
use gorn.Text.Order.{eq_text, eq_text_iff}
use gorn.Text.Stream.{Stream, get_string}
use gorn.Text.Stream.Extract.{IsWord, get_string-word, get_string-space, get_string-whole}
use gorn.Config.{Peer}
use gorn.Files.{Disk, lookup, words, delimited}
use gorn.Status.Files.Lines.{is_solid, is_solid-All}
use gorn.Message.{store, find, get_type, serialize, extract_type, get_system_status_type}
use gorn.Message.RoundTrip.{extract_type-serialize, set_data_lem}
use gorn.Batches.{batch_text}
use gorn.Text.Stream.Decimal.{print}
use gorn.Status.Request.{requested_by}
use gorn.Status.Request.Answered.{request_type, requested_by-request}
use gorn.Batches.Sent.{read_text, read_text-batch}
use gorn.Client.{read_tokens, push_data_thread, find_data_thread, request_status_thread}
use gorn.Client.Push.{IsBatched, push_file, read_tokens-words}
use gorn.Client.Prompt.{Action, loaded, send, load, push, on_command, obey, do_line}

-- A command and its argument.
abbrev pub line_of : Bytes → Bytes → Bytes
line_of command argument = command ++ 32 ∷ argument

do_line-line_of :
    (d : Disk) (host : Peer) (c a : Bytes)
    → IsWord c
    → IsWord a
    → do_line d host (line_of c a) ≡ obey d host c a
unfolding do_line
do_line-line_of d host c a h k =
    let go : Bytes × Stream → Option (List Action) = λ r. obey d host r.0 (get_string [] r.1).0 in
    ap go (get_string-word [] c a h)
    ∙ ap (obey d host c)
        (ap (λ (r : Bytes × Stream). r.0) (get_string-space [] a) ∙ get_string-whole [] a k)

command-IsWord : (c : ℕ) (w : Bytes) → is_solid (c ∷ w) ≡ true → IsWord (c ∷ w)
command-IsWord c w h = record { nonempty = λ e. cc; solid = is_solid-All (c ∷ w) h }

module _ (d : Disk) (host : Peer) (a : Bytes) where
  obey-find : obey d host (codes "find") a ≡ some (send (find_data_thread a) ∷ [])
  unfolding obey on_command eq_text
  obey-find = refl

  obey-load :
      (text : Bytes)
      → read_tokens d a ≡ some text
      → obey d host (codes "load") a ≡ some (loaded text ∷ [])
  unfolding obey on_command eq_text load
  obey-load text e = rw e

  obey-push :
      (text : Bytes) (texts : List Bytes)
      → read_tokens d a ≡ some text
      → push_data_thread text ≡ some texts
      → obey d host (codes "push") a ≡ some (send texts ∷ [])
  unfolding obey on_command eq_text push
  obey-push text texts e f = rw (e, f)

  obey-status : obey d host (codes "status") a ≡ some (send (request_status_thread host ∷ []) ∷ [])
  unfolding obey on_command eq_text
  obey-status = refl

abbrev pub command_words : List Bytes
command_words =
    codes "load" ∷ codes "ping" ∷ codes "push" ∷ codes "test" ∷ codes "find" ∷ codes "status" ∷ []

on_command-other :
    (c word : Bytes) (actions others : Option (List Action))
    → c ≢ word
    → on_command c word actions others ≡ others
unfolding on_command
on_command-other c word actions others h =
    let test : eq_text c word ≡ false = ground (arith, eq_text_iff c word) in rw test

obey-other :
    (d : Disk) (host : Peer) (c a : Bytes)
    → All (λ w. c ≢ w) command_words
    → obey d host c a ≡ some []
unfolding obey
obey-other d host c a (h₁, (h₂, (h₃, (h₄, (h₅, (h₆, _)))))) =
    on_command-other c (codes "load") _ _ h₁
    ∙ (on_command-other c (codes "ping") _ _ h₂
        ∙ (on_command-other c (codes "push") _ _ h₃
            ∙ (on_command-other c (codes "test") _ _ h₄
                ∙ (on_command-other c (codes "find") _ _ h₅
                    ∙ on_command-other c (codes "status") _ _ h₆))))

-- What a peer reads from the texts of `find`: the bare word, and a find message whose one item it is.
find_texts :
    (unset : ℕ) (a : Bytes)
    → IsWord a
    → (text : Bytes) × (find_data_thread a ≡ a ∷ text ∷ [])
      × (extract_type unset text ≡ get_type find)
      × (read_text unset find text ≡ a ∷ [])
unfolding find_data_thread
find_texts unset a h = (
  batch_text find (a ∷ []),
  refl,
  ap (λ z. extract_type unset (serialize find z 0 1)) (set_data_lem [] (a ∷ []))
      ∙ extract_type-serialize unset find (a ∷ []) 0 1,
  read_text-batch unset find (a ∷ []) ((h, tt), omega arith),
)

-- A line of a command and one word: `find` sends the word and a find message whose one item it is;
-- `load` and `push` read the file of that name, and `push` sends store messages whose items are its
-- words, all but the last with 100; `status` sends a request for the status, from which a node reads
-- the client's host and port, if the host is one word; and a word that is no command does nothing.
pub do_line-commands :
    (unset : ℕ) (d : Disk) (host : Peer) (a s : Bytes)
    → IsWord host.host_name
    → IsWord a
    → lookup a d.files ≡ some s
    → ((text : Bytes) × (do_line d host (line_of (codes "find") a)
          ≡ some (send (a ∷ text ∷ []) ∷ []))
        × (extract_type unset text ≡ get_type find)
        × (read_text unset find text ≡ a ∷ []))
      × (do_line d host (line_of (codes "load") a) ≡ some (loaded (delimited 32 (words s)) ∷ []))
      × ((texts : List Bytes) × (do_line d host (line_of (codes "push") a) ≡ some (send texts ∷ []))
          × IsBatched (words s) (map (read_text unset store) texts))
      × ((text : Bytes) × (do_line d host (line_of (codes "status") a)
            ≡ some (send (text ∷ []) ∷ []))
          × (extract_type unset text ≡ get_system_status_type)
          × (requested_by text ≡ (host.host_name, print host.port_no)))
      × ((c : Bytes)
          → IsWord c
          → All (λ w. c ≢ w) command_words
          → do_line d host (line_of c a) ≡ some [])
do_line-commands unset d host a s named h there =
    let (text, texts, tokens, pushed, batched) = push_file unset d a s there in
    let (found, sends, kind, items) = find_texts unset a h in
    let line : (c : ℕ) (w : Bytes)
        → is_solid (c ∷ w) ≡ true
        → do_line d host (line_of (c ∷ w) a) ≡ obey d host (c ∷ w) a =
      λ c w e. do_line-line_of d host (c ∷ w) a (command-IsWord c w e) h in
    (
      (
        found,
        line b'f' (codes "ind") refl ∙ (obey-find d host a ∙ ap (λ z. some (send z ∷ [])) sends),
        kind,
        items,
      ),
      line b'l' (codes "oad") refl
          ∙ obey-load d host a (delimited 32 (words s)) (read_tokens-words d a s there),
      (texts, line b'p' (codes "ush") refl ∙ obey-push d host a text texts tokens pushed, batched),
      (
        request_status_thread host,
        line b's' (codes "tatus") refl ∙ obey-status d host a,
        request_type unset host,
        requested_by-request host named,
      ),
      λ c k other. do_line-line_of d host c a k h ∙ obey-other d host c a other,
    )
