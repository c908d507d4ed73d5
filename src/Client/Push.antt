-- ===== src/Client/Push.antt =====
-- ClientInterface/ClientInterface.cpp: `push_data_thread` sends the words of a file.
use gorn.Common.{
  ℕ, zero, suc, ◌≤◌, ◌<◌, ◌≡◌, refl, sym, ap, ◌∙◌, Bool, true, false, Option, none, some, List, [],
  ◌∷◌, ◌++◌, append-nil, arith, if◌then◌else◌, length, length-take, length-drop, take, drop,
  take-append-drop, subst, concat, map, All,
}
use native.Mathlib.Decide.{dec_lt}
use gorn.Text.{Bytes}
use gorn.Text.Stream.{Stream, open_text, ended, get_string}
use gorn.Text.Stream.Extract.{IsWord, get_string-word, get_string-space, get_string-end}
use gorn.Message.{store}
use gorn.Message.RoundTrip.{All-take, All-drop}
use gorn.Files.{Disk, lookup, words, delimited}
use gorn.Files.Words.{words_of-there, words_of-IsWord}
use gorn.Files.ReadWrite.{length-delimited}
use gorn.Batches.{batch_count, batch_text}
use gorn.Batches.Sent.{read_text, read_texts, Fits}
use gorn.QueueFile.{entries_of_file}
use gorn.Client.{read_tokens, take_batch, push_loop, push_data_thread}
use gorn.Client.Tokens.{entries_of_file-words}

-- The stream behind a word, with the words `ws` left.
abbrev to_come : List Bytes → Stream
to_come ws = open_text (32 ∷ delimited 32 ws)

get_string-to_come :
    (old w : Bytes) (ws : List Bytes)
    → IsWord w
    → get_string old (to_come (w ∷ ws)) ≡ (w, to_come ws)
unfolding delimited
get_string-to_come old w ws h =
    get_string-space old (w ++ 32 ∷ delimited 32 ws) ∙ get_string-word old w (delimited 32 ws) h

get_string-nothing : (old : Bytes) → get_string old (to_come []) ≡ (old, ended)
unfolding delimited
get_string-nothing old = get_string-end old

abbrev batch_round : ℕ → Bytes × Stream → List Bytes × Stream × Bool
batch_round room r =
    let rest = take_batch room r.0 r.1 in
    if r.1.fail then ([], r.1, true) else (r.0 ∷ rest.0, rest.1, rest.2)

take_batch-round :
    (room : ℕ) (old : Bytes) (s : Stream)
    → take_batch (suc room) old s ≡ batch_round room (get_string old s)
unfolding take_batch
take_batch-round room old s = refl

take_batch-last :
    (room : ℕ) (old : Bytes) (ws : List Bytes)
    → All IsWord ws
    → length ws < room
    → take_batch room old (to_come ws) ≡ (ws, ended, true)
take_batch-last zero old ws h k = absurd (omega arith)
take_batch-last (suc room) old [] h k =
    take_batch-round room old (to_come []) ∙ ap (batch_round room) (get_string-nothing old)
take_batch-last (suc room) old (w ∷ ws) (p, h) k =
    let more : List Bytes × Stream × Bool → List Bytes × Stream × Bool = λ r. (w ∷ r.0, r.1, r.2) in
    take_batch-round room old (to_come (w ∷ ws))
    ∙ (ap (batch_round room) (get_string-to_come old w ws p)
        ∙ ap more (take_batch-last room w ws h (omega arith)))

take_batch-full :
    (room : ℕ) (old : Bytes) (ws : List Bytes)
    → All IsWord ws
    → room ≤ length ws
    → take_batch room old (to_come ws) ≡ (take room ws, to_come (drop room ws), false)
take_batch-full zero old ws h k = unfold take_batch in refl
take_batch-full (suc room) old [] h k = absurd (omega arith)
take_batch-full (suc room) old (w ∷ ws) (p, h) k =
    let more : List Bytes × Stream × Bool → List Bytes × Stream × Bool = λ r. (w ∷ r.0, r.1, r.2) in
    take_batch-round room old (to_come (w ∷ ws))
    ∙ (ap (batch_round room) (get_string-to_come old w ws p)
        ∙ ap more (take_batch-full room w ws h (omega arith)))

-- The batches of a vector: all but the last of 100 items, the last of fewer.
pub record IsBatched (ws : List Bytes) (bs : List (List Bytes)) : Type 0 where
  pub full : List (List Bytes)
  pub last : List Bytes
  pub parts : bs ≡ full ++ last ∷ []
  pub all_full : All (λ b. length b ≡ batch_count) full
  pub last_short : length last < batch_count
  pub whole : concat bs ≡ ws
  pub fits : All Fits bs

abbrev push_round : ℕ → List Bytes × Stream × Bool → Option (List (List Bytes))
push_round fuel r =
    let rest = push_loop fuel r.1 in
    if r.2 then some (r.0 ∷ []) else elim rest [ none ↦ none | some batches ↦ some (r.0 ∷ batches) ]

push_loop-round :
    (fuel : ℕ) (s : Stream) → push_loop (suc fuel) s ≡ push_round fuel (take_batch batch_count [] s)
unfolding push_loop
push_loop-round fuel s = refl

push_loop-IsBatched :
    (fuel : ℕ) (ws : List Bytes)
    → All IsWord ws
    → length ws < fuel
    → (bs : List (List Bytes)) × (push_loop fuel (to_come ws) ≡ some bs) × IsBatched ws bs
push_loop-IsBatched zero ws h k = absurd (omega arith)
push_loop-IsBatched (suc fuel) ws h k = elim (dec_lt (length ws) batch_count) [
  | yes short ↦ (
    ws ∷ [],
    push_loop-round fuel (to_come ws)
        ∙ ap (push_round fuel) (take_batch-last batch_count [] ws h short),
    record {
      full = [];
      last = ws;
      parts = refl;
      all_full = tt;
      last_short = short;
      whole = append-nil ws;
      fits = ((h, omega arith), tt);
    },
  )
  | no long ↦
      let (bs, pushed, b) =
        push_loop-IsBatched fuel (drop 100 ws) (All-drop 100 ws h)
          (omega (arith, length-drop 100 ws)) in
      let cons : Option (List (List Bytes)) → Option (List (List Bytes)) =
        λ o. elim o [ none ↦ none | some batches ↦ some (take 100 ws ∷ batches) ] in
      (
        take 100 ws ∷ bs,
        push_loop-round fuel (to_come ws)
            ∙ (ap (push_round fuel) (take_batch-full batch_count [] ws h (omega arith))
                ∙ ap cons pushed),
        record {
          full = take 100 ws ∷ b.full;
          last = b.last;
          parts = ap (◌∷◌ (take 100 ws)) b.parts;
          all_full = (omega (arith, length-take 100 ws), b.all_full);
          last_short = b.last_short;
          whole = ap (λ z. take 100 ws ++ z) b.whole ∙ take-append-drop 100 ws;
          fits = ((All-take 100 ws h, omega (arith, length-take 100 ws)), b.fits);
        },
      )
]

-- A blank in front changes nothing.
push_loop-space :
    (fuel : ℕ) (s : Bytes)
    → push_loop (suc fuel) (open_text s) ≡ push_loop (suc fuel) (open_text (32 ∷ s))
push_loop-space fuel s =
    push_loop-round fuel (open_text s)
    ∙ (ap (push_round fuel) (
          take_batch-round 99 [] (open_text s)
          ∙ (ap (batch_round 99) (sym (get_string-space [] s))
              ∙ sym (take_batch-round 99 [] (open_text (32 ∷ s)))))
        ∙ sym (push_loop-round fuel (open_text (32 ∷ s))))

push_data_thread-IsBatched :
    (ws : List Bytes)
    → All IsWord ws
    → (bs : List (List Bytes)) × (push_data_thread (delimited 32 ws)
        ≡ some (map (batch_text store) bs))
      × IsBatched ws bs
unfolding push_data_thread
push_data_thread-IsBatched ws h =
    let n = length (delimited 32 ws) in
    let (bs, pushed, b) =
      push_loop-IsBatched (suc n) ws h (omega (arith, length-delimited 32 refl ws)) in
    let sends : Option (List (List Bytes)) → Option (List Bytes) =
      λ o. elim o [ none ↦ none | some batches ↦ some (map (batch_text store) batches) ] in
    (bs, ap sends (push_loop-space n (delimited 32 ws) ∙ pushed), b)

pub read_tokens-words :
    (d : Disk) (p s : Bytes)
    → lookup p d.files ≡ some s
    → read_tokens d p ≡ some (delimited 32 (words s))
unfolding read_tokens
read_tokens-words d p s there =
    let (rows, got, same) = entries_of_file-words s in
    let tokens : Option (List (List Bytes)) → Option Bytes =
      λ o. elim o [ none ↦ none | some r ↦ some (delimited 32 (concat r)) ] in
    let of : Option Bytes → Option Bytes =
      λ o. elim o [ none ↦ some [] | some t ↦ tokens (entries_of_file words t) ] in
    ap of there ∙ (ap tokens got ∙ ap (λ z. some (delimited 32 z)) same)

-- The command `push` on a file that is there reads it and sends all its words in store messages: the
-- message objects of the peer read batches, one from each text, which are the words in order, each
-- once; all but the last have 100 items, and the last has fewer.
pub push_file :
    (unset : ℕ) (d : Disk) (p s : Bytes)
    → lookup p d.files ≡ some s
    → (text : Bytes) × (texts : List Bytes) × (read_tokens d p ≡ some text)
      × (push_data_thread text ≡ some texts)
      × IsBatched (words s) (map (read_text unset store) texts)
push_file unset d p s there =
    let solid : All IsWord (words s) =
      subst (All IsWord) (words_of-there d p s there) (words_of-IsWord d p) in
    let (bs, pushed, b) = push_data_thread-IsBatched (words s) solid in
    (
      delimited 32 (words s),
      map (batch_text store) bs,
      read_tokens-words d p s there,
      pushed,
      subst (IsBatched (words s)) (sym (read_texts unset store bs b.fits)) b,
    )
