-- ===== src/Search.antt =====
-- utils/data/data.h: `search_new` and `sort_write_file`, the merges of sorted vectors with a file of
-- words. `max_k` is `none` for the value -1, which no index of a vector reaches.
pub mod Total
pub mod Items
pub mod News
pub mod Correct
pub mod Sound
use gorn.Common.{
  ℕ, zero, suc, ◌+◌, ◌%◌, ◌^◌, Bool, true, false, Option, none, some, List, [], ◌∷◌, ◌++◌, ltb,
  if◌then◌else◌, length, drop,
}
use gorn.Text.{Bytes}
use gorn.Text.Order.{lt_text}
use gorn.Text.Stream.{Stream, open_text, get_string}
use gorn.Files.{Disk, lookup, store_at, delimited}

-- The loop over `it_vec`: `line` and `max_k`, where an iterator is what it has before it.
unfoldable pub pick : ℕ → List (List Bytes) → Bytes → Option ℕ → Bytes × Option ℕ
pick k [] line max_k = (line, max_k)
pick k ([] ∷ it_vec) line max_k = pick (suc k) it_vec line max_k
pick k ((x ∷ xs) ∷ it_vec) line none = pick (suc k) it_vec x (some k)
pick k ((x ∷ xs) ∷ it_vec) line (some j) = elim (lt_text x line) [
  | true ↦ pick (suc k) it_vec x (some k)
  | false ↦ pick (suc k) it_vec line (some j)
]

-- `++(it_vec[max_k])`
unfoldable pub advance : ℕ → List (List Bytes) → List (List Bytes)
advance k [] = []
advance zero (xs ∷ it_vec) = drop 1 xs ∷ it_vec
advance (suc k) (xs ∷ it_vec) = xs ∷ advance k it_vec

-- The variables of `search_new`'s loop.
pub record Search : Type 0 where
  pub input : Stream
  pub file_line : Bytes
  pub line : Bytes
  pub it_vec : List (List Bytes)
  pub consecutive_from_vector : ℕ
  pub first_from_vector : Bool

-- A round: the line that it puts out, whether it ends the loop, and the variables behind it.
pub record Turn : Type 0 where
  pub output : Option Bytes
  pub done : Bool
  pub next : Search

abbrev count_up : ℕ → ℕ
count_up n = (n + 1) % 2 ^ 64

-- The branch of a file at its end.
pub search_end : Search → Bytes → Option ℕ → Turn
unfolding advance
search_end s line none = record {
  output = none;
  done = true;
  next = record s { line = line; first_from_vector = false };
}
search_end s line (some k) = record {
  output = if s.first_from_vector then none else some line;
  done = false;
  next = record s {
    line = line;
    it_vec = advance k s.it_vec;
    consecutive_from_vector = count_up s.consecutive_from_vector;
    first_from_vector = false;
  };
}

-- The branch of a line of the file below the vector's; `line` is the file's line.
pub search_file : Search → Turn
search_file s =
    let (file_line, input) = get_string s.file_line s.input in
    record {
      output = none;
      done = false;
      next = record s {
        input = input;
        file_line = file_line;
        line = s.file_line;
        consecutive_from_vector = 0;
        first_from_vector = false;
      };
    }

-- The branch of a line of the vector; `prev_line` is the line before it.
pub search_vector : Search → Bytes → Option ℕ → Turn
unfolding advance
search_vector s line none = record {
  output = none;
  done = true;
  next = record s { line = line; first_from_vector = false };
}
search_vector s line (some k) =
    let prev_line = s.line in
    record {
      output =
          if s.first_from_vector
          then none
          else if ltb 1 (count_up s.consecutive_from_vector)
          then some prev_line
          else none;
      done = false;
      next = record s {
        line = line;
        it_vec = advance k s.it_vec;
        consecutive_from_vector = count_up s.consecutive_from_vector;
        first_from_vector = false;
      };
    }

pub search_round : Search → Turn
unfolding pick search_end search_file search_vector
search_round s =
    let (line, max_k) = pick 0 s.it_vec s.line none in
    if s.input.eof
    then search_end s line max_k
    else if lt_text s.file_line line
    then search_file s
    else search_vector s line max_k

unfoldable pub push_output : Option Bytes → Option (List Bytes) → Option (List Bytes)
push_output line none = none
push_output none (some lines) = some lines
push_output (some x) (some lines) = some (x ∷ lines)

-- The loop with fuel: the lines that it puts out.
pub search_loop : ℕ → Search → Option (List Bytes)
unfolding search_round push_output
search_loop zero s = none
search_loop (suc fuel) s =
    let turn = search_round s in
    let rest = search_loop fuel turn.next in
    if turn.done then some [] else push_output turn.output rest

-- The variables before the loop, of a file that was opened over `text`.
pub search_start : Bytes → List Bytes → Search
search_start text sorted_data =
    let (file_line, input) = get_string [] (open_text text) in
    record {
      input = input;
      file_line = file_line;
      line = [];
      it_vec = sorted_data ∷ [];
      consecutive_from_vector = 2;
      first_from_vector = true;
    }

-- A round takes an entry of the vector, or a byte of the file, or sees its end.
unfoldable pub search_lines : Bytes → List Bytes → Option (List Bytes)
unfolding search_loop search_start
search_lines text sorted_data =
    search_loop (suc (suc (length text + length sorted_data))) (search_start text sorted_data)

abbrev pub space : ℕ
space = 32

-- The bytes of an output stream on `output_name`, if it is open.
unfoldable pub write_bytes : Disk → Bytes → Bytes → Disk
unfolding store_at
write_bytes d output_name text =
    if d.can_open output_name then record d { files = store_at output_name text d.files } else d

-- The lines that were put out, each with a blank.
unfoldable pub write_lines : Disk → Bytes → Option (List Bytes) → Option Disk
unfolding write_bytes delimited
write_lines d output_name none = none
write_lines d output_name (some lines) = some (write_bytes d output_name (delimited space lines))

-- What is done with the text of the file `map_name`, if it is there.
pub search_text : Disk → Option Bytes → List Bytes → Bytes → Option Disk
unfolding search_lines write_lines
search_text d none sorted_data output_name = some d
search_text d (some text) sorted_data output_name =
    let lines = search_lines text sorted_data in
    if d.can_open output_name then write_lines d output_name lines else some d

-- `search_new`. The output file is opened, and so empty, before anything is read; `none` stands for
-- a loop that does not end.
unfoldable pub search_new : Disk → Bytes → List Bytes → Bytes → Option Disk
unfolding lookup write_bytes search_text
search_new d map_name sorted_data output_name =
    let d' = write_bytes d output_name [] in
    search_text d' (lookup map_name d'.files) sorted_data output_name
