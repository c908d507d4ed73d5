-- ===== src/Status/Files/Lines.antt =====
-- The lines of the status files are read back.
use gorn.Common.{
  ℕ, ◌+◌, ◌≡◌, refl, sym, ap, ◌∙◌, Bool, true, List, [], ◌∷◌, ◌++◌, append_assoc, arith, length,
  All, All-append, ◌&&◌, not,
}
use mathlib.Core.List.{cons-ne-nil}
use gorn.Text.{Bytes}
use gorn.Text.Stream.{Stream, open_text, is_space, get_string}
use gorn.Text.Stream.Decimal.{print}
use gorn.Text.Stream.Extract.{NotSpace, IsWord, get_string-word, print-IsWord}
use gorn.Text.Stream.Lines.{get_line, NotFeed, get_line-line, solid-NotFeed}
use gorn.Status.{Floats}
use gorn.Status.Files.{size_line, size_lines, size_of_line, read_size_line, read_size_lines}

abbrev pub is_solid : Bytes → Bool
is_solid [] = true
is_solid (c ∷ w) = not (is_space c) && is_solid w

pub is_solid-All : (w : Bytes) → is_solid w ≡ true → All NotSpace w
is_solid-All [] h = tt
is_solid-All (c ∷ w) h = (ground arith, is_solid-All w (ground arith))

line_bytes : Bytes → ℕ → Bytes
line_bytes label n = label ++ 58 ∷ 32 ∷ print n

line_bytes-feed : (label : Bytes) (n : ℕ) → All NotSpace label → All NotFeed (line_bytes label n)
unfolding line_bytes
line_bytes-feed label n h =
    All-append NotFeed label (58 ∷ 32 ∷ print n) (solid-NotFeed label h)
      (refl, (refl, solid-NotFeed (print n) (print-IsWord n).solid))

label-IsWord : (label : Bytes) → All NotSpace label → IsWord (label ++ 58 ∷ [])
label-IsWord [] h = record { nonempty = cons-ne-nil 58 []; solid = (refl, tt) }
label-IsWord (c ∷ label) (p, h) = record {
  nonempty = cons-ne-nil c (label ++ 58 ∷ []);
  solid = (p, All-append NotSpace label (58 ∷ []) h (refl, tt));
}

size_line-bytes :
    (label : Bytes) (n : ℕ) (s : Bytes) → size_line label n ++ s ≡ line_bytes label n ++ 10 ∷ s
unfolding line_bytes
size_line-bytes label n s = simp append_assoc

module _ {Float Double : Type 0} (o : Floats Float Double) (unset : Float) where
  -- A size comes back through text and `float`.
  abbrev pub ReadsSize : ℕ → Type 0
  ReadsSize n = o.size_of_float (o.get_float unset (open_text (32 ∷ print n))).0 ≡ n

  size_of_line-bytes :
      (label : Bytes) (n : ℕ)
      → All NotSpace label
      → ReadsSize n
      → size_of_line o unset (line_bytes label n) ≡ n
  unfolding size_of_line line_bytes
  size_of_line-bytes label n h e =
      ap (λ z. o.size_of_float (o.get_float unset (get_string [] (open_text z)).1).0)
        (sym (append_assoc label (58 ∷ []) (32 ∷ print n)))
      ∙ (ap (λ (r : Bytes × Stream). o.size_of_float (o.get_float unset r.1).0)
            (get_string-word [] (label ++ 58 ∷ []) (print n) (label-IsWord label h))
          ∙ e)

  pub read_size_line-line :
      (old label : Bytes) (n : ℕ) (s : Bytes)
      → All NotSpace label
      → ReadsSize n
      → (line : Bytes) × (read_size_line o unset (old, open_text (size_line label n ++ s))
          ≡ (n, line, open_text s))
  unfolding read_size_line
  read_size_line-line old label n s h e =
      let read : Bytes × Stream → ℕ × Bytes × Stream = λ r. (size_of_line o unset r.0, r.0, r.1) in
      let back : ℕ → ℕ × Bytes × Stream = λ z. (z, line_bytes label n, open_text s) in
      (
        line_bytes label n,
        ap (λ z. read (get_line old (open_text z))) (size_line-bytes label n s)
            ∙ (ap read (get_line-line old (line_bytes label n) s (line_bytes-feed label n h))
                ∙ ap back (size_of_line-bytes label n h e)),
      )

  -- Every size of the loop, with what follows them left.
  pub read_size_lines-lines :
      (old label : Bytes) (k : ℕ) (sizes : List ℕ) (s : Bytes)
      → All NotSpace label
      → All ReadsSize sizes
      → (line : Bytes) × (read_size_lines o unset
            (length sizes)
            (old, open_text (size_lines label k sizes ++ s))
          ≡ (sizes, line, open_text s))
  unfolding read_size_lines size_lines
  read_size_lines-lines old label k [] s h all = (old, refl)
  read_size_lines-lines old label k (n ∷ sizes) s h (e, all) =
      let named = All-append NotSpace label (print k) h (print-IsWord k).solid in
      let (line, first) =
        read_size_line-line old (label ++ print k) n (size_lines label (k + 1) sizes ++ s) named
          e in
      let (line', others) = read_size_lines-lines line label (k + 1) sizes s h all in
      let go : ℕ × Bytes × Stream → List ℕ × Bytes × Stream = λ r.
        let (rest, l, f) = read_size_lines o unset (length sizes) (r.1, r.2) in
        (r.0 ∷ rest, l, f) in
      let more : List ℕ × Bytes × Stream → List ℕ × Bytes × Stream = λ r. (n ∷ r.0, r.1, r.2) in
      (
        line',
        ap (λ z. go (read_size_line o unset (old, open_text z)))
              (append_assoc (size_line (label ++ print k) n) (size_lines label (k + 1) sizes) s)
            ∙ (ap go first ∙ ap more others),
      )
