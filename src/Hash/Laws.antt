-- ===== src/Hash/Laws.antt =====
-- What `generate_hash` computes, and what it does to the table.
use native.Mathlib.Nat.{mul_assoc, mul_comm, add-mul, pow-suc}
use gorn.Common.{
  suc, ℕ, ◌+◌, ◌*◌, ◌%◌, ◌^◌, ◌≡◌, refl, sym, ap, ◌∙◌, inl, inr, true, none, some, [], ◌∷◌, arith,
  ◌==◌, if◌then◌else◌, Option-cases, All, length,
}
use gorn.Text.{Bytes}
use gorn.Hash.{HashMap, find, assign, index_at, validate, hash_loop, generate_hash}

abbrev pub Has : HashMap → ℕ → Type 0
Has m c = (v : ℕ) × (find c m ≡ some v)

-- The code of a character, 0 if it has none.
pub code_of : HashMap → ℕ → ℕ
code_of m c = elim (find c m) [ some v ↦ v | none ↦ 0 ]

-- The sum of the codes, each times 2 to the number of characters behind it.
unfoldable pub polynomial : HashMap → Bytes → ℕ
unfolding code_of
polynomial m [] = 0
polynomial m (c ∷ s) = code_of m c * 2 ^ length s + polynomial m s

weigh : HashMap → Bytes → ℕ → ℕ
unfolding code_of
weigh m [] acc = acc
weigh m (c ∷ s) acc = weigh m s (acc * 2 + code_of m c)

pub find-assign :
    (c d v : ℕ) (m : HashMap) → find d (assign c v m) ≡ (if c == d then some v else find d m)
unfolding find assign
find-assign c d v [] = refl
find-assign c d v ((e, w) ∷ m) = ground (arith, find-assign c d v m)

-- An access changes no character's code.
code_of-index_at : (m : HashMap) (c d : ℕ) → code_of (index_at m c).1 d ≡ code_of m d
unfolding code_of index_at
code_of-index_at m c d = ground (arith, find-assign c d 0 m)

index_at-value : (m : HashMap) (c : ℕ) → (index_at m c).0 ≡ code_of m c
unfolding code_of index_at
index_at-value m c = ground arith

index_at_keeps : (m : HashMap) (c d v : ℕ) → find d m ≡ some v → find d (index_at m c).1 ≡ some v
unfolding index_at
index_at_keeps m c d v e = ground (arith, find-assign c d 0 m)

index_at-Has : (m : HashMap) (c : ℕ) → Has (index_at m c).1 c
unfolding index_at
index_at-Has m c = elim (Option-cases (find c m)) [
  | inl e ↦ (0, ground (arith, find-assign c c 0 m))
  | inr (v, e) ↦ (v, ground arith)
]

index_at_found : (m : HashMap) (c v : ℕ) → find c m ≡ some v → index_at m c ≡ (v, m)
unfolding index_at
index_at_found m c v e = rw (e, index_at)

weigh-index_at :
    (m : HashMap) (c : ℕ) (s : Bytes) (acc : ℕ) → weigh (index_at m c).1 s acc ≡ weigh m s acc
unfolding weigh
weigh-index_at m c [] acc = refl
weigh-index_at m c (d ∷ s) acc = rw code_of-index_at (weigh-index_at m c s (acc * 2 + code_of m d))

hash_loop-weigh :
    (s : Bytes) (ret acc : ℕ) (m : HashMap)
    → ret ≡ acc % 2 ^ 64
    → (hash_loop s ret m).0 ≡ weigh m s acc % 2 ^ 64
unfolding hash_loop weigh
hash_loop-weigh [] ret acc m e = e
hash_loop-weigh (c ∷ s) ret acc m e =
    hash_loop-weigh s _ (acc * 2 + code_of m c) (index_at m c).1 (omega (arith, index_at-value m c))
    ∙ ap (λ t. t % 2 ^ 64) (weigh-index_at m c s (acc * 2 + code_of m c))

regroup : (a b c p q : ℕ) → q ≡ p * 2 → (a * 2 + b) * p + c ≡ a * q + (b * p + c)
regroup a b c p q e =
    let twice : a * 2 * p ≡ a * q = mul_assoc a 2 p ∙ ap (λ z. a * z) (mul_comm 2 p ∙ sym e) in
    let parts : (a * 2 + b) * p ≡ a * q + b * p = add-mul (a * 2) b p ∙ ap (λ z. z + b * p) twice in
    omega (arith, parts)

weigh-polynomial :
    (m : HashMap) (s : Bytes) (acc : ℕ) → weigh m s acc ≡ acc * 2 ^ length s + polynomial m s
unfolding weigh polynomial
weigh-polynomial m [] acc = omega arith
weigh-polynomial m (c ∷ s) acc =
    weigh-polynomial m s (acc * 2 + code_of m c)
    ∙ regroup acc (code_of m c) (polynomial m s) (2 ^ length s) (2 ^ suc (length s))
        (pow-suc 2 (length s))

hash_loop_code :
    (s : Bytes) (ret : ℕ) (m : HashMap) (d : ℕ) → code_of (hash_loop s ret m).1 d ≡ code_of m d
unfolding hash_loop
hash_loop_code [] ret m d = refl
hash_loop_code (c ∷ s) ret m d = hash_loop_code s _ (index_at m c).1 d ∙ code_of-index_at m c d

-- The hash is, modulo 2 ^ 64, the sum of the codes of the characters, each times 2 to the number of
-- characters behind it, a character with no code counting 0; and the call changes no code.
pub generate_hash-polynomial :
    (m : HashMap) (s : Bytes)
    → ((generate_hash m s).0 ≡ polynomial m s % 2 ^ 64)
      × ((d : ℕ) → code_of (generate_hash m s).1 d ≡ code_of m d)
unfolding generate_hash
generate_hash-polynomial m s = (
  hash_loop-weigh s 0 0 m (omega arith)
      ∙ ap (λ z. z % 2 ^ 64) (weigh-polynomial m s 0 ∙ omega arith),
  hash_loop_code s 0 m,
)

-- On a text that `validate` accepts the call leaves the table as it was.
hash_loop_pure :
    (s : Bytes) (ret : ℕ) (m : HashMap) → validate m s ≡ true → (hash_loop s ret m).1 ≡ m
unfolding hash_loop validate
hash_loop_pure [] ret m h = refl
hash_loop_pure (c ∷ s) ret m h = elim (Option-cases (find c m)) [
  | inl e ↦ absurd (ground arith)
  | inr (v, e) ↦ rw (index_at_found m c v e, hash_loop) (hash_loop_pure s _ m (ground arith))
]

pub generate_hash_pure : (m : HashMap) (s : Bytes) → validate m s ≡ true → (generate_hash m s).1 ≡ m
unfolding generate_hash
generate_hash_pure m s h = hash_loop_pure s 0 m h

hash_loop_keeps :
    (s : Bytes) (ret : ℕ) (m : HashMap) (d : ℕ) → Has m d → Has (hash_loop s ret m).1 d
unfolding hash_loop
hash_loop_keeps [] ret m d h = h
hash_loop_keeps (c ∷ s) ret m d (v, e) =
    hash_loop_keeps s _ (index_at m c).1 d (v, index_at_keeps m c d v e)

validate-of_Has : (m : HashMap) (s : Bytes) → All (Has m) s → validate m s ≡ true
unfolding validate
validate-of_Has m [] h = refl
validate-of_Has m (c ∷ s) ((v, e), h) = rw (e, validate) (validate-of_Has m s h)

hash_loop-Has : (s : Bytes) (ret : ℕ) (m : HashMap) → All (Has (hash_loop s ret m).1) s
unfolding hash_loop
hash_loop-Has [] ret m = tt
hash_loop-Has (c ∷ s) ret m =
    (hash_loop_keeps s _ (index_at m c).1 c (index_at-Has m c), hash_loop-Has s _ (index_at m c).1)

-- After a text was hashed, `validate` accepts it, whatever characters it holds: the access of a
-- character that the table lacks has put it there.
pub validate-generate_hash : (m : HashMap) (s : Bytes) → validate (generate_hash m s).1 s ≡ true
unfolding generate_hash
validate-generate_hash m s = validate-of_Has _ s (hash_loop-Has s 0 m)
