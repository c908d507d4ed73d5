-- ===== src/Examples/Hashing.antt =====
-- Runs of the hash generator, and its theorems at concrete texts.
use gorn.Common.{ℕ, ◌%◌, ◌^◌, ◌≡◌, refl, true, false}
use gorn.Text.{codes}
use gorn.Hash.{find, init, validate, generate_hash}
use gorn.Hash.Laws.{polynomial, code_of, generate_hash-polynomial, validate-generate_hash}

hash_runs : (generate_hash init (codes "ab")).0 ≡ 139
unfolding generate_hash init find
hash_runs = refl

underscore_refused : validate init (codes "a_b") ≡ false
unfolding validate init
underscore_refused = refl

generate_hash-polynomial_example :
    ((generate_hash init (codes "www.a-b.org/")).0
      ≡ polynomial init (codes "www.a-b.org/") % 2 ^ 64)
    × ((d : ℕ) → code_of (generate_hash init (codes "www.a-b.org/")).1 d ≡ code_of init d)
generate_hash-polynomial_example = generate_hash-polynomial init (codes "www.a-b.org/")

validate-generate_hash_example : validate (generate_hash init (codes "a_b")).1 (codes "a_b") ≡ true
validate-generate_hash_example = validate-generate_hash init (codes "a_b")
