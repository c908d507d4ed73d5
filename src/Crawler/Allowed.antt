-- ===== src/Crawler/Allowed.antt =====
-- What `get_connections` puts into the queues.
use gorn.Common.{
  ℕ, ◌+◌, ◌-◌, ◌%◌, ◌^◌, ◌≤◌, ◌<◌, ◌⊎◌, ◌≡◌, refl, subst, inl, inr, Bool, true, false, not, ◌&&◌,
  Option, none, some, List, [], ◌∷◌, ◌++◌, arith, ltb, ◌==◌, if◌then◌else◌, length, drop,
  length-drop, All, Bool-cases,
}
use gorn.Text.{Bytes}
use gorn.Text.Find.{npos, find_at, find_text, starts_with, contains, substr}
use gorn.Hash.{HashMap, validate}
use gorn.Server.{c_string}
use gorn.Crawler.{
  Node, check_black_list, Target, not_found, target, Put, to_q, to_z, put_node, put_target,
  target_of, with_dir, without_dir,
}

-- A text is found at `npos` or inside.
find_at-bound :
    (t s : Bytes) (pos : ℕ)
    → (find_at t s pos ≡ npos) ⊎ (pos ≤ find_at t s pos × find_at t s pos ≤ pos + length s)
unfolding find_at
find_at-bound t [] pos = elim (Bool-cases (starts_with t [])) [
  | inl e ↦ rw e (inr (omega arith, omega arith))
  | inr e ↦ rw e (inl refl)
]
find_at-bound t (c ∷ s) pos = elim (Bool-cases (starts_with t (c ∷ s))) [
  | inl e ↦ rw e (inr (omega arith, omega arith))
  | inr e ↦ rw e (elim (find_at-bound t s (pos + 1)) [
    | inl none_there ↦ inl none_there
    | inr (low, high) ↦ inr (omega arith, omega arith)
  ])
]

find_text-bound :
    (s t : Bytes) (pos : ℕ)
    → (find_text s t pos ≡ npos) ⊎ (pos ≤ find_text s t pos × find_text s t pos ≤ length s)
unfolding find_text
find_text-bound s t pos = elim (Bool-cases (ltb (length s) pos)) [
  | inl e ↦ rw e (inl refl)
  | inr e ↦
      let inside : pos ≤ length s = ground arith in
      rw e (elim (find_at-bound t (drop pos s) pos) [
        | inl none_there ↦ inl none_there
        | inr (low, high) ↦ inr (low, omega (arith, length-drop pos s))
      ])
]

-- A search that goes on behind `pos` and finds something comes nearer to the end.
pub find_text-behind :
    (s t : Bytes) (pos : ℕ)
    → length s < 2 ^ 63
    → pos ≤ length s
    → (find_text s t ((pos + 1) % 2 ^ 64) == npos) ≡ false
    → pos + 1 ≤ find_text s t ((pos + 1) % 2 ^ 64) × find_text s t ((pos + 1) % 2 ^ 64) ≤ length s
find_text-behind s t pos small inside e = elim (find_text-bound s t ((pos + 1) % 2 ^ 64)) [
  | inl none_there ↦ absurd (ground arith)
  | inr (l, h) ↦ (omega arith, h)
]

abbrev put_on : Put → Node
put_on (to_q n) = n
put_on (to_z n) = n

-- No entry of the black list stands in the host.
abbrev pub Clear : List Bytes → Bytes → Type 0
Clear black_list host = All (λ b. contains host (c_string b) ≡ false) black_list

pub check_black_list-Clear :
    (black_list : List Bytes) (host : Bytes)
    → check_black_list black_list host ≡ true
    → Clear black_list host
unfolding check_black_list
check_black_list-Clear [] host h = tt
check_black_list-Clear (b ∷ black_list) host h = elim (Bool-cases (contains host (c_string b))) [
  | inl e ↦ ground arith
  | inr e ↦ (e, check_black_list-Clear black_list host (ground arith))
]

-- The text that was tested: the address, or the host alone if the link has no more.
abbrev Tested : HashMap → Node → Type 0
Tested m n = (validate m (n.host ++ n.dir) ≡ true) ⊎ (validate m n.host ≡ true × n.dir ≡ 47 ∷ [])

abbrev pub Keyed : Target → Type 0
Keyed not_found = Unit
Keyed (target n key) = (key ≡ n.host ++ n.dir) ⊎ (key ≡ n.host × n.dir ≡ 47 ∷ [])

abbrev pub IsKeyed : Option Target → Type 0
IsKeyed none = Unit
IsKeyed (some t) = Keyed t

with_dir-IsKeyed : (str : Bytes) (a b : ℕ) → IsKeyed (with_dir str a b)
unfolding with_dir
with_dir-IsKeyed str a b =
    both (substr str a ((b + 2 ^ 64 - a) % 2 ^ 64)) (substr str ((b + 1) % 2 ^ 64) npos)
  where
    both :
        (o o' : Option Bytes)
        → IsKeyed (elim o [
          | none ↦ none
          | some host ↦ elim o' [
            | none ↦ none
            | some dir ↦ some (target (record { host = host; dir = 47 ∷ dir }) (host ++ 47 ∷ dir))
          ]
        ])
    both none o' = tt
    both (some host) none = tt
    both (some host) (some dir) = inl refl

without_dir-IsKeyed : (str : Bytes) (a b : ℕ) → IsKeyed (without_dir str a b)
unfolding without_dir
without_dir-IsKeyed str a b = one (substr str a ((b + 2 ^ 64 - a) % 2 ^ 64))
  where
    one :
        (o : Option Bytes)
        → IsKeyed (elim o [
          | none ↦ none
          | some host ↦ some (target (record { host = host; dir = 47 ∷ [] }) host)
        ])
    one none = tt
    one (some host) = inr (refl, refl)

pub target_of-IsKeyed : (str : Bytes) → IsKeyed (target_of str)
unfolding target_of
target_of-IsKeyed str =
    let a = (find_text str (47 ∷ []) 0 + 2) % 2 ^ 64 in
    let b = find_text str (47 ∷ []) a in
    choose (a == npos) (b == npos) (without_dir str a b) (with_dir str a b)
      (without_dir-IsKeyed str a b) (with_dir-IsKeyed str a b)
  where
    choose :
        (c d : Bool) (o o' : Option Target)
        → IsKeyed o
        → IsKeyed o'
        → IsKeyed (if c then some not_found else if d then o else o')
    choose true d o o' h h' = tt
    choose false true o o' h h' = h
    choose false false o o' h h' = h'

-- A put of a node that `get_connections` lets through.
pub record Allowed (m : HashMap) (black_list : List Bytes) (worker_node : Bool) (p : Put)
    : Type 0 where
  pub named : 0 < length ((put_on p).host)
  pub listed : Clear black_list ((put_on p).host)
  pub tested : Tested m (put_on p)
  pub by_worker : worker_node ≡ true → p ≡ to_z (put_on p)

module _ (m : HashMap) (black_list : List Bytes) (worker_node : Bool) where
  put_node-Allowed :
      (size : ℕ) (n : Node)
      → 0 < length n.host
      → Clear black_list n.host
      → Tested m n
      → Allowed m black_list worker_node (put_node worker_node size n)
  unfolding put_node
  put_node-Allowed size n h c v = elim (Bool-cases (ltb size 1000 && not worker_node)) [
    | inl e ↦
        rw e (record { named = h; listed = c; tested = v; by_worker = λ w. absurd (ground arith) })
    | inr e ↦ rw e (record { named = h; listed = c; tested = v; by_worker = λ w. refl })
  ]

  tested_by : (n : Node) (key : Bytes) → Keyed (target n key) → validate m key ≡ true → Tested m n
  tested_by n key (inl e) h = inl (subst (λ k. validate m k ≡ true) e h)
  tested_by n key (inr (e, d)) h = inr (subst (λ k. validate m k ≡ true) e h, d)

  -- A link gives at most one call of `put`, and that is allowed.
  pub put_target-Allowed :
      (size : ℕ) (t : Target)
      → Keyed t
      → All (Allowed m black_list worker_node) (put_target m black_list worker_node size t)
        × length (put_target m black_list worker_node size t) ≤ 1
  unfolding put_target
  put_target-Allowed size not_found k = (tt, omega arith)
  put_target-Allowed size (target n key) k =
      elim (Bool-cases
        (ltb 0 (length n.host) && (check_black_list black_list n.host && validate m key))) [
          | inl e ↦
              let named : 0 < length n.host = ground arith in
              let listed : check_black_list black_list n.host ≡ true = ground arith in
              let valid : validate m key ≡ true = ground arith in
              rw e (
                (
                  put_node-Allowed size n named (check_black_list-Clear black_list n.host listed)
                      (tested_by n key k valid),
                  tt,
                ),
                omega arith,
              )
          | inr e ↦ rw e (tt, omega arith)
        ]
