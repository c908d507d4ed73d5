-- ===== src/Fresh/Enforce/Fuel.antt =====
-- DistributedQueue/DistributedQueue.cpp: the `while` of `enforce_uniqueness` ends.
use gorn.Common.{
  ℕ, zero, suc, ◌+◌, ◌≤◌, ◌<◌, ◌≡◌, refl, sym, ap, ◌∙◌, inl, inr, true, false, some, [], ◌∷◌, arith,
  leb, ◌==◌, if◌then◌else◌, length, Bool-cases, Option-cases,
}
use gorn.Text.{Bytes}
use gorn.Text.Order.{eq_text, eq_text_iff}
use gorn.Text.Stream.{span_digits}
use gorn.Text.Stream.Decimal.{print, print-cons}
use gorn.Text.Stream.Extract.{skip_space-print, span_digits-print_whole}
use gorn.Fresh.{CountMap, has, put}
use gorn.Fresh.Enforce.{
  above_zero, signed, atoi_next, Enforced, ended, undefined, endless, enforce_text,
}

-- The number at the head of a text.
value : Bytes → ℕ
value s = (span_digits s 0).0

-- How many keys have a number of at least `v`.
at_least : ℕ → CountMap → ℕ
unfolding value
at_least v [] = 0
at_least v ((k, c) ∷ m) = if leb v (value k) then suc (at_least v m) else at_least v m

at_least-length : (v : ℕ) (m : CountMap) → at_least v m ≤ length m
unfolding at_least
at_least-length v [] = omega arith
at_least-length v ((k, c) ∷ m) = ground (arith, at_least-length v m)

at_least_next : (v : ℕ) (m : CountMap) → at_least (v + 1) m ≤ at_least v m
unfolding at_least
at_least_next v [] = omega arith
at_least_next v ((k, c) ∷ m) = ground (arith, at_least_next v m)

-- A key with the number is one that the next number lacks.
at_least-has :
    (v : ℕ) (k : Bytes) (m : CountMap)
    → value k ≡ v
    → has k m ≡ true
    → at_least (v + 1) m < at_least v m
unfolding at_least has
at_least-has v k [] e h = absurd cc
at_least-has v k ((j, c) ∷ m) e h = elim (Bool-cases (eq_text k j)) [
  | inl same ↦
      let same' : value j ≡ v = ap value (sym ((eq_text_iff k j).0 same)) ∙ e in
      ground (arith, at_least_next v m)
  | inr other ↦ ground (arith, at_least-has v k m e)
]

atoi_next-print : (v : ℕ) → atoi_next (print v) ≡ above_zero v
unfolding atoi_next signed
atoi_next-print v =
    let (c, t, e, digit) = print-cons v in
    let at_head : (span_digits (c ∷ t) 0).0 ≡ v =
      ap (λ z. (span_digits z 0).0) (sym e) ∙ span_digits-print_whole v in
    let minus : (c == b'-') ≡ false = ground arith in
    let plus : (c == b'+') ≡ false = ground arith in
    ap signed (skip_space-print v ∙ e) ∙ rw (signed, minus, plus) (ap above_zero at_head)

above_zero-some : (n v : ℕ) → above_zero n ≡ some v → v ≡ n + 1
unfolding above_zero
above_zero-some n v e = ground arith

-- A run that does not go on for ever, and whose result, if it has one, satisfies `P`.
abbrev pub Post {ℓ} : {A : Type ℓ} (P : A → Type 0) → Enforced A → Type 0
Post P (ended a) = P a
Post P undefined = Unit
Post P endless = ⊥

-- The text that a loop ends with is new, and is in the map behind it.
abbrev pub IsNew : CountMap → Bytes × CountMap → Type 0
IsNew m r = (has r.0 m ≡ false) × (r.1 ≡ put r.0 m)

enforce_number :
    (fuel v : ℕ) (m : CountMap)
    → at_least v m < fuel
    → Post (IsNew m) (enforce_text fuel m (print v))
unfolding enforce_text
enforce_number zero v m h = absurd (omega arith)
enforce_number (suc fuel) v m h = elim (Bool-cases (has (print v) m)) [
  | inr fresh ↦ rw fresh (fresh, refl)
  | inl known ↦ elim (Option-cases (atoi_next (print v))) [
    | inl e ↦ rw (known, e) tt
    | inr (u, e) ↦
        let next : u ≡ v + 1 = above_zero-some v u (sym (atoi_next-print v) ∙ e) in
        let fewer = at_least-has v (print v) m (unfold value in span_digits-print_whole v) known in
        rw (known, e, next) (enforce_number fuel (v + 1) m (omega (arith, fewer, h)))
  ]
]

-- With two rounds more than the map has keys, the loop of a text ends.
pub enforce_text-Post :
    (m : CountMap) (s : Bytes) → Post (IsNew m) (enforce_text (suc (suc (length m))) m s)
unfolding enforce_text
enforce_text-Post m s = elim (Bool-cases (has s m)) [
  | inr fresh ↦ rw fresh (fresh, refl)
  | inl known ↦ elim (Option-cases (atoi_next s)) [
    | inl e ↦ rw (known, e) tt
    | inr (v, e) ↦
        rw (known, e) (enforce_number (suc (length m)) v m (omega (arith, at_least-length v m)))
  ]
]
