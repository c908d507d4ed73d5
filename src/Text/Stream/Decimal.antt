-- ===== src/Text/Stream/Decimal.antt =====
-- `ss << n` for a `std::size_t`: the decimal print, and that `span_digits` reads it back.
use mathlib.Core.Logic.{ite, dite, if_pos, if_neg}
use mathlib.Core.List.{concat-ne-nil, cons-ne-nil}
use mathlib.Core.WellFounded.{Acc, WellFounded, Acc-prop, induction}
use native.Mathlib.Decide.{dec_lt}
use gorn.Common.{
  ℕ, zero, suc, ◌+◌, ◌-◌, ◌*◌, ◌/◌, ◌%◌, ◌<◌, ◌≡◌, ◌≢◌, refl, ap, ◌∙◌, true, [], ◌∷◌, ◌++◌,
  append_assoc, arith, All, All-append, length, length-append, ◌≤◌,
}
use gorn.Text.{Bytes, codes}
use gorn.Text.Stream.{is_digit, span_digits}

Acc-below : (k n : ℕ) → n < k → Acc ◌<◌ n
Acc-below zero n h = elim h [ ]
Acc-below (suc k) n h = Acc.intro n (λ m hm. Acc-below k m (omega arith))

lt_wf : WellFounded ◌<◌
unfolding Acc-below
lt_wf = record { apply = λ n. Acc-below (suc n) n (omega arith) }

tenth_lt : {n : ℕ} → 9 < n → n / 10 < n
tenth_lt h = omega arith

print_acc : (n : ℕ) → Acc ◌<◌ n → Bytes
print_acc n (Acc.intro _ acc_of) =
    dite (dec_lt 9 n)
      (λ h. print_acc (n / 10) (acc_of (n / 10) (tenth_lt h)) ++ (b'0' + n % 10) ∷ [])
      (λ _. (b'0' + n) ∷ [])

-- The decimal digits of `n`, most significant first.
unfoldable pub print : ℕ → Bytes
unfolding print_acc lt_wf dec_lt tenth_lt
print n = print_acc n (lt_wf.apply n)

print_acc_step :
    (n : ℕ) (w : Acc ◌<◌ n) (w' : Acc ◌<◌ (n / 10))
    → print_acc n w
      ≡ ite (dec_lt 9 n) (print_acc (n / 10) w' ++ (b'0' + n % 10) ∷ []) ((b'0' + n) ∷ [])
unfolding print_acc
print_acc_step n (Acc.intro _ acc_of) w' = λ i.
    dite (dec_lt 9 n)
      (λ h.
        print_acc (n / 10) (Acc-prop (acc_of (n / 10) (tenth_lt h)) w' i) ++ (b'0' + n % 10) ∷ [])
      (λ _. (b'0' + n) ∷ [])

pub print_step :
    (n : ℕ) → print n ≡ ite (dec_lt 9 n) (print (n / 10) ++ (b'0' + n % 10) ∷ []) ((b'0' + n) ∷ [])
unfolding print
print_step n = print_acc_step n (lt_wf.apply n) (lt_wf.apply (n / 10))

abbrev pub IsDigit : ℕ → Type 0
IsDigit c = is_digit c ≡ true

print-All_step : (n : ℕ) → ((m : ℕ) → m < n → All IsDigit (print m)) → All IsDigit (print n)
print-All_step n ih = elim (dec_lt 9 n) [
  | yes p ↦
      rw (print_step n, if_pos _ p)
        (All-append IsDigit (print (n / 10)) _ (ih (n / 10) (tenth_lt p)) (ground arith, tt))
  | no p ↦ rw (print_step n, if_neg _ p) (ground arith, tt)
]

pub print-All : (n : ℕ) → All IsDigit (print n)
print-All n = induction lt_wf {C = λ m. All IsDigit (print m)} n print-All_step

print-length_step :
    (n : ℕ) → ((m : ℕ) → m < n → length (print m) ≤ m + 1) → length (print n) ≤ n + 1
print-length_step n ih = elim (dec_lt 9 n) [
  | yes p ↦
      rw (print_step n, if_pos _ p)
        (omega (
          arith,
          length-append (print (n / 10)) ((b'0' + n % 10) ∷ []),
          ih (n / 10) (tenth_lt p),
          tenth_lt p,
        ))
  | no p ↦ rw (print_step n, if_neg _ p) (omega arith)
]

pub print-length : (n : ℕ) → length (print n) ≤ n + 1
print-length n = induction lt_wf {C = λ m. length (print m) ≤ m + 1} n print-length_step

-- Reading a digit.
span_digit :
    (c : ℕ) (s : Bytes) (n : ℕ)
    → IsDigit c
    → span_digits (c ∷ s) n ≡ span_digits s (n * 10 + (c - b'0'))
unfolding span_digits
span_digit c s n h = ground arith

abbrev Reads : ℕ → Type 0
Reads n = (s : Bytes) → span_digits (print n ++ s) 0 ≡ span_digits s n

span_digits-print_step : (n : ℕ) → ((m : ℕ) → m < n → Reads m) → Reads n
span_digits-print_step n ih s = elim (dec_lt 9 n) [
  | yes p ↦
      rw (print_step n, if_pos _ p, append_assoc, ih (n / 10) (tenth_lt p))
        (span_digit (b'0' + n % 10) s (n / 10) (ground arith) ∙ ap (span_digits s) (omega arith))
  | no p ↦
      rw (print_step n, if_neg _ p)
        (span_digit (b'0' + n) s 0 (ground arith) ∙ ap (span_digits s) (omega arith))
]

-- The digits of a number, read as a number, are that number, whatever follows them.
pub span_digits-print : (n : ℕ) (s : Bytes) → span_digits (print n ++ s) 0 ≡ span_digits s n
span_digits-print n = induction lt_wf {C = Reads} n span_digits-print_step

-- A print begins with a digit.
pub print-cons : (n : ℕ) → (c : ℕ) × (t : Bytes) × (print n ≡ c ∷ t) × IsDigit c
print-cons n = split (print n) refl (print-All n) (print-ne-nil n)
  where
    print-ne-nil : (n : ℕ) → print n ≢ []
    print-ne-nil n = elim (dec_lt 9 n) [
      | yes p ↦ rw (print_step n, if_pos _ p) (concat-ne-nil _ (print (n / 10)))
      | no p ↦ rw (print_step n, if_neg _ p) (cons-ne-nil _ _)
    ]

    split :
        (t : Bytes)
        → print n ≡ t
        → All IsDigit t
        → t ≢ []
        → (c : ℕ) × (u : Bytes) × (print n ≡ c ∷ u) × IsDigit c
    split [] e h ne = absurd (ne refl)
    split (c ∷ u) e h ne = (c, u, e, h.0)

print_runs : print 34000 ≡ codes "34000"
unfolding print
print_runs = refl
