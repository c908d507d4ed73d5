-- ===== src/Mutex/Interleaving/Exclusion.antt =====
-- At most one process is between `Lock` and `Unlock`.
use gorn.Common.{ℕ, ◌≡◌, ◌≢◌, refl, sym, subst, ap, ◌∙◌, ◌⊎◌, inl, inr, some, arith}
use native.Mathlib.Decide.{ℕ_discrete}
use gorn.Text.{Bytes}
use gorn.Files.{Disk, lookup, rename}
use gorn.Files.Rename.{Moved-of_rename, rename_fails}
use gorn.Mutex.{Mutex, unlock}
use gorn.Mutex.Calls.{IsFree, IsHeld, unlock_releases}
use gorn.Mutex.Interleaving.{
  Pc, outside, checked, holding, releasing, System, update, move, Step, lock_test, lock_rename,
  lock_throws, unlock_test, unlock_rename, unlock_throws, elsewhere, Reach, here, next,
}

-- The process has taken the mutex and not given it back.
abbrev pub Holds : Pc → Type 0
Holds outside = ⊥
Holds checked = ⊥
Holds holding = Unit {0}
Holds releasing = Unit {0}

-- The mutex is free and nobody holds it, or it is held and one process holds it.
abbrev Inv : Mutex → Bytes → System → Type 0
Inv m b s =
    (IsFree m b s.disk × ((i : ℕ) → ¬ Holds (s.pc i)))
    ⊎ (IsHeld m b s.disk × ((i : ℕ) × Holds (s.pc i) × ((j : ℕ) → Holds (s.pc j) → j ≡ i)))

update_self : (f : ℕ → Pc) (i : ℕ) (a : Pc) → update f i a i ≡ a
unfolding update
update_self f i a = ground arith

update_other : (f : ℕ → Pc) (i j : ℕ) (a : Pc) → i ≢ j → update f i a j ≡ f j
unfolding update
update_other f i j a h = ground arith

-- A move that neither takes nor gives back keeps who holds.
Holds-move :
    (f : ℕ → Pc) (i : ℕ) (a : Pc)
    → (Holds a → Holds (f i)) × (Holds (f i) → Holds a)
    → (j : ℕ) → (Holds (update f i a j) → Holds (f j)) × (Holds (f j) → Holds (update f i a j))
Holds-move f i a (back, forth) j = elim (ℕ_discrete i j) [
  | yes e ↦
      subst (λ k. (Holds (update f i a k) → Holds (f k)) × (Holds (f k) → Holds (update f i a k))) e
        (rw update_self (back, forth))
  | no h ↦ rw (update_other f i j a h) ((λ p. p), (λ p. p))
]

Inv-same :
    (m : Mutex) (b : Bytes) (s t : System)
    → lookup m.unlock_name t.disk.files ≡ lookup m.unlock_name s.disk.files
    → lookup m.lock_name t.disk.files ≡ lookup m.lock_name s.disk.files
    → ((j : ℕ) → (Holds (t.pc j) → Holds (s.pc j)) × (Holds (s.pc j) → Holds (t.pc j)))
    → Inv m b s
    → Inv m b t
Inv-same m b s t p q each (inl (free, nobody)) =
    inl (record { there = p ∙ free.there; gone = q ∙ free.gone }, λ i h. nobody i ((each i).0 h))
Inv-same m b s t p q each (inr (held, (i, h, only))) = inr (
  record { there = q ∙ held.there; gone = p ∙ held.gone },
  (i, (each i).1 h, λ j k. only j ((each j).0 k)),
)

module _ (m : Mutex) (two : m.unlock_name ≢ m.lock_name) (b : Bytes) where
  take_lem :
      (s : System) (i : ℕ) (e : Disk)
      → rename s.disk m.unlock_name m.lock_name ≡ some e
      → Inv m b s
      → Inv m b (record { disk = e; pc = update s.pc i holding })
  take_lem s i e renamed (inl (free, nobody)) =
      let moved = Moved-of_rename s.disk m.unlock_name m.lock_name b e two free.there renamed in
      inr (
        record { there = moved.there; gone = moved.gone },
        (
          i,
          rw update_self tt,
          λ j h. elim (ℕ_discrete i j) [
            | yes p ↦ sym p
            | no q ↦ absurd (nobody j (rw (update_other s.pc i j holding q) at h))
          ],
        ),
      )
  take_lem s i e renamed (inr (held, h)) =
      let fails = rename_fails s.disk m.unlock_name m.lock_name held.gone in cc

  give_lem :
      (s : System) (i : ℕ) (e : Disk)
      → s.pc i ≡ releasing
      → rename s.disk m.lock_name m.unlock_name ≡ some e
      → Inv m b s
      → Inv m b (record { disk = e; pc = update s.pc i outside })
  give_lem s i e at renamed (inl (free, nobody)) =
      let fails = rename_fails s.disk m.lock_name m.unlock_name free.gone in cc
  give_lem s i e at renamed (inr (held, (k, h, only))) =
      let moved =
        Moved-of_rename s.disk m.lock_name m.unlock_name b e (λ p. two (sym p)) held.there
          renamed in
      let mine : i ≡ k = only i (rw at tt) in
      inl (
        record { there = moved.there; gone = moved.gone },
        λ j g. elim (ℕ_discrete i j) [
          | yes p ↦ subst Holds (ap (update s.pc i outside) (sym p) ∙ update_self s.pc i outside) g
          | no q ↦ q (mine ∙ sym (only j (rw (update_other s.pc i j outside q) at g)))
        ],
      )

  move_lem :
      (s : System) (i : ℕ) (a c : Pc)
      → s.pc i ≡ c
      → (Holds a → Holds c) × (Holds c → Holds a)
      → Inv m b s
      → Inv m b (move s i a)
  move_lem s i a c at same inv =
      Inv-same m b s (move s i a) refl refl (Holds-move s.pc i a (rw at same)) inv

  pub Step-Inv : {s t : System} → Step m s t → Inv m b s → Inv m b t
  Step-Inv {s} (lock_test i at free e) inv =
      rw e (move_lem s i checked outside at ((λ h. h), (λ h. h)) inv)
  Step-Inv {s} (lock_rename i d at renamed e) inv = rw e (take_lem s i d renamed inv)
  Step-Inv {s} (lock_throws i at renamed e) inv =
      rw e (move_lem s i outside checked at ((λ h. h), (λ h. h)) inv)
  Step-Inv {s} (unlock_test i at free e) inv =
      rw e (move_lem s i releasing holding at ((λ h. h), (λ h. h)) inv)
  Step-Inv {s} (unlock_rename i d at renamed e) inv = rw e (give_lem s i d at renamed inv)
  Step-Inv {s} (unlock_throws i at renamed e) inv =
      rw e (move_lem s i holding releasing at ((λ h. h), (λ h. h)) inv)
  Step-Inv {s} (elsewhere d p q e) inv =
      rw e (Inv-same m b s (record s { disk = d }) p q (λ j. ((λ h. h), (λ h. h))) inv)

  Reach-Inv : {s t : System} → Inv m b s → Reach m s t → Inv m b t
  Reach-Inv inv here = inv
  Reach-Inv inv (next r st) = Step-Inv st (Reach-Inv inv r)

-- Let a mutex with two different names be free, and every process outside. However the processes'
-- tests and renames interleave with each other and with changes to other files, at most one process
-- holds the mutex at a time.
pub mutual_exclusion :
    (m : Mutex) (b : Bytes) (s t : System)
    → m.unlock_name ≢ m.lock_name
    → IsFree m b s.disk
    → ((i : ℕ) → s.pc i ≡ outside)
    → Reach m s t
    → (i j : ℕ) → Holds (t.pc i)
    → Holds (t.pc j)
    → i ≡ j
mutual_exclusion m b s t two free idle r i j hi hj =
    elim (Reach-Inv m two b (inl (free, λ k h. subst Holds (idle k) h)) r) [
      | inl (_, nobody) ↦ absurd (nobody i hi)
      | inr (_, (k, _, only)) ↦ only i hi ∙ sym (only j hj)
    ]

-- A process that holds the mutex gives it back in one round of `Unlock`: it does not find the
-- unlocked file, and its rename succeeds.
pub unlock_succeeds :
    (m : Mutex) (b : Bytes) (s t : System)
    → m.unlock_name ≢ m.lock_name
    → IsFree m b s.disk
    → ((i : ℕ) → s.pc i ≡ outside)
    → Reach m s t
    → (i : ℕ) → Holds (t.pc i)
    → (e : Disk) × (unlock m t.disk ≡ (0, e)) × IsFree m b e
unlock_succeeds m b s t two free idle r i hi =
    elim (Reach-Inv m two b (inl (free, λ k h. subst Holds (idle k) h)) r) [
      | inl (_, nobody) ↦ absurd (nobody i hi)
      | inr (held, _) ↦
          let (e, done, freed, _) = unlock_releases m b t.disk two held in (e, done, freed)
    ]
