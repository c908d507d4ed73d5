-- ===== src/Sorter/Correct.antt =====
-- DataSorterDaemon/DataSorterDaemon.cpp: one round of `main` is correct.
use gorn.Common.{ℕ, ◌≡◌, refl, sym, ap, subst, ◌∙◌, Bool, true, false, List, [], IsStrict, elem}
use gorn.Text.{Bytes}
use gorn.Text.Order.{text_order, member}
use gorn.Text.Stream.{is_nil}
use gorn.Files.{Disk, get_files}
use gorn.Files.Words.{words_of, words_of-lookup}
use gorn.Mutex.{Mutex}
use gorn.Mutex.Calls.{
  IsFree, IsHeld, SameElse, lock_takes, lock_held, unlock_releases, can_open-lock,
}
use gorn.Sorter.{round}
use gorn.Sorter.Round.{
  Sorted, Names, sorted_words, after, elem-sorted_words, lookup-after, words_of-after,
  sorted_words-IsStrict, round-taken, known-locked,
}

module _ (m : Mutex) (d e f : Disk) (files : List Bytes) (initial comprehensive : Bytes)
    (names : Names m files initial comprehensive) (can : e.can_open comprehensive ≡ true) where
  after-IsHeld : (s : Bytes) → IsHeld m s e → IsHeld m s (after e files initial comprehensive)
  after-IsHeld s held = record {
    there =
        lookup-after e files initial comprehensive m.lock_name names.outputs can
          (λ p. names.initial_lock (sym p)) (λ p. names.comprehensive_lock (sym p))
        ∙ rw names.lock_unlisted held.there;
    gone =
        lookup-after e files initial comprehensive m.unlock_name names.outputs can
          (λ p. names.initial_unlock (sym p)) (λ p. names.comprehensive_unlock (sym p))
        ∙ rw names.unlock_unlisted held.gone;
  }

  after-Sorted :
      SameElse m d e
      → SameElse m (after e files initial comprehensive) f
      → Sorted m d files initial comprehensive f
  after-Sorted before behind =
      let final : words_of f initial ≡ sorted_words e files initial comprehensive =
        words_of-lookup f (after e files initial comprehensive) initial initial
          (behind initial names.initial_unlock names.initial_lock)
        ∙ words_of-after e files initial comprehensive names.outputs can in
      let start : words_of e initial ≡ words_of d initial =
        words_of-lookup e d initial initial
          (before initial names.initial_unlock names.initial_lock) in
      record {
        ascending =
            subst IsStrict (sym final) (sorted_words-IsStrict e files initial comprehensive);
        same_words = λ a.
            ap (elem a) final
            ∙ (elem-sorted_words e files initial comprehensive a
                ∙ rw
                    (
                      start,
                      known-locked m d e before files a names.unlock_unlisted names.lock_unlisted,
                    )
                    refl);
        consumed = λ q i qi qc.
            behind q (λ p. cc (ap (λ z. member z files) p, names.unlock_unlisted))
              (λ p. cc (ap (λ z. member z files) p, names.lock_unlisted))
            ∙ (lookup-after e files initial comprehensive q names.outputs can qi qc ∙ rw i refl);
        untouched = λ q i qi qc qu ql.
            behind q qu ql
            ∙ (lookup-after e files initial comprehensive q names.outputs can qi qc
                ∙ rw i (before q qu ql));
      }

-- One round of the sorter from a free mutex, if its directory lists a file, the new file can be
-- opened and the names are different files: the mutex is free again; the words of the old file are
-- now strictly ascending, and are those that the old file or a listed file had; the listed files that
-- are not the old or the new one are gone, and every file that the round does not name is as it was.
pub round-Sorted :
    (m : Mutex) (s : Bytes) (d : Disk) (entries : List (Bytes × Bool))
    (initial comprehensive : Bytes)
    → Names m (get_files entries []) initial comprehensive
    → IsFree m s d
    → d.can_open comprehensive ≡ true
    → is_nil (get_files entries []) ≡ false
    → (f : Disk) × (round m d entries initial comprehensive ≡ (0, f))
      × IsFree m s f
      × Sorted m d (get_files entries []) initial comprehensive f
round-Sorted m s d entries initial comprehensive names free can listed =
    let files = get_files entries [] in
    let (e, took, held, before) = lock_takes m s d names.mutex free in
    let can' : e.can_open comprehensive ≡ true =
      ap (λ (z : ℕ × Disk). z.1.can_open comprehensive) (sym took)
      ∙ (ap (λ (g : Bytes → Bool). g comprehensive) (can_open-lock m d) ∙ can) in
    let a = after e files initial comprehensive in
    let (f, gave, free', behind) =
      unlock_releases m s a names.mutex
        (after-IsHeld m d e e files initial comprehensive names can' s held) in
    (
      f,
      round-taken m d e entries initial comprehensive took listed ∙ gave,
      free',
      after-Sorted m d e f files initial comprehensive names can' before behind,
    )

-- A round that finds the mutex held, returns to the loop with the disk as it was.
pub round_idle :
    (m : Mutex) (s : Bytes) (d : Disk) (entries : List (Bytes × Bool))
    (initial comprehensive : Bytes)
    → IsHeld m s d
    → round m d entries initial comprehensive ≡ (1, d)
unfolding round
round_idle m s d entries initial comprehensive held = rw (lock_held m s d held) refl
