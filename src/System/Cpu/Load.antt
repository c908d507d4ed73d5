-- ===== src/System/Cpu/Load.antt =====
-- `getCurrentValue` on the lines of five processors.
use gorn.Common.{
  ◌+◌, ◌-◌, ◌%◌, ◌^◌, ◌≤◌, ◌<◌, ◌≡◌, sym, ap, subst, ◌⊎◌, inl, inr, ◌||◌, List, [], ◌∷◌, arith, ltb,
  length, All, Bool-cases,
}
use gorn.Text.{Bytes}
use gorn.System.Cpu.{
  Counters, cpu_names, Percent, skipped, share, percent_of, percents, Cpus, get_current_value,
}
use gorn.System.Cpu.Stat.{
  Row, stat_text, busy, whole, IsRow, counters_of, scan_each-stat_text, cpu_names-IsWord,
}

abbrev pub Falls : Counters → Counters → Type 0
Falls last now =
    (now.user < last.user)
    ⊎ ((now.user_low < last.user_low) ⊎ ((now.sys < last.sys) ⊎ (now.idle < last.idle)))

abbrev pub Rises : Counters → Counters → Type 0
Rises last now =
    last.user ≤ now.user × last.user_low ≤ now.user_low × last.sys ≤ now.sys × last.idle ≤ now.idle

-- The load between two calls.
abbrev pub IsLoad : Counters → Counters → Percent → Type 0
IsLoad last now p =
    (Falls last now × (p ≡ skipped))
    ⊎ (Rises last now × (p ≡ share (busy now - busy last) (whole now - whole last)))

abbrev pub Loads : List Counters → List Row → List Percent → Type 0
Loads [] [] [] = Unit
Loads (l ∷ ls) (r ∷ rows) (p ∷ ps) = IsLoad l r.counters p × Loads ls rows ps
Loads ls rows ps = ⊥

module _ (last now : Counters) (a : last.user ≤ now.user) (b : last.user_low ≤ now.user_low)
    (c : last.sys ≤ now.sys) where
  used_exact :
      whole now < 2 ^ 64
      → ((now.user - last.user) + (now.user_low - last.user_low) + (now.sys - last.sys)) % 2 ^ 64
        ≡ busy now - busy last
  used_exact h = omega arith

  whole_exact :
      last.idle ≤ now.idle
      → whole now < 2 ^ 64
      → (((now.user - last.user) + (now.user_low - last.user_low) + (now.sys - last.sys)) % 2 ^ 64
            + (now.idle - last.idle))
          % 2 ^ 64
        ≡ whole now - whole last
  whole_exact d h = omega arith

percent_of-IsLoad :
    (last : Counters) (r : Row) → IsRow r → IsLoad last r.counters (percent_of last r.counters)
unfolding percent_of
percent_of-IsLoad last r h =
    let now = r.counters in
    elim (Bool-cases (
      ltb now.user last.user
      || ltb now.user_low last.user_low
      || ltb now.sys last.sys
      || ltb now.idle last.idle)) [
        | inl e ↦ inl (ground arith, rw e)
        | inr e ↦
            let a : last.user ≤ now.user = ground arith in
            let b : last.user_low ≤ now.user_low = ground arith in
            let c : last.sys ≤ now.sys = ground arith in
            let d : last.idle ≤ now.idle = ground arith in
            inr (
              (a, b, c, d),
              rw e (λ i.
                  share ((used_exact last now a b c h.bounded) i)
                    ((whole_exact last now a b c d h.bounded) i)),
            )
      ]

percents-Loads :
    (lasts : List Counters) (rows : List Row)
    → All IsRow rows
    → length lasts ≡ length rows
    → Loads lasts rows (percents lasts (counters_of rows))
unfolding percents
percents-Loads [] [] h e = tt
percents-Loads [] (r ∷ rows) h e = absurd (omega arith)
percents-Loads (l ∷ lasts) [] h e = absurd (omega arith)
percents-Loads (l ∷ lasts) (r ∷ rows) (p, h) e =
    (percent_of-IsLoad l r p, percents-Loads lasts rows h (omega arith))

-- On a /proc/stat that begins with the lines of the processor and its first four parts, each with
-- ten numbers of at most 64 bits of which the first four add up to less than 2 ^ 64,
-- `getCurrentValue` takes the four counters of each line for the next call, and gives of each the
-- value -1 if a counter fell since the last call, and else the quotient of what the first three and
-- of what all four counters grew by, without overflow.
pub get_current_value-Loads :
    (rows : List Row) (s : Bytes) (c : Cpus)
    → All IsRow rows
    → length rows ≡ 5
    → length c.last ≡ 5
    → length c.now ≡ 5
    → Loads c.last rows (get_current_value (stat_text cpu_names rows s) c).0
      × ((get_current_value (stat_text cpu_names rows s) c).1
          ≡ record { last = counters_of rows; now = counters_of rows })
unfolding get_current_value
get_current_value-Loads rows s c h e f g =
    let read = (scan_each-stat_text cpu_names rows c.now s cpu_names-IsWord h e g).0 in
    (
      subst (λ (z : List Counters). Loads c.last rows (percents c.last z)) (sym read)
          (percents-Loads c.last rows h (omega arith)),
      ap (λ (z : List Counters). (let r : Cpus = record { last = z; now = z } in r)) read,
    )
