-- ===== src/Crawler/Scanned.antt =====
-- The scan of a page ends, and what it puts into the queues passed the tests.
use gorn.Common.{
  ℕ, zero, suc, ◌+◌, ◌%◌, ◌^◌, ◌≤◌, ◌<◌, ◌≡◌, refl, ap, inl, inr, Bool, true, false, Option, none,
  some, List, [], ◌++◌, arith, ◌==◌, length, length-append, All, All-append, Bool-cases,
}
use gorn.Text.{Bytes, codes}
use gorn.Text.Find.{npos, find_text}
use gorn.Hash.{HashMap}
use gorn.Crawler.{
  Target, Put, put_target, link_text, target_of, Scan, after_link, scan_loop, get_connections,
}
use gorn.Crawler.Allowed.{find_text-behind, IsKeyed, target_of-IsKeyed, Allowed, put_target-Allowed}

module _ (output : Bytes) (m : HashMap) (black_list : List Bytes) (worker_node : Bool)
    (sizes : ℕ → ℕ) where
  -- The scan came to an end after `n` links; each link since gave at most one call of `put`.
  abbrev IsDone : ℕ → Option Scan → Type 0
  IsDone n o =
      (r : Scan) × (o ≡ some r)
      × All (Allowed m black_list worker_node) r.puts
      × n + length r.puts ≤ r.n_links

  abbrev puts_of : ℕ → Target → List Put
  puts_of n t = put_target m black_list worker_node (sizes n) t

  thrown_at : (n : ℕ) → IsDone n (some (record { puts = []; n_links = n + 1; thrown = true }))
  thrown_at n = (record { puts = []; n_links = n + 1; thrown = true }, refl, tt, omega arith)

  after_target :
      (n : ℕ) (o : Option Target) (rest : Option Scan)
      → IsKeyed o
      → IsDone (n + 1) rest
      → IsDone n (elim o [
        | none ↦ some (record { puts = []; n_links = n + 1; thrown = true })
        | some t ↦ after_link (puts_of n t) rest
      ])
  unfolding after_link
  after_target n none rest k h = thrown_at n
  after_target n (some t) rest k (r, e, all, count) =
      let (allowed, one) = put_target-Allowed m black_list worker_node (sizes n) t k in
      let r' : Scan = record r { puts = puts_of n t ++ r.puts } in
      (
        r',
        ap (after_link (puts_of n t)) e,
        All-append (Allowed m black_list worker_node) (puts_of n t) r.puts allowed all,
        omega (arith, length-append (puts_of n t) r.puts),
      )

  after_text :
      (n : ℕ) (o : Option Bytes) (rest : Option Scan)
      → IsDone (n + 1) rest
      → IsDone n (elim o [
        | none ↦ some (record { puts = []; n_links = n + 1; thrown = true })
        | some str ↦ elim (target_of str) [
          | none ↦ some (record { puts = []; n_links = n + 1; thrown = true })
          | some t ↦ after_link (puts_of n t) rest
        ]
      ])
  after_text n none rest h = thrown_at n
  after_text n (some str) rest h = after_target n (target_of str) rest (target_of-IsKeyed str) h

  scan_loop-IsDone :
      (fuel pos n : ℕ)
      → length output < 2 ^ 63
      → pos ≤ length output
      → length output + 2 ≤ pos + fuel
      → IsDone n (scan_loop output m black_list worker_node sizes fuel pos n)
  unfolding scan_loop
  scan_loop-IsDone zero pos n small inside enough = absurd (omega arith)
  scan_loop-IsDone (suc fuel) pos n small inside enough =
      let next = find_text output (codes "<a ") ((pos + 1) % 2 ^ 64) in
      elim (Bool-cases (next == npos)) [
        | inl e ↦ rw e (record { puts = []; n_links = n; thrown = false }, refl, tt, omega arith)
        | inr e ↦
            let (low, high) = find_text-behind output (codes "<a ") pos small inside e in
            rw e (
              after_text n (link_text output next)
                (scan_loop output m black_list worker_node sizes fuel next (n + 1))
                (scan_loop-IsDone fuel next (n + 1) small high (omega arith)))
      ]

  -- On a page shorter than 2 ^ 63 bytes `get_connections` ends, with or without an exception. Each
  -- call of `put` that it made has a node with a host in which no entry of the black list stands,
  -- whose address or, if it has no directory, whose host `validate` takes, and a worker puts it
  -- into `Z`; no more nodes are put than links were counted.
  pub get_connections-Allowed :
      length output < 2 ^ 63
      → (r : Scan) × (get_connections output m black_list worker_node sizes ≡ some r)
        × All (Allowed m black_list worker_node) r.puts
        × length r.puts ≤ r.n_links
  unfolding get_connections
  get_connections-Allowed small =
      let (r, e, all, count) =
        scan_loop-IsDone (length output + 2) 0 0 small (omega arith) (omega arith) in
      (r, e, all, omega arith)
