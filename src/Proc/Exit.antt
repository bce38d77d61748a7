-- ===== src/Proc/Exit.antt =====
-- exit of proc.c, from the locking of the table to the call of sched, and what it does to files.
pub mod Handover
pub mod Effect
use os.Prelude.{
  ℕ, zero, suc, ◌+◌, ◌-◌, ◌*◌, ◌%◌, ◌^◌, ◌<◌, ◌≤◌, ◌≡◌, ◌≢◌, ◌⊎◌, ◌↔◌, inl, inr, refl, sym, ap, ◌∙◌,
  Bool, true, false, not, ◌&&◌, ◌||◌, List, [], ◌∷◌, ◌++◌, map, Option, none, some, ◌==◌, ltb, leb,
  if◌then◌else◌, modify, get_elem?, length, ◌>>=◌, arith, Bool-cases, Option-cases, >>=-eq-some,
  some_inj, none≢some, get_elem?-modify_self, get_elem?-modify_ne, ==_of_eq, ==_of_ne,
}
use os.Proc.{
  State, unused, embryo, sleeping, runnable, running, zombie, is_unused, is_sleeping, is_runnable,
  is_zombie, Chan, null, on_proc, on_thread, other, same_chan, Kthread, Proc, is_ready, threads_of,
  nproc, nthread, same_place, thread_at, same_chan_refl,
}
use os.Proc.Wakeup.{wakeup1, wakeup1_present, wakeup1_thread, wakeup1_not_ready}

-- The loop over proc->ofile: the descriptors that fileclose is called for, in order, and the empty
-- table that is left.
unfoldable pub close_files : List (Option ℕ) → List ℕ × List (Option ℕ)
close_files [] = ([], [])
close_files (none ∷ fs) = let (closed, left) = close_files fs in (closed, none ∷ left)
close_files (some f ∷ fs) = let (closed, left) = close_files fs in (f ∷ closed, none ∷ left)

abbrev pub is_live : Kthread → Bool
is_live t = not (is_unused t.state || is_zombie t.state)

-- The count `k` of the inner loop.
unfoldable pub live_threads : List Kthread → ℕ
live_threads [] = 0
live_threads (t ∷ ts) = (if is_live t then 1 else 0) + live_threads ts

-- The same count over the words that stand in memory where the threads have their state: neither
-- UNUSED nor ZOMBIE.
unfoldable pub live_words : List ℕ → ℕ
live_words [] = 0
live_words (w ∷ ws) = (if w == 0 || w == 5 then 0 else 1) + live_words ws

-- The count for a process. Where p->threads is null, the loop reads the caller's own memory from
-- address 0 on, which is mapped: user programs are linked at 0. `low` are the words that it finds.
unfoldable pub count_live : List ℕ → Proc → ℕ
count_live low p = if p.threads then live_threads p.table else live_words low

-- One round of the loop that passes abandoned children to init.
unfoldable pub adopt : ℕ → ℕ → List ℕ → Proc → Proc
adopt init cur low p =
    if same_place p.parent cur
    then record p { parent = some init; state = if count_live low p == 0 then zombie else p.state }
    else p

unfoldable pub adopt_all : ℕ → ℕ → List ℕ → List Proc → List Proc
adopt_all init cur low [] = []
adopt_all init cur low (p ∷ ps) = adopt init cur low p ∷ adopt_all init cur low ps

unfoldable pub end_thread : Kthread → Kthread
end_thread t = record t { state = zombie; tid = 0; parent = none; chan = null }

unfoldable pub end_proc : Proc → Proc
end_proc p = record p {
  ofile = (close_files p.ofile).1;
  cwd = none;
  state = zombie;
  threads = false;
  table = map end_thread p.table;
}

-- The channel that a null or non-null proc->parent is.
abbrev pub parent_chan : Option ℕ → Chan
parent_chan none = null
parent_chan (some i) = on_proc i

-- exit by the process at `cur`; `none` is a panic, or a null p->threads in wakeup1.
unfoldable pub exit : ℕ → ℕ → List ℕ → List Proc → Option (List Proc)
exit init cur low ps =
    if cur == init
    then none
    else (get_elem? ps cur >>= λ p. wakeup1 (parent_chan p.parent) ps >>= λ ps1.
        some (modify (adopt_all init cur low ps1) cur end_proc))

-- No process has the one at `cur` for its parent.
abbrev pub NoChildren : ℕ → List Proc → Type 0
NoChildren cur ps = (i : ℕ) (p : Proc) → get_elem? ps i ≡ some p → same_place p.parent cur ≡ false
