-- ===== src/Files/Close.antt =====
-- close: one reference less, and what happens with the last one.
use mathlib.Core.Path.{subst}
use os.Prelude.{
  true, ℕ, zero, suc, ◌<◌, ◌⊎◌, leb, none≢some, leb_of_lt, ◌+◌, ◌-◌, ◌≡◌, ◌≢◌, refl, sym, ◌∙◌, inl,
  inr, List, Option, none, some, arith, ltb, if◌then◌else◌, get_elem?, modify, set, Bool-cases,
  ==_of_eq, ==_of_ne, ltb_of_le,
}
use os.Files.{
  File, FileType, fd_none, fd_pipe, fd_inode, nothing, pipeclose, iput, nofile, set_ref, retire,
  Closed, kept, last_close, close_ref, fileclose, argfd, Outcome, panicked, failed, answers,
  close_file, sys_close,
}
use os.Files.Counted.{Counts, one_more, with_fds, holders-clear, modify-Counts}
use os.Files.Dup.{argfd-at}

-- What happens when the count of a file says that so many references are left.
abbrev pub on_close : File → ℕ → Closed
on_close f left = if ltb 0 left then kept else last_close f

-- Closing a file takes one reference away; the last one decides what becomes of the file.
pub fileclose-Counts :
    (table : List File) (refs refs' : ℕ → ℕ) (i : ℕ)
    → Counts table refs
    → ((j : ℕ) → refs j ≡ one_more i refs' j)
    → (f : File) × (table' : List File) × (get_elem? table i ≡ some f)
      × (fileclose i table ≡ some (on_close f (refs' i), table'))
      × Counts table' refs'
unfolding fileclose close_ref set_ref retire
fileclose-Counts table refs refs' i c less =
    let was : refs i ≡ 1 + refs' i = less i ∙ rw (==_of_eq i i refl) refl in
    let (f, e) = c.inside i (omega arith) in
    let count = c.right i f e in
    let left : f.ref - 1 ≡ refs' i = omega arith in
    let stay : (j : ℕ) → i ≢ j → refs' j ≡ refs j =
      (λ j ne. sym (less j ∙ rw (==_of_ne i j ne) refl)) in
    elim (Bool-cases (ltb 0 (refs' i))) [
      | inl more ↦ (
        f,
        modify table i (set_ref (f.ref - 1)),
        e,
        rw (e, ltb_of_le f.ref 1 (omega arith), left, more) refl,
        modify-Counts table refs refs' i (set_ref (f.ref - 1)) f c e left stay,
      )
      | inr last ↦ (
        f,
        modify table i retire,
        e,
        rw (e, ltb_of_le f.ref 1 (omega arith), left, last) refl,
        modify-Counts table refs refs' i retire f c e (ground arith) stay,
      )
    ]

-- What becomes of a file of which so many references are left: nothing while there are some, and
-- with the last one its end of the pipe is closed, or its inode put.
abbrev pub Ends : ℕ → File → Closed → Type 0
Ends left f closed =
    ((0 < left) × (closed ≡ kept))
    ⊎ ((left ≡ 0)
        × (((f.type ≡ fd_none) × (closed ≡ nothing))
            ⊎ (((f.type ≡ fd_pipe) × (closed ≡ pipeclose f.pipe f.writable))
                ⊎ ((f.type ≡ fd_inode) × (closed ≡ iput f.ip)))))

-- A descriptor that is open, in a table of NOFILE.
abbrev pub Open : ℕ → List (Option ℕ) → ℕ → Type 0
Open fd ofile i = (fd < nofile) × (get_elem? ofile fd ≡ some (some i))

last_close-Ends : (f : File) (left : ℕ) → left ≡ 0 → Ends left f (last_close f)
unfolding last_close
last_close-Ends f left z = inr (
  z,
  elim (type_cases f.type) [
    | inl e ↦ inl (e, rw e refl)
    | inr r ↦ inr (elim r [ inl e ↦ inl (e, rw e refl) | inr e ↦ inr (e, rw e refl) ])
  ],
)
  where
    type_cases : (t : FileType) → (t ≡ fd_none) ⊎ ((t ≡ fd_pipe) ⊎ (t ≡ fd_inode))
    type_cases fd_none = inl refl
    type_cases fd_pipe = inr (inl refl)
    type_cases fd_inode = inr (inr refl)

on_close-Ends : (f : File) (left : ℕ) → Ends left f (on_close f left)
on_close-Ends f zero = last_close-Ends f zero refl
on_close-Ends f (suc left) =
    let more : ltb 0 (suc left) ≡ true = ground arith in inl (omega arith, rw more refl)

argfd-Open : (fd i : ℕ) (ofile : List (Option ℕ)) → argfd fd ofile ≡ some i → Open fd ofile i
unfolding argfd
argfd-Open fd i ofile e = elim (Bool-cases (leb nofile fd)) [
  | inl b ↦ cc (rw (b, argfd) at e)
  | inr b ↦ (ground arith, argfd-at ofile fd i e)
]

argfd-shut :
    (fd : ℕ) (ofile : List (Option ℕ)) → argfd fd ofile ≡ none → (i : ℕ) → ¬ Open fd ofile i
unfolding argfd
argfd-shut fd ofile e i (l, at) =
    none≢some {A = ℕ} {a = i} (sym e ∙ rw (leb_of_lt nofile fd l, at) refl)

-- What an outcome of close says.
abbrev pub Closes : ℕ → List File → List (Option ℕ) → (ℕ → ℕ) → Outcome Closed → Type 0
Closes fd table ofile others panicked = ⊥
Closes fd table ofile others failed = (i : ℕ) → ¬ Open fd ofile i
Closes fd table ofile others (answers closed table' ofile') =
    (i : ℕ) × (f : File) × Open fd ofile i
    × (get_elem? table i ≡ some f)
    × (ofile' ≡ set ofile fd none)
    × Ends (with_fds ofile' others i) f closed
    × Counts table' (with_fds ofile' others)

one_less :
    (ofile : List (Option ℕ)) (others : ℕ → ℕ) (fd f i : ℕ)
    → get_elem? ofile fd ≡ some (some f)
    → with_fds ofile others i ≡ one_more f (with_fds (set ofile fd none) others) i
one_less ofile others fd f i e = let h = holders-clear ofile fd f i e in ground arith

close_file-some :
    (fd i : ℕ) (table table' : List File) (ofile : List (Option ℕ)) (closed : Closed)
    → fileclose i table ≡ some (closed, table')
    → close_file fd table ofile (some i) ≡ answers closed table' (set ofile fd none)
unfolding close_file
close_file-some fd i table table' ofile closed e = rw (close_file, e) refl

close_file-Closes :
    (fd : ℕ) (table : List File) (ofile : List (Option ℕ)) (others : ℕ → ℕ) (r : Option ℕ)
    → Counts table (with_fds ofile others)
    → argfd fd ofile ≡ r
    → Closes fd table ofile others (close_file fd table ofile r)
unfolding close_file
close_file-Closes fd table ofile others none c a = argfd-shut fd ofile a
close_file-Closes fd table ofile others (some i) c a =
    let less = (λ (j : ℕ). one_less ofile others fd i j (argfd-at ofile fd i a)) in
    let (f, table', e, runs, counts) =
      fileclose-Counts table (with_fds ofile others) (with_fds (set ofile fd none) others) i c
        less in
    subst (Closes fd table ofile others) (sym (close_file-some fd i table table' ofile _ runs)) (
      i,
      f,
      argfd-Open fd i ofile a,
      e,
      refl,
      on_close-Ends f (with_fds (set ofile fd none) others i),
      counts,
    )

-- Where every reference count is the number of references, close does not panic. It fails just if
-- the descriptor is not open, and else it gives the descriptor up and the counts are right again;
-- the file's end of its pipe is closed, or its inode put, just if no reference to it is left.
pub sys_close-Closes :
    (fd : ℕ) (table : List File) (ofile : List (Option ℕ)) (others : ℕ → ℕ)
    → Counts table (with_fds ofile others)
    → Closes fd table ofile others (sys_close fd table ofile)
unfolding sys_close
sys_close-Closes fd table ofile others c =
    close_file-Closes fd table ofile others (argfd fd ofile) c refl
