-- ===== src/Fs/Dir/Keep.antt =====
-- A lookup leaves device, number and reference count of the directory alone.
use os.Prelude.{
  ℕ, zero, suc, ◌+◌, ◌/◌, refl, Bool, true, false, List, ◌==◌, ltb, if◌then◌else◌, Bool-cases, inl,
  inr, length,
}
use os.Fs.Disk.{Disk}
use os.Fs.Inode.{Inode}
use os.Fs.Content.{t_dir, Outcome, panicked, failed, device, answers, readi}
use os.Fs.Content.Trunc.{Same}
use os.Fs.Content.Keep.{Leaves, Leaves-readi, Same-trans}
use os.Fs.Dir.{
  sizeof_dirent, dirent_inum, dirent_name, namecmp, whole_dirent, read_dirent, Lookup, panics,
  absent, found, look_at, look_from, dirlookup,
}

unfoldable pub Looked : Inode → Lookup → Type 0
Looked dp panics = Unit
Looked dp (absent q d) = Same dp q
Looked dp (found off inum q d) = Same dp q

Looked-trans : (p q : Inode) (l : Lookup) → Same p q → Looked q l → Looked p l
unfolding Looked
Looked-trans p q panics s l = tt
Looked-trans p q (absent r d) s l = Same-trans p q r s l
Looked-trans p q (found off inum r d) s l = Same-trans p q r s l

Looked-if :
    (dp : Inode) (b : Bool) (l l' : Lookup)
    → Looked dp l
    → Looked dp l'
    → Looked dp (if b then l else l')
Looked-if dp true l l' h h' = h
Looked-if dp false l l' h h' = h'

Looked-look_at :
    (off : ℕ) (name : List ℕ) (dp : Inode) (later : Inode → Disk → Lookup) (o : Outcome (List ℕ))
    → ((q : Inode) (d : Disk) → Looked q (later q d))
    → Leaves dp o
    → Looked dp (look_at off name later (whole_dirent o))
unfolding Looked look_at whole_dirent Leaves
Looked-look_at off name dp later panicked h l = tt
Looked-look_at off name dp later failed h l = tt
Looked-look_at off name dp later (device d) h l = tt
Looked-look_at off name dp later (answers de q d) h l =
    let rest = Looked-trans dp q (later q d) l (h q d) in
    elim (Bool-cases (length de == sizeof_dirent)) [
      | inr e ↦ rw e tt
      | inl e ↦ rw e (
          Looked-if dp (dirent_inum de == 0) (later q d)
            (if namecmp name (dirent_name de) then found off (dirent_inum de) q d else later q d)
            rest
            (Looked-if dp (namecmp name (dirent_name de)) (found off (dirent_inum de) q d)
              (later q d) l rest))
    ]

Looked-look_from :
    (has : ℕ → Bool) (rounds off : ℕ) (name : List ℕ) (dp : Inode) (disk : Disk)
    → Looked dp (look_from has rounds off name dp disk)
unfolding look_from Looked
Looked-look_from has zero off name dp disk = (refl, refl, refl)
Looked-look_from has (suc rounds) off name dp disk =
    let later = look_from has rounds (off + sizeof_dirent) name in
    Looked-if dp (ltb off dp.size) (look_at off name later (read_dirent has off dp disk))
      (absent dp disk)
      (Looked-look_at off name dp later (readi has off sizeof_dirent dp disk)
        (λ q d. Looked-look_from has rounds (off + sizeof_dirent) name q d)
        (Leaves-readi has off sizeof_dirent dp disk))
      (refl, refl, refl)

pub Looked-dirlookup :
    (has : ℕ → Bool) (name : List ℕ) (dp : Inode) (disk : Disk)
    → Looked dp (dirlookup has name dp disk)
unfolding dirlookup Looked
Looked-dirlookup has name dp disk =
    let all = look_from has (dp.size / sizeof_dirent + 1) 0 name dp disk in
    Looked-if dp (dp.type == t_dir) all panics
      (Looked-look_from has (dp.size / sizeof_dirent + 1) 0 name dp disk) tt
