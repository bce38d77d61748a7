-- ===== src/Fs/Dir/Search.antt =====
-- What dirlookup finds in a directory that has all its blocks.
use os.Prelude.{
  ℕ, zero, suc, ◌+◌, ◌*◌, ◌/◌, ◌%◌, ◌≤◌, ◌<◌, ◌≡◌, ◌≢◌, refl, arith, Bool, true, false, List, some,
  ◌==◌, ltb, Bool-cases, inl, inr, ◌⊎◌, ==_of_eq, length,
}
use mathlib.Core.Path.{subst}
use native.Mathlib.Decide.{ℕ_discrete}
use os.Fs.Disk.{bsize, Disk}
use os.Fs.Inode.{Inode, maxfile}
use os.Fs.Content.{t_dir, t_dev, bytes_at}
use os.Fs.Content.Blocks.{owned, content, Fits}
use os.Fs.Content.Read.{length-bytes_at}
use os.Fs.Content.Round.{readi-owned}
use os.Fs.Dir.{
  sizeof_dirent, dirent_inum, dirent_name, namecmp, whole_dirent, read_dirent, Lookup, panics,
  absent, found, look_at, look_from, dirlookup,
}

-- The directory is made of entries, and has a block for each of its bytes.
pub record Solid (n size : ℕ) (dp : Inode) (disk : Disk) : Type 0 where
  pub fits : Fits n size dp disk
  pub type : dp.type ≡ t_dir
  pub whole : dp.size % sizeof_dirent ≡ 0
  pub short : dp.size ≤ maxfile * bsize
  pub blocks : (o : ℕ) → o < dp.size → owned (o / bsize) dp disk ≢ 0

-- The entry at an offset.
abbrev pub dirent : Inode → Disk → ℕ → List ℕ
dirent dp disk o = bytes_at sizeof_dirent o (content dp disk)

abbrev pub Misses : List ℕ → List ℕ → Type 0
Misses name de = (dirent_inum de ≡ 0) ⊎ (namecmp name (dirent_name de) ≡ false)

-- The first entry from offset off on that is in use under this name, and nothing has changed.
pub record Finds (name : List ℕ) (dp : Inode) (disk : Disk) (off o inum : ℕ) : Type 0 where
  pub from : off ≤ o
  pub inside : o < dp.size
  pub aligned : o % sizeof_dirent ≡ 0
  pub number : dirent_inum (dirent dp disk o) ≡ inum
  pub used : inum ≢ 0
  pub named : namecmp name (dirent_name (dirent dp disk o)) ≡ true
  pub first : (p : ℕ) → off ≤ p → p < o → p % sizeof_dirent ≡ 0 → Misses name (dirent dp disk p)

unfoldable pub Looks : List ℕ → Inode → Disk → ℕ → Lookup → Type 0
Looks name dp disk off panics = ⊥
Looks name dp disk off (absent dp' disk') =
    (dp' ≡ dp)
    × (disk' ≡ disk)
    × ((o : ℕ) → off ≤ o → o < dp.size → o % sizeof_dirent ≡ 0 → Misses name (dirent dp disk o))
Looks name dp disk off (found o inum dp' disk') =
    (dp' ≡ dp) × (disk' ≡ disk) × Finds name dp disk off o inum

pub read_dirent_lem :
    (n size : ℕ) (has : ℕ → Bool) (off : ℕ) (dp : Inode) (disk : Disk)
    → Solid n size dp disk
    → off + sizeof_dirent ≤ dp.size
    → read_dirent has off dp disk ≡ some (dirent dp disk off, dp, disk)
unfolding whole_dirent
read_dirent_lem n size has off dp disk s l =
    let b = s.short in
    let t : dp.type ≢ t_dev = λ e. let d = s.type in absurd (omega arith) in
    let whole =
      ==_of_eq (length (dirent dp disk off)) sizeof_dirent
        (length-bytes_at sizeof_dirent off (content dp disk)) in
    rw (readi-owned has off sizeof_dirent dp disk t l b (λ o p q. s.blocks o (omega arith)), whole)
      refl

Looks-later :
    (name : List ℕ) (dp : Inode) (disk : Disk) (off : ℕ) (l : Lookup)
    → off % sizeof_dirent ≡ 0
    → Misses name (dirent dp disk off)
    → Looks name dp disk (off + sizeof_dirent) l
    → Looks name dp disk off l
unfolding Looks
Looks-later name dp disk off panics a m h = absurd h
Looks-later name dp disk off (absent dp' disk') a m (e, e', h) = (
  e,
  e',
  λ o g l z. elim (ℕ_discrete off o) [
    | yes q ↦ subst (λ p. Misses name (dirent dp disk p)) q m
    | no q ↦ h o (omega arith) l z
  ],
)
Looks-later name dp disk off (found o inum dp' disk') a m (e, e', h) =
    let f = h.from in
    (
      e,
      e',
      (record {
        from = omega arith;
        inside = h.inside;
        aligned = h.aligned;
        number = h.number;
        used = h.used;
        named = h.named;
        first = λ p g l z. elim (ℕ_discrete off p) [
          | yes q ↦ subst (λ p. Misses name (dirent dp disk p)) q m
          | no q ↦ h.first p (omega arith) l z
        ];
      }),
    )

look_at-Looks :
    (name : List ℕ) (dp : Inode) (disk : Disk) (off : ℕ) (later : Inode → Disk → Lookup)
    → off % sizeof_dirent ≡ 0
    → off < dp.size
    → Looks name dp disk (off + sizeof_dirent) (later dp disk)
    → Looks name dp disk off (look_at off name later (some (dirent dp disk off, dp, disk)))
unfolding look_at Looks
look_at-Looks name dp disk off later a l h =
    let de = dirent dp disk off in
    elim (Bool-cases (dirent_inum de == 0)) [
      | inl z ↦ rw z (Looks-later name dp disk off (later dp disk) a (inl (ground arith)) h)
      | inr z ↦ elim (Bool-cases (namecmp name (dirent_name de))) [
        | inr q ↦ rw (z, q) (Looks-later name dp disk off (later dp disk) a (inr q) h)
        | inl q ↦
            rw (z, q)
              (
                refl,
                refl,
                (record {
                  from = omega arith;
                  inside = l;
                  aligned = a;
                  number = refl;
                  used = ground arith;
                  named = q;
                  first = λ p g l z. absurd (omega arith);
                }),
              )
      ]
    ]

look_from-Looks :
    (n size : ℕ) (has : ℕ → Bool) (rounds off : ℕ) (name : List ℕ) (dp : Inode) (disk : Disk)
    → Solid n size dp disk
    → off % sizeof_dirent ≡ 0
    → dp.size ≤ off + sizeof_dirent * rounds
    → Looks name dp disk off (look_from has rounds off name dp disk)
unfolding look_from Looks
look_from-Looks n size has zero off name dp disk s a l =
    (refl, refl, λ o g q z. absurd (omega arith))
look_from-Looks n size has (suc rounds) off name dp disk s a l =
    elim (Bool-cases (ltb off dp.size)) [
      | inr e ↦ rw (look_from, e) (refl, refl, λ o g q z. absurd (ground arith))
      | inl e ↦
          let w = s.whole in
          let lt : off < dp.size = ground arith in
          rw (look_from, e, read_dirent_lem n size has off dp disk s (omega arith))
            (look_at-Looks name dp disk off (look_from has rounds (off + sizeof_dirent) name) a lt (
              look_from-Looks n size has rounds (off + sizeof_dirent) name dp disk s (omega arith)
                (omega arith)))
    ]

-- dirlookup in a directory that consists of entries and has all its blocks gives the first entry in
-- use that has the name, or says that there is none; it does not panic and changes nothing.
pub dirlookup-Looks :
    (n size : ℕ) (has : ℕ → Bool) (name : List ℕ) (dp : Inode) (disk : Disk)
    → Solid n size dp disk
    → Looks name dp disk 0 (dirlookup has name dp disk)
unfolding dirlookup
dirlookup-Looks n size has name dp disk s =
    rw (==_of_eq dp.type t_dir s.type)
      (look_from-Looks n size has (dp.size / sizeof_dirent + 1) 0 name dp disk s refl (omega arith))
