-- ===== src/Fs/Content/Store.antt =====
-- What stays and what changes when one block is written that is none of the bitmap.
use os.Prelude.{
  ℕ, ◌-◌, ◌*◌, ◌/◌, ◌%◌, ◌≤◌, ◌<◌, ◌≡◌, ◌≢◌, refl, sym, ap, ◌∙◌, arith, ◌==◌, if◌then◌else◌,
  ==_of_ne, ==_of_eq,
}
use native.Mathlib.Decide.{ℕ_discrete}
use os.Fs.Disk.{bsize, Block, Disk, put_block, word}
use os.Fs.Bitmap.{bblock}
use os.Fs.Bitmap.Marks.{in_use}
use os.Fs.Inode.{Inode, ndirect, maxfile, iblock, put_dinode, dinode_at, iupdate}
use os.Fs.Content.Blocks.{owned, content, Fits}

module _ (n size x : ℕ) (bytes : Block) (ip : Inode) (disk : Disk) (f : Fits n size ip disk)
    (not_super : x ≢ 1) (not_bitmap : (c : ℕ) → c < size → x ≢ bblock c n)
    (not_indirect : x ≢ owned maxfile ip disk) where
  pub put_block-owned : (k : ℕ) → owned k ip (put_block x bytes disk) ≡ owned k ip disk
  put_block-owned k =
      let same : put_block x bytes disk (ip.addrs ndirect) ≡ disk (ip.addrs ndirect) =
        rw (==_of_ne x (ip.addrs ndirect) not_indirect) refl in
      let w = ap (word (4 * (k - ndirect))) same in ground arith

  pub put_block-in_use : (c : ℕ) → c < size → in_use n (put_block x bytes disk) c ≡ in_use n disk c
  put_block-in_use c l = rw (==_of_ne x (bblock c n) (not_bitmap c l)) refl

  pub put_block-Fits : Fits n size ip (put_block x bytes disk)
  put_block-Fits =
      let super : put_block x bytes disk 1 ≡ disk 1 = rw (==_of_ne x 1 not_super) refl in
      record {
        ninodes = ap (word 8) super ∙ f.ninodes;
        blocks = ap (word 0) super ∙ f.blocks;
        small = f.small;
        guarded = record {
          metadata = λ c l.
              let room = f.guarded.room in
              rw (put_block-in_use c (omega arith)) (f.guarded.metadata c l);
          room = f.guarded.room;
        };
        inode = f.inode;
        behind = λ k l h. rw (put_block-owned k) (f.behind k l (rw (← put_block-owned k) h));
        inside = λ k l. rw (put_block-owned k) (f.inside k l);
        used = λ k l h.
            rw (put_block-owned k, put_block-in_use (owned k ip disk) (f.inside k l))
              (f.used k l (rw (← put_block-owned k) h));
        apart = λ k l p q h e.
            f.apart k l p q (λ z. h (put_block-owned k ∙ z))
              (sym (put_block-owned k) ∙ e ∙ put_block-owned l);
      }

-- Block k of the content is written.
module _ (n size k : ℕ) (bytes : Block) (ip : Inode) (disk : Disk) (f : Fits n size ip disk)
    (l : k < maxfile) (h : owned k ip disk ≢ 0) where
  abbrev stored : Disk
  stored = put_block (owned k ip disk) bytes disk

  not_metadata : (c : ℕ) → c ≤ bblock size n → owned k ip disk ≢ c
  not_metadata c q e = let far = f.behind k (omega arith) h in absurd (omega arith)

  not_indirect : owned k ip disk ≢ owned maxfile ip disk
  not_indirect e = let q = f.apart k maxfile (omega arith) (omega arith) h e in absurd (omega arith)

  pub stored-Fits : Fits n size ip stored
  stored-Fits =
      put_block-Fits n size (owned k ip disk) bytes ip disk f (not_metadata 1 (omega arith))
        (λ c q. not_metadata (bblock c n) (omega arith)) not_indirect

  pub stored-owned : (j : ℕ) → owned j ip stored ≡ owned j ip disk
  stored-owned =
      put_block-owned n size (owned k ip disk) bytes ip disk f (not_metadata 1 (omega arith))
        (λ c q. not_metadata (bblock c n) (omega arith)) not_indirect

  pub stored-in_use : (c : ℕ) → c < size → in_use n stored c ≡ in_use n disk c
  stored-in_use c q =
      put_block-in_use n size (owned k ip disk) bytes ip disk f (not_metadata 1 (omega arith))
        (λ c q. not_metadata (bblock c n) (omega arith)) not_indirect c q

  pub stored-content :
      (o : ℕ)
      → o < maxfile * bsize
      → content ip stored o ≡ (if k == o / bsize then bytes (o % bsize) else content ip disk o)
  stored-content o q = rw (stored-owned (o / bsize)) (elim (ℕ_discrete k (o / bsize)) [
    | yes e ↦
        let same = ap (λ j. owned j ip disk) e in
        rw
          (
            (==_of_eq k (o / bsize) e),
            (==_of_eq (owned k ip disk) (owned (o / bsize) ip disk) same),
            (==_of_ne (owned (o / bsize) ip disk) 0 (λ z. h (same ∙ z))),
          )
          refl
    | no e ↦
        let other : owned k ip disk ≢ owned (o / bsize) ip disk =
          λ z. e (f.apart k (o / bsize) (omega arith) (omega arith) h z) in
        rw
          (
            (==_of_ne k (o / bsize) e),
            (==_of_ne (owned k ip disk) (owned (o / bsize) ip disk) other),
          )
          refl
  ])

-- iupdate writes a block of metadata that is none of the bitmap.
module _ (n size : ℕ) (ip : Inode) (disk : Disk) (f : Fits n size ip disk) where
  not_bitmap : (c : ℕ) → c < size → iblock ip.inum ≢ bblock c n
  not_bitmap c l e = let i = f.inode in absurd (omega arith)

  not_owned : (k : ℕ) → k ≤ maxfile → iblock ip.inum ≢ owned k ip disk
  not_owned k l e =
      let i = f.inode in let far = f.behind k l (λ z. absurd (omega arith)) in absurd (omega arith)

  pub iupdate-Fits : Fits n size ip (iupdate ip disk)
  iupdate-Fits =
      put_block-Fits n size (iblock ip.inum)
        (put_dinode (dinode_at ip.inum) ip (disk (iblock ip.inum))) ip disk f
        (λ e. absurd (omega arith)) not_bitmap (not_owned maxfile (omega arith))

  pub iupdate-owned : (k : ℕ) → owned k ip (iupdate ip disk) ≡ owned k ip disk
  iupdate-owned =
      put_block-owned n size (iblock ip.inum)
        (put_dinode (dinode_at ip.inum) ip (disk (iblock ip.inum))) ip disk f
        (λ e. absurd (omega arith)) not_bitmap (not_owned maxfile (omega arith))

  pub iupdate-content :
      (o : ℕ) → o < maxfile * bsize → content ip (iupdate ip disk) o ≡ content ip disk o
  iupdate-content o l =
      rw
        (
          (iupdate-owned (o / bsize)),
          (==_of_ne (iblock ip.inum) (owned (o / bsize) ip disk)
              (not_owned (o / bsize) (omega arith))),
        )
        refl

  pub iupdate-in_use : (c : ℕ) → c < size → in_use n (iupdate ip disk) c ≡ in_use n disk c
  iupdate-in_use c l =
      put_block-in_use n size (iblock ip.inum)
        (put_dinode (dinode_at ip.inum) ip (disk (iblock ip.inum))) ip disk f
        (λ e. absurd (omega arith)) not_bitmap (not_owned maxfile (omega arith)) c l
