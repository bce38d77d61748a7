-- ===== src/Fs/Icache/Samples.antt =====
-- A cache of three entries, one of them vacant.
use os.Prelude.{
  ℕ, zero, suc, ◌≡◌, some, arith, ◌==◌, if◌then◌else◌, true, false, List, [], ◌∷◌, get_elem?,
  none≢some, some_inj, sym, ap,
}
use os.Fs.Samples.{small_disk}
use os.Fs.Inode.{Inode}
use os.Fs.Icache.{Cache}
use os.Fs.Icache.Unique.{Tidy}

abbrev pub entry : ℕ → ℕ → Inode
entry inum ref = record {
  dev = 1;
  inum = inum;
  ref = ref;
  busy = false;
  valid = true;
  type = 2;
  major = 0;
  minor = 0;
  nlink = 1;
  size = 0;
  addrs = λ i. 0;
}

abbrev pub table : List Inode
table = entry 4 2 ∷ entry 6 0 ∷ entry 7 1 ∷ []

abbrev pub held : ℕ → ℕ
held i = if i == 0 then 2 else if i == 2 then 1 else 0

pub table_ref : (i : ℕ) (ip : Inode) → get_elem? table i ≡ some ip → ip.ref ≡ held i
table_ref zero ip e = sym (ap (λ p. p.ref) (some_inj e))
table_ref (suc zero) ip e = sym (ap (λ p. p.ref) (some_inj e))
table_ref (suc (suc zero)) ip e = sym (ap (λ p. p.ref) (some_inj e))
table_ref (suc (suc (suc i))) ip e = absurd (none≢some e)

pub table_inum :
    (i : ℕ) (ip : Inode)
    → get_elem? table i ≡ some ip
    → ip.inum ≡ (if i == 0 then 4 else if i == 1 then 6 else 7)
table_inum zero ip e = sym (ap (λ p. p.inum) (some_inj e))
table_inum (suc zero) ip e = sym (ap (λ p. p.inum) (some_inj e))
table_inum (suc (suc zero)) ip e = sym (ap (λ p. p.inum) (some_inj e))
table_inum (suc (suc (suc i))) ip e = absurd (none≢some e)

pub table-Tidy : Tidy table held
table-Tidy = record {
  counts = table_ref;
  few = λ i. ground arith;
  once = λ i j p q e e' l l' d n.
      let a = table_inum i p e in let b = table_inum j q e' in ground arith;
}

abbrev pub cache : Cache
cache = record { inodes = table; disk = small_disk; sleepers = λ i. 0 }
