-- ===== src/Fs/Content/Trunc.antt =====
-- itrunc leaves device, number and reference count of the inode alone.
use os.Prelude.{
  ℕ, zero, suc, ◌+◌, ◌≡◌, refl, ap, ◌∙◌, Bool, true, false, Option, none, some, ◌==◌, if◌then◌else◌,
  some_inj, none≢some, ◌>>=◌,
}
use mathlib.Core.Path.{subst}
use os.Fs.Disk.{Disk}
use os.Fs.Bitmap.{bfree}
use os.Fs.Inode.{Inode, iupdate, ndirect, nindirect}
use os.Fs.Content.{set_addr, free_direct, free_entries, free_indirect, itrunc}

-- An inode under the same device and number, and with as many references.
abbrev pub Same : Inode → Inode → Type 0
Same p q = (q.dev ≡ p.dev) × (q.inum ≡ p.inum) × (q.ref ≡ p.ref)

-- The inode that a step leaves, if it does not panic.
abbrev pub Kept : Inode → Option (Inode × Disk) → Type 0
Kept ip o = (q : Inode) (d : Disk) → o ≡ some (q, d) → Same ip q

Kept-bind :
    (ip : Inode) (o : Option Disk) (f : Disk → Option (Inode × Disk))
    → ((d : Disk) → Kept ip (f d))
    → Kept ip (o >>= f)
Kept-bind ip none f h q d e = absurd (none≢some e)
Kept-bind ip (some d) f h q d' e = h d q d' e

Kept-if :
    (ip : Inode) (b : Bool) (o o' : Option (Inode × Disk))
    → Kept ip o
    → Kept ip o'
    → Kept ip (if b then o else o')
Kept-if ip true o o' h h' = h
Kept-if ip false o o' h h' = h'

Kept-some : (ip q : Inode) (d : Disk) → Same ip q → Kept ip (some (q, d))
Kept-some ip q d s q' d' e = let h = ap (λ p. p.0) (some_inj e) in subst (Same ip) h s

Kept-then :
    (ip : Inode) (o : Option (Inode × Disk)) (f : Inode × Disk → Option (Inode × Disk))
    → Kept ip o
    → ((q : Inode) (d : Disk) → Kept q (f (q, d)))
    → Kept ip (o >>= f)
Kept-then ip none f k h r d e = absurd (none≢some e)
Kept-then ip (some (q, d)) f k h r d' e =
    let (a, b, c) = k q d refl in let (a', b', c') = h q d r d' e in (a' ∙ a, b' ∙ b, c' ∙ c)

free_direct-Kept : (left i : ℕ) (ip : Inode) (disk : Disk) → Kept ip (free_direct left i ip disk)
unfolding free_direct
free_direct-Kept zero i ip disk = Kept-some ip ip disk (refl, refl, refl)
free_direct-Kept (suc left) i ip disk =
    Kept-if ip (ip.addrs i == 0) (free_direct left (i + 1) ip disk)
      (bfree (ip.addrs i) disk >>= λ d. free_direct left (i + 1) (set_addr i 0 ip) d)
      (free_direct-Kept left (i + 1) ip disk)
      (Kept-bind ip (bfree (ip.addrs i) disk) (λ d. free_direct left (i + 1) (set_addr i 0 ip) d)
        (λ d. free_direct-Kept left (i + 1) (set_addr i 0 ip) d))

free_indirect-Kept : (ip : Inode) (disk : Disk) → Kept ip (free_indirect ip disk)
unfolding free_indirect
free_indirect-Kept ip disk =
    let addr = ip.addrs ndirect in
    let last : Disk → Option (Inode × Disk) =
      λ d1. bfree addr d1 >>= λ d2. some (set_addr ndirect 0 ip, d2) in
    Kept-if ip (addr == 0) (some (ip, disk)) (free_entries nindirect 0 addr disk >>= last)
      (Kept-some ip ip disk (refl, refl, refl))
      (Kept-bind ip (free_entries nindirect 0 addr disk) last (λ d1.
        Kept-bind ip (bfree addr d1) (λ d2. some (set_addr ndirect 0 ip, d2))
          (λ d2. Kept-some ip (set_addr ndirect 0 ip) d2 (refl, refl, refl))))

pub itrunc-Kept : (ip : Inode) (disk : Disk) → Kept ip (itrunc ip disk)
unfolding itrunc
itrunc-Kept ip disk =
    Kept-then ip (free_direct ndirect 0 ip disk)
      (λ (ip1, d1). free_indirect ip1 d1 >>= λ (ip2, d2).
        let ip3 = record ip2 { size = 0 } in some (ip3, iupdate ip3 d2))
      (free_direct-Kept ndirect 0 ip disk)
      (λ ip1 d1.
        Kept-then ip1 (free_indirect ip1 d1)
          (λ (ip2, d2). let ip3 = record ip2 { size = 0 } in some (ip3, iupdate ip3 d2))
          (free_indirect-Kept ip1 d1)
          (λ ip2 d2.
            let ip3 : Inode = record ip2 { size = 0 } in
            Kept-some ip2 ip3 (iupdate ip3 d2) (refl, refl, refl)))
