-- ===== src/Fs/Icache/Tests.antt =====
-- iget and iput on the sample cache, and the theorems at it.
use os.Prelude.{
  ℕ, ◌≡◌, refl, Option, none, some, arith, ◌==◌, if◌then◌else◌, List, [], ◌∷◌, map, ◌∙◌,
}
use os.Fs.Inode.{Inode}
use os.Fs.Icache.{find_inode, take_inode, iget, iput}
use os.Fs.Icache.Unique.{Tidy, one_more, Gets, iget-Gets}
use os.Fs.Icache.Put.{Puts, iput-Puts}
use os.Fs.Icache.Samples.{entry, table, held, table_ref, table_inum, table-Tidy, cache}

abbrev places : Option (ℕ × List Inode) → List ℕ
places none = []
places (some (i, inodes)) = i ∷ map (λ ip. ip.ref) inodes

iget_cached : places (iget 1 7 table) ≡ 2 ∷ 2 ∷ 0 ∷ 2 ∷ []
unfolding iget find_inode take_inode
iget_cached = refl

iget_recycled : places (iget 1 9 table) ≡ 1 ∷ 2 ∷ 1 ∷ 1 ∷ []
unfolding iget find_inode take_inode
iget_recycled = refl

iget-Gets_example : Gets 1 9 table held (iget 1 9 table)
iget-Gets_example = iget-Gets 1 9 table held table-Tidy (λ i. ground arith)

abbrev fewer : ℕ → ℕ
fewer i = if i == 0 then 1 else if i == 2 then 1 else 0

held_more : (i : ℕ) → held i ≡ one_more 0 fewer i
held_more i = ground arith

cache-Tidy : Tidy table (one_more 0 fewer)
cache-Tidy = record {
  counts = λ i p e. table_ref i p e ∙ held_more i;
  few = λ i. ground arith;
  once = λ i j p q e e' l l' d n.
      let a = table_inum i p e in let b = table_inum j q e' in ground arith;
}

iput-Puts_example : Puts 0 table fewer (iput 0 cache)
iput-Puts_example = iput-Puts 0 cache fewer (entry 4 2) cache-Tidy refl
