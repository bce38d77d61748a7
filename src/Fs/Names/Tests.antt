-- ===== src/Fs/Names/Tests.antt =====
-- Walks in the sample cache, and the theorem at it.
use os.Prelude.{ℕ, refl, false, List, [], ◌∷◌, replicate, arith}
use os.Fs.Samples.{no_device}
use os.Fs.Icache.Samples.{entry, held, table-Tidy, cache}
use os.Fs.Names.{namex}
use os.Fs.Names.Balance.{Balanced, Balanced-namex}

-- "ab"
abbrev path_ab : List ℕ
path_ab = 97 ∷ 98 ∷ []

Balanced-namex_example : Balanced held (namex no_device false 0 path_ab (replicate 14 0) cache)
Balanced-namex_example =
    Balanced-namex held (λ i. ground arith) no_device false 0 path_ab (replicate 14 0) cache
      (entry 4 2) table-Tidy refl (omega arith)
