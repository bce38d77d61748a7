-- ===== src/Pipe/Contents.antt =====
-- What a pipe holds: the bytes from `nread` up to `nwrite`, oldest first.
use mathlib.Core.Path.{ap₂}
use os.Prelude.{
  ℕ, zero, suc, ◌+◌, ◌-◌, ◌%◌, ◌^◌, ◌≤◌, ◌<◌, ◌≡◌, ◌≢◌, refl, ap, List, [], ◌∷◌, ◌++◌, length,
  get_or, set, get_or-set_self, get_or-set_ne, length-set, arith,
}
use os.Pipe.{Pipe, pipesize, add_uint, put, advance}

-- The number of bytes held: nwrite - nread as unsigned ints.
abbrev pub count : Pipe → ℕ
count p = (p.nwrite + 2 ^ 32 - p.nread) % 2 ^ 32

-- The `n` bytes from counter value `h` on.
abbrev pub window : List ℕ → ℕ → ℕ → List ℕ
window buf h zero = []
window buf h (suc n) = get_or buf (h % pipesize) 0 ∷ window buf (add_uint h 1) n

abbrev pub contents : Pipe → List ℕ
contents p = window p.bytes p.nread (count p)

pub record IsValid (p : Pipe) : Type 0 where
  pub storage : length p.bytes ≡ pipesize
  pub nread_in : p.nread < 2 ^ 32
  pub nwrite_in : p.nwrite < 2 ^ 32
  pub bounded : count p ≤ pipesize

pub length-window : (buf : List ℕ) (h n : ℕ) → length (window buf h n) ≡ n
length-window buf h zero = refl
length-window buf h (suc n) = ap suc (length-window buf (add_uint h 1) n)

mod0 : (h : ℕ) → h < 2 ^ 32 → add_uint h 0 ≡ h
mod0 h hh = omega arith

-- Writing at the counter value just past a window extends it by that byte.
window-set :
    (buf : List ℕ) (x n h e : ℕ)
    → length buf ≡ pipesize
    → h < 2 ^ 32
    → n < pipesize
    → e ≡ add_uint h n
    → window (set buf (e % pipesize) x) h (suc n) ≡ window buf h n ++ (x ∷ [])
window-set buf x zero h e len hh hn eq =
    rw (eq)
      (ap (λ v. v ∷ []) (rw (mod0 h hh) (get_or-set_self buf (h % pipesize) x 0 (omega arith))))
window-set buf x (suc n) h e len hh hn eq =
    ap₂ ◌∷◌ (get_or-set_ne buf (e % pipesize) (h % pipesize) x 0 (omega arith))
      (window-set buf x n (add_uint h 1) e len (omega arith) (omega arith) (omega arith))

pub put-IsValid : (p : Pipe) (x : ℕ) → IsValid p → count p < pipesize → IsValid (put p x)
unfolding put
put-IsValid p x v h = ground (arith, length-set p.bytes (p.nwrite % pipesize) x)

pub count-put :
    (p : Pipe) (x : ℕ) → IsValid p → count p < pipesize → count (put p x) ≡ suc (count p)
unfolding put
count-put p x v h = ground arith

pub advance-IsValid : (p : Pipe) → IsValid p → count p ≢ 0 → IsValid (advance p)
unfolding advance
advance-IsValid p v h = ground arith

pub count-advance : (p : Pipe) → IsValid p → count p ≢ 0 → count p ≡ suc (count (advance p))
unfolding advance
count-advance p v h = ground arith

-- A byte that is put in comes last.
pub contents-put :
    (p : Pipe) (x : ℕ)
    → IsValid p
    → count p < pipesize
    → contents (put p x) ≡ contents p ++ (x ∷ [])
unfolding put
contents-put p x v h = rw (count-put p x v h) (
    window-set p.bytes x (count p) p.nread p.nwrite v.storage v.nread_in h
      (omega (arith, v.nwrite_in, v.nread_in)))

-- The byte that is read came first.
pub contents-advance :
    (p : Pipe)
    → IsValid p
    → count p ≢ 0
    → contents p ≡ get_or p.bytes (p.nread % pipesize) 0 ∷ contents (advance p)
unfolding advance
contents-advance p v h = ap (window p.bytes p.nread) (count-advance p v h)

pub put-readopen : (p : Pipe) (x : ℕ) → (put p x).readopen ≡ p.readopen
unfolding put
put-readopen p x = refl

pub put-writeopen : (p : Pipe) (x : ℕ) → (put p x).writeopen ≡ p.writeopen
unfolding put
put-writeopen p x = refl

pub put-nread : (p : Pipe) (x : ℕ) → (put p x).nread ≡ p.nread
unfolding put
put-nread p x = refl

pub contents_empty : (p : Pipe) → count p ≡ 0 → contents p ≡ []
contents_empty p e = rw e
