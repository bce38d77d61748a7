-- ===== src/Args.antt =====
-- syscall.c: how a system call gets its arguments from the user's stack. `mem` is the memory of the
-- process by address, `sz` is proc->sz and `esp` is thread->tf->esp. Ints are given as their bits.
pub mod Bounds
pub mod Strings
mod Tests
use os.Prelude.{
  ℕ, zero, suc, ◌+◌, ◌-◌, ◌*◌, ◌%◌, ◌^◌, Bool, true, false, ◌||◌, Option, none, some, ◌==◌, ltb,
  leb, if◌then◌else◌, ◌>>=◌,
}

-- *(int*)(addr), little-endian.
abbrev pub word : (ℕ → ℕ) → ℕ → ℕ
word mem addr = mem addr + 256 * mem (addr + 1) + 65536 * mem (addr + 2) + 16777216 * mem (addr + 3)

-- `none` is -1, here and below.
pub fetchint : (ℕ → ℕ) → ℕ → ℕ → Option ℕ
fetchint mem sz addr =
    if leb sz addr || ltb sz ((addr + 4) % 2 ^ 32) then none else some (word mem addr)

pub argint : (ℕ → ℕ) → ℕ → ℕ → ℕ → Option ℕ
argint mem sz esp n = fetchint mem sz ((esp + 4 + 4 * n) % 2 ^ 32)

pub check_ptr : ℕ → ℕ → ℕ → Option ℕ
check_ptr sz size i = if leb sz i || ltb sz ((i + size) % 2 ^ 32) then none else some i

pub argptr : (ℕ → ℕ) → ℕ → ℕ → ℕ → ℕ → Option ℕ
argptr mem sz esp n size = argint mem sz esp n >>= check_ptr sz size

-- The loop of fetchstr, with so many bytes before the end of the process at s, n after the start.
pub find_nul : (ℕ → ℕ) → ℕ → ℕ → ℕ → Option ℕ
find_nul mem zero s n = none
find_nul mem (suc left) s n =
    let rest = find_nul mem left (s + 1) (n + 1) in if mem s == 0 then some n else rest

-- The length of the string at addr, which is where *pp points from then on.
pub fetchstr : (ℕ → ℕ) → ℕ → ℕ → Option ℕ
fetchstr mem sz addr = if leb sz addr then none else find_nul mem (sz - addr) addr 0

pub argstr : (ℕ → ℕ) → ℕ → ℕ → ℕ → Option ℕ
argstr mem sz esp n = argint mem sz esp n >>= fetchstr mem sz
