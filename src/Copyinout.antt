-- ===== src/Copyinout.antt =====
-- os161/kern/lib/copyinout.c: copies between a process and the kernel. `fault` says of each address
-- whether an access to it faults, which ends the copy by the longjmp of copyfail; what the memory
-- holds after such a copy of a block is the parameter `left`.
pub mod Bounds
mod Tests
use harvard_os.Prelude.{
  ℕ, zero, suc, ◌+◌, ◌-◌, ◌%◌, ◌^◌, Bool, true, false, not, ◌||◌, ltb, ◌==◌, if◌then◌else◌,
  word_mod, update_at,
}
use harvard_os.Errno.{efault, enametoolong}
use harvard_os.Libc.Memory.{memcpy}

-- `USERTOP`, which is MIPS_KSEG0
abbrev pub usertop : ℕ
usertop = 2 ^ 31

-- The result and `stoplen`.
pub copycheck : ℕ → ℕ → ℕ × ℕ
copycheck userptr len =
    let top = (userptr + len + word_mod - 1) % word_mod in
    if ltb top userptr
    then (efault, len)
    else if not (ltb userptr usertop)
    then (efault, len)
    else if not (ltb top usertop)
    then (0, usertop - userptr)
    else (0, len)

-- Does an access to one of so many addresses fault?
pub any_fault : ℕ → ℕ → (ℕ → Bool) → Bool
any_fault zero ptr fault = false
any_fault (suc n) ptr fault = fault ptr || any_fault n (ptr + 1) fault

-- The result and the memory.
pub copyin : ℕ → ℕ → ℕ → (ℕ → Bool) → (ℕ → ℕ) → (ℕ → ℕ) → ℕ × (ℕ → ℕ)
copyin usersrc dest len fault left m =
    let (result, stoplen) = copycheck usersrc len in
    if not (result == 0)
    then (result, m)
    else if not (stoplen == len)
    then (efault, m)
    else if any_fault len usersrc fault
    then (efault, left)
    else (0, memcpy dest usersrc len m)

pub copyout : ℕ → ℕ → ℕ → (ℕ → Bool) → (ℕ → ℕ) → (ℕ → ℕ) → ℕ × (ℕ → ℕ)
copyout src userdest len fault left m =
    let (result, stoplen) = copycheck userdest len in
    if not (result == 0)
    then (result, m)
    else if not (stoplen == len)
    then (efault, m)
    else if any_fault len userdest fault
    then (efault, left)
    else (0, memcpy userdest src len m)

-- The loop of `copystr` for the rounds left: the result, `gotlen`, and the memory.
pub copystr_from : ℕ → ℕ → ℕ → ℕ → ℕ → ℕ → (ℕ → Bool) → (ℕ → ℕ) → ℕ × ℕ × (ℕ → ℕ)
copystr_from zero i dest src maxlen stoplen fault m =
    ((if ltb stoplen maxlen then efault else enametoolong), 0, m)
copystr_from (suc rounds) i dest src maxlen stoplen fault m =
    let m1 : ℕ → ℕ = update_at m (dest + i) (m (src + i)) in
    let rest = copystr_from rounds (i + 1) dest src maxlen stoplen fault m1 in
    if not (ltb i stoplen)
    then ((if ltb stoplen maxlen then efault else enametoolong), 0, m)
    else if fault (src + i) || fault (dest + i)
    then (efault, 0, m)
    else if m1 (src + i) == 0
    then (0, i + 1, m1)
    else rest

pub copystr : ℕ → ℕ → ℕ → ℕ → (ℕ → Bool) → (ℕ → ℕ) → ℕ × ℕ × (ℕ → ℕ)
copystr dest src maxlen stoplen fault m = copystr_from maxlen 0 dest src maxlen stoplen fault m

pub copyinstr : ℕ → ℕ → ℕ → (ℕ → Bool) → (ℕ → ℕ) → ℕ × ℕ × (ℕ → ℕ)
copyinstr usersrc dest len fault m =
    let (result, stoplen) = copycheck usersrc len in
    if not (result == 0) then (result, 0, m) else copystr dest usersrc len stoplen fault m

pub copyoutstr : ℕ → ℕ → ℕ → (ℕ → Bool) → (ℕ → ℕ) → ℕ × ℕ × (ℕ → ℕ)
copyoutstr src userdest len fault m =
    let (result, stoplen) = copycheck userdest len in
    if not (result == 0) then (result, 0, m) else copystr userdest src len stoplen fault m
