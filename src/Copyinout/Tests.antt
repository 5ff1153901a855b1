-- ===== src/Copyinout/Tests.antt =====
-- Runs of the copies between a process and the kernel, and instances of their theorems.
use harvard_os.Prelude.{◌+◌, ◌-◌, ◌^◌, ◌≡◌, refl, false, arith}
use harvard_os.Errno.{efault}
use harvard_os.Libc.Memory.{moved_at}
use harvard_os.Copyinout.{copycheck, copyin}
use harvard_os.Copyinout.Bounds.{Outcome, copyin-Outcome}

-- Four bytes of a process, four that reach past USERTOP, and none.
copycheck_runs :
    (copycheck 4096 4 ≡ (0, 4))
    × (copycheck (2 ^ 31 - 2) 4 ≡ (0, 2))
    × (copycheck 4096 0 ≡ (efault, 0))
unfolding copycheck
copycheck_runs = (refl, refl, refl)

copyin-Outcome_example :
    Outcome 4096 4
      (λ a. false)
      (λ a. 0)
      (moved_at (2 ^ 31 + 8) 4096 4 (λ a. a))
      (λ a. a)
      (copyin 4096 (2 ^ 31 + 8) 4 (λ a. false) (λ a. 0) (λ a. a))
copyin-Outcome_example =
    copyin-Outcome 4096 (2 ^ 31 + 8) 4 (λ a. false) (λ a. 0) (λ a. a) (omega arith) (omega arith)
      (omega arith)
