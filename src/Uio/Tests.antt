-- ===== src/Uio/Tests.antt =====
-- A copy to a user that fails, and an instance of the theorem on uiomove.
use harvard_os.Prelude.{◌≡◌, refl, some, [], ◌∷◌}
use harvard_os.Uio.{
  Uio, uio_read, userspace, uiomove, mk_kuio, move_loop, next_copy, wants, round_size, copy, tear,
  is_right_space,
}

-- A user's block of eight bytes, the next copy to which fails with EFAULT after two bytes.
abbrev test_uio : Uio
test_uio = record (mk_kuio [] 8 100 uio_read) {
  uio_segflg = userspace;
  copies = (14, 2) ∷ [];
  uio_space = 5;
  t_vmspace = 5;
}

fails :
    uiomove (1 ∷ 2 ∷ 3 ∷ []) 3 test_uio
    ≡ some (14, 1 ∷ 2 ∷ 3 ∷ [], record test_uio { copies = []; torn = 1 ∷ 2 ∷ [] })
unfolding uiomove move_loop wants round_size next_copy mk_kuio copy tear is_right_space
fails = refl
