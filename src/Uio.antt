-- ===== src/Uio.antt =====
-- os161/kern/userprog/uio.c: moves between a kernel buffer and the data block of a `struct uio`.
-- A buffer is the list of its bytes from the pointer on. The data block is two lists: the bytes at
-- its pointer, which a write takes, and those that a read has delivered, which lie before it.
pub mod Moves
pub mod Delivers
mod Tests
use harvard_os.Prelude.{
  ℕ, zero, suc, ◌+◌, ◌-◌, ◌%◌, Bool, true, false, ◌&&◌, Option, none, some, List, [], ◌∷◌, ◌++◌,
  ltb, leb, ◌==◌, if◌then◌else◌, length, take, drop, replicate, min, ◌>>=◌, ◌>>◌, assert, word_mod,
}

-- `enum uio_rw` and `enum uio_seg`
pub data Rw : Type 0 where
  uio_read uio_write : Rw

pub data Seg : Type 0 where
  userspace sysspace userispace : Seg

-- `struct uio`, and the current thread's `t_vmspace`; 0 is the null address space. `copies` are the
-- results of the copyin and copyout calls to come, 0 where the list has ended, each with the number
-- of bytes that a call that fails has copied by then. `torn` is what a copyout that failed has left
-- at the pointer of the data block.
pub record Uio : Type 0 where
  pub iov_data : List ℕ
  pub moved : List ℕ
  pub iov_len : ℕ
  pub uio_offset : ℕ
  pub uio_resid : ℕ
  pub uio_segflg : Seg
  pub uio_rw : Rw
  pub copies : List (ℕ × ℕ)
  pub uio_space : ℕ
  pub t_vmspace : ℕ
  pub torn : List ℕ

abbrev pub sub_word : ℕ → ℕ → ℕ
sub_word a b = (a + word_mod - b) % word_mod

-- The asserts on `uio_space`.
pub is_right_space : Seg → ℕ → ℕ → Bool
is_right_space sysspace uio_space t_vmspace = uio_space == 0
is_right_space userspace uio_space t_vmspace = uio_space == t_vmspace
is_right_space userispace uio_space t_vmspace = uio_space == t_vmspace

-- The result of one copy, and the results that are left; a memmove always succeeds.
pub next_copy : Seg → List (ℕ × ℕ) → (ℕ × ℕ) × List (ℕ × ℕ)
next_copy sysspace copies = ((0, 0), copies)
next_copy userspace [] = ((0, 0), [])
next_copy userspace (c ∷ copies) = (c, copies)
next_copy userispace [] = ((0, 0), [])
next_copy userispace (c ∷ copies) = (c, copies)

-- The copy itself: what the buffer holds then, and the data block.
unfoldable pub copy : Rw → ℕ → List ℕ → Uio → List ℕ × Uio
copy uio_read size buf uio = (buf, record uio { moved = uio.moved ++ take size buf })
copy uio_write size buf uio =
    (take size uio.iov_data ++ drop size buf, record uio { iov_data = drop size uio.iov_data })

-- A copy that fails after `part` of its bytes.
pub tear : Rw → ℕ → List ℕ → Uio → List ℕ × Uio
tear uio_read part buf uio = (buf, record uio { torn = take part buf })
tear uio_write part buf uio = (take part uio.iov_data ++ drop part buf, uio)

-- The counters after a copy.
abbrev pub advance : ℕ → Uio → Uio
advance size uio = record uio {
  iov_len = uio.iov_len - size;
  uio_resid = sub_word uio.uio_resid size;
  uio_offset = uio.uio_offset + size;
}

-- The loop's test, and what one round moves.
pub wants : ℕ → Uio → Bool
wants n uio = ltb 0 n && ltb 0 uio.uio_resid

pub round_size : ℕ → Uio → ℕ
round_size n uio = if ltb n uio.iov_len then n else uio.iov_len

-- The loop of `uiomove`: the result, the buffer and the uio. Each round moves a byte at least.
pub move_loop : ℕ → ℕ → List ℕ → Uio → Option (ℕ × List ℕ × Uio)
move_loop zero n buf uio = if wants n uio then none else some (0, buf, uio)
move_loop (suc rounds) n buf uio = elim (wants n uio) [
  | false ↦ some (0, buf, uio)
  | true ↦
      (let size = round_size n uio in
        let ((result, part), copies) = next_copy uio.uio_segflg uio.copies in
        let (buf2, uio2) = tear uio.uio_rw (min part size) buf (record uio { copies = copies }) in
        let (buf1, uio1) = copy uio.uio_rw size buf (record uio { copies = copies }) in
        assert (ltb 0 size) >> (elim (result == 0) [
          | false ↦ some (result, buf2, uio2)
          | true ↦
              (move_loop rounds (n - size) (drop size buf1) (advance size uio1) >>= λ out.
              some (out.0, take size buf1 ++ out.1, out.2))
        ]))
]

pub uiomove : List ℕ → ℕ → Uio → Option (ℕ × List ℕ × Uio)
uiomove buf n uio =
    assert (is_right_space uio.uio_segflg uio.uio_space uio.t_vmspace) >> move_loop n n buf uio

-- The loop of `uiomovezeros`.
pub zeros_loop : ℕ → ℕ → Uio → Option (ℕ × Uio)
zeros_loop zero n uio = if ltb 0 n then none else some (0, uio)
zeros_loop (suc rounds) n uio = elim (ltb 0 n) [
  | false ↦ some (0, uio)
  | true ↦
      (let amt = if ltb n 16 then n else 16 in
        uiomove (replicate 16 0) amt uio >>= λ out. (elim (out.0 == 0) [
          | false ↦ some (out.0, out.2)
          | true ↦ zeros_loop rounds (n - amt) out.2
        ]))
]

abbrev is_read : Rw → Bool
is_read uio_read = true
is_read uio_write = false

pub uiomovezeros : ℕ → Uio → Option (ℕ × Uio)
uiomovezeros n uio = assert (is_read uio.uio_rw) >> zeros_loop n n uio

unfoldable pub mk_kuio : List ℕ → ℕ → ℕ → Rw → Uio
mk_kuio kbuf len pos rw = record {
  iov_data = kbuf;
  moved = [];
  iov_len = len;
  uio_offset = pos;
  uio_resid = len;
  uio_segflg = sysspace;
  uio_rw = rw;
  copies = [];
  uio_space = 0;
  t_vmspace = 0;
  torn = [];
}
