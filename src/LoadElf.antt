-- ===== src/LoadElf.antt =====
-- os161/kern/userprog/loadelf.c: the loading of a program. Reads of the file, into the kernel and into the
-- process, are parameters on a state that has the address space of the process.
pub mod Segments
mod Tests
use harvard_os.Prelude.{
  ℕ, zero, suc, ◌+◌, ◌-◌, ◌*◌, ◌/◌, ◌%◌, ◌^◌, Bool, true, false, not, ◌&&◌, ◌||◌, Option, none,
  some, List, [], ◌∷◌, ltb, ◌==◌, if◌then◌else◌, length, get_or, ◌>>=◌, word_mod,
}
use harvard_os.Errno.{enoexec}
use harvard_os.Sfs.Words.{bytes_words}
use harvard_os.AddrSpace.{AddrSpace, as_define_region, as_prepare_load, as_complete_load}

-- The fields of `Elf_Ehdr` that are looked at, and those of `Elf_Phdr`.
pub record Ehdr : Type 0 where
  pub e_ident : List ℕ
  pub e_type : ℕ
  pub e_machine : ℕ
  pub e_version : ℕ
  pub e_entry : ℕ
  pub e_phoff : ℕ
  pub e_phentsize : ℕ
  pub e_phnum : ℕ

pub record Phdr : Type 0 where
  pub p_type : ℕ
  pub p_offset : ℕ
  pub p_vaddr : ℕ
  pub p_filesz : ℕ
  pub p_memsz : ℕ

abbrev pub ehdr_size : ℕ
ehdr_size = 52

abbrev pub phdr_size : ℕ
phdr_size = 32

abbrev high_half : ℕ → ℕ
high_half w = w / 2 ^ 16

abbrev low_half : ℕ → ℕ
low_half w = w % 2 ^ 16

-- The structures as they lie in memory, the high byte first.
pub bytes_ehdr : List ℕ → Ehdr
bytes_ehdr bytes =
    let ws = bytes_words bytes in
    record {
      e_ident = bytes;
      e_type = high_half (get_or ws 4 0);
      e_machine = low_half (get_or ws 4 0);
      e_version = get_or ws 5 0;
      e_entry = get_or ws 6 0;
      e_phoff = get_or ws 7 0;
      e_phentsize = low_half (get_or ws 10 0);
      e_phnum = high_half (get_or ws 11 0);
    }

pub bytes_phdr : List ℕ → Phdr
bytes_phdr bytes =
    let ws = bytes_words bytes in
    record {
      p_type = get_or ws 0 0;
      p_offset = get_or ws 1 0;
      p_vaddr = get_or ws 2 0;
      p_filesz = get_or ws 4 0;
      p_memsz = get_or ws 5 0;
    }

-- 0x7f E L F, 32 bits, the high byte first, version 1, an executable, MIPS.
pub is_executable : Ehdr → Bool
is_executable eh =
    get_or eh.e_ident 0 0 == 0x7f
    && get_or eh.e_ident 1 0 == b'E'
    && get_or eh.e_ident 2 0 == b'L'
    && get_or eh.e_ident 3 0 == b'F'
    && get_or eh.e_ident 4 0 == 1
    && get_or eh.e_ident 5 0 == 2
    && get_or eh.e_ident 6 0 == 1
    && eh.e_version == 1
    && eh.e_type == 2
    && eh.e_machine == 8

-- PT_NULL, PT_PHDR and PT_MIPS_REGINFO are skipped.
abbrev pub is_skipped : ℕ → Bool
is_skipped p_type = p_type == 0 || p_type == 6 || p_type == 0x70000000

abbrev pub pt_load : ℕ
pt_load = 1

-- What the file and the process are to the loader. p_flags is left out: as_define_region does not
-- use it, and an executable segment is only read with another name for the same space. `vop_read offset len` gives the result and the
-- bytes that came, `read_user offset vaddr memsize len` the result and the bytes left to read,
-- `zeros vaddr len` the result of uiomovezeros. `vmspace` is t_vmspace of the thread.
pub record Loader (S : Type 0) : Type 0 where
  pub vop_read : ℕ → ℕ → S → (ℕ × List ℕ) × S
  pub read_user : ℕ → ℕ → ℕ → ℕ → S → (ℕ × ℕ) × S
  pub zeros : ℕ → ℕ → S → ℕ × S
  pub vmspace : S → AddrSpace
  pub set_vmspace : AddrSpace → S → S

module _ {S : Type 0} (loader : Loader S) where
  open loader use {vop_read, read_user, zeros, vmspace, set_vmspace}

  pub load_segment : ℕ → ℕ → ℕ → ℕ → S → ℕ × S
  load_segment offset vaddr memsize filesize s =
      let len = if ltb memsize filesize then memsize else filesize in
      let ((result, resid), s1) = read_user offset vaddr memsize len s in
      if not (result == 0)
      then (result, s1)
      else if not (resid == 0)
      then (enoexec, s1)
      else if ltb 0 (memsize - len)
      then zeros (vaddr + len) (memsize - len) s1
      else (0, s1)

  -- A complete read of a structure, or the error.
  pub read_whole : ℕ → ℕ → S → (ℕ × List ℕ) × S
  read_whole offset size s =
      let ((result, bytes), s1) = vop_read offset size s in
      if not (result == 0)
      then ((result, []), s1)
      else if not (length bytes == size)
      then ((enoexec, []), s1)
      else ((0, bytes), s1)

  pub read_phdr : Ehdr → ℕ → S → (ℕ × List ℕ) × S
  read_phdr eh i s = read_whole ((eh.e_phoff + i * eh.e_phentsize) % word_mod) phdr_size s

  -- What the first loop does with a loadable segment: the result, and the next `iteration`.
  pub define_one : Phdr → ℕ → S → (ℕ × ℕ) × S
  define_one ph iteration s =
      let (result, as_) = as_define_region (vmspace s) ph.p_vaddr ph.p_memsz iteration in
      ((result, iteration + 1), set_vmspace as_ s)

  pub define_round : Phdr → ℕ → S → (ℕ × ℕ) × S
  define_round ph iteration s =
      if is_skipped ph.p_type
      then ((0, iteration), s)
      else if ph.p_type == pt_load
      then define_one ph iteration s
      else ((enoexec, iteration), s)

  -- The first loop, for the rounds left: the result, and `iteration` at its end.
  pub define_segments : ℕ → ℕ → ℕ → Ehdr → S → (ℕ × ℕ) × S
  define_segments zero i iteration eh s = ((0, iteration), s)
  define_segments (suc rounds) i iteration eh s =
      let ((result, bytes), s1) = read_phdr eh i s in
      let ((result1, iteration1), s2) = define_round (bytes_phdr bytes) iteration s1 in
      let rest = define_segments rounds (i + 1) iteration1 eh s2 in
      if not (result == 0)
      then ((result, iteration), s1)
      else if not (result1 == 0)
      then ((result1, iteration1), s2)
      else rest

  pub load_round : Phdr → S → ℕ × S
  load_round ph s =
      if is_skipped ph.p_type
      then (0, s)
      else if ph.p_type == pt_load
      then load_segment ph.p_offset ph.p_vaddr ph.p_memsz ph.p_filesz s
      else (enoexec, s)

  -- The second loop.
  pub load_segments : ℕ → ℕ → Ehdr → S → ℕ × S
  load_segments zero i eh s = (0, s)
  load_segments (suc rounds) i eh s =
      let ((result, bytes), s1) = read_phdr eh i s in
      let (result1, s2) = load_round (bytes_phdr bytes) s1 in
      let rest = load_segments rounds (i + 1) eh s2 in
      if not (result == 0) then (result, s1) else if not (result1 == 0) then (result1, s2) else rest

  -- From as_prepare_load on. `v` is the vnode.
  pub load_all : ℕ → Ehdr → S → Option (ℕ × ℕ × S)
  load_all v eh s = as_prepare_load (vmspace s) v >>= λ (result, as_).
      (let s1 = set_vmspace as_ s in
        let (result1, s2) = load_segments eh.e_phnum 0 eh s1 in
        some (
          if not (result == 0)
          then (result, 0, s1)
          else if not (result1 == 0)
          then (result1, 0, s2)
          else if not (as_complete_load (vmspace s2) == 0)
          then (as_complete_load (vmspace s2), 0, s2)
          else (0, eh.e_entry, s2)))

  pub load_headers : ℕ → Ehdr → S → Option (ℕ × ℕ × S)
  load_headers v eh s =
      let ((result, iteration), s1) = define_segments eh.e_phnum 0 0 eh s in
      if not (is_executable eh)
      then some (enoexec, 0, s)
      else if not (result == 0)
      then some (result, 0, s1)
      else load_all v eh s1

  -- The result, the entry point, and the state.
  pub load_elf : ℕ → S → Option (ℕ × ℕ × S)
  load_elf v s =
      let ((result, bytes), s1) = read_whole 0 ehdr_size s in
      if not (result == 0) then some (result, 0, s1) else load_headers v (bytes_ehdr bytes) s1
