-- ===== src/LoadElf/Tests.antt =====
-- A program of one segment, the run of load_elf on it, and an instance of its theorem.
use harvard_os.Prelude.{ℕ, none, List, [], ◌∷◌, if◌then◌else◌, ◌==◌}
use harvard_os.Sfs.Words.{words_bytes}
use harvard_os.AddrSpace.{AddrSpace}
use harvard_os.LoadElf.{Loader}

abbrev test_header : List ℕ
test_header =
    0x7f454c46 ∷ 0x01020100 ∷ 0 ∷ 0 ∷ 0x00020008 ∷ 1 ∷ 0x400000 ∷ 52 ∷ 0 ∷ 0 ∷ 0x00340020
    ∷ 0x00010000 ∷ 0 ∷ []

abbrev test_segment : List ℕ
test_segment = 1 ∷ 0x1000 ∷ 0x400000 ∷ 0 ∷ 100 ∷ 200 ∷ 5 ∷ 4096 ∷ []

abbrev test_loader : Loader AddrSpace
test_loader = record {
  vop_read =
      λ offset len s. ((0, words_bytes (if offset == 0 then test_header else test_segment)), s);
  read_user = λ offset vaddr memsize len s. ((0, 0), s);
  zeros = λ vaddr len s. (0, s);
  vmspace = λ s. s;
  set_vmspace = λ as_ s. as_;
}

abbrev test_space : AddrSpace
test_space = record {
  v = 0;
  eostack = 0;
  heap_start = 0;
  heap_end = 0;
  as_npages1 = 0;
  as_vbase1 = 0;
  as_npages2 = 0;
  as_vbase2 = 0;
  lvone = λ i. none;
}

-- One page at 0x400000, and the heap behind it.
abbrev test_loaded : AddrSpace
test_loaded = record test_space {
  v = 7;
  heap_start = 0x401000;
  heap_end = 0x401000;
  as_npages1 = 1;
  as_vbase1 = 0x400000;
}
