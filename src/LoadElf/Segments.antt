-- ===== src/LoadElf/Segments.antt =====
-- What a program that load_elf accepts looks like.
use harvard_os.Prelude.{
  ℕ, ◌+◌, ◌≤◌, ◌≡◌, length, true, ◌⊎◌, if◌then◌else◌, Option, none, some, List, [], ◌∷◌, ◌==◌,
}
use harvard_os.AddrSpace.{as_define_region}
use harvard_os.LoadElf.{
  Ehdr, Phdr, Loader, ehdr_size, bytes_ehdr, bytes_phdr, is_executable, read_whole, read_phdr,
}

module _ {S : Type 0} (loader : Loader S) where
  open loader use {vmspace}

  -- PT_NULL, PT_PHDR and PT_MIPS_REGINFO.
  abbrev pub Ignored : ℕ → Type 0
  Ignored type = (type ≡ 0) ⊎ (type ≡ 6) ⊎ (type ≡ 0x70000000)

  -- What the first loop does with the program headers from number `i` on, in order: each is read
  -- whole, and it is of a type that is ignored, or it is of type PT_LOAD and the next region of the
  -- address space is defined for it. The regions are numbered from `region`.
  pub Defines : Ehdr → ℕ → ℕ → List Phdr → S → S → Type 0
  Defines eh i region [] s s' = s ≡ s'
  Defines eh i region (ph ∷ phs) s s' =
      let ((result, bytes), s1) = read_phdr loader eh i s in
      let (defined, as_) = as_define_region (vmspace s1) ph.p_vaddr ph.p_memsz region in
      (result ≡ 0)
      × (bytes_phdr bytes ≡ ph)
      × ((Ignored ph.p_type × Defines eh (i + 1) region phs s1 s')
          ⊎ ((ph.p_type ≡ 1)
              × (defined ≡ 0)
              × Defines eh (i + 1) (region + 1) phs (loader.set_vmspace as_ s1) s'))

  -- How many of them are of type PT_LOAD.
  abbrev pub loadable : List Phdr → ℕ
  loadable [] = 0
  loadable (ph ∷ phs) = if ph.p_type == 1 then loadable phs + 1 else loadable phs

  -- The result, if there is one.
  abbrev first : Option (ℕ × ℕ × S) → ℕ
  first none = 0
  first (some p) = p.0

  abbrev second : Option (ℕ × ℕ × S) → ℕ
  second none = 0
  second (some p) = p.1

  -- What an accepted program is.
  abbrev pub Accepted : ℕ → S → ℕ → Type 0
  Accepted v s entry =
      let ((result, bytes), s1) = read_whole loader 0 ehdr_size s in
      let eh = bytes_ehdr bytes in
      (result ≡ 0)
      × (is_executable eh ≡ true)
      × (entry ≡ eh.e_entry)
      × ((phs : List Phdr) × (s2 : S) × (length phs ≡ eh.e_phnum)
          × Defines eh 0 0 phs s1 s2
          × (loadable phs ≤ 2))
