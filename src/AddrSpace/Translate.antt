-- ===== src/AddrSpace/Translate.antt =====
-- What the page tables translate to, and what the TLB is loaded with.
use harvard_os.Prelude.{
  update_at, update_at_self, ne→==, ℕ, ◌+◌, ◌*◌, ◌%◌, ◌^◌, ◌<◌, ◌≡◌, refl, sym, ap, ◌∙◌, ◌⊎◌, inl,
  inr, none, some, List, [], ◌∷◌, ◌++◌, arith, ltb, ◌==◌, ==_iff, lt→ltb, Bool-cases, Option-cases,
  length, length-append, get_elem?, get_or, get_elem?-eq-get_or, get_elem?-set_self, set, zero, suc,
  ◌>>=◌, ◌>>◌, assert,
}
use harvard_os.Errno.{enomem}
use harvard_os.Coremap.{Entry, Memory, page_address, alloc_kpages, allocate_physical_page}
use harvard_os.Coremap.Pages.{
  IsReady, AllBut0, InUse, alloc_kpages-length, allocate_physical_page_lem,
}
use harvard_os.AddrSpace.{
  PageEntry, Table, AddrSpace, l1_index, l2_index, lookup, translate, empty_table, link_page,
  map_page, minus_one,
}

-- Two addresses on different pages differ in one of their indices.
abbrev pub SamePage : ℕ → ℕ → Type 0
SamePage p q = (l1_index p ≡ l1_index q) × (l2_index p ≡ l2_index q)

-- A table that is the address space's, or an empty one where it has none.
module _ (as_ : AddrSpace) (fault : ℕ) (table : Table) (pe : PageEntry)
    (same : (j : ℕ) → lookup (as_.lvone (l1_index fault)) j ≡ lookup (some table) j) where
  abbrev linked : AddrSpace
  linked = record as_ {
    lvone = update_at as_.lvone (l1_index fault) (some (update_at table (l2_index fault) pe));
  }

  translate-linked :
      fault < 2 ^ 31 → pe.valid ≡ 1 → translate linked fault ≡ some (some pe.page_address)
  unfolding translate
  translate-linked low v = rw (
    lt→ltb (l1_index fault) 512 (omega (arith, low)),
    update_at_self as_.lvone (l1_index fault) (some (update_at table (l2_index fault) pe)),
    update_at_self table (l2_index fault) pe,
    v,
  )

  lookup-others :
      (p : ℕ)
      → ¬ SamePage p fault
      → lookup (linked.lvone (l1_index p)) (l2_index p)
        ≡ lookup (as_.lvone (l1_index p)) (l2_index p)
  lookup-others p other = elim (Bool-cases (l1_index p == l1_index fault)) [
    | inr differ ↦ rw differ
    | inl agree ↦
        let here = (==_iff (l1_index p) (l1_index fault)).0 agree in
        let apart = ne→== (l2_index p) (l2_index fault) (λ e. other (here, e)) in
        rw (agree, apart)
          (sym (same (l2_index p)) ∙ ap (λ i. lookup (as_.lvone i) (l2_index p)) (sym here))
  ]

  translate-others : (p : ℕ) → ¬ SamePage p fault → translate linked p ≡ translate as_ p
  unfolding translate
  translate-others p other =
      ap (λ found. assert (ltb (l1_index p) 512) >> some found) (lookup-others p other)

-- What a new page does to the translations: the fault address translates to the page, in 20 bits,
-- and every other page translates as before.
pub record Mapped (fault paddr : ℕ) (as_ as1 : AddrSpace) : Type 0 where
  pub here : translate as1 fault ≡ some (some (paddr % 2 ^ 20))
  pub others : (p : ℕ) → ¬ SamePage p fault → translate as1 p ≡ translate as_ p

abbrev no_entry : Entry
no_entry = record { allocated = 0; continuous = 0; space = 0; pe_ptr = 0 }

link_page_lem :
    (self fault i paddr : ℕ) (table : Table) (as_ : AddrSpace) (m : Memory)
    → fault < 2 ^ 31
    → i < length m.entries
    → page_address m i ≡ paddr
    → ((j : ℕ) → lookup (as_.lvone (l1_index fault)) j ≡ lookup (some table) j)
    → (as1 : AddrSpace) × (m1 : Memory) × (link_page self fault i table as_ m ≡ some (as1, m1))
      × Mapped fault paddr as_ as1
      × ((get_or m.entries i no_entry).allocated ≡ 1 → InUse m1.entries i)
unfolding link_page
link_page_lem self fault i paddr table as_ m low inside addr same =
    let pe : PageEntry = record {
      valid = 1;
      page_address = page_address m i % 2 ^ 20;
      coremap_ptr = some i;
    } in
    let d = no_entry in
    let e = get_or m.entries i d in
    let number = 1 + l1_index fault * 2 ^ 10 + l2_index fault in
    (
      linked as_ fault table pe same,
      record m {
        entries = set m.entries i (record e { space = self; pe_ptr = number; continuous = 1 });
      },
      rw (get_elem?-eq-get_or m.entries i d inside, ◌>>=◌),
      record {
        here = rw (← addr) (translate-linked as_ fault table pe same low refl);
        others = translate-others as_ fault table pe same;
      },
      λ used. (
        record e { space = self; pe_ptr = number; continuous = 1 },
        get_elem?-set_self m.entries i (record e { space = self; pe_ptr = number; continuous = 1 })
            inside,
        used,
      ),
    )

get_elem?-prefix :
    (pre post : List Entry) (e : Entry) → get_elem? (pre ++ (e ∷ post)) (length pre) ≡ some e
get_elem?-prefix [] post e = refl
get_elem?-prefix (x ∷ pre) post e = get_elem?-prefix pre post e

-- No page is free, or there is no table for the address and no memory for one.
abbrev pub NoMemory : ℕ → AddrSpace → Memory → Type 0
NoMemory fault as_ m =
    AllBut0 m.entries
    ⊎ ((i : ℕ) × (es : List Entry) × (m1 : Memory) × (allocate_physical_page m.entries
          ≡ some (i, es))
        × (as_.lvone (l1_index fault) ≡ none)
        × (alloc_kpages 2 (record m { entries = es }) ≡ some (0, m1)))

InUse-state : (es : List Entry) (i : ℕ) → InUse es i → (get_or es i no_entry).allocated ≡ 1
InUse-state [] i (e, f, g) = cc
InUse-state (x ∷ es) zero (e, f, g) = let same : x ≡ e = cc in ap Entry.allocated same ∙ g
InUse-state (x ∷ es) (suc i) u = InUse-state es i u

-- The outcome of `map_page`: no page was free, no table could be had, or a free page is mapped.
abbrev pub Outcome : ℕ → ℕ → AddrSpace → Memory → Type 0
Outcome self fault as_ m =
    ((map_page self fault as_ m ≡ some (minus_one, 0, as_, m)) × AllBut0 m.entries)
    ⊎ ((m1 : Memory) × (map_page self fault as_ m ≡ some (enomem, 0, as_, m1))
        × NoMemory fault as_ m)
    ⊎ ((i : ℕ) × (e : Entry) × (as1 : AddrSpace) × (m1 : Memory) × (map_page self fault as_ m
          ≡ some (0, page_address m i, as1, m1))
        × (get_elem? m.entries i ≡ some e)
        × (e.allocated ≡ 0)
        × Mapped fault (page_address m i) as_ as1
        × InUse m1.entries i)

module _ (self fault : ℕ) (as_ : AddrSpace) (m : Memory) (r : IsReady m) (low : fault < 2 ^ 31)
    (pre post : List Entry) (e : Entry) (split : m.entries ≡ pre ++ (e ∷ post))
    (free : e.allocated ≡ 0)
    (found : allocate_physical_page m.entries
      ≡ some (length pre, pre ++ (record e { allocated = 1 } ∷ post))) where
  abbrev got_page : Memory
  got_page = record m { entries = pre ++ (record e { allocated = 1 } ∷ post) }

  got_page-length : length got_page.entries ≡ length m.entries
  got_page-length = omega (
    arith,
    ap length split,
    length-append pre (e ∷ post),
    length-append pre (record e { allocated = 1 } ∷ post),
  )

  index_inside : length pre < length got_page.entries
  index_inside = omega (arith, length-append pre (record e { allocated = 1 } ∷ post))

  now_used : InUse got_page.entries (length pre)
  now_used =
      (record e { allocated = 1 }, get_elem?-prefix pre post (record e { allocated = 1 }), refl)

  was_free : get_elem? m.entries (length pre) ≡ some e
  was_free = rw split (get_elem?-prefix pre post e)

  map_page-table :
      (table : Table) → as_.lvone (l1_index fault) ≡ some table → Outcome self fault as_ m
  unfolding map_page
  map_page-table table has =
      let (as1, m1, linked_e, mapped, used) =
        link_page_lem self fault (length pre) (page_address m (length pre)) table as_ got_page low
          index_inside refl (λ j. ap (λ t. lookup t j) has) in
      inr (
        inr (
          length pre,
          e,
          as1,
          m1,
          rw (
            map_page,
            found,
            lt→ltb (l1_index fault) 512 (omega (arith, low)),
            has,
            linked_e,
            ◌>>=◌,
          ),
          was_free,
          free,
          mapped,
          used (InUse-state got_page.entries (length pre) now_used),
        ))

  map_page-new : as_.lvone (l1_index fault) ≡ none → Outcome self fault as_ m
  unfolding map_page
  map_page-new lacks =
      let ready : IsReady got_page = record {
        addr = r.addr;
        made = r.made;
        number = got_page-length ∙ r.number;
        above = r.above;
        below = r.below;
      } in
      let (addr, m2, got, long, start, keeps) =
        alloc_kpages-length 2 got_page ready (omega arith) in
      elim (Bool-cases (addr == 0)) [
        | inl null ↦ inr (
            inl (
              m2,
              rw (
                map_page,
                found,
                lt→ltb (l1_index fault) 512 (omega (arith, low)),
                lacks,
                got,
                ◌>>=◌,
                null,
              ),
              inr (
                length pre,
                got_page.entries,
                m2,
                found,
                lacks,
                got ∙ ap (λ a. some (a, m2)) ((==_iff addr 0).0 null),
              ),
            ))
        | inr fine ↦
            let (as1, m1, linked_e, mapped, used) =
              link_page_lem self fault (length pre) (page_address m (length pre)) empty_table as_ m2
                low (omega (arith, long, index_inside)) (omega (arith, start))
                (λ j. ap (λ t. lookup t j) lacks) in
            inr (
              inr (
                length pre,
                e,
                as1,
                m1,
                rw (
                  map_page,
                  found,
                  lt→ltb (l1_index fault) 512 (omega (arith, low)),
                  lacks,
                  got,
                  ◌>>=◌,
                  fine,
                  linked_e,
                ),
                was_free,
                free,
                mapped,
                used (InUse-state m2.entries (length pre) (keeps (length pre) now_used)),
              ))
      ]

-- For a user address, `incHeap` fails for lack of a page and changes nothing, fails for lack of
-- memory for a table, or maps a page that was free at the address and leaves all other
-- translations alone.
pub map_page_lem :
    (self fault : ℕ) (as_ : AddrSpace) (m : Memory)
    → IsReady m
    → fault < 2 ^ 31
    → Outcome self fault as_ m
unfolding map_page
map_page_lem self fault as_ m r low = elim (allocate_physical_page_lem m.entries) [
  | inl (missed, all) ↦ inl (rw (map_page, missed), all)
  | inr (pre, post, e, split, busy, free, found) ↦
      (elim (Option-cases (as_.lvone (l1_index fault))) [
        | inl lacks ↦ map_page-new self fault as_ m r low pre post e split free found lacks
        | inr (table, has) ↦
            map_page-table self fault as_ m r low pre post e split free found table has
      ])
]
