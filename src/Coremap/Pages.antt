-- ===== src/Coremap/Pages.antt =====
-- The coremap as a whole: what getppages hands out, what free_kpages takes back, and the page that
-- allocate_physical_page finds.
use harvard_os.Prelude.{
  ne→==, ℕ, suc, ◌+◌, ◌-◌, ◌*◌, ◌/◌, ◌%◌, ◌^◌, ◌≤◌, ◌<◌, ◌≡◌, ◌≢◌, refl, sym, ap, ◌∙◌, ◌⊎◌, inl,
  inr, true, false, none, some, List, [], ◌∷◌, ◌++◌, map, arith, subst, ◌==◌, ==_iff, lt→ltb,
  Bool-cases, if◌then◌else◌, get_elem?, zero, length, length-append, take, drop, ◌>>=◌,
}
use harvard_os.Coremap.{
  Entry, Memory, skip_used, has_run, start_run, mark_pages, page_address, paddr_to_kvaddr,
  getppages, alloc_kpages, release, free_kpages, allocate_physical_page,
}
use harvard_os.Coremap.Runs.{
  AllIn, Stops, skip_used_lem, has_run_lem, take-prefix, drop-prefix, with_state, mark_pages-prefix,
  map_mark-AllIn, length-map,
}

-- The coremap is set up, and all pages lie below 508 MB.
pub record IsReady (m : Memory) : Type 0 where
  pub addr : ℕ
  pub made : m.coremap_str ≡ some addr
  pub number : length m.entries ≡ m.numofpage
  pub above : 0 < m.free_pages_str
  pub below : m.free_pages_str + m.numofpage * 4096 ≤ 508 * 1024 * 1024

-- The first run of free entries: all in front of it are in use, and what follows them starts with
-- one that is not.
pub record FirstRun (m : Memory) (pre run post : List Entry) : Type 0 where
  pub split : m.entries ≡ pre ++ (run ++ post)
  pub used : AllIn 1 pre
  pub next : Stops 1 (run ++ post)
  pub free : AllIn 0 run

-- What `getppages` makes of a run: the first entry remembers how long it is.
abbrev pub taken : ℕ → List Entry → List Entry
taken npages [] = []
taken npages (e ∷ run) = record e { allocated = 1; continuous = npages } ∷ map (with_state 1) run

length-taken : (npages : ℕ) (run : List Entry) → length (taken npages run) ≡ length run
length-taken npages [] = refl
length-taken npages (e ∷ run) = ap suc (length-map (with_state 1) run)

cut :
    (es pre rest : List Entry)
    → es ≡ pre ++ rest
    → (drop (length pre) es ≡ rest) × (take (length pre) es ≡ pre)
cut es pre rest split = (
  ap (drop (length pre)) split ∙ drop-prefix pre rest,
  ap (take (length pre)) split ∙ take-prefix pre rest,
)

take_run :
    (npages : ℕ) (run post : List Entry)
    → length run ≡ npages
    → 0 < npages
    → mark_pages 1 npages (start_run npages (run ++ post)) ≡ some (taken npages run ++ post)
unfolding start_run
take_run npages [] post n pos = absurd (omega (arith, n))
take_run npages (e ∷ run) post n pos =
    subst
      (λ k.
        mark_pages 1 k (record e { continuous = npages } ∷ (run ++ post))
        ≡ some (taken npages (e ∷ run) ++ post))
      n (mark_pages-prefix 1 (record e { continuous = npages } ∷ run) post)

module _ (npages : ℕ) (m : Memory) (r : IsReady m) (pre run post : List Entry)
    (split : m.entries ≡ pre ++ (run ++ post)) (n : skip_used m.entries ≡ length pre) where
  getppages-hit :
      0 < npages
      → length run ≡ npages
      → has_run npages 0 (run ++ post) ≡ true
      → getppages npages m
        ≡ some
            (page_address m (length pre), record m { entries = pre ++ (taken npages run ++ post) })
  unfolding getppages
  getppages-hit pos exact hit =
      let (d, t) = cut m.entries pre (run ++ post) split in
      rw (r.made, n, d, t, hit, take_run npages run post exact pos, ◌>>=◌)

  getppages-miss : has_run npages 0 (run ++ post) ≡ false → getppages npages m ≡ some (0, m)
  unfolding getppages
  getppages-miss miss =
      let (d, t) = cut m.entries pre (run ++ post) split in rw (r.made, n, d, miss)

-- On a coremap that is set up, `getppages` passes the entries in use at the start of the coremap
-- and takes the run of free entries behind them for as many pages as are asked for, or, if that run
-- is shorter, returns 0 and changes nothing, whatever runs follow it.
pub getppages_lem :
    (npages : ℕ) (m : Memory)
    → IsReady m
    → 0 < npages
    → (pre run post : List Entry) × FirstRun m pre run post
      × (((length run ≡ npages)
            × (getppages npages m
                ≡ some (
                  page_address m (length pre),
                  record m { entries = pre ++ (taken npages run ++ post) },
                )))
          ⊎ ((length run < npages) × Stops 0 post × (getppages npages m ≡ some (0, m))))
getppages_lem npages m r pos =
    let (pre, rest, split, used, stops, n) = skip_used_lem m.entries in
    let (run, post, split2, free, ends) = has_run_lem npages 0 rest pos in
    let whole = split ∙ ap (◌++◌ pre) split2 in
    (
      pre,
      run,
      post,
      record { split = whole; used = used; next = subst (Stops 1) split2 stops; free = free },
      elim ends [
        | inr (missed, few, stop) ↦ inr (
          omega (arith, few),
          stop,
          getppages-miss npages m r pre run post whole n (rw (← split2) missed),
        )
        | inl (hit, exact) ↦
            let all : length run ≡ npages = omega (arith, exact) in
            inl (all, getppages-hit npages m r pre run post whole n pos all (rw (← split2) hit))
      ],
    )

-- No entry of the list is free.
abbrev pub AllBut0 : List Entry → Type 0
AllBut0 [] = Unit
AllBut0 (e ∷ es) = (e.allocated ≢ 0) × AllBut0 es

-- An entry in use stays in use when the run is taken.
abbrev pub InUse : List Entry → ℕ → Type 0
InUse es j = (e : Entry) × (get_elem? es j ≡ some e) × (e.allocated ≡ 1)

InUse-run :
    (npages : ℕ) (run post : List Entry) (j : ℕ)
    → AllIn 0 run
    → InUse (run ++ post) j
    → InUse (map (with_state 1) run ++ post) j
InUse-run npages [] post j all u = u
InUse-run npages (e ∷ run) post zero (here, all) u = (with_state 1 e, refl, refl)
InUse-run npages (e ∷ run) post (suc j) (here, all) u = InUse-run npages run post j all u

InUse-taken :
    (npages : ℕ) (pre run post : List Entry) (j : ℕ)
    → AllIn 0 run
    → InUse (pre ++ (run ++ post)) j
    → InUse (pre ++ (taken npages run ++ post)) j
InUse-taken npages [] [] post j all u = u
InUse-taken npages [] (e ∷ run) post zero all u =
    (record e { allocated = 1; continuous = npages }, refl, refl)
InUse-taken npages [] (e ∷ run) post (suc j) (here, all) u = InUse-run npages run post j all u
InUse-taken npages (p ∷ pre) run post zero all u = u
InUse-taken npages (p ∷ pre) run post (suc j) all u = InUse-taken npages pre run post j all u

pub alloc_kpages-length :
    (npages : ℕ) (m : Memory)
    → IsReady m
    → 0 < npages
    → (addr : ℕ) × (m1 : Memory) × (alloc_kpages npages m ≡ some (addr, m1))
      × (length m1.entries ≡ length m.entries)
      × (m1.free_pages_str ≡ m.free_pages_str)
      × ((j : ℕ) → InUse m.entries j → InUse m1.entries j)
unfolding alloc_kpages
alloc_kpages-length npages m r pos =
    let (pre, run, post, first, ends) = getppages_lem npages m r pos in
    elim ends [
      | inr (few, stop, e) ↦ (0, m, rw (e, ◌>>=◌), refl, refl, λ j u. u)
      | inl (n, e) ↦ (
        (if page_address m (length pre) == 0
            then 0
            else paddr_to_kvaddr (page_address m (length pre))),
        record m { entries = pre ++ (taken npages run ++ post) },
        rw (e, ◌>>=◌),
        omega (
          arith,
          ap length first.split,
          length-append pre (run ++ post),
          length-append run post,
          length-append pre (taken npages run ++ post),
          length-append (taken npages run) post,
          length-taken npages run,
        ),
        refl,
        λ j u.
            InUse-taken npages pre run post j first.free (subst (λ es. InUse es j) first.split u),
      )
    ]

-- A run that was handed out is free again after `free_kpages`; the reset of `continuous` is all
-- that is left of it.
abbrev pub given_back : List Entry → List Entry
given_back [] = []
given_back (e ∷ run) = record e { allocated = 0; continuous = 0 } ∷ run

release-taken :
    (npages : ℕ) (run post : List Entry)
    → length run ≡ npages
    → 0 < npages
    → AllIn 0 run
    → release (taken npages run ++ post) ≡ some (given_back run ++ post)
unfolding release start_run
release-taken npages [] post n pos all = absurd (omega (arith, n))
release-taken npages (e ∷ run) post n pos (here, all) =
    let marked = taken npages (e ∷ run) in
    let long : length marked ≡ npages = omega (arith, n, length-map (with_state 1) run) in
    let back =
      subst (λ k. mark_pages 0 k (marked ++ post) ≡ some (map (with_state 0) marked ++ post)) long
        (mark_pages-prefix 0 marked post) in
    rw (back, ◌>>=◌, map_mark-AllIn 0 1 run all)

-- The index that `free_kpages` computes from the address of a page.
page_index :
    (start i : ℕ)
    → start + i * 4096 < 508 * 1024 * 1024
    → (((((start + i * 4096) % 2 ^ 32 + 2 ^ 31) % 2 ^ 32 + 2 ^ 32 - 2 ^ 31) % 2 ^ 32
            + 2 ^ 32
            - start)
          % 2 ^ 32
          / 4096
        ≡ i)
page_index start i h = omega (arith, h)

states-given_back :
    (pre run post : List Entry)
    → AllIn 0 run
    → map Entry.allocated (pre ++ (given_back run ++ post))
      ≡ map Entry.allocated (pre ++ (run ++ post))
states-given_back (p ∷ pre) run post all = ap (◌∷◌ p.allocated) (states-given_back pre run post all)
states-given_back [] [] post all = refl
states-given_back [] (e ∷ run) post (here, all) =
    ap (λ k. k ∷ map Entry.allocated (run ++ post)) (sym here)

module _ (npages : ℕ) (m : Memory) (r : IsReady m) (pos : 0 < npages) (pre run post : List Entry)
    (first : FirstRun m pre run post) (n : length run ≡ npages) where
  abbrev after : Memory
  after = record m { entries = pre ++ (taken npages run ++ post) }

  inside : m.free_pages_str + length pre * 4096 < 508 * 1024 * 1024
  inside = omega (
    arith,
    r.number,
    r.below,
    n,
    ap length first.split,
    length-append pre (run ++ post),
    length-append run post,
  )

  index_inside : length pre < length (pre ++ (taken npages run ++ post))
  index_inside = omega (
    arith,
    length-append pre (taken npages run ++ post),
    length-append (taken npages run) post,
    length-taken npages run,
    n,
  )

  free_kpages-run :
      free_kpages (paddr_to_kvaddr (page_address m (length pre))) after
      ≡ some (record m { entries = pre ++ (given_back run ++ post) })
  unfolding free_kpages
  free_kpages-run = rw (
    page_index m.free_pages_str (length pre) inside,
    lt→ltb (length pre) (length (pre ++ (taken npages run ++ post))) index_inside,
    drop-prefix pre (taken npages run ++ post),
    take-prefix pre (taken npages run ++ post),
    release-taken npages run post n pos first.free,
    ◌>>=◌,
  )

-- `alloc_kpages` returns 0 and leaves everything alone, or an address whose `free_kpages` gives
-- every page of the coremap the state it had.
pub free_kpages-alloc_kpages :
    (npages : ℕ) (m : Memory)
    → IsReady m
    → 0 < npages
    → (alloc_kpages npages m ≡ some (0, m))
      ⊎ ((addr : ℕ) × (m1 m2 : Memory) × (alloc_kpages npages m ≡ some (addr, m1))
          × (addr ≢ 0)
          × (free_kpages addr m1 ≡ some m2)
          × (map Entry.allocated m2.entries ≡ map Entry.allocated m.entries))
unfolding alloc_kpages
free_kpages-alloc_kpages npages m r pos =
    let (pre, run, post, first, ends) = getppages_lem npages m r pos in
    elim ends [
      | inr (few, stop, e) ↦ inl (rw (e, ◌>>=◌))
      | inl (n, e) ↦
          let low = inside npages m r pos pre run post first n in
          let nonzero : (page_address m (length pre) == 0) ≡ false =
            ne→== (page_address m (length pre)) 0 (λ null. omega (arith, null, low, r.above)) in
          inr (
            paddr_to_kvaddr (page_address m (length pre)),
            record m { entries = pre ++ (taken npages run ++ post) },
            record m { entries = pre ++ (given_back run ++ post) },
            rw (e, ◌>>=◌, nonzero),
            (λ null. omega (arith, null, low)),
            free_kpages-run npages m r pos pre run post first n,
            states-given_back pre run post first.free ∙ ap (map Entry.allocated) (sym first.split),
          )
    ]

-- `allocate_physical_page` takes the first free page and no other, or there is none.
pub allocate_physical_page_lem :
    (es : List Entry)
    → ((allocate_physical_page es ≡ none) × AllBut0 es)
      ⊎ ((pre post : List Entry) × (e : Entry) × (es ≡ pre ++ (e ∷ post))
          × AllBut0 pre
          × (e.allocated ≡ 0)
          × (allocate_physical_page es
              ≡ some (length pre, pre ++ (record e { allocated = 1 } ∷ post))))
unfolding allocate_physical_page
allocate_physical_page_lem [] = inl (refl, tt)
allocate_physical_page_lem (e ∷ es) = elim (Bool-cases (e.allocated == 0)) [
  | inl free ↦ inr ([], es, e, refl, tt, (==_iff e.allocated 0).0 free, rw free)
  | inr busy ↦
      let here : e.allocated ≢ 0 = λ same. ground arith in
      elim (allocate_physical_page_lem es) [
        | inl (missed, all) ↦ inl (rw (busy, missed, ◌>>=◌), (here, all))
        | inr (pre, post, x, split, all, free, found) ↦
            inr (e ∷ pre, post, x, ap (◌∷◌ e) split, (here, all), free, rw (busy, found, ◌>>=◌))
      ]
]
