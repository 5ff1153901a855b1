-- ===== src/Queue.antt =====
-- os161/kern/lib/queue.c: the queue of void pointers in a ring buffer that grows.
-- Where the source calls kmalloc, `mem` says whether it succeeds. A slot that was never written
-- holds `none`, and a pointer that is copied out of such a slot is `none` too.
pub mod Window
pub mod Grow
pub mod Refine
mod Tests
use harvard_os.Prelude.{
  ℕ, zero, suc, ◌+◌, ◌-◌, ◌*◌, ◌/◌, ◌%◌, Bool, true, false, not, ◌&&◌, Option, none, some, List,
  ltb, leb, ◌==◌, if◌then◌else◌, length, get_elem?, set, replicate, ◌>>=◌, ◌>>◌, assert, int_limit,
  word_mod,
}
use harvard_os.Errno.{enomem}

-- `struct queue`; `slots` is the block that the source's field `data` points to.
pub record Queue {ℓ} (V : Type ℓ) : Type ℓ where
  pub size : ℕ
  pub nextwrite : ℕ
  pub nextread : ℕ
  pub slots : List (Option V)

-- `while (nsize < targetsize) { nsize *= 2; assert(nsize > 0); }`, the rounds bounded. A product
-- from 2 ^ 31 on is a negative int, which fails the assert.
pub grow_size : ℕ → ℕ → ℕ → Option ℕ
grow_size zero nsize targetsize = if ltb nsize targetsize then none else some nsize
grow_size (suc rounds) nsize targetsize =
    let rest = grow_size rounds (nsize * 2) targetsize in
    if ltb nsize targetsize
    then (if ltb 0 (nsize * 2) && ltb (nsize * 2) int_limit then rest else none)
    else some nsize

module _ {ℓ} {V : Type ℓ} where
  -- An empty queue over a new block of `size * sizeof(void *)` bytes.
  abbrev pub fresh_queue : ℕ → Queue V
  fresh_queue size = record {
    size = size;
    nextwrite = 0;
    nextread = 0;
    slots = replicate (size * 4 % word_mod / 4) none;
  }

  pub q_create : Bool → ℕ → Option (Queue V)
  q_create mem size = if mem then some (fresh_queue size) else none

  pub q_empty : Queue V → Bool
  q_empty q = q.nextwrite == q.nextread

  -- `for (; i!=onw; i = (i+1)%osize) { result = q_addtail(q, olddata[i]); assert(result==0); }`
  pub move_guys :
      (Queue V → Option V → Option (ℕ × Queue V))
      → ℕ
      → ℕ
      → ℕ
      → ℕ
      → List (Option V)
      → Queue V
      → Option (Queue V)
  move_guys addtail zero i onw osize olddata q = if i == onw then some q else none
  move_guys addtail (suc rounds) i onw osize olddata q =
      let rest : Option (Queue V) =
        (get_elem? olddata i >>= λ ptr. addtail q ptr >>= λ added.
        assert (added.0 == 0)
        >> move_guys addtail rounds ((i + 1) % osize) onw osize olddata added.1) in
      if i == onw then some q else rest

  -- `q_grow`, over the `q_addtail` that it calls.
  pub q_grow :
      (Queue V → Option V → Option (ℕ × Queue V)) → Bool → Queue V → ℕ → Option (ℕ × Queue V)
  q_grow addtail mem q targetsize = do
    nsize ← grow_size targetsize q.size targetsize
    if mem
        then (move_guys addtail q.size q.nextread q.nextwrite q.size q.slots (fresh_queue nsize)
            >>= λ q'. some (0, q'))
        else some (enomem, q)

  -- `q->data[q->nextwrite] = ptr; q->nextwrite = nextnext;`: no result outside the block.
  pub write_tail : Queue V → Option V → ℕ → Option (ℕ × Queue V)
  write_tail q ptr nextnext =
      if ltb q.nextwrite (length q.slots)
      then some (0, record q { nextwrite = nextnext; slots = set q.slots q.nextwrite ptr })
      else none

  abbrev pub nextnext : Queue V → ℕ
  nextnext q = (q.nextwrite + 1) % q.size

  -- The end of `q_addtail` after `q_grow`.
  abbrev grown_addtail : Option V → ℕ × Queue V → Option (ℕ × Queue V)
  grown_addtail ptr (result, q) =
      if result == 0 then write_tail q ptr (nextnext q) else some (result, q)

  -- `q_addtail` and `q_grow` call one another; `depth` bounds how deep.
  pub addtail_depth : ℕ → Bool → Queue V → Option V → Option (ℕ × Queue V)
  addtail_depth zero mem q ptr = none
  addtail_depth (suc depth) mem q ptr = do
    assert (ltb 0 q.size)
    if nextnext q == q.nextread
        then (q_grow (addtail_depth depth mem) mem q (q.size + 1) >>= grown_addtail ptr)
        else write_tail q ptr (nextnext q)

  pub q_addtail : Bool → Queue V → Option V → Option (ℕ × Queue V)
  q_addtail mem q ptr = addtail_depth 2 mem q ptr

  pub q_preallocate : Bool → Queue V → ℕ → Option (ℕ × Queue V)
  q_preallocate mem q size = do
    assert (ltb 0 q.size)
    if ltb q.size size then q_grow (q_addtail mem) mem q size else some (0, q)

  pub q_remhead : Queue V → Option (Option V × Queue V)
  q_remhead q = do
    assert (ltb 0 q.size)
    assert (not (q_empty q))
    ret ← get_elem? q.slots q.nextread
    some (ret, record q { nextread = (q.nextread + 1) % q.size })

  abbrev pub q_getstart : Queue V → ℕ
  q_getstart q = q.nextread

  abbrev pub q_getend : Queue V → ℕ
  q_getend q = q.nextwrite

  abbrev pub q_getsize : Queue V → ℕ
  q_getsize q = q.size

  unfoldable pub q_getguy : Queue V → ℕ → Option (Option V)
  q_getguy q index = do assert (ltb index q.size); get_elem? q.slots index
