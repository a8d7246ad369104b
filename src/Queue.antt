-- ===== src/Queue.antt =====
-- kern/lib/queue.c: a queue of pointers in a ring that grows. The pointers are of any type; `int`s
-- are numbers, since `q_grow` keeps a size far below 2^31; `junk` is what `kmalloc`'s memory holds.
pub mod Ring
pub mod Grow
pub mod Fifo
mod Tests
use toy_os.Common.{
  ◌^◌, ◌&&◌, ℕ, zero, suc, ◌+◌, ◌*◌, ◌%◌, Bool, true, false, not, Option, none, some, Kernel, done,
  panic, kassert, ◌>>=◌, ◌>>◌, ltb, ◌==◌, if◌then◌else◌, update,
}

-- `struct queue`
pub record Queue {ℓ} (A : Type ℓ) : Type ℓ where
  pub size : ℕ
  pub nextwrite : ℕ
  pub nextread : ℕ
  pub cells : ℕ → A

-- 0, or ENOMEM.
pub data Status : Type 0 where
  ok enomem : Status

-- The loop of `q_grow` that doubles the size.
unfoldable pub double_to : ℕ → ℕ → ℕ → Kernel ℕ
double_to zero nsize targetsize = panic
double_to (suc fuel) nsize targetsize =
    let rest = double_to fuel (nsize * 2) targetsize in
    if ltb nsize targetsize
    then (kassert (ltb 0 (nsize * 2) && ltb (nsize * 2) (2 ^ 31)) >> rest)
    else done nsize

module _ {ℓ} {A : Type ℓ} where
  -- `q_create`
  unfoldable pub q_create : Bool → Bool → (ℕ → A) → ℕ → Option (Queue A)
  q_create q_ok data_ok junk size =
      if q_ok
      then (if data_ok
          then some (record { size = size; nextwrite = 0; nextread = 0; cells = junk })
          else none)
      else none

  -- `q_empty`
  unfoldable pub q_empty : Queue A → Bool
  q_empty q = q.nextwrite == q.nextread

  -- The index after `i`
  abbrev pub next_index : Queue A → ℕ → ℕ
  next_index q i = (i + 1) % q.size

  -- The last lines of `q_addtail`
  abbrev pub put : A → Queue A → Queue A
  put x q = record q { cells = update q.cells q.nextwrite x; nextwrite = next_index q q.nextwrite }

  -- `q_addtail`, given what it calls to grow.
  unfoldable pub add_with :
      (Queue A → Kernel (Status × Queue A)) → A → Queue A → Kernel (Status × Queue A)
  add_with grow x q =
      kassert (ltb 0 q.size)
      >> (if next_index q q.nextwrite == q.nextread
          then (grow q >>= λ r. elim r.0 [
            | ok ↦ done (ok, put x r.1)
            | enomem ↦ done (enomem, r.1)
          ])
          else done (ok, put x q))

  -- The loop of `q_grow` that moves the pointers, from index `i` of the old ring on. It adds to a
  -- queue with room: were it to grow again, the model panics (`Grow` shows that it does not).
  unfoldable pub move_all : ℕ → Queue A → ℕ → Queue A → Kernel (Queue A)
  unfolding add_with
  move_all zero old i q = panic
  move_all (suc fuel) old i q =
      if i == old.nextwrite
      then done q
      else (add_with (λ _. panic) (old.cells i) q >>= λ r. elim r.0 [
        | ok ↦ move_all fuel old (next_index old i) r.1
        | enomem ↦ panic
      ])

  -- `q_grow`. Where `nsize * sizeof(void *)` wraps, the block is too small for the pointers, which
  -- are written behind its end; this stands as `panic`.
  unfoldable pub q_grow : Bool → (ℕ → A) → ℕ → Queue A → Kernel (Status × Queue A)
  unfolding double_to move_all
  q_grow mem junk targetsize q = double_to (targetsize + 1) q.size targetsize >>= λ nsize.
      if mem
      then kassert (ltb (nsize * 4) (2 ^ 32))
        >> (move_all (q.size + 1) q q.nextread
              (record { size = nsize; nextwrite = 0; nextread = 0; cells = junk })
            >>= λ grown. done (ok, grown))
      else done (enomem, q)

  -- `q_preallocate`
  unfoldable pub q_preallocate : Bool → (ℕ → A) → ℕ → Queue A → Kernel (Status × Queue A)
  unfolding q_grow
  q_preallocate mem junk size q =
      kassert (ltb 0 q.size) >> (if ltb q.size size then q_grow mem junk size q else done (ok, q))

  -- `q_addtail`
  unfoldable pub q_addtail : Bool → (ℕ → A) → A → Queue A → Kernel (Status × Queue A)
  unfolding add_with q_grow
  q_addtail mem junk x q = add_with (λ r. q_grow mem junk (r.size + 1) r) x q

  -- `q_remhead`
  unfoldable pub q_remhead : Queue A → Kernel (A × Queue A)
  unfolding q_empty
  q_remhead q =
      kassert (ltb 0 q.size)
      >> (kassert (not (q_empty q))
          >> done (q.cells q.nextread, record q { nextread = next_index q q.nextread }))

  -- `q_peek`; NULL is `none`.
  unfoldable pub q_peek : Queue A → Kernel (Option A)
  unfolding q_empty
  q_peek q = kassert (ltb 0 q.size) >> done (if q_empty q then none else some (q.cells q.nextread))

  -- The loop of `q_len`
  unfoldable pub len_loop : ℕ → Queue A → ℕ → ℕ → Kernel ℕ
  len_loop zero q tmp count = panic
  len_loop (suc fuel) q tmp count =
      let rest = len_loop fuel q (next_index q tmp) (count + 1) in
      if tmp == q.nextwrite then done count else rest

  -- `q_len`
  unfoldable pub q_len : Queue A → Kernel ℕ
  unfolding len_loop
  q_len q = len_loop (q.size + 1) q q.nextread 0
