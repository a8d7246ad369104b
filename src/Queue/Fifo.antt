-- ===== src/Queue/Fifo.antt =====
-- kern/lib/queue.c as a first-in first-out list: what each operation does to `contents`.
use toy_os.Common.{
  ℕ, zero, suc, ◌+◌, ◌%◌, ◌^◌, ◌≤◌, ◌<◌, ◌≡◌, ◌≢◌, refl, sym, ap, ◌∙◌, ◌⊎◌, inl, inr, Bool, true,
  false, none, some, List, [], ◌∷◌, ◌++◌, Kernel, done, panic, arith, ltb, ==_self, ==_ne,
  ℕ_discrete, length,
}
use toy_os.Queue.{
  Queue, Status, ok, enomem, put, next_index, add_with, q_grow, q_addtail, q_remhead, q_peek,
  len_loop, q_len,
}
use toy_os.Queue.Ring.{
  IsValid, gap, gap-suc, window, contents, contents-put, contents-cons, contents-nil,
}
use toy_os.Queue.Grow.{next_ne, add_with-room, add_with-full, Grows, q_grow-Grows}

module _ {ℓ} {A : Type ℓ} where
  length-window : (cells : ℕ → A) (m h n : ℕ) → length (window cells m h n) ≡ n
  unfolding window
  length-window cells m h zero = refl
  length-window cells m h (suc n) = ap suc (length-window cells m ((h + 1) % m) n)

  length-contents : (q : Queue A) → length (contents q) ≡ gap q.size q.nextread q.nextwrite
  length-contents q = length-window q.cells q.size q.nextread _

  -- A ring that has grown has room for one more.
  grown_room :
      (q t : Queue A)
      → IsValid q
      → IsValid t
      → contents t ≡ contents q
      → q.size + 1 ≤ t.size
      → next_index t t.nextwrite ≢ t.nextread
  grown_room q t v vt same larger =
      let few : gap q.size q.nextread q.nextwrite < q.size =
        ground (arith, v.read_in, v.write_in) in
      let kept : gap t.size t.nextread t.nextwrite ≡ gap q.size q.nextread q.nextwrite =
        sym (length-contents t) ∙ ap length same ∙ length-contents q in
      next_ne t.size t.nextread t.nextwrite vt.read_in vt.write_in (omega arith)

  -- How `q_addtail` ends: the pointer is the new last one, or there was no memory to grow and
  -- nothing has changed.
  pub data Adds (mem : Bool) (x : A) (q : Queue A) (r : Kernel (Status × Queue A)) : Type ℓ where
    added :
        (t : Queue A)
        → r ≡ done (ok, t)
        → contents t ≡ contents q ++ x ∷ []
        → IsValid t
        → Adds mem x q r
    no_memory : mem ≡ false → r ≡ done (enomem, q) → Adds mem x q r

  add_when_full :
      (mem : Bool) (junk : ℕ → A) (x : A) (q : Queue A)
      → IsValid q
      → next_index q q.nextwrite ≡ q.nextread
      → Grows mem (q.size + 1) q (q_grow mem junk (q.size + 1) q)
      → Adds mem x q (add_with (λ r. q_grow mem junk (r.size + 1) r) x q)
  add_when_full mem junk x q v full (Grows.no_memory missing failed) =
      no_memory missing
        (add_with-full (λ r. q_grow mem junk (r.size + 1) r) x q q enomem v full failed)
  add_when_full mem junk x q v full (Grows.grew t grown same valid larger) =
      let (longer, valid') = contents-put x t valid (grown_room q t v valid same larger) in
      added (put x t) (add_with-full (λ r. q_grow mem junk (r.size + 1) r) x q t ok v full grown)
        (longer ∙ ap (λ l. l ++ x ∷ []) same) valid'

  -- `q_addtail` of a valid queue of less than 2^29 cells fails no KASSERT, and adds the pointer at
  -- the end, growing where it must; it gives ENOMEM, and leaves the queue, only where the memory to
  -- grow is missing.
  pub q_addtail-Adds :
      (mem : Bool) (junk : ℕ → A) (x : A) (q : Queue A)
      → IsValid q
      → q.size < 2 ^ 29
      → Adds mem x q (q_addtail mem junk x q)
  unfolding q_addtail
  q_addtail-Adds mem junk x q v small = elim (ℕ_discrete (next_index q q.nextwrite) q.nextread) [
    | no room ↦
        let (longer, valid) = contents-put x q v room in
        added (put x q) (add_with-room (λ r. q_grow mem junk (r.size + 1) r) x q v room) longer
          valid
    | yes full ↦
        add_when_full mem junk x q v full
          (q_grow-Grows mem junk (q.size + 1) q v (omega arith) (omega arith))
  ]

  -- `q_remhead` of a queue that is not empty gives its first pointer and leaves the rest; of an
  -- empty one it fails a KASSERT.
  pub q_remhead-contents :
      (q : Queue A)
      → IsValid q
      → ((contents q ≡ []) × (q_remhead q ≡ panic))
        ⊎ ((x : A) × (t : Queue A) × (q_remhead q ≡ done (x, t))
            × (contents q ≡ x ∷ contents t)
            × IsValid t)
  unfolding q_remhead
  q_remhead-contents q v =
      let pos : ltb 0 q.size ≡ true = ground (arith, v.read_in) in
      elim (ℕ_discrete q.nextwrite q.nextread) [
        | yes same ↦ inl (contents-nil q (sym same), rw (pos, same, ==_self q.nextread))
        | no other ↦
            let (front, valid) = contents-cons q v (λ e. other (sym e)) in
            inr (
              q.cells q.nextread,
              record q { nextread = next_index q q.nextread },
              rw (pos, ==_ne q.nextwrite q.nextread other),
              front,
              valid,
            )
      ]

  len_loop_lem :
      (n fuel : ℕ) (q : Queue A) (tmp count : ℕ)
      → tmp < q.size
      → q.nextwrite < q.size
      → gap q.size tmp q.nextwrite ≡ n
      → n < fuel
      → len_loop fuel q tmp count ≡ done (count + n)
  unfolding len_loop
  len_loop_lem n zero q tmp count hi hw e enough = absurd (omega arith)
  len_loop_lem zero (suc fuel) q tmp count hi hw e enough = ground arith
  len_loop_lem (suc n) (suc fuel) q tmp count hi hw e enough =
      let more : tmp ≢ q.nextwrite = ground arith in
      ground (
        arith,
        gap-suc q.size tmp q.nextwrite hi hw more,
        len_loop_lem n fuel q (next_index q tmp) (count + 1) (omega arith) hw,
      )

  -- `q_len` ends, with the number of pointers in the queue.
  pub q_len-length : (q : Queue A) → IsValid q → q_len q ≡ done (length (contents q))
  unfolding q_len
  q_len-length q v =
      len_loop_lem _ (q.size + 1) q q.nextread 0 v.read_in v.write_in refl
        (ground (arith, v.read_in, v.write_in))
      ∙ ap done (omega (arith, length-contents q))

  -- `q_peek` of a valid queue gives its first pointer, or NULL if it is empty, and agrees with
  -- what `q_remhead` would give.
  pub q_peek-contents :
      (q : Queue A)
      → IsValid q
      → ((contents q ≡ []) × (q_peek q ≡ done none))
        ⊎ ((x : A) × (l : List A) × (contents q ≡ x ∷ l) × (q_peek q ≡ done (some x)))
  unfolding q_peek
  q_peek-contents q v =
      let pos : ltb 0 q.size ≡ true = ground (arith, v.read_in) in
      elim (ℕ_discrete q.nextwrite q.nextread) [
        | yes same ↦ inl (contents-nil q (sym same), rw (pos, same, ==_self q.nextread))
        | no other ↦ inr (
          q.cells q.nextread,
          _,
          (contents-cons q v (λ e. other (sym e))).0,
          rw (pos, ==_ne q.nextwrite q.nextread other),
        )
      ]
