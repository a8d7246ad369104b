-- ===== src/Queue/Grow.antt =====
-- `q_grow` of kern/lib/queue.c keeps the pointers and their order.
use mathlib.Core.List.{append-nil, append_assoc}
use toy_os.Common.{
  ℕ, zero, suc, ◌+◌, ◌-◌, ◌*◌, ◌%◌, ◌^◌, ◌≤◌, ◌<◌, ◌≡◌, ◌≢◌, refl, sym, ap, ◌∙◌, ◌⊎◌, inl, inr,
  Bool, true, false, [], ◌∷◌, ◌++◌, Kernel, done, panic, arith, Bool-cases, ltb, ◌==◌, ==_ne,
  dec_lt,
}
use toy_os.Queue.{Queue, Status, ok, enomem, put, next_index, double_to, add_with, move_all, q_grow}
use toy_os.Queue.Ring.{IsValid, gap, gap-suc, wrap_once, window, contents, contents-put}

-- The doubling loop ends at a size that is large enough, and at most twice what is needed.
pub double_to-le :
    (fuel nsize targetsize : ℕ)
    → 0 < nsize
    → targetsize - nsize < fuel
    → targetsize ≤ 2 ^ 29
    → (r : ℕ) × (double_to fuel nsize targetsize ≡ done r)
      × (targetsize ≤ r)
      × (nsize ≤ r)
      × ((r ≡ nsize) ⊎ (r < targetsize + targetsize))
unfolding double_to
double_to-le zero nsize target pos enough small_target = absurd (omega arith)
double_to-le (suc fuel) nsize target pos enough small_target = elim (dec_lt nsize target) [
  | no large ↦ (nsize, ground arith, omega arith, omega arith, inl refl)
  | yes small ↦
      let (r, e, le, le', bound) =
        double_to-le fuel (nsize * 2) target (omega arith) (omega arith) small_target in
      (r, ground arith, le, omega arith, inr (omega arith))
]

-- A queue with two or more cells free does not wrap onto its reader.
pub next_ne : (m nr nw : ℕ) → nr < m → nw < m → gap m nr nw + 1 < m → (nw + 1) % m ≢ nr
next_ne m nr nw hr hw room = ground (arith, wrap_once (nw + 1) m (omega arith))

next_gap :
    (m nr nw : ℕ) → nr < m → nw < m → (nw + 1) % m ≢ nr → gap m nr ((nw + 1) % m) ≡ gap m nr nw + 1
next_gap m nr nw hr hw ne = ground (arith, wrap_once (nw + 1) m (omega arith))

small_block :
    (r nsize targetsize : ℕ)
    → (r ≡ nsize) ⊎ (r < targetsize + targetsize)
    → nsize < targetsize
    → targetsize ≤ 2 ^ 29
    → r * 4 < 2 ^ 32
small_block r nsize target (inl e) less small = omega arith
small_block r nsize target (inr e) less small = omega arith

module _ {ℓ} {A : Type ℓ} where
  pub add_with-room :
      (grow : Queue A → Kernel (Status × Queue A)) (x : A) (q : Queue A)
      → IsValid q
      → next_index q q.nextwrite ≢ q.nextread
      → add_with grow x q ≡ done (ok, put x q)
  unfolding add_with
  add_with-room grow x q v room =
      let pos : ltb 0 q.size ≡ true = ground (arith, v.read_in) in
      rw (pos, ==_ne (next_index q q.nextwrite) q.nextread room)

  pub add_with-full :
      (grow : Queue A → Kernel (Status × Queue A)) (x : A) (q t : Queue A) (s : Status)
      → IsValid q
      → next_index q q.nextwrite ≡ q.nextread
      → grow q ≡ done (s, t)
      → add_with grow x q ≡ elim s [ ok ↦ done (ok, put x t) | enomem ↦ done (enomem, t) ]
  unfolding add_with
  add_with-full grow x q t s v full grown =
      let pos : ltb 0 q.size ≡ true = ground (arith, v.read_in) in
      let meets : (next_index q q.nextwrite == q.nextread) ≡ true = ground arith in
      rw (pos, meets, grown)

  -- What the moving loop leads to.
  abbrev Moved : Queue A → ℕ → ℕ → Queue A → Kernel (Queue A) → Type ℓ
  Moved old i n q r =
      (t : Queue A) × (r ≡ done t)
      × (contents t ≡ contents q ++ window old.cells old.size i n)
      × IsValid t
      × (t.size ≡ q.size)

  move_all-Moved :
      (n fuel : ℕ) (old : Queue A) (i : ℕ) (q : Queue A)
      → IsValid old
      → IsValid q
      → i < old.size
      → gap old.size i old.nextwrite ≡ n
      → n < fuel
      → gap q.size q.nextread q.nextwrite + n < q.size
      → Moved old i n q (move_all fuel old i q)
  unfolding move_all window
  move_all-Moved n zero old i q vo v hi e enough room = absurd (omega arith)
  move_all-Moved zero (suc fuel) old i q vo v hi e enough room =
      let same : (i == old.nextwrite) ≡ true = ground (arith, vo.write_in) in
      (q, rw same, sym (append-nil (contents q)), v, refl)
  move_all-Moved (suc n) (suc fuel) old i q vo v hi e enough room =
      let more : (i == old.nextwrite) ≡ false = ground (arith, vo.write_in) in
      let free : next_index q q.nextwrite ≢ q.nextread =
        next_ne q.size q.nextread q.nextwrite v.read_in v.write_in (omega arith) in
      let (added, v') = contents-put (old.cells i) q v free in
      let (t, run, moved, vt, size) =
        move_all-Moved n fuel old (next_index old i) (put (old.cells i) q) vo v' (omega arith)
          (ground (arith, gap-suc old.size i old.nextwrite hi vo.write_in)) (omega arith)
          (omega (arith, next_gap q.size q.nextread q.nextwrite v.read_in v.write_in free)) in
      (
        t,
        rw (more, add_with-room (λ _. panic) (old.cells i) q v free) run,
        moved
            ∙ ap (λ l. l ++ window old.cells old.size (next_index old i) n) added
            ∙ append_assoc (contents q) (old.cells i ∷ []) _,
        vt,
        size,
      )

  -- How `q_grow` to a size `targetsize` ends.
  pub data Grows (mem : Bool) (targetsize : ℕ) (q : Queue A) (r : Kernel (Status × Queue A))
      : Type ℓ where
    grew :
        (t : Queue A)
        → r ≡ done (ok, t)
        → contents t ≡ contents q
        → IsValid t
        → targetsize ≤ t.size
        → Grows mem targetsize q r
    no_memory : mem ≡ false → r ≡ done (enomem, q) → Grows mem targetsize q r

  -- `q_grow` to a larger size, of 2^29 pointers at most, with the memory for it, leaves the same
  -- pointers in the same order, in a ring that is large enough; without the memory it changes
  -- nothing. No KASSERT fails.
  pub q_grow-Grows :
      (mem : Bool) (junk : ℕ → A) (targetsize : ℕ) (q : Queue A)
      → IsValid q
      → q.size < targetsize
      → targetsize ≤ 2 ^ 29
      → Grows mem targetsize q (q_grow mem junk targetsize q)
  unfolding q_grow window
  q_grow-Grows mem junk target q v larger small =
      let (nsize, doubled, le, le', bound) =
        double_to-le (target + 1) q.size target (omega (arith, v.read_in)) (omega arith) small in
      let fits : ltb (nsize * 4) (2 ^ 32) ≡ true =
        (let n : nsize * 4 < 2 ^ 32 = small_block nsize q.size target bound larger small in
          ground arith) in
      elim (Bool-cases mem) [
        | inr missing ↦ no_memory missing (rw (doubled, missing))
        | inl given ↦
            let empty : Queue A = record {
              size = nsize;
              nextwrite = 0;
              nextread = 0;
              cells = junk;
            } in
            let (t, run, moved, valid, size) =
              move_all-Moved (gap q.size q.nextread q.nextwrite) (q.size + 1) q q.nextread empty v
                (record { read_in = omega arith; write_in = omega arith }) v.read_in refl
                (ground (arith, v.read_in, v.write_in)) (ground (arith, v.read_in, v.write_in)) in
            grew t (rw (doubled, given, fits) (rw run)) moved valid (omega arith)
      ]
