-- ===== src/Arrays/Grow.antt =====
-- Adding to an array of kern/lib/array.c and removing from it.
use toy_os.Common.{
  ℕ, zero, suc, ◌+◌, ◌-◌, ◌*◌, ◌/◌, ◌%◌, ◌^◌, ◌≤◌, ◌<◌, ◌≡◌, refl, ◌∙◌, inl, inr, Bool, true, false,
  ◌&&◌, Kernel, done, arith, Bool-cases, ltb, leb, ◌==◌, if◌then◌else◌, update, update_self,
  update_ne,
}
use toy_os.Arrays.{
  Array, Status, ok, enomem, grow_max, array_setsize, array_add, array_get, array_remove,
}

pub record IsValid {ℓ} {A : Type ℓ} (a : Array A) : Type 0 where
  pub num_le : a.num ≤ a.max

-- The doubling ends, at a size that is large enough.
grow_max_ends :
    (fuel num newmax : ℕ)
    → num ≤ 2 ^ 29
    → num ≤ newmax + fuel
    → 0 < newmax
    → newmax < 2 ^ 30
    → (m : ℕ) × (grow_max (suc fuel) num newmax ≡ done m) × (num ≤ m) × (m < 2 ^ 30)
unfolding grow_max
grow_max_ends zero num newmax small enough pos top =
    let there : ltb newmax num ≡ false = ground arith in (newmax, rw there, omega arith, top)
grow_max_ends (suc fuel) num newmax small enough pos top = elim (Bool-cases (ltb newmax num)) [
  | inl less ↦
      let below : newmax < num = ground arith in
      let nonzero : (newmax == 0) ≡ false = ground arith in
      let (m, e, le, fits) =
        grow_max_ends fuel num (newmax * 2 % 2 ^ 32) small (omega arith) (omega arith)
          (omega arith) in
      (m, rw (less, nonzero) e, le, fits)
  | inr there ↦ (newmax, rw there, ground arith, top)
]

-- From any size on, also from the empty array's.
grow_max_start :
    (num newmax : ℕ)
    → num ≤ 2 ^ 29
    → newmax < 2 ^ 30
    → (m : ℕ) × (grow_max (suc (suc num)) num newmax ≡ done m) × (num ≤ m) × (m < 2 ^ 30)
unfolding grow_max
grow_max_start num zero small top = elim (Bool-cases (ltb 0 num)) [
  | inl more ↦
      let (m, e, le, fits) =
        grow_max_ends num num 4 small (omega arith) (omega arith) (omega arith) in
      (m, rw more e, le, fits)
  | inr none_wanted ↦ (0, rw none_wanted, ground arith, top)
]
grow_max_start num (suc newmax) small top =
    grow_max_ends (suc num) num (suc newmax) small (omega arith) (omega arith) top

module _ {ℓ} {A : Type ℓ} where
  -- How `array_add` ends.
  pub data Adds (mem : Bool) (val : A) (a : Array A) (r : Kernel (Status × ℕ × Array A))
      : Type ℓ where
    added :
        (t : Array A)
        → r ≡ done (ok, a.num, t)
        → t.num ≡ a.num + 1
        → ((k : ℕ) → k < a.num → t.v k ≡ a.v k)
        → t.v a.num ≡ val
        → IsValid t
        → Adds mem val a r
    no_memory : mem ≡ false → r ≡ done (enomem, a.num, a) → Adds mem val a r

  array_setsize_room :
      (mem : Bool) (junk : ℕ → A) (num : ℕ) (a : Array A)
      → num ≤ a.max
      → array_setsize mem junk num a ≡ done (ok, record a { num = num })
  unfolding array_setsize
  array_setsize_room mem junk num a le = let e : ltb a.max num ≡ false = ground arith in rw e

  array_setsize_full :
      (junk : ℕ → A) (num : ℕ) (a : Array A)
      → num ≤ 2 ^ 29
      → a.num ≤ num
      → a.max < num
      → (m : ℕ) × (num ≤ m)
        × (array_setsize true junk num a
            ≡ done
                (ok, record { num = num; max = m; v = λ i. if ltb i a.num then a.v i else junk i }))
        × (array_setsize false junk num a ≡ done (enomem, a))
  unfolding array_setsize
  array_setsize_full junk num a small more lt =
      let (m, e, le, fits) = grow_max_start num a.max small (omega arith) in
      let block : leb a.num (m * 4 % 2 ^ 32 / 4) ≡ true =
        (let n : a.num ≤ m * 4 % 2 ^ 32 / 4 = omega arith in ground arith) in
      let past : ltb a.max num ≡ true = ground arith in (m, le, rw (past, e, block), rw (past, e))

  add_full :
      (mem : Bool) (junk : ℕ → A) (val : A) (a : Array A)
      → a.num < 2 ^ 29
      → a.max < a.num + 1
      → Adds mem val a (array_add mem junk val a)
  unfolding array_add
  add_full true junk val a small full =
      let (m, le, e, _) = array_setsize_full junk (a.num + 1) a (omega arith) (omega arith) full in
      added
        (record {
          num = a.num + 1;
          max = m;
          v = update (λ i. if ltb i a.num then a.v i else junk i) a.num val;
        })
        (rw e) refl
        (λ k lt.
          update_ne (λ i. if ltb i a.num then a.v i else junk i) a.num k val (omega arith)
          ∙ (let inside : ltb k a.num ≡ true = ground arith in rw inside))
        (update_self (λ i. if ltb i a.num then a.v i else junk i) a.num val)
        (record { num_le = le })
  add_full false junk val a small full =
      let (m, le, _, e) = array_setsize_full junk (a.num + 1) a (omega arith) (omega arith) full in
      no_memory refl (rw e)

  -- `array_add` to an array of less than 2^29 elements ends, fails no KASSERT, and puts the element
  -- behind the others, which stay; it gives ENOMEM, and the array of before, only where the memory
  -- to grow is missing.
  pub array_add-Adds :
      (mem : Bool) (junk : ℕ → A) (val : A) (a : Array A)
      → IsValid a
      → a.num < 2 ^ 29
      → Adds mem val a (array_add mem junk val a)
  unfolding array_add
  array_add-Adds mem junk val a valid small = elim (Bool-cases (ltb a.max (a.num + 1))) [
    | inr room ↦
        added (record a { num = a.num + 1; v = update a.v a.num val })
          (rw (array_setsize_room mem junk (a.num + 1) a (ground arith))) refl
          (λ k lt. update_ne a.v a.num k val (omega arith)) (update_self a.v a.num val)
          (record { num_le = ground arith })
    | inl full ↦ add_full mem junk val a small (ground arith)
  ]

  -- `array_remove` of an index in range takes that element out and keeps the others in order.
  pub array_remove-array_get :
      (a : Array A) (index : ℕ)
      → IsValid a
      → index < a.num
      → (t : Array A) × (array_remove a index ≡ done t)
        × (t.num + 1 ≡ a.num)
        × IsValid t
        × ((k : ℕ) → k < index → array_get t k ≡ array_get a k)
        × ((k : ℕ) → index ≤ k → k < t.num → array_get t k ≡ array_get a (k + 1))
  unfolding array_remove array_get
  array_remove-array_get a index valid lt =
      let in_max : leb a.num a.max ≡ true = ground (arith, valid.num_le) in
      let in_num : ltb index a.num ≡ true = ground arith in
      (
        record a {
          num = a.num - 1;
          v = λ i. if leb index i && ltb i (a.num - 1) then a.v (i + 1) else a.v i;
        },
        rw (in_max, in_num),
        omega arith,
        record { num_le = omega (arith, valid.num_le) },
        λ k h.
            let k1 : ltb k (a.num - 1) ≡ true = ground arith in
            let k2 : ltb k a.num ≡ true = ground arith in
            let k3 : leb index k ≡ false = ground arith in rw (k1, k2, k3),
        λ k lo h.
            let k1 : ltb k (a.num - 1) ≡ true = ground arith in
            let k2 : ltb (k + 1) a.num ≡ true = ground arith in
            let k3 : leb index k ≡ true = ground arith in rw (k1, k2, k3),
      )
