-- ===== src/Arrays.antt =====
-- kern/lib/array.c and the operations that kern/include/array.h has inline: arrays that grow. The
-- elements are pointers of any type; `junk` is what `kmalloc`'s memory holds.
pub mod Grow
mod Tests
use toy_os.Common.{
  ℕ, zero, suc, ◌+◌, ◌-◌, ◌*◌, ◌/◌, ◌%◌, ◌^◌, Bool, true, false, ◌&&◌, Kernel, done, panic, kassert,
  ◌>>=◌, ◌>>◌, ltb, leb, ◌==◌, if◌then◌else◌, update,
}

-- `struct array`
pub record Array {ℓ} (A : Type ℓ) : Type ℓ where
  pub num : ℕ
  pub max : ℕ
  pub v : ℕ → A

-- What `array_setsize` and `array_add` return: 0 or ENOMEM.
pub data Status : Type 0 where
  ok enomem : Status

-- The loop of `array_setsize`, on 32-bit words.
unfoldable pub grow_max : ℕ → ℕ → ℕ → Kernel ℕ
grow_max zero num newmax = panic
grow_max (suc fuel) num newmax =
    let rest = grow_max fuel num (if newmax == 0 then 4 else newmax * 2 % 2 ^ 32) in
    if ltb newmax num then rest else done newmax

module _ {ℓ} {A : Type ℓ} where
  -- `array_init`; NULL is `junk`.
  unfoldable pub array_init : (ℕ → A) → Array A
  array_init junk = record { num = 0; max = 0; v = junk }

  -- `array_setsize`. Where `newmax * sizeof` wraps, the block may be too small for the elements,
  -- which are then copied behind its end; this stands as `panic`.
  unfoldable pub array_setsize : Bool → (ℕ → A) → ℕ → Array A → Kernel (Status × Array A)
  array_setsize mem junk num a =
      if ltb a.max num
      then (grow_max (suc (suc num)) num a.max >>= λ newmax.
          if mem
          then kassert (leb a.num (newmax * 4 % 2 ^ 32 / 4))
            >> done (
              ok,
              record { num = num; max = newmax; v = λ i. if ltb i a.num then a.v i else junk i },
            )
          else done (enomem, a))
      else done (ok, record a { num = num })

  -- `array_add`; the index is returned with the array.
  unfoldable pub array_add : Bool → (ℕ → A) → A → Array A → Kernel (Status × ℕ × Array A)
  array_add mem junk val a = array_setsize mem junk (a.num + 1) a >>= λ r. elim r.0 [
    | ok ↦ done (ok, a.num, record (r.1) { v = update r.1.v a.num val })
    | enomem ↦ done (enomem, a.num, r.1)
  ]

  -- `array_get` and `array_set`
  unfoldable pub array_get : Array A → ℕ → Kernel A
  array_get a index = kassert (ltb index a.num) >> done (a.v index)

  unfoldable pub array_set : Array A → ℕ → A → Kernel (Array A)
  array_set a index val = kassert (ltb index a.num) >> done (record a { v = update a.v index val })

  -- `array_remove`
  unfoldable pub array_remove : Array A → ℕ → Kernel (Array A)
  array_remove a index =
      kassert (leb a.num a.max)
      >> (kassert (ltb index a.num)
          >> done (record a {
            num = a.num - 1;
            v = λ i. if leb index i && ltb i (a.num - 1) then a.v (i + 1) else a.v i;
          }))
