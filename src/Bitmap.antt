-- ===== src/Bitmap.antt =====
-- kern/lib/bitmap.c: a fixed-size array of bits, kept in bytes. `v` is the array of bytes; `none`
-- is NULL, and the result of `bitmap_alloc` is the index, or `none` for ENOSPC.
pub mod Bytes
pub mod Laws
pub mod Alloc
mod Tests
use Prim.Native.Nat.{bit_and, bit_or}
use toy_os.Common.{
  ℕ, zero, suc, ◌+◌, ◌-◌, ◌*◌, ◌/◌, ◌%◌, ◌^◌, Bool, true, false, not, ◌&&◌, Option, none, some,
  Kernel, done, panic, kassert, ◌>>=◌, ◌>>◌, ltb, ◌==◌, if◌then◌else◌, update,
}

abbrev pub bits_per_word : ℕ
bits_per_word = 8

abbrev pub word_allbits : ℕ
word_allbits = 0xff

-- `struct bitmap`
pub record Bitmap : Type 0 where
  pub nbits : ℕ
  pub v : ℕ → ℕ

-- `(w & mask) != 0`, `w | mask` and `w & ~mask` for the mask `1 << k`, on a byte
unfoldable pub bit_test : ℕ → ℕ → Bool
bit_test w k = not (bit_and w (2 ^ k) == 0)

unfoldable pub set_bit : ℕ → ℕ → ℕ
set_bit w k = bit_or w (2 ^ k)

unfoldable pub clear_bit : ℕ → ℕ → ℕ
clear_bit w k = bit_and w (word_allbits - 2 ^ k)

-- DIVROUNDUP(nbits, BITS_PER_WORD)
abbrev pub words : ℕ → ℕ
words nbits = (nbits + bits_per_word - 1) / bits_per_word

-- The loop of `bitmap_create` over the leftover bits, `rounds` of them from `j` on.
unfoldable pub mark_over : ℕ → ℕ → ℕ → ℕ
unfolding set_bit
mark_over zero j w = w
mark_over (suc rounds) j w = mark_over rounds (j + 1) (set_bit w j)

-- `bitmap_create`; the flags say whether the memory for the two parts is there.
unfoldable pub bitmap_create : Bool → Bool → ℕ → Kernel (Option Bitmap)
unfolding mark_over
bitmap_create b_ok v_ok nbits =
    if b_ok && v_ok
    then (let ix = words nbits - 1 in
        let overbits = nbits - ix * bits_per_word in
        if ltb (nbits / bits_per_word) (words nbits)
        then (kassert (nbits / bits_per_word == words nbits - 1)
            >> (kassert (ltb 0 overbits && ltb overbits bits_per_word)
                >> done (
                    some (record {
                      nbits = nbits;
                      v = update (λ i. 0) ix (mark_over (bits_per_word - overbits) overbits 0);
                    }))))
        else done (some (record { nbits = nbits; v = λ i. 0 })))
    else done none

-- The inner loop of `bitmap_alloc`: the first clear bit of a byte, of `rounds` from `offset` on.
unfoldable pub clear_offset : ℕ → ℕ → ℕ → Option ℕ
unfolding bit_test
clear_offset zero offset w = none
clear_offset (suc rounds) offset w =
    let rest = clear_offset rounds (offset + 1) w in if bit_test w offset then rest else some offset

-- The outer loop, `rounds` bytes from `ix` on: the index of the first clear bit. The KASSERT(0)
-- stands behind the inner loop.
unfoldable pub clear_index : ℕ → ℕ → (ℕ → ℕ) → Kernel (Option ℕ)
clear_index zero ix v = done none
clear_index (suc rounds) ix v =
    let rest = clear_index rounds (ix + 1) v in
    if v ix == word_allbits then rest else elim (clear_offset bits_per_word 0 (v ix)) [
      | none ↦ panic
      | some offset ↦ done (some (ix * bits_per_word + offset))
    ]

-- `bitmap_alloc`'s writes for the index that is found.
abbrev pub alloc_found : Bitmap → Option ℕ → Kernel (Option ℕ × Bitmap)
alloc_found b none = done (none, b)
alloc_found b (some i) =
    let ix = i / bits_per_word in
    kassert (ltb i b.nbits)
    >> done (some i, record b { v = update b.v ix (set_bit (b.v ix) (i % bits_per_word)) })

-- `bitmap_alloc`
unfoldable pub bitmap_alloc : Bitmap → Kernel (Option ℕ × Bitmap)
bitmap_alloc b = clear_index (words b.nbits) 0 b.v >>= alloc_found b

-- `bitmap_mark`, with the index split by `bitmap_translate`
unfoldable pub bitmap_mark : ℕ → Bitmap → Kernel Bitmap
unfolding bit_test set_bit
bitmap_mark index b =
    let ix = index / bits_per_word in
    let offset = index % bits_per_word in
    kassert (ltb index b.nbits)
    >> (kassert (not (bit_test (b.v ix) offset))
        >> done (record b { v = update b.v ix (set_bit (b.v ix) offset) }))

-- `bitmap_unmark`
unfoldable pub bitmap_unmark : ℕ → Bitmap → Kernel Bitmap
unfolding bit_test clear_bit
bitmap_unmark index b =
    let ix = index / bits_per_word in
    let offset = index % bits_per_word in
    kassert (ltb index b.nbits)
    >> (kassert (bit_test (b.v ix) offset)
        >> done (record b { v = update b.v ix (clear_bit (b.v ix) offset) }))

-- `bitmap_isset`, as a truth value
unfoldable pub bitmap_isset : Bitmap → ℕ → Bool
unfolding bit_test
bitmap_isset b index = bit_test (b.v (index / bits_per_word)) (index % bits_per_word)
