-- ===== src/Bitmap/Alloc.antt =====
-- `bitmap_alloc` of kern/lib/bitmap.c: it takes the lowest clear bit.
use toy_os.Common.{
  ℕ, zero, suc, ◌+◌, ◌*◌, ◌/◌, ◌%◌, ◌≤◌, ◌<◌, ◌≡◌, refl, ap, ◌∙◌, inl, inr, true, false, Option,
  none, some, Kernel, done, ◌>>=◌, arith, Bool-cases, Option-cases, ◌==◌, dec_lt,
}
use toy_os.Bitmap.{
  bits_per_word, word_allbits, Bitmap, words, bit_test, set_bit, clear_offset, clear_index,
  alloc_found, bitmap_alloc, bitmap_isset,
}
use toy_os.Bitmap.Bytes.{full_byte, bit_test-full}
use toy_os.Bitmap.Laws.{IsValid, Writes, with_byte, set_bit-Writes}

-- The first clear bit of a byte.
clear_offset-some :
    (rounds offset w : ℕ) {k : ℕ}
    → clear_offset rounds offset w ≡ some k
    → (offset ≤ k) × (k < offset + rounds) × (bit_test w k ≡ false)
unfolding clear_offset
clear_offset-some zero offset w e = cc
clear_offset-some (suc rounds) offset w {k} e =
    ground (arith, clear_offset-some rounds (offset + 1) w {k = k})

clear_offset-lowest :
    (rounds offset w : ℕ) {k : ℕ} (j : ℕ)
    → clear_offset rounds offset w ≡ some k
    → offset ≤ j
    → j < k
    → bit_test w j ≡ true
unfolding clear_offset
clear_offset-lowest zero offset w j e lo hi = cc
clear_offset-lowest (suc rounds) offset w {k} j e lo hi =
    ground (arith, clear_offset-lowest rounds (offset + 1) w {k = k} j)

clear_offset-none :
    (rounds offset w j : ℕ)
    → clear_offset rounds offset w ≡ none
    → offset ≤ j
    → j < offset + rounds
    → bit_test w j ≡ true
unfolding clear_offset
clear_offset-none zero offset w j e lo hi = absurd (omega arith)
clear_offset-none (suc rounds) offset w j e lo hi =
    ground (arith, clear_offset-none rounds (offset + 1) w j)

-- The first clear bit from the byte `ix` on, among `rounds` bytes; the KASSERT(0) is never met.
data Searched (b : Bitmap) (rounds ix : ℕ) : Kernel (Option ℕ) → Type 0 where
  all_set :
      ((j : ℕ) → ix * 8 ≤ j → j < (ix + rounds) * 8 → bitmap_isset b j ≡ true)
      → Searched b rounds ix (done none)
  lowest :
      (i : ℕ)
      → ix * 8 ≤ i
      → i < (ix + rounds) * 8
      → bitmap_isset b i ≡ false
      → ((j : ℕ) → ix * 8 ≤ j → j < i → bitmap_isset b j ≡ true)
      → Searched b rounds ix (done (some i))

-- A bit of the byte `ix`.
isset-byte :
    (b : Bitmap) (ix j : ℕ)
    → ix * 8 ≤ j
    → j < ix * 8 + 8
    → bitmap_isset b j ≡ bit_test (b.v ix) (j % 8)
unfolding bitmap_isset
isset-byte b ix j lo hi = let same : j / 8 ≡ ix = omega arith in rw same

Searched-suc :
    (b : Bitmap) (rounds ix : ℕ) {r : Kernel (Option ℕ)}
    → ((j : ℕ) → ix * 8 ≤ j → j < ix * 8 + 8 → bitmap_isset b j ≡ true)
    → Searched b rounds (ix + 1) r
    → Searched b (suc rounds) ix r
Searched-suc b rounds ix full (all_set rest) = all_set λ j lo hi. elim (dec_lt j (ix * 8 + 8)) [
  | yes here ↦ full j lo here
  | no later ↦ rest j (omega arith) (omega arith)
]
Searched-suc b rounds ix full (lowest i lo hi clear rest) =
    lowest i (omega arith) (omega arith) clear λ j lo' hi'. elim (dec_lt j (ix * 8 + 8)) [
      | yes here ↦ full j lo' here
      | no later ↦ rest j (omega arith) hi'
    ]

clear_index-Searched :
    (b : Bitmap) (rounds ix : ℕ) → IsValid b → Searched b rounds ix (clear_index rounds ix b.v)
unfolding clear_index
clear_index-Searched b zero ix v = all_set λ j lo hi. absurd (omega arith)
clear_index-Searched b (suc rounds) ix v = elim (Bool-cases (b.v ix == word_allbits)) [
  | inl full ↦ rw full (
      Searched-suc b rounds ix
        (λ j lo hi.
          isset-byte b ix j lo hi
          ∙ ap (λ w. bit_test w (j % 8)) (ground arith)
          ∙ bit_test-full (j % 8) (omega arith))
        (clear_index-Searched b rounds (ix + 1) v))
  | inr some_clear ↦ elim (Option-cases (clear_offset bits_per_word 0 (b.v ix))) [
    | inl stuck ↦
        let filled : b.v ix ≡ 255 =
          full_byte (b.v ix) (v.bytes ix)
            (λ j h. clear_offset-none 8 0 (b.v ix) j stuck (omega arith) h) in
        absurd (ground arith)
    | inr (k, found) ↦
        let (lo, hi, clear) = clear_offset-some 8 0 (b.v ix) found in
        rw (some_clear, found)
          (lowest (ix * 8 + k) (omega arith) (omega arith)
            (isset-byte b ix (ix * 8 + k) (omega arith) (omega arith)
              ∙ ap (bit_test (b.v ix)) (omega arith)
              ∙ clear)
            λ j lo' hi'.
              isset-byte b ix j lo' (omega arith)
              ∙ clear_offset-lowest 8 0 (b.v ix) (j % 8) found (omega arith) (omega arith))
  ]
]

-- How `bitmap_alloc` ends: it finds ENOSPC and changes nothing, with all bits set, or it sets the
-- lowest clear bit, and that bit alone, and gives its index.
pub data Allocates (b : Bitmap) (r : Kernel (Option ℕ × Bitmap)) : Type 0 where
  no_space : ((j : ℕ) → j < b.nbits → bitmap_isset b j ≡ true) → r ≡ done (none, b) → Allocates b r
  takes :
      (i : ℕ) (c : Bitmap)
      → r ≡ done (some i, c)
      → i < b.nbits
      → bitmap_isset b i ≡ false
      → ((j : ℕ) → j < i → bitmap_isset b j ≡ true)
      → Writes b i true c
      → Allocates b r

Searched-Allocates :
    (b : Bitmap) {r : Kernel (Option ℕ)}
    → IsValid b
    → Searched b (words b.nbits) 0 r
    → Allocates b (r >>= alloc_found b)
Searched-Allocates b v (all_set full) = no_space (λ j lt. full j (omega arith) (omega arith)) refl
Searched-Allocates b v (lowest i lo hi clear rest) = elim (dec_lt i b.nbits) [
  | no out ↦ absurd (ground (arith, v.over i (omega arith) (omega arith)))
  | yes lt ↦
      takes i (with_byte b i (set_bit (b.v (i / 8)) (i % 8))) (ground arith) lt clear
        (λ j below. rest j (omega arith) below) (set_bit-Writes i b v lt)
]

-- `bitmap_alloc` of a valid bitmap fails no KASSERT. It finds ENOSPC and changes nothing if all
-- bits are set; else it sets the lowest clear bit, that bit alone, and gives its index.
pub bitmap_alloc-Allocates : (b : Bitmap) → IsValid b → Allocates b (bitmap_alloc b)
unfolding bitmap_alloc
bitmap_alloc-Allocates b v = Searched-Allocates b v (clear_index-Searched b (words b.nbits) 0 v)
