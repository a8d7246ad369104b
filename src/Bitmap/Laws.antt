-- ===== src/Bitmap/Laws.antt =====
-- kern/lib/bitmap.c as a set of indices: what each operation does to `bitmap_isset`.
use toy_os.Common.{
  ℕ, zero, suc, ◌+◌, ◌-◌, ◌*◌, ◌/◌, ◌%◌, ◌≤◌, ◌<◌, ◌≡◌, refl, ap, ◌∙◌, ◌⊎◌, inl, inr, Bool, true,
  false, ◌&&◌, ◌||◌, none, some, done, panic, arith, Bool-cases, ltb, leb, ◌==◌, if◌then◌else◌,
  update, ℕ_discrete, dec_lt,
}
use toy_os.Bitmap.{
  bits_per_word, Bitmap, words, bit_test, set_bit, clear_bit, mark_over, bitmap_create, bitmap_mark,
  bitmap_unmark, bitmap_isset,
}
use toy_os.Bitmap.Bytes.{bit_test-set_bit, bit_test-clear_bit, bit_test-zero}

-- Every byte is a byte, and the bits past `nbits` in the last one are set.
pub record IsValid (b : Bitmap) : Type 0 where
  pub bytes : (ix : ℕ) → b.v ix < 256
  pub over : (i : ℕ) → b.nbits ≤ i → i < words b.nbits * bits_per_word → bitmap_isset b i ≡ true

-- What it means that `c` is `b` with bit `i` written as `value`.
pub record Writes (b : Bitmap) (i : ℕ) (value : Bool) (c : Bitmap) : Type 0 where
  pub size : c.nbits ≡ b.nbits
  pub bits : (j : ℕ) → bitmap_isset c j ≡ (if i == j then value else bitmap_isset b j)
  pub valid : IsValid c

-- The bitmap with the byte of index `i` written anew.
abbrev pub with_byte : Bitmap → ℕ → ℕ → Bitmap
with_byte b i w = record b { v = update b.v (i / bits_per_word) w }

bitmap_isset-with_byte :
    (b : Bitmap) (i w j : ℕ)
    → bitmap_isset (with_byte b i w) j
      ≡ (if i / 8 == j / 8 then bit_test w (j % 8) else bitmap_isset b j)
unfolding bitmap_isset
bitmap_isset-with_byte b i w j = ground arith

-- A byte that differs from the old one in the bit of index `i` alone.
abbrev DiffersAt : ℕ → ℕ → Bool → ℕ → Type 0
DiffersAt w k value w' =
    (w' < 256) × ((j : ℕ) → j < 8 → bit_test w' j ≡ (if k == j then value else bit_test w j))

byte-Writes :
    (b : Bitmap) (i w' : ℕ) (value : Bool)
    → IsValid b
    → i < b.nbits
    → DiffersAt (b.v (i / 8)) (i % 8) value w'
    → Writes b i value (with_byte b i w')
byte-Writes b i w' value v lt (small, differs) = record {
  size = refl;
  bits = bits;
  valid = record {
    bytes = λ ix. ground (arith, v.bytes ix);
    over = λ j lo hi. bits j ∙ ground (arith, v.over j lo hi);
  };
}
  where
    same_byte : (j : ℕ) → i / 8 ≡ j / 8 → bit_test (b.v (i / 8)) (j % 8) ≡ bitmap_isset b j
    same_byte j e = unfold bitmap_isset in ap (λ k. bit_test (b.v k) (j % 8)) e

    bits :
        (j : ℕ) → bitmap_isset (with_byte b i w') j ≡ (if i == j then value else bitmap_isset b j)
    bits j = elim (ℕ_discrete (i / 8) (j / 8)) [
      | yes e ↦
          bitmap_isset-with_byte b i w' j
          ∙ ground (arith, differs (j % 8) (omega arith), same_byte j e)
      | no e ↦ bitmap_isset-with_byte b i w' j ∙ ground arith
    ]

module _ (i : ℕ) (b : Bitmap) (v : IsValid b) (lt : i < b.nbits) where
  pub set_bit-Writes : Writes b i true (with_byte b i (set_bit (b.v (i / 8)) (i % 8)))
  set_bit-Writes = byte-Writes b i _ true v lt (
    (bit_test-set_bit (b.v (i / 8)) (i % 8) 0 (v.bytes (i / 8)) (omega arith) (omega arith)).1,
    λ j h.
        (bit_test-set_bit (b.v (i / 8)) (i % 8) j (v.bytes (i / 8)) (omega arith) h).0
        ∙ ground arith,
  )

  clear_bit-Writes : Writes b i false (with_byte b i (clear_bit (b.v (i / 8)) (i % 8)))
  clear_bit-Writes = byte-Writes b i _ false v lt (
    (bit_test-clear_bit (b.v (i / 8)) (i % 8) 0 (v.bytes (i / 8)) (omega arith) (omega arith)).1,
    λ j h.
        (bit_test-clear_bit (b.v (i / 8)) (i % 8) j (v.bytes (i / 8)) (omega arith) h).0
        ∙ ground arith,
  )

-- `bitmap_mark` of a clear bit sets that bit and no other, and keeps the bitmap valid; of a set
-- bit, or of an index that the bitmap does not have, it fails a KASSERT.
pub bitmap_mark-Writes :
    (i : ℕ) (b : Bitmap)
    → IsValid b
    → (((i < b.nbits) × (bitmap_isset b i ≡ false))
        × ((c : Bitmap) × (bitmap_mark i b ≡ done c) × Writes b i true c))
      ⊎ (((b.nbits ≤ i) ⊎ (bitmap_isset b i ≡ true)) × (bitmap_mark i b ≡ panic))
unfolding bitmap_mark bitmap_isset
bitmap_mark-Writes i b v = elim (dec_lt i b.nbits) [
  | no out ↦ inr (inl (omega arith), ground arith)
  | yes lt ↦ elim (Bool-cases (bitmap_isset b i)) [
    | inl marked ↦ inr (inr marked, ground arith)
    | inr clear ↦ inl (
      (lt, clear),
      (with_byte b i (set_bit (b.v (i / 8)) (i % 8)), ground arith, set_bit-Writes i b v lt),
    )
  ]
]

-- `bitmap_unmark` of a set bit clears that bit and no other, and keeps the bitmap valid; of a clear
-- bit, or of an index that the bitmap does not have, it fails a KASSERT.
pub bitmap_unmark-Writes :
    (i : ℕ) (b : Bitmap)
    → IsValid b
    → (((i < b.nbits) × (bitmap_isset b i ≡ true))
        × ((c : Bitmap) × (bitmap_unmark i b ≡ done c) × Writes b i false c))
      ⊎ (((b.nbits ≤ i) ⊎ (bitmap_isset b i ≡ false)) × (bitmap_unmark i b ≡ panic))
unfolding bitmap_unmark bitmap_isset
bitmap_unmark-Writes i b v = elim (dec_lt i b.nbits) [
  | no out ↦ inr (inl (omega arith), ground arith)
  | yes lt ↦ elim (Bool-cases (bitmap_isset b i)) [
    | inr clear ↦ inr (inr clear, ground arith)
    | inl marked ↦ inl (
      (lt, marked),
      (with_byte b i (clear_bit (b.v (i / 8)) (i % 8)), ground arith, clear_bit-Writes i b v lt),
    )
  ]
]

-- The loop over the leftover bits.
mark_over_lem :
    (rounds j w : ℕ)
    → w < 256
    → j + rounds ≡ 8
    → (mark_over rounds j w < 256)
      × ((k : ℕ) → k < 8 → bit_test (mark_over rounds j w) k ≡ (leb j k || bit_test w k))
unfolding mark_over
mark_over_lem zero j w small e = (small, λ k h. ground arith)
mark_over_lem (suc rounds) j w small e =
    let marked : set_bit w j < 256 = (bit_test-set_bit w j 0 small (omega arith) (omega arith)).1 in
    let (small', bits) = mark_over_lem rounds (j + 1) (set_bit w j) marked (omega arith) in
    (small', λ k h. bits k h ∙ ground (arith, bit_test-set_bit w j k small (omega arith) h))

-- The bitmap that `bitmap_create` makes when `over` bits of the byte `ix` are its last ones.
module _ (nbits ix over : ℕ) (e : nbits ≡ ix * 8 + over) (pos : 0 < over) (lt : over < 8) where
  abbrev last_byte : ℕ
  last_byte = mark_over (8 - over) over 0

  abbrev odd_bitmap : Bitmap
  odd_bitmap = record { nbits = nbits; v = update (λ i. 0) ix last_byte }

  odd_bits : (i : ℕ) → bitmap_isset odd_bitmap i ≡ (if ix == i / 8 then leb over (i % 8) else false)
  unfolding bitmap_isset
  odd_bits i = elim (ℕ_discrete ix (i / 8)) [
    | yes same ↦ ground (
      arith,
      (mark_over_lem (8 - over) over 0 (omega arith) (omega arith)).1 (i % 8) (omega arith),
      bit_test-zero (i % 8) (omega arith),
    )
    | no other ↦ ground (arith, bit_test-zero (i % 8) (omega arith))
  ]

  odd_bitmap-IsValid : IsValid odd_bitmap
  odd_bitmap-IsValid = record {
    bytes = λ k. ground (arith, (mark_over_lem (8 - over) over 0 (omega arith) (omega arith)).0);
    over = λ i lo hi. odd_bits i ∙ ground arith;
  }

-- `bitmap_create` never fails a KASSERT; with the memory it gives a valid bitmap of `nbits` bits,
-- all of them clear, and else NULL.
pub bitmap_create-IsValid :
    (b_ok v_ok : Bool) (nbits : ℕ)
    → (((b_ok && v_ok) ≡ false) × (bitmap_create b_ok v_ok nbits ≡ done none))
      ⊎ ((b : Bitmap) × (bitmap_create b_ok v_ok nbits ≡ done (some b))
          × (b.nbits ≡ nbits)
          × ((i : ℕ) → i < nbits → bitmap_isset b i ≡ false)
          × IsValid b)
unfolding bitmap_create
bitmap_create-IsValid b_ok v_ok nbits = elim (Bool-cases (b_ok && v_ok)) [
  | inr missing ↦ inl (missing, ground arith)
  | inl given ↦ elim (Bool-cases (ltb (nbits / bits_per_word) (words nbits))) [
    | inr even ↦ inr (
      record { nbits = nbits; v = λ i. 0 },
      ground arith,
      refl,
      λ i lt. unfold bitmap_isset in bit_test-zero (i % 8) (omega arith),
      record { bytes = λ ix. omega arith; over = λ i lo hi. absurd (ground arith) },
    )
    | inl odd ↦
        let ix : ℕ = words nbits - 1 in
        let over : ℕ = nbits - ix * bits_per_word in
        let some_over : 0 < over = ground arith in
        let few : over < 8 = ground arith in
        let split : nbits ≡ ix * 8 + over = ground arith in
        inr (
          odd_bitmap nbits ix over split some_over few,
          ground arith,
          refl,
          λ i lt. odd_bits nbits ix over split some_over few i ∙ ground arith,
          odd_bitmap-IsValid nbits ix over split some_over few,
        )
  ]
]
