-- ===== src/Common/Words.antt =====
-- A block of 32-bit words as bytes, and back: the highest byte of a word comes first on MIPS.
use Prim.Native.Nat.{ℕ, ◌+◌, ◌*◌, ◌/◌, ◌%◌, ◌^◌, ◌<◌}
use mathlib.Core.Path.{◌≡◌}
use mathlib.Core.Logic.{inl, inr}
use native.Mathlib.Omega.{arith}
use toy_os.Common.Tests.{◌==◌, if◌then◌else◌, Bool-cases}

unfoldable pub load_words : (ℕ → ℕ) → ℕ → ℕ
load_words buf i =
    buf (4 * i) % 256 * 2 ^ 24
    + buf (4 * i + 1) % 256 * 2 ^ 16
    + buf (4 * i + 2) % 256 * 2 ^ 8
    + buf (4 * i + 3) % 256

-- The byte of a word at its place from the highest on.
unfoldable pub word_byte : ℕ → ℕ → ℕ
word_byte place w =
    if place == 0
    then w / 2 ^ 24 % 256
    else (if place == 1
        then w / 2 ^ 16 % 256
        else (if place == 2 then w / 2 ^ 8 % 256 else w % 256))

unfoldable pub store_words : (ℕ → ℕ) → ℕ → ℕ
unfolding word_byte
store_words w j = word_byte (j % 4) (w (j / 4))

pub load_words-store_words : (w : ℕ → ℕ) (i : ℕ) → w i < 2 ^ 32 → load_words (store_words w) i ≡ w i
unfolding load_words store_words word_byte
load_words-store_words w i small =
    let q0 : 4 * i / 4 ≡ i = omega arith in
    let q1 : (4 * i + 1) / 4 ≡ i = omega arith in
    let q2 : (4 * i + 2) / 4 ≡ i = omega arith in
    let q3 : (4 * i + 3) / 4 ≡ i = omega arith in
    let r0 : 4 * i % 4 ≡ 0 = omega arith in
    let r1 : (4 * i + 1) % 4 ≡ 1 = omega arith in
    let r2 : (4 * i + 2) % 4 ≡ 2 = omega arith in
    let r3 : (4 * i + 3) % 4 ≡ 3 = omega arith in rw (q0, q1, q2, q3, r0, r1, r2, r3) (omega arith)

pub load_words_small : (buf : ℕ → ℕ) (i : ℕ) → load_words buf i < 2 ^ 32
unfolding load_words
load_words_small buf i = omega arith

pub store_words-load_words : (buf : ℕ → ℕ) (j : ℕ) → store_words (load_words buf) j ≡ buf j % 256
unfolding load_words store_words word_byte
store_words-load_words buf j = elim (Bool-cases (j % 4 == 0)) [
  | inl e ↦ let at : 4 * (j / 4) ≡ j = ground arith in rw (e, at) (omega arith)
  | inr e ↦ elim (Bool-cases (j % 4 == 1)) [
    | inl f ↦ let at : 4 * (j / 4) + 1 ≡ j = ground arith in rw (e, f, at) (omega arith)
    | inr f ↦ elim (Bool-cases (j % 4 == 2)) [
      | inl g ↦ let at : 4 * (j / 4) + 2 ≡ j = ground arith in rw (e, f, g, at) (omega arith)
      | inr g ↦ let at : 4 * (j / 4) + 3 ≡ j = ground arith in rw (e, f, g, at) (omega arith)
    ]
  ]
]
