-- ===== src/Bitmap/Bytes.antt =====
-- The bits of a byte in kern/lib/bitmap.c: laws of the masks, checked on all bytes and bits.
use toy_os.Common.{
  ℕ, zero, suc, ◌<◌, ◌≡◌, refl, Bool, true, false, not, ◌&&◌, ◌||◌, arith, ltb, ◌==◌,
}
use toy_os.Bitmap.{bit_test, set_bit, clear_bit}

check_to : ℕ → (ℕ → Bool) → Bool
check_to zero test = true
check_to (suc n) test = check_to n test && test n

check_to-holds : (n : ℕ) (p : ℕ → Bool) (x : ℕ) → check_to n p ≡ true → x < n → p x ≡ true
unfolding check_to
check_to-holds zero p x h lt = absurd (omega arith)
check_to-holds (suc n) p x h lt = ground (arith, check_to-holds n p x)

same : Bool → Bool → Bool
same true b = b
same false b = not b

-- A test of all bytes, masks and bits.
bit_table : (ℕ → ℕ → ℕ → Bool) → Bool
bit_table p = check_to 256 (λ w. check_to 8 (λ k. check_to 8 (λ j. p w k j)))

bit_table_sound :
    (p : ℕ → ℕ → ℕ → Bool) (w k j : ℕ)
    → bit_table p ≡ true
    → w < 256
    → k < 8
    → j < 8
    → p w k j ≡ true
unfolding bit_table
bit_table_sound p w k j h hw hk hj =
    check_to-holds 8 (λ j. p w k j) j
      (check_to-holds 8 (λ k. check_to 8 (λ j. p w k j)) k
        (check_to-holds 256 (λ w. check_to 8 (λ k. check_to 8 (λ j. p w k j))) w h hw) hk)
      hj

abbrev set_entry : ℕ → ℕ → ℕ → Bool
set_entry w k j = same (bit_test (set_bit w k) j) (k == j || bit_test w j) && ltb (set_bit w k) 256

abbrev clear_entry : ℕ → ℕ → ℕ → Bool
clear_entry w k j =
    same (bit_test (clear_bit w k) j) (not (k == j) && bit_test w j) && ltb (clear_bit w k) 256

abbrev full_entry : ℕ → Bool
full_entry w = same (w == 255) (check_to 8 (bit_test w))

set_table : bit_table set_entry ≡ true
unfolding bit_table check_to same bit_test set_bit
set_table = refl

clear_table : bit_table clear_entry ≡ true
unfolding bit_table check_to same bit_test clear_bit
clear_table = refl

full_table : check_to 256 full_entry ≡ true
unfolding check_to same bit_test
full_table = refl

same-eq : (a b : Bool) → same a b ≡ true → a ≡ b
unfolding same
same-eq a b h = ground arith

split_and : (a b : Bool) → (a && b) ≡ true → (a ≡ true) × (b ≡ true)
split_and a b h = ground arith

-- Setting a bit of a byte.
pub bit_test-set_bit :
    (w k j : ℕ)
    → w < 256
    → k < 8
    → j < 8
    → (bit_test (set_bit w k) j ≡ (k == j || bit_test w j)) × (set_bit w k < 256)
bit_test-set_bit w k j hw hk hj =
    let (bits, small) = split_and _ _ entry in (same-eq _ _ bits, ground arith)
  where
    entry : set_entry w k j ≡ true
    entry = bit_table_sound set_entry w k j set_table hw hk hj

-- Clearing a bit of a byte.
pub bit_test-clear_bit :
    (w k j : ℕ)
    → w < 256
    → k < 8
    → j < 8
    → (bit_test (clear_bit w k) j ≡ (not (k == j) && bit_test w j)) × (clear_bit w k < 256)
bit_test-clear_bit w k j hw hk hj =
    let (bits, small) = split_and _ _ entry in (same-eq _ _ bits, ground arith)
  where
    entry : clear_entry w k j ≡ true
    entry = bit_table_sound clear_entry w k j clear_table hw hk hj

check_to-all :
    (n : ℕ) (test : ℕ → Bool) → ((j : ℕ) → j < n → test j ≡ true) → check_to n test ≡ true
unfolding check_to
check_to-all zero test h = refl
check_to-all (suc n) test h =
    ground (arith, h n (omega arith), check_to-all n test (λ j lt. h j (omega arith)))

-- A byte is 0xff when all its bits are set.
pub full_byte : (w : ℕ) → w < 256 → ((j : ℕ) → j < 8 → bit_test w j ≡ true) → w ≡ 255
full_byte w hw all =
    let agree : same (w == 255) (check_to 8 (bit_test w)) ≡ true =
      check_to-holds 256 full_entry w full_table hw in
    ground
      (arith, same-eq (w == 255) (check_to 8 (bit_test w)) agree, check_to-all 8 (bit_test w) all)

-- All bits of 0xff are set, and none of 0.
pub bit_test-full : (j : ℕ) → j < 8 → bit_test 255 j ≡ true
unfolding check_to bit_test
bit_test-full j h = check_to-holds 8 (bit_test 255) j refl h

pub bit_test-zero : (j : ℕ) → j < 8 → bit_test 0 j ≡ false
unfolding check_to bit_test
bit_test-zero j h = ground (arith, check_to-holds 8 (λ i. not (bit_test 0 i)) j refl h)
