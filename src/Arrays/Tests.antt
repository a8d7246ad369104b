-- ===== src/Arrays/Tests.antt =====
-- Runs of the array's theorems on a full array of four elements.
use toy_os.Common.{ℕ, ◌+◌, ◌≤◌, ◌<◌, ◌≡◌, true, done, arith}
use toy_os.Arrays.{Array, array_add, array_get, array_remove}
use toy_os.Arrays.Grow.{IsValid, Adds, array_add-Adds, array_remove-array_get}

abbrev four : Array ℕ
four = record { num = 4; max = 4; v = λ i. i + 10 }

four-IsValid : IsValid four
four-IsValid = record { num_le = omega arith }

array_add-Adds_example : Adds true 7 four (array_add true (λ i. 0) 7 four)
array_add-Adds_example = array_add-Adds true (λ i. 0) 7 four four-IsValid (omega arith)

array_remove-array_get_example :
    (t : Array ℕ) × (array_remove four 1 ≡ done t)
    × (t.num + 1 ≡ 4)
    × IsValid t
    × ((k : ℕ) → k < 1 → array_get t k ≡ array_get four k)
    × ((k : ℕ) → 1 ≤ k → k < t.num → array_get t k ≡ array_get four (k + 1))
array_remove-array_get_example = array_remove-array_get four 1 four-IsValid (omega arith)
