-- ===== src/Bitmap/Tests.antt =====
-- Runs of the bitmap's theorems on a byte that is full but for bit 1.
use toy_os.Common.{arith}
use toy_os.Bitmap.{Bitmap, bitmap_alloc}
use toy_os.Bitmap.Laws.{IsValid}
use toy_os.Bitmap.Alloc.{Allocates, bitmap_alloc-Allocates}

abbrev byte : Bitmap
byte = record { nbits = 8; v = λ ix. 0b1111_1101 }

byte-IsValid : IsValid byte
byte-IsValid = record { bytes = λ ix. omega arith; over = λ i lo hi. absurd (omega arith) }

bitmap_alloc-Allocates_example : Allocates byte (bitmap_alloc byte)
bitmap_alloc-Allocates_example = bitmap_alloc-Allocates byte byte-IsValid
