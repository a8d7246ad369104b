-- ===== src/Common/Store.antt =====
-- A C array, or a table of cells, as a function from indices: a write, and a loop of writes.
use Prim.Native.Nat.{ℕ, zero, suc, ◌+◌}
use mathlib.Core.Path.{◌≡◌}
use mathlib.Core.Logic.{◌≢◌}
use mathlib.Core.Bool.{◌&&◌}
use native.Mathlib.Omega.{arith}
use toy_os.Common.Tests.{ltb, leb, ◌==◌, if◌then◌else◌, ==_self, ==_ne}

module _ {ℓ} {A : Type ℓ} where
  -- `f[i] = a`
  abbrev pub update : (ℕ → A) → ℕ → A → ℕ → A
  update f i a j = if i == j then a else f j

  pub update_self : (f : ℕ → A) (i : ℕ) (a : A) → update f i a i ≡ a
  update_self f i a = rw (==_self i)

  pub update_ne : (f : ℕ → A) (i j : ℕ) (a : A) → i ≢ j → update f i a j ≡ f j
  update_ne f i j a h = rw (==_ne i j h)

  -- `for (j = start; j < start + rounds; j++) f[j] = a;`
  unfoldable pub fill : ℕ → ℕ → A → (ℕ → A) → ℕ → A
  fill zero start a f = f
  fill (suc rounds) start a f = fill rounds (start + 1) a (update f start a)

  pub fill_lem :
      (rounds start : ℕ) (a : A) (f : ℕ → A) (k : ℕ)
      → fill rounds start a f k ≡ (if leb start k && ltb k (start + rounds) then a else f k)
  unfolding fill
  fill_lem zero start a f k = ground arith
  fill_lem (suc rounds) start a f k =
      ground (arith, fill_lem rounds (start + 1) a (update f start a) k)
