-- ===== src/Queue/Ring.antt =====
-- The ring of kern/lib/queue.c as the list of the pointers in it.
use native.Mathlib.Nat.{mod-eq_of_lt, mod-eq-sub-mod}
use toy_os.Common.{
  ℕ, zero, suc, ◌+◌, ◌-◌, ◌%◌, ◌<◌, ◌≡◌, ◌≢◌, refl, ap, ap₂, ◌∙◌, List, [], ◌∷◌, ◌++◌, arith, ltb,
  leb, if◌then◌else◌, update, update_self, update_ne, dec_lt,
}
use toy_os.Queue.{Queue, put, next_index}

-- An index just past the end of a ring wraps round.
pub wrap_once : (a m : ℕ) → a < m + m → a % m ≡ (if ltb a m then a else a - m)
wrap_once a m h = elim (dec_lt a m) [
  | yes below ↦ mod-eq_of_lt below ∙ ground arith
  | no past ↦
      mod-eq-sub-mod {n = a} {m = m} (omega arith)
      ∙ mod-eq_of_lt {n = a - m} {m = m} (omega arith)
      ∙ ground arith
]

pub record IsValid {ℓ} {A : Type ℓ} (q : Queue A) : Type 0 where
  pub read_in : q.nextread < q.size
  pub write_in : q.nextwrite < q.size

-- How many steps round a ring of `m` lead from `i` to `j`.
abbrev pub gap : ℕ → ℕ → ℕ → ℕ
gap m i j = if leb i j then j - i else j + m - i

pub gap-suc : (m i j : ℕ) → i < m → j < m → i ≢ j → gap m i j ≡ suc (gap m ((i + 1) % m) j)
gap-suc m i j hi hj ne = ground (arith, wrap_once (i + 1) m (omega arith))

module _ {ℓ} {A : Type ℓ} where
  -- The `n` pointers from index `h` on.
  unfoldable pub window : (ℕ → A) → ℕ → ℕ → ℕ → List A
  window cells m h zero = []
  window cells m h (suc n) = cells h ∷ window cells m ((h + 1) % m) n

  -- The pointers in a queue, oldest first.
  abbrev pub contents : Queue A → List A
  contents q = window q.cells q.size q.nextread (gap q.size q.nextread q.nextwrite)

  pub window-update :
      (cells : ℕ → A) (m i : ℕ) (x : A) (n h : ℕ)
      → h < m
      → i < m
      → gap m h i ≡ n
      → window (update cells i x) m h (suc n) ≡ window cells m h n ++ x ∷ []
  unfolding window
  window-update cells m i x zero h hh hi e =
      let same : h ≡ i = ground arith in ap (λ a. a ∷ []) (rw same (update_self cells i x))
  window-update cells m i x (suc n) h hh hi e =
      let other : i ≢ h = ground arith in
      let step : gap m ((h + 1) % m) i ≡ n = ground (arith, gap-suc m h i hh hi) in
      ap₂ ◌∷◌ (update_ne cells i h x other)
        (window-update cells m i x n ((h + 1) % m) (omega arith) hi step)

  -- A new pointer at the end.
  pub contents-put :
      (x : A) (q : Queue A)
      → IsValid q
      → next_index q q.nextwrite ≢ q.nextread
      → (contents (put x q) ≡ contents q ++ x ∷ []) × IsValid (put x q)
  contents-put x q v room =
      let more : gap q.size q.nextread (next_index q q.nextwrite)
          ≡ suc (gap q.size q.nextread q.nextwrite) =
        ground (arith, wrap_once (q.nextwrite + 1) q.size (omega arith), v.read_in, v.write_in) in
      (
        ap (window (update q.cells q.nextwrite x) q.size q.nextread) more
            ∙ window-update q.cells q.size q.nextwrite x _ q.nextread v.read_in v.write_in refl,
        record { read_in = v.read_in; write_in = omega (arith, v.write_in) },
      )

  -- The window of a queue that is not empty.
  pub contents-cons :
      (q : Queue A)
      → IsValid q
      → q.nextread ≢ q.nextwrite
      → let rest : Queue A = record q { nextread = next_index q q.nextread } in
        (contents q ≡ q.cells q.nextread ∷ contents rest) × IsValid rest
  unfolding window
  contents-cons q v ne = (
    ap (window q.cells q.size q.nextread)
        (gap-suc q.size q.nextread q.nextwrite v.read_in v.write_in ne),
    record { read_in = omega (arith, v.read_in); write_in = v.write_in },
  )

  pub contents-nil : (q : Queue A) → q.nextread ≡ q.nextwrite → contents q ≡ []
  unfolding window
  contents-nil q e =
      let none_left : gap q.size q.nextread q.nextwrite ≡ 0 = ground arith in
      ap (window q.cells q.size q.nextread) none_left
