-- ===== src/Uio/Moved.antt =====
-- What `uiomove` of kern/lib/uio.c does to the buffer, the uio and the memory.
use toy_os.Common.{
  ap₂, ℕ, ◌+◌, ◌-◌, ◌^◌, ◌≤◌, ◌<◌, ◌≡◌, ◌≢◌, refl, sym, ap, ◌∙◌, inl, inr, true, false, ◌&&◌, List,
  [], ◌∷◌, arith, Bool-cases, ltb, leb, if◌then◌else◌, dec_lt,
}
use toy_os.Uio.{uio_sysspace, uio_read, uio_write, Iovec, Uio}

-- The address of the `k`-th byte of the regions, and their length.
abbrev pub cell : List Iovec → ℕ → ℕ
cell [] k = 0
cell (v ∷ vs) k =
    let rest = cell vs (k - v.iov_len) in if ltb k v.iov_len then v.iov_base + k else rest

abbrev pub total : List Iovec → ℕ
total [] = 0
total (v ∷ vs) = v.iov_len + total vs

-- The bytes that are left to move are in the regions, each at an address of its own.
pub record IsUio (u : Uio) : Type 0 where
  pub fits : u.uio_resid ≤ total u.uio_iov
  pub small : u.uio_resid < 2 ^ 32
  pub apart :
      (j k : ℕ) → j < u.uio_resid → k < u.uio_resid → cell u.uio_iov j ≡ cell u.uio_iov k → j ≡ k

-- `n` bytes have been moved between the buffer, from `ptr` on, and the regions; no other byte of
-- either has changed.
pub record Moved (ptr n : ℕ) (buf : ℕ → ℕ) (u : Uio) (mem buf' : ℕ → ℕ) (u' : Uio) (mem' : ℕ → ℕ)
    : Type 0 where
  pub same_rw : u'.uio_rw ≡ u.uio_rw
  pub same_seg : u'.uio_segflg ≡ u.uio_segflg
  pub same_space : u'.uio_space ≡ u.uio_space
  pub offset : u'.uio_offset ≡ u.uio_offset + n
  pub resid : u'.uio_resid + n ≡ u.uio_resid
  pub cells : (k : ℕ) → cell u'.uio_iov k ≡ cell u.uio_iov (n + k)
  pub totals : total u'.uio_iov + n ≡ total u.uio_iov
  pub reads_buffer : u.uio_rw ≡ uio_read → (i : ℕ) → buf' i ≡ buf i
  pub reads_memory : u.uio_rw ≡ uio_read → (k : ℕ) → k < n → mem' (cell u.uio_iov k) ≡ buf (ptr + k)
  pub reads_kept :
      u.uio_rw ≡ uio_read → (a : ℕ) → ((k : ℕ) → k < n → cell u.uio_iov k ≢ a) → mem' a ≡ mem a
  pub writes_memory : u.uio_rw ≡ uio_write → (a : ℕ) → mem' a ≡ mem a
  pub writes_buffer :
      u.uio_rw ≡ uio_write
      → (i : ℕ)
      → buf' i ≡ (if leb ptr i && ltb i (ptr + n) then mem (cell u.uio_iov (i - ptr)) else buf i)

-- The copy of the `k`-th byte and some behind it, to or from user space, answers an errno.
pub record CopyFails (u : Uio) (k err : ℕ) : Type 0 where
  pub segment : u.uio_segflg ≢ uio_sysspace
  pub size : ℕ
  pub some_bytes : 0 < size
  pub errno : u.uio_space (cell u.uio_iov k) size ≡ err

pub CopyFails-Moved :
    {ptr n k err : ℕ} {buf mem buf' mem' : ℕ → ℕ} {u u' : Uio}
    → Moved ptr n buf u mem buf' u' mem'
    → CopyFails u' k err
    → CopyFails u (n + k) err
CopyFails-Moved {k = k} m c = record {
  segment = λ e. c.segment (m.same_seg ∙ e);
  size = c.size;
  some_bytes = c.some_bytes;
  errno = ap (λ f. f c.size) (ap₂ (λ g a. g a) (sym m.same_space) (sym (m.cells k))) ∙ c.errno;
}

pub IsUio-Moved :
    {ptr n : ℕ} {buf mem buf' mem' : ℕ → ℕ} {u u' : Uio}
    → IsUio u
    → Moved ptr n buf u mem buf' u' mem'
    → IsUio u'
IsUio-Moved {n = n} i m = record {
  fits = (let f = i.fits in let r = m.resid in let t = m.totals in omega arith);
  small = (let f = i.small in let r = m.resid in omega arith);
  apart = λ j k lj lk e.
      let r = m.resid in
      let same =
        i.apart (n + j) (n + k) (omega arith) (omega arith) (sym (m.cells j) ∙ (e ∙ m.cells k)) in
      omega arith;
}

pub Moved-none :
    (ptr : ℕ) (buf mem : ℕ → ℕ) (u u' : Uio)
    → u'.uio_rw ≡ u.uio_rw
    → u'.uio_segflg ≡ u.uio_segflg
    → u'.uio_space ≡ u.uio_space
    → u'.uio_offset ≡ u.uio_offset
    → u'.uio_resid ≡ u.uio_resid
    → ((k : ℕ) → cell u'.uio_iov k ≡ cell u.uio_iov k)
    → total u'.uio_iov ≡ total u.uio_iov
    → Moved ptr 0 buf u mem buf u' mem
Moved-none ptr buf mem u u' same seg space off res cells totals = record {
  same_rw = same;
  same_seg = seg;
  same_space = space;
  offset = omega (arith, off);
  resid = omega (arith, res);
  cells = λ k. cells k ∙ ap (cell u.uio_iov) (omega arith);
  totals = omega (arith, totals);
  reads_buffer = λ e i. refl;
  reads_memory = λ e k lt. absurd (omega arith);
  reads_kept = λ e a h. refl;
  writes_memory = λ e a. refl;
  writes_buffer = λ e i. ground arith;
}

-- One part after the other.
pub Moved-trans :
    {ptr n m : ℕ} {buf mem buf1 mem1 buf2 mem2 : ℕ → ℕ} {u u1 u2 : Uio}
    → IsUio u
    → n + m ≤ u.uio_resid
    → Moved ptr n buf u mem buf1 u1 mem1
    → Moved (ptr + n) m buf1 u1 mem1 buf2 u2 mem2
    → Moved ptr (n + m) buf u mem buf2 u2 mem2
Moved-trans {ptr} {n} {m} {buf} {mem} {buf1} {mem1} {buf2} {mem2} {u} i enough a b = record {
  same_rw = b.same_rw ∙ a.same_rw;
  same_seg = b.same_seg ∙ a.same_seg;
  same_space = b.same_space ∙ a.same_space;
  offset = (let x = a.offset in let y = b.offset in omega arith);
  resid = (let x = a.resid in let y = b.resid in omega arith);
  cells = λ k. b.cells k ∙ (a.cells (m + k) ∙ ap (cell u.uio_iov) (omega arith));
  totals = (let x = a.totals in let y = b.totals in omega arith);
  reads_buffer = λ e j. b.reads_buffer (a.same_rw ∙ e) j ∙ a.reads_buffer e j;
  reads_memory = λ e k lt. elim (dec_lt k n) [
    | yes lo ↦
        b.reads_kept (a.same_rw ∙ e) (cell u.uio_iov k) (λ j lj z.
          let same = i.apart (n + j) k (omega arith) (omega arith) (sym (a.cells j) ∙ z) in
          omega arith)
        ∙ a.reads_memory e k lo
    | no hi ↦
        let at : cell u.uio_iov k ≡ cell u.uio_iov (n + (k - n)) =
          ap (cell u.uio_iov) (omega arith) in
        ap mem2 (at ∙ sym (a.cells (k - n)))
        ∙ (b.reads_memory (a.same_rw ∙ e) (k - n) (omega arith)
            ∙ (a.reads_buffer e (ptr + n + (k - n)) ∙ ap buf (omega arith)))
  ];
  reads_kept = λ e c h.
      b.reads_kept (a.same_rw ∙ e) c (λ k lk z. h (n + k) (omega arith) (sym (a.cells k) ∙ z))
      ∙ a.reads_kept e c (λ k lk. h k (omega arith));
  writes_memory = λ e c. b.writes_memory (a.same_rw ∙ e) c ∙ a.writes_memory e c;
  writes_buffer = λ e j.
      let first = a.writes_buffer e j in
      let second = b.writes_buffer (a.same_rw ∙ e) j in
      elim (Bool-cases (leb (ptr + n) j && ltb j (ptr + n + m))) [
        | inl late ↦
            let all : (leb ptr j && ltb j (ptr + (n + m))) ≡ true = ground arith in
            let back : cell u.uio_iov (n + (j - (ptr + n))) ≡ cell u.uio_iov (j - ptr) =
              ap (cell u.uio_iov) (let lo : ptr + n ≤ j = ground arith in omega arith) in
            (rw late at second)
            ∙ (a.writes_memory e _ ∙ (ap mem (a.cells (j - (ptr + n)) ∙ back) ∙ rw all))
        | inr early ↦ elim (Bool-cases (leb ptr j && ltb j (ptr + n))) [
          | inl there ↦
              let all : (leb ptr j && ltb j (ptr + (n + m))) ≡ true = ground arith in
              (rw early at second) ∙ ((rw there at first) ∙ rw all)
          | inr before ↦
              let out : (leb ptr j && ltb j (ptr + (n + m))) ≡ false = ground arith in
              (rw early at second) ∙ ((rw before at first) ∙ rw out)
        ]
      ];
}
