-- ===== src/AddrSpace/Tables.antt =====
-- `pagetable_alloc` of kern/arch/mips/vm/dumbvm.c, and what a loop of `as_prepare_load` leaves of
-- the page tables that are filled before it.
use toy_os.Common.{
  ℕ, ◌+◌, ◌*◌, ◌/◌, ◌^◌, ◌≤◌, ◌<◌, ◌≡◌, ◌≢◌, sym, subst, ap, ◌∙◌, ◌⊎◌, inl, inr, arith, dec_lt,
  ℕ_discrete,
}
use toy_os.Coremap.{page_size, kseg0, u32, round_up, Frames, coremap_dealloc, free_entry}
use toy_os.Coremap.Blocks.{IsValid, frame_addr, IsBlock-used, coremap_dealloc-block}
use toy_os.Coremap.Kpages.{Grants, Keeps, alloc_kpages-Keeps}
use toy_os.Coremap.Granted.{IsFull, alloc_kpages-Grants}
use toy_os.AddrSpace.{Vm, entry_addr, pagetable_alloc}
use toy_os.AddrSpace.MapPages.{IsInUse, NamesFrame, Fills}
use toy_os.Common.{fill, fill_lem}

-- There is no run of free frames for a table of `npages` entries.
pub record NoTable (npages : ℕ) (s : Frames) : Type 0 where
  pub size : ℕ
  pub holds : npages * 4 ≤ size * page_size
  pub fewest : size * page_size < npages * 4 + page_size
  pub full : IsFull size s

-- The table at `table`, in frames that were free.
pub record NewTable (s : Frames) (table npages : ℕ) (t : Frames) : Type 0 where
  pub nonzero : table ≢ 0
  pub keeps : Keeps s t
  pub fewer_free : (f : ℕ) → (t.coremap f).used ≡ 0 → (s.coremap f).used ≡ 0
  pub in_use : (j : ℕ) → j < npages → IsInUse t (entry_addr table j)
  pub was_free :
      (j : ℕ)
      → j < npages
      → (f : ℕ) × ((s.coremap f).used ≡ 0)
        × (frame_addr s f + kseg0 ≤ entry_addr table j)
        × (entry_addr table j < frame_addr s f + kseg0 + page_size)

-- No frame becomes free.
Grants-fewer_free :
    {n pa : ℕ} {s t : Frames}
    → Grants n s pa t
    → Keeps s t
    → (f : ℕ) → (t.coremap f).used ≡ 0
    → (s.coremap f).used ≡ 0
Grants-fewer_free {n} {pa} {s} {t} g k f free =
    let own : g.start + n ≤ t.num_of_pages = omega (arith, k.same_pages, g.within) in
    let at : pa ≡ frame_addr t g.start = omega (arith, k.same_base, g.address) in
    let back : s ≡ record t { coremap = fill n g.start free_entry t.coremap } =
      sym g.restored
      ∙ (ap (λ a. coremap_dealloc a t) at
          ∙ coremap_dealloc-block g.start n t g.valid own g.block) in
    let here : (s.coremap f).used ≡ (fill n g.start free_entry t.coremap f).used =
      ap (λ q. (q.coremap f).used) back in
    here ∙ ground (arith, fill_lem n g.start free_entry t.coremap f, free)

module _ (npages n : ℕ) (s : Frames) (pa : ℕ) (t : Frames) (g : Grants n s pa t) (k : Keeps s t)
    (holds : npages * 4 ≤ n * page_size) where
  table-IsInUse : (j : ℕ) → j < npages → IsInUse t (entry_addr (pa + kseg0) j)
  table-IsInUse j lt =
      let base = k.same_base in
      let at = g.address in
      record {
        outside = λ f free lo. elim (dec_lt f g.start) [
          | yes below ↦ omega arith
          | no up ↦
              let used : (t.coremap f).used ≡ 1 =
                IsBlock-used g.block f (omega arith) (omega arith) in
              absurd (omega (arith, used, free))
        ];
      }

  table-NewTable : NewTable s (pa + kseg0) npages t
  table-NewTable = record {
    nonzero = λ e. omega arith;
    keeps = k;
    fewer_free = Grants-fewer_free g k;
    in_use = table-IsInUse;
    was_free = λ j lt.
        let at = g.address in
        (
          g.start + j * 4 / page_size,
          g.was_free (g.start + j * 4 / page_size) (omega arith) (omega arith),
          omega arith,
          omega arith,
        );
  }

pub pagetable_alloc-NewTable :
    (npages : ℕ) (s : Frames)
    → 0 < npages
    → npages * 4 < 2 ^ 31
    → IsValid s
    → ((pagetable_alloc npages s ≡ (0, s)) × NoTable npages s)
      ⊎ ((table : ℕ) × (t : Frames) × (pagetable_alloc npages s ≡ (table, t))
          × NewTable s table npages t)
unfolding pagetable_alloc
pagetable_alloc-NewTable npages s pos small v =
    let n = round_up (u32 (npages * 4)) page_size / page_size in
    let holds : npages * 4 ≤ n * page_size = omega arith in
    let fewest : n * page_size < npages * 4 + page_size = omega arith in
    let some_pages : 0 < n = omega arith in
    let keeps = alloc_kpages-Keeps n s some_pages v in
    elim (alloc_kpages-Grants n s some_pages v) [
      | inl (e, full) ↦ inl (e, record { size = n; holds = holds; fewest = fewest; full = full })
      | inr (pa, t, e, g) ↦ inr (
        pa + kseg0,
        t,
        e,
        table-NewTable npages n s pa t g (subst (λ (q : ℕ × Frames). Keeps s q.1) e keeps) holds,
      )
    ]

-- Every entry of the table names a new frame that holds zeros, each another.
pub record IsMapped (s t : Vm) (table npages : ℕ) : Type 0 where
  pub names : (j : ℕ) → j < npages → (f : ℕ) × NamesFrame s t table j f
  pub apart :
      (j k : ℕ) → j < k → k < npages → t.mem (entry_addr table j) ≢ t.mem (entry_addr table k)

pub Fills-IsMapped :
    {s t : Vm} {table npages : ℕ} → Fills s t table 0 npages → IsMapped s t table npages
Fills-IsMapped x = record {
  names = λ j lt. x.names j (omega arith) (omega arith);
  apart = λ j k lt hi. x.apart j k (omega arith) lt (omega arith);
}

-- From an earlier state on.
pub IsMapped-Keeps :
    {s t u : Vm} {table npages : ℕ}
    → Keeps s.frames t.frames
    → ((f : ℕ) → (t.frames.coremap f).used ≡ 0 → (s.frames.coremap f).used ≡ 0)
    → IsMapped t u table npages
    → IsMapped s u table npages
IsMapped-Keeps {u = u} k fewer m = record {
  names = λ j lt.
      let (f, n) = m.names j lt in
      (
        f,
        record {
          entry = n.entry ∙ ap (λ b. b + f * page_size) k.same_base;
          above_own = (let own = k.same_own in let lo = n.above_own in omega arith);
          within = (let pages = k.same_pages in let hi = n.within in omega arith);
          was_free = fewer f n.was_free;
          block = n.block;
          zeros = λ x lx.
              ap (λ b. u.mem (b + f * page_size + kseg0 + x)) (sym k.same_base) ∙ n.zeros x lx;
        },
      );
  apart = m.apart;
}

-- A loop over another table leaves this one.
module _ (s t u : Vm) (table table2 npages npages2 : ℕ) (k : Keeps s.frames t.frames)
    (x : Fills t u table2 0 npages2)
    (here : (j : ℕ) → j < npages → IsInUse t.frames (entry_addr table j))
    (there : (j : ℕ) → j < npages2 → IsInUse s.frames (entry_addr table2 j))
    (other : (i j : ℕ) → i < npages → j < npages2 → entry_addr table i ≢ entry_addr table2 j) where
  pub same_entry : (j : ℕ) → j < npages → u.mem (entry_addr table j) ≡ t.mem (entry_addr table j)
  same_entry j lt = x.kept (entry_addr table j) (here j lt) (λ i lo hi. other j i lt (omega arith))

  still_zero :
      (j f : ℕ)
      → NamesFrame s t table j f
      → (y : ℕ) → y < page_size
      → u.mem (frame_addr s.frames f + kseg0 + y) ≡ 0
  still_zero j f n y ly =
      let a = frame_addr s.frames f + kseg0 + y in
      let base = k.same_base in
      let used : IsInUse t.frames a = record {
        outside = λ g free lo. elim (ℕ_discrete g f) [
          | no far ↦ omega arith
          | yes same ↦
              let now : (t.frames.coremap f).used ≡ 1 =
                IsBlock-used n.block f (omega arith) (omega arith) in
              let was : (t.frames.coremap f).used ≡ 0 =
                sym (ap (λ c. (t.frames.coremap c).used) same) ∙ free in
              absurd (omega (arith, now, was))
        ];
      } in
      x.kept a used (λ i lo hi e.
        (let o = (there i (omega arith)).outside f n.was_free (omega (arith, e)) in
          omega (arith, e, o, ly)))
      ∙ n.zeros y ly

  pub IsMapped-Fills : IsMapped s t table npages → IsMapped s u table npages
  IsMapped-Fills m = record {
    names = λ j lt.
        let (f, n) = m.names j lt in
        (
          f,
          record {
            entry = same_entry j lt ∙ n.entry;
            above_own = n.above_own;
            within = n.within;
            was_free = n.was_free;
            block = x.keeps.blocks f 1 n.block;
            zeros = still_zero j f n;
          },
        );
    apart =
        λ i j lt hi e. m.apart i j lt hi (sym (same_entry i (omega arith)) ∙ (e ∙ same_entry j hi));
  }

  -- No entry of the one names a frame that the other does.
  pub IsMapped-apart :
      IsMapped s t table npages
      → (i j : ℕ) → i < npages
      → j < npages2
      → u.mem (entry_addr table i) ≢ u.mem (entry_addr table2 j)
  IsMapped-apart m i j li lj e =
      let (f, n) = m.names i li in
      let (g, new) = x.names j (omega arith) (omega arith) in
      let base = k.same_base in
      let both : frame_addr s.frames f ≡ frame_addr t.frames g =
        sym n.entry ∙ (sym (same_entry i li) ∙ (e ∙ new.entry)) in
      let one : g ≡ f = omega arith in
      let now : (t.frames.coremap f).used ≡ 1 =
        IsBlock-used n.block f (omega arith) (omega arith) in
      let was : (t.frames.coremap f).used ≡ 0 =
        sym (ap (λ c. (t.frames.coremap c).used) one) ∙ new.was_free in
      omega (arith, now, was)
