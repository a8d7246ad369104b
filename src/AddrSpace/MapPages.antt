-- ===== src/AddrSpace/MapPages.antt =====
-- The loops of `as_prepare_load` of kern/arch/mips/vm/dumbvm.c: the frames that they put into a page
-- table.
use toy_os.Common.{
  ℕ, zero, suc, ◌+◌, ◌*◌, ◌≤◌, ◌<◌, ◌≡◌, ◌≢◌, refl, sym, subst, ap, ◌∙◌, inl, inr, true, false,
  ◌&&◌, arith, ltb, leb, ◌==◌, ==_ne, update, update_self, update_ne, ℕ_discrete,
}
use toy_os.Coremap.{page_size, kseg0, Frames, getppages}
use toy_os.Coremap.Blocks.{IsValid, frame_addr, IsBlock}
use toy_os.Coremap.Kpages.{Keeps, Keeps-refl, Keeps-trans, getppages-Keeps}
use toy_os.Coremap.Granted.{IsFull}
use toy_os.Coremap.NewFrame.{NewFrame, getppages-NewFrame}
use toy_os.AddrSpace.{Vm, enomem, entry_addr, zero_page, map_pages}

-- The kernel address `a` is not in a frame that is free.
pub record IsInUse (s : Frames) (a : ℕ) : Type 0 where
  pub outside :
      (f : ℕ)
      → (s.coremap f).used ≡ 0
      → frame_addr s f + kseg0 ≤ a
      → frame_addr s f + kseg0 + page_size ≤ a

-- Entry `j` of the page table names frame `f`, which was free in `s`, is a block of its own and
-- holds zeros.
pub record NamesFrame (s t : Vm) (table j f : ℕ) : Type 0 where
  pub entry : t.mem (entry_addr table j) ≡ frame_addr s.frames f
  pub above_own : s.frames.num_of_coremap_pages ≤ f
  pub within : f < s.frames.num_of_pages
  pub was_free : (s.frames.coremap f).used ≡ 0
  pub block : IsBlock t.frames.coremap f 1
  pub zeros : (k : ℕ) → k < page_size → t.mem (frame_addr s.frames f + kseg0 + k) ≡ 0

-- `rounds` entries of the page table, from `i` on, name new frames, each another; no other memory
-- has changed but in frames that were free.
pub record Fills (s t : Vm) (table i rounds : ℕ) : Type 0 where
  pub keeps : Keeps s.frames t.frames
  pub fewer_free : (f : ℕ) → (t.frames.coremap f).used ≡ 0 → (s.frames.coremap f).used ≡ 0
  pub names : (j : ℕ) → i ≤ j → j < i + rounds → (f : ℕ) × NamesFrame s t table j f
  pub apart :
      (j k : ℕ)
      → i ≤ j
      → j < k
      → k < i + rounds
      → t.mem (entry_addr table j) ≢ t.mem (entry_addr table k)
  pub kept :
      (a : ℕ)
      → IsInUse s.frames a
      → ((j : ℕ) → i ≤ j → j < i + rounds → a ≢ entry_addr table j)
      → t.mem a ≡ s.mem a

-- How the loop ends: ENOMEM where no frame is free, or with all entries filled.
pub data MapsPages (s : Vm) (table i rounds : ℕ) (r : ℕ × Vm) : Type 0 where
  no_frame :
      (t : Vm)
      → r ≡ (enomem, t)
      → IsFull 1 t.frames
      → Keeps s.frames t.frames
      → MapsPages s table i rounds r
  fills : (t : Vm) → r ≡ (0, t) → Fills s t table i rounds → MapsPages s table i rounds r

clash : {P : Type 0} → ◌≡◌ {A = ℕ} 0 1 → P
clash e = absurd (omega arith)

-- One round.
module _ (s : Vm) (table i pa : ℕ) (frames : Frames) (k : Keeps s.frames frames)
    (new : NewFrame s.frames pa frames) (at : IsInUse s.frames (entry_addr table i)) where
  abbrev after : Vm
  after = record { frames = frames; mem = zero_page pa (update s.mem (entry_addr table i) pa) }

  later : (a : ℕ) → IsInUse s.frames a → IsInUse frames a
  later a u = record {
    outside = λ f free lo.
        let base = k.same_base in
        let o = u.outside f (new.fewer_free f free) (omega (arith, base, lo)) in
        omega (arith, base, o);
  }

  after_kept : (a : ℕ) → IsInUse s.frames a → a ≢ entry_addr table i → after.mem a ≡ s.mem a
  after_kept a u other =
      let address = new.address in
      let off : (leb (pa + kseg0) a && ltb a (pa + kseg0 + page_size)) ≡ false =
        ground (arith, u.outside new.frame new.was_free) in
      rw off (update_ne s.mem (entry_addr table i) a pa (λ e. other (sym e)))

  after_entry : after.mem (entry_addr table i) ≡ pa
  after_entry =
      let address = new.address in
      let a = entry_addr table i in
      let off : (leb (pa + kseg0) a && ltb a (pa + kseg0 + page_size)) ≡ false =
        ground (arith, at.outside new.frame new.was_free) in
      rw off (update_self s.mem a pa)

  after_zero : (x : ℕ) → x < page_size → after.mem (frame_addr s.frames new.frame + kseg0 + x) ≡ 0
  after_zero x lt =
      let address = new.address in
      let a = frame_addr s.frames new.frame + kseg0 + x in
      let inside : (leb (pa + kseg0) a && ltb a (pa + kseg0 + page_size)) ≡ true = ground arith in
      rw inside

  module _ (rounds : ℕ) (t : Vm) (rest : Fills after t table (i + 1) rounds)
      (all : (j : ℕ) → i ≤ j → j < i + suc rounds → IsInUse s.frames (entry_addr table j)) where
    kept_after :
        (a : ℕ)
        → IsInUse frames a
        → a ≢ entry_addr table i
        → ((j : ℕ) → i ≤ j → j < i + suc rounds → a ≢ entry_addr table j)
        → t.mem a ≡ after.mem a
    kept_after a u first others = rest.kept a u (λ j lo hi. others j (omega arith) (omega arith))

    entry_kept : t.mem (entry_addr table i) ≡ pa
    entry_kept =
        rest.kept (entry_addr table i) (later (entry_addr table i) at) (λ j lo hi e. omega arith)
        ∙ after_entry

    zero_kept : (x : ℕ) → x < page_size → t.mem (frame_addr s.frames new.frame + kseg0 + x) ≡ 0
    zero_kept x lt =
        let a = frame_addr s.frames new.frame + kseg0 + x in
        let base = k.same_base in
        let used : IsInUse frames a = record {
          outside = λ f free lo. elim (ℕ_discrete f new.frame) [
            | yes same ↦
                absurd (clash (sym free ∙ (ap (λ c. (frames.coremap c).used) same ∙ new.now_used)))
            | no other ↦ omega arith
          ];
        } in
        rest.kept a used (λ j lo hi e.
          (let u = all j (omega arith) (omega arith) in
            let o = u.outside new.frame new.was_free (omega (arith, e)) in omega (arith, e, o, lt)))
        ∙ after_zero x lt

    first-NamesFrame : NamesFrame s t table i new.frame
    first-NamesFrame = record {
      entry = entry_kept ∙ new.address;
      above_own = new.above_own;
      within = new.within;
      was_free = new.was_free;
      block = rest.keeps.blocks new.frame 1 new.block;
      zeros = zero_kept;
    }

    later-NamesFrame : (j f : ℕ) → NamesFrame after t table j f → NamesFrame s t table j f
    later-NamesFrame j f n = record {
      entry = n.entry ∙ ap (λ b. b + f * page_size) k.same_base;
      above_own = (let own = k.same_own in let lo = n.above_own in omega arith);
      within = (let pages = k.same_pages in let hi = n.within in omega arith);
      was_free = new.fewer_free f n.was_free;
      block = n.block;
      zeros =
          λ x lt. ap (λ b. t.mem (b + f * page_size + kseg0 + x)) (sym k.same_base) ∙ n.zeros x lt;
    }

    step-Fills : Fills s t table i (suc rounds)
    step-Fills = record {
      keeps = Keeps-trans k rest.keeps;
      fewer_free = λ f free. new.fewer_free f (rest.fewer_free f free);
      names = λ j lo hi. elim (ℕ_discrete j i) [
        | yes same ↦
            (new.frame, subst (λ c. NamesFrame s t table c new.frame) (sym same) first-NamesFrame)
        | no above ↦
            let (f, n) = rest.names j (omega arith) (omega arith) in (f, later-NamesFrame j f n)
      ];
      apart = λ j c lo lt hi e. elim (ℕ_discrete j i) [
        | no above ↦ rest.apart j c (omega arith) lt (omega arith) e
        | yes same ↦
            let (f, n) = rest.names c (omega arith) (omega arith) in
            let named : t.mem (entry_addr table c) ≡ frame_addr s.frames f =
              (later-NamesFrame c f n).entry in
            let first : t.mem (entry_addr table j) ≡ frame_addr s.frames new.frame =
              ap (λ z. t.mem (entry_addr table z)) same ∙ (entry_kept ∙ new.address) in
            let both : frame_addr s.frames new.frame ≡ frame_addr s.frames f =
              sym first ∙ (e ∙ named) in
            let one : f ≡ new.frame = omega arith in
            clash (sym n.was_free ∙ (ap (λ z. (frames.coremap z).used) one ∙ new.now_used))
      ];
      kept = λ a u others.
          kept_after a (later a u) (others i (omega arith) (omega arith)) others
          ∙ after_kept a u (others i (omega arith) (omega arith));
    }

-- A loop of `as_prepare_load` over a page table that is not in free frames ends in ENOMEM where no
-- frame is left, or has put a new frame into each entry: it was free, is a block of its own, is not
-- that of another entry, and holds zeros. Memory in use, but for the entries, is what it was, and so
-- are the blocks of frames of before.
pub map_pages-MapsPages :
    (rounds i table : ℕ) (s : Vm)
    → IsValid s.frames
    → ((j : ℕ) → i ≤ j → j < i + rounds → IsInUse s.frames (entry_addr table j))
    → MapsPages s table i rounds (map_pages rounds i table s)
unfolding map_pages
map_pages-MapsPages zero i table s v all = fills s refl (record {
  keeps = Keeps-refl s.frames v;
  fewer_free = λ f free. free;
  names = λ j lo hi. absurd (omega arith);
  apart = λ j c lo lt hi. absurd (omega arith);
  kept = λ a u others. refl;
})
map_pages-MapsPages (suc rounds) i table s v all = elim (getppages-NewFrame s.frames v) [
  | inl (e, full) ↦
      no_frame (record { frames = s.frames; mem = update s.mem (entry_addr table i) 0 }) (rw e) full
        (Keeps-refl s.frames v)
  | inr (ne, new) ↦
      let pa = (getppages 1 s.frames).0 in
      let frames = (getppages 1 s.frames).1 in
      let keeps = getppages-Keeps 1 s.frames (omega arith) v in
      let granted : (pa == 0) ≡ false = ==_ne pa 0 ne in
      let at = all i (omega arith) (omega arith) in
      elim (map_pages-MapsPages rounds (i + 1) table (after s table i pa frames keeps new at)
        keeps.valid
        (λ j lo hi.
          later s table i pa frames keeps new at (entry_addr table j)
            (all j (omega arith) (omega arith)))) [
              | no_frame t e full more ↦ no_frame t (rw granted e) full (Keeps-trans keeps more)
              | fills t e rest ↦
                  fills t (rw granted e)
                    (step-Fills s table i pa frames keeps new at rounds t rest all)
            ]
]
