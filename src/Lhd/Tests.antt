-- ===== src/Lhd/Tests.antt =====
-- A run of the theorem on lhd: a card of 16 sectors in memory whose writes fail.
use toy_os.Common.{
  ℕ, ◌<◌, ◌≡◌, refl, arith, List, [], ◌∷◌, inl, inr, Bool-cases, ◌==◌, if◌then◌else◌,
}
use Prim.Native.Nat.{bit_and}
use toy_os.Uio.{uio_write}
use toy_os.Sfs.{sfsuio}
use toy_os.Sfs.Disk.{sfsuio-IsBlockUio}
use toy_os.Lhd.{LhdCard, LhdSoftc, lhd_statemask, lhd_ok, lhd_media, lhd_io}
use toy_os.Lhd.Card.{Answers, answers_ok, answers_invsect, answers_media, at_work}
use toy_os.Lhd.Sector.{at_rest, IsCard, Sectors, lhd_io-Sectors}

-- What the sectors hold; the status is 1 for a read.
abbrev worn_card : LhdCard (ℕ → ℕ → ℕ)
worn_card b stat buf h = if stat == 1 then (lhd_ok ∷ [], h b, h) else (lhd_media ∷ [], buf, h)

-- The state at the first interrupt.
abbrev first_state : List ℕ → ℕ
first_state [] = 0
first_state (val ∷ vals) = bit_and val lhd_statemask

first_state-Answers : {vals : List ℕ} {err : ℕ} → Answers vals err → err ≡ 0 → first_state vals < 5
first_state-Answers (answers_ok val e) z = omega (arith, e)
first_state-Answers (answers_invsect val e) z = absurd (omega arith)
first_state-Answers (answers_media val e) z = absurd (omega arith)
first_state-Answers (at_work val vals err (inl e) rest) z = omega (arith, e)
first_state-Answers (at_work val vals err (inr e) rest) z = omega (arith, e)

-- A media error is no success.
no_success : Answers (lhd_media ∷ []) 0 → ⊥
no_success a = let small : 20 < 5 = first_state-Answers a refl in omega arith

worn_card-IsCard : IsCard worn_card 16 (λ h. h)
worn_card-IsCard = record {
  finishes = λ b stat buf h lt. elim (Bool-cases (stat == 1)) [
    | inl e ↦ inl (rw e (answers_ok lhd_ok refl))
    | inr e ↦ inr (rw e (answers_media lhd_media refl))
  ];
  reads = λ b buf h a i. refl;
  read_keeps = λ b buf h c i. refl;
  writes = λ b buf h a i lt. absurd (no_success a);
  write_keeps = λ b buf h c i other. refl;
}

abbrev worn_disk : LhdSoftc (ℕ → ℕ → ℕ)
worn_disk = record {
  lh_card = worn_card;
  lh_hardware = λ b i. 0;
  lh_buf = λ i. 0;
  lh_result = 0;
  lh_clear = 1;
  lh_done = 0;
  d_blocks = 16;
}

lhd_io-Sectors_example :
    Sectors
      (λ h. h)
      5
      (sfsuio 5 uio_write)
      (λ a. a)
      worn_disk
      (lhd_io (sfsuio 5 uio_write) (λ a. a) (at_rest worn_disk))
lhd_io-Sectors_example =
    lhd_io-Sectors 5 (sfsuio 5 uio_write) (λ a. a) worn_disk (sfsuio-IsBlockUio 5 uio_write)
      (omega arith) (omega arith) worn_card-IsCard
