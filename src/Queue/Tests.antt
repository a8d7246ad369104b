-- ===== src/Queue/Tests.antt =====
-- Runs of the queue's theorems on a full ring of three cells, whose pointers wrap round.
use toy_os.Common.{ℕ, ◌+◌, ◌≡◌, ◌⊎◌, true, [], ◌∷◌, done, panic, arith, length}
use toy_os.Queue.{Queue, q_addtail, q_remhead, q_len}
use toy_os.Queue.Ring.{IsValid, contents}
use toy_os.Queue.Fifo.{Adds, q_addtail-Adds, q_remhead-contents, q_len-length}

abbrev ring : Queue ℕ
ring = record { size = 3; nextwrite = 1; nextread = 2; cells = λ i. i + 10 }

ring-IsValid : IsValid ring
ring-IsValid = record { read_in = omega arith; write_in = omega arith }

q_addtail-Adds_example : Adds true 7 ring (q_addtail true (λ i. 0) 7 ring)
q_addtail-Adds_example = q_addtail-Adds true (λ i. 0) 7 ring ring-IsValid (omega arith)

q_remhead-contents_example :
    ((contents ring ≡ []) × (q_remhead ring ≡ panic))
    ⊎ ((x : ℕ) × (t : Queue ℕ) × (q_remhead ring ≡ done (x, t))
        × (contents ring ≡ x ∷ contents t)
        × IsValid t)
q_remhead-contents_example = q_remhead-contents ring ring-IsValid

q_len-length_example : q_len ring ≡ done (length (contents ring))
q_len-length_example = q_len-length ring ring-IsValid
