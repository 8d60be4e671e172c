-- ===== src/Disk/Wait.antt =====
-- The waits for the drive, on a drive that gets ready in time.
use lumen_os.Prelude.{
  ℕ, zero, suc, ◌≤◌, ◌<◌, ◌≡◌, refl, ◌∙◌, inl, inr, Bool, true, false, some, List, [], ◌∷◌, ◌++◌,
  arith, ◌==◌, if◌then◌else◌, u8, Bool-cases,
}
use native.Mathlib.Nat.{le_trans}
use lumen_os.Port.{inb, History, Device, out8, in8, out16, in16, outb}
use lumen_os.Disk.{
  inb, poll_until, not_busy, data_ready, ata_wait_bsy, ata_wait_drq, command, start_sector,
  ata_reg_status, ata_reg_data,
}

-- The history after `j` reads of the status.
abbrev pub status_reads : ℕ → History → History
status_reads zero h = h
status_reads (suc j) h = status_reads j (in8 ata_reg_status ∷ h)

-- At one of the next `k` reads of the status that passes the test.
pub record PassesWithin (test : ℕ → Bool) (dev : Device) (k : ℕ) (h : History) : Type 0 where
  pub round : ℕ
  pub in_time : round < k
  pub passes : test (u8 (dev (status_reads round h) ata_reg_status)) ≡ true

-- The drive is never busy for `k` reads on end, and asks for data within `k` reads of a command.
pub record IsPrompt (dev : Device) (k : ℕ) : Type 0 where
  pub idle : (h : History) → PassesWithin not_busy dev k h
  pub asks :
      (cmd lba j : ℕ) (h : History)
      → PassesWithin data_ready dev k (status_reads j (command cmd lba h))

-- The words written to the data port, oldest first.
abbrev pub words_out : History → List ℕ
words_out [] = []
words_out (out16 q v ∷ h) = if q == ata_reg_data then words_out h ++ (v ∷ []) else words_out h
words_out (out8 q v ∷ h) = words_out h
words_out (in8 q ∷ h) = words_out h
words_out (in16 q ∷ h) = words_out h

status_reads-words_out : (j : ℕ) (h : History) → words_out (status_reads j h) ≡ words_out h
status_reads-words_out zero h = refl
status_reads-words_out (suc j) h = status_reads-words_out j (in8 ata_reg_status ∷ h)

-- The words that the drive gave for the reads of the data port, oldest first.
abbrev pub words_in : Device → History → List ℕ
words_in dev [] = []
words_in dev (in16 q ∷ h) =
    if q == ata_reg_data then words_in dev h ++ (dev h q ∷ []) else words_in dev h
words_in dev (out16 q v ∷ h) = words_in dev h
words_in dev (out8 q v ∷ h) = words_in dev h
words_in dev (in8 q ∷ h) = words_in dev h

status_reads-words_in :
    (dev : Device) (j : ℕ) (h : History) → words_in dev (status_reads j h) ≡ words_in dev h
status_reads-words_in dev zero h = refl
status_reads-words_in dev (suc j) h = status_reads-words_in dev j (in8 ata_reg_status ∷ h)

command-words_in :
    (dev : Device) (cmd lba : ℕ) (h : History) → words_in dev (command cmd lba h) ≡ words_in dev h
unfolding command outb
command-words_in dev cmd lba h = refl

module _ (test : ℕ → Bool) (f : ℕ) (dev : Device) (h : History) where
  poll_until-done :
      test (u8 (dev h ata_reg_status)) ≡ true
      → poll_until test (suc f) dev h ≡ some (in8 ata_reg_status ∷ h)
  unfolding poll_until inb
  poll_until-done e = rw (e, poll_until)

  poll_until-again :
      test (u8 (dev h ata_reg_status)) ≡ false
      → poll_until test (suc f) dev h ≡ poll_until test f dev (in8 ata_reg_status ∷ h)
  unfolding poll_until inb
  poll_until-again e = rw (e, poll_until)

poll_until-ends :
    (test : ℕ → Bool) (fuel : ℕ) (dev : Device) (h : History) (round : ℕ)
    → round < fuel
    → test (u8 (dev (status_reads round h) ata_reg_status)) ≡ true
    → (j : ℕ) × (poll_until test fuel dev h ≡ some (status_reads j h))
poll_until-ends test zero dev h round lt e = absurd (omega arith)
poll_until-ends test (suc f) dev h zero lt e = (1, poll_until-done test f dev h e)
poll_until-ends test (suc f) dev h (suc round) lt e =
    elim (Bool-cases (test (u8 (dev h ata_reg_status)))) [
      | inl done ↦ (1, poll_until-done test f dev h done)
      | inr again ↦
          let (j, ends) =
            poll_until-ends test f dev (in8 ata_reg_status ∷ h) round (omega arith) e in
          (suc j, poll_until-again test f dev h again ∙ ends)
    ]

command-words_out : (cmd lba : ℕ) (h : History) → words_out (command cmd lba h) ≡ words_out h
unfolding command outb
command-words_out cmd lba h = refl

start_sector-through :
    (fuel : ℕ) (dev : Device) (cmd lba : ℕ) (h h1 h2 h3 : History)
    → ata_wait_bsy fuel dev h ≡ some h1
    → ata_wait_bsy fuel dev (command cmd lba h1) ≡ some h2
    → ata_wait_drq fuel dev h2 ≡ some h3
    → start_sector fuel dev cmd lba h ≡ some h3
unfolding start_sector
start_sector-through fuel dev cmd lba h h1 h2 h3 e1 e2 e3 = rw (start_sector, e1) (rw e2 e3)

-- On a prompt drive the waits around a command end, and no word has been written to the data port
-- or read from it.
pub start_sector-ends :
    (fuel : ℕ) (dev : Device) (cmd lba k : ℕ) (h : History)
    → IsPrompt dev k
    → k ≤ fuel
    → (h' : History) × (start_sector fuel dev cmd lba h ≡ some h')
      × (words_out h' ≡ words_out h)
      × (words_in dev h' ≡ words_in dev h)
unfolding ata_wait_bsy ata_wait_drq
start_sector-ends fuel dev cmd lba k h prompt enough =
    let r1 : PassesWithin not_busy dev k h = prompt.idle h in
    let (j1, e1) =
      poll_until-ends not_busy fuel dev h r1.round (le_trans r1.in_time enough) r1.passes in
    let h1 : History = command cmd lba (status_reads j1 h) in
    let r2 : PassesWithin not_busy dev k h1 = prompt.idle h1 in
    let (j2, e2) =
      poll_until-ends not_busy fuel dev h1 r2.round (le_trans r2.in_time enough) r2.passes in
    let h2 : History = status_reads j2 h1 in
    let r3 : PassesWithin data_ready dev k h2 = prompt.asks cmd lba j2 (status_reads j1 h) in
    let (j3, e3) =
      poll_until-ends data_ready fuel dev h2 r3.round (le_trans r3.in_time enough) r3.passes in
    (
      status_reads j3 h2,
      start_sector-through fuel dev cmd lba h (status_reads j1 h) h2 (status_reads j3 h2) e1 e2 e3,
      status_reads-words_out j3 h2
          ∙ status_reads-words_out j2 h1
          ∙ command-words_out cmd lba (status_reads j1 h)
          ∙ status_reads-words_out j1 h,
      status_reads-words_in dev j3 h2
          ∙ status_reads-words_in dev j2 h1
          ∙ command-words_in dev cmd lba (status_reads j1 h)
          ∙ status_reads-words_in dev j1 h,
    )
