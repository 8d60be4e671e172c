-- ===== src/Idt/Dispatch.antt =====
-- The two interrupt controllers after the set-up, and what the dispatcher acknowledges.
use lumen_os.Prelude.{
  inl, inr, Option-cases, ℕ, ◌/◌, ◌%◌, ◌≤◌, ◌<◌, ◌≡◌, refl, ◌≢◌, ◌⊎◌, some, [], ◌∷◌, arith, leb,
  ◌==◌, if◌then◌else◌,
}
use lumen_os.Port.{History, Device, out8, in8, out16, in16, outb}
use lumen_os.Keyboard.{Keyboard, keyboard_handler, with_bus}
use lumen_os.Keyboard.Ring.{handler_acknowledges}
use lumen_os.Idt.{isr_pic_remap, isr_handler, pic1_command, pic1_data, pic2_command, pic2_data}

-- An 8259 controller: where its initialisation stands, and what it has been told.
pub record Pic : Type 0 where
  pub phase : ℕ
  pub vector : ℕ
  pub cascade : ℕ
  pub mode : ℕ
  pub mask : ℕ

-- A command byte with bit 4 starts the initialisation: then the data port takes the vector, the
-- cascade and the mode, and from then on the mask.
abbrev pub on_byte : ℕ → ℕ → ℕ → ℕ → Pic → Pic
on_byte command dataport port v p =
    if port == command
    then if v / 16 % 2 == 1 then record p { phase = 1 } else p
    else if port == dataport
    then if p.phase == 1
      then record p { phase = 2; vector = v }
      else if p.phase == 2
      then record p { phase = 3; cascade = v }
      else if p.phase == 3
      then record p { phase = 0; mode = v }
      else record p { mask = v }
    else p

-- The controller at a pair of ports after a history.
abbrev pub pic : ℕ → ℕ → Pic → History → Pic
pic command dataport p [] = p
pic command dataport p (out8 port v ∷ h) =
    on_byte command dataport port v (pic command dataport p h)
pic command dataport p (in8 port ∷ h) = pic command dataport p h
pic command dataport p (out16 port v ∷ h) = pic command dataport p h
pic command dataport p (in16 port ∷ h) = pic command dataport p h

-- After `isr_pic_remap`, whatever state the controllers were in, the first serves the vectors
-- from 32 on and lets only line 1, the keyboard, through; the second serves those from 40 on and
-- lets nothing through; each knows its cascade line and is in 8086 mode.
pub isr_pic_remap_lem :
    (p1 p2 : Pic) (h : History)
    → (pic pic1_command pic1_data p1 (isr_pic_remap h)
        ≡ record { phase = 0; vector = 0x20; cascade = 4; mode = 1; mask = 0xFD })
      × (pic pic2_command pic2_data p2 (isr_pic_remap h)
          ≡ record { phase = 0; vector = 0x28; cascade = 2; mode = 1; mask = 0xFF })
unfolding isr_pic_remap
isr_pic_remap_lem p1 p2 h = (refl, refl)

-- What the dispatcher does behind the handler of a line.
abbrev pub acknowledged : ℕ → History → History
acknowledged int_no h =
    if leb 40 int_no then out8 0x20 0x20 ∷ out8 0xA0 0x20 ∷ h else out8 0x20 0x20 ∷ h

-- The dispatcher ignores the processor's exceptions, the system call and unused vectors; for each
-- other line than the keyboard's it only acknowledges the interrupt, to the second controller too
-- from line 8 on.
pub isr_handler_lem :
    (fuel : ℕ) (dev : Device) (int_no : ℕ) (k : Keyboard)
    → ((int_no < 32) ⊎ (47 < int_no) → isr_handler fuel dev int_no k ≡ some k)
      × (32 ≤ int_no
          → int_no ≤ 47
          → int_no ≢ 33
          → isr_handler fuel dev int_no k ≡ some (with_bus (acknowledged int_no k.screen.bus) k))
unfolding isr_handler outb
isr_handler_lem fuel dev int_no k = (λ out. ground arith, λ lo hi ne. ground arith)

-- For the keyboard's line the first controller is told twice that the interrupt is over: the last
-- two accesses of the bus are the same end-of-interrupt byte, from `keyboard_handler` and from
-- the dispatcher.
pub isr_handler_twice :
    (fuel : ℕ) (dev : Device) (k k' : Keyboard)
    → isr_handler fuel dev 33 k ≡ some k'
    → (h : History) × (k'.screen.bus ≡ out8 0x20 0x20 ∷ out8 0x20 0x20 ∷ h)
unfolding isr_handler outb with_bus
isr_handler_twice fuel dev k k' e = elim (Option-cases (keyboard_handler fuel dev k)) [
  | inl stuck ↦ absurd (ground arith)
  | inr (k1, got) ↦ let (h, b) = handler_acknowledges fuel dev k k1 got in (h, ground arith)
]
