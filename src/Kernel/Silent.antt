-- ===== src/Kernel/Silent.antt =====
-- What `kmain` does with the keys.
use lumen_os.Prelude.{ℕ, ◌≡◌, refl, ap, ◌∙◌, Option, none, some, arith}
use lumen_os.Port.{Device}
use lumen_os.Keyboard.{Keyboard}
use lumen_os.Keyboard.Ring.{IsBlank, SameRing}
use lumen_os.Kernel.{
  Machine, Layout, Boot, panicked, running, with_keyboard, boot, main_loop, kmain,
}
use lumen_os.Kernel.Loop.{unechoed, main_loop_silent}
use lumen_os.Kernel.Shown.{Shown, boot-Shown}

-- `kmain` without the echo.
pub kmain_unechoed : ℕ → ℕ → Device → Layout → ℕ → ℕ → Machine → Option Boot
kmain_unechoed rounds fuel dev at multiboot_magic mb_info m =
    elim (boot fuel dev at multiboot_magic mb_info m) [
      | none ↦ none
      | some (panicked m') ↦ some (panicked m')
      | some (running m') ↦ elim (unechoed rounds fuel dev m'.keyboard) [
        | none ↦ none
        | some k ↦ some (running (with_keyboard k m'))
      ]
    ]

IsBlank-SameRing : (k k' : Keyboard) → SameRing k k' → IsBlank k → IsBlank k'
IsBlank-SameRing k k' r b = record {
  indices = ground (arith, b.indices);
  zeros = λ i. ap (λ (t : ℕ → ℕ). t i) r.ring_is ∙ b.zeros i;
}

-- If the keyboard's buffer holds zeros when the kernel starts, as its static initialisation
-- leaves it, `kmain` never puts a key on the screen: any number of rounds of its last loop does
-- what it does without the echo.
pub kmain_silent :
    (rounds fuel : ℕ) (dev : Device) (at : Layout) (multiboot_magic mb_info : ℕ) (m : Machine)
    → IsBlank m.keyboard
    → kmain rounds fuel dev at multiboot_magic mb_info m
      ≡ kmain_unechoed rounds fuel dev at multiboot_magic mb_info m
unfolding kmain kmain_unechoed
kmain_silent rounds fuel dev at magic mb_info m blank =
    after_boot (boot fuel dev at magic mb_info m) (boot-Shown fuel dev at magic mb_info m)
  where
    after_boot :
        (r : Option Boot)
        → Shown m.keyboard r
        → (elim r as (λ x. Option Boot) [
          | none ↦ none
          | some (panicked m') ↦ some (panicked m')
          | some (running m') ↦ elim (main_loop rounds fuel dev m'.keyboard) [
            | none ↦ none
            | some k ↦ some (running (with_keyboard k m'))
          ]
        ])
          ≡ (elim r as (λ x. Option Boot) [
            | none ↦ none
            | some (panicked m') ↦ some (panicked m')
            | some (running m') ↦ elim (unechoed rounds fuel dev m'.keyboard) [
              | none ↦ none
              | some k ↦ some (running (with_keyboard k m'))
            ]
          ])
    after_boot none v = refl
    after_boot (some (panicked m')) v = refl
    after_boot (some (running m')) v =
        ap
          (λ (r : Option Keyboard). elim r as (λ x. Option Boot) [
            | none ↦ none
            | some k ↦ some (running (with_keyboard k m'))
          ])
          (main_loop_silent rounds fuel dev m'.keyboard
            (IsBlank-SameRing m.keyboard m'.keyboard v.1 blank))
