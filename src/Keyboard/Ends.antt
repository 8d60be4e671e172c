-- ===== src/Keyboard/Ends.antt =====
-- The driver ends for every key.
use lumen_os.Prelude.{
  true, false, ℕ, zero, suc, ◌+◌, ◌-◌, ◌^◌, ◌≤◌, ◌<◌, ◌≡◌, refl, ap, inl, inr, Bool, Option, none,
  some, arith, ltb, ◌==◌, if◌then◌else◌, Bool-cases,
}
use lumen_os.Prelude.Bits.{bit_and_mask}
use lumen_os.Port.{Device, inb, outb}
use lumen_os.Buffer.{tbuffer_get}
use lumen_os.Serial.{com1}
use lumen_os.Serial.Laws.{GetsReady, serial_write_char-Sends}
use lumen_os.Vga.{vga_width, vga_color, vga_white, vga_black, Screen, vga_pos, vga_set}
use lumen_os.Keyboard.{
  Keyboard, char_here, step_left, seek_text, backspace_row, backspace, keyboard_get_char, enqueue,
  with_bus, keyboard_handler,
}

-- A run has a result.
pub record Ends {A : Type 0} (r : Option A) : Type 0 where
  pub value : A
  pub ended : r ≡ some value

pub Ends-some : {A : Type 0} (a : A) → Ends (some a)
Ends-some a = record { value = a; ended = refl }

pub if-Ends : {A : Type 0} (b : Bool) (x y : Option A) → Ends x → Ends y → Ends (if b then x else y)
if-Ends true x y p q = p
if-Ends false x y p q = q

pub then-Ends :
    {A : Type 0} (B : Type 0) (r : Option A) (f : A → B)
    → Ends r
    → Ends (elim r as (λ x. Option B) [ none ↦ none | some a ↦ some (f a) ])
then-Ends {A = A} B r f v = record {
  value = f v.value;
  ended =
      ap (λ (x : Option A). elim x as (λ y. Option B) [ none ↦ none | some a ↦ some (f a) ])
        v.ended;
}

pub step_left-col : (s : Screen) → 0 < s.col → s.col < 256 → (step_left s).col ≡ s.col - 1
unfolding step_left vga_pos
step_left-col s pos small = omega arith

pub char_here-byte : (s : Screen) → char_here s < 256
unfolding char_here
char_here-byte s = rw (bit_and_mask 8 (tbuffer_get s.memory s.buffer s.col s.row)) (omega arith)

-- The search for the end of the text takes at most as many rounds as the column says.
seek_text-Ends :
    (fuel : ℕ) (s : Screen) → 0 < s.col → s.col < 256 → s.col ≤ fuel → Ends (seek_text fuel s)
unfolding seek_text
seek_text-Ends zero s pos small enough = absurd (omega arith)
seek_text-Ends (suc f) s pos small enough =
    let left = step_left-col s pos small in
    elim (Bool-cases (char_here s == 0)) [
      | inr letter ↦ rw (seek_text, letter) (Ends-some s)
      | inl blank ↦ elim (Bool-cases ((step_left s).col == 0)) [
        | inl first ↦ rw (seek_text, blank, first) (Ends-some (step_left (step_left s)))
        | inr more ↦
            rw (seek_text, blank, more)
              (seek_text-Ends f (step_left s) (ground (arith, more)) (omega (arith, left))
                (omega (arith, left)))
      ]
    ]

module _ (fuel k : ℕ) (dev : Device) (prompt : GetsReady dev com1 k) (enough : k ≤ fuel)
    (long : vga_width ≤ fuel) where
  backspace_row-Ends : (s : Screen) → Ends (backspace_row fuel dev s)
  unfolding backspace_row vga_pos
  backspace_row-Ends s =
      let s1 = vga_pos (vga_width - 1) (s.row + 2 ^ 8 - 1) s in
      let (h, sent, _) =
        serial_write_char-Sends fuel dev com1 k prompt enough (char_here s1) s1.bus
          (char_here-byte s1) in
      let s2 : Screen = record s1 { bus = h } in
      rw (backspace_row, sent)
        (if-Ends (char_here s2 == 0) _ (some s2)
          (then-Ends _ (seek_text fuel s2) (λ s3. vga_pos (s3.col + 1) s3.row s3)
            (seek_text-Ends fuel s2 (omega arith) (omega arith) (omega (arith, long))))
          (Ends-some s2))

  backspace-Ends : (s : Screen) → Ends (backspace fuel dev s)
  unfolding backspace
  backspace-Ends s =
      then-Ends _ _ (λ s1. vga_set 0 (vga_color vga_white vga_black) s1.col s1.row s1)
        (if-Ends (ltb 0 s.col) (some (vga_pos (s.col - 1) s.row s)) (backspace_row fuel dev s)
          (Ends-some (vga_pos (s.col - 1) s.row s)) (backspace_row-Ends s))

  keyboard_get_char-Ends :
      (scancode : ℕ) (k : Keyboard) → Ends (keyboard_get_char fuel dev scancode k)
  unfolding keyboard_get_char
  keyboard_get_char-Ends scancode k =
      let erased =
        then-Ends (ℕ × Keyboard) (backspace fuel dev k.screen) (λ s'. (0, record k { screen = s' }))
          (backspace-Ends k.screen) in
      if-Ends (scancode == 0x2A) _ _ (Ends-some _) (
        if-Ends (scancode == 0x36) _ _ (Ends-some _) (
          if-Ends (scancode == 0xAA) _ _ (Ends-some _) (
            if-Ends (scancode == 0xB6) _ _ (Ends-some _) (
              if-Ends (scancode == 0x1C) _ _ (Ends-some _) (
                if-Ends (scancode == 0x0E) _ _ erased (
                  if-Ends (scancode == 0x48) _ _ (Ends-some _) (
                    if-Ends (scancode == 0x4B) _ _ (Ends-some _) (
                      if-Ends (scancode == 0x4D) _ _ (Ends-some _)
                        (if-Ends (scancode == 0x50) _ _ (Ends-some _) (Ends-some _))))))))))

  -- If the serial line gets ready in time and the fuel is at least that time and the length of a
  -- row, the handler ends for every key and every state.
  pub keyboard_handler-Ends : (k : Keyboard) → Ends (keyboard_handler fuel dev k)
  unfolding keyboard_handler
  keyboard_handler-Ends k =
      let (code, h) = inb dev 0x60 k.screen.bus in
      then-Ends _ (keyboard_get_char fuel dev code (with_bus h k))
        (λ (r : ℕ × Keyboard).
          let (c, k1) = r in with_bus (outb 0x20 0x20 (enqueue c k1).screen.bus) (enqueue c k1))
        (keyboard_get_char-Ends code (with_bus h k))
