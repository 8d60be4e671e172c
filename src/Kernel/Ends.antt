-- ===== src/Kernel/Ends.antt =====
-- The last loop of `kmain` is never stuck.
use lumen_os.Prelude.{
  ltb, ℕ, zero, suc, ◌+◌, ◌≤◌, ◌≡◌, refl, ap, ◌∙◌, inl, inr, some, [], ◌∷◌, ◌==◌, if◌then◌else◌, u8,
  Bool-cases, codes,
}
use mathlib.Core.Option.{map}
use lumen_os.Port.{Device}
use lumen_os.Serial.{com1}
use lumen_os.Serial.Laws.{GetsReady}
use lumen_os.Vga.{vga_width}
use lumen_os.Keyboard.{Keyboard, keyboard_getc}
use lumen_os.Keyboard.Ends.{Ends, Ends-some, then-Ends, keyboard_handler-Ends}
use lumen_os.Stdio.Args.{word, next_word}
use lumen_os.Stdio.Text.{format_text, text_from, text_step, directive_text}
use lumen_os.Stdio.Printf.{printf, put_chars}
use lumen_os.Stdio.Printf.Laws.{printf_lem}
use lumen_os.Kernel.{char_arg, echo, main_loop}

-- `%c` has a text for every number.
char_text : (v : ℕ) → format_text (codes "%c") (word v ∷ []) ≡ some (u8 v ∷ [])
unfolding text_from text_step directive_text next_word
char_text v = refl

echo-Ends : (c : ℕ) (k : Keyboard) → Ends (echo c k)
unfolding echo
echo-Ends c k =
    let v = if ltb c 0x80 then c else c + 0xFFFF_FF00 in
    let printed : Ends (printf (codes "%c") (char_arg c ∷ []) k.screen) = record {
      value = put_chars (u8 v ∷ []) k.screen;
      ended =
          printf_lem (codes "%c") (char_arg c ∷ []) k.screen refl
          ∙ ap (map (λ t. put_chars t k.screen)) (char_text v);
    } in
    elim (Bool-cases (c == 0)) [
      | inl nothing ↦ rw (echo, nothing) (Ends-some k)
      | inr letter ↦
          rw (echo, letter)
            (then-Ends Keyboard (printf (codes "%c") (char_arg c ∷ []) k.screen)
              (λ s. record k { screen = s }) printed)
    ]

-- If the serial line gets ready in time and the fuel is at least that time and the length of a
-- row, any number of rounds of the last loop of `kmain` ends, whatever the keyboard sends and
-- whatever the state is.
pub main_loop-Ends :
    (fuel ready : ℕ) (dev : Device)
    → GetsReady dev com1 ready
    → ready ≤ fuel
    → vga_width ≤ fuel
    → (rounds : ℕ) (k : Keyboard) → Ends (main_loop rounds fuel dev k)
unfolding main_loop
main_loop-Ends fuel ready dev prompt enough long zero k = Ends-some k
main_loop-Ends fuel ready dev prompt enough long (suc rounds) k =
    let handled = keyboard_handler-Ends fuel ready dev prompt enough long k in
    let k1 = handled.value in
    let echoed = echo-Ends (keyboard_getc k1).0 (keyboard_getc k1).1 in
    rw (main_loop, handled.ended, echoed.ended)
      (main_loop-Ends fuel ready dev prompt enough long rounds echoed.value)
