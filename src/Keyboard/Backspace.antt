-- ===== src/Keyboard/Backspace.antt =====
-- What the backspace key does to the screen, in `keyboard_get_char` of src/stage0/io/kbd_mouse.c.
pub mod Shown
use lumen_os.Prelude.{
  zero, suc, true, false, ==-true, ==-false, sym, refl, ◌≢◌, ℕ, ◌+◌, ◌-◌, ◌*◌, ◌/◌, ◌%◌, ◌^◌, ◌≤◌,
  ◌<◌, ◌≡◌, ap, ◌∙◌, fun_ext, ◌↔◌, ◌⊎◌, inl, inr, Bool, ◌&&◌, ◌||◌, not, Option, none, some, List,
  [], ◌∷◌, ◌++◌, append-nil, append_assoc, arith, ltb, leb, ◌==◌, if◌then◌else◌, u8, u16, u32,
  ltb-true, ltb-false, ==_iff, Bool-cases, Option-cases, u8-byte, length, get_elem?, length-append,
  codes,
}
use native.Mathlib.Nat.{le_trans, add-zero, mod-eq_of_lt, add_assoc, add_comm, mod-lt}
use lumen_os.Prelude.Bits.{bit_and_mask}
use mathlib.Core.Path.{subst}
use lumen_os.Memory.{Memory}
use lumen_os.Memory.Words.{load16}
use lumen_os.Port.{outb, in8, History, Device}
use lumen_os.Buffer.{tbuffer_get}
use lumen_os.Serial.{com1, serial_write_char}
use lumen_os.Serial.Laws.{GetsReady, serial_write_char-Sends, polls, serial_write_char-polls}
use lumen_os.Vga.{
  vga_width, vga_height, vga_color, vga_white, vga_black, vga_char, Screen, vga_pos, vga_set,
}
use lumen_os.Vga.Place.{IsOnScreen, ShowsCursor, vga_pos-ShowsCursor, Crtc, crtc}
use lumen_os.Vga.Cells.{cell, set_cells}
use lumen_os.Vga.Terminal.{Terminal, Shows}
use lumen_os.Keyboard.{char_here, step_left, seek_text, backspace_row, backspace}
use lumen_os.Keyboard.Ends.{char_here-byte, step_left-col}

-- A cell with the character 0.
abbrev pub is_blank : ℕ → Bool
is_blank w = w % 2 ^ 8 == 0

-- The column behind the last character of a line up to column `c`; the one in column 0 is not
-- looked at.
abbrev pub text_end : (ℕ → ℕ) → ℕ → ℕ
text_end line zero = 0
text_end line (suc c) = if is_blank (line (suc c)) then text_end line c else suc (suc c)

abbrev pub to_left : Terminal → Terminal
to_left t = record t { col = t.col - 1 }

-- Behind the text of the line above, or on its last column if that has a character.
abbrev pub to_above : Terminal → Terminal
to_above t =
    let line = t.cells (t.row - 1) in
    record t { row = t.row - 1; col = if is_blank (line 79) then text_end line 79 else 79 }

-- Where the key goes.
abbrev pub back : Terminal → Terminal
back t = if ltb 0 t.col then to_left t else to_above t

abbrev pub blank_here : Terminal → Terminal
blank_here t = record t {
  cells = λ r c.
      if r == t.row && c == t.col then vga_char 0 (vga_color vga_white vga_black) else t.cells r c;
}

-- The character there is erased.
abbrev pub erase : Terminal → Terminal
erase t = blank_here (back t)

char_here_lem : (s : Screen) → IsOnScreen s → char_here s ≡ cell s.memory s.row s.col % 2 ^ 8
unfolding char_here tbuffer_get
char_here_lem s v =
    bit_and_mask 8 (tbuffer_get s.memory s.buffer s.col s.row)
    ∙ rw v.buffer_is
        (ap (λ i. load16 s.memory (0xB8000 + 2 * i) % 2 ^ 8) (omega (arith, v.row_in, v.col_in)))

step_left-IsOnScreen : (s : Screen) → IsOnScreen s → 0 < s.col → IsOnScreen (step_left s)
unfolding step_left vga_pos
step_left-IsOnScreen s v pos = record {
  row_in = omega (arith, v.row_in);
  col_in = omega (arith, v.col_in);
  buffer_is = v.buffer_is;
}

-- A search ended on the row of `s`, so that the next column is `n`.
pub record FindsEnd (n : ℕ) (s : Screen) (r : Option Screen) : Type 0 where
  pub screen : Screen
  pub result : r ≡ some screen
  pub memory_is : screen.memory ≡ s.memory
  pub buffer_is : screen.buffer ≡ s.buffer
  pub row_is : screen.row ≡ s.row
  pub next_is : u8 (screen.col + 1) ≡ n

pub text_end-blank :
    (line : ℕ → ℕ) (c : ℕ)
    → is_blank (line (suc c)) ≡ true
    → text_end line (suc c) ≡ text_end line c
text_end-blank line c e = ap (λ b. if b then text_end line c else suc (suc c)) e

text_end-letter :
    (line : ℕ → ℕ) (c : ℕ) → is_blank (line (suc c)) ≡ false → text_end line (suc c) ≡ suc (suc c)
text_end-letter line c e = ap (λ b. if b then text_end line c else suc (suc c)) e

pub here_blank :
    (line : ℕ → ℕ) (s : Screen)
    → IsOnScreen s
    → ((c : ℕ) → c < vga_width → cell s.memory s.row c ≡ line c)
    → (char_here s == 0) ≡ is_blank (line s.col)
here_blank line s v same =
    ap (λ w. w == 0) (char_here_lem s v ∙ ap (λ w. w % 2 ^ 8) (same s.col v.col_in))

found_here : (f : ℕ) (s : Screen) → (char_here s == 0) ≡ false → seek_text (suc f) s ≡ some s
unfolding seek_text
found_here f s e = rw (seek_text, e) refl

found_none :
    (f : ℕ) (s : Screen)
    → (char_here s == 0) ≡ true
    → (step_left s).col ≡ 0
    → seek_text (suc f) s ≡ some (step_left (step_left s))
unfolding seek_text
found_none f s e z = rw (seek_text, e, ==-true (step_left s).col 0 z) refl

goes_left :
    (f : ℕ) (s : Screen)
    → (char_here s == 0) ≡ true
    → (step_left s).col ≢ 0
    → seek_text (suc f) s ≡ seek_text f (step_left s)
unfolding seek_text
goes_left f s e nz = rw (seek_text, e, ==-false (step_left s).col 0 nz) refl

step_left-keeps :
    (s : Screen)
    → s.row < 256
    → ((step_left s).memory ≡ s.memory)
      × ((step_left s).buffer ≡ s.buffer)
      × ((step_left s).row ≡ s.row)
      × ((step_left s).col ≡ u8 (s.col + 255))
unfolding step_left vga_pos
step_left-keeps s h = (refl, refl, omega arith, omega arith)

module _ (f : ℕ) (line : ℕ → ℕ) (s : Screen) (v : IsOnScreen s)
    (same : (x : ℕ) → x < vga_width → cell s.memory s.row x ≡ line x) (c : ℕ)
    (at : s.col ≡ suc c) where
  test_here : (char_here s == 0) ≡ is_blank (line (suc c))
  test_here = here_blank line s v same ∙ ap (λ x. is_blank (line x)) at

  letter-FindsEnd :
      is_blank (line (suc c)) ≡ false → FindsEnd (text_end line (suc c)) s (seek_text (suc f) s)
  letter-FindsEnd letter = record {
    screen = s;
    result = found_here f s (test_here ∙ letter);
    memory_is = refl;
    buffer_is = refl;
    row_is = refl;
    next_is = omega (arith, v.col_in, at) ∙ sym (text_end-letter line c letter);
  }

pub seek_text_lem :
    (c fuel : ℕ) (line : ℕ → ℕ) (s : Screen)
    → IsOnScreen s
    → ((x : ℕ) → x < vga_width → cell s.memory s.row x ≡ line x)
    → s.col ≡ suc c
    → c < fuel
    → FindsEnd (text_end line (suc c)) s (seek_text fuel s)
seek_text_lem c zero line s v same at enough = absurd (omega arith)
seek_text_lem zero (suc f) line s v same at enough = elim (Bool-cases (is_blank (line 1))) [
  | inr letter ↦ letter-FindsEnd f line s v same zero at letter
  | inl blank ↦
      let (m1, b1, r1, c1) = step_left-keeps s (omega (arith, v.row_in)) in
      let (m2, b2, r2, c2) = step_left-keeps (step_left s) (omega (arith, v.row_in, r1)) in
      record {
        screen = step_left (step_left s);
        result = found_none f s (test_here f line s v same zero at ∙ blank) (omega (arith, c1, at));
        memory_is = m2 ∙ m1;
        buffer_is = b2 ∙ b1;
        row_is = r2 ∙ r1;
        next_is = omega (arith, c1, c2, at) ∙ sym (text_end-blank line zero blank);
      }
]
seek_text_lem (suc c) (suc f) line s v same at enough =
    elim (Bool-cases (is_blank (line (suc (suc c))))) [
      | inr letter ↦ letter-FindsEnd f line s v same (suc c) at letter
      | inl blank ↦
          let (m1, b1, r1, c1) = step_left-keeps s (omega (arith, v.row_in)) in
          let w : IsOnScreen (step_left s) = step_left-IsOnScreen s v (omega (arith, at)) in
          let r =
            seek_text_lem c f line (step_left s) w
              (λ x lt.
                ap (λ (m : Memory). cell m (step_left s).row x) m1
                ∙ ap (λ (q : ℕ). cell s.memory q x) r1
                ∙ same x lt)
              (omega (arith, c1, at, v.col_in)) (omega (arith, enough)) in
          record {
            screen = r.screen;
            result =
                goes_left f s (test_here f line s v same (suc c) at ∙ blank)
                  (omega (arith, c1, at, v.col_in))
                ∙ r.result;
            memory_is = r.memory_is ∙ m1;
            buffer_is = r.buffer_is ∙ b1;
            row_is = r.row_is ∙ r1;
            next_is = r.next_is ∙ sym (text_end-blank line (suc c) blank);
          }
    ]
