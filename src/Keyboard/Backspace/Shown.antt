-- ===== src/Keyboard/Backspace/Shown.antt =====
-- The backspace key on the terminal that the screen shows.
use lumen_os.Prelude.{
  zero, suc, true, false, sym, refl, ℕ, ◌+◌, ◌-◌, ◌*◌, ◌^◌, ◌≤◌, ◌<◌, ◌≡◌, ap, ◌∙◌, ◌⊎◌, inl, inr,
  Bool, some, ◌∷◌, arith, ltb, ◌==◌, if◌then◌else◌, u8, u16, Bool-cases,
}
use mathlib.Core.Path.{subst}
use lumen_os.Memory.{Memory}
use lumen_os.Port.{outb, in8, History, Device}
use lumen_os.Serial.{com1, serial_write_char}
use lumen_os.Serial.Laws.{GetsReady, serial_write_char-Sends, polls, serial_write_char-polls}
use lumen_os.Vga.{vga_width, vga_height, vga_color, vga_white, vga_black, Screen, vga_pos, vga_set}
use lumen_os.Vga.Place.{vga_pos-ShowsCursor, Crtc, crtc}
use lumen_os.Vga.Cells.{cell, set_cells}
use lumen_os.Vga.Terminal.{Terminal, Shows}
use lumen_os.Keyboard.{seek_text, char_here, backspace_row, backspace}
use lumen_os.Keyboard.Ends.{char_here-byte}
use lumen_os.Keyboard.Backspace.{
  to_left, to_above, is_blank, text_end, blank_here, erase, here_blank, text_end-blank,
  seek_text_lem,
}

-- What the serial line is told does not reach the registers of the cursor.
crtc-polls : (n : ℕ) (h : History) → crtc (polls com1 n h) ≡ crtc h
crtc-polls zero h = refl
crtc-polls (suc n) h = crtc-polls n (in8 (u16 (com1 + 5)) ∷ h)

crtc-serial :
    (fuel : ℕ) (dev : Device) (c : ℕ) (h h' : History)
    → serial_write_char fuel dev c com1 h ≡ some h'
    → crtc h' ≡ crtc h
unfolding outb
crtc-serial fuel dev c h h' e =
    let (n, e') = serial_write_char-polls fuel dev com1 c h h' e in ap crtc e' ∙ crtc-polls n h

-- The cell of the cursor is blanked.
blank-Shows :
    (s : Screen) (t : Terminal)
    → Shows s t
    → Shows (vga_set 0 (vga_color vga_white vga_black) s.col s.row s) (blank_here t)
unfolding vga_set
blank-Shows s t v = record {
  on_screen = record {
    row_in = v.on_screen.row_in;
    col_in = v.on_screen.col_in;
    buffer_is = v.on_screen.buffer_is;
  };
  row_is = v.row_is;
  col_is = v.col_is;
  cursor_is = v.cursor_is;
  cell_is = λ r c hr hc.
      set_cells 0 (vga_color vga_white vga_black) r c s v.on_screen hr hc
      ∙ ground (arith, v.row_is, v.col_is, v.cell_is r c hr hc);
}

-- A move of the cursor.
vga_pos-Shows :
    (col row x y : ℕ) (s s' : Screen) (t : Terminal)
    → Shows s t
    → s'.memory ≡ s.memory
    → s'.buffer ≡ s.buffer
    → u8 row ≡ y
    → y < vga_height
    → u8 col ≡ x
    → x < vga_width
    → Shows (vga_pos col row s') (record t { row = y; col = x })
unfolding vga_pos
vga_pos-Shows col row x y s s' t v m b er hr ec hc = record {
  on_screen = record {
    row_in = omega (arith, er);
    col_in = omega (arith, ec);
    buffer_is = b ∙ v.on_screen.buffer_is;
  };
  row_is = er;
  col_is = ec;
  cursor_is = (vga_pos-ShowsCursor col row s').2;
  cell_is = λ r c lr lc. ap (λ (q : Memory). cell q r c) m ∙ v.cell_is r c lr lc;
}

text_end-le : (line : ℕ → ℕ) (c : ℕ) → text_end line c ≤ c + 1
text_end-le line zero = omega arith
text_end-le line (suc c) = ground (arith, text_end-le line c)

-- The screen on which `backspace_row` looks for the text.
abbrev above : Screen → Screen
above s = vga_pos (vga_width - 1) (s.row + 2 ^ 8 - 1) s

abbrev told : Screen → History → Screen
told s h = let q : Screen = above s in record q { bus = h }

module _ (fuel : ℕ) (dev : Device) (s : Screen) (h : History)
    (sent : serial_write_char fuel dev (char_here (above s)) com1 (above s).bus ≡ some h) where
  row_letter : (char_here (told s h) == 0) ≡ false → backspace_row fuel dev s ≡ some (told s h)
  unfolding backspace_row
  row_letter e = rw (backspace_row, sent, e) refl

  row_blank :
      (s3 : Screen)
      → (char_here (told s h) == 0) ≡ true
      → seek_text fuel (told s h) ≡ some s3
      → backspace_row fuel dev s ≡ some (vga_pos (s3.col + 1) s3.row s3)
  unfolding backspace_row
  row_blank s3 e found = rw (backspace_row, sent, e, found) refl

-- The screen after `backspace_row`, and the terminal.
row_Shows :
    (fuel k : ℕ) (dev : Device)
    → GetsReady dev com1 k
    → k ≤ fuel
    → vga_width ≤ fuel
    → (s : Screen) (t : Terminal) → Shows s t
    → 0 < t.row
    → (s' : Screen) × (backspace_row fuel dev s ≡ some s') × Shows s' (to_above t)
row_Shows fuel k dev prompt enough long s t v up =
    let s1 = vga_pos (vga_width - 1) (s.row + 2 ^ 8 - 1) s in
    let t1 : Terminal = record t { row = t.row - 1; col = 79 } in
    let v1 : Shows s1 t1 =
      vga_pos-Shows (vga_width - 1) (s.row + 2 ^ 8 - 1) 79 (t.row - 1) s s t v refl refl
        (omega (arith, up, v.row_is, v.on_screen.row_in))
        (omega (arith, v.row_is, v.on_screen.row_in)) refl (omega arith) in
    let (h, sent, _) =
      serial_write_char-Sends fuel dev com1 k prompt enough (char_here s1) s1.bus
        (char_here-byte s1) in
    let s2 : Screen = record s1 { bus = h } in
    let v2 : Shows s2 t1 = record {
      on_screen = record {
        row_in = v1.on_screen.row_in;
        col_in = v1.on_screen.col_in;
        buffer_is = v1.on_screen.buffer_is;
      };
      row_is = v1.row_is;
      col_is = v1.col_is;
      cursor_is =
          ap (λ (q : Crtc). q.high * 2 ^ 8 + q.low)
            (crtc-serial fuel dev (char_here s1) s1.bus h sent)
          ∙ v1.cursor_is;
      cell_is = v1.cell_is;
    } in
    let line = t.cells (t.row - 1) in
    let same : (x : ℕ) → x < vga_width → cell s2.memory s2.row x ≡ line x =
      λ x lt. v2.cell_is s2.row x v2.on_screen.row_in lt ∙ ap (λ q. t.cells q x) v2.row_is in
    let test : (char_here s2 == 0) ≡ is_blank (line 79) =
      here_blank line s2 v2.on_screen same ∙ ap (λ x. is_blank (line x)) v2.col_is in
    let at : (e : Bool) (s' : Screen)
        → is_blank (line 79) ≡ e
        → Shows s' (record t { row = t.row - 1; col = if e then text_end line 79 else 79 })
        → Shows s' (record t {
          row = t.row - 1;
          col = if is_blank (line 79) then text_end line 79 else 79;
        }) =
      λ e s' q w.
        subst
          (λ b. Shows s' (record t { row = t.row - 1; col = if b then text_end line 79 else 79 }))
          (sym q) w in
    elim (Bool-cases (is_blank (line 79))) [
      | inr letter ↦ (s2, row_letter fuel dev s h sent (test ∙ letter), at false s2 letter v2)
      | inl blank ↦
          let r = seek_text_lem 78 fuel line s2 v2.on_screen same v2.col_is (omega (arith, long)) in
          (
            vga_pos (r.screen.col + 1) r.screen.row r.screen,
            row_blank fuel dev s h sent r.screen (test ∙ blank) r.result,
            at true (vga_pos (r.screen.col + 1) r.screen.row r.screen) blank (
                vga_pos-Shows (r.screen.col + 1) r.screen.row (text_end line 79) (t.row - 1) s2
                  r.screen t1 v2 r.memory_is r.buffer_is
                  (omega (arith, r.row_is, v2.row_is, v2.on_screen.row_in))
                  (omega (arith, v2.row_is, v2.on_screen.row_in)) r.next_is
                  (omega (arith, text_end-blank line 78 blank, text_end-le line 78))),
          )
    ]

erased :
    (s s1 : Screen) (t : Terminal) (v : Shows s t) (b : Bool)
    → ltb 0 s.col ≡ b
    → let s2 = vga_set 0 (vga_color vga_white vga_black) s1.col s1.row s1 in
      Shows s2 (blank_here (if b then to_left t else to_above t)) → Shows s2 (erase t)
erased s s1 t v b e w =
    subst
      (λ q.
        Shows (vga_set 0 (vga_color vga_white vga_black) s1.col s1.row s1)
          (blank_here (if q then to_left t else to_above t)))
      (sym (ap (λ c. ltb 0 c) (sym v.col_is) ∙ e)) w

-- If the screen is a picture of a terminal whose cursor is not in its first cell, with the
-- hardware cursor there, the serial line gets ready in time, and the fuel is at least that time
-- and the length of a row, the backspace key ends, and the screen is then a picture of the
-- terminal with the cursor, also that of the hardware, one column to the left or, from column 0,
-- on the line above, on its last column if there is a character, and otherwise behind the last
-- character of its columns from 1 on, and with no character there and all others as they were.
pub backspace-Shows :
    (fuel k : ℕ) (dev : Device)
    → GetsReady dev com1 k
    → k ≤ fuel
    → vga_width ≤ fuel
    → (s : Screen) (t : Terminal) → Shows s t
    → (0 < t.col) ⊎ (0 < t.row)
    → (s' : Screen) × (backspace fuel dev s ≡ some s') × Shows s' (erase t)
unfolding backspace
backspace-Shows fuel k dev prompt enough long s t v inside = elim (Bool-cases (ltb 0 s.col)) [
  | inl left ↦
      let s1 = vga_pos (s.col - 1) s.row s in
      let t1 : Terminal = record t { row = t.row; col = t.col - 1 } in
      let w : Shows s1 t1 =
        vga_pos-Shows (s.col - 1) s.row (t.col - 1) t.row s s t v refl refl
          (omega (arith, v.row_is, v.on_screen.row_in))
          (omega (arith, v.row_is, v.on_screen.row_in))
          (omega (arith, v.col_is, v.on_screen.col_in))
          (omega (arith, v.col_is, v.on_screen.col_in)) in
      (
        vga_set 0 (vga_color vga_white vga_black) s1.col s1.row s1,
        rw (backspace, left) refl,
        erased s s1 t v true left (blank-Shows s1 t1 w),
      )
  | inr first ↦
      let zero_col : s.col ≡ 0 = ground (arith, first) in
      let (s1, e, w) =
        row_Shows fuel k dev prompt enough long s t v (omega (arith, inside, zero_col, v.col_is)) in
      (
        vga_set 0 (vga_color vga_white vga_black) s1.col s1.row s1,
        rw (backspace, first, e) refl,
        erased s s1 t v false first (blank-Shows s1 (to_above t) w),
      )
]
