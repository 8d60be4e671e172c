-- ===== src/Keyboard/Typed.antt =====
-- The variables of the keyboard driver fit their types.
use lumen_os.Prelude.{
  refl, true, false, ◌&&◌, ltb, ◌-◌, ◌^◌, ◌+◌, ◌≡◌, ℕ, zero, suc, ◌<◌, inl, inr, Option, none, some,
  List, [], ◌∷◌, arith, ◌==◌, if◌then◌else◌, Bool-cases,
}
use lumen_os.Memory.Bytes.{IsBytes}
use mathlib.Core.Option.{some-injective}
use mathlib.Core.Path.{subst}
use lumen_os.Port.{History}
use lumen_os.Vga.{Screen}
use lumen_os.Vga.Typed as Vga
use lumen_os.Vga.Typed.{vga_pos-IsTyped, vga_newline-IsTyped, vga_set-IsTyped}
use lumen_os.Keyboard.{
  com1, serial_write_char, ltb, Option-cases, vga_black, vga_white, vga_width, inb, vga_newline,
  outb, vga_color, vga_pos, vga_set, key_table, Device, keyboard_get_char, backspace_row,
  keyboard_handler, backspace, keyboard_init, Bool, enqueue, keyboard_getc, with_bus, Keyboard,
  assign, char_here, step_left, seek_text,
}

pub record IsTyped (k : Keyboard) : Type 0 where
  pub shift_in : k.shift < 256
  pub keys_in : (i : ℕ) → k.km1 i < 256
  pub ring_in : (i : ℕ) → k.ring i < 256
  pub head_in : k.head < 256
  pub tail_in : k.tail < 256
  pub screen_is : Vga.IsTyped k.screen

abbrev AllBytes : List (ℕ × ℕ) → Type 0
AllBytes [] = Unit {0}
AllBytes ((i, v) ∷ rest) = (v < 256) × AllBytes rest

abbrev all_bytes : List (ℕ × ℕ) → Bool
all_bytes [] = true
all_bytes ((i, v) ∷ rest) = ltb v 256 && all_bytes rest

all_bytes-AllBytes : (xs : List (ℕ × ℕ)) → all_bytes xs ≡ true → AllBytes xs
all_bytes-AllBytes [] e = tt
all_bytes-AllBytes ((i, v) ∷ rest) e =
    (ground (arith, e), all_bytes-AllBytes rest (ground (arith, e)))

assign-byte :
    (xs : List (ℕ × ℕ)) (t : ℕ → ℕ)
    → AllBytes xs
    → ((i : ℕ) → t i < 256)
    → (i : ℕ) → assign xs t i < 256
unfolding assign
assign-byte [] t a b i = b i
assign-byte ((j, v) ∷ rest) t a b i =
    assign-byte rest (λ y. if y == j then v else t y) a.1 (λ y. ground (arith, a.0, b y)) i

-- A result of the backspace key.
abbrev Kept : Option Screen → Type 0
Kept none = Unit {0}
Kept (some s) = Vga.IsTyped s

with_history-IsTyped :
    (h : History) (s : Screen) → Vga.IsTyped s → Vga.IsTyped (record s { bus = h })
with_history-IsTyped h s v = record { bytes = v.bytes; row_in = v.row_in; col_in = v.col_in }

step_left-IsTyped : (s : Screen) → IsBytes s.memory → Vga.IsTyped (step_left s)
unfolding step_left
step_left-IsTyped s b = vga_pos-IsTyped _ _ s b

seek_text-Kept : (fuel : ℕ) (s : Screen) → Vga.IsTyped s → Kept (seek_text fuel s)
unfolding seek_text
seek_text-Kept zero s v = tt
seek_text-Kept (suc f) s v =
    let w = step_left-IsTyped s v.bytes in
    elim (Bool-cases (char_here s == 0)) [
      | inr letter ↦ rw (seek_text, letter) v
      | inl blank ↦ elim (Bool-cases ((step_left s).col == 0)) [
        | inl first ↦ rw (seek_text, blank, first) (step_left-IsTyped (step_left s) w.bytes)
        | inr more ↦ rw (seek_text, blank, more) (seek_text-Kept f (step_left s) w)
      ]
    ]

if-kept : {A : Type 0} (P : A → Type 0) (b : Bool) (x y : A) → P x → P y → P (if b then x else y)
if-kept P true x y p q = p
if-kept P false x y p q = q

backspace_row-Kept :
    (fuel : ℕ) (dev : Device) (s : Screen) → IsBytes s.memory → Kept (backspace_row fuel dev s)
unfolding backspace_row
backspace_row-Kept fuel dev s b =
    let s1 = vga_pos (vga_width - 1) (s.row + 2 ^ 8 - 1) s in
    let v1 : Vga.IsTyped s1 = vga_pos-IsTyped (vga_width - 1) (s.row + 2 ^ 8 - 1) s b in
    elim (Option-cases (serial_write_char fuel dev (char_here s1) com1 s1.bus)) [
      | inl stuck ↦ rw (backspace_row, stuck) tt
      | inr (h, sent) ↦
          let s2 : Screen = record s1 { bus = h } in
          let v2 : Vga.IsTyped s2 = with_history-IsTyped h s1 v1 in
          rw (backspace_row, sent)
            (if-kept Kept (char_here s2 == 0) _ (some s2)
              (found (seek_text fuel s2) (seek_text-Kept fuel s2 v2)) v2)
    ]
  where
    found :
        (r : Option Screen)
        → Kept r
        → Kept (elim r [ none ↦ none | some s3 ↦ some (vga_pos (s3.col + 1) s3.row s3) ])
    found none v = tt
    found (some s3) v = vga_pos-IsTyped (s3.col + 1) s3.row s3 v.bytes

backspace-Kept :
    (fuel : ℕ) (dev : Device) (s : Screen) → Vga.IsTyped s → Kept (backspace fuel dev s)
unfolding backspace
backspace-Kept fuel dev s v =
    blanked (if ltb 0 s.col then some (vga_pos (s.col - 1) s.row s) else backspace_row fuel dev s) (
      if-kept Kept (ltb 0 s.col) _ _ (vga_pos-IsTyped (s.col - 1) s.row s v.bytes)
        (backspace_row-Kept fuel dev s v.bytes))
  where
    blanked :
        (r : Option Screen)
        → Kept r
        → Kept (elim r [
          | none ↦ none
          | some s1 ↦ some (vga_set 0 (vga_color vga_white vga_black) s1.col s1.row s1)
        ])
    blanked none w = tt
    blanked (some s1) w = vga_set-IsTyped 0 (vga_color vga_white vga_black) s1.col s1.row s1 w

-- A result of `keyboard_get_char`.
abbrev pub KeptKey : Option (ℕ × Keyboard) → Type 0
KeptKey none = Unit {0}
KeptKey (some (c, k)) = IsTyped k

pub with_screen-IsTyped :
    (s : Screen) (k : Keyboard) → Vga.IsTyped s → IsTyped k → IsTyped (record k { screen = s })
with_screen-IsTyped s k w v = record {
  shift_in = v.shift_in;
  keys_in = v.keys_in;
  ring_in = v.ring_in;
  head_in = v.head_in;
  tail_in = v.tail_in;
  screen_is = w;
}

with_shift-IsTyped : (n : ℕ) (k : Keyboard) → n < 256 → IsTyped k → IsTyped (record k { shift = n })
with_shift-IsTyped n k lt v = record {
  shift_in = lt;
  keys_in = v.keys_in;
  ring_in = v.ring_in;
  head_in = v.head_in;
  tail_in = v.tail_in;
  screen_is = v.screen_is;
}

pub keyboard_get_char-KeptKey :
    (fuel : ℕ) (dev : Device) (scancode : ℕ) (k : Keyboard)
    → IsTyped k
    → KeptKey (keyboard_get_char fuel dev scancode k)
unfolding keyboard_get_char
keyboard_get_char-KeptKey fuel dev scancode k v =
    pick (scancode == 0x2A) _ _ (with_shift-IsTyped 255 k (omega arith) v) (
      pick (scancode == 0x36) _ _ (with_shift-IsTyped 255 k (omega arith) v) (
        pick (scancode == 0xAA) _ _ (with_shift-IsTyped 0 k (omega arith) v) (
          pick (scancode == 0xB6) _ _ (with_shift-IsTyped 0 k (omega arith) v) (
            pick (scancode == 0x1C) _ _ (on_screen (vga_newline s) (vga_newline-IsTyped s b)) (
              pick (scancode == 0x0E) _ _
                (erased (backspace fuel dev s) (backspace-Kept fuel dev s v.screen_is))
                (pick (scancode == 0x48) _ _ (moves s.col (s.row + 2 ^ 8 - 1)) (
                  pick (scancode == 0x4B) _ _ (moves (s.col + 2 ^ 8 - 1) s.row) (
                    pick (scancode == 0x4D) _ _ (moves (s.col + 1) s.row)
                      (pick (scancode == 0x50) _ _ (moves s.col (s.row + 1)) v)))))))))
  where
    s : Screen
    s = k.screen

    b : IsBytes s.memory
    b = v.screen_is.bytes

    pick :
        (t : Bool) (x y : Option (ℕ × Keyboard))
        → KeptKey x
        → KeptKey y
        → KeptKey (if t then x else y)
    pick t x y p q = if-kept KeptKey t x y p q

    on_screen : (s' : Screen) → Vga.IsTyped s' → IsTyped (record k { screen = s' })
    on_screen s' w = with_screen-IsTyped s' k w v

    moves : (col row : ℕ) → IsTyped (record k { screen = vga_pos col row s })
    moves col row = on_screen (vga_pos col row s) (vga_pos-IsTyped col row s b)

    erased :
        (r : Option Screen)
        → Kept r
        → KeptKey (elim r [ none ↦ none | some s' ↦ some (0, record k { screen = s' }) ])
    erased none w = tt
    erased (some s') w = on_screen s' w

with_bus-IsTyped : (h : History) (k : Keyboard) → IsTyped k → IsTyped (with_bus h k)
unfolding with_bus
with_bus-IsTyped h k v =
    with_screen-IsTyped (record k.screen { bus = h }) k
      (with_history-IsTyped h k.screen v.screen_is) v

enqueue-IsTyped : (c : ℕ) (k : Keyboard) → IsTyped k → IsTyped (enqueue c k)
unfolding enqueue
enqueue-IsTyped c k v = if-kept IsTyped (c == 0) k _ v (
    if-kept IsTyped (_ == k.tail) k _ v (record {
      shift_in = v.shift_in;
      keys_in = v.keys_in;
      ring_in = v.ring_in;
      head_in = omega arith;
      tail_in = v.tail_in;
      screen_is = v.screen_is;
    }))

pub keyboard_handler-IsTyped :
    (fuel : ℕ) (dev : Device) (k k' : Keyboard)
    → IsTyped k
    → keyboard_handler fuel dev k ≡ some k'
    → IsTyped k'
unfolding keyboard_handler
keyboard_handler-IsTyped fuel dev k k' v e =
    finished
      (keyboard_get_char fuel dev (inb dev 0x60 k.screen.bus).0
        (with_bus (inb dev 0x60 k.screen.bus).1 k))
      (keyboard_get_char-KeptKey fuel dev (inb dev 0x60 k.screen.bus).0
        (with_bus (inb dev 0x60 k.screen.bus).1 k)
        (with_bus-IsTyped (inb dev 0x60 k.screen.bus).1 k v))
      e
  where
    finished :
        (r : Option (ℕ × Keyboard))
        → KeptKey r
        → (elim r as (λ t. Option Keyboard) [
          | none ↦ none
          | some (c, k1) ↦ some (with_bus (outb 0x20 0x20 (enqueue c k1).screen.bus) (enqueue c k1))
        ])
          ≡ some k'
        → IsTyped k'
    finished none w e' = cc e'
    finished (some (c, k1)) w e' = subst IsTyped (some-injective _ k' e') (
        with_bus-IsTyped (outb 0x20 0x20 (enqueue c k1).screen.bus) (enqueue c k1)
          (enqueue-IsTyped c k1 w))

pub keyboard_getc-IsTyped :
    (k : Keyboard) → IsTyped k → ((keyboard_getc k).0 < 256) × IsTyped (keyboard_getc k).1
unfolding keyboard_getc
keyboard_getc-IsTyped k v =
    if-kept (λ (r : ℕ × Keyboard). (r.0 < 256) × IsTyped r.1) (k.head == k.tail) (0, k) _
      (omega arith, v)
      (
        v.ring_in k.tail,
        record {
          shift_in = v.shift_in;
          keys_in = v.keys_in;
          ring_in = v.ring_in;
          head_in = v.head_in;
          tail_in = omega arith;
          screen_is = v.screen_is;
        },
      )

pub keyboard_init-IsTyped : (k : Keyboard) → IsTyped k → IsTyped (keyboard_init k)
unfolding keyboard_init
keyboard_init-IsTyped k v = record {
  shift_in = v.shift_in;
  keys_in = assign-byte key_table k.km1 (all_bytes-AllBytes key_table refl) v.keys_in;
  ring_in = v.ring_in;
  head_in = v.head_in;
  tail_in = v.tail_in;
  screen_is = v.screen_is;
}
