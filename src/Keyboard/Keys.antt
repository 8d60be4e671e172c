-- ===== src/Keyboard/Keys.antt =====
-- What a key gives: the shift key, the arrow keys, and the codes of released keys.
use lumen_os.Prelude.{
  ℕ, zero, suc, ◌+◌, ◌-◌, ◌≤◌, ◌<◌, ◌≡◌, refl, ◌∙◌, ◌≢◌, ◌↔◌, ◌⊎◌, some, List, [], ◌∷◌, arith, ◌==◌,
  if◌then◌else◌, get_elem?, codes,
}
use lumen_os.Port.{Device}
use lumen_os.Vga.Place.{IsOnScreen, ShowsCursor}
use lumen_os.Keyboard.{
  Keyboard, key_table, assign, keyboard_init, is_letter, is_number, shifted_digit, apply_shift,
  keyboard_get_char,
}

-- The symbols above the digits 0 to 9.
abbrev pub symbols : List ℕ
symbols = codes ")!@#$%^&*("

symbol_table : (d : ℕ) → d < 10 → some (shifted_digit d) ≡ get_elem? symbols d
unfolding shifted_digit
symbol_table zero h = refl
symbol_table (suc zero) h = refl
symbol_table (suc (suc zero)) h = refl
symbol_table (suc (suc (suc zero))) h = refl
symbol_table (suc (suc (suc (suc zero)))) h = refl
symbol_table (suc (suc (suc (suc (suc zero))))) h = refl
symbol_table (suc (suc (suc (suc (suc (suc zero)))))) h = refl
symbol_table (suc (suc (suc (suc (suc (suc (suc zero))))))) h = refl
symbol_table (suc (suc (suc (suc (suc (suc (suc (suc zero)))))))) h = refl
symbol_table (suc (suc (suc (suc (suc (suc (suc (suc (suc zero))))))))) h = refl
symbol_table (suc (suc (suc (suc (suc (suc (suc (suc (suc (suc d)))))))))) h = absurd (omega arith)

apply_shift_digit :
    (shift c : ℕ)
    → shift ≢ 0
    → b'0' ≤ c
    → c ≤ b'9'
    → some (apply_shift shift c) ≡ get_elem? symbols (c - b'0')
unfolding apply_shift is_letter is_number
apply_shift_digit shift c h lo hi = ground (arith, symbol_table (c - b'0'))

-- Without shift a character stays. With shift a small letter becomes its capital, a digit the
-- symbol above it on a US keyboard, and everything that is no letter and no digit becomes 0.
pub apply_shift_lem :
    (shift c : ℕ)
    → shift ≢ 0
    → (apply_shift 0 c ≡ c)
      × (b'a' ≤ c → c ≤ b'z' → (b'A' + (c - b'a') ≡ apply_shift shift c))
      × (b'0' ≤ c → c ≤ b'9' → some (apply_shift shift c) ≡ get_elem? symbols (c - b'0'))
      × ((c < b'0') ⊎ ((b'9' < c) × (c < b'A')) ⊎ ((b'Z' < c) × (c < b'a')) ⊎ (b'z' < c)
          → apply_shift shift c ≡ 0)
unfolding apply_shift is_letter is_number
apply_shift_lem shift c h =
    (refl, λ lo hi. ground arith, λ lo hi. apply_shift_digit shift c h lo hi, λ other. ground arith)

-- The keys of the table.
abbrev KeysBelow : ℕ → List (ℕ × ℕ) → Type 0
KeysBelow n [] = Unit {0}
KeysBelow n ((i, v) ∷ rest) = (i < n) × KeysBelow n rest

assign_above :
    (n x : ℕ) (table : List (ℕ × ℕ)) (t : ℕ → ℕ)
    → KeysBelow n table
    → n ≤ x
    → assign table t x ≡ t x
unfolding assign
assign_above n x [] t b h = refl
assign_above n x ((i, v) ∷ rest) t b h =
    assign_above n x rest (λ y. if y == i then v else t y) b.1 h ∙ ground arith

-- With the table of `keyboard_init` over zeros, a code above that of the last key, other than
-- those of the two shift keys let go, gives no character and changes nothing: so do all other
-- keys that are let go.
pub release_ignored :
    (fuel : ℕ) (dev : Device) (scancode : ℕ) (k : Keyboard)
    → 0x53 < scancode
    → scancode ≢ 0xAA
    → scancode ≢ 0xB6
    → k.km1 scancode ≡ 0
    → keyboard_get_char fuel dev scancode (keyboard_init k) ≡ some (0, keyboard_init k)
unfolding keyboard_get_char keyboard_init apply_shift is_letter is_number
release_ignored fuel dev scancode k past a b zero_entry =
    ground (arith, assign_above 0x54 scancode key_table k.km1 (omega arith))

-- The key `scancode` gives no character and moves the cursor to a column and a row, with the
-- hardware cursor at the same place; it leaves the characters on the screen, the shift key and the
-- buffer alone, and keeps the cursor on the screen exactly if `Inside` holds.
pub record Moves (fuel : ℕ) (dev : Device) (k : Keyboard) (scancode col row : ℕ) (Inside : Type 0)
    : Type 0 where
  pub after : Keyboard
  pub ends : keyboard_get_char fuel dev scancode k ≡ some (0, after)
  pub col_is : after.screen.col ≡ col
  pub row_is : after.screen.row ≡ row
  pub cursor_is : ShowsCursor after.screen
  pub memory_is : after.screen.memory ≡ k.screen.memory
  pub shift_is : after.shift ≡ k.shift
  pub head_is : after.head ≡ k.head
  pub tail_is : after.tail ≡ k.tail
  pub inside : IsOnScreen after.screen ↔ Inside
