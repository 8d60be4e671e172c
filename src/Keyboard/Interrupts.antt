-- ===== src/Keyboard/Interrupts.antt =====
-- The loop of `kmain` in src/stage0/stage0.c with interrupts between the accesses to the
-- keyboard's buffer in src/stage0/io/kbd_mouse.c: the loop calls `keyboard_handler` with
-- interrupts on, and the same function serves the keyboard's line. An interrupt runs it as a
-- whole, since its gate turns interrupts off.
pub mod Steady
pub mod Lost
use lumen_os.Prelude.{
  ℕ, zero, suc, ◌+◌, ◌-◌, ◌*◌, ◌/◌, ◌%◌, ◌^◌, ◌≤◌, ◌<◌, ◌≡◌, refl, sym, ap, ◌∙◌, fun_ext, ◌≢◌, ◌↔◌,
  ◌⊎◌, inl, inr, Bool, true, false, ◌&&◌, ◌||◌, not, Option, none, some, List, [], ◌∷◌, ◌++◌,
  append-nil, append_assoc, arith, ltb, leb, ◌==◌, if◌then◌else◌, u8, u16, u32, ==-true, ==-false,
  ltb-true, ltb-false, ==_iff, Bool-cases, Option-cases, u8-byte, length, get_elem?, length-append,
  codes,
}
use native.Mathlib.Nat.{le_trans, add-zero, mod-eq_of_lt, add_assoc, add_comm, mod-lt}
use lumen_os.Port.{Device}
use lumen_os.Keyboard.{
  Keyboard, kbd_buffer_size, keyboard_get_char, enqueue, keyboard_handler, keyboard_getc,
}
use lumen_os.Keyboard.Ring.{
  SameRing, IsRing, IsBlank, get_char-SameRing, handler-inv, keyboard_getc_lem, pending,
}

-- `next` in `keyboard_handler`.
abbrev pub next_head : Keyboard → ℕ
next_head k = u8 ((k.head + 1) % kbd_buffer_size)

-- `if (next != kbd_tail) kbd_head = next;`
pub put_head : ℕ → Keyboard → Keyboard
put_head next k = if next == k.tail then k else record k { head = next }

-- Where the loop is: before `keyboard_get_char`, behind it with the character, between the two
-- lines above, before the test of `keyboard_getc`, and behind its `cli`.
pub data Spot : Type 0 where
  idle : Spot
  typed : ℕ → Spot
  advanced : ℕ → Spot
  asked : Spot
  masked : Spot

-- The driver, the spot, how often the handler got a character or an interrupt, how many
-- characters `keyboard_getc` took out, and what it returned last.
pub record Loop : Type 0 where
  pub keyboard : Keyboard
  pub spot : Spot
  pub pressed : ℕ
  pub taken : ℕ
  pub last : ℕ

abbrev pub unmasked : Spot → Bool
unmasked masked = false
unmasked idle = true
unmasked (typed c) = true
unmasked (advanced next) = true
unmasked asked = true

pub data Step : Loop → Loop → Type 0 where
  interrupted :
      (fuel : ℕ) (dev : Device) (r : Loop) (k : Keyboard)
      → unmasked r.spot ≡ true
      → keyboard_handler fuel dev r.keyboard ≡ some k
      → Step r (record r { keyboard = k; pressed = r.pressed + 1 })
  -- Work on the screen, the bus and the shift key.
  elsewhere : (r : Loop) (k : Keyboard) → SameRing r.keyboard k → Step r (record r { keyboard = k })
  gets_char :
      (fuel : ℕ) (dev : Device) (scancode c : ℕ) (r : Loop) (k : Keyboard)
      → r.spot ≡ idle
      → keyboard_get_char fuel dev scancode r.keyboard ≡ some (c, k)
      → Step r (record r { keyboard = k; spot = typed c; pressed = r.pressed + 1 })
  no_char : (r : Loop) → r.spot ≡ typed 0 → Step r (record r { spot = asked })
  computes :
      (c : ℕ) (r : Loop)
      → r.spot ≡ typed c
      → c ≢ 0
      → Step r (record r { spot = advanced (next_head r.keyboard) })
  stores :
      (next : ℕ) (r : Loop)
      → r.spot ≡ advanced next
      → Step r (record r { keyboard = put_head next r.keyboard; spot = asked })
  finds_none :
      (r : Loop)
      → r.spot ≡ asked
      → r.keyboard.head ≡ r.keyboard.tail
      → Step r (record r { spot = idle; last = 0 })
  masks :
      (r : Loop)
      → r.spot ≡ asked
      → r.keyboard.head ≢ r.keyboard.tail
      → Step r (record r { spot = masked })
  takes :
      (r : Loop)
      → r.spot ≡ masked
      → Step r (record r {
        keyboard = (keyboard_getc r.keyboard).1;
        spot = idle;
        taken = r.taken + 1;
        last = (keyboard_getc r.keyboard).0;
      })

pub data Reach (r0 : Loop) : Loop → Type 0 where
  start : Reach r0 r0
  later : {r r' : Loop} → Reach r0 r → Step r r' → Reach r0 r'

-- The loop before its first round.
abbrev pub at_start : Keyboard → Loop
at_start k = record { keyboard = k; spot = idle; pressed = 0; taken = 0; last = 0 }

-- How many characters would wait with the head at `next`.
abbrev pub waiting : ℕ → Keyboard → ℕ
waiting next k = (next + kbd_buffer_size - k.tail) % kbd_buffer_size

abbrev pub Fits : Loop → Spot → Type 0
Fits r idle = pending r.keyboard + r.taken ≤ r.pressed
Fits r (typed c) = pending r.keyboard + r.taken + 1 ≤ r.pressed
Fits r (advanced next) =
    (next < kbd_buffer_size)
    × (pending r.keyboard + r.taken ≤ r.pressed)
    × (waiting next r.keyboard + r.taken ≤ r.pressed)
Fits r asked = pending r.keyboard + r.taken ≤ r.pressed
Fits r masked = (pending r.keyboard + r.taken ≤ r.pressed) × (r.keyboard.head ≢ r.keyboard.tail)

pub record IsSteady (r : Loop) : Type 0 where
  pub blank : IsBlank r.keyboard
  pub fits : Fits r r.spot
  pub silent : r.last ≡ 0
