-- ===== src/Keyboard/Ring.antt =====
-- The circular buffer of the keyboard: its indices, and what `keyboard_getc` reads from it.
use lumen_os.Prelude.{◌∷◌, ◌∙◌, ◌==◌, if◌then◌else◌, ◌%◌, ◌-◌, ◌<◌, ◌+◌, ℕ, ◌≡◌, some, arith}
use lumen_os.Port.{out8, outb, Device}
use lumen_os.Keyboard.{
  History, ap, inr, inl, inb, Option-cases, with_bus, kbd_buffer_size, keyboard_getc, enqueue,
  keyboard_handler, Keyboard, keyboard_get_char,
}

-- The part of the driver's state that makes up the circular buffer is the same.
pub record SameRing (k k' : Keyboard) : Type 0 where
  pub ring_is : k'.ring ≡ k.ring
  pub head_is : k'.head ≡ k.head
  pub tail_is : k'.tail ≡ k.tail

pub get_char-SameRing :
    (fuel : ℕ) (dev : Device) (scancode c : ℕ) (k k' : Keyboard)
    → keyboard_get_char fuel dev scancode k ≡ some (c, k')
    → SameRing k k'
unfolding keyboard_get_char
get_char-SameRing fuel dev scancode c k k' e = ground arith

-- The indices are in the buffer.
pub record IsRing (k : Keyboard) : Type 0 where
  pub head_in : k.head < kbd_buffer_size
  pub tail_in : k.tail < kbd_buffer_size

-- How many characters wait between the indices.
abbrev pub pending : Keyboard → ℕ
pending k = (k.head + kbd_buffer_size - k.tail) % kbd_buffer_size

-- A character other than 0 raises the number of waiting characters by one unless 127 wait
-- already, 0 leaves it, and the indices stay in the buffer.
pub enqueue_lem :
    (c : ℕ) (k : Keyboard)
    → IsRing k
    → IsRing (enqueue c k)
      × (pending (enqueue c k)
          ≡ (if c == 0 then pending k else if pending k == 127 then 127 else pending k + 1))
      × ((enqueue c k).ring ≡ k.ring)
unfolding enqueue
enqueue_lem c k v = ground arith

-- `keyboard_getc` returns 0 if nothing waits; otherwise it returns the byte of the buffer at the
-- tail and one character less waits. The indices stay in the buffer, which is not changed.
pub keyboard_getc_lem :
    (k : Keyboard)
    → IsRing k
    → IsRing (keyboard_getc k).1
      × ((keyboard_getc k).0 ≡ (if pending k == 0 then 0 else k.ring k.tail))
      × (pending (keyboard_getc k).1 ≡ pending k - 1)
      × ((keyboard_getc k).1.ring ≡ k.ring)
unfolding keyboard_getc
keyboard_getc_lem k v = ground arith

-- A key press that the driver has finished with, or a call of `keyboard_getc`.
pub data Step : Keyboard → Keyboard → Type 0 where
  pressed :
      {k k' : Keyboard} (fuel : ℕ) (dev : Device)
      → keyboard_handler fuel dev k ≡ some k'
      → Step k k'
  taken : (k : Keyboard) → Step k (keyboard_getc k).1

pub data Reach (k0 : Keyboard) : Keyboard → Type 0 where
  start : Reach k0 k0
  later : {k k' : Keyboard} → Reach k0 k → Step k k' → Reach k0 k'

-- Nothing has been stored: the buffer holds the zeros of its static initialisation.
pub record IsBlank (k : Keyboard) : Type 0 where
  pub indices : IsRing k
  pub zeros : (i : ℕ) → k.ring i ≡ 0

pub handler-inv :
    (fuel : ℕ) (dev : Device) (k k' : Keyboard)
    → keyboard_handler fuel dev k ≡ some k'
    → (c : ℕ) × (k1 : Keyboard) × SameRing k k1 × SameRing (enqueue c k1) k'
unfolding keyboard_handler with_bus
handler-inv fuel dev k k' e =
    elim (Option-cases (
      keyboard_get_char fuel dev (inb dev 0x60 k.screen.bus).0
        (with_bus (inb dev 0x60 k.screen.bus).1 k))) [
          | inl none_left ↦ ground arith
          | inr ((c, k1), got) ↦ (
            c,
            k1,
            ground (
              arith,
              get_char-SameRing fuel dev (inb dev 0x60 k.screen.bus).0 c
                  (with_bus (inb dev 0x60 k.screen.bus).1 k) k1 got,
            ),
            ground arith,
          )
        ]

pub Step-IsBlank : {k k' : Keyboard} → Step k k' → IsBlank k → IsBlank k'
Step-IsBlank (pressed {k} {k'} fuel dev e) v =
    let (c, k1, s, t) = handler-inv fuel dev k k' e in
    let v1 : IsRing k1 = ground arith in
    let q : IsRing (enqueue c k1)
        × (pending (enqueue c k1)
            ≡ (if c == 0 then pending k1 else if pending k1 == 127 then 127 else pending k1 + 1))
        × ((enqueue c k1).ring ≡ k1.ring) =
      enqueue_lem c k1 v1 in
    record {
      indices = ground arith;
      zeros = λ i. ap (λ (r : ℕ → ℕ). r i) (t.ring_is ∙ q.2 ∙ s.ring_is) ∙ v.zeros i;
    }
Step-IsBlank (taken k) v =
    let q : IsRing (keyboard_getc k).1 = (keyboard_getc_lem k v.indices).0 in
    record {
      indices = q;
      zeros = λ i. ap (λ (r : ℕ → ℕ). r i) ((keyboard_getc_lem k v.indices).3) ∙ v.zeros i;
    }

Reach-IsBlank : {k0 k : Keyboard} → IsBlank k0 → Reach k0 k → IsBlank k
Reach-IsBlank v start = v
Reach-IsBlank v (later r st) = Step-IsBlank st (Reach-IsBlank v r)

-- From a state whose buffer holds zeros, as at boot, no sequence of key presses and reads makes
-- `keyboard_getc` return anything but 0, and the indices stay in the buffer.
pub keyboard_getc_silent :
    {k0 k : Keyboard} → IsBlank k0 → Reach k0 k → ((keyboard_getc k).0 ≡ 0) × IsRing k
keyboard_getc_silent {k = k} v r =
    let b : IsBlank k = Reach-IsBlank v r in
    (ground (arith, keyboard_getc_lem k b.indices, b.zeros k.tail), b.indices)

-- `keyboard_handler` ends by telling the first interrupt controller that the interrupt is over.
pub handler_acknowledges :
    (fuel : ℕ) (dev : Device) (k k' : Keyboard)
    → keyboard_handler fuel dev k ≡ some k'
    → (h : History) × (k'.screen.bus ≡ out8 0x20 0x20 ∷ h)
unfolding keyboard_handler with_bus outb
handler_acknowledges fuel dev k k' e =
    elim (Option-cases (
      keyboard_get_char fuel dev (inb dev 0x60 k.screen.bus).0
        (with_bus (inb dev 0x60 k.screen.bus).1 k))) [
          | inl none_left ↦ absurd (ground arith)
          | inr ((c, k1), got) ↦ ((enqueue c k1).screen.bus, ground arith)
        ]
