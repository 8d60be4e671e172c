-- ===== src/Kernel/Typed/Loop.antt =====
-- The last loop of `kmain` keeps the types, and so does `kmain`.
use lumen_os.Prelude.{
  ℕ, zero, suc, ◌≡◌, refl, inl, inr, Bool, true, false, Option, none, some, [], ◌∷◌, ◌==◌,
  Option-cases, codes,
}
use mathlib.Core.Path.{subst}
use lumen_os.Port.{Device}
use lumen_os.Vga.{Screen}
use lumen_os.Keyboard.{Keyboard, keyboard_handler, keyboard_getc}
use lumen_os.Keyboard.Typed as Keyboard
use lumen_os.Stdio.Printf.{printf}
use lumen_os.Stdio.Printf.Typed.{printf-IsTyped}
use lumen_os.Kernel.{
  Machine, Layout, Boot, panicked, running, with_keyboard, boot, char_arg, echo, main_loop, kmain,
}
use lumen_os.Kernel.Typed.{IsTyped, Typed, other_keyboard}
use lumen_os.Kernel.Typed.Start.{IsPlaced, boot-Typed}

-- The driver at the end, if the rounds end.
abbrev Kept : Option Keyboard → Type 0
Kept none = Unit {0}
Kept (some k) = Keyboard.IsTyped k

echo-Kept : (c : ℕ) (k : Keyboard) → Keyboard.IsTyped k → Kept (echo c k)
unfolding echo
echo-Kept c k v = after_test (c == 0)
  where
    after_print :
        (r : Option Screen)
        → printf (codes "%c") (char_arg c ∷ []) k.screen ≡ r
        → Kept (elim r [ none ↦ none | some s ↦ some (record k { screen = s }) ])
    after_print none e = tt
    after_print (some s) e =
        Keyboard.with_screen-IsTyped s k
          (printf-IsTyped (codes "%c") (char_arg c ∷ []) k.screen s refl v.screen_is e) v

    after_test :
        (b : Bool)
        → Kept (elim b [
          | true ↦ some k
          | false ↦ elim (printf (codes "%c") (char_arg c ∷ []) k.screen) [
            | none ↦ none
            | some s ↦ some (record k { screen = s })
          ]
        ])
    after_test true = v
    after_test false = after_print (printf (codes "%c") (char_arg c ∷ []) k.screen) refl

main_loop-Kept :
    (rounds fuel : ℕ) (dev : Device) (k : Keyboard)
    → Keyboard.IsTyped k
    → Kept (main_loop rounds fuel dev k)
unfolding main_loop
main_loop-Kept zero fuel dev k v = v
main_loop-Kept (suc rounds) fuel dev k v = elim (Option-cases (keyboard_handler fuel dev k)) [
  | inl stuck ↦ rw (main_loop, stuck) tt
  | inr (k1, e) ↦
      let v1 = Keyboard.keyboard_handler-IsTyped fuel dev k k1 v e in
      let (c, k2) = keyboard_getc k1 in
      let v2 : Keyboard.IsTyped k2 = (Keyboard.keyboard_getc-IsTyped k1 v1).1 in
      elim (Option-cases (echo c k2)) [
        | inl stuck ↦ rw (main_loop, e, stuck) tt
        | inr (k3, e3) ↦
            let v3 : Keyboard.IsTyped k3 = subst Kept e3 (echo-Kept c k2 v2) in
            rw (main_loop, e, e3) (main_loop-Kept rounds fuel dev k3 v3)
      ]
]

-- If the addresses of the two tables have 32 bits and every variable fits its type at the start,
-- with bytes in memory, then this holds again when `kmain` panics, and after any number of rounds
-- of its last loop, whatever the devices answer, the boot information says and the boot module
-- holds.
pub kmain-Typed :
    (rounds fuel : ℕ) (dev : Device) (at : Layout) (multiboot_magic mb_info : ℕ) (m : Machine)
    → IsPlaced at
    → IsTyped m
    → Typed (kmain rounds fuel dev at multiboot_magic mb_info m)
unfolding kmain
kmain-Typed rounds fuel dev at magic mb_info m placed v =
    after_boot (boot fuel dev at magic mb_info m) (boot-Typed fuel dev at magic mb_info m placed v)
  where
    after_rounds :
        (m' : Machine) (r : Option Keyboard)
        → IsTyped m'
        → Kept r
        → Typed (elim r [ none ↦ none | some k ↦ some (running (with_keyboard k m')) ])
    after_rounds m' none u w = tt
    after_rounds m' (some k) u w = other_keyboard m' k w u

    after_boot :
        (r : Option Boot)
        → Typed r
        → Typed (elim r [
          | none ↦ none
          | some (panicked m') ↦ some (panicked m')
          | some (running m') ↦ elim (main_loop rounds fuel dev m'.keyboard) [
            | none ↦ none
            | some k ↦ some (running (with_keyboard k m'))
          ]
        ])
    after_boot none u = tt
    after_boot (some (panicked m')) u = u
    after_boot (some (running m')) u =
        after_rounds m' (main_loop rounds fuel dev m'.keyboard) u
          (main_loop-Kept rounds fuel dev m'.keyboard u.keyboard_is)
