-- ===== src/Kernel/Loop.antt =====
-- The last loop of `kmain`.
use lumen_os.Prelude.{ℕ, zero, suc, ◌≡◌, refl, inl, inr, Option, none, some, Option-cases}
use lumen_os.Port.{Device}
use lumen_os.Keyboard.{Keyboard, keyboard_handler, keyboard_getc}
use lumen_os.Keyboard.Ring.{IsBlank, pressed, taken, start, Step-IsBlank, keyboard_getc_silent}
use lumen_os.Kernel.{echo, main_loop}

-- The rounds without the echo.
pub unechoed : ℕ → ℕ → Device → Keyboard → Option Keyboard
unechoed zero fuel dev k = some k
unechoed (suc rounds) fuel dev k = elim (keyboard_handler fuel dev k) [
  | none ↦ none
  | some k1 ↦ unechoed rounds fuel dev (keyboard_getc k1).1
]

-- From a state whose buffer holds zeros, as at boot, the last loop of `kmain` echoes nothing: any
-- number of its rounds is as many rounds of the handler and of `keyboard_getc` alone.
pub main_loop_silent :
    (rounds fuel : ℕ) (dev : Device) (k : Keyboard)
    → IsBlank k
    → main_loop rounds fuel dev k ≡ unechoed rounds fuel dev k
unfolding main_loop echo unechoed
main_loop_silent zero fuel dev k blank = refl
main_loop_silent (suc rounds) fuel dev k blank = elim (Option-cases (keyboard_handler fuel dev k)) [
  | inl e ↦ rw (main_loop, unechoed, e)
  | inr (k1, e) ↦
      let blank1 : IsBlank k1 = Step-IsBlank (pressed fuel dev e) blank in
      rw (main_loop, unechoed, e, (keyboard_getc_silent blank1 start).0)
        (main_loop_silent rounds fuel dev (keyboard_getc k1).1 (Step-IsBlank (taken k1) blank1))
]
