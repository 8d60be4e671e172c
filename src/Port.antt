-- ===== src/Port.antt =====
-- src/stage0/io/port.c: the I/O ports of the machine. The devices behind them are not part of the
-- kernel: a `Device` says what a read of a port gives after the accesses so far. The state of the
-- bus is its history, newest access first.
use lumen_os.Prelude.{ℕ, ◌==◌, u8, u16, List, [], ◌∷◌, ◌++◌, if◌then◌else◌}

pub data Access : Type 0 where
  out8 : ℕ → ℕ → Access
  in8 : ℕ → Access
  out16 : ℕ → ℕ → Access
  in16 : ℕ → Access

abbrev pub History : Type 0
History = List Access

abbrev pub Device : Type 0
Device = History → ℕ → ℕ

unfoldable pub outb : ℕ → ℕ → History → History
outb port val h = out8 (u16 port) (u8 val) ∷ h

unfoldable pub inb : Device → ℕ → History → ℕ × History
inb dev port h = (u8 (dev h (u16 port)), in8 (u16 port) ∷ h)

unfoldable pub outw : ℕ → ℕ → History → History
outw port val h = out16 (u16 port) (u16 val) ∷ h

-- The assembly reads a word, but the variable that takes it is an `unsigned char`.
unfoldable pub inw : Device → ℕ → History → ℕ × History
inw dev port h = (u8 (u16 (dev h (u16 port))), in16 (u16 port) ∷ h)

-- The bytes that were written to a port, oldest first.
abbrev pub written : ℕ → History → List ℕ
written p [] = []
written p (out8 q v ∷ h) = if q == p then written p h ++ (v ∷ []) else written p h
written p (in8 q ∷ h) = written p h
written p (out16 q v ∷ h) = written p h
written p (in16 q ∷ h) = written p h
