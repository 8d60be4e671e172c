-- ===== src/Strings/Copy/Bytes.antt =====
-- The copies of src/stdlib/string.c put bytes into memory.
use lumen_os.Prelude.{ℕ, zero, suc, ◌+◌, Bool, true, false, ◌||◌, ltb, leb, ◌==◌, if◌then◌else◌}
use lumen_os.Memory.{Memory, store8}
use lumen_os.Memory.Bytes.{IsBytes, store8-IsBytes}
use lumen_os.Strings.Copy.{copy_up, copy_down, memmove, memcpy}

copy_up-IsBytes : (left i d s : ℕ) (m : Memory) → IsBytes m → IsBytes (copy_up left i d s m)
unfolding copy_up
copy_up-IsBytes zero i d s m b = b
copy_up-IsBytes (suc left) i d s m b =
    copy_up-IsBytes left (i + 1) d s (store8 m (d + i) (m (s + i)))
      (store8-IsBytes m (d + i) (m (s + i)) (b (s + i)) b)

copy_down-IsBytes : (i d s : ℕ) (m : Memory) → IsBytes m → IsBytes (copy_down i d s m)
unfolding copy_down
copy_down-IsBytes zero d s m b = b
copy_down-IsBytes (suc i) d s m b =
    copy_down-IsBytes i d s (store8 m (d + i) (m (s + i)))
      (store8-IsBytes m (d + i) (m (s + i)) (b (s + i)) b)

choice-IsBytes :
    (b : Bool) (p q : ℕ × Memory) → IsBytes p.1 → IsBytes q.1 → IsBytes (if b then p else q).1
choice-IsBytes true p q x y = x
choice-IsBytes false p q x y = y

pub memmove-IsBytes : (m : Memory) (d s size : ℕ) → IsBytes m → IsBytes (memmove m d s size).1
unfolding memmove
memmove-IsBytes m d s size b =
    choice-IsBytes ((d == s) || (size == 0)) (d, m) _ b
      (choice-IsBytes (ltb d s || leb (s + size) d) (d, copy_up size 0 d s m)
        (d, copy_down size d s m) (copy_up-IsBytes size 0 d s m b) (copy_down-IsBytes size d s m b))

pub memcpy-IsBytes : (m : Memory) (d s size : ℕ) → IsBytes m → IsBytes (memcpy m d s size).1
unfolding memcpy
memcpy-IsBytes m d s size b = copy_up-IsBytes size 0 d s m b
