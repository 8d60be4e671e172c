-- ===== src/Keyboard/Interrupts/Lost.antt =====
-- The keys that an interrupt adds between the two lines of `keyboard_handler` in
-- src/stage0/io/kbd_mouse.c that move the head.
use lumen_os.Prelude.{
  refl, ◌==◌, if◌then◌else◌, if◌then◌else◌, ℕ, ◌+◌, ◌<◌, ◌≡◌, refl, ◌∙◌, ◌≢◌, List, [], ◌∷◌, arith,
  length,
}
use lumen_os.Keyboard.{Keyboard, kbd_buffer_size, enqueue}
use lumen_os.Keyboard.Ring.{IsRing, pending, enqueue_lem}
use lumen_os.Keyboard.Interrupts.{next_head, put_head}

-- Without an interrupt between them the two are the end of the handler.
enqueue-put_head :
    (c : ℕ) (k : Keyboard) → enqueue c k ≡ (if c == 0 then k else put_head (next_head k) k)
unfolding enqueue put_head
enqueue-put_head c k = refl

-- What runs of the handler that got these characters do to the buffer.
pub enqueue_all : List ℕ → Keyboard → Keyboard
enqueue_all [] k = k
enqueue_all (c ∷ cs) k = enqueue_all cs (enqueue c k)

abbrev pub Nonzero : List ℕ → Type 0
Nonzero [] = Unit {0}
Nonzero (c ∷ cs) = (c ≢ 0) × Nonzero cs

enqueue-tail : (c : ℕ) (k : Keyboard) → (enqueue c k).tail ≡ k.tail
unfolding enqueue
enqueue-tail c k = ground arith

enqueue_all-pending :
    (cs : List ℕ) (k : Keyboard)
    → IsRing k
    → Nonzero cs
    → pending k + length cs < kbd_buffer_size
    → IsRing (enqueue_all cs k)
      × ((enqueue_all cs k).tail ≡ k.tail)
      × (pending (enqueue_all cs k) ≡ pending k + length cs)
unfolding enqueue_all
enqueue_all-pending [] k v nz few = (v, refl, omega arith)
enqueue_all-pending (c ∷ cs) k v nz few =
    let (v1, p, _) = enqueue_lem c k v in
    let one : pending (enqueue c k) ≡ pending k + 1 = ground (arith, p, nz.0) in
    let (v2, t, q) = enqueue_all-pending cs (enqueue c k) v1 nz.1 (omega (arith, one)) in
    (v2, t ∙ enqueue-tail c k, omega (arith, one, q))

stored :
    (k k' : Keyboard)
    → IsRing k
    → k'.tail ≡ k.tail
    → pending k + 1 < kbd_buffer_size
    → pending (put_head (next_head k) k') ≡ pending k + 1
unfolding put_head
stored k k' v t few = ground (arith, t, v)

-- With both indices in the buffer and room for the characters: if the handler has computed the new
-- head for its character and interrupts add the characters of a list before it stores that head,
-- then one character more waits than before, so those of the list are lost; had the handler
-- started behind the interrupts, all of them would wait.
pub put_head-loses :
    (c : ℕ) (cs : List ℕ) (k : Keyboard)
    → IsRing k
    → c ≢ 0
    → Nonzero cs
    → pending k + length cs + 1 < kbd_buffer_size
    → (pending (put_head (next_head k) (enqueue_all cs k)) ≡ pending k + 1)
      × (pending (enqueue c (enqueue_all cs k)) ≡ pending k + length cs + 1)
put_head-loses c cs k v ne nz few =
    let (v1, t, p) = enqueue_all-pending cs k v nz (omega arith) in
    let (_, q, _) = enqueue_lem c (enqueue_all cs k) v1 in
    (stored k (enqueue_all cs k) v t (omega (arith, few)), ground (arith, q, p, ne))
