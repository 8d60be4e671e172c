-- ===== src/Keyboard/Interrupts/Steady.antt =====
-- What holds of the keyboard's buffer however the interrupts fall.
use lumen_os.Prelude.{ℕ, ◌+◌, ◌≤◌, ◌<◌, ◌≡◌, refl, ap, ◌∙◌, ◌≢◌, true, some, arith}
use mathlib.Core.Path.{subst}
use lumen_os.Port.{Device}
use lumen_os.Keyboard.{Keyboard, kbd_buffer_size, enqueue, keyboard_handler}
use lumen_os.Keyboard.Ring.{
  SameRing, IsRing, IsBlank, get_char-SameRing, handler-inv, keyboard_getc_lem, pending,
  enqueue_lem, pressed, taken, Step-IsBlank,
}
use lumen_os.Keyboard.Interrupts.{
  put_head, Spot, idle, typed, advanced, asked, masked, Loop, unmasked, Step, interrupted,
  elsewhere, gets_char, no_char, computes, stores, finds_none, masks, takes, Reach, start, later,
  at_start, waiting, Fits, IsSteady,
}

enqueue-tail : (c : ℕ) (k : Keyboard) → (enqueue c k).tail ≡ k.tail
unfolding enqueue
enqueue-tail c k = ground arith

-- What a run of the handler does to the indices.
handler-pending :
    (fuel : ℕ) (dev : Device) (k k' : Keyboard)
    → IsBlank k
    → keyboard_handler fuel dev k ≡ some k'
    → (k'.tail ≡ k.tail) × (pending k' ≤ pending k + 1)
handler-pending fuel dev k k' v e =
    let (c, k1, s, t) = handler-inv fuel dev k k' e in
    let v1 : IsRing k1 = ground (arith, s.head_is, s.tail_is, v.indices) in
    let (_, p, _) = enqueue_lem c k1 v1 in
    let q : (enqueue c k1).tail ≡ k1.tail = enqueue-tail c k1 in
    (t.tail_is ∙ q ∙ s.tail_is, ground (arith, t.head_is, t.tail_is, s.head_is, s.tail_is, p))

IsBlank-SameRing : (k k' : Keyboard) → SameRing k k' → IsBlank k → IsBlank k'
IsBlank-SameRing k k' r b = record {
  indices = ground (arith, b.indices);
  zeros = λ i. ap (λ (t : ℕ → ℕ). t i) r.ring_is ∙ b.zeros i;
}

Fits-interrupted :
    (r : Loop) (k : Keyboard) (p : Spot)
    → k.tail ≡ r.keyboard.tail
    → pending k ≤ pending r.keyboard + 1
    → unmasked p ≡ true
    → Fits r p
    → Fits (record r { keyboard = k; pressed = r.pressed + 1 }) p
Fits-interrupted r k idle t h e f = omega (arith, h, f)
Fits-interrupted r k (typed c) t h e f = omega (arith, h, f)
Fits-interrupted r k (advanced next) t h e f = (f.0, omega (arith, h, f.1), omega (arith, t, f.2))
Fits-interrupted r k asked t h e f = omega (arith, h, f)
Fits-interrupted r k masked t h e f = cc e

Fits-elsewhere :
    (r : Loop) (k : Keyboard) (p : Spot)
    → SameRing r.keyboard k
    → Fits r p
    → Fits (record r { keyboard = k }) p
Fits-elsewhere r k idle s f = omega (arith, s.head_is, s.tail_is, f)
Fits-elsewhere r k (typed c) s f = omega (arith, s.head_is, s.tail_is, f)
Fits-elsewhere r k (advanced next) s f =
    (f.0, omega (arith, s.head_is, s.tail_is, f.1), omega (arith, s.tail_is, f.2))
Fits-elsewhere r k asked s f = omega (arith, s.head_is, s.tail_is, f)
Fits-elsewhere r k masked s f =
    (omega (arith, s.head_is, s.tail_is, f.0), λ e. f.1 (omega (arith, e, s.head_is, s.tail_is)))

put_head-ring : (n : ℕ) (k : Keyboard) (i : ℕ) → (put_head n k).ring i ≡ k.ring i
unfolding put_head
put_head-ring n k i = ground arith

put_head-IsBlank : (n : ℕ) (k : Keyboard) → n < kbd_buffer_size → IsBlank k → IsBlank (put_head n k)
unfolding put_head
put_head-IsBlank n k lt b = record {
  indices = ground (arith, b.indices, lt);
  zeros = λ i. put_head-ring n k i ∙ b.zeros i;
}

put_head-pending :
    (n t : ℕ) (k : Keyboard)
    → pending k + t ≤ n
    → (q : ℕ) → waiting q k + t ≤ n
    → pending (put_head q k) + t ≤ n
unfolding put_head
put_head-pending n t k h q w = ground arith

pending-pos : (k : Keyboard) → IsRing k → k.head ≢ k.tail → 0 < pending k
pending-pos k v ne = omega (arith, v.head_in, v.tail_in, ne)

Step-IsSteady : {r r' : Loop} → Step r r' → IsSteady r → IsSteady r'
Step-IsSteady (interrupted fuel dev r k on e) v =
    let (t, h) = handler-pending fuel dev r.keyboard k v.blank e in
    record {
      blank = Step-IsBlank (pressed fuel dev e) v.blank;
      fits = Fits-interrupted r k r.spot t h on v.fits;
      silent = v.silent;
    }
Step-IsSteady (elsewhere r k s) v = record {
  blank = IsBlank-SameRing r.keyboard k s v.blank;
  fits = Fits-elsewhere r k r.spot s v.fits;
  silent = v.silent;
}
Step-IsSteady (gets_char fuel dev scancode c r k at e) v =
    let s = get_char-SameRing fuel dev scancode c r.keyboard k e in
    let f : Fits r idle = subst (λ p. Fits r p) at v.fits in
    record {
      blank = IsBlank-SameRing r.keyboard k s v.blank;
      fits = omega (arith, s.head_is, s.tail_is, f);
      silent = v.silent;
    }
Step-IsSteady (no_char r at) v =
    let f : Fits r (typed 0) = subst (λ p. Fits r p) at v.fits in
    record { blank = v.blank; fits = omega (arith, f); silent = v.silent }
Step-IsSteady (computes c r at ne) v =
    let f : Fits r (typed c) = subst (λ p. Fits r p) at v.fits in
    record {
      blank = v.blank;
      fits = (
        omega arith,
        omega (arith, f),
        omega (arith, f, v.blank.indices.tail_in, v.blank.indices.head_in),
      );
      silent = v.silent;
    }
Step-IsSteady (stores next r at) v =
    let f : Fits r (advanced next) = subst (λ p. Fits r p) at v.fits in
    record {
      blank = put_head-IsBlank next r.keyboard f.0 v.blank;
      fits = put_head-pending r.pressed r.taken r.keyboard f.1 next f.2;
      silent = v.silent;
    }
Step-IsSteady (finds_none r at e) v =
    let f : Fits r asked = subst (λ p. Fits r p) at v.fits in
    record { blank = v.blank; fits = f; silent = refl }
Step-IsSteady (masks r at ne) v =
    let f : Fits r asked = subst (λ p. Fits r p) at v.fits in
    record { blank = v.blank; fits = (f, ne); silent = v.silent }
Step-IsSteady (takes r at) v =
    let f : Fits r masked = subst (λ p. Fits r p) at v.fits in
    let (i, c, p, _) = keyboard_getc_lem r.keyboard v.blank.indices in
    record {
      blank = Step-IsBlank (taken r.keyboard) v.blank;
      fits = omega (arith, p, f.0, pending-pos r.keyboard v.blank.indices f.1);
      silent = ground (arith, c, v.blank.zeros r.keyboard.tail);
    }

Reach-IsSteady : {r0 r : Loop} → IsSteady r0 → Reach r0 r → IsSteady r
Reach-IsSteady v start = v
Reach-IsSteady v (later reach st) = Step-IsSteady st (Reach-IsSteady v reach)

Fits-bound : (r : Loop) (p : Spot) → Fits r p → pending r.keyboard + r.taken ≤ r.pressed
Fits-bound r idle f = f
Fits-bound r (typed c) f = omega (arith, f)
Fits-bound r (advanced next) f = f.1
Fits-bound r asked f = f
Fits-bound r masked f = f.0

-- From a blank buffer, however the keyboard's interrupts fall between the accesses of the loop of
-- `kmain` to the buffer, `keyboard_getc` has only returned 0, the indices stay in the buffer, and
-- the characters that were taken out or wait are at most as many as the runs of the handler and of
-- the loop that looked for one.
pub Reach-steady :
    (k : Keyboard)
    → IsBlank k
    → pending k ≡ 0
    → (r : Loop) → Reach (at_start k) r
    → (r.last ≡ 0) × IsRing r.keyboard × (pending r.keyboard + r.taken ≤ r.pressed)
Reach-steady k b none_waits r reach =
    let v : IsSteady r =
      Reach-IsSteady (record { blank = b; fits = omega (arith, none_waits); silent = refl })
        reach in
    (v.silent, v.blank.indices, Fits-bound r r.spot v.fits)
