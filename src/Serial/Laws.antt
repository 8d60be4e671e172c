-- ===== src/Serial/Laws.antt =====
-- What reaches the line, on a device whose transmitter gets ready in time.
use native.Mathlib.Nat.{le_trans}
use lumen_os.Serial.{◌>>=◌, serial_is_transmit_ready, await_ready, serial_write_char, serial_write}
use Prim.Native.Nat.{bit_and}
use mathlib.Core.Option.{some-injective}
use lumen_os.Prelude.{
  Option-cases, ap, refl, ==-true, ◌∙◌, u8-byte, inr, inl, Bool-cases, sym, ==-false, ℕ, zero, suc,
  ◌+◌, ◌<◌, ◌≤◌, ◌≡◌, ◌≢◌, ◌==◌, List, [], ◌∷◌, ◌++◌, Option, some, true, false, Bool, ltb, ◌&&◌,
  if◌then◌else◌, u8, u16, arith, append_assoc, append-nil,
}
use lumen_os.Port.{History, Device, out8, in8, outb, written}

-- The history after `j` polls of the line status.
abbrev pub polls : ℕ → ℕ → History → History
polls port zero h = h
polls port (suc j) h = polls port j (in8 (u16 (port + 5)) ∷ h)

-- At one of the next `k` polls the transmitter is ready.
pub record ReadyWithin (dev : Device) (port k : ℕ) (h : History) : Type 0 where
  pub round : ℕ
  pub in_time : round < k
  pub ready : bit_and (u8 (dev (polls port round h) (u16 (port + 5)))) 0x20 ≢ 0

-- A run ends, and has written these bytes to the port.
abbrev pub Sends : ℕ → History → List ℕ → Option History → Type 0
Sends port h bytes r = (h' : History) × (r ≡ some h') × (written port h' ≡ written port h ++ bytes)

module _ (f : ℕ) (dev : Device) (port : ℕ) (h : History) where
  await_ready-done :
      (bit_and (u8 (dev h (u16 (port + 5)))) 0x20 == 0) ≡ false
      → await_ready (suc f) dev port h ≡ some (in8 (u16 (port + 5)) ∷ h)
  unfolding await_ready serial_is_transmit_ready
  await_ready-done e = rw (e, await_ready)

  await_ready-again :
      (bit_and (u8 (dev h (u16 (port + 5)))) 0x20 == 0) ≡ true
      → await_ready (suc f) dev port h ≡ await_ready f dev port (in8 (u16 (port + 5)) ∷ h)
  unfolding await_ready serial_is_transmit_ready
  await_ready-again e = rw (e, await_ready)

await_ready-polls :
    (fuel : ℕ) (dev : Device) (port : ℕ) (h h' : History)
    → await_ready fuel dev port h ≡ some h'
    → (n : ℕ) × (h' ≡ polls port n h)
unfolding await_ready serial_is_transmit_ready
await_ready-polls zero dev port h h' e = cc e
await_ready-polls (suc f) dev port h h' e =
    elim (Bool-cases (bit_and (u8 (dev h (u16 (port + 5)))) 0x20 == 0)) [
      | inl busy ↦
          let (n, e') =
            await_ready-polls f dev port (in8 (u16 (port + 5)) ∷ h) h'
              (sym (await_ready-again f dev port h busy) ∙ e) in
          (suc n, e')
      | inr ready ↦ (1, cc (sym (await_ready-done f dev port h ready) ∙ e))
    ]

-- `serial_write_char` polls the line status and writes the byte.
pub serial_write_char-polls :
    (fuel : ℕ) (dev : Device) (port c : ℕ) (h h' : History)
    → serial_write_char fuel dev c port h ≡ some h'
    → (n : ℕ) × (h' ≡ outb port c (polls port n h))
unfolding serial_write_char
serial_write_char-polls fuel dev port c h h' e = elim (Option-cases (await_ready fuel dev port h)) [
  | inl stuck ↦ absurd (cc (e, stuck))
  | inr (h1, waited) ↦
      let (n, e') = await_ready-polls fuel dev port h h1 waited in
      (n, sym (some-injective (outb port c h1) h' (rw waited at e)) ∙ ap (outb port c) e')
]

await_ready-Sends :
    (fuel : ℕ) (dev : Device) (port : ℕ) (h : History) (j : ℕ)
    → j < fuel
    → bit_and (u8 (dev (polls port j h) (u16 (port + 5)))) 0x20 ≢ 0
    → Sends (u16 port) h [] (await_ready fuel dev port h)
unfolding await_ready serial_is_transmit_ready
await_ready-Sends zero dev port h j lt r = absurd (omega arith)
await_ready-Sends (suc f) dev port h zero lt r =
    (in8 (u16 (port + 5)) ∷ h, await_ready-done f dev port h (==-false _ 0 r), sym (append-nil _))
await_ready-Sends (suc f) dev port h (suc j) lt r =
    elim (Bool-cases (bit_and (u8 (dev h (u16 (port + 5)))) 0x20 == 0)) [
      | inl busy ↦
          rw (await_ready-again f dev port h busy)
            (await_ready-Sends f dev port (in8 (u16 (port + 5)) ∷ h) j (omega arith) r)
      | inr ready ↦
          (in8 (u16 (port + 5)) ∷ h, await_ready-done f dev port h ready, sym (append-nil _))
    ]

-- The bytes of a text as they go over the line: a carriage return before each newline.
abbrev pub on_line : List ℕ → List ℕ
on_line [] = []
on_line (c ∷ cs) = if c == b'\n' then b'\r' ∷ c ∷ on_line cs else c ∷ on_line cs

abbrev pub IsBytes : List ℕ → Type 0
IsBytes [] = Unit {0}
IsBytes (c ∷ cs) = (c < 256) × IsBytes cs

abbrev pub is_bytes : List ℕ → Bool
is_bytes [] = true
is_bytes (c ∷ cs) = ltb c 256 && is_bytes cs

pub is_bytes-IsBytes : (cs : List ℕ) → is_bytes cs ≡ true → IsBytes cs
is_bytes-IsBytes [] h = tt
is_bytes-IsBytes (c ∷ cs) h = (ground (arith, h), is_bytes-IsBytes cs (ground (arith, h)))

Sends-trans :
    (port : ℕ) (h : History) (bs cs : List ℕ) (r : Option History) (k : History → Option History)
    → Sends port h bs r
    → ((h' : History) → Sends port h' cs (k h'))
    → Sends port h (bs ++ cs) (r >>= k)
Sends-trans port h bs cs r k (h', e, w) next =
    let (h'', e', w') = next h' in (h'', rw e e', w' ∙ rw w (append_assoc (written port h) bs cs))

-- A device whose transmitter is never busy for `k` polls on end.
abbrev pub GetsReady : Device → ℕ → ℕ → Type 0
GetsReady dev port k = (h : History) → ReadyWithin dev port k h

module _ (fuel : ℕ) (dev : Device) (port : ℕ) (k : ℕ) (prompt : GetsReady dev port k)
    (enough : k ≤ fuel) where
  pub serial_write_char-Sends :
      (c : ℕ) (h : History)
      → c < 256
      → Sends (u16 port) h (c ∷ []) (serial_write_char fuel dev c port h)
  unfolding serial_write_char outb
  serial_write_char-Sends c h byte =
      let r : ReadyWithin dev port k h = prompt h in
      let (h', e, w) =
        await_ready-Sends fuel dev port h r.round (le_trans r.in_time enough) r.ready in
      (
        out8 (u16 port) (u8 c) ∷ h',
        rw e,
        rw (u8-byte c byte, ==-true (u16 port) (u16 port) refl)
            (ap (λ (l : List ℕ). l ++ (c ∷ [])) (w ∙ append-nil _)),
      )

  -- On a device that gets ready in time, `serial_write` ends, and what it writes to the port is
  -- the text with a carriage return before each newline.
  pub serial_write-Sends :
      (cs : List ℕ) (h : History)
      → IsBytes cs
      → Sends (u16 port) h (on_line cs) (serial_write fuel dev cs port h)
  unfolding serial_write
  serial_write-Sends [] h b = (h, refl, sym (append-nil _))
  serial_write-Sends (c ∷ cs) h b = elim (Bool-cases (c == b'\n')) [
    | inl line ↦ rw line (
        Sends-trans (u16 port) h (b'\r' ∷ []) (c ∷ on_line cs) _ _
          (serial_write_char-Sends b'\r' h (omega arith))
          (then_char (λ h'. serial_write-Sends cs h' b.1)))
    | inr other ↦ rw other (then_char (λ h'. serial_write-Sends cs h' b.1) h)
  ]
    where
      then_char :
          ((h' : History) → Sends (u16 port) h' (on_line cs) (serial_write fuel dev cs port h'))
          → (h1 : History)
          → Sends
              (u16 port)
              h1
              (c ∷ on_line cs)
              (serial_write_char fuel dev c port h1 >>= serial_write fuel dev cs port)
      then_char rest h1 =
          Sends-trans (u16 port) h1 (c ∷ []) (on_line cs) _ _ (serial_write_char-Sends c h1 b.0)
            rest
