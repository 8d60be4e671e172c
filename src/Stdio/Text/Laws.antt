-- ===== src/Stdio/Text/Laws.antt =====
-- The text of a format, part by part.
use lumen_os.Prelude.{
  ℕ, ◌≡◌, refl, ◌⊎◌, inl, inr, Bool, true, false, ◌&&◌, not, some, List, [], ◌∷◌, ◌++◌, arith, ◌==◌,
}
use lumen_os.Stdio.Itoa.{itoa}
use lumen_os.Stdio.Args.{Mode, Arg, word, number_then, next_word, in_text, in_field}
use lumen_os.Stdio.Text.{hex_text, text_from, text_step, directive_text}

-- Bytes other than `%`.
abbrev pub is_literal : List ℕ → Bool
is_literal [] = true
is_literal (c ∷ cs) = not (c == b'%') && is_literal cs

pub ended : text_from in_text [] [] ≡ some []
unfolding text_from
ended = refl

hex_step :
    (v : ℕ) (ds : List ℕ) (args : List Arg)
    → itoa v 16 ≡ some ds
    → (text_step (in_field 0) b'x' (word v ∷ args) ≡ some (in_text, args, hex_text ds))
      × (text_step (in_field 0) b'p' (word v ∷ args) ≡ some (in_text, args, hex_text ds))
unfolding text_step directive_text number_then next_word
hex_step v ds args e =
    (rw (text_step, directive_text, number_then, e), rw (text_step, directive_text, number_then, e))

text_from-cons :
    (mode mode' : Mode) (c : ℕ) (cs t ts : List ℕ) (args args' : List Arg)
    → text_step mode c args ≡ some (mode', args', t)
    → text_from mode' cs args' ≡ some ts
    → text_from mode (c ∷ cs) args ≡ some (t ++ ts)
unfolding text_from
text_from-cons mode mode' c cs t ts args args' e rest = rw (text_from, e, rest)

-- The bytes of a format up to a `%` stand for themselves.
pub text_from-append :
    (pre cs ts : List ℕ) (args : List Arg)
    → is_literal pre ≡ true
    → text_from in_text cs args ≡ some ts
    → text_from in_text (pre ++ cs) args ≡ some (pre ++ ts)
unfolding text_step
text_from-append [] cs ts args h rest = rest
text_from-append (c ∷ pre) cs ts args h rest =
    let plain : c == b'%' ≡ false = ground (arith, h) in
    text_from-cons in_text in_text c (pre ++ cs) (c ∷ []) (pre ++ ts) args args
      (rw (text_step, plain)) (text_from-append pre cs ts args (ground (arith, h)) rest)

-- `%x` and `%p`.
pub hex_directive :
    (c v : ℕ) (ds cs ts : List ℕ) (args : List Arg)
    → (c ≡ b'x') ⊎ (c ≡ b'p')
    → itoa v 16 ≡ some ds
    → text_from in_text cs args ≡ some ts
    → text_from in_text (b'%' ∷ c ∷ cs) (word v ∷ args) ≡ some (hex_text ds ++ ts)
unfolding text_step
hex_directive c v ds cs ts args which e rest =
    text_from-cons in_text (in_field 0) b'%' (c ∷ cs) [] (hex_text ds ++ ts) (word v ∷ args)
      (word v ∷ args) refl
      (text_from-cons (in_field 0) in_text c cs (hex_text ds) ts (word v ∷ args) args (step which)
        rest)
  where
    step :
        (c ≡ b'x') ⊎ (c ≡ b'p')
        → text_step (in_field 0) c (word v ∷ args) ≡ some (in_text, args, hex_text ds)
    step (inl x) = rw (x, (hex_step v ds args e).0)
    step (inr p) = rw (p, (hex_step v ds args e).1)
