-- ===== src/Heap/Arena.antt =====
-- What `malloc` and `free` promise, over the list of the blocks in the order of their addresses.
-- A block is named by its offset in the heap; its size includes the header.
use lumen_os.Prelude.{
  true, ◌≡◌, ℕ, ◌+◌, ◌-◌, Bool, false, ◌==◌, leb, ltb, ◌&&◌, Option, none, some, List, [], ◌∷◌,
  ◌++◌, if◌then◌else◌,
}

pub record Block : Type 0 where
  pub size : ℕ
  pub free : Bool

abbrev pub used_block : ℕ → Block
used_block n = record { size = n; free = false }

abbrev pub total : List Block → ℕ
total [] = 0
total (b ∷ bs) = b.size + total bs

abbrev pub fits : ℕ → Block → Bool
fits n b = b.free && leb n b.size

abbrev pub shift : ℕ → Option ℕ → Option ℕ
shift n none = none
shift n (some o) = some (n + o)

-- The offset of the first free block of at least `n` bytes.
abbrev pub first_fit : ℕ → List Block → Option ℕ
first_fit n [] = none
first_fit n (b ∷ bs) = if fits n b then some 0 else shift b.size (first_fit n bs)

-- The block at an offset, if one starts there.
abbrev pub block_at : ℕ → List Block → Option Block
block_at o [] = none
block_at o (b ∷ bs) =
    if o == 0 then some b else if ltb o b.size then none else block_at (o - b.size) bs

abbrev pub set_free : ℕ → Bool → List Block → List Block
set_free o v [] = []
set_free o v (b ∷ bs) =
    if o == 0 then record b { free = v } ∷ bs else b ∷ set_free (o - b.size) v bs

-- First fit, or a new block behind the last one, or nothing.
unfoldable pub alloc : ℕ → ℕ → List Block → Option (ℕ × List Block)
alloc limit n bs = elim (first_fit n bs) [
  | some o ↦ some (o, set_free o false bs)
  | none ↦ if ltb limit (total bs + n) then none else some (total bs, bs ++ (used_block n ∷ []))
]

module _ (limit n : ℕ) (bs : List Block) where
  pub alloc-found :
      (o : ℕ) → first_fit n bs ≡ some o → alloc limit n bs ≡ some (o, set_free o false bs)
  unfolding alloc
  alloc-found o e = rw (e, alloc)

  pub alloc-full : first_fit n bs ≡ none → ltb limit (total bs + n) ≡ true → alloc limit n bs ≡ none
  unfolding alloc
  alloc-full e full = rw (e, alloc) (rw full)

  pub alloc-grow :
      first_fit n bs ≡ none
      → ltb limit (total bs + n) ≡ false
      → alloc limit n bs ≡ some (total bs, bs ++ (used_block n ∷ []))
  unfolding alloc
  alloc-grow e free_room = rw (e, alloc) (rw free_room)
