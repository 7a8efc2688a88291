-- ===== src/Dex/Notes.antt =====
-- What x/dex mints of the shielded pool: SplitNoteValues of x/shielded/types/rules.go and
-- MintNoteSplit of x/shielded/keeper/notes.go. A byte string is a `String` of its bytes.
pub mod Split
use Prim.Native.String.{String}
use earth_network_chain.Base.{
  ℕ, zero, suc, ◌+◌, ◌-◌, ◌/◌, ◌^◌, ◌≡◌, Bool, ltb, ◌==◌, if◌then◌else◌, Option, some, List, [],
  ◌∷◌, Result, ok, err, guard, fail_if, or_err, ◌>>=◌, ◌>>◌, invalid_amount, note_refused,
  tree_full,
}
use earth_network_chain.Dex.Bank.{Bank, part}

-- `MaxNoteValue` and `MaxSplitNotes`.
abbrev pub max_note_value : ℕ
max_note_value = 2 ^ 63 - 1

abbrev pub max_split_notes : ℕ
max_split_notes = 128

-- The number of notes that `SplitNoteValues` computes.
abbrev pub notes_of : ℕ → ℕ
notes_of v = (v + max_note_value - 1) / max_note_value

-- The loop of `SplitNoteValues` on what is left; the number of notes is its fuel.
unfoldable pub split_rest : ℕ → ℕ → List ℕ
split_rest zero rest = []
split_rest (suc fuel) rest =
    let more = split_rest fuel (rest - max_note_value) in
    if rest == 0 then [] else if ltb max_note_value rest then max_note_value ∷ more else rest ∷ []

-- `SplitNoteValues`.
unfoldable pub split_note_values : ℕ → Result (List ℕ)
unfolding split_rest
split_note_values v = do
  fail_if (v == 0) invalid_amount
  fail_if (ltb max_split_notes (notes_of v)) invalid_amount
  ok (split_rest (notes_of v) v)

abbrev pub count : List ℕ → ℕ
count [] = 0
count (v ∷ vs) = suc (count vs)

-- The shielded keeper, over the state it shares with the bank: whether the tree has room, one
-- `MintNote` from the dex account, and `checkNoteOut` of an asset, a pc and a ciphertext.
pub record Notes (k : Bank) : Type 1 where
  pub check_capacity : ℕ → k.State → Bool
  pub mint_note : String → ℕ → String → String → k.State → Option k.State
  pub check_note_out : String → String → String → k.State → Bool

-- A mint takes exactly its amount, in its denom, from the dex account.
pub record IsNotes (k : Bank) (notes : Notes k) : Type 0 where
  pub mint_takes :
      (denom d pc ciphertext : String) (n : ℕ) (b b' : k.State)
      → notes.mint_note denom n pc ciphertext b ≡ some b'
      → k.balance b' d + part d denom n ≡ k.balance b d

module _ (k : Bank) (notes : Notes k) where
  -- The loop of `MintNoteSplit`.
  unfoldable pub mint_each : String → List ℕ → String → String → k.State → Result k.State
  mint_each denom [] pc ciphertext b = ok b
  mint_each denom (v ∷ vs) pc ciphertext b =
      or_err (notes.mint_note denom v pc ciphertext b) note_refused >>= λ b'.
      mint_each denom vs pc ciphertext b'

  -- `MintNoteSplit`: how many notes it minted, and the state.
  unfoldable pub mint_note_split : String → ℕ → String → String → k.State → Result (ℕ × k.State)
  unfolding split_note_values mint_each
  mint_note_split denom amount pc ciphertext b = do
    values ← split_note_values amount
    guard (notes.check_capacity (count values) b) tree_full
    b' ← mint_each denom values pc ciphertext b
    ok (count values, b')
