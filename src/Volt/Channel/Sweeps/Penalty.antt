-- ===== src/Volt/Channel/Sweeps/Penalty.antt =====
-- What `penaltyFor` of chain/src/volt/channel.ts takes from a revoked commitment, and what it pays.
use Prim.Native.String.{String}
use deckxcoin.Prelude.{
  ℕ, ◌-◌, ◌<◌, ◌≡◌, true, none, some, List, [], ◌∷◌, ◌==◌, any, get_elem?, map, ◌⊎◌, All,
}
use deckxcoin.Prelude.Eq.{string_eq, nat_eq}
use deckxcoin.Prelude.Int.{pos}
use deckxcoin.Tx.{Hex, TxInput, TxOutput, Transaction}
use deckxcoin.Tx.Oracle.{Oracle}
use deckxcoin.Tx.Build.{KeyPair, unsigned_input}
use deckxcoin.Volt.Channel.Sweeps.{Swept, spends_final}
use deckxcoin.Volt.Channel.Sweeps.Taken.{IsRevocable, IsPlain, TakesFrom, takeable}

-- A penalty on a commitment: each input takes an output of the two kinds with its key, each such output
-- is taken by an input, and the one output pays their values, less a lower fee.
pub record IsPenalty (revocation own : KeyPair) (id : Hex) (outs : List TxOutput)
    (sweep_to : String) (fee : ℕ) (tx : Transaction) : Type 0 where
  pub takes : All (TakesFrom revocation own id outs) tx.inputs
  pub every :
      (n : ℕ) (out : TxOutput)
      → get_elem? outs n ≡ some out
      → IsRevocable out ⊎ IsPlain own out
      → any (λ (input : TxInput). input.vout == n) tx.inputs ≡ true
  pub taken : ℕ
  pub value : taken ≡ takeable own outs
  pub over : fee < taken
  pub pays_to :
      tx.outputs
      ≡ record { value = some (pos (taken - fee)); address = sweep_to; script = none } ∷ []

-- The inputs are those of the outputs found, each with the key of its signer.
abbrev Matches : Hex → List Swept → List TxInput → Type 0
Matches id [] [] = Unit
Matches id [] (input ∷ inputs) = ⊥
Matches id (s ∷ found) [] = ⊥
Matches id (s ∷ found) (input ∷ inputs) =
    (input.txid ≡ id)
    × (input.vout ≡ s.vout)
    × (input.pubkey ≡ s.signer.public_key)
    × Matches id found inputs

unsigned : Hex → List Swept → List TxInput
unsigned id found = map unsigned_input (map (spends_final id) found)
