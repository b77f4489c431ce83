-- ===== src/Tests/Sweeps.antt =====
-- A revoked commitment is swept, and an output that a hash locks leaves in both ways.
use Prim.Native.String.{String}
use deckxcoin.Prelude.{ℕ, ◌<◌, ◌≡◌, refl, Option, none, some, List, [], ◌∷◌}
use deckxcoin.Prelude.Int.{pos}
use deckxcoin.Tx.{TxKind, TxInput, TxOutput, Transaction, htlc}
use deckxcoin.Tx.Build.{KeyPair}
use deckxcoin.Tx.Oracle.{Bytes}
use deckxcoin.Volt.Channel.{side_b}
use deckxcoin.Volt.Channel.Sweeps.{sweep_htlc_with_preimage, prev_of}
use deckxcoin.Volt.Channel.Sweeps.Exits.{sweep_htlc_with_preimage-Claims, Claims}
use deckxcoin.Tests.Toy.{toy, key_bytes}
use deckxcoin.Tests.Volt.{keys, key_of, opened, commitment}

abbrev revocation : Bytes → Bytes → Option KeyPair
revocation base revealed = some (key_of "revocation")

abbrev signed_by : String → ℕ → TxInput
signed_by key vout = record {
  txid = "memo";
  vout = vout;
  pubkey = key;
  signature = "signature";
  sequence = 0xffffffff;
  cosign = none;
  preimage = none;
  scalar = none;
}

abbrev paying : List TxInput → ℕ → String → ℕ → Transaction
paying inputs value address lock_time = record {
  version = 1;
  kind = TxKind.transfer;
  inputs = inputs;
  outputs = record { value = some (pos value); address = address; script = none } ∷ [];
  lock_time = lock_time;
  contract = none;
  memo = some "sweep";
}

abbrev penalty : Transaction
penalty = paying (signed_by "revocation" 0 ∷ signed_by "ben" 1 ∷ []) 9_000 "safe" 0

abbrev locked_out : TxOutput
locked_out = record {
  value = some (pos 2_000);
  address = "alice";
  script = some (htlc "digest" 20 "ann");
}

abbrev with_htlc : Transaction
with_htlc = record commitment { outputs = locked_out ∷ [] }

abbrev refund : Transaction
refund = paying (signed_by "ann" 0 ∷ []) 1_500 "ann" 30

abbrev claim : Transaction
claim = paying (record (signed_by "ben" 0) { preimage = some "preimage" } ∷ []) 1_500 "ben" 0

claim_made :
    sweep_htlc_with_preimage keys "sweep" opened with_htlc 0 "preimage" side_b 500 ≡ some claim
unfolding sweep_htlc_with_preimage
claim_made = refl

sweep_htlc_with_preimage-Claims_example :
    (500 < 2_000)
    × Claims toy claim "memo" 0
        (key_of "ben")
        1_500
        (prev_of locked_out)
        key_bytes
        []
        (htlc "digest" 20 "ann")
sweep_htlc_with_preimage-Claims_example =
    sweep_htlc_with_preimage-Claims keys "sweep" opened with_htlc claim 0 500 20 locked_out "digest"
      "ann" key_bytes [] refl refl side_b "preimage" key_bytes 2_000 refl refl refl refl refl refl
      claim_made
