-- ===== src/Tests/Base.antt =====
-- The schedule, the tree, the machine and the secrets at small inputs.
use deckxcoin.Prelude.{
  ℕ, ◌+◌, ◌*◌, ◌%◌, ◌^◌, ◌≤◌, ◌<◌, ◌≡◌, ◌↔◌, refl, Bool, true, false, none, some, List, [], ◌∷◌,
  length, All, arith,
}
use deckxcoin.Prelude.Eq.{nat_eq}
use deckxcoin.Block.Subsidy.{block_subsidy, cumulative_issuance, max_supply, terminal_height}
use deckxcoin.Block.Subsidy.Issuance.{
  subsidies, cumulative_issuance-eq-subsidies, cumulative_issuance-le-max_supply,
}
use deckxcoin.Block.Subsidy.Terminal.{block_subsidy-zero_iff}
use deckxcoin.Merkle.{ends_twice, merkle_root, merkle_proof, verify_merkle_proof, pad}
use deckxcoin.Merkle.Proofs.{verify-merkle_proof}
use deckxcoin.Merkle.Duplicates.{merkle_root-pad}
use deckxcoin.Vm.{VmContext, VmResult}
use deckxcoin.Vm.Words.{mod_pow, word_mod}
use deckxcoin.Vm.Words.Power.{mod_pow-eq-pow}
use deckxcoin.Vm.Run.{execute}
use deckxcoin.Vm.Ensures.{IsWord}
use deckxcoin.Vm.Ensures.Progress.{execute_total}
use deckxcoin.Tx.Oracle.{Bytes}
use deckxcoin.Volt.Secrets.{SecretChain, secret, derive_earlier, derive_earlier-secret}

cumulative_issuance-eq-subsidies_example : cumulative_issuance 3 ≡ subsidies (3 + 1)
cumulative_issuance-eq-subsidies_example = cumulative_issuance-eq-subsidies 3

cumulative_issuance-le-max_supply_example : cumulative_issuance 60_000 ≤ max_supply
cumulative_issuance-le-max_supply_example = cumulative_issuance-le-max_supply 60_000

block_subsidy-zero_iff_example : (block_subsidy 5 ≡ 0) ↔ (terminal_height < 5)
block_subsidy-zero_iff_example = block_subsidy-zero_iff 5

-- Nodes are numbers here.
abbrev node : ℕ → ℕ → ℕ
node a b = 10 * a + b

three_root : merkle_root node 0 (1 ∷ 2 ∷ 3 ∷ []) ≡ some 153
unfolding merkle_root ends_twice deckxcoin.Merkle.pairs pad deckxcoin.Merkle.last?
three_root = refl

verify-merkle_proof_example :
    (path : List (ℕ × Bool)) × (merkle_proof node (1 ∷ 2 ∷ 3 ∷ []) 2 ≡ some path)
    × (verify_merkle_proof node 3 path 153 ≡ true)
verify-merkle_proof_example = verify-merkle_proof node 0 153 3 (1 ∷ 2 ∷ 3 ∷ []) 2 three_root refl

abbrev three : List ℕ
three = 1 ∷ 2 ∷ 3 ∷ []

three_differ : ends_twice three ≡ false
unfolding ends_twice
three_differ = refl

merkle_root-pad_example :
    (length (pad three) ≡ length three + 1)
    × (merkle_root node 0 (pad three) ≡ merkle_root node 0 three)
merkle_root-pad_example = merkle_root-pad node 0 1 2 (3 ∷ []) refl three_differ

mod_pow-eq-pow_example : mod_pow 3 5 ≡ 3 ^ 5 % word_mod
mod_pow-eq-pow_example = mod_pow-eq-pow 3 5

abbrev ctx : VmContext
ctx = record {
  address = "c";
  caller = "a";
  call_value = 7;
  calldata = [];
  block_number = 5;
  block_time = 6;
  gas_limit = 30_000;
  balance_of = λ a. 3;
}

-- PUSH1 2 PUSH1 3 ADD PUSH1 1 SSTORE, and RETURN of one word
abbrev storing : List ℕ
storing = 0x60 ∷ 2 ∷ 0x60 ∷ 3 ∷ 0x01 ∷ 0x60 ∷ 1 ∷ 0x55 ∷ 0x60 ∷ 9 ∷ 0x60 ∷ 1 ∷ 0xf3 ∷ []

stores_five :
    execute (λ v. v) (λ a. 0) storing ctx []
    ≡ some (record {
      ok = true;
      error = none;
      gas_used = 20_018;
      return_value = 9 ∷ [];
      logs = [];
      storage = (1, 5) ∷ [];
      reverted = false;
    })
unfolding execute
stores_five = refl

execute_total_example :
    (r : VmResult) × (execute (λ v. v) (λ a. 0) storing ctx [] ≡ some r)
    × (r.gas_used ≤ 30_000)
    × All IsWord r.return_value
    × (r.ok ≡ false → (r.storage ≡ []) × (r.logs ≡ []) × (r.return_value ≡ []))
execute_total_example = execute_total (λ v. v) (λ a. 0) storing ctx []

abbrev next_secret : Bytes → Bytes
next_secret bytes = 1 ∷ bytes

abbrev secrets : SecretChain
secrets = record { seed = []; depth = 4 }

third_secret : secret next_secret secrets 3 ≡ some (1 ∷ [])
unfolding secret
third_secret = refl

derive_earlier-secret_example :
    derive_earlier next_secret (1 ∷ []) 3 1 ≡ secret next_secret secrets 1
derive_earlier-secret_example =
    derive_earlier-secret next_secret secrets 3 1 (1 ∷ []) (omega arith) third_secret
