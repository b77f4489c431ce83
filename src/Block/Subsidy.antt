-- ===== src/Block/Subsidy.antt =====
-- The issuance schedule of chain/src/block.ts, in zaps.
pub mod Issuance
pub mod Terminal
use deckxcoin.Prelude.{
  ℕ, zero, suc, ◌+◌, ◌-◌, ◌*◌, ◌/◌, ◌^◌, min, ◌&&◌, ltb, leb, ◌==◌, if◌then◌else◌,
}

abbrev pub zaps_per_coin : ℕ
zaps_per_coin = 100_000_000

abbrev pub max_supply : ℕ
max_supply = 21_000_000 * zaps_per_coin

abbrev pub halving_interval : ℕ
halving_interval = 52_560

abbrev pub initial_subsidy : ℕ
initial_subsidy = max_supply / (2 * halving_interval)

abbrev pub max_halvings : ℕ
max_halvings = 64

-- INITIAL_SUBSIDY >> era
unfoldable pub era_subsidy : ℕ → ℕ
era_subsidy era = initial_subsidy / 2 ^ era

unfoldable pub block_subsidy : ℕ → ℕ
block_subsidy height =
    let halvings = height / halving_interval in
    if leb max_halvings halvings then 0 else era_subsidy halvings

-- The loop over the full eras: `rounds` of them are left, from `era` on.
unfoldable pub add_eras : ℕ → ℕ → ℕ → ℕ
add_eras zero era total = total
add_eras (suc rounds) era total =
    add_eras rounds (era + 1) (total + halving_interval * era_subsidy era)

-- `cumulativeIssuance(height)` at `blocks = height + 1`, so that `cumulativeIssuance(-1)` has a
-- place too.
unfoldable pub issuance_of : ℕ → ℕ
unfolding add_eras
issuance_of blocks =
    let full_eras = min (blocks / halving_interval) max_halvings in
    let total = add_eras full_eras 0 0 in
    let remainder = blocks - full_eras * halving_interval in
    if ltb 0 remainder && ltb full_eras max_halvings
    then total + remainder * era_subsidy full_eras
    else total

unfoldable pub cumulative_issuance : ℕ → ℕ
unfolding issuance_of
cumulative_issuance height = issuance_of (height + 1)

-- The first era from `era` on that pays nothing, with `rounds` left to MAX_HALVINGS.
terminal_from : ℕ → ℕ → ℕ
terminal_from zero era = max_halvings * halving_interval - 1
terminal_from (suc rounds) era =
    let rest = terminal_from rounds (era + 1) in
    if era_subsidy era == 0 then era * halving_interval - 1 else rest

unfoldable pub terminal_height : ℕ
unfolding terminal_from era_subsidy
terminal_height = terminal_from max_halvings 0
