-- ===== src/Block/Subsidy/Terminal.antt =====
-- The height at which issuance ends.
use native.Mathlib.Decide.{dec_lt}
use deckxcoin.Prelude.{
  ℕ, zero, suc, ◌-◌, ◌*◌, ◌/◌, ◌≤◌, ◌<◌, ◌≡◌, refl, ◌↔◌, Bool, true, false, arith, ltb, leb, ◌==◌,
  if◌then◌else◌,
}
use deckxcoin.Block.Subsidy.{
  halving_interval, max_halvings, era_subsidy, block_subsidy, terminal_height,
}

abbrev terminal_era : ℕ
terminal_era = 35

-- Whether the era pays, as the table of all 64 has it.
abbrev pays_until : ℕ → Bool
pays_until era = if leb terminal_era era then era_subsidy era == 0 else ltb 0 (era_subsidy era)

-- The eras before `bound`, each looked up.
first_eras : ℕ → Bool
first_eras zero = true
first_eras (suc era) = if pays_until era then first_eras era else false

first_eras-pays_until :
    (era bound : ℕ) → era < bound → first_eras bound ≡ true → pays_until era ≡ true
unfolding first_eras
first_eras-pays_until era zero within h = absurd (omega arith)
first_eras-pays_until era (suc bound) within h = ground (arith, first_eras-pays_until era bound)

all_eras : first_eras max_halvings ≡ true
unfolding first_eras era_subsidy
all_eras = refl

era_subsidy-zero_iff : (era : ℕ) → era < max_halvings → (era_subsidy era ≡ 0) ↔ (terminal_era ≤ era)
era_subsidy-zero_iff era h = ground (arith, first_eras-pays_until era max_halvings h all_eras)

terminal_height_value : terminal_height ≡ terminal_era * halving_interval - 1
unfolding terminal_height
terminal_height_value = refl

-- A block's subsidy is zero exactly above the terminal height.
pub block_subsidy-zero_iff : (height : ℕ) → (block_subsidy height ≡ 0) ↔ (terminal_height < height)
unfolding block_subsidy
block_subsidy-zero_iff height = elim (dec_lt (height / halving_interval) max_halvings) [
  | yes early ↦
      let z = era_subsidy-zero_iff (height / halving_interval) early in
      rw terminal_height_value (ground (arith, z.0, z.1))
  | no over ↦ rw terminal_height_value (ground arith)
]
