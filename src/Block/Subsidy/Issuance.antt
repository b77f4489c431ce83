-- ===== src/Block/Subsidy/Issuance.antt =====
-- The closed form of the issuance is the sum of the subsidies, and stays under the cap.
use native.Mathlib.Nat.{add-zero, zero-add, le_refl, mul-le-mul_right}
use native.Mathlib.Numerals.{add-one}
use native.Mathlib.Decide.{dec_lt}
use deckxcoin.Prelude.{
  ℕ, zero, suc, ◌+◌, ◌-◌, ◌*◌, ◌/◌, ◌%◌, ◌≤◌, ◌<◌, min, ◌≡◌, refl, arith, ◌∙◌, ap,
}
use deckxcoin.Block.Subsidy.{
  max_supply, halving_interval, max_halvings, era_subsidy, block_subsidy, add_eras, issuance_of,
  cumulative_issuance,
}

-- The subsidies of the first `blocks` blocks, block by block.
unfoldable pub subsidies : ℕ → ℕ
subsidies zero = 0
subsidies (suc n) = subsidies n + block_subsidy n

-- The full eras, from the last one down.
eras : ℕ → ℕ
eras zero = 0
eras (suc k) = eras k + halving_interval * era_subsidy k

-- One more round of the loop adds the era that it ends with.
add_eras-suc :
    (k era total : ℕ)
    → add_eras (suc k) era total ≡ add_eras k era total + halving_interval * era_subsidy (era + k)
unfolding add_eras
add_eras-suc zero era total = rw add-zero
add_eras-suc (suc k) era total =
    let e : era + 1 + k ≡ era + suc k = omega arith in
    add_eras-suc k (era + 1) (total + halving_interval * era_subsidy era) ∙ (rw e)

add_eras-eq-eras : (k : ℕ) → add_eras k 0 0 ≡ eras k
unfolding eras
add_eras-eq-eras zero = unfold add_eras in refl
add_eras-eq-eras (suc k) = rw (add_eras-suc, zero-add, add_eras-eq-eras k)

-- Inside era `q` the closed form is the eras before it and `r` blocks of its own.
issuance_of-era :
    (q r n : ℕ)
    → r < halving_interval
    → q < max_halvings
    → n ≡ q * halving_interval + r
    → issuance_of n ≡ eras q + r * era_subsidy q
issuance_of-era q r n hr hq e =
    let d : n / halving_interval ≡ q = omega arith in
    let m : min q max_halvings ≡ q = omega arith in
    let s : n - q * halving_interval ≡ r = omega arith in
    unfold issuance_of in rw (d, m, s, add_eras-eq-eras q) (ground arith)

issuance_of-end : (n : ℕ) → max_halvings * halving_interval ≤ n → issuance_of n ≡ eras max_halvings
issuance_of-end n h =
    let m : min (n / halving_interval) max_halvings ≡ max_halvings = omega arith in
    unfold issuance_of in rw (m, add_eras-eq-eras max_halvings) (ground arith)

block_subsidy-era :
    (q r n : ℕ)
    → r < halving_interval
    → q < max_halvings
    → n ≡ q * halving_interval + r
    → block_subsidy n ≡ era_subsidy q
unfolding block_subsidy
block_subsidy-era q r n hr hq e =
    let d : n / halving_interval ≡ q = omega arith in rw d (ground arith)

block_subsidy-end : (n : ℕ) → max_halvings * halving_interval ≤ n → block_subsidy n ≡ 0
unfolding block_subsidy
block_subsidy-end n h = ground arith

eras-add-one : (k : ℕ) → eras (k + 1) ≡ eras k + halving_interval * era_subsidy k
eras-add-one k = rw add-one (unfold eras in refl)

-- The last block of an era: the next one begins, or issuance is over.
issuance_at_boundary :
    (q n : ℕ)
    → q < max_halvings
    → n + 1 ≡ (q + 1) * halving_interval
    → issuance_of (n + 1) ≡ eras q + halving_interval * era_subsidy q
issuance_at_boundary q n hq e = elim (dec_lt (q + 1) max_halvings) [
  | yes more ↦
      omega
        (arith, issuance_of-era (q + 1) 0 (n + 1) (omega arith) more (omega arith), eras-add-one q)
  | no over ↦ omega (
    arith,
    issuance_of-end (n + 1) (omega arith),
    eras-add-one q,
    ap eras (let f : q + 1 ≡ max_halvings = omega arith in f),
  )
]

issuance_in_era :
    (q r n : ℕ)
    → r < halving_interval
    → q < max_halvings
    → n ≡ q * halving_interval + r
    → issuance_of (n + 1) ≡ issuance_of n + block_subsidy n
issuance_in_era q r n hr hq e = elim (dec_lt (r + 1) halving_interval) [
  | yes inside ↦ omega (
    arith,
    issuance_of-era q r n hr hq e,
    issuance_of-era q (r + 1) (n + 1) inside hq (omega arith),
    block_subsidy-era q r n hr hq e,
  )
  | no last ↦
      let f : r ≡ halving_interval - 1 = omega arith in
      omega (
        arith,
        issuance_of-era q r n hr hq e,
        ap (λ (t : ℕ). t * era_subsidy q) f,
        issuance_at_boundary q n hq (omega arith),
        block_subsidy-era q r n hr hq e,
      )
]

-- One more block adds its own subsidy.
pub issuance_of-suc : (n : ℕ) → issuance_of (n + 1) ≡ issuance_of n + block_subsidy n
issuance_of-suc n = elim (dec_lt (n / halving_interval) max_halvings) [
  | yes early ↦
      issuance_in_era (n / halving_interval) (n % halving_interval) n (omega arith) early
        (omega arith)
  | no over ↦ omega (
    arith,
    issuance_of-end n (omega arith),
    issuance_of-end (n + 1) (omega arith),
    block_subsidy-end n (omega arith),
  )
]

issuance_of-zero : issuance_of 0 ≡ 0
unfolding issuance_of
issuance_of-zero = refl

pub issuance_of-eq-subsidies : (n : ℕ) → issuance_of n ≡ subsidies n
unfolding subsidies
issuance_of-eq-subsidies zero = issuance_of-zero
issuance_of-eq-subsidies (suc n) =
    omega (arith, ap issuance_of (add-one n), issuance_of-suc n, issuance_of-eq-subsidies n)

-- The closed form at `height` is the sum of the subsidies of the blocks 0 to `height`.
pub cumulative_issuance-eq-subsidies :
    (height : ℕ) → cumulative_issuance height ≡ subsidies (height + 1)
unfolding cumulative_issuance
cumulative_issuance-eq-subsidies height = issuance_of-eq-subsidies (height + 1)

eras_mono : (k d : ℕ) → eras k ≤ eras (k + d)
eras_mono k zero = rw add-zero (le_refl _)
eras_mono k (suc d) =
    let e : k + suc d ≡ k + d + 1 = omega arith in
    rw e (omega (arith, eras_mono k d, eras-add-one (k + d)))

eras_bounded : eras max_halvings ≤ max_supply
unfolding eras era_subsidy
eras_bounded = omega arith

eras_below : (k : ℕ) → k ≤ max_halvings → eras k ≤ eras max_halvings
eras_below k h =
    let e : k + (max_halvings - k) ≡ max_halvings = omega arith in
    rw e at (eras_mono k (max_halvings - k))

pub issuance_of-le : (n : ℕ) → issuance_of n ≤ max_supply
issuance_of-le n = elim (dec_lt (n / halving_interval) max_halvings) [
  | yes early ↦ omega (
    arith,
    issuance_of-era (n / halving_interval) (n % halving_interval) n (omega arith) early
        (omega arith),
    mul-le-mul_right (era_subsidy (n / halving_interval))
        (let f : n % halving_interval ≤ halving_interval = omega arith in f),
    eras-add-one (n / halving_interval),
    eras_below (n / halving_interval + 1) (omega arith),
    eras_bounded,
  )
  | no over ↦ omega (arith, issuance_of-end n (omega arith), eras_bounded)
]

-- At no height does the issuance pass the cap of 21,000,000 coins.
pub cumulative_issuance-le-max_supply : (height : ℕ) → cumulative_issuance height ≤ max_supply
unfolding cumulative_issuance
cumulative_issuance-le-max_supply height = issuance_of-le (height + 1)
