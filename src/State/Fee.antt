-- ===== src/State/Fee.antt =====
-- The split of a bounty (state.rs, `compute_fee_split`).
use clustly_solana_escrow.Base.{ℕ, ◌+◌, ◌-◌, ◌*◌, ◌/◌, ◌^◌, ◌≤◌, ◌<◌, ◌≡◌, arith}
use clustly_solana_escrow.Error.{ok}
use clustly_solana_escrow.State.{compute_fee_split, bps_denominator, fee_bps_cap}

share-le :
    (bounty fee_bps : ℕ) → fee_bps ≤ bps_denominator → bounty * fee_bps ≤ bounty * bps_denominator
share-le bounty fee_bps h = grind arith

-- For every `u64` bounty and every rate up to 100 %, the split succeeds: the fee is the share of the
-- rate, rounded down, and the payout is the rest, so that the two add up to the bounty.
pub compute_fee_split_lem :
    (bounty fee_bps : ℕ)
    → bounty < 2 ^ 64
    → fee_bps ≤ bps_denominator
    → let fee = bounty * fee_bps / bps_denominator in
      (compute_fee_split bounty fee_bps ≡ ok (bounty - fee, fee)) × (bounty - fee + fee ≡ bounty)
unfolding compute_fee_split
compute_fee_split_lem bounty fee_bps hb hf =
    (ground (arith, share-le bounty fee_bps hf), omega (arith, share-le bounty fee_bps hf))

-- However the split came about, what it pays out is the bounty.
pub compute_fee_split_sum :
    (bounty fee_bps : ℕ) {net fee : ℕ}
    → compute_fee_split bounty fee_bps ≡ ok (net, fee)
    → net + fee ≡ bounty
unfolding compute_fee_split
compute_fee_split_sum bounty fee_bps h = ground arith

-- For a `u64` bounty and a rate within the cap, the fee is at most a twentieth of the bounty.
pub compute_fee_split_cap :
    (bounty fee_bps : ℕ) {net fee : ℕ}
    → bounty < 2 ^ 64
    → fee_bps ≤ fee_bps_cap
    → compute_fee_split bounty fee_bps ≡ ok (net, fee)
    → fee * 20 ≤ bounty
compute_fee_split_cap bounty fee_bps {fee = fee} hb hf h =
    ground (arith, compute_fee_split_lem bounty fee_bps hb, cap-le)
  where
    cap-le : bounty * fee_bps ≤ bounty * fee_bps_cap
    cap-le = grind arith
