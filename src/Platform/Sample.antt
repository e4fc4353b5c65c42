-- ===== src/Platform/Sample.antt =====
-- A platform that keeps the laws, on which the instructions run in tests.
use clustly_solana_escrow.Base.{
  ℕ, ◌+◌, ◌-◌, ◌*◌, ◌^◌, ◌≤◌, ◌<◌, ◌≡◌, ◌≢◌, refl, Bool, not, ◌&&◌, Option, none, some, List, [],
  ◌∷◌, ltb, leb, ◌==◌, if◌then◌else◌, arith,
}
use clustly_solana_escrow.Error.{Result, ok, err, cpi}
use clustly_solana_escrow.State.{Pubkey, Bytes}
use clustly_solana_escrow.Platform.{TokenAccount, Ledger, Platform}
use clustly_solana_escrow.Platform.Laws.{moved, removed, opened, empty_token, Transferable, Laws}

-- A small number for the seeds: it tells apart the ones of the tests.
hash_bytes : Bytes → ℕ
hash_bytes [] = 7
hash_bytes (b ∷ bs) = b + 3 * hash_bytes bs

hash_seeds : List Bytes → ℕ
hash_seeds [] = 0
hash_seeds (s ∷ ss) = hash_bytes s + 1000 * hash_seeds ss

abbrev sample_ata : Pubkey → Pubkey → Pubkey
sample_ata authority mint = 1_000_000_000 + authority * 10 + mint

may_move : TokenAccount → TokenAccount → Pubkey → ℕ → Bool
may_move a b authority n =
    a.owner == authority
    && a.mint == b.mint
    && not a.frozen
    && not b.frozen
    && leb n a.amount
    && ltb (b.amount + n) (2 ^ 64)

transfer_between :
    Option TokenAccount
    → Option TokenAccount
    → Ledger
    → Pubkey
    → Pubkey
    → Pubkey
    → ℕ
    → Result Ledger
transfer_between (some a) (some b) l from to authority n =
    if may_move a b authority n then ok (moved l from to n) else err (cpi 1)
transfer_between _ _ l from to authority n = err (cpi 2)

sample_transfer : Ledger → Pubkey → Pubkey → Pubkey → ℕ → Result Ledger
unfolding transfer_between may_move
sample_transfer l from to authority n = transfer_between (l from) (l to) l from to authority n

close_one : Option TokenAccount → Ledger → Pubkey → Pubkey → Result Ledger
close_one none l account authority = err (cpi 2)
close_one (some a) l account authority =
    if a.owner == authority && a.amount == 0 then ok (removed l account) else err (cpi 3)

sample_close : Ledger → Pubkey → Pubkey → Result Ledger
unfolding close_one
sample_close l account authority = close_one (l account) l account authority

open_one : Option TokenAccount → Ledger → Pubkey → Pubkey → Result Ledger
open_one none l authority mint =
    ok (opened l (sample_ata authority mint) (empty_token mint authority))
open_one (some a) l authority mint = err (cpi 4)

sample_create : Ledger → Pubkey → Pubkey → Result Ledger
unfolding open_one
sample_create l authority mint = open_one (l (sample_ata authority mint)) l authority mint

unfoldable pub sample : Platform
unfolding hash_seeds hash_bytes sample_transfer sample_close sample_create moved removed opened
sample = record {
  find_program_address = λ seeds. (hash_seeds seeds, 255);
  create_program_address = λ seeds bump. some (hash_seeds seeds + (255 - bump));
  associated_token = sample_ata;
  transfer = sample_transfer;
  close_account = sample_close;
  create_associated = sample_create;
}

sample_transfer_sound :
    (l : Ledger) (from to authority : Pubkey) (n : ℕ) (l' : Ledger) (a b : Option TokenAccount)
    → l from ≡ a
    → l to ≡ b
    → transfer_between a b l from to authority n ≡ ok l'
    → Transferable l from to n × (l' ≡ moved l from to n)
unfolding transfer_between may_move
sample_transfer_sound l from to authority n l' (some a) (some b) ea eb h = (
  record { source = a; target = b; source_at = ea; target_at = eb; covered = ground arith },
  ground arith,
)
sample_transfer_sound l from to authority n l' none b ea eb h = cc
sample_transfer_sound l from to authority n l' (some a) none ea eb h = cc

pub sample-Laws : Laws sample
unfolding sample
sample-Laws = record {
  transfer_sound = λ l from to authority n l' h.
      unfold sample_transfer in
      sample_transfer_sound l from to authority n l' (l from) (l to) refl refl h;
  transfer_complete = λ l from to authority n a b ea eb eo em fa fb c v. ground arith;
  close_sound = λ l account authority l' h. ground arith;
  close_complete = λ l account authority a ea eo ez. ground arith;
  create_sound = λ l authority mint l' h. (ground arith, ground arith);
}

hash_bytes-ge : (b : Bytes) → 7 ≤ hash_bytes b
unfolding hash_bytes
hash_bytes-ge [] = omega arith
hash_bytes-ge (x ∷ b) = let r = hash_bytes-ge b in omega (arith, r)

-- No address that the sample platform derives is between 1 and 6.
pub sample_underived :
    (k : Pubkey) → 0 < k → k < 7 → (seeds : List Bytes) → (sample.find_program_address seeds).0 ≢ k
unfolding sample hash_seeds
sample_underived k pos small [] e = omega arith
sample_underived k pos small (s ∷ ss) e = omega (arith, hash_bytes-ge s)
