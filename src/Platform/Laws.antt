-- ===== src/Platform/Laws.antt =====
-- The documented behaviour of the token program and the associated token program.
use clustly_solana_escrow.Base.{
  ℕ, ◌+◌, ◌-◌, ◌^◌, ◌≤◌, ◌<◌, ◌≡◌, false, Option, none, some, ◌==◌, if◌then◌else◌,
}
use clustly_solana_escrow.Error.{ok}
use clustly_solana_escrow.State.{Pubkey}
use clustly_solana_escrow.Platform.{TokenAccount, Ledger, Platform}

abbrev pub debit : ℕ → Option TokenAccount → Option TokenAccount
debit n none = none
debit n (some v) = some (record v { amount = v.amount - n })

abbrev pub credit : ℕ → Option TokenAccount → Option TokenAccount
credit n none = none
credit n (some v) = some (record v { amount = v.amount + n })

-- The ledger after a transfer; a transfer of an account to itself leaves it alone.
unfoldable pub moved : Ledger → Pubkey → Pubkey → ℕ → Ledger
moved l from to n k =
    if from == to
    then l k
    else if from == k
    then debit n (l k)
    else if to == k
    then credit n (l k)
    else l k

unfoldable pub removed : Ledger → Pubkey → Ledger
removed l a k = if a == k then none else l k

unfoldable pub opened : Ledger → Pubkey → TokenAccount → Ledger
opened l a v k = if a == k then some v else l k

abbrev pub empty_token : Pubkey → Pubkey → TokenAccount
empty_token mint owner = record { mint = mint; owner = owner; amount = 0; frozen = false }

-- What a successful transfer has checked.
pub record Transferable (l : Ledger) (from to : Pubkey) (n : ℕ) : Type 0 where
  pub source : TokenAccount
  pub target : TokenAccount
  pub source_at : l from ≡ some source
  pub target_at : l to ≡ some target
  pub covered : n ≤ source.amount

pub record Laws (p : Platform) : Type 0 where
  pub transfer_sound :
      (l : Ledger) (from to authority : Pubkey) (n : ℕ) (l' : Ledger)
      → p.transfer l from to authority n ≡ ok l'
      → Transferable l from to n × (l' ≡ moved l from to n)
  -- The owner of an account may move what it holds, unless one of the two accounts is frozen.
  pub transfer_complete :
      (l : Ledger) (from to authority : Pubkey) (n : ℕ) (a b : TokenAccount)
      → l from ≡ some a
      → l to ≡ some b
      → a.owner ≡ authority
      → a.mint ≡ b.mint
      → a.frozen ≡ false
      → b.frozen ≡ false
      → n ≤ a.amount
      → b.amount + n < 2 ^ 64
      → p.transfer l from to authority n ≡ ok (moved l from to n)
  pub close_sound :
      (l : Ledger) (account authority : Pubkey) (l' : Ledger)
      → p.close_account l account authority ≡ ok l'
      → l' ≡ removed l account
  -- The owner may close an account that is empty.
  pub close_complete :
      (l : Ledger) (account authority : Pubkey) (a : TokenAccount)
      → l account ≡ some a
      → a.owner ≡ authority
      → a.amount ≡ 0
      → p.close_account l account authority ≡ ok (removed l account)
  pub create_sound :
      (l : Ledger) (authority mint : Pubkey) (l' : Ledger)
      → p.create_associated l authority mint ≡ ok l'
      → (l (p.associated_token authority mint) ≡ none)
        × (l' ≡ opened l (p.associated_token authority mint) (empty_token mint authority))
