-- ===== src/Ledger/Effect.antt =====
-- Post of trading/ledger/ledger.go and the single balance.
use qiu_market.Ledger.Drafts.{
  AllInt64, Distinct, EntriesInt64, insert-AllInt64, entry_sum, post_entries-effect,
}
use qiu_market.Prelude.{true, false, [], ◌∷◌, ◌≡◌, refl, arith, inl, inr, ◌∙◌, ◌++◌}
use qiu_market.Prelude.Int.{ℤ, pos, ◌+ℤ◌}
use qiu_market.Prelude.Text.{text_eq}
use qiu_market.Prelude.Dict.{Dict, lookup, lookup_or, insert, lookup_or-insert}
use qiu_market.Prelude.Result.{ok, Result-cases}
use qiu_market.Ledger.Types.{Transaction, Ledger, BalanceKey, balance_key_eq, balance_key_beq_iff}
use qiu_market.Ledger.Ops.{Draft, current_balance, post_entries, commit, post, all_zero, text_in}

-- Committing a draft gives each account the balance that the draft shows.
pub lookup_or-commit :
    (k : BalanceKey) (p balances : Dict BalanceKey ℤ)
    → Distinct p
    → lookup_or (pos 0) k (commit p balances) ≡ current_balance balances p k
unfolding commit current_balance lookup
lookup_or-commit k [] balances h = refl
lookup_or-commit k ((j, v) ∷ p) balances h =
    lookup_or-commit k p (insert j v balances) h.1
    ∙ ground (arith, balance_key_beq_iff j k, lookup_or-insert (pos 0) j k v balances, h.0)

pub commit-AllInt64 :
    (p balances : Dict BalanceKey ℤ) → AllInt64 p → AllInt64 balances → AllInt64 (commit p balances)
unfolding commit
commit-AllInt64 [] balances hp h = h
commit-AllInt64 ((k, v) ∷ p) balances hp h =
    commit-AllInt64 p (insert k v balances) hp.1 (insert-AllInt64 k v balances hp.0 h)

abbrev pub empty_draft : Draft
empty_draft = record { sums = []; pending = [] }

-- The parts of a successful Post.
pub record PostParts (l : Ledger) (tx : Transaction) (l' : Ledger) : Type 0 where
  pub draft : Draft
  pub entries_eq : post_entries l.balances tx.entries empty_draft ≡ ok draft
  pub zero_eq : all_zero draft.sums ≡ true
  pub balances_eq : l'.balances ≡ commit draft.pending l.balances
  pub ids_eq : l'.transaction_ids ≡ tx.id ∷ l.transaction_ids
  pub journal_eq : l'.journal ≡ l.journal ++ tx ∷ []
  pub fresh : text_in tx.id l.transaction_ids ≡ false

pub post-parts :
    (l : Ledger) (tx : Transaction) {l' : Ledger} → post l tx ≡ ok l' → PostParts l tx l'
unfolding post
post-parts l tx {l'} eq = elim (Result-cases (post_entries l.balances tx.entries empty_draft)) [
  | inl (d, q) ↦ record {
    draft = d;
    entries_eq = q;
    zero_eq = ground arith;
    balances_eq = ground arith;
    ids_eq = ground arith;
    journal_eq = ground arith;
    fresh = ground arith;
  }
  | inr (e, q) ↦ absurd (ground arith)
]

-- A transaction that Post accepts adds to every balance the amounts of its entries for that account
-- and asset, and nothing else; the balances stay int64 values.
pub post_effect :
    (l l' : Ledger) (tx : Transaction) (k : BalanceKey)
    → AllInt64 l.balances
    → EntriesInt64 tx.entries
    → post l tx ≡ ok l'
    → AllInt64 l'.balances
      × (lookup_or (pos 0) k l'.balances ≡ lookup_or (pos 0) k l.balances +ℤ entry_sum k tx.entries)
unfolding lookup_or current_balance lookup
post_effect l l' tx k hl he eq =
    let p = post-parts l tx eq in
    let (v, effect) =
      post_entries-effect l.balances hl k tx.entries empty_draft p.draft he
        (record { distinct = tt; pending_int64 = tt; sums_int64 = tt }) p.entries_eq in
    (
      rw p.balances_eq (commit-AllInt64 p.draft.pending l.balances v.pending_int64 hl),
      rw (p.balances_eq, lookup_or-commit k p.draft.pending l.balances v.distinct) effect,
    )
