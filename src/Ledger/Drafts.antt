-- ===== src/Ledger/Drafts.antt =====
-- The draft that Post of trading/ledger/ledger.go fills, entry by entry.
use qiu_market.Prelude.{
  false, none, List, [], ◌∷◌, ◌≡◌, refl, arith, if◌then◌else◌, ◌==◌, Eq, sym, ◌∙◌,
}
use qiu_market.Prelude.Int.{ℤ, pos, ◌+ℤ◌, IsInt64, ◌≤ℤ◌, +ℤ_assoc, +ℤ-zero}
use qiu_market.Prelude.Text.{text_eq}
use qiu_market.Prelude.Dict.{Dict, lookup, lookup_or, insert, lookup-insert}
use qiu_market.Prelude.Result.{ok, >>=-eq-ok, ok-injective}
use qiu_market.Domain.ArithLaws.{checked_add-exact}
use qiu_market.Ledger.Types.{
  Entry, BalanceKey, balance_key_eq, is_negative_balance_allowed, balance_key_beq_iff,
}
use qiu_market.Ledger.Ops.{Draft, entry_key, current_balance, post_entry, post_entries}

-- No key stands twice.
abbrev pub Distinct {ℓ} : {K : Type ℓ} ⦃e : Eq K⦄ → Dict K ℤ → Type 0
Distinct [] = Unit
Distinct ((k, v) ∷ d) = (lookup k d ≡ none) × Distinct d

module _ {ℓ} {K : Type ℓ} ⦃e : Eq K⦄ where
  pub insert-Distinct : (k : K) (v : ℤ) (d : Dict K ℤ) → Distinct d → Distinct (insert k v d)
  unfolding insert lookup
  insert-Distinct k v [] h = (refl, tt)
  insert-Distinct k v ((j, w) ∷ d) h =
      ground (arith, insert-Distinct k v d h.1, lookup-insert k j v d, e.beq_iff j k, e.beq_iff k j)

abbrev pub AllInt64 {ℓ} : {K : Type ℓ} → Dict K ℤ → Type 0
AllInt64 [] = Unit
AllInt64 ((_, v) ∷ d) = IsInt64 v × AllInt64 d

module _ {ℓ} {K : Type ℓ} ⦃e : Eq K⦄ where
  pub insert-AllInt64 :
      (k : K) (v : ℤ) (d : Dict K ℤ) → IsInt64 v → AllInt64 d → AllInt64 (insert k v d)
  unfolding insert
  insert-AllInt64 k v [] hv h = (hv, tt)
  insert-AllInt64 k v ((j, w) ∷ d) hv h = ground (arith, insert-AllInt64 k v d hv h.1)

  pub lookup_or-IsInt64 : (k : K) (d : Dict K ℤ) → AllInt64 d → IsInt64 (lookup_or (pos 0) k d)
  unfolding lookup_or lookup
  lookup_or-IsInt64 k [] h = omega arith
  lookup_or-IsInt64 k ((j, w) ∷ d) h = ground (arith, lookup_or-IsInt64 k d h.1)

abbrev pub EntriesInt64 : List Entry → Type 0
EntriesInt64 [] = Unit
EntriesInt64 (e ∷ es) = IsInt64 e.amount × EntriesInt64 es

-- The amounts of the entries of one account and asset.
abbrev pub entry_sum : BalanceKey → List Entry → ℤ
entry_sum k [] = pos 0
entry_sum k (e ∷ es) = if entry_key e == k then e.amount +ℤ entry_sum k es else entry_sum k es

module _ (balances : Dict BalanceKey ℤ) (valid : AllInt64 balances) where
  pub record DraftValid (d : Draft) : Type 0 where
    pub distinct : Distinct d.pending
    pub pending_int64 : AllInt64 d.pending
    pub sums_int64 : AllInt64 d.sums

  pub current-insert :
      (k j : BalanceKey) (v : ℤ) (p : Dict BalanceKey ℤ)
      → current_balance balances (insert k v p) j
        ≡ (if k == j then v else current_balance balances p j)
  unfolding current_balance
  current-insert k j v p = rw (current_balance, lookup-insert k j v p) (ground arith)

  current-IsInt64 :
      (k : BalanceKey) (p : Dict BalanceKey ℤ) → AllInt64 p → IsInt64 (current_balance balances p k)
  unfolding current_balance lookup
  current-IsInt64 k [] h = lookup_or-IsInt64 k balances valid
  current-IsInt64 k ((j, w) ∷ d) h = ground (arith, current-IsInt64 k d h.1)

  -- What one successful round leaves.
  pub record Posted (e : Entry) (d d' : Draft) : Type 0 where
    pub pending_eq :
        d'.pending
        ≡ insert
            (entry_key e)
            (current_balance balances d.pending (entry_key e) +ℤ e.amount)
            d.pending
    pub sums_eq : d'.sums ≡ insert e.asset (lookup_or (pos 0) e.asset d.sums +ℤ e.amount) d.sums
    pub next_int64 : IsInt64 (current_balance balances d.pending (entry_key e) +ℤ e.amount)
    pub sum_int64 : IsInt64 (lookup_or (pos 0) e.asset d.sums +ℤ e.amount)
    pub next_allowed :
        (is_negative_balance_allowed e.account ≡ false)
        → pos 0 ≤ℤ current_balance balances d.pending (entry_key e) +ℤ e.amount

  pub post_entry-Posted :
      (e : Entry) (d d' : Draft)
      → IsInt64 e.amount
      → DraftValid d
      → post_entry balances e d ≡ ok d'
      → Posted e d d'
  unfolding post_entry
  post_entry-Posted e d d' h v eq = ground (
    arith,
    checked_add-exact (lookup_or (pos 0) e.asset d.sums) e.amount
        (lookup_or-IsInt64 e.asset d.sums v.sums_int64) h,
    checked_add-exact (current_balance balances d.pending (entry_key e)) e.amount
        (current-IsInt64 (entry_key e) d.pending v.pending_int64) h,
  )

  pub post_entry-DraftValid :
      (e : Entry) (d d' : Draft) → DraftValid d → Posted e d d' → DraftValid d'
  post_entry-DraftValid e d d' v p = record {
    distinct = rw p.pending_eq (insert-Distinct _ _ d.pending v.distinct);
    pending_int64 = rw p.pending_eq (insert-AllInt64 _ _ d.pending p.next_int64 v.pending_int64);
    sums_int64 = rw p.sums_eq (insert-AllInt64 _ _ d.sums p.sum_int64 v.sums_int64);
  }

  entry_step :
      (k : BalanceKey) (e : Entry) (es : List Entry) (d d' : Draft)
      → Posted e d d'
      → current_balance balances d'.pending k +ℤ entry_sum k es
        ≡ current_balance balances d.pending k +ℤ entry_sum k (e ∷ es)
  entry_step k e es d d' p =
      rw (p.pending_eq, current-insert (entry_key e) k _ d.pending)
        (ground (
          arith,
          balance_key_beq_iff (entry_key e) k,
          +ℤ_assoc (current_balance balances d.pending k) e.amount (entry_sum k es),
        ))

  -- The balances to be, after all entries.
  pub post_entries-effect :
      (k : BalanceKey) (es : List Entry) (d d' : Draft)
      → EntriesInt64 es
      → DraftValid d
      → post_entries balances es d ≡ ok d'
      → DraftValid d'
        × (current_balance balances d'.pending k
            ≡ current_balance balances d.pending k +ℤ entry_sum k es)
  unfolding post_entries
  post_entries-effect k [] d d' h v eq =
      let same : d ≡ d' = ok-injective eq in
      rw (← same) (v, sym (+ℤ-zero (current_balance balances d.pending k)))
  post_entries-effect k (e ∷ es) d d' h v eq =
      let (mid, first, rest) = >>=-eq-ok (post_entry balances e d) (post_entries balances es) eq in
      let p : Posted e d mid = post_entry-Posted e d mid h.0 v first in
      let (v', final) =
        post_entries-effect k es mid d' h.1 (post_entry-DraftValid e d mid v p) rest in
      (v', final ∙ entry_step k e es d mid p)
