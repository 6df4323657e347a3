-- ===== src/Ledger/Ops.antt =====
-- Posting, funding, holding and releasing in trading/ledger/ledger.go, and its queries.
use qiu_market.Prelude.{
  Bool, true, false, not, ◌&&◌, ◌||◌, none, some, List, [], ◌∷◌, ◌++◌, length, drop, ltb, ◌==◌,
}
use qiu_market.Prelude.Int.{ℤ, pos, pos_part, ltb_ℤ, leb_ℤ, neg64, int_eq}
use qiu_market.Prelude.Text.{Text, text_eq, is_empty}
use qiu_market.Prelude.Dict.{Dict, lookup, lookup_or, insert}
use qiu_market.Prelude.Result.{
  Result, ok, invalid_transaction, duplicate_transaction, unbalanced_transaction,
  insufficient_balance, ◌>>=◌, ◌>>◌, reject_if, relabel,
}
use qiu_market.Domain.{checked_add}
use qiu_market.Ledger.Types.{
  Entry, Transaction, Balance, Ledger, BalanceKey, balance_key_eq, balance_less, sort,
  user_available, user_held, system_treasury, is_negative_balance_allowed,
}

abbrev pub text_in : Text → List Text → Bool
text_in id [] = false
text_in id (x ∷ xs) = x == id || text_in id xs

-- The two maps that Post fills: the sum of each asset and the balances to be.
pub record Draft : Type 0 where
  pub sums : Dict Text ℤ
  pub pending : Dict BalanceKey ℤ

abbrev pub entry_key : Entry → BalanceKey
entry_key e = record { account = e.account; asset = e.asset }

-- `current, exists := pending[key]; if !exists { current = l.balances[key] }`
unfoldable pub current_balance : Dict BalanceKey ℤ → Dict BalanceKey ℤ → BalanceKey → ℤ
current_balance balances pending key = elim (lookup key pending) [
  | none ↦ lookup_or (pos 0) key balances
  | some v ↦ v
]

-- One round of the loop over the entries.
unfoldable pub post_entry : Dict BalanceKey ℤ → Entry → Draft → Result Draft
post_entry balances e d = do
  reject_if (is_empty e.account || is_empty e.asset || e.amount == pos 0) invalid_transaction
  sum ← relabel invalid_transaction (checked_add (lookup_or (pos 0) e.asset d.sums) e.amount)
  next ←
      relabel invalid_transaction
        (checked_add (current_balance balances d.pending (entry_key e)) e.amount)
  reject_if (ltb_ℤ next (pos 0) && not (is_negative_balance_allowed e.account)) insufficient_balance
  ok (record { sums = insert e.asset sum d.sums; pending = insert (entry_key e) next d.pending })

unfoldable pub post_entries : Dict BalanceKey ℤ → List Entry → Draft → Result Draft
post_entries balances [] d = ok d
post_entries balances (e ∷ es) d = do d' ← post_entry balances e d; post_entries balances es d'

unfoldable pub all_zero : Dict Text ℤ → Bool
all_zero [] = true
all_zero ((_, sum) ∷ sums) = sum == pos 0 && all_zero sums

-- `for key, amount := range pending { l.balances[key] = amount }`
unfoldable pub commit : Dict BalanceKey ℤ → Dict BalanceKey ℤ → Dict BalanceKey ℤ
commit [] balances = balances
commit ((k, v) ∷ pending) balances = commit pending (insert k v balances)

-- Post
unfoldable pub post : Ledger → Transaction → Result Ledger
post l tx = do
  reject_if (is_empty tx.id || is_empty tx.reference || ltb (length tx.entries) 2)
      invalid_transaction
  reject_if (text_in tx.id l.transaction_ids) duplicate_transaction
  d ← post_entries l.balances tx.entries (record { sums = []; pending = [] })
  reject_if (not (all_zero d.sums)) unbalanced_transaction
  ok (record {
    balances = commit d.pending l.balances;
    transaction_ids = tx.id ∷ l.transaction_ids;
    journal = l.journal ++ tx ∷ [];
  })

-- The transaction that moves an amount from one account to another.
abbrev pub transfer_entries : Text → Text → Text → ℤ → List Entry
transfer_entries from to asset amount =
    record { account = from; asset = asset; amount = neg64 amount }
    ∷ record { account = to; asset = asset; amount = amount }
    ∷ []

-- FundVirtual
unfoldable pub fund_virtual : Ledger → Text → Text → Text → Text → ℤ → Result Ledger
fund_virtual l tx_id reference account_id asset amount = do
  reject_if (leb_ℤ amount (pos 0)) invalid_transaction
  post l (record {
    id = tx_id;
    reference = reference;
    entries = transfer_entries (system_treasury asset) (user_available account_id) asset amount;
  })

-- move
unfoldable pub move : Ledger → Text → Text → Text → Text → Text → ℤ → Result Ledger
move l tx_id reference from to asset amount = do
  reject_if (leb_ℤ amount (pos 0)) invalid_transaction
  post l (record {
    id = tx_id;
    reference = reference;
    entries = transfer_entries from to asset amount;
  })

-- Hold
unfoldable pub hold : Ledger → Text → Text → Text → Text → ℤ → Result Ledger
hold l tx_id reference account_id asset amount =
    move l tx_id reference (user_available account_id) (user_held account_id) asset amount

-- Release
unfoldable pub release : Ledger → Text → Text → Text → Text → ℤ → Result Ledger
release l tx_id reference account_id asset amount =
    move l tx_id reference (user_held account_id) (user_available account_id) asset amount

-- Balance
unfoldable pub balance : Ledger → Text → Text → ℤ
balance l account asset = lookup_or (pos 0) (record { account = account; asset = asset }) l.balances

-- UserBalance: available and held.
unfoldable pub user_balance : Ledger → Text → Text → ℤ × ℤ
user_balance l account_id asset =
    (balance l (user_available account_id) asset, balance l (user_held account_id) asset)

unfoldable pub balance_rows : Dict BalanceKey ℤ → List Balance
balance_rows [] = []
balance_rows ((k, v) ∷ d) =
    record { account = k.account; asset = k.asset; amount = v } ∷ balance_rows d

-- Balances
unfoldable pub balances_of : Ledger → List Balance
balances_of l = sort balance_less (balance_rows l.balances)

-- JournalFrom
unfoldable pub journal_from : Ledger → ℤ → Result (List Transaction)
journal_from l index = do
  reject_if (ltb_ℤ index (pos 0) || ltb_ℤ (pos (length l.journal)) index) invalid_transaction
  ok (drop (pos_part index) l.journal)
