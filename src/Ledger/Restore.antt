-- ===== src/Ledger/Restore.antt =====
-- Compact, FromSnapshot and Validate of trading/ledger/ledger.go.
use qiu_market.Prelude.{
  Bool, true, false, not, ◌&&◌, List, [], ◌∷◌, ◌++◌, length, ltb, if◌then◌else◌, ◌==◌, nat_eq,
}
use qiu_market.Prelude.Int.{pos, int_eq}
use qiu_market.Prelude.Text.{Text, bytes, text_eq}
use qiu_market.Prelude.Dict.{Dict, lookup_or, insert}
use qiu_market.Prelude.Result.{Result, ok, unbalanced_transaction, internal, ◌>>=◌, ◌>>◌, reject_if}
use qiu_market.Ledger.Types.{
  Entry, Transaction, Balance, Ledger, LedgerSnapshot, balance_eq, balance_less, text_ltb, sort,
  new_ledger,
}
use qiu_market.Ledger.Ops.{post, balances_of}

-- Snapshot
unfoldable pub ledger_snapshot : Ledger → LedgerSnapshot
ledger_snapshot l = record { balances = balances_of l; journal = l.journal }

unfoldable pub post_all : List Transaction → Ledger → Result Ledger
post_all [] l = ok l
post_all (tx ∷ txs) l = do l' ← post l tx; post_all txs l'

-- The comparison of two sorted lists of balances: their lengths, then element by element.
unfoldable pub same_balances : List Balance → List Balance → Bool
same_balances [] [] = true
same_balances [] (y ∷ ys) = false
same_balances (x ∷ xs) [] = false
same_balances (x ∷ xs) (y ∷ ys) = x == y && same_balances xs ys

-- Validate
unfoldable pub validate_ledger : Ledger → Result (Unit {0})
validate_ledger l = do
  recomputed ← post_all l.journal new_ledger
  reject_if (not (same_balances (balances_of l) (balances_of recomputed))) internal
  ok tt

-- ledger.FromSnapshot
unfoldable pub ledger_from_snapshot : LedgerSnapshot → Result Ledger
ledger_from_snapshot s = do
  restored ← post_all s.journal new_ledger
  reject_if (not (same_balances (balances_of restored) (sort balance_less s.balances))) internal
  ok restored

-- The entries of Compact by asset, without the balances that are zero.
unfoldable pub group_by_asset : List Balance → Dict Text (List Entry) → Dict Text (List Entry)
group_by_asset [] groups = groups
group_by_asset (b ∷ bs) groups = group_by_asset bs (
    if b.amount == pos 0
    then groups
    else insert b.asset
        (lookup_or [] b.asset groups
          ++ record { account = b.account; asset = b.asset; amount = b.amount } ∷ [])
        groups)

abbrev pub keys : Dict Text (List Entry) → List Text
keys [] = []
keys ((k, _) ∷ d) = k ∷ keys d

-- The loop of Compact over the sorted assets.
unfoldable pub post_checkpoints : List Text → Dict Text (List Entry) → Ledger → Result Ledger
post_checkpoints [] groups l = ok l
post_checkpoints (asset ∷ assets) groups l = do
  let entries = lookup_or [] asset groups
  reject_if (ltb (length entries) 2) unbalanced_transaction
  l' ← post l (record {
    id = bytes "runtime-checkpoint:" ++ asset;
    reference = bytes "runtime-ledger-checkpoint";
    entries = entries;
  })
  post_checkpoints assets groups l'

-- Compact
unfoldable pub compact : Ledger → Result Ledger
compact l = do
  let groups = group_by_asset (balances_of l) []
  compacted ← post_checkpoints (sort text_ltb (keys groups)) groups new_ledger
  validate_ledger compacted
  ok compacted
