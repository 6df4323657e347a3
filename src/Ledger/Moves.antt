-- ===== src/Ledger/Moves.antt =====
-- Post, Hold and Release of trading/ledger/ledger.go: debts, repeated transactions, and the two
-- balances of a user.
use qiu_market.Ledger.Restore.{post_all}
use qiu_market.Prelude.Text.{Text, is_empty, text_eq, bytes}
use qiu_market.Ledger.Effect.{post-parts, empty_draft, post_effect}
use qiu_market.Ledger.Drafts.{
  AllInt64, EntriesInt64, DraftValid, entry_sum, post_entry-Posted, post_entry-DraftValid,
}
use qiu_market.Prelude.Dict.{Dict, insert, lookup_or}
use qiu_market.Prelude.{
  ℕ, [], ◌∷◌, List, true, false, ◌≡◌, ◌≢◌, arith, ◌∙◌, sym, ap, Bool-cases, ◌==◌, inl, inr, ◌≤◌,
  if◌then◌else◌, length, ==-refl, ==-eq, ◌+◌, length-append,
}
use qiu_market.Prelude.Int.{
  ℤ, pos, ◌≤ℤ◌, ◌+ℤ◌, ◌-ℤ◌, max_word, neg64, wrap64-id, IsInt64, sub_ℕ, int_laws, wrap64-IsInt64,
}
use qiu_market.Prelude.Result.{ok, err, duplicate_transaction, ok-injective, >>=-eq-ok}
use qiu_market.Ledger.Types.{
  Entry, Transaction, Ledger, BalanceKey, is_negative_balance_allowed, balance_key_eq,
  user_available, user_held,
}
use qiu_market.Ledger.Ops.{
  post, commit, hold, post_entries, Draft, move, post_entry, text_in, transfer_entries, entry_key,
  release,
}

-- Only the treasury accounts may be in the red.
abbrev pub Solvent : Dict BalanceKey ℤ → Type 0
Solvent [] = Unit
Solvent ((k, v) ∷ d) = (is_negative_balance_allowed k.account ≡ false → pos 0 ≤ℤ v) × Solvent d

insert-Solvent :
    (k : BalanceKey) (v : ℤ) (d : Dict BalanceKey ℤ)
    → (is_negative_balance_allowed k.account ≡ false → pos 0 ≤ℤ v)
    → Solvent d
    → Solvent (insert k v d)
unfolding insert
insert-Solvent k v [] hv h = (hv, tt)
insert-Solvent k v ((j, w) ∷ d) hv h = elim (Bool-cases (j == k)) [
  | inl same ↦ rw same (hv, h.1)
  | inr other ↦ rw other (h.0, insert-Solvent k v d hv h.1)
]

commit-Solvent :
    (p balances : Dict BalanceKey ℤ) → Solvent p → Solvent balances → Solvent (commit p balances)
unfolding commit
commit-Solvent [] balances hp h = h
commit-Solvent ((k, v) ∷ p) balances hp h =
    commit-Solvent p (insert k v balances) hp.1 (insert-Solvent k v balances hp.0 h)

entries-Solvent :
    (balances : Dict BalanceKey ℤ) (valid : AllInt64 balances) (es : List Entry) (d d' : Draft)
    → EntriesInt64 es
    → DraftValid balances valid d
    → post_entries balances es d ≡ ok d'
    → Solvent d.pending
    → Solvent d'.pending
unfolding post_entries
entries-Solvent balances valid [] d d' h v eq s = rw (← ok-injective eq) s
entries-Solvent balances valid (e ∷ es) d d' h v eq s =
    let (mid, first, rest) = >>=-eq-ok (post_entry balances e d) (post_entries balances es) eq in
    let p = post_entry-Posted balances valid e d mid h.0 v first in
    entries-Solvent balances valid es mid d' h.1 (post_entry-DraftValid balances valid e d mid v p)
      rest (rw p.pending_eq (insert-Solvent (entry_key e) _ d.pending p.next_allowed s))

-- Post keeps every balance outside the treasury from going negative.
pub post-Solvent :
    (l l' : Ledger) (tx : Transaction)
    → AllInt64 l.balances
    → EntriesInt64 tx.entries
    → Solvent l.balances
    → post l tx ≡ ok l'
    → Solvent l'.balances
post-Solvent l l' tx hl he s eq =
    let p = post-parts l tx eq in
    rw p.balances_eq (
      commit-Solvent p.draft.pending l.balances
        (entries-Solvent l.balances hl tx.entries empty_draft p.draft he
          (record { distinct = tt; pending_int64 = tt; sums_int64 = tt }) p.entries_eq tt)
        s)

post_keeps_id :
    (l l' : Ledger) (tx : Transaction) (id : Text)
    → post l tx ≡ ok l'
    → text_in id l.transaction_ids ≡ true
    → text_in id l'.transaction_ids ≡ true
post_keeps_id l l' tx id eq h = let p = post-parts l tx eq in rw (p.ids_eq, h) (ground arith)

posts_keep_id :
    (txs : List Transaction) (l l' : Ledger) (id : Text)
    → post_all txs l ≡ ok l'
    → text_in id l.transaction_ids ≡ true
    → text_in id l'.transaction_ids ≡ true
unfolding post_all
posts_keep_id [] l l' id eq h = rw (← ok-injective eq) h
posts_keep_id (tx ∷ txs) l l' id eq h =
    let (mid, first, rest) = >>=-eq-ok (post l tx) (post_all txs) eq in
    posts_keep_id txs mid l' id rest (post_keeps_id l mid tx id first h)

-- Once Post has accepted a transaction, and after any further transactions, a well-formed one with
-- the same identifier is refused as a duplicate.
pub post_once :
    (l l' l'' : Ledger) (tx tx' : Transaction) (txs : List Transaction)
    → post l tx ≡ ok l'
    → post_all txs l' ≡ ok l''
    → tx'.id ≡ tx.id
    → is_empty tx'.id ≡ false
    → is_empty tx'.reference ≡ false
    → 2 ≤ length tx'.entries
    → post l'' tx' ≡ err duplicate_transaction
unfolding post
post_once l l' l'' tx tx' txs eq later same has_id has_ref two =
    let p = post-parts l tx eq in
    let first : text_in tx'.id l'.transaction_ids ≡ true =
      rw (p.ids_eq, same) (ground (arith, ==-refl tx.id)) in
    let kept = posts_keep_id txs l' l'' tx'.id later first in ground (arith, kept)

available_ne_held : (a : Text) → user_available a ≢ user_held a
unfolding user_available user_held
available_ne_held a e = omega (
  arith,
  ap length e,
  length-append {0} a (bytes ":available"),
  length-append {0} a (bytes ":held"),
)

neg64-pos : (n : ℕ) → n ≤ max_word → neg64 (pos n) ≡ pos 0 -ℤ pos n
unfolding neg64 ◌-ℤ◌
neg64-pos n h = wrap64-id (sub_ℕ (0 + 0) (0 + n)) (ground arith)

abbrev pub available_key : Text → Text → BalanceKey
available_key account asset = record { account = user_available account; asset = asset }

abbrev pub held_balance_key : Text → Text → BalanceKey
held_balance_key account asset = record { account = user_held account; asset = asset }

abbrev move_tx : Text → Text → Text → Text → Text → ℕ → Transaction
move_tx tx_id reference from to asset n = record {
  id = tx_id;
  reference = reference;
  entries = transfer_entries from to asset (pos n);
}

neg64-IsInt64 : (a : ℤ) → IsInt64 (neg64 a)
unfolding neg64
neg64-IsInt64 a = wrap64-IsInt64 (pos 0 -ℤ a)

-- What the two entries of a transfer add to a balance.
transfer_sum :
    (k : BalanceKey) (from to asset : Text) (n : ℕ)
    → n ≤ max_word
    → from ≢ to
    → (x : ℤ)
    → x +ℤ entry_sum k (transfer_entries from to asset (pos n)) ≡ (
        if record { account = from; asset = asset } == k
        then x -ℤ pos n
        else (if record { account = to; asset = asset } == k then x +ℤ pos n else x))
transfer_sum k from to asset n h ne x = elim (Bool-cases (from_key == k)) [
  | inl hit ↦ elim (Bool-cases (to_key == k)) [
    | inl both ↦ absurd (ne (same_account (==-eq from_key k hit) (==-eq to_key k both)))
    | inr miss ↦ rw (hit, miss, neg64-pos n h) (omega int_laws)
  ]
  | inr miss ↦ elim (Bool-cases (to_key == k)) [
    | inl hit ↦ rw (miss, hit) (omega int_laws)
    | inr none_hit ↦ rw (miss, none_hit) (omega int_laws)
  ]
]
  where
    from_key : BalanceKey
    from_key = record { account = from; asset = asset }

    to_key : BalanceKey
    to_key = record { account = to; asset = asset }

    same_account : from_key ≡ k → to_key ≡ k → from ≡ to
    same_account p q = cc

-- Hold moves the amount from the user's available to the held balance, and touches no other.
pub hold_effect :
    (l l' : Ledger) (tx_id reference account asset : Text) (n : ℕ) (k : BalanceKey)
    → AllInt64 l.balances
    → n ≤ max_word
    → hold l tx_id reference account asset (pos n) ≡ ok l'
    → lookup_or (pos 0) k l'.balances ≡ (
        if available_key account asset == k
        then lookup_or (pos 0) k l.balances -ℤ pos n
        else (if held_balance_key account asset == k
            then lookup_or (pos 0) k l.balances +ℤ pos n
            else lookup_or (pos 0) k l.balances))
unfolding hold move
hold_effect l l' tx_id reference account asset n k hl m eq =
    let (_, effect) =
      post_effect l l'
        (move_tx tx_id reference (user_available account) (user_held account) asset n) k hl
        (neg64-IsInt64 (pos n), ((m, omega arith), tt)) (ground arith) in
    effect
    ∙ transfer_sum k (user_available account) (user_held account) asset n m
        (available_ne_held account) (lookup_or (pos 0) k l.balances)

-- Release moves the amount from the user's held to the available balance, and touches no other.
pub release_effect :
    (l l' : Ledger) (tx_id reference account asset : Text) (n : ℕ) (k : BalanceKey)
    → AllInt64 l.balances
    → n ≤ max_word
    → release l tx_id reference account asset (pos n) ≡ ok l'
    → lookup_or (pos 0) k l'.balances ≡ (
        if held_balance_key account asset == k
        then lookup_or (pos 0) k l.balances -ℤ pos n
        else (if available_key account asset == k
            then lookup_or (pos 0) k l.balances +ℤ pos n
            else lookup_or (pos 0) k l.balances))
unfolding release move
release_effect l l' tx_id reference account asset n k hl m eq =
    let (_, effect) =
      post_effect l l'
        (move_tx tx_id reference (user_held account) (user_available account) asset n) k hl
        (neg64-IsInt64 (pos n), ((m, omega arith), tt)) (ground arith) in
    effect
    ∙ transfer_sum k (user_held account) (user_available account) asset n m
        (λ e. available_ne_held account (sym e)) (lookup_or (pos 0) k l.balances)
