-- ===== src/Ledger/Conservation.antt =====
-- Post of trading/ledger/ledger.go and the total of each asset over all accounts.
use qiu_market.Prelude.Result.{ok, ok-injective, >>=-eq-ok}
use qiu_market.Ledger.Drafts.{
  Distinct, AllInt64, EntriesInt64, DraftValid, Posted, post_entries-effect, post_entry-Posted,
  post_entry-DraftValid,
}
use qiu_market.Ledger.Ops.{
  commit, current_balance, all_zero, Draft, post_entries, post, entry_key, post_entry,
}
use qiu_market.Prelude.Dict.{insert, lookup, Dict, lookup_or, lookup_or-insert}
use qiu_market.Prelude.Int.{ℤ, pos, ◌+ℤ◌, int_laws, ◌-ℤ◌, pos_part, neg_part, eqb_ℤ_iff, +ℤ-zero}
use qiu_market.Prelude.Text.{Text, text_eq}
use qiu_market.Prelude.{
  true, false, [], ◌∷◌, ◌≡◌, refl, Bool, if◌then◌else◌, none, ◌==◌, arith, Bool-cases, ap, ◌∙◌, inl,
  ==-eq, inr, List,
}
use qiu_market.Ledger.Effect.{post-parts, empty_draft}
use qiu_market.Ledger.Types.{
  Ledger, BalanceKey, balance_key_eq, balance_key_beq_iff, Transaction, Entry,
}

-- The sum of all balances of an asset.
abbrev pub asset_total : Text → Dict BalanceKey ℤ → ℤ
asset_total a [] = pos 0
asset_total a ((k, v) ∷ d) = if k.asset == a then v +ℤ asset_total a d else asset_total a d

abbrev only : Bool → ℤ → ℤ
only b v = if b then v else pos 0

keep_head :
    (c : Bool) (w t t' y z : ℤ)
    → t' +ℤ y ≡ t +ℤ z
    → (if c then w +ℤ t' else t') +ℤ y ≡ (if c then w +ℤ t else t) +ℤ z
keep_head true w t t' y z h = omega (int_laws, ap pos_part h, ap neg_part h)
keep_head false w t t' y z h = h

swap_head :
    (b : Bool) (v w t : ℤ)
    → (if b then v +ℤ t else t) +ℤ only b w ≡ (if b then w +ℤ t else t) +ℤ only b v
swap_head true v w t = omega int_laws
swap_head false v w t = refl

first_head :
    (b : Bool) (v : ℤ) → (if b then v +ℤ pos 0 else pos 0) +ℤ only b (pos 0) ≡ pos 0 +ℤ only b v
first_head true v = omega int_laws
first_head false v = refl

asset_total-insert :
    (a : Text) (k : BalanceKey) (v : ℤ) (d : Dict BalanceKey ℤ)
    → asset_total a (insert k v d) +ℤ only (k.asset == a) (lookup_or (pos 0) k d)
      ≡ asset_total a d +ℤ only (k.asset == a) v
unfolding insert lookup_or lookup
asset_total-insert a k v [] = first_head (k.asset == a) v
asset_total-insert a k v ((j, w) ∷ d) = elim (Bool-cases (j == k)) [
  | inl same ↦
      rw (same, lookup_or, lookup)
        (rw (==-eq j k same) (swap_head (k.asset == a) v w (asset_total a d)))
  | inr other ↦
      rw (other, lookup_or, lookup)
        (keep_head (j.asset == a) w (asset_total a d) (asset_total a (insert k v d)) _ _
          (asset_total-insert a k v d))
]

-- What committing a draft adds to the total of an asset.
abbrev draft_delta : Text → Dict BalanceKey ℤ → Dict BalanceKey ℤ → ℤ
draft_delta a balances [] = pos 0
draft_delta a balances ((k, v) ∷ p) =
    only (k.asset == a) (v -ℤ lookup_or (pos 0) k balances) +ℤ draft_delta a balances p

draft_delta-insert_base :
    (a : Text) (k : BalanceKey) (v : ℤ) (balances p : Dict BalanceKey ℤ)
    → lookup k p ≡ none
    → draft_delta a (insert k v balances) p ≡ draft_delta a balances p
unfolding lookup
draft_delta-insert_base a k v balances [] h = refl
draft_delta-insert_base a k v balances ((j, w) ∷ p) h = ground (
  arith,
  lookup_or-insert (pos 0) k j v balances,
  draft_delta-insert_base a k v balances p,
  balance_key_beq_iff j k,
  balance_key_beq_iff k j,
)

commit_head :
    (b : Bool) (t t' x v d : ℤ)
    → t' +ℤ only b x ≡ t +ℤ only b v
    → t' +ℤ d ≡ t +ℤ (only b (v -ℤ x) +ℤ d)
commit_head true t t' x v d h = omega (int_laws, ap pos_part h, ap neg_part h)
commit_head false t t' x v d h = omega (int_laws, ap pos_part h, ap neg_part h)

asset_total-commit :
    (a : Text) (p balances : Dict BalanceKey ℤ)
    → Distinct p
    → asset_total a (commit p balances) ≡ asset_total a balances +ℤ draft_delta a balances p
unfolding commit
asset_total-commit a [] balances h = omega int_laws
asset_total-commit a ((k, v) ∷ p) balances h =
    asset_total-commit a p (insert k v balances) h.1
    ∙ rw (draft_delta-insert_base a k v balances p h.0) (
        commit_head (k.asset == a) (asset_total a balances) (asset_total a (insert k v balances))
          (lookup_or (pos 0) k balances) v (draft_delta a balances p)
          (asset_total-insert a k v balances))

delta_first : (b : Bool) (v x : ℤ) → only b (v -ℤ x) +ℤ pos 0 +ℤ only b x ≡ pos 0 +ℤ only b v
delta_first true v x = omega int_laws
delta_first false v x = omega int_laws

delta_swap :
    (b : Bool) (v w x d : ℤ) → only b (v -ℤ x) +ℤ d +ℤ only b w ≡ only b (w -ℤ x) +ℤ d +ℤ only b v
delta_swap true v w x d = omega int_laws
delta_swap false v w x d = omega int_laws

keep_delta : (u d d' y z : ℤ) → d' +ℤ y ≡ d +ℤ z → u +ℤ d' +ℤ y ≡ u +ℤ d +ℤ z
keep_delta u d d' y z h = omega (int_laws, ap pos_part h, ap neg_part h)

draft_delta-insert :
    (a : Text) (k : BalanceKey) (v : ℤ) (balances p : Dict BalanceKey ℤ)
    → draft_delta a balances (insert k v p) +ℤ only (k.asset == a) (current_balance balances p k)
      ≡ draft_delta a balances p +ℤ only (k.asset == a) v
unfolding insert lookup current_balance
draft_delta-insert a k v balances [] = delta_first (k.asset == a) v (lookup_or (pos 0) k balances)
draft_delta-insert a k v balances ((j, w) ∷ p) = elim (Bool-cases (j == k)) [
  | inl same ↦
      rw (same, current_balance, lookup)
        (rw (==-eq j k same)
          (delta_swap (k.asset == a) v w (lookup_or (pos 0) k balances) (draft_delta a balances p)))
  | inr other ↦
      rw (other, current_balance, lookup)
        (keep_delta _ _ _ _ _ (draft_delta-insert a k v balances p))
]

-- The amounts of the entries in one asset.
abbrev pub asset_sum : Text → List Entry → ℤ
asset_sum a [] = pos 0
asset_sum a (e ∷ es) = only (e.asset == a) e.amount +ℤ asset_sum a es

zero_of_all_zero :
    (a : Text) (sums : Dict Text ℤ) → all_zero sums ≡ true → lookup_or (pos 0) a sums ≡ pos 0
unfolding all_zero lookup_or lookup
zero_of_all_zero a [] h = refl
zero_of_all_zero a ((b, v) ∷ sums) h = ground (arith, zero_of_all_zero a sums, eqb_ℤ_iff v (pos 0))

track_step :
    (b : Bool) (t' t c m x s : ℤ)
    → t' +ℤ only b c ≡ t +ℤ only b (c +ℤ m)
    → t ≡ s
    → (b ≡ true → s ≡ x)
    → t' ≡ (if b then x +ℤ m else s)
track_step true t' t c m x s h e same = omega (
  int_laws,
  ap pos_part h,
  ap neg_part h,
  ap pos_part (e ∙ same refl),
  ap neg_part (e ∙ same refl),
)
track_step false t' t c m x s h e same =
    omega (int_laws, ap pos_part h, ap neg_part h, ap pos_part e, ap neg_part e)

module _ (balances : Dict BalanceKey ℤ) (valid : AllInt64 balances) (a : Text) where
  -- Along the loop the draft adds to the total what the map of sums says.
  abbrev Tracks : Draft → Type 0
  Tracks d = draft_delta a balances d.pending ≡ lookup_or (pos 0) a d.sums

  entry-Tracks : (e : Entry) (d d' : Draft) → Posted balances valid e d d' → Tracks d → Tracks d'
  entry-Tracks e d d' p h =
      let amount =
        draft_delta-insert a (entry_key e)
          (current_balance balances d.pending (entry_key e) +ℤ e.amount) balances d.pending in
      rw
        (
          p.pending_eq,
          p.sums_eq,
          lookup_or-insert (pos 0) e.asset a (lookup_or (pos 0) e.asset d.sums +ℤ e.amount) d.sums,
        )
        (track_step (e.asset == a) _ _ _ _ _ _ amount h (λ q. rw (==-eq e.asset a q)))

  entries-Tracks :
      (es : List Entry) (d d' : Draft)
      → EntriesInt64 es
      → DraftValid balances valid d
      → post_entries balances es d ≡ ok d'
      → Tracks d
      → Tracks d'
  unfolding post_entries
  entries-Tracks [] d d' h v eq t = rw (← ok-injective eq) t
  entries-Tracks (e ∷ es) d d' h v eq t =
      let (mid, first, rest) = >>=-eq-ok (post_entry balances e d) (post_entries balances es) eq in
      let p = post_entry-Posted balances valid e d mid h.0 v first in
      entries-Tracks es mid d' h.1 (post_entry-DraftValid balances valid e d mid v p) rest
        (entry-Tracks e d mid p t)

-- Double entry: a transaction that Post accepts leaves the total of every asset as it was.
pub post_conserves :
    (l l' : Ledger) (tx : Transaction) (a : Text)
    → AllInt64 l.balances
    → EntriesInt64 tx.entries
    → post l tx ≡ ok l'
    → asset_total a l'.balances ≡ asset_total a l.balances
unfolding lookup_or lookup
post_conserves l l' tx a hl he eq =
    let p = post-parts l tx eq in
    let (v, _) =
      post_entries-effect l.balances hl (record { account = []; asset = a }) tx.entries empty_draft
        p.draft he (record { distinct = tt; pending_int64 = tt; sums_int64 = tt }) p.entries_eq in
    let delta =
      entries-Tracks l.balances hl a tx.entries empty_draft p.draft he
        (record { distinct = tt; pending_int64 = tt; sums_int64 = tt }) p.entries_eq empty_tracks in
    rw
      (
        p.balances_eq,
        asset_total-commit a p.draft.pending l.balances v.distinct,
        delta,
        zero_of_all_zero a p.draft.sums p.zero_eq,
      )
      (+ℤ-zero (asset_total a l.balances))
  where
    empty_tracks : pos 0 ≡ lookup_or (pos 0) a []
    empty_tracks = refl
