-- ===== src/Ledger/Tests.antt =====
-- The laws of trading/ledger/ledger.go on a ledger with one funded account.
use qiu_market.Ledger.Restore.{post_all}
use qiu_market.Domain.{checked_add}
use qiu_market.Prelude.{◌≡◌, refl, arith, [], ◌∷◌, if◌then◌else◌, ◌==◌}
use qiu_market.Prelude.Int.{ℤ, pos, negsuc, ◌+ℤ◌, ◌-ℤ◌, add64, sub64, wrap64, neg64}
use qiu_market.Prelude.Text.{Text, bytes, text_eq}
use qiu_market.Prelude.Dict.{lookup, insert, lookup_or, insert, lookup}
use qiu_market.Prelude.Result.{ok, err, duplicate_transaction}
use qiu_market.Ledger.Types.{
  is_negative_balance_allowed, Ledger, Transaction, Entry, BalanceKey, user_available, user_held,
  balance_key_eq, new_ledger, is_negative_balance_allowed,
}
use qiu_market.Ledger.Ops.{
  post, hold, release, post_entries, post_entry, commit, all_zero, current_balance, move,
}
use qiu_market.Ledger.Conservation.{post_conserves, asset_total}
use qiu_market.Ledger.Effect.{post_effect}
use qiu_market.Ledger.Drafts.{AllInt64, EntriesInt64, entry_sum}
use qiu_market.Ledger.Moves.{
  available_key, held_balance_key, post-Solvent, Solvent, post_once, hold_effect, release_effect,
}

abbrev btc : Text
btc = bytes "BTC"

abbrev entry_of : Text → ℤ → Entry
entry_of account amount = record { account = account; asset = btc; amount = amount }

abbrev treasury : Text
treasury = bytes "system:treasury:BTC"

abbrev available : Text
available = bytes "user:bob:available"

abbrev on_hold : Text
on_hold = bytes "user:bob:held"

abbrev funding : Transaction
funding = record {
  id = bytes "fund:1";
  reference = bytes "virtual-funding:f1";
  entries = entry_of treasury (negsuc 99) ∷ entry_of available (pos 100) ∷ [];
}

abbrev moving : Text → ℤ → ℤ → Transaction
moving id first second = record {
  id = id;
  reference = bytes "ref";
  entries = entry_of available first ∷ entry_of on_hold second ∷ [];
}

abbrev key_of : Text → BalanceKey
key_of account = record { account = account; asset = btc }

abbrev funded : Ledger
funded = record {
  balances = (key_of treasury, negsuc 99) ∷ (key_of available, pos 100) ∷ [];
  transaction_ids = bytes "fund:1" ∷ [];
  journal = funding ∷ [];
}

abbrev held : Ledger
held = record {
  balances =
      (key_of treasury, negsuc 99) ∷ (key_of available, pos 70) ∷ (key_of on_hold, pos 30) ∷ [];
  transaction_ids = bytes "hold:2" ∷ bytes "fund:1" ∷ [];
  journal = funding ∷ moving (bytes "hold:2") (negsuc 29) (pos 30) ∷ [];
}

abbrev released : Ledger
released = record {
  balances =
      (key_of treasury, negsuc 99) ∷ (key_of available, pos 80) ∷ (key_of on_hold, pos 20) ∷ [];
  transaction_ids = bytes "release:3" ∷ bytes "hold:2" ∷ bytes "fund:1" ∷ [];
  journal =
      funding
      ∷ moving (bytes "hold:2") (negsuc 29) (pos 30)
      ∷ record {
        id = bytes "release:3";
        reference = bytes "ref";
        entries = entry_of on_hold (negsuc 9) ∷ entry_of available (pos 10) ∷ [];
      }
      ∷ [];
}

funded_is_posted : post new_ledger funding ≡ ok funded
unfolding new_ledger post post_entries post_entry commit all_zero insert lookup_or lookup
    current_balance checked_add add64 sub64 wrap64 ◌+ℤ◌ ◌-ℤ◌ is_negative_balance_allowed
funded_is_posted = refl

held_is_posted : post funded (moving (bytes "hold:2") (negsuc 29) (pos 30)) ≡ ok held
unfolding post post_entries post_entry commit all_zero insert lookup_or lookup current_balance
    checked_add add64 sub64 wrap64 ◌+ℤ◌ ◌-ℤ◌ is_negative_balance_allowed
held_is_posted = refl

int64_balances : AllInt64 funded.balances
int64_balances = ((omega arith, omega arith), ((omega arith, omega arith), tt))

int64_entries : EntriesInt64 ((moving (bytes "hold:2") (negsuc 29) (pos 30)).entries)
int64_entries = ((omega arith, omega arith), ((omega arith, omega arith), tt))

post_conserves_example : asset_total btc held.balances ≡ asset_total btc funded.balances
post_conserves_example =
    post_conserves funded held (moving (bytes "hold:2") (negsuc 29) (pos 30)) btc int64_balances
      int64_entries held_is_posted

post_effect_example :
    AllInt64 held.balances
    × (lookup_or (pos 0) (key_of on_hold) held.balances
        ≡ lookup_or (pos 0) (key_of on_hold) funded.balances
          +ℤ entry_sum (key_of on_hold) ((moving (bytes "hold:2") (negsuc 29) (pos 30)).entries))
post_effect_example =
    post_effect funded held (moving (bytes "hold:2") (negsuc 29) (pos 30)) (key_of on_hold)
      int64_balances int64_entries held_is_posted

funded_credit : Solvent funded.balances
unfolding is_negative_balance_allowed
funded_credit = (λ h. absurd (ground arith), (λ h. omega arith, tt))

post-Solvent_example : Solvent held.balances
post-Solvent_example =
    post-Solvent funded held (moving (bytes "hold:2") (negsuc 29) (pos 30)) int64_balances
      int64_entries funded_credit held_is_posted

post_once_example :
    post held (moving (bytes "fund:1") (negsuc 4) (pos 5)) ≡ err duplicate_transaction
unfolding post_all
post_once_example =
    post_once new_ledger funded held funding (moving (bytes "fund:1") (negsuc 4) (pos 5))
      (moving (bytes "hold:2") (negsuc 29) (pos 30) ∷ []) funded_is_posted (rw held_is_posted refl)
      refl refl refl (omega arith)

hold_effect_example : lookup_or (pos 0) (key_of available) held.balances ≡ (
    if available_key (bytes "bob") btc == key_of available
    then lookup_or (pos 0) (key_of available) funded.balances -ℤ pos 30
    else (if held_balance_key (bytes "bob") btc == key_of available
        then lookup_or (pos 0) (key_of available) funded.balances +ℤ pos 30
        else lookup_or (pos 0) (key_of available) funded.balances))
unfolding hold move user_available user_held neg64 post post_entries post_entry commit all_zero
    insert lookup_or lookup current_balance checked_add add64 sub64 wrap64 ◌+ℤ◌ ◌-ℤ◌
    is_negative_balance_allowed
hold_effect_example =
    hold_effect funded held (bytes "hold:2") (bytes "ref") (bytes "bob") btc 30 (key_of available)
      int64_balances (omega arith) refl

held_int64 : AllInt64 held.balances
held_int64 =
    ((omega arith, omega arith), ((omega arith, omega arith), ((omega arith, omega arith), tt)))

release_effect_example : lookup_or (pos 0) (key_of on_hold) released.balances ≡ (
    if held_balance_key (bytes "bob") btc == key_of on_hold
    then lookup_or (pos 0) (key_of on_hold) held.balances -ℤ pos 10
    else (if available_key (bytes "bob") btc == key_of on_hold
        then lookup_or (pos 0) (key_of on_hold) held.balances +ℤ pos 10
        else lookup_or (pos 0) (key_of on_hold) held.balances))
unfolding release move user_available user_held neg64 post post_entries post_entry commit all_zero
    insert lookup_or lookup current_balance checked_add add64 sub64 wrap64 ◌+ℤ◌ ◌-ℤ◌
    is_negative_balance_allowed
release_effect_example =
    release_effect held released (bytes "release:3") (bytes "ref") (bytes "bob") btc 10
      (key_of on_hold) held_int64 (omega arith) refl
