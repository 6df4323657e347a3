-- ===== src/Exchange/Tests.antt =====
-- Runs of the exchange of trading/exchange with the store in memory: two accounts are funded, one
-- sells, the other buys.
use qiu_market.Exchange.Types.{
  new_state, append_event, remaining_quote_budget_for, sequence_id, reject_order,
  cancel_rejected_outcome,
}
use qiu_market.Exchange.Settle.{
  reserve_for, consume_order_hold, fill_id, desired_buy_hold, release_excess_buy_hold,
  trade_entries, roles_of, settle_fill,
}
use qiu_market.Exchange.Fills.{
  filled_maker, settle_maker_in_book, event_remainders, fill_events, apply_fill, apply_fills,
}
use qiu_market.Exchange.Closing.{
  should_rest, final_status, release_taker_hold, release_surplus, closing_event,
}
use qiu_market.Exchange.Submit.{
  order_of_request, entry_gate, accepted_event, self_trade_events, finish_submit, execute_order,
  place_order, apply_submit,
}
use qiu_market.Exchange.Commands.{
  apply_fund, canceled_event, cancel_open_order, apply_cancel, apply, payload_account,
  validate_command_identity,
}
use qiu_market.Exchange.Views.{
  aggregate_from, aggregate_levels, depth, trades_from, trades_of, filter_orders, orders_of, gather,
  known_orders, project_balance, project_balances, build_projection,
}
use qiu_market.Exchange.Validate.{
  check_book_orders, check_index, expected_hold, sum_holds, check_held_balances, check_ledger_holds,
  check_trades, check_requests, validate_state, clone_state, drop_closed_demo_orders,
  drop_demo_requests, compact_ephemeral_system_history, compact_for_schema,
}
use qiu_market.Exchange.Runner.{
  remember, run_trial, run_new, run_locked, fund_command, fund_account, submit_command, submit,
  cancel_command, cancel_by_request,
}
use qiu_market.Ledger.{
  new_ledger, platform_fee, system_treasury, is_negative_balance_allowed, insert_sorted, sort,
  current_balance, post_entry, post_entries, all_zero, commit, post, fund_virtual, move, hold,
  release, balance, balance_rows, balances_of, journal_from, ledger_snapshot, post_all,
  same_balances, validate_ledger, ledger_from_snapshot, group_by_asset, post_checkpoints, compact,
  user_available, user_held, user_balance,
}
use qiu_market.OrderBook.{
  crosses, insert_price, remove_price, remove_from_queue, new_book, may_not_rest, add, remove_level,
  remove, cancel, would_cross, update, scan_queue, scan_prices, can_fill_fok, front_order,
  best_opposing, executable_quantity, fill_maker, store_maker, fill_taker, after_fill, trade_with,
  match_round, match_loop, resting_quantity, match_order, side_orders, snapshot, add_all,
  slice_is_sorted, check_queue, check_prices, validate_book, from_snapshot, clone_book,
}
use qiu_market.Domain.{
  checked_add, checked_mul_div, checked_mul_div_floor, checked_mul, checked_mul_div_ceil,
  fee_amount, power_of_ten_loop, is_power_of_ten, validate_market, quote_amount_floor,
  quote_amount_ceil, affordable_quantity, validate_fund, validate_limit, validate_market_order,
  validate_order, validate_cancel, new_idempotency_key, validate_key, Side, key_eq,
}
use qiu_market.Prelude.Dict.{lookup, contains, lookup_or, insert, erase}
use qiu_market.Prelude.Int.{◌+ℤ◌, ◌-ℤ◌, wrap64, add64, sub64, neg64, rem64, ◌≤ℤ◌}
use qiu_market.Prelude.Text.{decimal, zero_padded, digits_value}
use qiu_market.Store.{memory_append, records_after, memory_save, memory_load}
use qiu_market.Prelude.{
  ◌≡◌, refl, arith, ◌∷◌, [], true, false, Bool, ◌&&◌, leb, All, Option, none, some, ◌+◌, ◌%◌, ◌==◌,
  if◌then◌else◌, and_split, ℕ, ◌||◌,
}
use qiu_market.Prelude.Int.{ℤ, pos, pos_part, neg_part, max_word, word_mod, IsInt64, leb_ℤ}
use qiu_market.Prelude.Text.{Text, bytes, text_eq}
use qiu_market.Prelude.Dict.{Dict}
use qiu_market.Prelude.Result.{Result, ok, err, idempotency_conflict}
use qiu_market.Domain.{
  default_btcusdt_market, buy, sell, limit, gtc, Outcome, Command, FundRequest, NewOrder, Order,
  no_status, is_open,
}
use qiu_market.Store.{memory_store, new_memory}
use qiu_market.Ledger.{BalanceKey}
use qiu_market.Ledger.Drafts.{AllInt64}
use qiu_market.Ledger.Moves.{Solvent}
use qiu_market.Ledger.Conservation.{asset_total}
use qiu_market.Exchange.Types.{State}
use qiu_market.Exchange.Runner.{Exchange, Payload}
use qiu_market.Exchange.Accounting.{apply_balances_books, CommandInt64, HeldInt64, held_each}
use qiu_market.Exchange.Idempotency.{run_locked_advances}
use qiu_market.Exchange.Retries.{run_locked_retried, one_more, no_more}

abbrev pub hash_of : State → Text
hash_of s = bytes "hash"

abbrev pub print_of : Payload → Text
print_of p = bytes "print"

abbrev pub X : Type 0
X = Exchange memory_store hash_of print_of

abbrev pub value_or {ℓ} : {A : Type ℓ} → A → Result A → A
value_or z (ok a) = a
value_or z (err e) = z

abbrev pub blank_state : State
blank_state = record {
  market = default_btcusdt_market;
  sequence = 0;
  book = record {
    market = default_btcusdt_market;
    bids = [];
    asks = [];
    bid_prices = [];
    ask_prices = [];
    orders = [];
  };
  ledger = record { balances = []; journal = []; transaction_ids = [] };
  orders = [];
  trades = [];
  requests = [];
}

abbrev pub blank_outcome : Outcome
blank_outcome = record { sequence = 0; order_id = []; status = no_status; events = [] }

abbrev funding : Text → Text → Text → ℤ → FundRequest
funding id account asset amount = record {
  request_id = id;
  account_id = account;
  asset = asset;
  amount = amount;
}

abbrev order : Text → Text → Side → ℤ → NewOrder
order id account side quantity = record {
  client_order_id = id;
  account_id = account;
  side = side;
  order_type = limit;
  time_in_force = gtc;
  price = pos 50_000_000_000;
  quantity = quantity;
  quote_budget = pos 0;
  post_only = false;
}

abbrev pub numbered : ℕ → Command → Command
numbered n c = record c { sequence = n }

unfoldable pub fund_alice : Command
fund_alice =
    fund_command memory_store hash_of print_of default_btcusdt_market
      (funding (bytes "f1") (bytes "alice") (bytes "USDT") (pos 1000_000_000))

unfoldable pub fund_bob : Command
fund_bob =
    fund_command memory_store hash_of print_of default_btcusdt_market
      (funding (bytes "f2") (bytes "bob") (bytes "BTC") (pos 100_000_000))

unfoldable pub bob_sells : Command
bob_sells =
    submit_command memory_store hash_of print_of default_btcusdt_market
      (order (bytes "s1") (bytes "bob") sell (pos 10_000))

unfoldable pub alice_buys : Command
alice_buys =
    submit_command memory_store hash_of print_of default_btcusdt_market
      (order (bytes "b1") (bytes "alice") buy (pos 20_000))

unfoldable bob_cancels : Command
bob_cancels = cancel_command memory_store hash_of print_of default_btcusdt_market (record {
  request_id = bytes "c1";
  account_id = bytes "bob";
  order_id = sequence_id (bytes "O-") 3;
})

unfoldable pub run : X → Command → X × Outcome
run x c = value_or (x, blank_outcome) (run_locked memory_store hash_of print_of false x c)

unfoldable pub opened : X
opened = record {
  log = new_memory;
  state = value_or blank_state (new_state default_btcusdt_market);
}

unfoldable pub after_alice : X × Outcome
after_alice = run opened fund_alice

unfoldable pub after_bob : X × Outcome
after_bob = run after_alice.0 fund_bob

unfoldable pub after_sale : X × Outcome
after_sale = run after_bob.0 bob_sells

unfoldable pub after_trade : X × Outcome
after_trade = run after_sale.0 alice_buys

unfoldable applied : State × Outcome
applied = value_or (blank_state, blank_outcome) (apply after_sale.0.state (numbered 4 alice_buys))

unfoldable canceled_sale : State × Outcome
canceled_sale =
    value_or (blank_state, blank_outcome) (apply_cancel after_sale.0.state (numbered 4 bob_cancels))

abbrev int64_test : ℤ → Bool
int64_test v = leb (pos_part v) max_word && leb (neg_part v) (max_word + 1)

value_by_test : (v : ℤ) → int64_test v ≡ true → IsInt64 v
value_by_test v h = ground arith

abbrev all_int64 : Dict BalanceKey ℤ → Bool
all_int64 [] = true
all_int64 ((k, v) ∷ d) = int64_test v && all_int64 d

balances_by_test : (d : Dict BalanceKey ℤ) → all_int64 d ≡ true → AllInt64 d
balances_by_test [] h = tt
balances_by_test ((k, v) ∷ d) h =
    let (a, b) = and_split (int64_test v) (all_int64 d) h in
    (value_by_test v a, balances_by_test d b)

abbrev pub all_held : Dict Text Order → Bool
all_held [] = true
all_held ((k, o) ∷ d) = int64_test o.held_amount && all_held d

pub holds_by_test :
    (d : Dict Text Order)
    → all_held d ≡ true
    → All (λ (p : Text × Order). IsInt64 p.1.held_amount) d
holds_by_test [] h = tt
holds_by_test ((k, o) ∷ d) h =
    let (a, b) = and_split (int64_test o.held_amount) (all_held d) h in
    (value_by_test o.held_amount a, holds_by_test d b)

abbrev small_own : Text → Order → Bool
small_own k o = o.id == k && leb (pos_part o.remaining_quantity) max_word

abbrev index_test : Dict Text Order → Bool
index_test [] = true
index_test ((k, o) ∷ d) = small_own k o && index_test d

abbrev solvent_test : Dict BalanceKey ℤ → Bool
solvent_test [] = true
solvent_test ((k, v) ∷ d) =
    (is_negative_balance_allowed k.account || leb_ℤ (pos 0) v) && solvent_test d

credit_by_test : (d : Dict BalanceKey ℤ) → solvent_test d ≡ true → Solvent d
credit_by_test [] h = tt
credit_by_test ((k, v) ∷ d) h =
    let (a, b) =
      and_split (is_negative_balance_allowed k.account || leb_ℤ (pos 0) v) (solvent_test d) h in
    (λ q. not_in_debt (is_negative_balance_allowed k.account) v a q, credit_by_test d b)
  where
    not_in_debt : (t : Bool) (v : ℤ) → (t || leb_ℤ (pos 0) v) ≡ true → t ≡ false → pos 0 ≤ℤ v
    not_in_debt true v h q = absurd (ground arith)
    not_in_debt false v h q = ground arith

abbrev pub is_ok {ℓ} : {A : Type ℓ} → Result A → Bool
is_ok (ok a) = true
is_ok (err e) = false

pub value_of_ok {ℓ} : {A : Type ℓ} (z : A) (r : Result A) → is_ok r ≡ true → r ≡ ok (value_or z r)
value_of_ok z (ok a) h = refl
value_of_ok z (err e) h = absurd (ground arith)

abbrev is_none {ℓ} : {A : Type ℓ} → Option A → Bool
is_none none = true
is_none (some a) = false

none_of_test {ℓ} : {A : Type ℓ} (o : Option A) → is_none o ≡ true → o ≡ none
none_of_test none h = refl
none_of_test (some a) h = absurd (ground arith)

-- What the run comes to, by computation.
computed :
    (is_ok (run_locked memory_store hash_of print_of false after_sale.0 alice_buys) ≡ true)
    × (is_none (lookup alice_buys.request_key after_sale.0.state.requests) ≡ true)
    × (validate_command_identity alice_buys ≡ ok tt)
    × (all_held after_sale.0.state.orders ≡ true)
    × (all_int64 after_sale.0.state.ledger.balances ≡ true)
    × (solvent_test after_sale.0.state.ledger.balances ≡ true)
    × (is_ok (apply after_sale.0.state (numbered 4 alice_buys)) ≡ true)
    × (is_ok (apply_cancel after_sale.0.state (numbered 4 bob_cancels)) ≡ true)
    × (index_test after_sale.0.state.book.orders ≡ true)
    × (is_ok (run_locked memory_store hash_of print_of false after_bob.0 bob_sells) ≡ true)
    × (all_held after_bob.0.state.orders ≡ true)
    × (validate_command_identity bob_sells ≡ ok tt)
unfolding bob_cancels after_sale after_bob after_alice opened run alice_buys bob_sells fund_bob
    fund_alice new_state append_event remaining_quote_budget_for sequence_id reject_order
    cancel_rejected_outcome reserve_for consume_order_hold fill_id desired_buy_hold
    release_excess_buy_hold trade_entries roles_of settle_fill filled_maker settle_maker_in_book
    event_remainders fill_events apply_fill apply_fills should_rest final_status release_taker_hold
    release_surplus closing_event order_of_request entry_gate accepted_event self_trade_events
    finish_submit execute_order place_order apply_submit apply_fund canceled_event cancel_open_order
    apply_cancel apply payload_account validate_command_identity aggregate_from aggregate_levels
    depth trades_from trades_of filter_orders orders_of gather known_orders project_balance
    project_balances build_projection check_book_orders check_index expected_hold sum_holds
    check_held_balances check_ledger_holds check_trades check_requests validate_state clone_state
    drop_closed_demo_orders drop_demo_requests compact_ephemeral_system_history compact_for_schema
    remember run_trial run_new run_locked fund_command fund_account submit_command submit
    cancel_command cancel_by_request new_ledger platform_fee system_treasury
    is_negative_balance_allowed insert_sorted sort current_balance post_entry post_entries all_zero
    commit post fund_virtual move hold release balance balance_rows balances_of journal_from
    ledger_snapshot post_all same_balances validate_ledger ledger_from_snapshot group_by_asset
    post_checkpoints compact crosses insert_price remove_price remove_from_queue new_book
    may_not_rest add remove_level remove cancel would_cross update scan_queue scan_prices
    can_fill_fok front_order best_opposing executable_quantity fill_maker store_maker fill_taker
    after_fill trade_with match_round match_loop resting_quantity match_order side_orders snapshot
    add_all slice_is_sorted check_queue check_prices validate_book from_snapshot clone_book
    checked_add checked_mul_div checked_mul_div_floor checked_mul checked_mul_div_ceil fee_amount
    power_of_ten_loop is_power_of_ten validate_market quote_amount_floor quote_amount_ceil
    affordable_quantity validate_fund validate_limit validate_market_order validate_order
    validate_cancel new_idempotency_key validate_key lookup contains lookup_or insert erase ◌+ℤ◌
    ◌-ℤ◌ wrap64 add64 sub64 neg64 rem64 decimal zero_padded digits_value memory_append records_after
    memory_save memory_load user_available user_held user_balance is_open
computed = (refl, refl, refl, refl, refl, refl, refl, refl, refl, refl, refl, refl)

pub trade_ran :
    run_locked memory_store hash_of print_of false after_sale.0 alice_buys
    ≡ ok (after_trade.0, after_trade.1)
unfolding after_trade run
trade_ran = value_of_ok (after_sale.0, blank_outcome) _ computed.0

trade_applied : apply after_sale.0.state (numbered 4 alice_buys) ≡ ok (applied.0, applied.1)
unfolding applied
trade_applied = value_of_ok (blank_state, blank_outcome) _ computed.6

pub buys_int64 : CommandInt64 alice_buys
unfolding alice_buys submit_command
buys_int64 = (λ r e. absurd (ground arith), λ r e. (ground arith, ground arith))

pub held_int64 : HeldInt64 after_sale.0.state.orders
held_int64 = held_each _ (holds_by_test _ computed.3)

sale_ran :
    run_locked memory_store hash_of print_of false after_bob.0 bob_sells
    ≡ ok (after_sale.0, after_sale.1)
unfolding after_sale run
sale_ran = value_of_ok (after_bob.0, blank_outcome) _ computed.9

sale_int64 : CommandInt64 bob_sells
unfolding bob_sells submit_command
sale_int64 = (λ r e. absurd (ground arith), λ r e. (ground arith, ground arith))

before_sale_int64 : HeldInt64 after_bob.0.state.orders
before_sale_int64 = held_each _ (holds_by_test _ computed.10)

run_locked_retried_example :
    run_locked memory_store hash_of print_of false after_trade.0 bob_sells ≡ (
      if bob_sells.fingerprint == bob_sells.fingerprint
      then ok (after_trade.0, after_sale.1)
      else err idempotency_conflict)
unfolding bob_sells submit_command new_idempotency_key
run_locked_retried_example =
    run_locked_retried memory_store hash_of print_of after_bob.0 after_sale.0 after_trade.0
      bob_sells bob_sells after_sale.1 sale_int64 before_sale_int64 refl sale_ran
      (one_more after_sale.0 alice_buys after_trade.1 buys_int64 held_int64 trade_ran no_more) refl
      computed.11

run_locked_advances_example :
    (after_trade.0.state.sequence ≡ (after_sale.0.state.sequence + 1) % word_mod)
    × (after_trade.0.state.market ≡ after_sale.0.state.market)
    × (false ≡ false)
run_locked_advances_example =
    run_locked_advances memory_store hash_of print_of false after_sale.0 after_trade.0 alice_buys
      after_trade.1 buys_int64 held_int64 (none_of_test _ computed.1) trade_ran

apply_balances_books_example :
    (asset_total (bytes "USDT") applied.0.ledger.balances
      ≡ asset_total (bytes "USDT") after_sale.0.state.ledger.balances)
    × Solvent applied.0.ledger.balances
    × AllInt64 applied.0.ledger.balances
apply_balances_books_example =
    apply_balances_books after_sale.0.state applied.0 (numbered 4 alice_buys) applied.1
      (bytes "USDT") buys_int64 held_int64 (balances_by_test _ computed.4)
      (credit_by_test _ computed.5) trade_applied
