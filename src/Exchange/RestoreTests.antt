-- ===== src/Exchange/RestoreTests.antt =====
-- Restore of trading/exchange/exchange.go on the log of a run of four commands.
use qiu_market.Exchange.Verified.{restore_verifies}
use qiu_market.Exchange.Types.{
  new_state, append_event, remaining_quote_budget_for, sequence_id, reject_order,
  cancel_rejected_outcome,
}
use qiu_market.Exchange.Settle.{
  reserve_for, consume_order_hold, fill_id, desired_buy_hold, release_excess_buy_hold,
  trade_entries, roles_of, settle_fill,
}
use qiu_market.Exchange.Fills.{
  filled_maker, settle_maker_in_book, event_remainders, fill_events, apply_fill, apply_fills,
}
use qiu_market.Exchange.Closing.{
  should_rest, final_status, release_taker_hold, release_surplus, closing_event,
}
use qiu_market.Exchange.Submit.{
  order_of_request, entry_gate, accepted_event, self_trade_events, finish_submit, execute_order,
  place_order, apply_submit,
}
use qiu_market.Exchange.Commands.{
  apply_fund, canceled_event, cancel_open_order, apply_cancel, apply, payload_account,
  validate_command_identity,
}
use qiu_market.Exchange.Views.{
  aggregate_from, aggregate_levels, depth, trades_from, trades_of, filter_orders, orders_of, gather,
  known_orders, project_balance, project_balances, build_projection,
}
use qiu_market.Exchange.Validate.{
  check_book_orders, check_index, expected_hold, sum_holds, check_held_balances, check_ledger_holds,
  check_trades, check_requests, validate_state, clone_state, drop_closed_demo_orders,
  drop_demo_requests, compact_ephemeral_system_history, compact_for_schema,
}
use qiu_market.Exchange.Runner.{
  remember, run_trial, run_new, run_locked, fund_command, fund_account, submit_command, submit,
  cancel_command, cancel_by_request,
}
use qiu_market.Ledger.{
  new_ledger, platform_fee, system_treasury, is_negative_balance_allowed, insert_sorted, sort,
  current_balance, post_entry, post_entries, all_zero, commit, post, fund_virtual, move, hold,
  release, balance, balance_rows, balances_of, journal_from, ledger_snapshot, post_all,
  same_balances, validate_ledger, ledger_from_snapshot, group_by_asset, post_checkpoints, compact,
  user_available, user_held, user_balance,
}
use qiu_market.OrderBook.{
  crosses, insert_price, remove_price, remove_from_queue, new_book, may_not_rest, add, remove_level,
  remove, cancel, would_cross, update, scan_queue, scan_prices, can_fill_fok, front_order,
  best_opposing, executable_quantity, fill_maker, store_maker, fill_taker, after_fill, trade_with,
  match_round, match_loop, resting_quantity, match_order, side_orders, snapshot, add_all,
  slice_is_sorted, check_queue, check_prices, validate_book, from_snapshot, clone_book,
}
use qiu_market.Domain.{
  checked_add, checked_mul_div, checked_mul_div_floor, checked_mul, checked_mul_div_ceil,
  fee_amount, power_of_ten_loop, is_power_of_ten, validate_market, quote_amount_floor,
  quote_amount_ceil, affordable_quantity, validate_fund, validate_limit, validate_market_order,
  validate_order, validate_cancel, new_idempotency_key, validate_key, key_eq,
  default_btcusdt_market, Order, is_open,
}
use qiu_market.Prelude.Dict.{lookup, contains, lookup_or, insert, erase, Dict}
use qiu_market.Prelude.Int.{◌+ℤ◌, ◌-ℤ◌, wrap64, add64, sub64, neg64, rem64}
use qiu_market.Prelude.Text.{decimal, zero_padded, digits_value, Text, text_eq, is_empty}
use qiu_market.Store.{
  memory_append, records_after, memory_save, memory_load, memory_store, new_memory, memory_shelf,
  memory_laws, EventRecord, records_after_all,
}
use qiu_market.Prelude.{
  ◌≡◌, refl, arith, [], true, false, List, length, ◌==◌, nat_eq, ◌++◌, ◌∙◌, ◌∷◌, ap, ==-eq,
}
use qiu_market.Prelude.Result.{ok, err, internal}
use qiu_market.Exchange.Accounting.{CommandInt64, HeldInt64, held_each}
use qiu_market.Exchange.Restore.{restore, starting_state}
use qiu_market.Exchange.Recovered.{begins, goes_on, Runs, restore_replays}
use qiu_market.Exchange.Tests.{
  X, after_alice, after_bob, after_sale, bob_sells, fund_alice, fund_bob, opened, after_trade,
  alice_buys, run, hash_of, all_held, print_of, value_of_ok, blank_outcome, holds_by_test, is_ok,
  buys_int64, value_or, blank_state, held_int64, trade_ran,
}

hold_all : (d : Dict Text Order) → all_held d ≡ true → HeldInt64 d
hold_all d h = held_each d (holds_by_test d h)

abbrev Ran : X → Type 0
Ran = Runs memory_store hash_of print_of memory_laws default_btcusdt_market

-- What the run comes to, by computation.
computed_run :
    (is_ok (run_locked memory_store hash_of print_of false opened fund_alice) ≡ true)
    × (is_ok (run_locked memory_store hash_of print_of false after_alice.0 fund_bob) ≡ true)
    × (is_ok (run_locked memory_store hash_of print_of false after_bob.0 bob_sells) ≡ true)
    × (all_held opened.state.orders ≡ true)
    × (all_held after_alice.0.state.orders ≡ true)
    × (all_held after_bob.0.state.orders ≡ true)
    × (is_ok (new_state default_btcusdt_market) ≡ true)
unfolding after_sale after_bob after_alice opened run alice_buys bob_sells fund_bob fund_alice
    new_state append_event remaining_quote_budget_for sequence_id reject_order
    cancel_rejected_outcome reserve_for consume_order_hold fill_id desired_buy_hold
    release_excess_buy_hold trade_entries roles_of settle_fill filled_maker settle_maker_in_book
    event_remainders fill_events apply_fill apply_fills should_rest final_status release_taker_hold
    release_surplus closing_event order_of_request entry_gate accepted_event self_trade_events
    finish_submit execute_order place_order apply_submit apply_fund canceled_event cancel_open_order
    apply_cancel apply payload_account validate_command_identity aggregate_from aggregate_levels
    depth trades_from trades_of filter_orders orders_of gather known_orders project_balance
    project_balances build_projection check_book_orders check_index expected_hold sum_holds
    check_held_balances check_ledger_holds check_trades check_requests validate_state clone_state
    drop_closed_demo_orders drop_demo_requests compact_ephemeral_system_history compact_for_schema
    remember run_trial run_new run_locked fund_command fund_account submit_command submit
    cancel_command cancel_by_request new_ledger platform_fee system_treasury
    is_negative_balance_allowed insert_sorted sort current_balance post_entry post_entries all_zero
    commit post fund_virtual move hold release balance balance_rows balances_of journal_from
    ledger_snapshot post_all same_balances validate_ledger ledger_from_snapshot group_by_asset
    post_checkpoints compact crosses insert_price remove_price remove_from_queue new_book
    may_not_rest add remove_level remove cancel would_cross update scan_queue scan_prices
    can_fill_fok front_order best_opposing executable_quantity fill_maker store_maker fill_taker
    after_fill trade_with match_round match_loop resting_quantity match_order side_orders snapshot
    add_all slice_is_sorted check_queue check_prices validate_book from_snapshot clone_book
    checked_add checked_mul_div checked_mul_div_floor checked_mul checked_mul_div_ceil fee_amount
    power_of_ten_loop is_power_of_ten validate_market quote_amount_floor quote_amount_ceil
    affordable_quantity validate_fund validate_limit validate_market_order validate_order
    validate_cancel new_idempotency_key validate_key lookup contains lookup_or insert erase ◌+ℤ◌
    ◌-ℤ◌ wrap64 add64 sub64 neg64 rem64 decimal zero_padded digits_value memory_append records_after
    memory_save memory_load user_available user_held user_balance is_open
computed_run = (refl, refl, refl, refl, refl, refl, refl)

alice_ran :
    run_locked memory_store hash_of print_of false opened fund_alice
    ≡ ok (after_alice.0, after_alice.1)
unfolding after_alice run
alice_ran = value_of_ok (opened, blank_outcome) _ computed_run.0

bob_ran :
    run_locked memory_store hash_of print_of false after_alice.0 fund_bob
    ≡ ok (after_bob.0, after_bob.1)
unfolding after_bob run
bob_ran = value_of_ok (after_alice.0, blank_outcome) _ computed_run.1

sale_ran :
    run_locked memory_store hash_of print_of false after_bob.0 bob_sells
    ≡ ok (after_sale.0, after_sale.1)
unfolding after_sale run
sale_ran = value_of_ok (after_bob.0, blank_outcome) _ computed_run.2

alice_int64 : CommandInt64 fund_alice
unfolding fund_alice fund_command
alice_int64 = (λ r e. ground arith, λ r e. absurd (ground arith))

bob_int64 : CommandInt64 fund_bob
unfolding fund_bob fund_command
bob_int64 = (λ r e. ground arith, λ r e. absurd (ground arith))

sells_int64 : CommandInt64 bob_sells
unfolding bob_sells submit_command
sells_int64 = (λ r e. absurd (ground arith), λ r e. (ground arith, ground arith))

printed :
    (is_empty fund_alice.fingerprint ≡ false)
    × (is_empty fund_bob.fingerprint ≡ false)
    × (is_empty bob_sells.fingerprint ≡ false)
    × (is_empty alice_buys.fingerprint ≡ false)
unfolding fund_alice fund_bob bob_sells alice_buys fund_command submit_command
printed = (refl, refl, refl, refl)

began : Ran opened
unfolding opened
began =
    begins {log = new_memory} {s = value_or blank_state (new_state default_btcusdt_market)}
      (value_of_ok blank_state _ computed_run.6) refl

traded : Ran after_trade.0
traded =
    goes_on after_sale.0 alice_buys after_trade.1 false
      (goes_on after_bob.0 bob_sells after_sale.1 false
        (goes_on after_alice.0 fund_bob after_bob.1 false
          (goes_on opened fund_alice after_alice.1 false began alice_int64
            (hold_all _ computed_run.3) printed.0 alice_ran)
          bob_int64 (hold_all _ computed_run.4) printed.1 bob_ran)
        sells_int64 (hold_all _ computed_run.5) printed.2 sale_ran)
      buys_int64 held_int64 printed.3 trade_ran

restore_replays_example :
    restore hash_of memory_store memory_shelf print_of
      (λ s. [])
      (λ t. err internal)
      default_btcusdt_market
      after_trade.0.log
      new_memory
    ≡ ok (after_trade.0, new_memory)
unfolding memory_load
restore_replays_example =
    restore_replays memory_store hash_of print_of memory_laws default_btcusdt_market memory_shelf
      (λ s. []) (λ t. err internal) after_trade.0 new_memory traded refl

unfoldable first_record : List EventRecord → EventRecord
first_record [] = record {
  schema_version = 0;
  market_id = [];
  command = fund_alice;
  result = blank_outcome;
  journal = [];
  projection = record { orders = []; trades = []; balances = [] };
  state_hash = [];
}
first_record (r ∷ rs) = r

only_first : (rs : List EventRecord) → (length rs == 1) ≡ true → rs ≡ [] ++ first_record rs ∷ []
unfolding first_record
only_first [] h = absurd (ground arith)
only_first (r ∷ []) h = refl
only_first (r ∷ q ∷ rs) h = absurd (ground arith)

-- What the log holds behind one command, by computation.
computed_log :
    ((length after_alice.0.log.records == 1) ≡ true)
    × (((first_record after_alice.0.log.records).schema_version == 5) ≡ true)
unfolding first_record after_sale after_bob after_alice opened run alice_buys bob_sells fund_bob
    fund_alice new_state append_event remaining_quote_budget_for sequence_id reject_order
    cancel_rejected_outcome reserve_for consume_order_hold fill_id desired_buy_hold
    release_excess_buy_hold trade_entries roles_of settle_fill filled_maker settle_maker_in_book
    event_remainders fill_events apply_fill apply_fills should_rest final_status release_taker_hold
    release_surplus closing_event order_of_request entry_gate accepted_event self_trade_events
    finish_submit execute_order place_order apply_submit apply_fund canceled_event cancel_open_order
    apply_cancel apply payload_account validate_command_identity aggregate_from aggregate_levels
    depth trades_from trades_of filter_orders orders_of gather known_orders project_balance
    project_balances build_projection check_book_orders check_index expected_hold sum_holds
    check_held_balances check_ledger_holds check_trades check_requests validate_state clone_state
    drop_closed_demo_orders drop_demo_requests compact_ephemeral_system_history compact_for_schema
    remember run_trial run_new run_locked fund_command fund_account submit_command submit
    cancel_command cancel_by_request new_ledger platform_fee system_treasury
    is_negative_balance_allowed insert_sorted sort current_balance post_entry post_entries all_zero
    commit post fund_virtual move hold release balance balance_rows balances_of journal_from
    ledger_snapshot post_all same_balances validate_ledger ledger_from_snapshot group_by_asset
    post_checkpoints compact crosses insert_price remove_price remove_from_queue new_book
    may_not_rest add remove_level remove cancel would_cross update scan_queue scan_prices
    can_fill_fok front_order best_opposing executable_quantity fill_maker store_maker fill_taker
    after_fill trade_with match_round match_loop resting_quantity match_order side_orders snapshot
    add_all slice_is_sorted check_queue check_prices validate_book from_snapshot clone_book
    checked_add checked_mul_div checked_mul_div_floor checked_mul checked_mul_div_ceil fee_amount
    power_of_ten_loop is_power_of_ten validate_market quote_amount_floor quote_amount_ceil
    affordable_quantity validate_fund validate_limit validate_market_order validate_order
    validate_cancel new_idempotency_key validate_key lookup contains lookup_or insert erase ◌+ℤ◌
    ◌-ℤ◌ wrap64 add64 sub64 neg64 rem64 decimal zero_padded digits_value memory_append records_after
    memory_save memory_load user_available user_held user_balance is_open
computed_log = (refl, refl)

alice_replayed : Ran after_alice.0
alice_replayed =
    goes_on opened fund_alice after_alice.1 false began alice_int64 (hold_all _ computed_run.3)
      printed.0 alice_ran

fresh_start :
    starting_state hash_of memory_store memory_shelf print_of
      (λ s. [])
      (λ t. err internal)
      default_btcusdt_market
      new_memory
    ≡ ok (value_or blank_state (new_state default_btcusdt_market), 0)
unfolding starting_state memory_load
fresh_start = rw (value_of_ok blank_state (new_state default_btcusdt_market) computed_run.6) refl

from_zero : (value_or blank_state (new_state default_btcusdt_market)).sequence ≡ 0
unfolding after_sale after_bob after_alice opened run alice_buys bob_sells fund_bob fund_alice
    new_state append_event remaining_quote_budget_for sequence_id reject_order
    cancel_rejected_outcome reserve_for consume_order_hold fill_id desired_buy_hold
    release_excess_buy_hold trade_entries roles_of settle_fill filled_maker settle_maker_in_book
    event_remainders fill_events apply_fill apply_fills should_rest final_status release_taker_hold
    release_surplus closing_event order_of_request entry_gate accepted_event self_trade_events
    finish_submit execute_order place_order apply_submit apply_fund canceled_event cancel_open_order
    apply_cancel apply payload_account validate_command_identity aggregate_from aggregate_levels
    depth trades_from trades_of filter_orders orders_of gather known_orders project_balance
    project_balances build_projection check_book_orders check_index expected_hold sum_holds
    check_held_balances check_ledger_holds check_trades check_requests validate_state clone_state
    drop_closed_demo_orders drop_demo_requests compact_ephemeral_system_history compact_for_schema
    remember run_trial run_new run_locked fund_command fund_account submit_command submit
    cancel_command cancel_by_request new_ledger platform_fee system_treasury
    is_negative_balance_allowed insert_sorted sort current_balance post_entry post_entries all_zero
    commit post fund_virtual move hold release balance balance_rows balances_of journal_from
    ledger_snapshot post_all same_balances validate_ledger ledger_from_snapshot group_by_asset
    post_checkpoints compact crosses insert_price remove_price remove_from_queue new_book
    may_not_rest add remove_level remove cancel would_cross update scan_queue scan_prices
    can_fill_fok front_order best_opposing executable_quantity fill_maker store_maker fill_taker
    after_fill trade_with match_round match_loop resting_quantity match_order side_orders snapshot
    add_all slice_is_sorted check_queue check_prices validate_book from_snapshot clone_book
    checked_add checked_mul_div checked_mul_div_floor checked_mul checked_mul_div_ceil fee_amount
    power_of_ten_loop is_power_of_ten validate_market quote_amount_floor quote_amount_ceil
    affordable_quantity validate_fund validate_limit validate_market_order validate_order
    validate_cancel new_idempotency_key validate_key lookup contains lookup_or insert erase ◌+ℤ◌
    ◌-ℤ◌ wrap64 add64 sub64 neg64 rem64 decimal zero_padded digits_value memory_append records_after
    memory_save memory_load user_available user_held user_balance is_open
from_zero = refl

restore_verifies_example :
    (hash_of after_alice.0.state ≡ (first_record after_alice.0.log.records).state_hash)
    × (validate_state after_alice.0.state ≡ ok tt)
unfolding memory_load
restore_verifies_example =
    restore_verifies hash_of memory_store memory_shelf print_of (λ s. []) (λ t. err internal)
      default_btcusdt_market after_alice.0.log [] (first_record after_alice.0.log.records)
      new_memory new_memory (value_or blank_state (new_state default_btcusdt_market), 0)
      after_alice.0 fresh_start
      (rw from_zero (records_after_all after_alice.0.log ∙ ap ok (only_first _ computed_log.0)))
      (==-eq _ _ computed_log.1)
      (restore_replays memory_store hash_of print_of memory_laws default_btcusdt_market memory_shelf
        (λ s. []) (λ t. err internal) after_alice.0 new_memory alice_replayed refl)
