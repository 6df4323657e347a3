-- ===== src/Ledger/Types.antt =====
-- The data of trading/ledger/ledger.go, its account names, and the sorting of balances.
use qiu_market.Prelude.{
  ◌≡◌, ◌↔◌, Bool, true, false, ◌&&◌, List, [], ◌∷◌, ◌++◌, arith, ltb, eqb, if◌then◌else◌, Eq, ◌==◌,
}
use qiu_market.Prelude.Int.{ℤ, int_eq, eqb_ℤ_iff}
use qiu_market.Prelude.Text.{Text, bytes, text_eq, text_beq_iff, has_prefix}
use qiu_market.Prelude.Dict.{Dict}

pub record Entry : Type 0 where
  pub account : Text
  pub asset : Text
  pub amount : ℤ

pub record Transaction : Type 0 where
  pub id : Text
  pub reference : Text
  pub entries : List Entry

pub record Balance : Type 0 where
  pub account : Text
  pub asset : Text
  pub amount : ℤ

pub record LedgerSnapshot : Type 0 where
  pub balances : List Balance
  pub journal : List Transaction

pub record BalanceKey : Type 0 where
  pub account : Text
  pub asset : Text

abbrev pub balance_key_beq : BalanceKey → BalanceKey → Bool
balance_key_beq a b = a.account == b.account && a.asset == b.asset

pub balance_key_beq_iff : (a b : BalanceKey) → (balance_key_beq a b ≡ true) ↔ (a ≡ b)
balance_key_beq_iff a b =
    ground (arith, text_beq_iff a.account b.account, text_beq_iff a.asset b.asset)

instance abbrev pub balance_key_eq : Eq BalanceKey
balance_key_eq = record { beq = balance_key_beq; beq_iff = balance_key_beq_iff }

abbrev pub balance_beq : Balance → Balance → Bool
balance_beq a b = a.account == b.account && a.asset == b.asset && a.amount == b.amount

pub balance_beq_iff : (a b : Balance) → (balance_beq a b ≡ true) ↔ (a ≡ b)
balance_beq_iff a b = ground (
  arith,
  text_beq_iff a.account b.account,
  text_beq_iff a.asset b.asset,
  eqb_ℤ_iff a.amount b.amount,
)

instance abbrev pub balance_eq : Eq Balance
balance_eq = record { beq = balance_beq; beq_iff = balance_beq_iff }

-- The set of transaction identifiers is a list.
pub record Ledger : Type 0 where
  pub balances : Dict BalanceKey ℤ
  pub journal : List Transaction
  pub transaction_ids : List Text

-- New
unfoldable pub new_ledger : Ledger
new_ledger = record { balances = []; journal = []; transaction_ids = [] }

unfoldable pub user_available : Text → Text
user_available account_id = bytes "user:" ++ account_id ++ bytes ":available"

unfoldable pub user_held : Text → Text
user_held account_id = bytes "user:" ++ account_id ++ bytes ":held"

unfoldable pub platform_fee : Text → Text
platform_fee asset = bytes "platform:fee:" ++ asset

unfoldable pub system_treasury : Text → Text
system_treasury asset = bytes "system:treasury:" ++ asset

-- isNegativeBalanceAllowed
unfoldable pub is_negative_balance_allowed : Text → Bool
is_negative_balance_allowed account = has_prefix account (bytes "system:treasury:")

-- Go's `<` on strings.
abbrev pub text_ltb : Text → Text → Bool
text_ltb a [] = false
text_ltb [] (y ∷ ys) = true
text_ltb (x ∷ xs) (y ∷ ys) = if eqb x y then text_ltb xs ys else ltb x y

-- sort.Slice, for a list whose elements differ in their order.
unfoldable pub insert_sorted {ℓ} : {A : Type ℓ} → (A → A → Bool) → A → List A → List A
insert_sorted less a [] = a ∷ []
insert_sorted less a (x ∷ xs) = if less x a then x ∷ insert_sorted less a xs else a ∷ x ∷ xs

unfoldable pub sort {ℓ} : {A : Type ℓ} → (A → A → Bool) → List A → List A
sort less [] = []
sort less (x ∷ xs) = insert_sorted less x (sort less xs)

-- The order of Balances: by account, then by asset.
abbrev pub balance_less : Balance → Balance → Bool
balance_less a b =
    if a.account == b.account then text_ltb a.asset b.asset else text_ltb a.account b.account
