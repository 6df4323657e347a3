-- ===== src/OrderBook/Index.antt =====
-- The order index of trading/orderbook/orderbook.go: the quantity it holds, and its keys.
use qiu_market.OrderBook.Match.{resting_quantity}
use qiu_market.Domain.{Order}
use qiu_market.Prelude.Text.{Text, text_eq}
use qiu_market.Prelude.Dict.{Dict, erase, insert, lookup}
use qiu_market.Prelude.{[], ◌∷◌, ◌≡◌, arith, ◌+◌, ◌≤◌, some, Bool-cases, ◌==◌, inl, inr, ==-eq}
use qiu_market.Prelude.Int.{pos_part, max_word}

-- The order index keeps every order under its own identifier, and remainders are int64 values.
abbrev pub IsIndex : Dict Text Order → Type 0
IsIndex [] = Unit
IsIndex ((k, o) ∷ d) = (o.id ≡ k) × (pos_part o.remaining_quantity ≤ max_word) × IsIndex d

pub insert-IsIndex :
    (k : Text) (o : Order) (d : Dict Text Order)
    → o.id ≡ k
    → pos_part o.remaining_quantity ≤ max_word
    → IsIndex d
    → IsIndex (insert k o d)
unfolding insert
insert-IsIndex k o [] e b h = (e, b, tt)
insert-IsIndex k o ((j, p) ∷ d) e b h = elim (Bool-cases (j == k)) [
  | inl same ↦ rw same (e, b, h.2)
  | inr other ↦ rw other (h.0, h.1, insert-IsIndex k o d e b h.2)
]

pub erase-IsIndex : (k : Text) (d : Dict Text Order) → IsIndex d → IsIndex (erase k d)
unfolding erase
erase-IsIndex k [] h = tt
erase-IsIndex k ((j, p) ∷ d) h = elim (Bool-cases (j == k)) [
  | inl same ↦ rw same (erase-IsIndex k d h.2)
  | inr other ↦ rw other (h.0, h.1, erase-IsIndex k d h.2)
]

-- An order is found under its own identifier.
pub lookup-own :
    (k : Text) (o : Order) (d : Dict Text Order)
    → IsIndex d
    → lookup k d ≡ some o
    → (o.id ≡ k) × (pos_part o.remaining_quantity ≤ max_word)
unfolding lookup
lookup-own k o [] h e = cc
lookup-own k o ((j, p) ∷ d) h e = elim (Bool-cases (j == k)) [
  | inl same ↦
      (let q : some p ≡ some o = rw same at e in
        let name = ==-eq j k same in let own = h.0 in let bound = h.1 in (cc, ground arith))
  | inr other ↦ lookup-own k o d h.2 (rw other at e)
]

-- The weight of an order that replaces another one.
pub resting-insert :
    (k : Text) (o o' : Order) (d : Dict Text Order)
    → lookup k d ≡ some o
    → resting_quantity (insert k o' d) + pos_part o.remaining_quantity
      ≡ resting_quantity d + pos_part o'.remaining_quantity
unfolding lookup insert resting_quantity
resting-insert k o o' [] e = cc
resting-insert k o o' ((j, p) ∷ d) e = elim (Bool-cases (j == k)) [
  | inl same ↦ (let q : some p ≡ some o = rw same at e in rw same (ground arith))
  | inr other ↦ rw other (omega (arith, resting-insert k o o' d (rw other at e)))
]

resting-erase-le :
    (k : Text) (d : Dict Text Order) → resting_quantity (erase k d) ≤ resting_quantity d
unfolding erase resting_quantity
resting-erase-le k [] = omega arith
resting-erase-le k ((j, p) ∷ d) = elim (Bool-cases (j == k)) [
  | inl same ↦ rw same (omega (arith, resting-erase-le k d))
  | inr other ↦ rw other (omega (arith, resting-erase-le k d))
]

pub resting-erase :
    (k : Text) (o : Order) (d : Dict Text Order)
    → lookup k d ≡ some o
    → resting_quantity (erase k d) + pos_part o.remaining_quantity ≤ resting_quantity d
unfolding lookup erase resting_quantity
resting-erase k o [] e = cc
resting-erase k o ((j, p) ∷ d) e = elim (Bool-cases (j == k)) [
  | inl same ↦
      (let q : some p ≡ some o = rw same at e in
        let rest = resting-erase-le k d in rw same (ground arith))
  | inr other ↦ rw other (omega (arith, resting-erase k o d (rw other at e)))
]
