-- ===== src/OrderBook/PriceLaws.antt =====
-- The order of the price lists of trading/orderbook/orderbook.go.
use qiu_market.Prelude.{
  Bool, true, false, ◌||◌, List, [], ◌∷◌, ◌≡◌, refl, arith, Bool-cases, inl, inr, ◌==◌, ==-ne,
  ==-eq, All, ◌≢◌, sym, not, ◌&&◌, ◌∙◌,
}
use qiu_market.Prelude.Int.{ℤ, pos, negsuc, ltb_ℤ, leb_ℤ, int_eq}
use qiu_market.OrderBook.Levels.{insert_price, remove_price, at_or_behind}

-- `x` comes in front of `y`: it is the higher bid, or the lower ask.
abbrev pub in_front : Bool → ℤ → ℤ → Bool
in_front true x y = ltb_ℤ y x
in_front false x y = ltb_ℤ x y

abbrev pub IsStrict : Bool → List ℤ → Type 0
IsStrict d [] = Unit
IsStrict d (x ∷ xs) = All (λ y. in_front d x y ≡ true) xs × IsStrict d xs

abbrev pub price_in : ℤ → List ℤ → Bool
price_in y [] = false
price_in y (x ∷ xs) = x == y || price_in y xs

lt_trans : (a b c : ℤ) → ltb_ℤ a b ≡ true → ltb_ℤ b c ≡ true → ltb_ℤ a c ≡ true
lt_trans (pos a) (pos b) (pos c) h k = ground arith
lt_trans (pos a) (pos b) (negsuc c) h k = ground arith
lt_trans (pos a) (negsuc b) c h k = ground arith
lt_trans (negsuc a) (pos b) (pos c) h k = ground arith
lt_trans (negsuc a) (pos b) (negsuc c) h k = ground arith
lt_trans (negsuc a) (negsuc b) (pos c) h k = ground arith
lt_trans (negsuc a) (negsuc b) (negsuc c) h k = ground arith

lt-of_le : (a b : ℤ) → leb_ℤ a b ≡ true → a ≢ b → ltb_ℤ a b ≡ true
lt-of_le (pos a) (pos b) h k = ground arith
lt-of_le (pos a) (negsuc b) h k = ground arith
lt-of_le (negsuc a) (pos b) h k = ground arith
lt-of_le (negsuc a) (negsuc b) h k = ground arith

lt-of_not_le : (a b : ℤ) → leb_ℤ a b ≡ false → ltb_ℤ b a ≡ true
lt-of_not_le (pos a) (pos b) h = ground arith
lt-of_not_le (pos a) (negsuc b) h = ground arith
lt-of_not_le (negsuc a) (pos b) h = ground arith
lt-of_not_le (negsuc a) (negsuc b) h = ground arith

front_trans :
    (d : Bool) (a b c : ℤ) → in_front d a b ≡ true → in_front d b c ≡ true → in_front d a c ≡ true
front_trans true a b c h k = lt_trans c b a k h
front_trans false a b c h k = lt_trans a b c h k

front-new :
    (d : Bool) (x p : ℤ) → at_or_behind d x p ≡ true → (x == p) ≡ false → in_front d p x ≡ true
front-new true x p h k = lt-of_le x p h (==-ne x p k)
front-new false x p h k = lt-of_le p x h (λ q. ==-ne x p k (sym q))

front-old : (d : Bool) (x p : ℤ) → at_or_behind d x p ≡ false → in_front d x p ≡ true
front-old true x p h = lt-of_not_le x p h
front-old false x p h = lt-of_not_le p x h

All-behind :
    (d : Bool) (p x : ℤ) (xs : List ℤ)
    → in_front d p x ≡ true
    → All (λ y. in_front d x y ≡ true) xs
    → All (λ y. in_front d p y ≡ true) xs
All-behind d p x [] h k = tt
All-behind d p x (y ∷ ys) h k = (front_trans d p x y h k.0, All-behind d p x ys h k.1)

All-insert_price :
    (P : ℤ → Type 0) (xs : List ℤ) (p : ℤ) (d : Bool) → P p → All P xs → All P (insert_price xs p d)
unfolding insert_price
All-insert_price P [] p d h k = (h, tt)
All-insert_price P (x ∷ xs) p d h k = elim (Bool-cases (at_or_behind d x p)) [
  | inl here ↦ elim (Bool-cases (x == p)) [
    | inl same ↦ rw (here, same) k
    | inr other ↦ rw (here, other) (h, k)
  ]
  | inr later ↦ rw later (k.0, All-insert_price P xs p d h k.1)
]

insert_price-IsStrict :
    (xs : List ℤ) (p : ℤ) (d : Bool) → IsStrict d xs → IsStrict d (insert_price xs p d)
unfolding insert_price
insert_price-IsStrict [] p d h = (tt, tt)
insert_price-IsStrict (x ∷ xs) p d h = elim (Bool-cases (at_or_behind d x p)) [
  | inl here ↦ elim (Bool-cases (x == p)) [
    | inl same ↦ rw (here, same) h
    | inr other ↦
        let new = front-new d x p here other in
        rw (here, other) ((new, All-behind d p x xs new h.0), h)
  ]
  | inr later ↦ rw later (
    All-insert_price (λ y. in_front d x y ≡ true) xs p d (front-old d x p later) h.0,
    insert_price-IsStrict xs p d h.1,
  )
]

price_in-insert_price :
    (xs : List ℤ) (p y : ℤ) (d : Bool)
    → price_in y (insert_price xs p d) ≡ (p == y || price_in y xs)
unfolding insert_price
price_in-insert_price [] p y d = refl
price_in-insert_price (x ∷ xs) p y d = elim (Bool-cases (at_or_behind d x p)) [
  | inl here ↦ elim (Bool-cases (x == p)) [
    | inl same ↦ rw (here, same) (let q = ==-eq x p same in ground arith)
    | inr other ↦ rw (here, other) refl
  ]
  | inr later ↦ rw later (let ih = price_in-insert_price xs p y d in ground arith)
]

-- insertPrice keeps a price list in strict order, bids falling and asks rising, and the prices of
-- the list behind it are the old ones and the new one.
pub insert_price_lem :
    (xs : List ℤ) (p : ℤ) (d : Bool) (y : ℤ)
    → IsStrict d xs
    → IsStrict d (insert_price xs p d)
      × (price_in y (insert_price xs p d) ≡ (p == y || price_in y xs))
insert_price_lem xs p d y h = (insert_price-IsStrict xs p d h, price_in-insert_price xs p y d)

All-remove_price : (P : ℤ → Type 0) (xs : List ℤ) (p : ℤ) → All P xs → All P (remove_price xs p)
unfolding remove_price
All-remove_price P [] p k = tt
All-remove_price P (x ∷ xs) p k = elim (Bool-cases (x == p)) [
  | inl same ↦ rw same k.1
  | inr other ↦ rw other (k.0, All-remove_price P xs p k.1)
]

remove_price-IsStrict :
    (xs : List ℤ) (p : ℤ) (d : Bool) → IsStrict d xs → IsStrict d (remove_price xs p)
unfolding remove_price
remove_price-IsStrict [] p d h = tt
remove_price-IsStrict (x ∷ xs) p d h = elim (Bool-cases (x == p)) [
  | inl same ↦ rw same h.1
  | inr other ↦
      rw other
        (All-remove_price (λ y. in_front d x y ≡ true) xs p h.0, remove_price-IsStrict xs p d h.1)
]

front-ne : (d : Bool) (x y : ℤ) → in_front d x y ≡ true → (y == x) ≡ false
front-ne true (pos x) (pos y) h = ground arith
front-ne true (pos x) (negsuc y) h = ground arith
front-ne true (negsuc x) (pos y) h = ground arith
front-ne true (negsuc x) (negsuc y) h = ground arith
front-ne false (pos x) (pos y) h = ground arith
front-ne false (pos x) (negsuc y) h = ground arith
front-ne false (negsuc x) (pos y) h = ground arith
front-ne false (negsuc x) (negsuc y) h = ground arith

absent_behind :
    (d : Bool) (x : ℤ) (xs : List ℤ) → All (λ y. in_front d x y ≡ true) xs → price_in x xs ≡ false
absent_behind d x [] h = refl
absent_behind d x (y ∷ ys) h = rw (front-ne d x y h.0) (absent_behind d x ys h.1)

price_in-remove_price :
    (xs : List ℤ) (p y : ℤ) (d : Bool)
    → IsStrict d xs
    → price_in y (remove_price xs p) ≡ (not (p == y) && price_in y xs)
unfolding remove_price
price_in-remove_price [] p y d h = ground arith
price_in-remove_price (x ∷ xs) p y d h = elim (Bool-cases (x == p)) [
  | inl same ↦
      let q = ==-eq x p same in
      let gone = absent_behind d x xs h.0 in
      elim (Bool-cases (p == y)) [
        | inl hit ↦ (let w = q ∙ ==-eq p y hit in rw (same, hit, ← w) gone)
        | inr miss ↦ rw (same, q, miss) refl
      ]
  | inr other ↦
      let ih = price_in-remove_price xs p y d h.1 in
      elim (Bool-cases (x == y)) [
        | inl hit ↦ elim (Bool-cases (p == y)) [
          | inl both ↦ absurd (==-ne x p other (==-eq x y hit ∙ sym (==-eq p y both)))
          | inr miss ↦ rw (other, hit, miss) refl
        ]
        | inr miss ↦ rw (other, miss) ih
      ]
]

-- removePrice keeps a price list that is in strict order so, and the prices of the list behind it
-- are the old ones but for the removed one.
pub remove_price_lem :
    (xs : List ℤ) (p : ℤ) (d : Bool) (y : ℤ)
    → IsStrict d xs
    → IsStrict d (remove_price xs p)
      × (price_in y (remove_price xs p) ≡ (not (p == y) && price_in y xs))
remove_price_lem xs p d y h = (remove_price-IsStrict xs p d h, price_in-remove_price xs p y d h)
