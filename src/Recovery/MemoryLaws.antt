-- ===== src/Recovery/MemoryLaws.antt =====
-- The store in memory of trading/recovery/memory_store.go keeps the promises of a store.
use qiu_market.Recovery.Actions.{done, done-injective, is_done}
use qiu_market.Prelude.Dict.{lookup, lookup-insert}
use qiu_market.Prelude.Text.{Text, text_eq}
use qiu_market.Recovery.Memory.{MemoryStore, conflicts, memory_store}
use qiu_market.Recovery.Rows.{StatusStoreLaws, row_version}
use qiu_market.Recovery.Types.{Status}
use qiu_market.Recovery.Memory.{load, save, memory_store, MemoryStore, conflicts}
use qiu_market.Prelude.{
  ℕ, false, Option, none, some, ◌≡◌, refl, sym, ◌⊎◌, inl, inr, Bool-cases, arith, ==-refl,
}

no_conflict : (o : Option Status) (n : ℕ) (s : Status) → conflicts o n s ≡ false → row_version o ≡ n
no_conflict none n s h = ground arith
no_conflict (some row) n s h = ground arith

pub memory_saves :
    (n : ℕ) (s : Status) (sh : MemoryStore)
    → ((lookup s.market_id (save n s sh).0.current ≡ lookup s.market_id sh.current)
        × (is_done (save n s sh).1 ≡ false))
      ⊎ ((lookup s.market_id (save n s sh).0.current ≡ some s)
          × (row_version (lookup s.market_id sh.current) ≡ n))
unfolding save
memory_saves n s sh = elim (Bool-cases (conflicts (lookup s.market_id sh.current) n s)) [
  | inl bad ↦ rw bad (inl (refl, refl))
  | inr good ↦
      rw (good, lookup-insert s.market_id s.market_id s sh.current, ==-refl s.market_id)
        (inr (refl, no_conflict (lookup s.market_id sh.current) n s good))
]

pub memory_load_found :
    (m : Text) (sh : MemoryStore) (o : Option Status)
    → (load m sh).1 ≡ done o
    → o ≡ lookup m sh.current
unfolding load
memory_load_found m sh o e = sym (done-injective e)

pub memory_load_row :
    (m : Text) (sh : MemoryStore) → lookup m (load m sh).0.current ≡ lookup m sh.current
unfolding load
memory_load_row m sh = refl

abbrev pub memory_laws : StatusStoreLaws memory_store
memory_laws = record {
  row = λ sh m. lookup m sh.current;
  load_row = memory_load_row;
  load_found = memory_load_found;
  save_cases = memory_saves;
}
