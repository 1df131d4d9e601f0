-- ===== src/Runtime/Ets/Tests.antt =====
-- ETS at tables of numbers.
use guage.Prelude.{
  ℕ, ◌+◌, ◌≡◌, refl, true, false, Option, none, some, List, [], ◌∷◌, arith, ◌==◌, leb,
  if◌then◌else◌, length, find, All,
}
use guage.Prelude.Equality.{nat_eq}
use guage.Runtime.Cells.{nat_cells}
use guage.Runtime.Refs.{retains, releases, cell_equal}
use guage.Runtime.Ets.{
  Table, Tables, Created, Inserted, is_named, max_tables, ets_find, ets_create, ets_insert,
  ets_lookup, ets_all, ets_reset_all,
}
use guage.Runtime.Ets.Valid.{IsValid}
use guage.Runtime.Ets.Runs.{Op, create, insert, run, ets_run-IsValid, ets_run-no_leak, step}
use guage.Runtime.Ets.Lookup.{lookup-insert}
use guage.Runtime.Ets.Exhausted.{IsInactive, cycles, create-after_cycles}

abbrev start : Tables ℕ ℕ
start = []

start-IsValid : IsValid start
start-IsValid = record { names = λ n. omega arith; room = omega arith; sound = tt }

-- Table 1 of actor 7 with two entries, and table 2 without an owner.
abbrev first : Table ℕ ℕ
first = record { name = some 1; owner = some 7; entries = (10, 11) ∷ (20, 21) ∷ []; active = true }

abbrev two_tables : Tables ℕ ℕ
two_tables = first ∷ record { name = some 2; owner = none; entries = []; active = true } ∷ []

abbrev ops : List (Op ℕ ℕ)
ops = create 1 (some 7) ∷ create 2 none ∷ insert 1 10 9 ∷ insert 1 20 21 ∷ insert 1 10 11 ∷ []

after_ops : (run start ops).0 ≡ two_tables
unfolding run step ets_create ets_insert ets_find
after_ops = refl

all_of_table : ets_all two_tables 1 ≡ some ((10, 11) ∷ (20, 21) ∷ [])
unfolding ets_all ets_find
all_of_table = refl

create_dup : (ets_create two_tables 2 none).0 ≡ Created.dup
unfolding ets_create ets_find
create_dup = refl

insert_nowhere : (ets_insert two_tables 3 1 1).0 ≡ Inserted.not_found
unfolding ets_insert ets_find
insert_nowhere = refl

insert_ok : (ets_insert two_tables 1 30 31).0 ≡ Inserted.ok
unfolding ets_insert ets_find
insert_ok = refl

first_is_found : find (is_named 1) two_tables ≡ some first
first_is_found = refl

apart : (x : ℕ) → cell_equal x 10 ≡ true → cell_equal x 20 ≡ false
apart x h = ground arith

ets_run-no_leak_example :
    let (ts, log) = run {N = ℕ} {C = ℕ} [] ops in
    retains (λ c. c == 10) log + retains (λ c. c == 10) (ets_reset_all ts).1
    ≡ releases (λ c. c == 10) log + releases (λ c. c == 10) (ets_reset_all ts).1
ets_run-no_leak_example = ets_run-no_leak ops (λ c. c == 10)

ets_run-IsValid_example : IsValid (run start ops).0
ets_run-IsValid_example = ets_run-IsValid start ops start-IsValid

lookup-insert_example : (ets_lookup (ets_insert two_tables 1 30 31).1 1 30).0 ≡ some 31
lookup-insert_example = lookup-insert two_tables 1 30 31 insert_ok

-- Two tables of the same name, one after the other.
abbrev two_past : List (ℕ × Option ℕ)
two_past = (5, none) ∷ (5, some 7) ∷ []

create-after_cycles_example :
    let ts = (run {C = ℕ} [] (cycles two_past)).0 in
    All IsInactive ts
    × ((ets_create ts 9 none).0
        ≡ (if leb max_tables (length two_past) then Created.full else Created.ok))
create-after_cycles_example = create-after_cycles ℕ two_past 9 none
