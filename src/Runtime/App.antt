-- ===== src/Runtime/App.antt =====
-- Applications of bootstrap/actor.c. `g_applications` up to `g_app_count` is a list; a stopped
-- application keeps its place.
pub mod Laws
pub mod Runs
mod Tests
use guage.Prelude.{
  ℕ, Bool, true, false, ◌&&◌, Option, none, some, List, [], ◌∷◌, ◌++◌, leb, if◌then◌else◌, length,
  find, update_first, Eq, equal,
}
use mathlib.Core.List.{foldr}
use guage.Runtime.Refs.{CellOps, cell_equal, RefOp, retain, release, release_all}

pub record App {ℓ} (N C : Type ℓ) : Type ℓ where
  pub name : N
  pub supervisor_id : ℕ
  pub stop_fn : Option C
  pub env : List (C × C)
  pub running : Bool

abbrev pub Apps {ℓ} : Type ℓ → Type ℓ → Type ℓ
Apps N C = List (App N C)

-- The results 0, -1, -2 of `app_start`, and of `app_set_env`.
pub data Started : Type 0 where
  ok dup full : Started

pub data Assigned : Type 0 where
  ok not_found full : Assigned

-- `MAX_APPLICATIONS` and `MAX_APP_ENV`
abbrev pub max_apps : ℕ
max_apps = 16

abbrev pub max_env : ℕ
max_env = 64

abbrev pub retain_opt {ℓ} : {C : Type ℓ} → Option C → List (RefOp C)
retain_opt none = []
retain_opt (some c) = retain c ∷ []

abbrev pub release_opt {ℓ} : {C : Type ℓ} → Option C → List (RefOp C)
release_opt none = []
release_opt (some c) = release c ∷ []

abbrev pub is_env {ℓ} : {C : Type ℓ} ⦃o : CellOps C⦄ → C → C × C → Bool
is_env k x = cell_equal x.0 k

-- The writes to the application that the search points to.
module _ {ℓ} {N C : Type ℓ} where
  abbrev pub stopped : App N C → App N C
  stopped a = record a { running = false; env = []; stop_fn = none }

  abbrev pub add_env : C → C → App N C → App N C
  add_env k v a = record a { env = a.env ++ ((k, v) ∷ []) }

abbrev pub put_env {ℓ} : {N C : Type ℓ} ⦃o : CellOps C⦄ → C → C → App N C → App N C
put_env k v a = record a { env = update_first (is_env k) (λ x. (x.0, v)) a.env }

module _ {ℓ} {N C : Type ℓ} ⦃e : Eq N⦄ where
  -- `running && strcmp(name, n) == 0`
  abbrev pub is_running : N → App N C → Bool
  is_running n a = a.running && equal a.name n

  unfoldable pub app_start : Apps N C → N → ℕ → Option C → Started × Apps N C × List (RefOp C)
  app_start apps n sup f = elim (find (is_running n) apps) [
    | some a ↦ (Started.dup, apps, [])
    | none ↦ if leb max_apps (length apps) then (Started.full, apps, []) else (
      Started.ok,
      apps
          ++ (record { name = n; supervisor_id = sup; stop_fn = f; env = []; running = true } ∷ []),
      retain_opt f,
    )
  ]

  -- The flag is false for -1.
  unfoldable pub app_stop : Apps N C → N → Bool × Apps N C × List (RefOp C)
  unfolding release_all
  app_stop apps n = elim (find (is_running n) apps) [
    | none ↦ (false, apps, [])
    | some a ↦
        (true, update_first (is_running n) stopped apps, release_all a.env ++ release_opt a.stop_fn)
  ]

  unfoldable pub app_lookup : Apps N C → N → Option (App N C)
  app_lookup apps n = find (is_running n) apps

  -- The names of those that run, consed from the last to the first.
  unfoldable pub app_which : Apps N C → List N
  app_which apps = foldr (λ a names. if a.running then a.name ∷ names else names) [] apps

module _ {ℓ} {N C : Type ℓ} ⦃e : Eq N⦄ ⦃o : CellOps C⦄ where
  unfoldable pub app_get_env : Apps N C → N → C → Option C × List (RefOp C)
  app_get_env apps n k = elim (find (is_running n) apps) [
    | none ↦ (none, [])
    | some a ↦ elim (find (is_env k) a.env) [
      | none ↦ (none, [])
      | some x ↦ (some x.1, retain x.1 ∷ [])
    ]
  ]

  -- Here the old value is released before the new one is retained.
  unfoldable pub app_set_env : Apps N C → N → C → C → Assigned × Apps N C × List (RefOp C)
  app_set_env apps n k v = elim (find (is_running n) apps) [
    | none ↦ (Assigned.not_found, apps, [])
    | some a ↦ elim (find (is_env k) a.env) [
      | some (key, old) ↦
          (Assigned.ok, update_first (is_running n) (put_env k v) apps, release old ∷ retain v ∷ [])
      | none ↦ if leb max_env (length a.env) then (Assigned.full, apps, []) else (
        Assigned.ok,
        update_first (is_running n) (add_env k v) apps,
        retain k ∷ retain v ∷ [],
      )
    ]
  ]

-- The loop of `app_reset_all`.
unfoldable pub release_apps {ℓ} : {N C : Type ℓ} → Apps N C → List (RefOp C)
unfolding release_all
release_apps [] = []
release_apps (a ∷ apps) =
    let rest = release_apps apps in
    if a.running then (release_all a.env ++ release_opt a.stop_fn) ++ rest else rest

unfoldable pub app_reset_all {ℓ} : {N C : Type ℓ} → Apps N C → Apps N C × List (RefOp C)
unfolding release_apps
app_reset_all apps = ([], release_apps apps)
