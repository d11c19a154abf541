-- ===== src/Components/ComponentList.antt =====
-- network/component_list.go: the list, with the map of its types. A component is known here by its
-- reflected type; a `ComponentInfo` is shared by pointer, but none of its fields is written later.
use carrier.Prelude.{
  ℕ, nat_eq, nat_beq, ltb, Bool, true, false, List, [], ◌∷◌, ◌++◌, Option, none, some,
  if◌then◌else◌, length,
}
use carrier.Prelude.Table.{load, store, delete, has}
use carrier.Prelude.Sort.{sort}

pub record ComponentInfo (C : Type 0) : Type 0 where
  pub priority : ℕ
  pub ty : ℕ
  pub component : C

pub record ComponentList (C : Type 0) : Type 0 where
  pub keys : List (ℕ × ComponentInfo C)
  pub values : List (ComponentInfo C)

module _ {C : Type 0} where
  unfoldable pub new_component_list : ComponentList C
  new_component_list = record { keys = []; values = [] }

  unfoldable pub less_priority : ComponentInfo C → ComponentInfo C → Bool
  less_priority a b = ltb a.priority b.priority

  unfoldable pub sort_by_priority : ComponentList C → ComponentList C
  unfolding less_priority
  sort_by_priority m = record m { values = sort less_priority m.values }

  unfoldable pub put_info : ComponentInfo C → ComponentList C → Bool × ComponentList C
  unfolding has
  put_info info m =
      if has info.ty m.keys
      then (false, m)
      else (true, record m { keys = store info.ty info m.keys; values = m.values ++ (info ∷ []) })

  unfoldable pub put : ℕ → ℕ → C → ComponentList C → Bool × ComponentList C
  unfolding put_info
  put priority ty c m = put_info (record { priority = priority; ty = ty; component = c }) m

  -- The loop of `Delete`, which ends at the first value of the type.
  unfoldable pub delete_value : ℕ → List (ComponentInfo C) → List (ComponentInfo C)
  delete_value ty [] = []
  delete_value ty (v ∷ vs) =
      let rest = delete_value ty vs in if nat_beq v.ty ty then vs else v ∷ rest

  unfoldable pub delete_component : ℕ → ComponentList C → Bool × ComponentList C
  unfolding delete_value
  delete_component ty m =
      (true, record m { keys = delete ty m.keys; values = delete_value ty m.values })

  unfoldable pub component_len : ComponentList C → ℕ
  component_len m = length m.keys

  unfoldable pub get_info : ℕ → ComponentList C → Option (ComponentInfo C)
  get_info ty m = load ty m.keys

  unfoldable pub get_component : ℕ → ComponentList C → Option C
  unfolding get_info
  get_component ty m = elim (get_info ty m) [ none ↦ none | some info ↦ some info.component ]

  -- What `Each` calls its function with, in order.
  unfoldable pub each : List (ComponentInfo C) → List C
  each [] = []
  each (v ∷ vs) = v.component ∷ each vs
