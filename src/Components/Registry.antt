-- ===== src/Components/Registry.antt =====
-- network/component_list.go: the map and the list hold the same components.
use carrier.Prelude.{
  ℕ, ◌≡◌, ◌≢◌, refl, sym, ◌∙◌, arith, nat_eq, nat_beq, nat_beq_iff, true, false, List, [], ◌∷◌,
  ◌++◌, Option, none, some, if◌then◌else◌, Bool-cases, inl, inr,
}
use mathlib.Core.List.{Perm}
use carrier.Prelude.Table.{
  load, has, load-store, load-delete, load-store_self, load-delete_self, has-load,
}
use carrier.Prelude.Sort.{sort-perm, IsSorted, sort-IsSorted}
use carrier.Components.ComponentList.{
  ComponentInfo, ComponentList, less_priority, sort_by_priority, put_info, put, delete_value,
  delete_component, get_info, get_component,
}

module _ {C : Type 0} where
  -- The first value of a type.
  unfoldable pub first_of : ℕ → List (ComponentInfo C) → Option (ComponentInfo C)
  first_of ty [] = none
  first_of ty (v ∷ vs) = if nat_beq v.ty ty then some v else first_of ty vs

  abbrev pub IsDistinct : List (ComponentInfo C) → Type 0
  IsDistinct [] = Unit
  IsDistinct (v ∷ vs) = (first_of v.ty vs ≡ none) × IsDistinct vs

  -- The map finds what the list has of a type, which is one value at most.
  abbrev pub IsRegistry : ComponentList C → Type 0
  IsRegistry m = IsDistinct m.values × ((ty : ℕ) → load ty m.keys ≡ first_of ty m.values)

  first_of-append :
      (ty : ℕ) (vs : List (ComponentInfo C)) (v : ComponentInfo C)
      → first_of ty (vs ++ (v ∷ [])) ≡ (elim (first_of ty vs) [
        | none ↦ if nat_beq v.ty ty then some v else none
        | some w ↦ some w
      ])
  unfolding first_of
  first_of-append ty [] v = ground arith
  first_of-append ty (w ∷ vs) v = ground (arith, first_of-append ty vs v)

  append-IsDistinct :
      (vs : List (ComponentInfo C)) (v : ComponentInfo C)
      → IsDistinct vs
      → first_of v.ty vs ≡ none
      → IsDistinct (vs ++ (v ∷ []))
  unfolding first_of
  append-IsDistinct [] v d new = (refl, tt)
  append-IsDistinct (w ∷ vs) v d new = (
    ground (arith, d, first_of-append w.ty vs v, nat_beq_iff v.ty w.ty, nat_beq_iff w.ty v.ty),
    append-IsDistinct vs v d.1 (ground arith),
  )

  first_of-delete_value :
      (ty j : ℕ) (vs : List (ComponentInfo C))
      → IsDistinct vs
      → first_of j (delete_value ty vs) ≡ (if nat_beq ty j then none else first_of j vs)
  unfolding first_of delete_value
  first_of-delete_value ty j [] d = ground arith
  first_of-delete_value ty j (v ∷ vs) d = ground (
    arith,
    d,
    first_of-delete_value ty j vs d.1,
    nat_beq_iff v.ty ty,
    nat_beq_iff v.ty j,
    nat_beq_iff ty j,
  )

  delete_value-IsDistinct :
      (ty : ℕ) (vs : List (ComponentInfo C)) → IsDistinct vs → IsDistinct (delete_value ty vs)
  unfolding delete_value
  delete_value-IsDistinct ty [] d = tt
  delete_value-IsDistinct ty (v ∷ vs) d =
      ground (arith, d, delete_value-IsDistinct ty vs d.1, first_of-delete_value ty v.ty vs d.1)

  abbrev Put : ℕ → ℕ → C → ComponentList C → Type 0
  Put priority ty c m =
      IsRegistry (put priority ty c m).1
      × (get_component ty (put priority ty c m).1
          ≡ (elim (get_component ty m) [ none ↦ some c | some old ↦ some old ]))
      × ((j : ℕ) → j ≢ ty → get_info j (put priority ty c m).1 ≡ get_info j m)

  Put-known :
      (priority ty : ℕ) (c : C) (m : ComponentList C)
      → IsRegistry m
      → has ty m.keys ≡ true
      → Put priority ty c m
  unfolding put put_info get_component get_info has
  Put-known priority ty c m h known = rw (put, put_info, known) (h, ground arith, λ j ne. refl)

  Put-new :
      (priority ty : ℕ) (c : C) (m : ComponentList C)
      → IsRegistry m
      → has ty m.keys ≡ false
      → Put priority ty c m
  unfolding put put_info get_component get_info
  Put-new priority ty c m h new =
      let info : ComponentInfo C = record { priority = priority; ty = ty; component = c } in
      let free = has-load ty m.keys new in
      rw (put, put_info, new)
        (
          (
            append-IsDistinct m.values info h.0 (sym (h.1 ty) ∙ free),
            λ j. ground (
              arith,
              h.1 j,
              free,
              load-store ty j info m.keys,
              first_of-append j m.values info,
              nat_beq_iff ty j,
            ),
          ),
          ground (arith, free, load-store_self ty info m.keys),
          λ j ne. ground (arith, load-store ty j info m.keys, nat_beq_iff ty j),
        )

  -- `Put` adds a component of a new type, and refuses one of a type that is there; both keep the map
  -- and the list in agreement.
  pub put-IsRegistry :
      (priority ty : ℕ) (c : C) (m : ComponentList C)
      → IsRegistry m
      → IsRegistry (put priority ty c m).1
        × (get_component ty (put priority ty c m).1
            ≡ (elim (get_component ty m) [ none ↦ some c | some old ↦ some old ]))
        × ((j : ℕ) → j ≢ ty → get_info j (put priority ty c m).1 ≡ get_info j m)
  put-IsRegistry priority ty c m h = elim (Bool-cases (has ty m.keys)) [
    | inl known ↦ Put-known priority ty c m h known
    | inr new ↦ Put-new priority ty c m h new
  ]

  -- `Delete` removes the component of a type from the map and the list, and no other.
  pub delete_component-IsRegistry :
      (ty : ℕ) (m : ComponentList C)
      → IsRegistry m
      → IsRegistry (delete_component ty m).1
        × (get_info ty (delete_component ty m).1 ≡ none)
        × ((j : ℕ) → j ≢ ty → get_info j (delete_component ty m).1 ≡ get_info j m)
  unfolding delete_component get_info
  delete_component-IsRegistry ty m h = (
    (
      delete_value-IsDistinct ty m.values h.0,
      λ j. ground (arith, h.1 j, load-delete ty j m.keys, first_of-delete_value ty j m.values h.0),
    ),
    load-delete_self ty m.keys,
    λ j ne. ground (arith, load-delete ty j m.keys, nat_beq_iff ty j),
  )

  -- `SortByPriority` sorts the list by priority, keeps each component as often as it was there, and
  -- leaves the map.
  pub sort_by_priority-IsSorted :
      (m : ComponentList C)
      → IsSorted less_priority (sort_by_priority m).values
        × Perm (sort_by_priority m).values m.values
        × ((sort_by_priority m).keys ≡ m.keys)
  unfolding sort_by_priority less_priority
  sort_by_priority-IsSorted m = (
    sort-IsSorted less_priority (λ x y e. ground arith) (λ x y z e f. ground arith) m.values,
    sort-perm less_priority m.values,
    refl,
  )
