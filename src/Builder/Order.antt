-- ===== src/Builder/Order.antt =====
-- network/builder.go: components that are added without a priority keep their order.
use carrier.Prelude.{
  ℕ, suc, ◌≤◌, ◌<◌, ◌≡◌, refl, ap, sym, ◌∙◌, subst, arith, nat_eq, Bool, true, false, List, [], ◌∷◌,
  ◌++◌, append_assoc, append-nil, Option, none, some, inl, inr, All, All-append, Bool-cases,
}
use carrier.Prelude.Sort.{sort, insert_sorted, IsSorted}
use carrier.Prelude.Table.{has, store}
use carrier.Components.ComponentList.{
  ComponentInfo, ComponentList, new_component_list, put, put_info, sort_by_priority, less_priority,
}
use carrier.Builder.Build.{
  Builder, list_of, sorted_list, add_component, add_component_with_priority,
}

module _ {A : Type 0} (less : A → A → Bool) where
  insert-front :
      (x : A) (xs : List A) → All (λ y. less y x ≡ false) xs → insert_sorted less x xs ≡ x ∷ xs
  unfolding insert_sorted
  insert-front x [] h = refl
  insert-front x (y ∷ xs) h = ground (arith, h.0)

  -- A list that is sorted stays as it is.
  sort_sorted : (xs : List A) → IsSorted less xs → sort less xs ≡ xs
  unfolding sort
  sort_sorted [] h = refl
  sort_sorted (x ∷ xs) h = ap (insert_sorted less x) (sort_sorted xs h.1) ∙ insert-front x xs h.0

  IsSorted-append :
      (xs : List A) (a : A)
      → IsSorted less xs
      → All (λ x. less a x ≡ false) xs
      → IsSorted less (xs ++ (a ∷ []))
  IsSorted-append [] a h k = (tt, tt)
  IsSorted-append (x ∷ xs) a h k =
      (All-append (λ y. less y x ≡ false) xs (a ∷ []) h.0 (k.0, tt), IsSorted-append xs a h.1 k.1)

module _ {C : Type 0} where
  -- `AddComponent` of each component in turn.
  unfoldable pub add_all : List (ℕ × C) → Builder C → Builder C
  unfolding add_component
  add_all [] b = b
  add_all ((ty, c) ∷ cs) b = add_all cs (add_component ty c b).1

  -- The priorities given so far are below the count, and in order.
  pub record IsCounted (b : Builder C) : Type 0 where
    pub sorted : IsSorted less_priority (list_of b).values
    pub below : All (λ i. i.priority < b.component_count) (list_of b).values

  All-later :
      (n k : ℕ) (xs : List (ComponentInfo C))
      → n ≤ k
      → All (λ i. i.priority < n) xs
      → All (λ i. i.priority < k) xs
  All-later n k [] le h = tt
  All-later n k (x ∷ xs) le h = (omega (arith, h.0), All-later n k xs le h.1)

  All-not_less :
      (a : ComponentInfo C) (xs : List (ComponentInfo C))
      → All (λ i. i.priority < a.priority) xs
      → All (λ x. less_priority a x ≡ false) xs
  unfolding less_priority
  All-not_less a [] h = tt
  All-not_less a (x ∷ xs) h = (ground (arith, h.0), All-not_less a xs h.1)

  abbrev info_of : ℕ → C → Builder C → ComponentInfo C
  info_of ty c b = record { priority = b.component_count; ty = ty; component = c }

  add_known :
      (ty : ℕ) (c : C) (b : Builder C)
      → has ty (list_of b).keys ≡ true
      → add_component ty c b ≡ (false, record b { components = some (list_of b) })
  unfolding add_component add_component_with_priority put put_info
  add_known ty c b h = ground arith

  add_new :
      (ty : ℕ) (c : C) (b : Builder C)
      → has ty (list_of b).keys ≡ false
      → add_component ty c b ≡ (
        true,
        record b {
          components = some (record {
            keys = store ty (info_of ty c b) (list_of b).keys;
            values = (list_of b).values ++ (info_of ty c b ∷ []);
          });
          component_count = suc b.component_count;
        },
      )
  unfolding add_component add_component_with_priority put put_info
  add_new ty c b h = ground arith

  -- What one call adds at the end, if anything.
  abbrev Extends : Builder C → Builder C → Type 0
  Extends b b' =
      IsCounted b'
      × ((added : List (ComponentInfo C)) × ((list_of b').values ≡ (list_of b).values ++ added))

  add_component-Extends :
      (ty : ℕ) (c : C) (b : Builder C) → IsCounted b → Extends b (add_component ty c b).1
  add_component-Extends ty c b h = elim (Bool-cases (has ty (list_of b).keys)) [
    | inl known ↦
        subst (λ (r : Bool × Builder C). Extends b r.1) (sym (add_known ty c b known))
          (record { sorted = h.sorted; below = h.below }, ([], sym (append-nil (list_of b).values)))
    | inr new ↦
        subst (λ (r : Bool × Builder C). Extends b r.1) (sym (add_new ty c b new))
          (
            record {
              sorted =
                  IsSorted-append less_priority (list_of b).values (info_of ty c b) h.sorted
                    (All-not_less (info_of ty c b) (list_of b).values h.below);
              below =
                  All-append (λ i. i.priority < suc b.component_count) (list_of b).values
                    (info_of ty c b ∷ [])
                    (All-later b.component_count (suc b.component_count) (list_of b).values
                      (omega arith) h.below)
                    (omega arith, tt);
            },
            (info_of ty c b ∷ [], refl),
          )
  ]

  add_all-Extends : (cs : List (ℕ × C)) (b : Builder C) → IsCounted b → Extends b (add_all cs b)
  unfolding add_all
  add_all-Extends [] b h = (h, ([], sym (append-nil (list_of b).values)))
  add_all-Extends ((ty, c) ∷ cs) b h =
      let (h1, (first, e1)) = add_component-Extends ty c b h in
      let (h2, (rest, e2)) = add_all-Extends cs (add_component ty c b).1 h1 in
      (
        h2,
        (first ++ rest, e2 ∙ ap (λ xs. xs ++ rest) e1 ∙ append_assoc (list_of b).values first rest),
      )

  sorted_list-values : (b : Builder C) → IsCounted b → (sorted_list b).values ≡ (list_of b).values
  unfolding sort_by_priority
  sorted_list-values b h = go b.components refl
    where
      go :
          (o : Option (ComponentList C))
          → b.components ≡ o
          → (sorted_list b).values ≡ (list_of b).values
      go none e = ground arith
      go (some m) e =
          let same : list_of b ≡ m = ground arith in
          let sorted : IsSorted less_priority m.values =
            subst (λ (l : ComponentList C). IsSorted less_priority l.values) same h.sorted in
          ground (arith, sort_sorted less_priority m.values sorted)

  -- A builder to which components were only added without a priority hands them to the network in
  -- the order in which they were added, whatever their types: the sort by priority in `Build`
  -- moves none of them, and those added later come last.
  pub add_all-order :
      (cs : List (ℕ × C)) (b : Builder C)
      → IsCounted b
      → ((sorted_list (add_all cs b)).values ≡ (list_of (add_all cs b)).values)
        × ((added : List (ComponentInfo C)) × ((list_of (add_all cs b)).values
              ≡ (list_of b).values ++ added))
  add_all-order cs b h =
      let (h', more) = add_all-Extends cs b h in (sorted_list-values (add_all cs b) h', more)

  -- A new builder.
  pub new-IsCounted : (b : Builder C) → b.components ≡ none → IsCounted b
  unfolding new_component_list
  new-IsCounted b e =
      let fresh : new_component_list ≡ list_of b = ground arith in
      record {
        sorted = subst (λ (l : ComponentList C). IsSorted less_priority l.values) fresh tt;
        below =
            subst (λ (l : ComponentList C). All (λ i. i.priority < b.component_count) l.values)
              fresh tt;
      }
