-- ===== src/Container/HashTable/Tests.antt =====
-- A table of one-letter keys that is full, and grows.
use eqp.Common.{
  ℕ, ◌≡◌, ◌⊎◌, ◌↔◌, refl, sym, ap, subst, true, false, Bool, Option, none, some, List, [], ◌∷◌,
  arith,
}
use eqp.Container.HashTable.{
  HashTable, create, set_by_cstr, get_by_cstr, remove_by_cstr, calc_hash, for_each, data_from,
  do_set, do_insert, set_in, hash_from, next_null, advance_free_index, search_chain, realloc,
  rehash, rehash_one, alloc, blank, invalid, set_next, evict, walk, skip_taken,
}
use eqp.Container.HashTable.Sound.{IsSound, Has, SetResult}
use eqp.Container.HashTable.Grow.{CanGrow, set_by_cstr_lem}
use eqp.Container.HashTable.Get.{get_by_cstr_lem}
use eqp.Container.HashTable.Laws.{
  create-IsSound, get_by_cstr-set_by_cstr, get_by_cstr-remove_by_cstr,
}

abbrev table_of : Option (Bool × HashTable) → HashTable
table_of none = blank 2 0 16
table_of (some (b, t)) = t

abbrev letter : ℕ → List ℕ
letter c = c ∷ []

abbrev fresh : HashTable
fresh = blank 2 1 24

create-one : create 1 ≡ some fresh
unfolding create alloc
create-one = refl

set-IsSound :
    (t : HashTable) (key value : List ℕ)
    → IsSound t
    → (t.free_index ≡ invalid → CanGrow t)
    → IsSound (table_of (set_by_cstr t key value))
set-IsSound t key value s small =
    let (b, u, e, r, _, _) = get_by_cstr-set_by_cstr t key value s small in
    subst IsSound (sym (ap table_of e)) r

-- `a` is 97.
abbrev one_key : HashTable
one_key = table_of (set_by_cstr fresh (letter 97) (1 ∷ []))

abbrev full : HashTable
full = table_of (set_by_cstr one_key (letter 98) (2 ∷ []))

capacity-one_key : (one_key.capacity ≡ 2) × (one_key.ent_size ≡ 24)
unfolding set_by_cstr do_set do_insert hash_from calc_hash advance_free_index next_null
capacity-one_key = (refl, refl)

one_key-CanGrow : one_key.free_index ≡ invalid → CanGrow one_key
one_key-CanGrow e = rw (capacity-one_key.0, capacity-one_key.1) (omega arith, omega arith)

full-IsFull : (full.capacity ≡ 2) × (full.ent_size ≡ 24) × (full.free_index ≡ 0xffffffff)
unfolding set_by_cstr do_set do_insert hash_from calc_hash advance_free_index next_null
full-IsFull = (refl, refl, refl)

full-CanGrow : full.free_index ≡ invalid → CanGrow full
full-CanGrow e = rw (full-IsFull.0, full-IsFull.1) (omega arith, omega arith)

full-IsSound : IsSound full
full-IsSound =
    set-IsSound one_key (letter 98) (2 ∷ [])
      (set-IsSound fresh (letter 97) (1 ∷ []) (create-IsSound 1 fresh create-one)
        (λ e. absurd (cc)))
      one_key-CanGrow

grow_example :
    (b : Bool) × (u : HashTable) × (set_by_cstr full (letter 99) (3 ∷ []) ≡ some (b, u))
    × IsSound u
    × ((k : List ℕ) → ¬ (k ≡ letter 99) → get_by_cstr u k ≡ get_by_cstr full k)
    × (((b ≡ false)
          × (get_by_cstr u (letter 99) ≡ get_by_cstr full (letter 99))
          × ¬ (get_by_cstr full (letter 99) ≡ some none))
        ⊎ ((b ≡ true)
            × (get_by_cstr u (letter 99) ≡ some (some (3 ∷ [])))
            × (get_by_cstr full (letter 99) ≡ some none)))
grow_example = get_by_cstr-set_by_cstr full (letter 99) (3 ∷ []) full-IsSound full-CanGrow

remove_example :
    (u : HashTable) × (remove_by_cstr full (letter 97) ≡ some u)
    × IsSound u
    × (get_by_cstr u (letter 97) ≡ some none)
    × ((k : List ℕ) → ¬ (k ≡ letter 97) → get_by_cstr u k ≡ get_by_cstr full k)
remove_example = get_by_cstr-remove_by_cstr full (letter 97) full-IsSound

-- Four keys, of which one has to make room, and what is left without two of them.
abbrev grown : HashTable
grown =
    table_of (set_by_cstr (table_of (set_by_cstr full (letter 99) (3 ∷ []))) (letter 101) (4 ∷ []))

for_each-grown : for_each grown ≡ (1 ∷ []) ∷ (4 ∷ []) ∷ (3 ∷ []) ∷ (2 ∷ []) ∷ []
unfolding for_each data_from set_by_cstr do_set do_insert hash_from calc_hash advance_free_index
    next_null realloc alloc rehash rehash_one set_in set_next evict walk skip_taken search_chain
for_each-grown = refl

set_example :
    (b : Bool) × (u : HashTable) × (set_by_cstr full (letter 97) (3 ∷ []) ≡ some (b, u))
    × IsSound u
    × SetResult full u (letter 97) (3 ∷ []) b
set_example = set_by_cstr_lem full (letter 97) (3 ∷ []) full-IsSound full-CanGrow

get_example :
    (o : Option (List ℕ)) × (get_by_cstr full (letter 98) ≡ some o)
    × ((v : List ℕ) → (o ≡ some v) ↔ Has full (letter 98) v)
get_example = get_by_cstr_lem full (letter 98) full-IsSound
