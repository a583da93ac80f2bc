-- ===== src/Container/HashTable.antt =====
-- The hash table of src/common/container/eqp_hash_table.c: chains of slots inside one block of
-- memory, where a key that is not in the slot of its hash makes room for one that is.
-- A slot is a value of `Entry`; the bytes between the slots are not modelled. `none` is a fault: a
-- slot outside the block, a key that is NULL where its text is read, or fuel that ran out. The size of
-- a block is a `uint32_t`: where it would go round, the block is too small for its slots, and making
-- it is a fault too. In a block that was made, no offset of a slot goes round.
pub mod Slots
pub mod Seg
pub mod Valid
pub mod Links
pub mod Loops
pub mod Content
pub mod Free
pub mod Room
pub mod Placing
pub mod Sound
pub mod Set
pub mod Joining
pub mod Rehash
pub mod Realloc
pub mod Grow
pub mod Get
pub mod Unlink
pub mod First
pub mod Remove
pub mod Laws
mod Tests
use Prim.Native.Nat.{bit_and, bit_xor}
use eqp.Common.{
  ℕ, zero, suc, ◌+◌, ◌-◌, ◌*◌, ◌/◌, ◌%◌, ◌^◌, Bool, true, false, not, Option, none, some, List, [],
  ◌∷◌, length, replicate, get_or, ltb, leb, ◌==◌, if◌then◌else◌, same_text, update,
}

infixl 5 ◌>>=◌
abbrev ◌>>=◌ : {A B : Type 0} → Option A → (A → Option B) → Option B
none >>= f = none
some a >>= f = f a

-- `HashTable_Entry`; a key that is NULL is `none`.
pub record Entry : Type 0 where
  pub key : Option (List ℕ)
  pub hash : ℕ
  pub next : ℕ
  pub value : List ℕ

pub record HashTable : Type 0 where
  pub capacity : ℕ
  pub elem_size : ℕ
  pub free_index : ℕ
  pub ent_size : ℕ
  pub entries : ℕ → Entry

-- `NEXT_INVALID` and `FREE_INDEX_INVALID`
abbrev pub invalid : ℕ
invalid = 0xffffffff

abbrev pub default_capacity : ℕ
default_capacity = 2

abbrev pub is_null : Option (List ℕ) → Bool
is_null none = true
is_null (some k) = false

-- Cleared memory in which no slot has a next one.
abbrev pub blank : (capacity elem_size ent_size : ℕ) → HashTable
blank capacity elem_size ent_size = record {
  capacity = capacity;
  elem_size = elem_size;
  free_index = 0;
  ent_size = ent_size;
  entries = λ _. record { key = none; hash = 0; next = invalid; value = replicate elem_size 0 };
}

-- `sizeof(HashTable) + entSize * capacity`, before it is cut to 32 bits.
abbrev pub block_size : (capacity ent_size : ℕ) → ℕ
block_size capacity ent_size = 16 + ent_size * capacity

-- A cleared block, where its size can be written in 32 bits.
unfoldable pub alloc : (capacity elem_size ent_size : ℕ) → Option HashTable
alloc capacity elem_size ent_size =
    if ltb (block_size capacity ent_size) (2 ^ 32)
    then some (blank capacity elem_size ent_size)
    else none

-- `elementSize + sizeof(HashTable_Entry)`, rounded up to a multiple of 8.
abbrev pub ent_size_of : ℕ → ℕ
ent_size_of element_size =
    let size = element_size + 16 in if size % 8 == 0 then size else size + (8 - size % 8)

unfoldable pub create : ℕ → Option HashTable
unfolding alloc
create element_size = alloc default_capacity element_size (ent_size_of element_size)

-- `char` is signed.
abbrev pub widen : ℕ → ℕ
widen b = if ltb b 128 then b else b + 2 ^ 32 - 256

-- The loop from `i` down, in at most `fuel` rounds.
unfoldable pub hash_from : (fuel i step h : ℕ) → List ℕ → ℕ
hash_from zero i step h key = h
hash_from (suc fuel) i step h key =
    let rest =
      hash_from fuel (i - step) step
        (bit_xor h ((h * 32 + h / 4 + widen (get_or key (i - 1) 0)) % 2 ^ 32)) key in
    if leb step i then rest else h

-- `step` is at least 1, so there are at most `length key` rounds.
unfoldable pub calc_hash : List ℕ → ℕ
calc_hash key = hash_from (length key) (length key) (length key / 32 + 1) (length key % 2 ^ 32) key

abbrev pub entry_at : HashTable → ℕ → Option Entry
entry_at t i = if ltb i t.capacity then some (t.entries i) else none

abbrev pub put : HashTable → ℕ → Entry → Option HashTable
put t i e = if ltb i t.capacity then some (record t { entries = update t.entries i e }) else none

-- `hash & (capacity - 1)`
abbrev pub main_pos : HashTable → ℕ → ℕ
main_pos t hash = bit_and hash ((t.capacity + 2 ^ 32 - 1) % 2 ^ 32)

-- The first of `left` slots from `i` on whose key is NULL.
unfoldable pub next_null : (left i : ℕ) → HashTable → Option ℕ
next_null zero i t = none
next_null (suc left) i t =
    let rest = next_null left (i + 1) t in if is_null (t.entries i).key then some i else rest

unfoldable pub advance_free_index : HashTable → HashTable
advance_free_index t =
    let f = t.free_index in
    elim (next_null (t.capacity - (f + 1)) (f + 1) t) [
      | none ↦ record t { free_index = invalid }
      | some i ↦ record t { free_index = i }
    ]

-- The loops along `next`, up to the slot whose `next` is `target`.
unfoldable pub walk : (fuel : ℕ) → HashTable → (i target : ℕ) → Option ℕ
walk zero t i target = none
walk (suc fuel) t i target = entry_at t i >>= λ e.
    let rest = walk fuel t e.next target in if e.next == target then some i else rest

unfoldable pub set_next : HashTable → (i next : ℕ) → Option HashTable
set_next t i next = entry_at t i >>= λ e. put t i (record e { next = next })

-- `hash_table_do_insert`, where the key is not NULL, and `hash_table_entry_copy`
abbrev pub fill_from : Option (List ℕ) → ℕ → List ℕ → Entry → Entry
fill_from key hash value e = record e { key = key; hash = hash; value = value }

unfoldable pub do_insert : HashTable → ℕ → Option (List ℕ) → ℕ → List ℕ → Option HashTable
do_insert t i key hash value = entry_at t i >>= λ e. put t i (fill_from key hash value e)

-- `ent->hash == hash && string_compare_cstr(ent->key, key) == 0`
abbrev pub has_key : Entry → ℕ → List ℕ → Option Bool
has_key e hash key =
    if e.hash == hash
    then elim e.key [ none ↦ none | some k ↦ some (same_text k key) ]
    else some false

pub record Place : Type 0 where
  pub found : Bool
  pub prev : Option ℕ
  pub ent : ℕ

-- The loop that looks for a key in a chain, in `do_set`, `get` and `remove`: whether it was found,
-- and the last slot that was looked at with the one before it.
unfoldable pub search_chain :
    (fuel : ℕ) → HashTable → Option ℕ → (i hash : ℕ) → List ℕ → Option Place
search_chain zero t prev i hash key = none
search_chain (suc fuel) t prev i hash key = entry_at t i >>= λ e.
    let rest = search_chain fuel t (some i) e.next hash key in
    has_key e hash key >>= λ same.
    if same
    then some (record { found = true; prev = prev; ent = i })
    else if e.next == invalid
    then some (record { found = false; prev = prev; ent = i })
    else rest

-- The slot `pos` becomes the entry's own; what stood there goes to the free slot.
unfoldable pub evict : HashTable → (main pos : ℕ) → Entry → Option HashTable
evict t main pos e = do
  t ← put t t.free_index e
  a ← walk t.capacity t main pos
  set_next t a t.free_index

-- The last loop of `hash_table_realloc`, up to the first slot that is free.
unfoldable pub skip_taken : HashTable → Option HashTable
skip_taken t =
    let f = t.free_index in
    next_null (t.capacity - (f + 1)) (f + 1) t >>= λ i. some (record t { free_index = i })

-- One entry of the old table goes to the new one.
unfoldable pub rehash_one : Entry → HashTable → Option HashTable
rehash_one o t =
    let pos = main_pos t o.hash in
    entry_at t pos >>= λ e.
    if is_null e.key
    then (do_insert t pos o.key o.hash o.value >>= λ u.
        if not (pos == t.free_index) then some u else skip_taken u)
    else let main = main_pos t e.hash in
      if not (main == pos)
      then (evict t main pos e >>= λ u.
          do_insert u pos o.key o.hash o.value >>= λ u. set_next u pos invalid >>= skip_taken)
      else (walk t.capacity t pos invalid >>= λ a. set_next t a t.free_index >>= λ u.
          do_insert u t.free_index o.key o.hash o.value >>= skip_taken)

unfoldable pub rehash : (left i : ℕ) → (ℕ → Entry) → HashTable → Option HashTable
rehash zero i old t = some t
rehash (suc left) i old t = rehash_one (old i) t >>= rehash left (i + 1) old

-- `hash_table_realloc`
unfoldable pub realloc : HashTable → Option HashTable
unfolding alloc
realloc t = alloc (t.capacity * 2 % 2 ^ 32) t.elem_size t.ent_size >>= rehash t.capacity 0 t.entries

-- `hash_table_do_set` where there is room: whether the key is new, and the table.
unfoldable pub set_in : HashTable → List ℕ → List ℕ → ℕ → Entry → Option (Bool × HashTable)
set_in t key value hash e =
    let pos = main_pos t hash in
    let main = main_pos t e.hash in
    if not (main == pos)
    then (evict t main pos e >>= λ u.
        do_insert (advance_free_index u) pos (some key) hash value >>= λ u.
        set_next u pos invalid >>= λ u. some (true, u))
    else (search_chain t.capacity t none pos hash key >>= λ p.
        if p.found
        then some (false, t)
        else (set_next t p.ent t.free_index >>= λ u.
            do_insert (advance_free_index u) t.free_index (some key) hash value >>= λ u.
            some (true, u)))

-- `hash_table_do_set`; the fuel is for its call of itself after `realloc`.
unfoldable pub do_set : (fuel : ℕ) → HashTable → List ℕ → List ℕ → ℕ → Option (Bool × HashTable)
do_set zero t key value hash = none
do_set (suc fuel) t key value hash =
    let pos = main_pos t hash in
    let again = realloc t >>= λ u. do_set fuel u key value hash in
    entry_at t pos >>= λ e.
    if is_null e.key
    then (do_insert (if pos == t.free_index then advance_free_index t else t) pos (some key) hash
          value
        >>= λ u. some (true, u))
    else if t.free_index == invalid
    then again
    else set_in t key value hash e

unfoldable pub set_by_cstr : HashTable → List ℕ → List ℕ → Option (Bool × HashTable)
set_by_cstr t key value = do_set 2 t key value (calc_hash key)

-- What is returned is the data, or `none` for NULL.
unfoldable pub get_by_cstr : HashTable → List ℕ → Option (Option (List ℕ))
get_by_cstr t key =
    let hash = calc_hash key in
    let pos = main_pos t hash in
    entry_at t pos >>= λ e.
    if is_null e.key
    then some none
    else if not (main_pos t e.hash == pos)
    then some none
    else (search_chain t.capacity t none pos hash key >>= λ p.
        if p.found then (entry_at t p.ent >>= λ e. some (some e.value)) else some none)

abbrev pub lower_free : ℕ → HashTable → HashTable
lower_free i t = record t { free_index = if ltb i t.free_index then i else t.free_index }

abbrev pub clear_slot : HashTable → ℕ → Option HashTable
clear_slot t i = entry_at t i >>= λ e. put t i (record e { key = none; next = invalid })

-- The links to and from the slot of the key, and its end.
unfoldable pub unlink : HashTable → Option ℕ → ℕ → Option HashTable
unlink t (some a) i =
    entry_at t i >>= λ e. set_next t a e.next >>= λ u. clear_slot (lower_free i u) i
unlink t none i = entry_at t i >>= λ e.
    if e.next == invalid
    then clear_slot t i
    else (entry_at t e.next >>= λ d. put t i d >>= λ u. clear_slot (lower_free e.next u) e.next)

unfoldable pub remove_by_cstr : HashTable → List ℕ → Option HashTable
remove_by_cstr t key =
    let hash = calc_hash key in
    let pos = main_pos t hash in
    entry_at t pos >>= λ e.
    if is_null e.key
    then some t
    else if not (main_pos t e.hash == pos)
    then some t
    else (search_chain t.capacity t none pos hash key >>= λ p.
        if p.found then unlink t p.prev p.ent else some t)

-- The data that the callback is called with, in order.
unfoldable pub data_from : (left i : ℕ) → HashTable → List (List ℕ)
data_from zero i t = []
data_from (suc left) i t =
    let rest = data_from left (i + 1) t in
    if is_null (t.entries i).key then rest else (t.entries i).value ∷ rest

unfoldable pub for_each : HashTable → List (List ℕ)
for_each t = data_from t.capacity 0 t
