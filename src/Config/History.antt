-- ===== src/Config/History.antt =====
-- Calls of src/utils/config.c one after the other: the item list as a map from keys to values.
use xsan.Base.{
  ℕ, suc, ◌%◌, ◌^◌, Bool, true, false, Bool-cases, Option, Option-cases, none, some, List, [], ◌∷◌,
  if◌then◌else◌, ◌&&◌, ◌||◌, length, inl, inr, arith, ◌≡◌, refl, sym, ap, ◌∙◌,
}
use xsan.StringUtils.Convert.{same_text}
use xsan.Config.{
  Value, Item, Config, Memory, find_in, kept_value, update, set_found, set_item, set_config_item,
  without_key, remove_item, remove_key, is_present, is_null, clear, set_auto_reload,
}
use xsan.Config.Items.{same_text_right, same_text_sym, same_text_eq, find_in-set_item}

-- No two items have the same key.
abbrev pub IsDistinct : List Item → Type 0
IsDistinct [] = Unit {0}
IsDistinct (it ∷ its) = (find_in its it.key ≡ none) × IsDistinct its

pub record IsValid (c : Config) : Type 0 where
  pub distinct : IsDistinct c.items
  pub counted : c.item_count ≡ length c.items % 2 ^ 64

find_in-update_absent :
    (its : List Item) (k j : List ℕ) (v : Value)
    → find_in its j ≡ none
    → find_in (update its k v) j ≡ none
unfolding find_in update
find_in-update_absent [] k j v h = refl
find_in-update_absent (it ∷ its) k j v h = ground (arith, find_in-update_absent its k j v)

update-IsDistinct :
    (its : List Item) (k : List ℕ) (v : Value) → IsDistinct its → IsDistinct (update its k v)
unfolding update
update-IsDistinct [] k v h = tt
update-IsDistinct (it ∷ its) k v h = elim (Bool-cases (same_text it.key k)) [
  | inl e ↦ rw e h
  | inr e ↦ rw e (find_in-update_absent its k it.key v h.0, update-IsDistinct its k v h.1)
]

length-update : (its : List Item) (k : List ℕ) (v : Value) → length (update its k v) ≡ length its
unfolding update
length-update [] k v = refl
length-update (it ∷ its) k v = ground (arith, length-update its k v)

find_in-without_key_absent :
    (its : List Item) (k j : List ℕ) → find_in its j ≡ none → find_in (without_key its k) j ≡ none
unfolding find_in without_key
find_in-without_key_absent [] k j h = refl
find_in-without_key_absent (it ∷ its) k j h = ground (arith, find_in-without_key_absent its k j)

without_key-IsDistinct :
    (its : List Item) (k : List ℕ) → IsDistinct its → IsDistinct (without_key its k)
unfolding without_key
without_key-IsDistinct [] k h = tt
without_key-IsDistinct (it ∷ its) k h = elim (Bool-cases (same_text it.key k)) [
  | inl e ↦ rw e h.1
  | inr e ↦ rw e (find_in-without_key_absent its k it.key h.0, without_key-IsDistinct its k h.1)
]

length-without_key :
    (its : List Item) (k : List ℕ)
    → is_present (find_in its k) ≡ true
    → length its ≡ suc (length (without_key its k))
unfolding find_in without_key
length-without_key [] k h = absurd (ground arith)
length-without_key (it ∷ its) k h = ground (arith, length-without_key its k)

find_in-without_key :
    (its : List Item) (k j : List ℕ)
    → IsDistinct its
    → find_in (without_key its k) j ≡ (if same_text k j then none else find_in its j)
unfolding find_in without_key
find_in-without_key [] k j h = ground arith
find_in-without_key (it ∷ its) k j h = elim (Bool-cases (same_text it.key k)) [
  | inl e ↦ elim (Bool-cases (same_text k j)) [
    | inl f ↦
        rw (e, f) (ap (find_in its) (sym (same_text_eq it.key k e ∙ same_text_eq k j f)) ∙ h.0)
    | inr f ↦ rw (e, f, same_text_right it.key k j e) (rw f refl)
  ]
  | inr e ↦
      ground (arith, find_in-without_key its k j h.1, same_text_right it.key j k, same_text_sym k j)
]

pub set_item-IsValid :
    (m : Memory) (c : Config) (k : List ℕ) (v : Value) → IsValid c → IsValid (set_item m c k v).1
unfolding set_item set_found
set_item-IsValid m c k v h = elim (Option-cases (find_in c.items k)) [
  | inl e ↦ rw e (elim (Bool-cases (m.for_item && m.for_key)) [
    | inl ok ↦ rw ok (record { distinct = (e, h.distinct); counted = omega (arith, h.counted) })
    | inr bad ↦ rw bad h
  ])
  | inr (old, e) ↦ rw e (record {
    distinct = update-IsDistinct c.items k _ h.distinct;
    counted = omega (arith, h.counted, length-update c.items k (kept_value m v).1);
  })
]

remove_item-IsValid : (c : Config) (k : List ℕ) → IsValid c → IsValid (remove_item c k).1
unfolding remove_item
remove_item-IsValid c k h = elim (Bool-cases (is_present (find_in c.items k))) [
  | inl e ↦ rw e (record {
    distinct = without_key-IsDistinct c.items k h.distinct;
    counted = omega (arith, h.counted, length-without_key c.items k e);
  })
  | inr e ↦ rw e h
]

is_present-none : (o : Option Value) → is_present o ≡ false → o ≡ none
is_present-none none h = refl
is_present-none (some v) h = absurd (ground arith)

find_in-remove_item :
    (c : Config) (k j : List ℕ)
    → IsValid c
    → find_in (remove_item c k).1.items j ≡ (if same_text k j then none else find_in c.items j)
unfolding remove_item
find_in-remove_item c k j h = elim (Bool-cases (is_present (find_in c.items k))) [
  | inl e ↦ rw e (find_in-without_key c.items k j h.distinct)
  | inr e ↦ rw e (elim (Bool-cases (same_text k j)) [
    | inl f ↦
        rw f
          (ap (find_in c.items) (sym (same_text_eq k j f)) ∙ is_present-none (find_in c.items k) e)
    | inr f ↦ rw f refl
  ])
]

-- A call on a configuration that is not NULL, with a key that is not NULL.
pub data Call : Type 0 where
  sets : (m : Memory) (k : List ℕ) (v : Value) → Call
  removes : (k : List ℕ) → Call
  clears : Call
  auto_reloads : Bool → Call

abbrev after : Config → Option Config → Config
after c none = c
after c (some d) = d

unfoldable pub step : Config → Call → Config
unfolding set_config_item remove_key clear set_auto_reload
step c (sets m k v) = after c (set_config_item m (some c) (some k) v).1
step c (removes k) = after c (remove_key (some c) (some k)).1
step c clears = clear c
step c (auto_reloads on) = after c (set_auto_reload (some c) on)

unfoldable pub run : Config → List Call → Config
unfolding step
run c [] = c
run c (x ∷ xs) = run (step c x) xs

-- The same calls on a map from keys to values.
abbrev pub Map : Type 0
Map = List ℕ → Option Value

unfoldable pub map_step : Map → Call → Map
map_step f (sets m k v) = λ j.
    if is_null v
    then f j
    else if same_text k j && (is_present (f k) || (m.for_item && m.for_key))
    then some (kept_value m v).1
    else f j
map_step f (removes k) = λ j. if same_text k j then none else f j
map_step f clears = λ j. none
map_step f (auto_reloads on) = f

unfoldable pub map_run : Map → List Call → Map
unfolding map_step
map_run f [] = f
map_run f (x ∷ xs) = map_run (map_step f x) xs

-- The configuration is well formed and stands for the map.
abbrev pub IsMap : Config → Map → Type 0
IsMap c f = IsValid c × ((j : List ℕ) → find_in c.items j ≡ f j)

step-IsMap : (c : Config) (f : Map) (x : Call) → IsMap c f → IsMap (step c x) (map_step f x)
unfolding step map_step set_config_item remove_key clear set_auto_reload
step-IsMap c f (sets m k v) (h, e) = elim (Bool-cases (is_null v)) [
  | inl n ↦ rw n (h, λ j. e j)
  | inr n ↦
      rw n (set_item-IsValid m c k v h, λ j. (find_in-set_item m c k j v).1 ∙ rw (e j, e k) refl)
]
step-IsMap c f (removes k) (h, e) =
    (remove_item-IsValid c k h, λ j. find_in-remove_item c k j h ∙ rw (e j) refl)
step-IsMap c f clears (h, e) =
    (record { distinct = tt; counted = omega arith }, λ j. unfold find_in in refl)
step-IsMap c f (auto_reloads on) (h, e) = (record { distinct = h.distinct; counted = h.counted }, e)

-- On a well-formed configuration any sequence of setting, removing, clearing and switching the
-- reload leaves it well formed (distinct keys, the count that of the items modulo 2 ^ 64), and the
-- lookups answer as the same calls on a map from keys to values do, whichever allocations fail.
pub run-IsMap :
    (c : Config) (f : Map) (xs : List Call) → IsMap c f → IsMap (run c xs) (map_run f xs)
unfolding run map_run
run-IsMap c f [] h = h
run-IsMap c f (x ∷ xs) h = run-IsMap (step c x) (map_step f x) xs (step-IsMap c f x h)
