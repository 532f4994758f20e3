-- ===== src/Config.antt =====
-- The configuration store of src/utils/config.c: a list of keys with typed values. An item's texts
-- are copies of the caller's. A `double` is the number that its 64 bits stand for.
use xsan.Base.{
  ℕ, ◌+◌, ◌-◌, ◌%◌, ◌^◌, Bool, true, false, Option, none, some, List, [], ◌∷◌, if◌then◌else◌, not,
  ltb, ◌&&◌, add_size, sub_size,
}
use xsan.StringUtils.Compare.{ℤ}
use xsan.StringUtils.Convert.{same_text}
pub mod Items
pub mod History
pub mod Load
pub mod Save
pub mod Decimal
pub mod Saved
pub mod SavedLines
pub mod RoundTrip
pub mod Loaded
pub mod Sections
pub mod Seeds
pub mod Validate
pub mod SeedList
pub mod Fields
mod Tests
mod SavedTests

-- `string_val none` is a text that is NULL.
pub data Value : Type 0 where
  string_val : Option (List ℕ) → Value
  int_val : ℤ → Value
  long_val : ℤ → Value
  double_val : ℕ → Value
  bool_val : Bool → Value

pub record Item : Type 0 where
  pub key : List ℕ
  pub value : Value

pub record Config : Type 0 where
  pub items : List Item
  pub item_count : ℕ
  pub config_file : Option (List ℕ)
  pub auto_reload : Bool
  pub last_modified : ℕ

-- Which allocations of one call succeed: the item, the copy of its key, the copy of its text.
pub record Memory : Type 0 where
  pub for_item : Bool
  pub for_key : Bool
  pub for_text : Bool

unfoldable pub empty : Config
empty = record {
  items = [];
  item_count = 0;
  config_file = none;
  auto_reload = false;
  last_modified = 0;
}

unfoldable pub create : Bool → Option Config
unfolding empty
create memory = if memory then some empty else none

-- The walk of `find_config_item`.
unfoldable pub find_in : List Item → List ℕ → Option Value
find_in [] k = none
find_in (it ∷ its) k =
    let rest = find_in its k in if same_text it.key k then some it.value else rest

unfoldable pub find_config_item : Option Config → Option (List ℕ) → Option Value
unfolding find_in
find_config_item none k = none
find_config_item (some c) none = none
find_config_item (some c) (some k) = find_in c.items k

-- The value that is left in the item, and whether it is the one that was asked for.
unfoldable pub kept_value : Memory → Value → Bool × Value
kept_value m (string_val none) = (false, string_val none)
kept_value m (string_val (some s)) =
    if m.for_text then (true, string_val (some s)) else (false, string_val none)
kept_value m (int_val n) = (true, int_val n)
kept_value m (long_val n) = (true, long_val n)
kept_value m (double_val d) = (true, double_val d)
kept_value m (bool_val b) = (true, bool_val b)

-- The first item with the key gets the value.
unfoldable pub update : List Item → List ℕ → Value → List Item
update [] k v = []
update (it ∷ its) k v =
    let rest = update its k v in
    if same_text it.key k then record it { value = v } ∷ its else it ∷ rest

-- What `set_config_item` does once it has looked for the key.
unfoldable pub set_found : Memory → Config → List ℕ → Value → Option Value → Bool × Config
unfolding kept_value
set_found m c k v (some old) =
    ((kept_value m v).0, record c { items = update c.items k (kept_value m v).1 })
set_found m c k v none =
    if m.for_item && m.for_key
    then (
      (kept_value m v).0,
      record c {
        items = (record { key = k; value = (kept_value m v).1 }) ∷ c.items;
        item_count = add_size c.item_count 1;
      },
    )
    else (false, c)

unfoldable pub set_item : Memory → Config → List ℕ → Value → Bool × Config
unfolding set_found find_in
set_item m c k v = set_found m c k v (find_in c.items k)

abbrev pub is_null : Value → Bool
is_null (string_val none) = true
is_null _ = false

unfoldable pub set_config_item :
    Memory → Option Config → Option (List ℕ) → Value → Bool × Option Config
unfolding set_item
set_config_item m none k v = (false, none)
set_config_item m (some c) none v = (false, some c)
set_config_item m (some c) (some k) v =
    if is_null v then (false, some c) else ((set_item m c k v).0, some (set_item m c k v).1)

unfoldable pub set_string :
    Memory → Option Config → Option (List ℕ) → Option (List ℕ) → Bool × Option Config
set_string m c k s = set_config_item m c k (string_val s)

unfoldable pub set_int : Memory → Option Config → Option (List ℕ) → ℤ → Bool × Option Config
set_int m c k n = set_config_item m c k (int_val n)

unfoldable pub set_long : Memory → Option Config → Option (List ℕ) → ℤ → Bool × Option Config
set_long m c k n = set_config_item m c k (long_val n)

unfoldable pub set_double : Memory → Option Config → Option (List ℕ) → ℕ → Bool × Option Config
set_double m c k d = set_config_item m c k (double_val d)

unfoldable pub set_bool : Memory → Option Config → Option (List ℕ) → Bool → Bool × Option Config
set_bool m c k b = set_config_item m c k (bool_val b)

abbrev pub string_of : Option (List ℕ) → Option Value → Option (List ℕ)
string_of default (some (string_val s)) = s
string_of default _ = default

abbrev pub int_of : ℤ → Option Value → ℤ
int_of default (some (int_val n)) = n
int_of default _ = default

abbrev pub long_of : ℤ → Option Value → ℤ
long_of default (some (long_val n)) = n
long_of default _ = default

abbrev pub double_of : ℕ → Option Value → ℕ
double_of default (some (double_val d)) = d
double_of default _ = default

abbrev pub bool_of_value : Bool → Option Value → Bool
bool_of_value default (some (bool_val b)) = b
bool_of_value default _ = default

unfoldable pub get_string : Option Config → Option (List ℕ) → Option (List ℕ) → Option (List ℕ)
unfolding find_config_item
get_string c k default = string_of default (find_config_item c k)

unfoldable pub get_int : Option Config → Option (List ℕ) → ℤ → ℤ
unfolding find_config_item
get_int c k default = int_of default (find_config_item c k)

unfoldable pub get_long : Option Config → Option (List ℕ) → ℤ → ℤ
unfolding find_config_item
get_long c k default = long_of default (find_config_item c k)

unfoldable pub get_double : Option Config → Option (List ℕ) → ℕ → ℕ
unfolding find_config_item
get_double c k default = double_of default (find_config_item c k)

unfoldable pub get_bool : Option Config → Option (List ℕ) → Bool → Bool
unfolding find_config_item
get_bool c k default = bool_of_value default (find_config_item c k)

abbrev pub is_present : Option Value → Bool
is_present none = false
is_present (some v) = true

unfoldable pub has_key : Option Config → Option (List ℕ) → Bool
unfolding find_config_item
has_key c k = is_present (find_config_item c k)

-- The items without the first one that has the key.
unfoldable pub without_key : List Item → List ℕ → List Item
without_key [] k = []
without_key (it ∷ its) k =
    let rest = without_key its k in if same_text it.key k then its else it ∷ rest

unfoldable pub remove_item : Config → List ℕ → Bool × Config
unfolding without_key find_in
remove_item c k =
    if is_present (find_in c.items k)
    then (true, record c { items = without_key c.items k; item_count = sub_size c.item_count 1 })
    else (false, c)

unfoldable pub remove_key : Option Config → Option (List ℕ) → Bool × Option Config
unfolding remove_item
remove_key none k = (false, none)
remove_key (some c) none = (false, some c)
remove_key (some c) (some k) = ((remove_item c k).0, some (remove_item c k).1)

unfoldable pub clear : Config → Config
clear c = record c { items = []; item_count = 0 }

unfoldable pub get_item_count : Option Config → ℕ
get_item_count none = 0
get_item_count (some c) = c.item_count

-- `mtime` is what `stat` says of the file, if it succeeds.
unfoldable pub is_modified : Option Config → (mtime : Option ℕ) → Bool
is_modified none mtime = false
is_modified (some c) mtime = elim c.config_file as (λ _. Bool) [
  | none ↦ false
  | some f ↦ elim mtime as (λ _. Bool) [ none ↦ false | some t ↦ ltb c.last_modified t ]
]

unfoldable pub set_auto_reload : Option Config → Bool → Option Config
set_auto_reload none on = none
set_auto_reload (some c) on = some (record c { auto_reload = on })
