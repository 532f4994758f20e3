-- ===== src/Config/Save.antt =====
-- xsan_config_save_to_file of src/utils/config.c: the bytes that are written to the file. What `fopen`
-- answers is an argument; `%f`, `ctime` and the text that `%s` prints for NULL are parameters.
use xsan.Base.{
  ℕ, zero, suc, ◌+◌, ◌/◌, ◌%◌, Bool, true, false, Option, none, some, List, [], ◌∷◌, ◌++◌,
  if◌then◌else◌, ltb,
}
use xsan.StringUtils.{codes}
use xsan.StringUtils.Compare.{ℤ, pos, negsuc}
use xsan.Config.{Value, string_val, int_val, long_val, double_val, bool_val, Item, Config}

-- The digits of a number below 10 ^ fuel.
unfoldable pub decimal : (fuel : ℕ) → ℕ → List ℕ
decimal zero n = []
decimal (suc fuel) n =
    let rest = decimal fuel (n / 10) in
    if ltb n 10 then (b'0' + n) ∷ [] else rest ++ (b'0' + n % 10) ∷ []

-- `%d` and `%ld`: 20 digits hold every 64-bit number.
unfoldable pub print_long : ℤ → List ℕ
print_long (pos n) = decimal 20 n
print_long (negsuc n) = b'-' ∷ decimal 20 (suc n)

pub record Printing : Type 0 where
  pub print_double : ℕ → List ℕ
  pub ctime : List ℕ
  pub null_text : List ℕ

module _ (libc : Printing) where
  unfoldable pub print_value : Value → List ℕ
  print_value (string_val none) = libc.null_text
  print_value (string_val (some s)) = s
  print_value (int_val n) = print_long n
  print_value (long_val n) = print_long n
  print_value (double_val d) = libc.print_double d
  print_value (bool_val b) = if b then codes "true" else codes "false"

  unfoldable pub print_item : Item → List ℕ
  print_item it = it.key ++ (codes " = " ++ (print_value it.value ++ b'\n' ∷ []))

  unfoldable pub print_items : List Item → List ℕ
  print_items [] = []
  print_items (it ∷ its) = print_item it ++ print_items its

  unfoldable pub file_of : Config → List ℕ
  file_of c =
      (codes "# XSAN Configuration File" ++ b'\n' ∷ [])
      ++ ((codes "# Generated at " ++ (libc.ctime ++ b'\n' ∷ []))
          ++ ((b'\n' ∷ []) ++ print_items c.items))

  -- The answer, and what the file holds if it was opened.
  unfoldable pub save_to_file :
      Option Config → (path : Option (List ℕ)) → (opened : Bool) → Bool × Option (List ℕ)
  save_to_file none path opened = (false, none)
  save_to_file (some c) none opened = (false, none)
  save_to_file (some c) (some path) opened =
      if opened then (true, some (file_of c)) else (false, none)
