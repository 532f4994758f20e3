-- ===== src/StringUtils/Copy.antt =====
-- xsan_strcpy_safe and xsan_strcat_safe. A destination may be longer than the size that the caller
-- states; its later bytes are other memory.
use xsan.Base.{
  ℕ, ◌+◌, ◌-◌, Option, none, some, List, ltb, leb, ◌==◌, if◌then◌else◌, set, take, length,
}
use xsan.StringUtils.{text, store}

-- How many bytes of a text of `n` bytes fit before the NUL.
abbrev pub fitting : ℕ → ℕ → ℕ
fitting n size = if ltb n (size - 1) then n else size - 1

unfoldable pub strcpy_safe : Option (List ℕ) → Option (List ℕ) → ℕ → ℕ × Option (List ℕ)
strcpy_safe none src size = (0, none)
strcpy_safe (some dest) none size = (0, some dest)
strcpy_safe (some dest) (some src) size =
    if size == 0
    then (0, some dest)
    else let copy_len = fitting (length src) size in
      (copy_len, some (set (store dest 0 (take copy_len src)) copy_len 0))

unfoldable pub strcat_safe : Option (List ℕ) → Option (List ℕ) → ℕ → ℕ × Option (List ℕ)
strcat_safe none src size = (0, none)
strcat_safe (some dest) none size = (0, some dest)
strcat_safe (some dest) (some src) size =
    if size == 0
    then (0, some dest)
    else let dest_len = length (text (take size dest)) in
      if leb size dest_len
      then (dest_len, some dest)
      else let copy_len = fitting (length src) (size - dest_len) in
        (
          dest_len + copy_len,
          some (set (store dest dest_len (take copy_len src)) (dest_len + copy_len) 0),
        )
