-- ===== src/Config/Items.antt =====
-- What the lookups of src/utils/config.c find after an item is set or removed.
use xsan.Base.{
  ℕ, Bool, true, Bool-cases, Option-cases, some, List, [], ◌∷◌, if◌then◌else◌, ◌&&◌, ◌||◌, inl, inr,
  arith, ◌≡◌, refl, ap, ◌∙◌,
}
use xsan.StringUtils.Convert.{same_text}
use xsan.Config.{
  Value, Item, Config, Memory, find_in, kept_value, update, set_found, set_item, is_present,
}

pub same_text_self : (s : List ℕ) → same_text s s ≡ true
unfolding same_text
same_text_self [] = refl
same_text_self (c ∷ s) = ground (arith, same_text_self s)

pub same_text_eq : (s t : List ℕ) → same_text s t ≡ true → s ≡ t
unfolding same_text
same_text_eq [] [] h = refl
same_text_eq [] (d ∷ t) h = absurd (ground arith)
same_text_eq (c ∷ s) [] h = absurd (ground arith)
same_text_eq (c ∷ s) (d ∷ t) h = ground (arith, same_text_eq s t)

pub same_text_right : (s t u : List ℕ) → same_text s t ≡ true → same_text s u ≡ same_text t u
same_text_right s t u h = ap (λ x. same_text x u) (same_text_eq s t h)

pub same_text_sym : (s t : List ℕ) → same_text s t ≡ same_text t s
unfolding same_text
same_text_sym [] [] = refl
same_text_sym [] (d ∷ t) = refl
same_text_sym (c ∷ s) [] = refl
same_text_sym (c ∷ s) (d ∷ t) = ground (arith, same_text_sym s t)

find_in-update :
    (its : List Item) (k j : List ℕ) (v : Value)
    → find_in (update its k v) j
      ≡ (if same_text k j && is_present (find_in its k) then some v else find_in its j)
unfolding find_in update
find_in-update [] k j v = ground arith
find_in-update (it ∷ its) k j v = elim (Bool-cases (same_text it.key k)) [
  | inl e ↦ ground (arith, same_text_right it.key k j)
  | inr e ↦ ground (arith, find_in-update its k j v, same_text_right it.key j k, same_text_sym k j)
]

-- The new item is in the list once both of its allocations have succeeded.
abbrev pub is_linked : Memory → Config → List ℕ → Bool
is_linked m c k = is_present (find_in c.items k) || (m.for_item && m.for_key)

-- Setting a key succeeds exactly if the item exists or can be made and the value can be copied.
-- Whatever it returns, the key then has the value, or no text where the copy of a text has failed,
-- unless there is no item; all other keys keep theirs.
pub find_in-set_item :
    (m : Memory) (c : Config) (k j : List ℕ) (v : Value)
    → ((set_item m c k v).0 ≡ (is_linked m c k && (kept_value m v).0))
      × (find_in (set_item m c k v).1.items j ≡ (
          if same_text k j && is_linked m c k then some (kept_value m v).1 else find_in c.items j))
unfolding set_item set_found
find_in-set_item m c k j v = elim (Option-cases (find_in c.items k)) [
  | inl e ↦ (rw e (ground arith), rw e (unfold find_in in ground arith))
  | inr (old, e) ↦ (rw e refl, rw e (find_in-update c.items k j (kept_value m v).1 ∙ rw e refl))
]
