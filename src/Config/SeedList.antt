-- ===== src/Config/SeedList.antt =====
-- The list of seed nodes that xsan_config_load_cluster_config of src/utils/config.c reads.
use xsan.Base.{
  ℕ, zero, suc, ◌+◌, ◌/◌, ◌%◌, ◌≤◌, Bool, true, Bool-cases, Option, none, some, List, [], ◌∷◌, ◌++◌,
  map, take, length, leb, ltb, not, ◌&&◌, arith, ◌≡◌, refl, ap, ◌∙◌, inl, inr, ==_self,
  take-length_append,
}
use mathlib.Core.List.{append-nil, append_assoc}
use xsan.StringUtils.{no_nul}
use xsan.StringUtils.Config.{lacks}
use xsan.StringUtils.Compare.{pos}
use xsan.StringUtils.Split.{member, flushed, tokens_from}
use xsan.StringUtils.Fields.{find_byte-append, drop_past}
use xsan.Config.Fields.{IsCopy, text_field-IsCopy}
use xsan.Config.Save.{decimal, print_long}
use xsan.Config.Decimal.{str_to_long-print_long}
use xsan.Config.Seeds.{
  find_last, SeedNode, parse_port, seed_of, parse_seed, seeds_from, parse_seeds,
}

-- No byte is one of `delim`.
unfoldable pub avoids : (delim : List ℕ) → List ℕ → Bool
avoids delim [] = true
avoids delim (c ∷ s) = not (member c delim) && avoids delim s

avoids-append :
    (delim s t : List ℕ)
    → avoids delim s ≡ true
    → avoids delim t ≡ true
    → avoids delim (s ++ t) ≡ true
unfolding avoids
avoids-append delim [] t h k = k
avoids-append delim (c ∷ s) t h k = ground (arith, avoids-append delim s t)

tokens_from-end :
    (delim cur s : List ℕ) → avoids delim s ≡ true → tokens_from delim cur s ≡ flushed (cur ++ s) []
unfolding tokens_from avoids
tokens_from-end delim cur [] h = rw append-nil refl
tokens_from-end delim cur (c ∷ s) h = elim (Bool-cases (member c delim)) [
  | inl e ↦ absurd (ground arith)
  | inr e ↦ rw e (
      tokens_from-end delim (cur ++ c ∷ []) s (ground arith)
      ∙ ap (λ t. flushed t []) (append_assoc cur (c ∷ []) s))
]

tokens_from-token :
    (delim cur s : List ℕ) (d : ℕ) (rest : List ℕ)
    → avoids delim s ≡ true
    → member d delim ≡ true
    → tokens_from delim cur (s ++ d ∷ rest) ≡ flushed (cur ++ s) (tokens_from delim [] rest)
unfolding tokens_from avoids
tokens_from-token delim cur [] d rest h k = rw (k, append-nil) refl
tokens_from-token delim cur (c ∷ s) d rest h k = elim (Bool-cases (member c delim)) [
  | inl e ↦ absurd (ground arith)
  | inr e ↦ rw e (
      tokens_from-token delim (cur ++ c ∷ []) s d rest (ground arith) k
      ∙ ap (λ t. flushed t (tokens_from delim [] rest)) (append_assoc cur (c ∷ []) s))
]

find_last-none : (b : ℕ) (s : List ℕ) → lacks b s ≡ true → find_last b s ≡ none
unfolding find_last lacks
find_last-none b [] h = refl
find_last-none b (c ∷ s) h = rw (find_last-none b s (ground arith)) (ground arith)

find_last-append :
    (b : ℕ) (s t : List ℕ) → lacks b t ≡ true → find_last b (s ++ b ∷ t) ≡ some (length s)
unfolding find_last
find_last-append b [] t h = rw (find_last-none b t h, ==_self b) refl
find_last-append b (c ∷ s) t h = rw (find_last-append b s t h) refl

unfoldable all_digits : List ℕ → Bool
all_digits [] = true
all_digits (c ∷ s) = leb b'0' c && leb c b'9' && all_digits s

all_digits-append :
    (s t : List ℕ) → all_digits s ≡ true → all_digits t ≡ true → all_digits (s ++ t) ≡ true
unfolding all_digits
all_digits-append [] t h k = k
all_digits-append (c ∷ s) t h k = ground (arith, all_digits-append s t)

all_digits-decimal : (fuel n : ℕ) → all_digits (decimal fuel n) ≡ true
unfolding all_digits decimal
all_digits-decimal zero n = refl
all_digits-decimal (suc fuel) n = elim (Bool-cases (ltb n 10)) [
  | inl e ↦ ground arith
  | inr e ↦ rw e (
      all_digits-append (decimal fuel (n / 10)) ((b'0' + n % 10) ∷ [])
        (all_digits-decimal fuel (n / 10)) (ground arith))
]

abbrev delims : List ℕ
delims = b',' ∷ b' ' ∷ b'\t' ∷ b'\n' ∷ []

avoids-all_digits : (s : List ℕ) → all_digits s ≡ true → avoids delims s ≡ true
unfolding all_digits avoids member
avoids-all_digits [] h = refl
avoids-all_digits (c ∷ s) h = ground (arith, avoids-all_digits s)

lacks-all_digits : (s : List ℕ) → all_digits s ≡ true → lacks b':' s ≡ true
unfolding all_digits lacks
lacks-all_digits [] h = refl
lacks-all_digits (c ∷ s) h = ground (arith, lacks-all_digits s)

-- What one entry is made of.
pub record SeedEntry : Type 0 where
  pub uuid : List ℕ
  pub id : List ℕ
  pub ip : List ℕ
  pub port : ℕ

unfoldable pub print_entry : SeedEntry → List ℕ
print_entry e = e.uuid ++ b'@' ∷ (e.ip ++ b':' ∷ decimal 20 e.port)

unfoldable pub print_entries : List SeedEntry → List ℕ
print_entries [] = []
print_entries (e ∷ []) = print_entry e
print_entries (e ∷ f ∷ es) = print_entry e ++ b',' ∷ print_entries (f ∷ es)

-- The node that an entry makes: its identifier and port, and its address cut to the 15 bytes of an
-- address and the 255 bytes of a host name.
pub record IsSeed (e : SeedEntry) (n : SeedNode) : Type 0 where
  pub id_is : n.id ≡ e.id
  pub hostname_is : IsCopy 256 (some e.ip) n.hostname
  pub storage_ip_is : IsCopy 16 (some e.ip) n.storage_addr.ip
  pub storage_port_is : n.storage_addr.port ≡ e.port
  pub mgmt_ip_is : IsCopy 16 (some e.ip) n.mgmt_addr.ip
  pub mgmt_port_is : n.mgmt_addr.port ≡ e.port

-- One node for each entry, in order.
abbrev pub AllSeeds : List SeedEntry → List SeedNode → Type 0
AllSeeds [] [] = Unit {0}
AllSeeds [] (n ∷ ns) = ⊥
AllSeeds (e ∷ es) [] = ⊥
AllSeeds (e ∷ es) (n ∷ ns) = IsSeed e n × AllSeeds es ns

abbrev node_of : SeedEntry → SeedNode
node_of e = seed_of e.ip e.port e.id

module _ (uuid_parse : List ℕ → Option (List ℕ)) where
  -- An entry that can be written in a list. The address may hold colons.
  pub record IsEntry (e : SeedEntry) : Type 0 where
    pub parses : uuid_parse e.uuid ≡ some e.id
    pub no_at : lacks b'@' e.uuid ≡ true
    pub uuid_whole : avoids delims e.uuid ≡ true
    pub ip_whole : avoids delims e.ip ≡ true
    pub ip_text : no_nul e.ip ≡ true
    pub port_positive : 1 ≤ e.port
    pub port_small : e.port ≤ 65535

  abbrev pub AllEntries : List SeedEntry → Type 0
  AllEntries [] = Unit {0}
  AllEntries (e ∷ es) = IsEntry e × AllEntries es

  parse_port-decimal :
      (port : ℕ) → 1 ≤ port → port ≤ 65535 → parse_port (decimal 20 port) ≡ some port
  unfolding parse_port print_long
  parse_port-decimal port lo hi =
      rw ((str_to_long-print_long (pos port) (ground arith)).0) (ground arith)

  parse_seed-print_entry :
      (e : SeedEntry) → IsEntry e → parse_seed uuid_parse (print_entry e) ≡ some (node_of e)
  unfolding parse_seed print_entry
  parse_seed-print_entry e h =
      rw
        (
          find_byte-append b'@' e.uuid (e.ip ++ b':' ∷ decimal 20 e.port) h.no_at,
          take-length_append (length e.uuid) e.uuid (b'@' ∷ (e.ip ++ b':' ∷ decimal 20 e.port))
              refl,
          drop_past _ e.uuid (e.ip ++ b':' ∷ decimal 20 e.port) b'@' refl,
          h.parses,
          find_last-append b':' e.ip (decimal 20 e.port)
              (lacks-all_digits _ (all_digits-decimal 20 e.port)),
          take-length_append (length e.ip) e.ip (b':' ∷ decimal 20 e.port) refl,
          drop_past _ e.ip (decimal 20 e.port) b':' refl,
          parse_port-decimal e.port h.port_positive h.port_small,
        )
        refl

  print_entry-avoids : (e : SeedEntry) → IsEntry e → avoids delims (print_entry e) ≡ true
  unfolding print_entry
  print_entry-avoids e h = avoids-append delims e.uuid _ h.uuid_whole (
      avoids-append delims (b'@' ∷ []) _ (unfold avoids member in refl) (
        avoids-append delims e.ip _ h.ip_whole (
          avoids-append delims (b':' ∷ []) _ (unfold avoids member in refl)
            (avoids-all_digits _ (all_digits-decimal 20 e.port)))))

  -- An entry is not empty.
  flushed-print_entry :
      (e : SeedEntry) (ts : List (List ℕ)) → flushed (print_entry e) ts ≡ print_entry e ∷ ts
  unfolding print_entry
  flushed-print_entry e ts = go e.uuid (e.ip ++ b':' ∷ decimal 20 e.port)
    where
      go : (u t : List ℕ) → flushed (u ++ b'@' ∷ t) ts ≡ (u ++ b'@' ∷ t) ∷ ts
      go [] t = refl
      go (c ∷ u) t = refl

  tokens_from-print_entries :
      (es : List SeedEntry)
      → AllEntries es
      → tokens_from delims [] (print_entries es) ≡ map print_entry es
  unfolding print_entries
  tokens_from-print_entries [] h = unfold tokens_from in refl
  tokens_from-print_entries (e ∷ []) (h, hs) =
      tokens_from-end delims [] (print_entry e) (print_entry-avoids e h) ∙ flushed-print_entry e []
  tokens_from-print_entries (e ∷ f ∷ es) (h, hs) =
      tokens_from-token delims [] (print_entry e) b',' (print_entries (f ∷ es))
        (print_entry-avoids e h) (unfold member in refl)
      ∙ flushed-print_entry e (tokens_from delims [] (print_entries (f ∷ es)))
      ∙ ap (λ ts. print_entry e ∷ ts) (tokens_from-print_entries (f ∷ es) hs)

  entry_seed_lem : (e : SeedEntry) → IsEntry e → IsSeed e (node_of e)
  unfolding seed_of
  entry_seed_lem e h =
      let short = text_field-IsCopy 16 (some e.ip) (omega arith) h.ip_text in
      record {
        id_is = refl;
        hostname_is = text_field-IsCopy 256 (some e.ip) (omega arith) h.ip_text;
        storage_ip_is = short;
        storage_port_is = refl;
        mgmt_ip_is = short;
        mgmt_port_is = refl;
      }

  seeds_from-AllSeeds :
      (left : ℕ) (es : List SeedEntry)
      → AllEntries es
      → AllSeeds (take left es) (seeds_from uuid_parse left (map print_entry es))
  unfolding seeds_from
  seeds_from-AllSeeds zero [] h = tt
  seeds_from-AllSeeds (suc left) [] h = tt
  seeds_from-AllSeeds zero (e ∷ es) h = tt
  seeds_from-AllSeeds (suc left) (e ∷ es) (h, hs) =
      rw (parse_seed-print_entry e h, seeds_from, AllSeeds)
        (entry_seed_lem e h, seeds_from-AllSeeds left es hs)

  -- A list of entries `uuid@address:port`, joined by commas, whose identifiers spdk_uuid_parse takes,
  -- is read as one node for each of its first 16 entries, in order: with the entry's identifier, its
  -- port for both addresses, and as host name and as both addresses the entry's address, as much of
  -- it as fits into 255 and into 15 bytes. The address may hold colons; neither it nor the
  -- identifier holds a separator, the identifier no `@`, and the ports are from 1 to 65535.
  pub parse_seeds-AllSeeds :
      (es : List SeedEntry)
      → AllEntries es
      → AllSeeds (take 16 es) (parse_seeds uuid_parse (print_entries es))
  unfolding parse_seeds
  parse_seeds-AllSeeds es h = rw (tokens_from-print_entries es h) (seeds_from-AllSeeds 16 es h)
