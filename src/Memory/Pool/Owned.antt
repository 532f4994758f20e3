-- ===== src/Memory/Pool/Owned.antt =====
-- No two clients hold the same bytes of a memory pool of src/utils/memory.c.
use mathlib.Core.Path.{subst}
use mathlib.Core.Option.{none-ne-some, some-injective}
use xsan.Base.{
  ℕ, true, false, Option, none, some, List, [], ◌∷◌, ◌==◌, ltb, not, inl, inr, ◌≡◌, ◌≢◌, refl, sym,
  ap, ◌∙◌, if_cases,
}
use xsan.Memory.Pool.{
  PoolBlock, write_block, Pool, BlockAnswer, answer_refused, with_block, take_free, make_block,
  pool_alloc, find_block, give_back, give_back_found, pool_free,
}
use xsan.Memory.Pool.Chains.{
  IsFreeChain, NotAmong, AllDifferent, write_block_other, write_block_same, open_chain,
  IsFreeChain-write_block, NotAmong-free, write_block_cases, old_block, write_block_twice,
}

-- Somebody holds these bytes.
unfoldable pub IsHeld : Pool → ℕ → Type 0
IsHeld p r = (q : ℕ) × (b : PoolBlock) × (p.heap q ≡ some b) × (b.in_use ≡ true) × (b.bytes ≡ r)

pub record IsValid (p : Pool) : Type 0 where
  pub free_list : List ℕ
  pub chain : IsFreeChain p.heap p.free_blocks free_list
  pub different : AllDifferent free_list
  pub null : p.heap 0 ≡ none
  pub bytes_differ :
      (x y : ℕ) (b c : PoolBlock)
      → p.heap x ≡ some b
      → p.heap y ≡ some c
      → b.bytes ≡ c.bytes
      → x ≡ y

-- What xsan_malloc promises of a new block: neither of its addresses is in use.
pub record IsNew (p : Pool) (a : BlockAnswer) : Type 0 where
  pub not_null : a.at ≢ 0
  pub no_block : p.heap a.at ≡ none
  pub new_bytes : (x : ℕ) (b : PoolBlock) → p.heap x ≡ some b → b.bytes ≢ a.bytes

bytes_differ-rewrite :
    (p : Pool) (y : ℕ) (b c : PoolBlock)
    → IsValid p
    → p.heap y ≡ some b
    → b.bytes ≡ c.bytes
    → (x z : ℕ) (d e : PoolBlock) → write_block p.heap y c x ≡ some d
    → write_block p.heap y c z ≡ some e
    → d.bytes ≡ e.bytes
    → x ≡ z
bytes_differ-rewrite p y b c v is same x z d e ex ez q =
    let (d0, old_d, bytes_d) = old_block p.heap y b c is same x d ex in
    let (e0, old_e, bytes_e) = old_block p.heap y b c is same z e ez in
    v.bytes_differ x z d0 e0 old_d old_e (bytes_d ∙ q ∙ sym bytes_e)

-- A block that is there is not at NULL.
not_null : (p : Pool) (y : ℕ) (b : PoolBlock) → IsValid p → p.heap y ≡ some b → y ≢ 0
not_null p y b v is e = none-ne-some b (sym v.null ∙ ap p.heap (sym e) ∙ is)

take_free-IsValid :
    (p : Pool) (o : Option PoolBlock)
    → p.heap p.free_blocks ≡ o
    → IsValid p
    → IsValid (take_free p o).1
take_free-IsValid p none e v = v
take_free-IsValid p (some b) e v = go v.free_list v.chain v.different
  where
    used : PoolBlock
    used = record b { in_use = true }

    go :
        (free : List ℕ)
        → IsFreeChain p.heap p.free_blocks free
        → AllDifferent free
        → IsValid (take_free p (some b)).1
    go [] f d = absurd (not_null p p.free_blocks b v e (unfold IsFreeChain in f))
    go (x ∷ xs) f (n, d) =
        let (at, c, is, unused, rest) = open_chain p.heap p.free_blocks x xs f in
        let same : b ≡ c = some-injective b c (sym e ∙ ap p.heap at ∙ is) in
        record {
          free_list = xs;
          chain =
              IsFreeChain-write_block p.heap p.free_blocks used b.next xs
                (subst (λ y. NotAmong y xs) (sym at) n)
                (subst (λ (k : PoolBlock). IsFreeChain p.heap k.next xs) (sym same) rest);
          different = d;
          null =
              write_block_other p.heap p.free_blocks 0 used (not_null p p.free_blocks b v e)
              ∙ v.null;
          bytes_differ = bytes_differ-rewrite p p.free_blocks b used v e refl;
        }

-- A new block is not on the free list.
NotAmong-new : (p : Pool) (a : BlockAnswer) (v : IsValid p) → IsNew p a → NotAmong a.at v.free_list
NotAmong-new p a v new =
    NotAmong-free p.heap a.at p.free_blocks v.free_list
      (λ b e. absurd (none-ne-some b (sym new.no_block ∙ e))) v.chain

bytes_differ-new :
    (p : Pool) (a : BlockAnswer) (c : PoolBlock)
    → IsValid p
    → IsNew p a
    → c.bytes ≡ a.bytes
    → (x z : ℕ) (d e : PoolBlock) → write_block p.heap a.at c x ≡ some d
    → write_block p.heap a.at c z ≡ some e
    → d.bytes ≡ e.bytes
    → x ≡ z
bytes_differ-new p a c v new same x z d e ex ez q = elim (write_block_cases p.heap a.at x c d ex) [
  | inl (at_x, is_d) ↦ elim (write_block_cases p.heap a.at z c e ez) [
    | inl (at_z, is_e) ↦ sym at_x ∙ at_z
    | inr (n, old) ↦
        absurd (new.new_bytes z e old (sym q ∙ ap (λ (k : PoolBlock). k.bytes) (sym is_d) ∙ same))
  ]
  | inr (n, old) ↦ elim (write_block_cases p.heap a.at z c e ez) [
    | inl (at_z, is_e) ↦
        absurd (new.new_bytes x d old (q ∙ ap (λ (k : PoolBlock). k.bytes) (sym is_e) ∙ same))
    | inr (m, old_e) ↦ v.bytes_differ x z d e old old_e q
  ]
]

make_block-IsValid :
    (p : Pool) (a : BlockAnswer) → IsNew p a → IsValid p → IsValid (make_block p a).1
make_block-IsValid p a new v =
    if_cases (λ (r : ℕ × Pool). IsValid r.1) (answer_refused a) _ _ (λ r. v)
      λ r. record {
        free_list = v.free_list;
        chain =
            IsFreeChain-write_block p.heap a.at _ p.free_blocks v.free_list (NotAmong-new p a v new)
              v.chain;
        different = v.different;
        null = write_block_other p.heap a.at 0 _ new.not_null ∙ v.null;
        bytes_differ = bytes_differ-new p a _ v new refl;
      }

pub pool_alloc-IsValid :
    (p : Pool) (a : BlockAnswer) → IsNew p a → IsValid p → IsValid (pool_alloc p a).1
unfolding pool_alloc
pool_alloc-IsValid p a new v =
    if_cases (λ (r : ℕ × Pool). IsValid r.1) (not (p.free_blocks == 0)) _ _
      (λ e. take_free-IsValid p (p.heap p.free_blocks) refl v)
      λ e.
        if_cases (λ (r : ℕ × Pool). IsValid r.1) (ltb p.current_blocks p.config.max_blocks) _ _
          (λ l. make_block-IsValid p a new v) λ l. v

give_back-IsValid :
    (p : Pool) (at : ℕ) (o : Option PoolBlock)
    → p.heap at ≡ o
    → IsValid p
    → IsValid (give_back p at o)
give_back-IsValid p at none e v = v
give_back-IsValid p at (some b) e v =
    if_cases IsValid b.in_use _ _
      (λ used.
        let c : PoolBlock = record b { in_use = false; next = p.free_blocks } in
        let apart : NotAmong at v.free_list =
          NotAmong-free p.heap at p.free_blocks v.free_list
            (λ d is. ap (λ (k : PoolBlock). k.in_use) (some-injective d b (sym is ∙ e)) ∙ used)
            v.chain in
        record {
          free_list = at ∷ v.free_list;
          chain =
              unfold IsFreeChain in
              (
                refl,
                c,
                write_block_same p.heap at c,
                refl,
                IsFreeChain-write_block p.heap at c p.free_blocks v.free_list apart v.chain,
              );
          different = (apart, v.different);
          null = write_block_other p.heap at 0 c (not_null p at b v e) ∙ v.null;
          bytes_differ = bytes_differ-rewrite p at b c v e refl;
        })
      (λ unused. v)

pub pool_free-IsValid :
    (fuel : ℕ) (p : Pool) (bytes : ℕ) → IsValid p → IsValid (pool_free fuel p bytes)
unfolding pool_free
pool_free-IsValid fuel p bytes v =
    if_cases IsValid (bytes == 0) _ _ (λ z. v) λ nz. go (find_block fuel p.heap p.all_blocks bytes)
  where
    go : (o : Option ℕ) → IsValid (give_back_found p o)
    go none = v
    go (some at) = give_back-IsValid p at (p.heap at) refl v

pub with_block-IsValid :
    (p : Pool) (a : BlockAnswer)
    → IsNew p a
    → p.free_blocks ≡ p.all_blocks
    → IsValid p
    → IsValid (with_block p a)
unfolding with_block
with_block-IsValid p a new same v =
    let first : PoolBlock = record { bytes = a.bytes; in_use = false; next = p.free_blocks } in
    let c : PoolBlock = record { bytes = a.bytes; in_use = false; next = p.all_blocks } in
    let once : write_block (write_block p.heap a.at first) a.at c ≡ write_block p.heap a.at c =
      write_block_twice p.heap a.at first c in
    record {
      free_list = a.at ∷ v.free_list;
      chain =
          unfold IsFreeChain in
          (
            refl,
            c,
            write_block_same (write_block p.heap a.at first) a.at c,
            refl,
            subst (λ h. IsFreeChain h p.all_blocks v.free_list) (sym once)
                (subst (λ y. IsFreeChain (write_block p.heap a.at c) y v.free_list) (same)
                  (IsFreeChain-write_block p.heap a.at c p.free_blocks v.free_list
                    (NotAmong-new p a v new) v.chain)),
          );
      different = (NotAmong-new p a v new, v.different);
      null = ap (λ h. h 0) once ∙ write_block_other p.heap a.at 0 c new.not_null ∙ v.null;
      bytes_differ = λ x z d e ex ez q.
          bytes_differ-new p a c v new refl x z d e (ap (λ h. h x) (sym once) ∙ ex)
            (ap (λ h. h z) (sym once) ∙ ez) q;
    }
