-- ===== src/IoRequest/Balance.antt =====
-- What becomes of the resources of a request, and where its blocks are.
use mathlib.Core.Option.{none-ne-some, some-injective}
use mathlib.Core.Path.{subst}
use xsan.Base.{
  ℕ, ◌+◌, ◌/◌, ◌%◌, ◌^◌, ◌≤◌, Bool, true, false, Bool-cases, ==_iff, Option-cases, Option, none,
  some, List, [], ◌∷◌, ◌++◌, ◌==◌, if◌then◌else◌, not, ◌||◌, arith, ◌≡◌, refl, sym, inl, inr,
}
use xsan.Status.{Status, is_ok}
use xsan.IoRequest.{
  Request, made, request_create, io_size, Effect, open_desc, close_desc, get_channel, put_channel,
  dma_malloc, dma_free, device_read, device_write, call_back, free_request, Queued, queued,
  no_memory_left, refused, Device, Outcome, submit, take_channel, prepare, ended, send, refusal,
  use_internal, completion_cb, request_free, release,
}

-- The request once the volume manager has named the block device, with its descriptor or none.
abbrev pub named : (own : Bool) → Request → Request
named own r = record r { bdev_named = true; bdev_desc = not own }

abbrev completed : (success : Bool) (bytes : List ℕ) → Option Request → List Effect
completed success bytes none = []
completed success bytes (some r) = (completion_cb success bytes r).0

unfoldable pub finish : (success : Bool) (bytes : List ℕ) → Outcome → List Effect
finish success bytes o =
    o.effects ++ (if is_ok o.returned then completed success bytes o.request else [])

-- One submission and, if it is accepted, its completion.
unfoldable pub exchange : Device → (success : Bool) (bytes : List ℕ) → Request → List Effect
unfolding finish
exchange d success bytes r = finish success bytes (submit d r)

module _ (f : Effect → Bool) where
  unfoldable pub tally : List Effect → ℕ
  tally [] = 0
  tally (e ∷ es) = (if f e then 1 else 0) + tally es

abbrev pub is_open : Effect → Bool
is_open open_desc = true
is_open _ = false

abbrev pub is_close : Effect → Bool
is_close close_desc = true
is_close _ = false

abbrev pub is_get : Effect → Bool
is_get get_channel = true
is_get _ = false

abbrev pub is_put : Effect → Bool
is_put put_channel = true
is_put _ = false

abbrev pub is_malloc : Effect → Bool
is_malloc (dma_malloc n) = true
is_malloc _ = false

abbrev pub is_free : Effect → Bool
is_free dma_free = true
is_free _ = false

abbrev pub is_call : Effect → Bool
is_call (call_back e) = true
is_call _ = false

abbrev pub is_end : Effect → Bool
is_end free_request = true
is_end _ = false

abbrev pub is_sent : Effect → Bool
is_sent (device_read o n) = true
is_sent (device_write o n b) = true
is_sent _ = false

-- Descriptors and DMA buffers that are taken are given back, a channel only with a descriptor of the
-- request's own. The caller is called, and the request freed, once if the device was asked and never
-- otherwise.
abbrev pub IsBalanced : (own : Bool) → List Effect → Type 0
IsBalanced own fx =
    (tally is_open fx ≡ tally is_close fx)
    × (tally is_put fx ≡ (if own then tally is_get fx else 0))
    × (tally is_malloc fx ≡ tally is_free fx)
    × (tally is_call fx ≡ tally is_sent fx)
    × (tally is_end fx ≡ tally is_sent fx)
    × (tally is_sent fx ≤ 1)

module _ (buffer bytes : List ℕ) (offset len bs : ℕ) (success : Bool) where
  abbrev r0 : (own is_read : Bool) → Request
  r0 own is_read = named own (made (some buffer) offset len bs is_read)

  -- From the DMA buffer on.
  abbrev ready : (own is_read : Bool) → Request
  ready own is_read = record (r0 own is_read) {
    bdev_desc = true;
    io_channel = true;
    own_spdk_resources = own;
  }

  abbrev before : (own : Bool) → List Effect
  before own = (if own then open_desc ∷ [] else []) ++ get_channel ∷ []

  sized :
      (own : Bool) (a : Queued) (m : Option (List ℕ)) (rd : Bool) (n : ℕ)
      → IsBalanced own (finish success bytes (use_internal a (ready own rd) n m (before own)))
  unfolding tally finish use_internal completion_cb send refusal release request_free
  sized true a none rd n = (refl, refl, refl, refl, refl, omega arith)
  sized false a none rd n = (refl, refl, refl, refl, refl, omega arith)
  sized true queued (some b) true n = (refl, refl, refl, refl, refl, omega arith)
  sized true queued (some b) false n = (refl, refl, refl, refl, refl, omega arith)
  sized true no_memory_left (some b) true n = (refl, refl, refl, refl, refl, omega arith)
  sized true no_memory_left (some b) false n = (refl, refl, refl, refl, refl, omega arith)
  sized true refused (some b) true n = (refl, refl, refl, refl, refl, omega arith)
  sized true refused (some b) false n = (refl, refl, refl, refl, refl, omega arith)
  sized false queued (some b) true n = (refl, refl, refl, refl, refl, omega arith)
  sized false queued (some b) false n = (refl, refl, refl, refl, refl, omega arith)
  sized false no_memory_left (some b) true n = (refl, refl, refl, refl, refl, omega arith)
  sized false no_memory_left (some b) false n = (refl, refl, refl, refl, refl, omega arith)
  sized false refused (some b) true n = (refl, refl, refl, refl, refl, omega arith)
  sized false refused (some b) false n = (refl, refl, refl, refl, refl, omega arith)

  mismatch :
      (w rd : Bool)
      → IsBalanced w (
          finish success bytes
            (ended Status.invalid_param (some (ready w rd)) (before w ++ release (ready w rd))))
  unfolding tally finish completion_cb release request_free
  mismatch true rd = (refl, refl, refl, refl, refl, omega arith)
  mismatch false rd = (refl, refl, refl, refl, refl, omega arith)

  no_channel :
      (r : Request)
      → IsBalanced true
          (finish success bytes (ended Status.io (some r) (open_desc ∷ close_desc ∷ [])))
  unfolding tally finish
  no_channel r = (refl, refl, refl, refl, refl, omega arith)

  after_channel :
      (own : Bool) (d : Device) (rd : Bool)
      → IsBalanced own (finish success bytes (prepare d (ready own rd) (before own)))
  unfolding prepare
  after_channel own d rd = elim (Bool-cases (len == io_size d (r0 own rd))) [
    | inl e ↦ rw (prepare, e) (sized own d.answer d.fresh_dma rd (io_size d (r0 own rd)))
    | inr e ↦ rw (prepare, e) (mismatch own rd)
  ]

  quiet :
      (own : Bool) (e : Status) (r : Request)
      → is_ok e ≡ false
      → IsBalanced own (finish success bytes (ended e (some r) []))
  unfolding tally finish
  quiet true e r h = rw (finish, h) (refl, refl, refl, refl, refl, omega arith)
  quiet false e r h = rw (finish, h) (refl, refl, refl, refl, refl, omega arith)

  opened_lem :
      (own : Bool) (d : Device) (rd : Bool)
      → IsBalanced own (
          finish success bytes (
            take_channel d
              (record (r0 own rd) { bdev_desc = true; own_spdk_resources = own })
              (if own then open_desc ∷ [] else [])))
  unfolding take_channel
  opened_lem true d rd = elim (Bool-cases d.has_channel) [
    | inl e ↦ rw (take_channel, e) (after_channel true d rd)
    | inr e ↦ rw (take_channel, e) (no_channel _)
  ]
  opened_lem false d rd = elim (Bool-cases d.has_channel) [
    | inl e ↦ rw (take_channel, e) (after_channel false d rd)
    | inr e ↦ rw (take_channel, e) (quiet false Status.io _ refl)
  ]

  balanced :
      (own : Bool) (d : Device) (rd : Bool)
      → ((e : Status) → d.open_error ≡ some e → is_ok e ≡ false)
      → IsBalanced own (finish success bytes (submit d (r0 own rd)))
  unfolding submit
  balanced own d rd h = elim (Bool-cases ((len / bs) % 2 ^ 32 == 0)) [
    | inl e ↦ rw (submit, e) (quiet own Status.invalid_param _ refl)
    | inr e ↦ elim (Bool-cases d.on_spdk_thread) [
      | inr t ↦ rw (submit, e, t) (quiet own Status.thread_context _ refl)
      | inl t ↦ elim (Bool-cases d.found) [
        | inr f ↦ rw (submit, e, t, f) (quiet own Status.not_found _ refl)
        | inl f ↦ rw (submit, e, t, f) (found own)
      ]
    ]
  ]
    where
      found :
          (w : Bool)
          → IsBalanced w (
              finish success bytes (
                if not w then take_channel d (r0 w rd) [] else elim d.open_error as (λ _. Outcome) [
                  | some e ↦ ended e (some (r0 w rd)) []
                  | none ↦
                      take_channel d
                        (record (r0 w rd) { bdev_desc = true; own_spdk_resources = true })
                        (open_desc ∷ [])
                ]))
      found false = opened_lem false d rd
      found true = elim (Option-cases d.open_error) [
        | inl e ↦ rw e (opened_lem true d rd)
        | inr (x, e) ↦ rw e (quiet true x _ (h x e))
      ]

-- What xsan_io_request_create returned.
pub create_made :
    (memory : Bool) (buffer : List ℕ) (offset len bs : ℕ) (rd cb : Bool) (r : Request)
    → request_create memory (some buffer) offset len bs rd cb ≡ some r
    → r ≡ made (some buffer) offset len bs rd
unfolding request_create
create_made memory buffer offset len bs rd cb r h =
    elim (Bool-cases (len == 0 || (bs == 0 || not cb))) [
      | inl e ↦ absurd (none-ne-some r (simp e at h))
      | inr e ↦ elim (Bool-cases (not (offset % bs == 0) || not (len % bs == 0))) [
        | inl a ↦ absurd (none-ne-some r (simp (e, a) at h))
        | inr a ↦ elim (Bool-cases memory) [
          | inl m ↦ sym (some-injective _ r (simp (e, a, m) at h))
          | inr m ↦ absurd (none-ne-some r (simp (e, a, m) at h))
        ]
      ]
    ]

pub create_aligned :
    (memory : Bool) (buffer : List ℕ) (offset len bs : ℕ) (rd cb : Bool) (r : Request)
    → request_create memory (some buffer) offset len bs rd cb ≡ some r
    → ((len == 0) ≡ false) × (offset % bs ≡ 0) × (len % bs ≡ 0)
unfolding request_create
create_aligned memory buffer offset len bs rd cb r h =
    elim (Bool-cases (len == 0 || (bs == 0 || not cb))) [
      | inl e ↦ absurd (none-ne-some r (simp e at h))
      | inr e ↦ elim (Bool-cases (not (offset % bs == 0) || not (len % bs == 0))) [
        | inl a ↦ absurd (none-ne-some r (simp (e, a) at h))
        | inr a ↦ (
          ground (arith, e),
          (==_iff (offset % bs) 0).0 (ground (arith, a)),
          (==_iff (len % bs) 0).0 (ground (arith, a)),
        )
      ]
    ]

-- Whatever the device and the allocations answer, a request from xsan_io_request_create that is
-- submitted once and, if it is accepted, completed, closes each descriptor that it opened and frees
-- each DMA buffer that it took. It puts back the I/O channel if it opened the descriptor itself; with
-- a descriptor of the caller's it puts back none. The caller's function is called, and the request
-- freed, once if the device was asked, and never otherwise. An error from opening the device is not
-- XSAN_OK.
pub exchange-IsBalanced :
    (own memory success : Bool) (buffer bytes : List ℕ) (offset len bs : ℕ) (rd cb : Bool)
    (r : Request) (d : Device)
    → request_create memory (some buffer) offset len bs rd cb ≡ some r
    → ((e : Status) → d.open_error ≡ some e → is_ok e ≡ false)
    → IsBalanced own (exchange d success bytes (named own r))
unfolding exchange
exchange-IsBalanced own memory success buffer bytes offset len bs rd cb r d c h =
    subst (λ q. IsBalanced own (finish success bytes (submit d (named own q))))
      (sym (create_made memory buffer offset len bs rd cb r c))
      (balanced buffer bytes offset len bs success own d rd h)
