-- ===== src/IoRequest/Served.antt =====
-- A request that every part of the device serves.
use native.Mathlib.Nat.{mod-eq_of_lt}
use xsan.Base.{
  ℕ, ◌*◌, ◌/◌, ◌%◌, ◌^◌, ◌<◌, Bool, true, false, none, some, List, [], ◌∷◌, ◌++◌, ◌==◌,
  if◌then◌else◌, arith, ◌≡◌, refl, sym, ap, ◌∙◌, size_mod, ==_iff,
}
use xsan.Status.{Status}
use xsan.IoRequest.{
  Request, made, request_create, io_size, Effect, open_desc, close_desc, get_channel, put_channel,
  dma_malloc, dma_free, device_read, device_write, call_back, free_request, queued, Device, Outcome,
  submit, take_channel, prepare, completion_cb, request_free, release, copied_over,
}
use xsan.IoRequest.Balance.{named, exchange, finish, create_made, create_aligned}

-- The device has blocks of `bs` bytes, is there, and has room for the request.
pub record IsServing (d : Device) (bs : ℕ) (dma : List ℕ) : Type 0 where
  pub thread : d.on_spdk_thread ≡ true
  pub is_found : d.found ≡ true
  pub opens : d.open_error ≡ none
  pub channel : d.has_channel ≡ true
  pub same_size : d.block_size ≡ bs
  pub memory : d.fresh_dma ≡ some dma
  pub takes : d.answer ≡ queued

abbrev pub operation : (rd : Bool) (start blocks : ℕ) (bytes : List ℕ) → Effect
operation rd start blocks bytes =
    if rd then device_read start blocks else device_write start blocks bytes

-- What is asked for in order, the device being asked for `blocks` blocks from `start` on.
abbrev pub served : (own rd : Bool) (len start blocks : ℕ) (bytes : List ℕ) → List Effect
served own rd len start blocks bytes =
    (if own then open_desc ∷ [] else [])
    ++ get_channel
      ∷ dma_malloc len
      ∷ operation rd start blocks bytes
      ∷ ((if own then put_channel ∷ close_desc ∷ [] else [])
          ++ call_back Status.ok ∷ dma_free ∷ free_request ∷ [])

whole_size : (len bs : ℕ) → len % bs ≡ 0 → (len / bs) * bs ≡ len
whole_size len bs h = grind arith

module _ (buffer bytes dma : List ℕ) (offset len bs : ℕ) where
  abbrev r0 : (own rd : Bool) → Request
  r0 own rd = named own (made (some buffer) offset len bs rd)

  abbrev pub payload : Bool → List ℕ
  payload rd = if rd then dma else copied_over len buffer dma

  abbrev opened : (own rd : Bool) → Request
  opened own rd = record (r0 own rd) {
    bdev_desc = true;
    io_channel = true;
    own_spdk_resources = own;
  }

  abbrev pub running : (own rd : Bool) → Request
  running own rd = record (opened own rd) {
    dma_buffer = some (payload rd);
    dma_buffer_is_internal = true;
  }

  abbrev accepted : (own rd : Bool) (n : ℕ) (fx : List Effect) → Outcome
  accepted own rd n fx = record {
    returned = Status.ok;
    request = some (running own rd);
    effects = fx ++ dma_malloc len ∷ [] ++ operation rd (offset / bs) n (payload rd) ∷ [];
  }

  abbrev before : Bool → List Effect
  before own = (if own then open_desc ∷ [] else []) ++ get_channel ∷ []

  finish_lem :
      (own rd : Bool) (n : ℕ)
      → finish true bytes (accepted own rd n (before own))
        ≡ served own rd len (offset / bs) n (payload rd)
  unfolding finish completion_cb release request_free
  finish_lem true true n = refl
  finish_lem true false n = refl
  finish_lem false true n = refl
  finish_lem false false n = refl

  copied_lem :
      (own rd : Bool)
      → (completion_cb true bytes (running own rd)).1
        ≡ some (if rd then copied_over len bytes buffer else buffer)
  unfolding completion_cb
  copied_lem own true = refl
  copied_lem own false = refl

  module _ (d : Device) (ready : IsServing d bs dma) (fits : len / bs < 2 ^ 32)
      (small : len < size_mod) (whole : len % bs ≡ 0) (some_bytes : (len == 0) ≡ false) where
    blocks : (len / bs) % 2 ^ 32 ≡ len / bs
    blocks = mod-eq_of_lt fits

    some_blocks : ((len / bs) % 2 ^ 32 == 0) ≡ false
    some_blocks =
        let size : (len / bs) * bs ≡ len = whole_size len bs whole in
        ap (λ n. n == 0) blocks ∙ grind (arith, some_bytes)

    size_lem : (own rd : Bool) → io_size d (r0 own rd) ≡ len
    size_lem own rd =
        ap (λ n. (n * d.block_size) % size_mod) blocks
        ∙ ap (λ b. ((len / bs) * b) % size_mod) ready.same_size
        ∙ ap (λ n. n % size_mod) (whole_size len bs whole)
        ∙ mod-eq_of_lt small

    same_length : (own rd : Bool) → (len == io_size d (r0 own rd)) ≡ true
    same_length own rd = (==_iff len (io_size d (r0 own rd))).1 (sym (size_lem own rd))

    prepare_lem :
        (own rd : Bool) (fx : List Effect)
        → prepare d (opened own rd) fx ≡ accepted own rd ((len / bs) % 2 ^ 32) fx
    unfolding prepare
    prepare_lem own true fx =
        rw (prepare, same_length own true, ready.memory, ready.takes, size_lem own true) refl
    prepare_lem own false fx =
        rw (prepare, same_length own false, ready.memory, ready.takes, size_lem own false) refl

    submit_lem :
        (own rd : Bool) → submit d (r0 own rd) ≡ accepted own rd ((len / bs) % 2 ^ 32) (before own)
    unfolding submit take_channel
    submit_lem true rd =
        rw
          (
            submit, some_blocks, ready.thread, ready.is_found, ready.opens, take_channel,
            ready.channel,
          )
          (prepare_lem true rd (before true))
    submit_lem false rd =
        rw (submit, some_blocks, ready.thread, ready.is_found, take_channel, ready.channel)
          (prepare_lem false rd (before false))

    exchange_lem :
        (own rd : Bool)
        → exchange d true bytes (r0 own rd)
          ≡ served own rd len (offset / bs) (len / bs) (payload rd)
    unfolding exchange
    exchange_lem own rd =
        ap (finish true bytes) (submit_lem own rd)
        ∙ finish_lem own rd ((len / bs) % 2 ^ 32)
        ∙ ap (λ n. served own rd len (offset / bs) n (payload rd)) blocks

-- Given a device that serves it and sizes that fit, a request from xsan_io_request_create asks for
-- exactly the blocks of its bytes, in this order: descriptor, channel, DMA buffer, the read or write,
-- the release of what it owns, one call with XSAN_OK, and its end. A write sends the first bytes of
-- the user's buffer; after a read these are the bytes read.
pub request_create-served :
    (own rd memory cb : Bool) (buffer bytes dma : List ℕ) (offset len bs : ℕ) (r : Request)
    (d : Device)
    → request_create memory (some buffer) offset len bs rd cb ≡ some r
    → IsServing d bs dma
    → len / bs < 2 ^ 32
    → len < size_mod
    → ((offset / bs) * bs ≡ offset)
      × ((len / bs) * bs ≡ len)
      × (exchange d true bytes (named own r)
          ≡ served own rd len
              (offset / bs)
              (len / bs)
              (if rd then dma else copied_over len buffer dma))
      × ((submit d (named own r)).request ≡ some (running buffer bytes dma offset len bs own rd))
      × ((completion_cb true bytes (running buffer bytes dma offset len bs own rd)).1
          ≡ some (if rd then copied_over len bytes buffer else buffer))
request_create-served own rd memory cb buffer bytes dma offset len bs r d c ready fits small =
    let (some_bytes, at, whole) = create_aligned memory buffer offset len bs rd cb r c in
    let same = create_made memory buffer offset len bs rd cb r c in
    (
      whole_size offset bs at,
      whole_size len bs whole,
      ap (λ q. exchange d true bytes (named own q)) same
          ∙ exchange_lem buffer bytes dma offset len bs d ready fits small whole some_bytes own rd,
      ap (λ q. (submit d (named own q)).request) same
          ∙ ap (λ o. o.request)
              (submit_lem buffer bytes dma offset len bs d ready fits small whole some_bytes own
                rd),
      copied_lem buffer bytes dma offset len bs own rd,
    )
