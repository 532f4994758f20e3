-- ===== src/IoRequest/Tests.antt =====
-- The theorems on requests at concrete ones.
use xsan.Base.{ℕ, ◌*◌, ◌/◌, true, false, none, some, List, [], ◌∷◌, arith, ◌≡◌, refl}
use mathlib.Core.Option.{none-ne-some}
use xsan.IoRequest.{Request, made, request_create, Device, queued, refused, submit, completion_cb}
use xsan.IoRequest.Balance.{named, exchange, IsBalanced, exchange-IsBalanced}
use xsan.IoRequest.Served.{IsServing, served, running, request_create-served}

abbrev disk : Device
disk = record {
  on_spdk_thread = true;
  found = true;
  open_error = none;
  has_channel = true;
  block_size = 2;
  fresh_dma = some (0 ∷ 0 ∷ 0 ∷ 0 ∷ []);
  answer = queued;
}

abbrev full_disk : Device
full_disk = record disk { answer = refused }

abbrev user : List ℕ
user = 11 ∷ 12 ∷ 13 ∷ 14 ∷ []

abbrev write_request : Request
write_request = made (some user) 6 4 2 false

exchange-IsBalanced_example :
    IsBalanced false (exchange full_disk true [] (named false write_request))
unfolding request_create
exchange-IsBalanced_example =
    exchange-IsBalanced false true true user [] 6 4 2 false true write_request full_disk refl
      (λ e p. absurd (none-ne-some e p))

disk-IsServing : IsServing disk 2 (0 ∷ 0 ∷ 0 ∷ 0 ∷ [])
disk-IsServing = record {
  thread = refl;
  is_found = refl;
  opens = refl;
  channel = refl;
  same_size = refl;
  memory = refl;
  takes = refl;
}

request_create-served_example :
    ((6 / 2) * 2 ≡ 6)
    × ((4 / 2) * 2 ≡ 4)
    × (exchange disk true [] (named true write_request) ≡ served true false 4 3 2 user)
    × ((submit disk (named true write_request)).request
        ≡ some (running user [] (0 ∷ 0 ∷ 0 ∷ 0 ∷ []) 6 4 2 true false))
    × ((completion_cb true [] (running user [] (0 ∷ 0 ∷ 0 ∷ 0 ∷ []) 6 4 2 true false)).1
        ≡ some user)
unfolding request_create
request_create-served_example =
    request_create-served true false true true user [] (0 ∷ 0 ∷ 0 ∷ 0 ∷ []) 6 4 2 write_request disk
      refl disk-IsServing (omega arith) (omega arith)
