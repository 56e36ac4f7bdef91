-- ===== src/Broker/Resources.antt =====
-- What the operations of core/src/broker.c take and give back, on every path.
use azure_iot_gateway_sdk.Base.{
  ℕ, ◌+◌, ◌-◌, ◌≤◌, ◌<◌, ◌≡◌, inl, inr, Option, some, none, List, [], Bool-cases, arith,
}
use azure_iot_gateway_sdk.Broker.World.{World}
use azure_iot_gateway_sdk.Broker.State.{Broker}
use azure_iot_gateway_sdk.Broker.Create.{
  construct_url, bind_socket, with_url, with_socket, broker_create, broker_decrement_ref,
  broker_destroy,
}

-- Held in `w'` over what `w` holds: memory blocks, locks, strings, sockets, threads and lists.
pub record Held (w : World) (memory locks strings sockets threads lists : ℕ) (w' : World)
    : Type 0 where
  pub memory_eq : w'.memory ≡ w.memory + memory
  pub locks_eq : w'.locks ≡ w.locks + locks
  pub strings_eq : w'.strings ≡ w.strings + strings
  pub sockets_eq : w'.sockets ≡ w.sockets + sockets
  pub threads_eq : w'.threads ≡ w.threads + threads
  pub lists_eq : w'.lists ≡ w.lists + lists
  pub sent_eq : w'.sent ≡ w.sent
  pub buffers_eq : w'.buffers ≡ w.buffers
  pub guids_eq : w'.guids ≡ w.guids

abbrev pub Unchanged : World → World → Type 0
Unchanged w w' = Held w 0 0 0 0 0 0 w'

Unchanged-refl : (w : World) → Unchanged w w
Unchanged-refl w = ground arith

-- What a broker holds, and what it is when it is new.
abbrev pub Created : World → Option Broker × World → Type 0
Created w (none, w') = Unchanged w w'
Created w (some b, w') = (b.refs ≡ 1) × (b.modules ≡ []) × Held w 1 1 1 1 0 1 w'

bind_socket-Created :
    (w0 w : World) (url : List ℕ) → Held w0 1 1 1 1 0 1 w → Created w0 (bind_socket url w)
unfolding bind_socket
bind_socket-Created w0 w url h = ground arith

abbrev UrlMade : World → Option (List ℕ) × World → Type 0
UrlMade w0 (none, w') = Held w0 1 1 0 1 0 1 w'
UrlMade w0 (some url, w') = Held w0 1 1 1 1 0 1 w'

construct_url-UrlMade : (w0 w : World) → Held w0 1 1 0 1 0 1 w → UrlMade w0 (construct_url w)
unfolding construct_url
construct_url-UrlMade w0 w h = ground arith

with_url-Created :
    (w0 : World) (r : Option (List ℕ) × World) → UrlMade w0 r → Created w0 (with_url r.0 r.1)
unfolding with_url
with_url-Created w0 (none, w) h = ground arith
with_url-Created w0 (some url, w) h = bind_socket-Created w0 w url h

with_socket-Created : (w0 w : World) → Held w0 1 1 0 0 0 1 w → Created w0 (with_socket w)
unfolding with_socket
with_socket-Created w0 w h = elim (Bool-cases (w.oracle w.calls)) [
  | inl e ↦ rw e (with_url-Created w0 _ (construct_url-UrlMade w0 _ (ground arith)))
  | inr e ↦ rw e (ground arith)
]

-- Broker_Create returns no broker and holds nothing more, or returns a broker with one reference and
-- no module, which holds one memory block, one lock, one string, one socket and one list.
pub broker_create-Created : (w : World) → Created w (broker_create w)
unfolding broker_create
broker_create-Created w = elim (Bool-cases (w.oracle w.calls)) [
  | inr e ↦ rw e (ground arith)
  | inl e ↦ rw e (elim (Bool-cases (w.oracle (w.calls + 1))) [
    | inr e1 ↦ rw e1 (ground arith)
    | inl e1 ↦ rw e1 (elim (Bool-cases (w.oracle (w.calls + 1 + 1))) [
      | inr e2 ↦ rw e2 (ground arith)
      | inl e2 ↦ rw e2 (with_socket-Created w _ (ground arith))
    ])
  ])
]

-- The broker's destruction at its last reference.
abbrev pub Destroyed : World → Broker → Option Broker × World → Type 0
Destroyed w b (none, w') = (b.refs ≤ 1) × Held w' 1 1 1 1 0 1 w
Destroyed w b (some b', w') = (1 < b.refs) × (b' ≡ record b { refs = b.refs - 1 }) × (w' ≡ w)

-- Where one of each resource of a broker is held, Broker_Destroy (and Broker_DecRef) frees the
-- broker exactly if this was its last reference, and then gives back what Broker_Create took; else
-- it takes one reference off and changes nothing else.
pub broker_destroy-Destroyed :
    (b : Broker) (w : World)
    → 0 < w.memory
    → 0 < w.locks
    → 0 < w.strings
    → 0 < w.sockets
    → 0 < w.lists
    → Destroyed w b (broker_destroy (some b) w)
unfolding broker_destroy broker_decrement_ref
broker_destroy-Destroyed b w hm hl hs hk ht = ground arith
