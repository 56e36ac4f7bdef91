-- ===== src/Broker/Create.antt =====
-- core/src/broker.c: construct_url, Broker_Create, Broker_IncRef, broker_decrement_ref,
-- Broker_Destroy and Broker_DecRef.
use azure_iot_gateway_sdk.Base.{
  ℕ, ◌+◌, ◌-◌, Option, some, none, List, [], ◌∷◌, ◌++◌, ◌==◌, if◌then◌else◌,
}
use azure_iot_gateway_sdk.Broker.World.{
  M, pure, ◌>>=◌, ◌>>◌, ask, malloc, free, lock_init, lock_deinit, string_construct, string_delete,
  list_create, list_destroy, nn_socket, nn_close, unique_id,
}
use azure_iot_gateway_sdk.Broker.State.{Broker}

-- "inproc://"
abbrev pub inproc_url_head : List ℕ
inproc_url_head = b'i' ∷ b'n' ∷ b'p' ∷ b'r' ∷ b'o' ∷ b'c' ∷ b':' ∷ b'/' ∷ b'/' ∷ []

unfoldable pub construct_url : M (Option (List ℕ))
construct_url = do
  (made, uuid) ← unique_id
  if made
      then (do
        result ← string_construct
        if result
            then (do
              concat ← ask
              if concat
                  then pure (some (inproc_url_head ++ uuid))
                  else (do string_delete; pure none))
            else pure none)
      else pure none

unfoldable pub bind_socket : List ℕ → M (Option Broker)
bind_socket url = do
  bound ← ask
  if bound
      then pure (some (record { refs = 1; modules = []; url = url }))
      else (do list_destroy; lock_deinit; nn_close; string_delete; free; pure none)

unfoldable pub with_url : Option (List ℕ) → M (Option Broker)
with_url none = do list_destroy; lock_deinit; nn_close; free; pure none
with_url (some url) = bind_socket url

unfoldable pub with_socket : M (Option Broker)
with_socket = do
  publish_socket ← nn_socket
  if publish_socket
      then (do url ← construct_url; with_url url)
      else (do list_destroy; lock_deinit; free; pure none)

unfoldable pub broker_create : M (Option Broker)
broker_create = do
  result ← malloc
  if result
      then (do
        modules ← list_create
        if modules
            then (do
              modules_lock ← lock_init
              if modules_lock then with_socket else (do list_destroy; free; pure none))
            else (do free; pure none))
      else pure none

unfoldable pub broker_inc_ref : Option Broker → Option Broker
broker_inc_ref none = none
broker_inc_ref (some b) = some (record b { refs = b.refs + 1 })

-- `none` in the result: the broker is free. Modules that are still attached are only warned of.
unfoldable pub broker_decrement_ref : Option Broker → M (Option Broker)
broker_decrement_ref none = pure none
broker_decrement_ref (some b) =
    if b.refs - 1 == 0
    then (do nn_close; string_delete; list_destroy; lock_deinit; free; pure none)
    else pure (some (record b { refs = b.refs - 1 }))

-- Broker_Destroy and Broker_DecRef both do this.
unfoldable pub broker_destroy : Option Broker → M (Option Broker)
broker_destroy b = broker_decrement_ref b
