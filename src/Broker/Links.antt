-- ===== src/Broker/Links.antt =====
-- core/src/broker.c: Broker_AddLink and Broker_RemoveLink.
use azure_iot_gateway_sdk.Base.{
  ℕ, ◌/◌, ◌%◌, ◌^◌, Bool, true, false, ◌||◌, Option, some, none, List, [], ◌∷◌, ◌==◌, if◌then◌else◌,
}
use azure_iot_gateway_sdk.Broker.World.{M, pure, ◌>>=◌, ask}
use azure_iot_gateway_sdk.Broker.State.{
  BrokerResult, broker_ok, broker_add_link_error, broker_remove_link_error, broker_invalidarg,
  Topic, ModuleInfo, Broker, LinkData, list_update, broker_locate_handle,
}

-- The memory of a handle: a 64-bit address, on a little-endian machine.
abbrev pub handle_bytes : ℕ → Topic
handle_bytes h =
    (h % 256)
    ∷ (h / 2 ^ 8 % 256)
    ∷ (h / 2 ^ 16 % 256)
    ∷ (h / 2 ^ 24 % 256)
    ∷ (h / 2 ^ 32 % 256)
    ∷ (h / 2 ^ 40 % 256)
    ∷ (h / 2 ^ 48 % 256)
    ∷ (h / 2 ^ 56 % 256)
    ∷ []

unfoldable pub eq_topic : Topic → Topic → Bool
eq_topic [] [] = true
eq_topic [] (b ∷ bs) = false
eq_topic (a ∷ as') [] = false
eq_topic (a ∷ as') (b ∷ bs) = let rest = eq_topic as' bs in if a == b then rest else false

-- One subscription less, of those to the topic.
unfoldable pub drop_topic : Topic → List Topic → List Topic
drop_topic t [] = []
drop_topic t (u ∷ us) = if eq_topic t u then us else u ∷ drop_topic t us

unfoldable pub subscribe : Topic → ModuleInfo → ModuleInfo
subscribe t info = record info { topics = t ∷ info.topics }

unfoldable pub unsubscribe : Topic → ModuleInfo → ModuleInfo
unsubscribe t info = record info { topics = drop_topic t info.topics }

-- Both functions, with the result on an error and the change of the subscriptions. The lock on the
-- modules is held from `locate_both` on.
unfoldable pub locate_both :
    BrokerResult → (Topic → ModuleInfo → ModuleInfo) → Broker → LinkData → M (BrokerResult × Broker)
locate_both error change b link = elim (broker_locate_handle b link.module_sink_handle) [
  | none ↦ pure (error, b)
  | some module_info ↦ elim (broker_locate_handle b link.module_source_handle) [
    | none ↦ pure (error, b)
    | some source_module ↦ do
      done ← ask
      if done
          then pure (
            broker_ok,
            record b {
              modules =
                  list_update link.module_sink_handle
                    (change (handle_bytes link.module_source_handle)) b.modules;
            },
          )
          else pure (error, b)
  ]
]

unfoldable pub change_link :
    BrokerResult
    → (Topic → ModuleInfo → ModuleInfo)
    → Option Broker
    → Option LinkData
    → M (BrokerResult × Option Broker)
change_link error change none link = pure (broker_invalidarg, none)
change_link error change (some b) none = pure (broker_invalidarg, some b)
change_link error change (some b) (some link) =
    if (link.module_sink_handle == 0) || (link.module_source_handle == 0)
    then pure (broker_invalidarg, some b)
    else (do
      locked ← ask
      if locked
          then (do (result, b') ← locate_both error change b link; _ ← ask; pure (result, some b'))
          else pure (error, some b))

unfoldable pub broker_add_link : Option Broker → Option LinkData → M (BrokerResult × Option Broker)
broker_add_link = change_link broker_add_link_error subscribe

unfoldable pub broker_remove_link :
    Option Broker → Option LinkData → M (BrokerResult × Option Broker)
broker_remove_link = change_link broker_remove_link_error unsubscribe
