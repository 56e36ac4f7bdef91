-- ===== src/Message/References.antt =====
-- The reference counts of core/src/message.c: the three constructors, and any history of clones and
-- destroys.
use azure_iot_gateway_sdk.Base.{ℕ, zero, suc, ◌+◌, ◌≡◌, Option, some, none, List, [], ◌∷◌, arith}
use azure_iot_gateway_sdk.Message.Shared.{SharedLib, Ledger}
use azure_iot_gateway_sdk.Message.Handle.{
  MessageData, MessageConfig, MessageBufferConfig, create, create_from_buffer, clone, destroy,
}
use azure_iot_gateway_sdk.Message.Accept.{Accounted}

-- Whatever the configuration is and whichever library calls fail, Message_Create and
-- Message_CreateFromBuffer give back all they took when they return no message, and else return a
-- message with one reference that holds one memory block, one constmap and one constbuffer.
pub create-Accounted :
    (s : SharedLib) (cfg : Option (MessageConfig s)) (buffer : Option (MessageBufferConfig s))
    (l : Ledger)
    → Accounted s l (create s cfg l) × Accounted s l (create_from_buffer s buffer l)
unfolding create create_from_buffer
create-Accounted s cfg buffer l = (ground arith, ground arith)

pub data Use : Type 0 where
  clones destroys : Use

unfoldable pub use_message :
    (s : SharedLib) → Use → Option (MessageData s) × Ledger → Option (MessageData s) × Ledger
use_message s clones (m, l) = clone s m l
use_message s destroys (m, l) = destroy s m l

pub use_all :
    (s : SharedLib) → List Use → Option (MessageData s) × Ledger → Option (MessageData s) × Ledger
use_all s [] state = state
use_all s (u ∷ us) state = use_all s us (use_message s u state)

-- The number of references after a history in which the message is not used once it is freed.
abbrev pub count : ℕ → List Use → ℕ
count n [] = n
count n (clones ∷ us) = count (suc n) us
count zero (destroys ∷ us) = count zero us
count (suc n) (destroys ∷ us) = count n us

abbrev pub IsUsable : ℕ → List Use → Type 0
IsUsable n [] = Unit {0}
IsUsable zero (u ∷ us) = ⊥
IsUsable (suc n) (clones ∷ us) = IsUsable (suc (suc n)) us
IsUsable (suc n) (destroys ∷ us) = IsUsable n us

-- `n` references are all that is held over `base`.
abbrev pub holding : Ledger → ℕ → Ledger
holding base n = record base {
  blocks = base.blocks + 1;
  constmaps = base.constmaps + n;
  buffers = base.buffers + n;
}

abbrev pub Holds : (s : SharedLib) → Ledger → ℕ → Option (MessageData s) × Ledger → Type 0
Holds s base zero (m, l) = (m ≡ none) × (l ≡ base)
Holds s base (suc n) (none, l) = ⊥
Holds s base (suc n) (some m, l) = (m.refs ≡ suc n) × (l ≡ holding base (suc n))

-- The library's clones succeed, as refcount.h makes them: they count and return the handle.
pub record CanClone (s : SharedLib) : Type 0 where
  pub constmap_clone_same : (c : s.ConstMap) → s.constmap_clone c ≡ some c
  pub constbuffer_clone_same : (b : s.ConstBuffer) → s.constbuffer_clone b ≡ some b

module _ (s : SharedLib) (lib : CanClone s) (base : Ledger) where
  clone-Holds :
      (n : ℕ) (state : Option (MessageData s) × Ledger)
      → Holds s base (suc n) state
      → Holds s base (suc (suc n)) (use_message s clones state)
  unfolding use_message clone
  clone-Holds n (none, l) held = absurd held
  clone-Holds n (some m, l) held =
      rw (lib.constmap_clone_same m.properties, lib.constbuffer_clone_same m.content) (ground arith)

  destroy-Holds :
      (n : ℕ) (state : Option (MessageData s) × Ledger)
      → Holds s base (suc n) state
      → Holds s base n (use_message s destroys state)
  unfolding use_message destroy
  destroy-Holds n (none, l) held = absurd held
  destroy-Holds zero (some m, l) held = ground arith
  destroy-Holds (suc n) (some m, l) held = ground arith

  -- Where the library's clones succeed: after any history of clones and destroys of a message that
  -- is not used once it is freed, the message is freed, and all that it held given back, exactly if
  -- the references that were made are all gone; else its count is the number of references left,
  -- and it holds its memory and as many references to its constmap and to its constbuffer.
  pub use_all-Holds :
      (us : List Use) (n : ℕ) (state : Option (MessageData s) × Ledger)
      → IsUsable n us
      → Holds s base n state
      → Holds s base (count n us) (use_all s us state)
  unfolding use_all
  use_all-Holds [] n state h held = held
  use_all-Holds (clones ∷ us) zero state h held = absurd h
  use_all-Holds (destroys ∷ us) zero state h held = absurd h
  use_all-Holds (clones ∷ us) (suc n) state h held =
      use_all-Holds us (suc (suc n)) _ h (clone-Holds n state held)
  use_all-Holds (destroys ∷ us) (suc n) state h held =
      use_all-Holds us n _ h (destroy-Holds n state held)
