-- ===== src/Storage/Tests.antt =====
-- The layout over a hash that spells its input as a number.
use mathlib.Core.Bool.{false≢true}
use mathlib.Core.List.{}
use call_node.Prelude.{
  ℕ, arith, ◌==◌, ◌+◌, ◌≡◌, ap, List, from_be_bytes, to_be_bytes, from_le_bytes, to_le_bytes,
}
use call_node.Storage.Slots.{store, slot_validator_stake, slot_validator_status}
use call_node.Storage.Layout.{location}
use call_node.Storage.Separation.{hashed}
use call_node.Storage.Views.{Backend, view, store_at, view-store_at}

abbrev spell : List ℕ → ℕ
spell bs = from_be_bytes bs

abbrev raw : Backend
raw a s = a + s

view-store_at_example :
    view spell (store_at (location spell (slot_validator_stake 5)) 7 raw) (slot_validator_status 5)
    ≡ store (slot_validator_stake 5) 7 (view spell raw) (slot_validator_status 5)
unfolding from_be_bytes to_be_bytes from_le_bytes to_le_bytes
view-store_at_example =
    view-store_at spell (slot_validator_stake 5) (slot_validator_status 5) 7 raw (omega arith)
      (omega arith)
      (λ e. absurd (false≢true (ap (λ n. n == spell (hashed (slot_validator_stake 5)).1) e)))
