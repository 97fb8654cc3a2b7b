-- ===== src/Events/Layouts.antt =====
-- The event frames as the server lays them out, and that the client reads them back.
use manka_shreds_sdk.Common.{
  ℕ, ◌^◌, ◌≤◌, ◌<◌, ◌≡◌, arith, List, [], ◌∷◌, ◌++◌, if◌then◌else◌, length, take_all,
}
use manka_shreds_sdk.Error.{ok}
use manka_shreds_sdk.Bytes.{word, window, byte, to_le}
use manka_shreds_sdk.Events.SlotEnd
use manka_shreds_sdk.Events.RawShred
use manka_shreds_sdk.Events.SlotEnd.{SlotEnd}
use manka_shreds_sdk.Events.RawShred.{RawShred}
use manka_shreds_sdk.Events.Totality.{slot_end_lem, raw_shred_lem}

-- Seven bytes of padding follow the flags.
abbrev pub slot_end_layout : SlotEnd → List ℕ → List ℕ
slot_end_layout m padding =
    to_le 8 m.slot
    ++ to_le 8 m.parent_slot
    ++ to_le 4 m.data_shreds
    ++ to_le 4 m.fec_sets
    ++ to_le 4 m.recovered_sets
    ++ to_le 4 m.missing_shreds
    ++ to_le 8 m.end_ts_ns
    ++ ((if m.complete then 1 else 0) ∷ padding)

pub record SlotEndFits (m : SlotEnd) : Type 0 where
  pub slot : m.slot < 2 ^ 64
  pub parent_slot : m.parent_slot < 2 ^ 64
  pub data_shreds : m.data_shreds < 2 ^ 32
  pub fec_sets : m.fec_sets < 2 ^ 32
  pub recovered_sets : m.recovered_sets < 2 ^ 32
  pub missing_shreds : m.missing_shreds < 2 ^ 32
  pub end_ts_ns : m.end_ts_ns < 2 ^ 64

-- The end of a slot whose fields have the widths of their types is read back from its layout
-- with seven or more bytes of padding.
read-slot_end_layout :
    (m : SlotEnd) (padding : List ℕ)
    → SlotEndFits m
    → 7 ≤ length padding
    → SlotEnd.read (slot_end_layout m padding) ≡ ok m
unfolding word window byte
read-slot_end_layout m padding v h = rw slot_end_lem (ground arith)

abbrev pub raw_shred_layout : RawShred → List ℕ → List ℕ
raw_shred_layout m padding =
    to_le 8 m.slot
    ++ to_le 4 m.index
    ++ to_le 4 m.fec_set_index
    ++ to_le 8 m.rx_ts_ns
    ++ to_le 2 m.source
    ++ ((if m.is_data then 0 else 1) ∷ [])
    ++ padding
    ++ m.bytes

pub record RawShredFits (m : RawShred) : Type 0 where
  pub slot : m.slot < 2 ^ 64
  pub index : m.index < 2 ^ 32
  pub fec_set_index : m.fec_set_index < 2 ^ 32
  pub rx_ts_ns : m.rx_ts_ns < 2 ^ 64
  pub source : m.source < 2 ^ 16

-- A raw shred whose fields have the widths of their types is read back from its layout, its
-- bytes unchanged, whatever the five padding bytes.
read-raw_shred_layout :
    (m : RawShred) (p q r s t : ℕ)
    → RawShredFits m
    → RawShred.read (raw_shred_layout m (p ∷ q ∷ r ∷ s ∷ t ∷ [])) ≡ ok m
unfolding word window byte
read-raw_shred_layout m p q r s t v =
    rw raw_shred_lem (ground (arith, take_all (length m.bytes) m.bytes))
