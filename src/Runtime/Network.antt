-- ===== src/Runtime/Network.antt =====
-- allocateWorkloadNetwork: names and addresses from a counter that all runs share.
pub mod Subnet
pub mod Sequence
use kernlet.Common.{
  ℕ, ◌+◌, ◌-◌, ◌*◌, ◌/◌, ◌%◌, ◌^◌, [], ◌∷◌, ◌++◌, Bytes, codes, Result, ok, err, fault, leb,
  if◌then◌else◌,
}
use kernlet.Text.Decimal.{format_uint}
use kernlet.Text.Hex.{hex_digit}

abbrev pub max_workload_networks : ℕ
max_workload_networks = 16_384

pub record WorkloadNetwork : Type 0 where
  pub guest_interface : Bytes
  pub peer_interface : Bytes
  pub guest_address : Bytes
  pub workload_address : Bytes
  pub gateway : Bytes

-- The verb %04x for a number below 2 ^ 16: four digits.
pub hex4 : ℕ → Bytes
hex4 n =
    hex_digit (n / 4096 % 16)
    ∷ hex_digit (n / 256 % 16)
    ∷ hex_digit (n / 16 % 16)
    ∷ hex_digit (n % 16)
    ∷ []

-- 10.200.third.fourth
pub dotted : ℕ → ℕ → Bytes
dotted third fourth = codes "10.200." ++ (format_uint third ++ b'.' ∷ format_uint fourth)

-- The names and the addresses of a slot.
pub network_of : ℕ → WorkloadNetwork
network_of slot =
    let third_octet = slot / 64 in
    let fourth_octet = slot % 64 * 4 in
    record {
      guest_interface = codes "kvh" ++ hex4 slot;
      peer_interface = codes "kvw" ++ hex4 slot;
      guest_address = dotted third_octet (fourth_octet + 1) ++ codes "/30";
      workload_address = dotted third_octet (fourth_octet + 2) ++ codes "/30";
      gateway = dotted third_octet (fourth_octet + 1);
    }

-- `networkSequence.Add(1) - 1` on a uint32, and the counter afterwards.
abbrev pub next_sequence : ℕ → ℕ
next_sequence sequence = (sequence + 1) % 2 ^ 32

abbrev pub slot_of : ℕ → ℕ
slot_of sequence = (next_sequence sequence + 2 ^ 32 - 1) % 2 ^ 32

unfoldable pub allocate_workload_network : ℕ → Result WorkloadNetwork × ℕ
allocate_workload_network sequence = (
  (if leb max_workload_networks (slot_of sequence)
      then err (fault "workload network address space exhausted")
      else ok (network_of (slot_of sequence))),
  next_sequence sequence,
)
