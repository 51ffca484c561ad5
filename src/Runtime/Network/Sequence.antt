-- ===== src/Runtime/Network/Sequence.antt =====
-- The slots that a sequence of runs is given. Each allocation is one atomic addition, so that any
-- interleaving of concurrent runs is some sequence of allocations.
use kernlet.Common.{
  ℕ, zero, suc, ◌%◌, ◌^◌, Result, ok, err, fault, leb, if◌then◌else◌, ◌≡◌, refl, ap, ◌∙◌, arith,
}
use kernlet.Runtime.Network.{
  WorkloadNetwork, network_of, max_workload_networks, slot_of, allocate_workload_network,
}

-- The counter after `n` allocations of the process.
pub counter_after : ℕ → ℕ
counter_after zero = 0
counter_after (suc n) = (allocate_workload_network (counter_after n)).1

-- The result of the allocation that `n` others precede.
pub allocation : ℕ → Result WorkloadNetwork
unfolding counter_after
allocation n = (allocate_workload_network (counter_after n)).0

counter_after-mod : (n : ℕ) → counter_after n ≡ n % 2 ^ 32
unfolding counter_after allocate_workload_network
counter_after-mod zero = refl
counter_after-mod (suc n) = omega (arith, counter_after-mod n)

slot_of-counter : (n : ℕ) → slot_of (n % 2 ^ 32) ≡ n % 2 ^ 32
slot_of-counter n = omega arith

-- The allocation that `n` others precede is given the slot `n`, modulo 2 ^ 32, if that is below the
-- limit, and is refused otherwise. So the first 16384 runs get different slots, the runs after them are
-- refused, although the networks of earlier runs are gone, and after 2 ^ 32 runs the slots come again.
pub allocation_slot :
    (n : ℕ)
    → allocation n ≡ (
        if leb max_workload_networks (n % 2 ^ 32)
        then err (fault "workload network address space exhausted")
        else ok (network_of (n % 2 ^ 32)))
unfolding allocation allocate_workload_network
allocation_slot n =
    ap (λ c. (allocate_workload_network c).0) (counter_after-mod n)
    ∙ ap
        (λ s.
          if leb max_workload_networks s
          then err (fault "workload network address space exhausted")
          else ok (network_of s))
        (slot_of-counter n)
