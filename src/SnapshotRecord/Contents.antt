-- ===== src/SnapshotRecord/Contents.antt =====
-- What a record holds after appending.
use caliper.Base.{ℕ, ◌+◌, ◌-◌, ◌≤◌, ◌≡◌, min, refl, arith, List, ◌++◌, length, take}
use caliper.Base.{length-append, length-take, take_all}
use caliper.Node.{NodePtr}
use caliper.Variant.{Variant}
use caliper.SnapshotRecord.{SnapshotRecord, capacity, append}

-- The record holds no more than its arrays have room for.
pub record Fits (r : SnapshotRecord) : Type 0 where
  pub nodes_fit : length r.nodes ≤ r.max_nodes
  pub imms_fit : length r.imms ≤ r.max_imms

-- Appending never fills a record beyond its arrays.
pub append-Fits :
    (r : SnapshotRecord) (ns : List NodePtr) (es : List (ℕ × Variant))
    → Fits r
    → Fits (append r ns es)
unfolding append capacity
append-Fits r ns es f =
    let n = min (length ns) (r.max_nodes - length r.nodes) in
    let m = min (length es) (r.max_imms - length r.imms) in
    record {
      nodes_fit = omega (arith, f.nodes_fit, length-append r.nodes (take n ns), length-take n ns);
      imms_fit = omega (arith, f.imms_fit, length-append r.imms (take m es), length-take m es);
    }

-- Where there is room, all is appended.
pub append_roomy :
    (r : SnapshotRecord) (ns : List NodePtr) (es : List (ℕ × Variant))
    → length r.nodes + length ns ≤ r.max_nodes
    → length r.imms + length es ≤ r.max_imms
    → append r ns es ≡ record r { nodes = r.nodes ++ ns; imms = r.imms ++ es }
unfolding append capacity
append_roomy r ns es h g =
    rw
      (
        take_all (min (length ns) (r.max_nodes - length r.nodes)) ns (omega arith),
        take_all (min (length es) (r.max_imms - length r.imms)) es (omega arith),
      )
      refl
