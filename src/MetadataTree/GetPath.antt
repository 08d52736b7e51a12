-- ===== src/MetadataTree/GetPath.antt =====
-- `get_path`: what it finds, and what it creates.
use caliper.Base.{◌≤◌, ◌≡◌}
use caliper.Base.{List, ◌++◌, some, All, length}
use caliper.Datum.{DataPath}
use caliper.MetadataTree.{TreeConfig, Tree, Label, or_root, get_path}
use caliper.MetadataTree.Shape.{Known, IsConfig, IsTree, Leads}
use caliper.MetadataTree.Lookup.{walk-Leads}
use caliper.MetadataTree.Create.{IsKept, IsFresh, all_padded}

-- Where the walk stops: at a node without a child for the first label that is left.
abbrev Walked : List DataPath → DataPath → List Label → DataPath × List Label → Type 0
Walked nodes p ls (q, rest) =
    Known nodes q
    × IsFresh nodes q rest
    × (length rest ≤ length ls)
    × (all_padded rest ≤ all_padded ls)
    × (All IsKept ls → All IsKept rest)
    × ((front : List DataPath) (r : DataPath)
        → Leads (front ++ nodes) q rest r
        → Leads (front ++ nodes) p ls r)

-- Labels that lead to a node in a well-formed tree: `get_path` answers that node, and changes nothing.
pub get_path-Leads :
    {cfg : TreeConfig} (t : Tree) (ls : List Label) (parent q : DataPath)
    → IsConfig cfg
    → IsTree cfg t
    → Leads t.nodes (or_root parent) ls q
    → get_path cfg t ls parent ≡ some (t, some q)
unfolding get_path
get_path-Leads t ls parent q ok w leads = rw (walk-Leads ok w (or_root parent) ls q leads)
