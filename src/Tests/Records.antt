-- ===== src/Tests/Records.antt =====
-- Integer encoding, values and compressed records.
use caliper.Base.{
  ℕ, ◌+◌, ◌≡◌, ◌≢◌, refl, arith, List, [], ◌∷◌, ◌++◌, length, map, some, true, false, ◌⊎◌,
}
use caliper.Vlenc.{vlenc_u64, vldec_u64}
use caliper.Vlenc.RoundTrip.{vldec_u64-vlenc_u64}
use caliper.Variant.{Variant, IsVariant, pack, unpack_at}
use caliper.Variant.Pack.{unpack_at-pack}
use caliper.Node.{Node, NodePtr}
use caliper.Entry.{Entry, node_entry, imm_entry, empty_entry}
use caliper.CompressedRecord.{
  CompressedRecord, new, append_imms, append_nodes, encode_imms, encode_ids, save_memmove,
}
use caliper.CompressedRecord.Move.{Moves, save_memmove-Moves}
use caliper.CompressedRecord.Shape.{Encodes, new-Encodes, node_section, imm_section}
use caliper.CompressedRecord.Immediates.{take_imms}
use caliper.CompressedRecord.Immediates.Loop.{Appends, append_imms-take_imms, append_imms_fit}
use caliper.CompressedRecord.Nodes.{node_room, append_nodes-Encodes, append_nodes_fit}
use caliper.CompressedRecord.Entries.{append_entries}
use caliper.CompressedRecord.Entries.Fit.{nodes_of, imms_of, append_entries_fit}
use caliper.CompressedRecord.View.{
  make_view, unpack_nodes, to_entrylist, unpack, id_entry, pair_entry,
}
use caliper.CompressedRecord.Reading.{bytes, view, make_view-bytes, to_entrylist-Encodes}
use caliper.CompressedRecord.Reading.Unpack.{unpack-to_entrylist}
use caliper.CompressedRecord.Reading.Overwrite.{append_nodes_overwrites}

vlenc_300 : vlenc_u64 300 ≡ 0xac ∷ 0x02 ∷ []
unfolding vlenc_u64
vlenc_300 = refl

vldec_300 : vldec_u64 (0xac ∷ 0x02 ∷ 9 ∷ []) ≡ some (300, 2)
unfolding vldec_u64
vldec_300 = refl

-- Ten bytes are read at most, whatever their top bits say.
vldec_ten :
    vldec_u64 (0xff ∷ 0xff ∷ 0xff ∷ 0xff ∷ 0xff ∷ 0xff ∷ 0xff ∷ 0xff ∷ 0xff ∷ 0xff ∷ 1 ∷ [])
    ≡ some (0xffff_ffff_ffff_ffff, 10)
unfolding vldec_u64
vldec_ten = refl

vldec_u64-vlenc_u64_example :
    vldec_u64 (vlenc_u64 300 ++ (9 ∷ [])) ≡ some (300, length (vlenc_u64 300))
vldec_u64-vlenc_u64_example = vldec_u64-vlenc_u64 300 (9 ∷ []) (omega arith)

abbrev pub seven : Variant
seven = record { type_and_size = 3; v_uint = 7 }

pub seven-IsVariant : IsVariant seven
seven-IsVariant = omega arith

unpack_at-pack_example :
    unpack_at ((5 ∷ []) ++ (pack seven ++ (8 ∷ []))) 1 ≡ some (seven, 1 + length (pack seven), true)
unpack_at-pack_example = unpack_at-pack (5 ∷ []) (8 ∷ []) seven 1 seven-IsVariant refl

-- Two bytes move up by one: source and target overlap.
save_memmove-Moves_example :
    Moves (save_memmove (9 ∷ 1 ∷ 2 ∷ 0 ∷ 4 ∷ []) 2 1 2) (9 ∷ []) (1 ∷ 2 ∷ []) (0 ∷ []) (4 ∷ [])
save_memmove-Moves_example =
    save_memmove-Moves (9 ∷ []) (1 ∷ 2 ∷ []) (0 ∷ []) (4 ∷ []) 2 1 2 refl refl refl

abbrev pub empty_record : CompressedRecord
empty_record = new 32

empty-Encodes : Encodes empty_record [] []
empty-Encodes = new-Encodes 32 (omega arith)

abbrev pub one_imm : List (ℕ × Variant)
one_imm = (5, seven) ∷ []

append_imms-take_imms_example :
    Appends
      (append_imms empty_record one_imm)
      empty_record
      0
      []
      (take_imms 1 empty_record.buffer_len [] [] one_imm)
      (0 + 1)
      (length (encode_imms one_imm))
append_imms-take_imms_example = append_imms-take_imms empty-Encodes one_imm

encode_one_imm : length (encode_imms one_imm) ≡ 3
unfolding vlenc_u64 pack
encode_one_imm = refl

buffer_len-empty_record : empty_record.buffer_len ≡ 32
unfolding new
buffer_len-empty_record = refl

append_imms_fit_example :
    (r' : CompressedRecord) × (append_imms empty_record one_imm ≡ some (r', 0))
    × Encodes r' [] ([] ++ one_imm)
    × (r'.buffer_len ≡ empty_record.buffer_len)
append_imms_fit_example =
    append_imms_fit empty-Encodes one_imm (omega arith)
      (omega (arith, encode_one_imm, buffer_len-empty_record))

append_nodes-Encodes_example :
    (r' : CompressedRecord) × (k : ℕ) × (append_nodes empty_record (3 ∷ 4 ∷ []) ≡ some (r', k))
    × (r'.skipped ≡ empty_record.skipped + k)
    × (r'.needed_len ≡ empty_record.needed_len + length (encode_ids (3 ∷ 4 ∷ [])))
    × ((node_room empty_record.buffer_len [] [] (3 ∷ 4 ∷ []) ≡ true)
          × Encodes r' (3 ∷ 4 ∷ []) []
          × (k ≡ 0)
        ⊎ (node_room empty_record.buffer_len [] [] (3 ∷ 4 ∷ []) ≡ false)
          × Encodes r' [] []
          × (k ≡ 2))
append_nodes-Encodes_example =
    append_nodes-Encodes empty-Encodes (3 ∷ 4 ∷ []) (omega arith) (λ e. cc)

abbrev a_node : Node
a_node = record { id = 3; attribute = 8; value = seven }

abbrev pub entries : List Entry
entries = imm_entry 5 seven ∷ empty_entry ∷ node_entry (a_node ∷ []) ∷ []

imms_of-entries : imms_of entries ≡ one_imm
unfolding imms_of
imms_of-entries = refl

nodes_of-entries : nodes_of entries ≡ 3 ∷ []
unfolding nodes_of
nodes_of-entries = refl

encode_entries :
    (length (encode_ids (nodes_of entries)) ≡ 1) × (length (encode_imms (imms_of entries)) ≡ 3)
unfolding vlenc_u64 pack nodes_of imms_of
encode_entries = (refl, refl)

append_entries_fit_example :
    (r' : CompressedRecord) × (append_entries empty_record entries ≡ some (r', 0))
    × Encodes r' (nodes_of entries) (imms_of entries)
append_entries_fit_example =
    append_entries_fit entries empty-Encodes (rw nodes_of-entries (omega arith))
      (rw imms_of-entries (omega arith))
      (omega (arith, encode_entries.0, encode_entries.1, buffer_len-empty_record))

-- A record with one node and one value, made by the code.
pub entries_held :
    (r' : CompressedRecord) × (append_entries empty_record entries ≡ some (r', 0))
    × Encodes r' (3 ∷ []) one_imm
entries_held =
    rw (nodes_of-entries, imms_of-entries) at
      (append_entries_fit entries empty-Encodes (rw nodes_of-entries (omega arith))
        (rw imms_of-entries (omega arith))
        (omega (arith, encode_entries.0, encode_entries.1, buffer_len-empty_record)))

abbrev pub sample : CompressedRecord
sample = entries_held.0

pub sample-Encodes : Encodes sample (3 ∷ []) one_imm
sample-Encodes = entries_held.2

abbrev no_nodes : ℕ → NodePtr
no_nodes i = []

to_entrylist-Encodes_example :
    to_entrylist no_nodes (view sample)
    ≡ some (map (id_entry no_nodes) (3 ∷ []) ++ map (pair_entry no_nodes) one_imm)
to_entrylist-Encodes_example =
    to_entrylist-Encodes sample-Encodes no_nodes (omega arith) ((omega arith, seven-IsVariant), tt)

unpack-to_entrylist_example :
    unpack no_nodes (λ e. true) (view sample)
    ≡ some (map (id_entry no_nodes) (3 ∷ []) ++ map (pair_entry no_nodes) one_imm)
unpack-to_entrylist_example =
    unpack-to_entrylist no_nodes (λ e. true) (view sample) (λ e. refl) _
      (to_entrylist-Encodes sample-Encodes no_nodes (omega arith)
        ((omega arith, seven-IsVariant), tt))

make_view-bytes_example :
    make_view (bytes (3 ∷ []) one_imm ++ (9 ∷ []))
    ≡ some (
      record {
        buffer = bytes (3 ∷ []) one_imm ++ (9 ∷ []);
        num_nodes = 1;
        num_imm = 1;
        imm_pos = length (node_section (3 ∷ []));
        imm_len = length (imm_section one_imm);
      },
      length (bytes (3 ∷ []) one_imm),
    )
make_view-bytes_example =
    make_view-bytes (3 ∷ []) one_imm (9 ∷ []) (omega arith) ((omega arith, seven-IsVariant), tt)

-- A second block of nodes: 3 is lost.
small-Encodes :
    (r : CompressedRecord) × (append_nodes empty_record (3 ∷ []) ≡ some (r, 0))
    × Encodes r (3 ∷ []) []
    × (r.buffer_len ≡ empty_record.buffer_len)
small-Encodes =
    append_nodes_fit empty-Encodes (3 ∷ []) (omega arith)
      (unfold vlenc_u64 in omega (arith, buffer_len-empty_record))

room_for_four : node_room small-Encodes.0.buffer_len (3 ∷ []) [] (4 ∷ []) ≡ true
room_for_four = rw (small-Encodes.3, buffer_len-empty_record) (unfold vlenc_u64 in refl)

append_nodes_overwrites_example :
    (r' : CompressedRecord) × (append_nodes small-Encodes.0 (4 ∷ []) ≡ some (r', 0))
    × (r'.num_nodes ≡ 2)
    × (unpack_nodes (view r') r'.num_nodes ≢ some (3 ∷ 4 ∷ []))
append_nodes_overwrites_example =
    append_nodes_overwrites 3 [] 4 [] small-Encodes.2 (omega arith) room_for_four (omega arith)
      (omega arith)
