-- ===== src/Serial/Tests.antt =====
-- What is saved and read back, at concrete states.
use succinct_filesystem.Base.{◌≡◌, refl, true, false, [], ◌∷◌, ◌++◌, some, arith, map}
use succinct_filesystem.Base.Seq.{length}
use succinct_filesystem.BitVector.Array.Laws.{array_bitvector}
use succinct_filesystem.BitVector.Word.{WordBitVector}
use succinct_filesystem.NameSequence.Array.{array_name_sequence}
use succinct_filesystem.Inodes.{ArrayInodeManager, blank}
use succinct_filesystem.Flouds.Sample.{sample}
use succinct_filesystem.Serial.Bits.{serialize_words, deserialize_words, words_lem}
use succinct_filesystem.Serial.Packed.{put_bits, put_bit, packed_format}
use succinct_filesystem.Serial.Names.{names_format}
use succinct_filesystem.Serial.Nodes.{
  s_isreg, as_saved, serialize_inodes, deserialize_inodes, size_inodes, inodes_lem,
}
use succinct_filesystem.Serial.Tree.{serialize_flouds, deserialize_flouds, size_flouds, flouds_lem}

-- Nine bits take two bytes.
packed_run :
    put_bits (true ∷ false ∷ true ∷ false ∷ false ∷ false ∷ false ∷ true ∷ true ∷ []) 0 (0 ∷ 0 ∷ [])
    ≡ 0xa1 ∷ 0x80 ∷ []
unfolding put_bits put_bit
packed_run = refl

flouds_lem_example :
    (length (serialize_flouds array_bitvector packed_format array_name_sequence names_format sample)
      ≡ size_flouds array_bitvector packed_format array_name_sequence names_format sample)
    × (deserialize_flouds array_bitvector packed_format array_name_sequence names_format (
          serialize_flouds array_bitvector packed_format array_name_sequence names_format sample
          ++ 7 ∷ [])
        ≡ some (sample, 7 ∷ []))
flouds_lem_example =
    flouds_lem array_bitvector packed_format array_name_sequence names_format sample (7 ∷ [])
      (record {
        structure_fits = omega arith;
        types_fit = record {
          root_fits = omega arith;
          left_fits = omega arith;
          right_fits = omega arith;
        };
        names_fit = record { few = omega arith; short = omega arith };
      })

-- 65 bits, the last one set.
abbrev long : WordBitVector
long = record { words = 0 ∷ 1 ∷ []; num_bits = 65 }

words_lem_example : deserialize_words (serialize_words long ++ 7 ∷ []) ≡ some (long, 7 ∷ [])
words_lem_example =
    words_lem long (7 ∷ []) (record { needed = refl; few = omega arith; small = omega arith })

-- A file of 5 bytes at block 3 with the mode of a regular file, and one with permissions only.
abbrev nodes : ArrayInodeManager
nodes = record {
  inodes =
      record blank { mode = 0x81a4; allocation_handle = 3; size = 5 }
      ∷ record blank { mode = 0x1a4; allocation_handle = 4; size = 6 }
      ∷ [];
}

inodes_lem_example :
    (length (serialize_inodes nodes) ≡ size_inodes nodes)
    × (deserialize_inodes (serialize_inodes nodes ++ 7 ∷ [])
        ≡ some (record { inodes = map as_saved nodes.inodes }, 7 ∷ []))
inodes_lem_example = inodes_lem nodes (7 ∷ []) (omega arith) (omega arith)

-- The second file has lost its bytes.
inodes_run :
    map as_saved nodes.inodes
    ≡ record blank { mode = 0x81a4; allocation_handle = 3; size = 5 }
      ∷ record blank { mode = 0x1a4 }
      ∷ []
unfolding as_saved s_isreg
inodes_run = refl
