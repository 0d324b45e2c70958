-- ===== src/Serial/Tree.antt =====
-- How the wavelet tree and FLOUDS are saved (src/wavelet_tree/two_bit_wavelet_tree.hpp,
-- src/flouds/flouds.cpp): their parts one after the other, in the formats of the parts.
use succinct_filesystem.Base.{ℕ, ◌+◌, ◌≡◌, refl, List, ◌++◌, Option, some, ◌>>=◌, arith}
use mathlib.Core.List.{append_assoc}
use succinct_filesystem.Base.Seq.{length, length-append}
use succinct_filesystem.BitVector.{BitVector}
use succinct_filesystem.NameSequence.{NameSequence}
use succinct_filesystem.WaveletTree.{TwoBitWaveletTree}
use succinct_filesystem.Flouds.{Flouds}
use succinct_filesystem.Serial.Format.{Format}

module _ (B : BitVector) (FB : Format B.Carrier) where
  pub serialize_tree : TwoBitWaveletTree B → List ℕ
  serialize_tree t = FB.serialize t.root_bv ++ (FB.serialize t.left_bv ++ FB.serialize t.right_bv)

  pub deserialize_tree : List ℕ → Option (TwoBitWaveletTree B × List ℕ)
  deserialize_tree bytes = FB.deserialize bytes >>= λ (root : B.Carrier × List ℕ).
      FB.deserialize root.1 >>= λ (left : B.Carrier × List ℕ).
      FB.deserialize left.1 >>= λ (right : B.Carrier × List ℕ).
      some (record { root_bv = root.0; left_bv = left.0; right_bv = right.0 }, right.1)

  pub size_tree : TwoBitWaveletTree B → ℕ
  size_tree t =
      FB.get_serialized_size t.root_bv
      + FB.get_serialized_size t.left_bv
      + FB.get_serialized_size t.right_bv

  pub record TreeFits (t : TwoBitWaveletTree B) : Type 0 where
    pub root_fits : FB.IsValid t.root_bv
    pub left_fits : FB.IsValid t.left_bv
    pub right_fits : FB.IsValid t.right_bv

  pub length-serialize_tree :
      (t : TwoBitWaveletTree B) → TreeFits t → length (serialize_tree t) ≡ size_tree t
  unfolding serialize_tree size_tree
  length-serialize_tree t v = omega (
    arith,
    length-append (FB.serialize t.root_bv) (FB.serialize t.left_bv ++ FB.serialize t.right_bv),
    length-append (FB.serialize t.left_bv) (FB.serialize t.right_bv),
    FB.length-serialize t.root_bv v.root_fits,
    FB.length-serialize t.left_bv v.left_fits,
    FB.length-serialize t.right_bv v.right_fits,
  )

  pub tree_back :
      (t : TwoBitWaveletTree B) (rest : List ℕ)
      → TreeFits t
      → deserialize_tree (serialize_tree t ++ rest) ≡ some (t, rest)
  unfolding serialize_tree deserialize_tree
  tree_back t rest v =
      let left = FB.serialize t.left_bv in
      let right = FB.serialize t.right_bv in
      rw
        (
          append_assoc (FB.serialize t.root_bv) (left ++ right) rest,
          append_assoc left right rest,
          FB.deserialize-serialize t.root_bv (left ++ (right ++ rest)) v.root_fits,
          FB.deserialize-serialize t.left_bv (right ++ rest) v.left_fits,
          FB.deserialize-serialize t.right_bv rest v.right_fits,
        )
        refl

  module _ (N : NameSequence) (FN : Format N.Carrier) where
    pub serialize_flouds : Flouds B N → List ℕ
    serialize_flouds f =
        FB.serialize f.structure ++ (serialize_tree f.types ++ FN.serialize f.names)

    pub deserialize_flouds : List ℕ → Option (Flouds B N × List ℕ)
    deserialize_flouds bytes = FB.deserialize bytes >>= λ (structure : B.Carrier × List ℕ).
        deserialize_tree structure.1 >>= λ (types : TwoBitWaveletTree B × List ℕ).
        FN.deserialize types.1 >>= λ (names : N.Carrier × List ℕ).
        some (record { structure = structure.0; types = types.0; names = names.0 }, names.1)

    pub size_flouds : Flouds B N → ℕ
    size_flouds f =
        FB.get_serialized_size f.structure + size_tree f.types + FN.get_serialized_size f.names

    pub record FloudsFits (f : Flouds B N) : Type 0 where
      pub structure_fits : FB.IsValid f.structure
      pub types_fit : TreeFits f.types
      pub names_fit : FN.IsValid f.names

    -- In any formats of the bit vectors and the names in which valid ones are read back, as in those of
    -- the array bit vector (Serial.Packed) and the array of names (Serial.Names), a FLOUDS whose four
    -- bit vectors and whose names are valid in them is read back from the bytes that it was saved as,
    -- which are as many as get_serialized_size announces.
    pub flouds_lem :
        (f : Flouds B N) (rest : List ℕ)
        → FloudsFits f
        → (length (serialize_flouds f) ≡ size_flouds f)
          × (deserialize_flouds (serialize_flouds f ++ rest) ≡ some (f, rest))
    unfolding serialize_flouds deserialize_flouds size_flouds
    flouds_lem f rest v =
        let types = serialize_tree f.types in
        let names = FN.serialize f.names in
        (
          omega (
            arith,
            length-append (FB.serialize f.structure) (types ++ names),
            length-append types names,
            FB.length-serialize f.structure v.structure_fits,
            length-serialize_tree f.types v.types_fit,
            FN.length-serialize f.names v.names_fit,
          ),
          rw
              (
                append_assoc (FB.serialize f.structure) (types ++ names) rest,
                append_assoc types names rest,
                FB.deserialize-serialize f.structure (types ++ (names ++ rest)) v.structure_fits,
                tree_back f.types (names ++ rest) v.types_fit,
                FN.deserialize-serialize f.names rest v.names_fit,
              )
              refl,
        )
