-- ===== src/Serial.antt =====
-- The abstract class Serializable (src/serialization/serializable.hpp) for the objects of a type:
-- the bytes that serialize appends, their announced number, and the object that deserialize makes
-- of an object and such bytes.
pub mod Format
pub mod Bits
pub mod Tree
pub mod Names
pub mod Nodes
pub mod Packed
mod Tests
use succinct_filesystem.Base.{ℕ, ◌≡◌, List}
use succinct_filesystem.Base.Seq.{length}

pub record Serializable (A : Type 0) : Type 0 where
  pub serialize : A → List ℕ
  pub deserialize : A → List ℕ → A
  pub get_serialized_size : A → ℕ
  pub length-serialize : (a : A) → length (serialize a) ≡ get_serialized_size a
