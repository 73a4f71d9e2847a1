-- ===== src/Witness/Toys/JsonToy.antt =====
-- Two JSON texts, by their names, whose objects are given.
use zkas_signer.Prelude.{
  ℕ, List, [], ◌∷◌, map, Option, none, some, ok, err, ◌==s◌, if◌then◌else◌, codes,
}
use zkas_signer.Text.{Str}
use zkas_signer.Crates.Json.{Json, Member, text, number, rows}

pub data ToyValue : Type 0 where
  member : Member → ToyValue
  row : List Str → ToyValue
  object : List (Str × Member) → ToyValue

abbrev pub lookup : Str → List (Str × Member) → Option ToyValue
lookup k [] = none
lookup k (f ∷ fs) = let rest = lookup k fs in if k ==s f.0 then some (member f.1) else rest

abbrev pub toy_get : ToyValue → Str → Option ToyValue
toy_get (object fs) k = lookup k fs
toy_get (member m) k = none
toy_get (row t) k = none

abbrev pub toy_as_str : ToyValue → Option Str
toy_as_str (member (text s)) = some s
toy_as_str _ = none

abbrev pub toy_as_u64 : ToyValue → Option ℕ
toy_as_u64 (member (number n)) = some n
toy_as_u64 _ = none

abbrev pub toy_as_array : ToyValue → Option (List ToyValue)
toy_as_array (member (rows ts)) = some (map row ts)
toy_as_array (row t) = some (map (λ s. member (text s)) t)
toy_as_array _ = none

abbrev pub toy_json_of : List (Str × Member) → List (Str × Member) → Json
toy_json_of first second = record {
  Value = ToyValue;
  from_str = λ s.
      if s ==s codes "first"
      then ok (object first)
      else if s ==s codes "second"
      then ok (object second)
      else err (codes "expected value");
  get = toy_get;
  as_str = toy_as_str;
  as_u64 = toy_as_u64;
  as_array = toy_as_array;
  object_to_string = λ fs. codes "first";
  tags_from_str = λ s. ok [];
}
