-- ===== src/Crates/Json.antt =====
-- The crate `serde_json`: values that are read, and the two texts that are written or read whole.
use zkas_signer.Prelude.{
  ℕ, ◌^◌, ◌<◌, ◌≡◌, Bool, true, false, List, [], ◌∷◌, Option, none, some, Result, ok, All, ◌==s◌,
}
use zkas_signer.Text.{Str}

-- What a member of the object of an event holds.
pub data Member : Type 0 where
  text : Str → Member
  number : ℕ → Member
  rows : List (List Str) → Member

pub record Json : Type 1 where
  pub Value : Type 0
  pub from_str : Str → Result Value Str
  pub get : Value → Str → Option Value
  pub as_str : Value → Option Str
  pub as_u64 : Value → Option ℕ
  pub as_array : Value → Option (List Value)
  -- `json!({ … }).to_string()`
  pub object_to_string : List (Str × Member) → Str
  -- `from_str::<Vec<Vec<String>>>`
  pub tags_from_str : Str → Result (List (List Str)) Str

-- The member that an object keeps under a name: the last that was written.
abbrev pub or_before : Option Member → Bool → Member → Option Member
or_before (some later) same m = some later
or_before none true m = some m
or_before none false m = none

abbrev pub member_of : Str → List (Str × Member) → Option Member
member_of k [] = none
member_of k (f ∷ fs) = or_before (member_of k fs) (k ==s f.0) f.1

-- A number is an `u64`.
abbrev pub IsInRange : Member → Type 0
IsInRange (text s) = Unit
IsInRange (number n) = n < 2 ^ 64
IsInRange (rows ts) = Unit

module _ (json : Json) where
  abbrev pub HoldsRow : List json.Value → List Str → Type 0
  HoldsRow [] [] = Unit
  HoldsRow [] (s ∷ ss) = ⊥
  HoldsRow (x ∷ xs) [] = ⊥
  HoldsRow (x ∷ xs) (s ∷ ss) = (json.as_str x ≡ some s) × HoldsRow xs ss

  abbrev pub HoldsRows : List json.Value → List (List Str) → Type 0
  HoldsRows [] [] = Unit
  HoldsRows [] (t ∷ ts) = ⊥
  HoldsRows (x ∷ xs) [] = ⊥
  HoldsRows (x ∷ xs) (t ∷ ts) =
      ((items : List json.Value) × (json.as_array x ≡ some items) × HoldsRow items t)
      × HoldsRows xs ts

  -- A value that is read is what was written.
  abbrev pub Holds : json.Value → Member → Type 0
  Holds x (text s) = json.as_str x ≡ some s
  Holds x (number n) = json.as_u64 x ≡ some n
  Holds x (rows ts) = (xs : List json.Value) × (json.as_array x ≡ some xs) × HoldsRows xs ts

-- The text of an object is read back as an object with the same members.
pub record JsonLaws (json : Json) : Type 0 where
  pub from_str-object :
      (fs : List (Str × Member))
      → All (λ f. IsInRange f.1) fs
      → (v : json.Value) × (json.from_str (json.object_to_string fs) ≡ ok v)
        × ((k : Str) (m : Member)
            → member_of k fs ≡ some m
            → (x : json.Value) × (json.get v k ≡ some x) × Holds json x m)
