-- ===== src/Witness/Toys/WireToy.antt =====
-- A JSON crate whose texts are written and read back: each list is led by its length.
use zkas_signer.Prelude.{
  ℕ, zero, suc, ◌≡◌, ◌∙◌, refl, ap, List, [], ◌∷◌, ◌++◌, Option, none, some, Result, ok, err,
  length, codes, append_assoc, append-nil, sym, map,
}
use zkas_signer.Text.{Str}
use zkas_signer.Crates.Json.{
  Json, Member, text, number, rows, member_of, Holds, HoldsRow, HoldsRows, JsonLaws,
}
use zkas_signer.Witness.Toys.JsonToy.{
  ToyValue, member, row, object, toy_as_str, toy_as_u64, toy_as_array,
}

-- A reader gives a value and the text that is left.
abbrev Reader {ℓ} : Type ℓ → Type ℓ
Reader A = Str → Option (A × Str)

then_read {ℓ κ} : {A : Type ℓ} {B : Type κ} → Option (A × Str) → (A → Reader B) → Option (B × Str)
then_read none k = none
then_read (some (a, s)) k = k a s

write_all {ℓ} : {A : Type ℓ} → (A → Str) → List A → Str
write_all w [] = []
write_all w (a ∷ l) = w a ++ write_all w l

write_list {ℓ} : {A : Type ℓ} → (A → Str) → List A → Str
write_list w l = length l ∷ write_all w l

read_all {ℓ} : {A : Type ℓ} → Reader A → ℕ → Reader (List A)
read_all r zero s = some ([], s)
read_all r (suc n) s = then_read (r s) λ a s1. then_read (read_all r n s1) λ l s2. some (a ∷ l, s2)

read_list {ℓ} : {A : Type ℓ} → Reader A → Reader (List A)
read_list r [] = none
read_list r (n ∷ s) = read_all r n s

abbrev Undoes {ℓ} : {A : Type ℓ} → (A → Str) → Reader A → Type ℓ
Undoes {A = A} w r = (a : A) (rest : Str) → r (w a ++ rest) ≡ some (a, rest)

read_all_lem {ℓ} :
    {A : Type ℓ} (w : A → Str) (r : Reader A)
    → Undoes w r
    → (l : List A) (rest : Str) → read_all r (length l) (write_all w l ++ rest) ≡ some (l, rest)
unfolding read_all write_all then_read
read_all_lem w r h [] rest = refl
read_all_lem w r h (a ∷ l) rest =
    rw
      (
        append_assoc (w a) (write_all w l) rest,
        h a (write_all w l ++ rest),
        read_all_lem w r h l rest,
      )
      refl

read_list_lem {ℓ} :
    {A : Type ℓ} (w : A → Str) (r : Reader A) → Undoes w r → Undoes (write_list w) (read_list r)
unfolding read_list write_list
read_list_lem w r h l rest = read_all_lem w r h l rest

read_one : Reader ℕ
read_one [] = none
read_one (c ∷ s) = some (c, s)

write_one : ℕ → Str
write_one c = c ∷ []

read_one_lem : Undoes write_one read_one
unfolding write_one read_one
read_one_lem c rest = refl

write_text : Str → Str
write_text = write_list write_one

read_text : Reader Str
read_text = read_list read_one

write_rows : List (List Str) → Str
write_rows = write_list (write_list write_text)

read_rows : Reader (List (List Str))
read_rows = read_list (read_list read_text)

write_member : Member → Str
write_member (text s) = 0 ∷ write_text s
write_member (number n) = 1 ∷ n ∷ []
write_member (rows ts) = 2 ∷ write_rows ts

read_member : Reader Member
read_member [] = none
read_member (zero ∷ s) = then_read (read_text s) λ t s1. some (text t, s1)
read_member (suc zero ∷ s) = then_read (read_one s) λ n s1. some (number n, s1)
read_member (_ ∷ s) = then_read (read_rows s) λ ts s1. some (rows ts, s1)

write_field : Str × Member → Str
write_field f = write_text f.0 ++ write_member f.1

read_field : Reader (Str × Member)
read_field s = then_read (read_text s) λ k s1. then_read (read_member s1) λ m s2. some ((k, m), s2)

read_text_lem : Undoes write_text read_text
unfolding write_text read_text
read_text_lem = read_list_lem write_one read_one read_one_lem

read_rows_lem : Undoes write_rows read_rows
unfolding write_rows read_rows
read_rows_lem =
    read_list_lem (write_list write_text) (read_list read_text)
      (read_list_lem write_text read_text read_text_lem)

read_member_lem : Undoes write_member read_member
unfolding write_member read_member then_read read_one
read_member_lem (text s) rest = rw (read_text_lem s rest) refl
read_member_lem (number n) rest = refl
read_member_lem (rows ts) rest = rw (read_rows_lem ts rest) refl

read_field_lem : Undoes write_field read_field
unfolding write_field read_field then_read
read_field_lem (k, m) rest =
    rw
      (
        append_assoc (write_text k) (write_member m) rest,
        read_text_lem k (write_member m ++ rest),
        read_member_lem m rest,
      )
      refl

abbrev held : Option Member → Option ToyValue
held none = none
held (some m) = some (member m)

abbrev get_member : ToyValue → Str → Option ToyValue
get_member (object fs) k = held (member_of k fs)
get_member (member m) k = none
get_member (row t) k = none

abbrev whole : Option (List (Str × Member) × Str) → Result ToyValue Str
whole none = err (codes "expected value")
whole (some (fs, rest)) = ok (object fs)

pub wire_text : List (Str × Member) → Str
wire_text = write_list write_field

pub wire_read : Str → Result ToyValue Str
wire_read s = whole (read_list read_field s)

-- `tags_from_str` stands for no tags.
abbrev pub wire_json : Json
wire_json = record {
  Value = ToyValue;
  from_str = wire_read;
  get = get_member;
  as_str = toy_as_str;
  as_u64 = toy_as_u64;
  as_array = toy_as_array;
  object_to_string = wire_text;
  tags_from_str = λ s. ok [];
}

HoldsRow-map : (t : List Str) → HoldsRow wire_json (map (λ s. member (text s)) t) t
HoldsRow-map [] = tt
HoldsRow-map (s ∷ t) = (refl, HoldsRow-map t)

HoldsRows-map : (ts : List (List Str)) → HoldsRows wire_json (map row ts) ts
HoldsRows-map [] = tt
HoldsRows-map (t ∷ ts) = ((map (λ s. member (text s)) t, refl, HoldsRow-map t), HoldsRows-map ts)

Holds-member : (m : Member) → Holds wire_json (member m) m
Holds-member (text s) = refl
Holds-member (number n) = refl
Holds-member (rows ts) = (map row ts, refl, HoldsRows-map ts)

wire_read-wire_text : (fs : List (Str × Member)) → wire_read (wire_text fs) ≡ ok (object fs)
unfolding wire_read wire_text
wire_read-wire_text fs = ap whole (
    ap (read_list read_field) (sym (append-nil (write_list write_field fs)))
    ∙ read_list_lem write_field read_field read_field_lem fs [])

pub wire_json-JsonLaws : JsonLaws wire_json
wire_json-JsonLaws = record {
  from_str-object = λ fs small.
      (object fs, wire_read-wire_text fs, λ k m e. (member m, rw e refl, Holds-member m));
}
